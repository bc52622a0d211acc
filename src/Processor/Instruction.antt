-- ===== src/Processor/Instruction.antt =====
-- src/processor/instruction.rs: operations over operands, and instructions.
pub mod Build
use the_swarm.Common.{Option, none, some, List, [], ◌∷◌}
use mathlib.Core.Option

pub record BinaryOp (O : Type 0) : Type 0 where
  pub first : O
  pub second : O

pub record UnaryOp (O : Type 0) : Type 0 where
  pub operand : O

pub data Operation (O : Type 0) : Type 0 where
  sub : BinaryOp O → Operation O
  plus : BinaryOp O → Operation O
  inv : UnaryOp O → Operation O
  nand : BinaryOp O → Operation O
  nor : BinaryOp O → Operation O

pub record Instruction (O R : Type 0) : Type 0 where
  pub operation : Operation O
  pub result : R

module _ {O P : Type 0} (f : O → P) where
  abbrev pub map_binary : BinaryOp O → BinaryOp P
  map_binary b = record { first = f b.first; second = f b.second }

  abbrev pub map_unary : UnaryOp O → UnaryOp P
  map_unary u = record { operand = f u.operand }

  unfoldable pub map_operation : Operation O → Operation P
  map_operation (sub b) = sub (map_binary b)
  map_operation (plus b) = plus (map_binary b)
  map_operation (inv u) = inv (map_unary u)
  map_operation (nand b) = nand (map_binary b)
  map_operation (nor b) = nor (map_binary b)

  unfoldable pub map_operands : {R : Type 0} → Instruction O R → Instruction P R
  unfolding map_operation
  map_operands i = record { operation = map_operation i.operation; result = i.result }

module _ {O : Type 0} where
  unfoldable pub args_as_list : Operation O → List O
  args_as_list (sub b) = b.first ∷ b.second ∷ []
  args_as_list (plus b) = b.first ∷ b.second ∷ []
  args_as_list (nand b) = b.first ∷ b.second ∷ []
  args_as_list (nor b) = b.first ∷ b.second ∷ []
  args_as_list (inv u) = u.operand ∷ []

  both : Option O → Option O → Option (BinaryOp O)
  both (some x) (some y) = some (record { first = x; second = y })
  both none y = none
  both (some x) none = none

  unfoldable pub transpose_binary : BinaryOp (Option O) → Option (BinaryOp O)
  unfolding both
  transpose_binary b = both b.first b.second

  unfoldable pub transpose_unary : UnaryOp (Option O) → Option (UnaryOp O)
  transpose_unary u = Option.map (λ o. record { operand = o }) u.operand

  -- The operation of `transpose_operation`, by its variant.
  unfoldable pub transpose : Operation (Option O) → Option (Operation O)
  unfolding transpose_binary transpose_unary
  transpose (sub b) = Option.map sub (transpose_binary b)
  transpose (plus b) = Option.map plus (transpose_binary b)
  transpose (inv u) = Option.map inv (transpose_unary u)
  transpose (nand b) = Option.map nand (transpose_binary b)
  transpose (nor b) = Option.map nor (transpose_binary b)

  unfoldable pub transpose_operation :
      {R : Type 0} → Instruction (Option O) R → Option (Instruction O R)
  unfolding transpose
  transpose_operation i =
      Option.map (λ o. record { operation = o; result = i.result }) (transpose i.operation)
