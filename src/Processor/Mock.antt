-- ===== src/Processor/Mock.antt =====
-- src/processor/mock.rs: `MockProcessor`, which executes programs on whole data.
pub mod Agreement
use the_swarm.Common.{ℕ, ◌&&◌, ◌||◌, Option, none, some, List, [], ◌∷◌, ◌==◌, if◌then◌else◌}
use the_swarm.Common.Map.{Map, nat_key, get, insert}
use the_swarm.Common.Result.{Result, ok, err, ok_or, ◌>>=◌}
use the_swarm.Types.{Vid, Data}
use the_swarm.Processor.Program.{Instructions, Program}
use the_swarm.Processor.Instruction.{
  BinaryOp, UnaryOp, Operation, sub, plus, inv, nand, nor, Instruction,
}

pub data Error : Type 0 where
  data_not_found : Error

-- This module's own copy of `map_zip`.
unfoldable pub map_zip : {T : Type 0} → List T → List T → (T → T → T) → List T
map_zip [] b f = []
map_zip (r ∷ a) [] f = r ∷ a
map_zip (r ∷ a) (item ∷ b) f = f r item ∷ map_zip a b f

unfoldable pub calculate : (ℕ → ℕ → ℕ) → Operation Data → Data
unfolding map_zip
calculate galois_add (sub b) = map_zip b.first b.second galois_add
calculate galois_add (plus b) = map_zip b.first b.second galois_add
calculate galois_add (inv u) = u.operand
calculate galois_add (nand b) =
    map_zip b.first b.second (λ x y. if (x == 0) || (y == 0) then 1 else 0)
calculate galois_add (nor b) =
    map_zip b.first b.second (λ x y. if (x == 0) && (y == 0) then 1 else 0)

unfoldable pub retrieve_operand : Vid → Map Vid Data → Result Error Data
retrieve_operand operand storage = ok_or (get storage operand) data_not_found

unfoldable pub retrieve_binary : BinaryOp Vid → Map Vid Data → Result Error (BinaryOp Data)
unfolding retrieve_operand
retrieve_binary b storage = do
  x ← retrieve_operand b.first storage
  y ← retrieve_operand b.second storage
  ok (record { first = x; second = y })

unfoldable pub retrieve_unary : UnaryOp Vid → Map Vid Data → Result Error (UnaryOp Data)
unfolding retrieve_operand
retrieve_unary u storage = do x ← retrieve_operand u.operand storage; ok (record { operand = x })

abbrev wrap : {A : Type 0} → (A → Operation Data) → Result Error A → Result Error (Operation Data)
wrap variant r = r >>= λ a. ok (variant a)

unfoldable pub retrieve_operands : Operation Vid → Map Vid Data → Result Error (Operation Data)
unfolding retrieve_binary retrieve_unary
retrieve_operands (sub b) storage = wrap sub (retrieve_binary b storage)
retrieve_operands (plus b) storage = wrap plus (retrieve_binary b storage)
retrieve_operands (inv u) storage = wrap inv (retrieve_unary u storage)
retrieve_operands (nand b) storage = wrap nand (retrieve_binary b storage)
retrieve_operands (nor b) storage = wrap nor (retrieve_binary b storage)

module _ (galois_add : ℕ → ℕ → ℕ) where
  -- One instruction: the rest is skipped on an error, and what was inserted before stays.
  abbrev pub execute_next :
      {R : Type 0}
      → (Map Vid Data → R)
      → (Error → R)
      → Vid
      → Map Vid Data
      → Result Error (Operation Data)
      → R
  execute_next rest stop result storage (err e) = stop e
  execute_next rest stop result storage (ok operation) =
      rest (insert storage result (calculate galois_add operation))

  -- The loop of `execute_on`: the storage after it, and the error that ended it.
  unfoldable pub execute_all : Instructions → Map Vid Data → Map Vid Data × Option Error
  execute_all [] storage = (storage, none)
  execute_all (i ∷ rest) storage =
      execute_next (execute_all rest) (λ e. (storage, some e)) i.result storage
        (retrieve_operands i.operation storage)

  unfoldable pub execute_on : Program → Map Vid Data → Map Vid Data × Option Error
  unfolding execute_all
  execute_on program storage = execute_all program.instructions storage
