-- ===== src/Processor/SingleThreaded.antt =====
-- src/processor/single_threaded.rs: `ShardProcessor`, to the operands of one instruction. The
-- channels to the memory are tokio's and stand as a `Bus` over a state of their own; the addition
-- in GF(2^8) is the erasure-coding crate's.
pub mod Execute
pub mod Reference
pub mod Refinement
pub mod Run
pub mod Queue
use the_swarm.Common.{
  ℕ, ◌≡◌, Bool, true, false, not, ◌&&◌, ◌||◌, Option, none, some, List, [], ◌∷◌, ◌++◌, ◌==◌,
  if◌then◌else◌,
}
use the_swarm.Common.Map.{Map, nat_key, get}
use the_swarm.Common.Result.{Result, ok, err, ok_or}
use the_swarm.Types.{Vid, Shard}
use the_swarm.Processor.Instruction.{
  BinaryOp, UnaryOp, Operation, sub, plus, inv, nand, nor, Instruction, args_as_list,
}

pub data Error : Type 0 where
  data_request_channel_closed data_write_channel_closed response_channel_closed : Error
  -- the mock encoding's only error, `NotEnoughShards`
  encoding no_shards_assigned : Error

-- `map_zip`: the positions of `a` that `b` has too are overwritten.
unfoldable pub map_zip : {T : Type 0} → List T → List T → (T → T → T) → List T
map_zip [] b f = []
map_zip (r ∷ a) [] f = r ∷ a
map_zip (r ∷ a) (item ∷ b) f = f r item ∷ map_zip a b f

abbrev pub as_u8 : Bool → ℕ
as_u8 true = 1
as_u8 false = 0

abbrev pub nonzero : ℕ → Bool
nonzero a = not (a == 0)

unfoldable pub calculate : (ℕ → ℕ → ℕ) → Operation Shard → Shard
unfolding map_zip
calculate galois_add (sub b) = map_zip b.first b.second galois_add
calculate galois_add (plus b) = map_zip b.first b.second galois_add
calculate galois_add (inv u) = u.operand
calculate galois_add (nand b) =
    map_zip b.first b.second (λ x y. as_u8 (not (nonzero x && nonzero y)))
calculate galois_add (nor b) =
    map_zip b.first b.second (λ x y. as_u8 (not (nonzero x || nonzero y)))

-- The processor's ends of the channels to the memory. `none` is a channel that was closed.
pub record Bus (S : Type 0) : Type 0 where
  -- `reads.send((id, response_sender))`
  pub request : S → Vid → Option S
  -- the value that arrives on the response's channel
  pub response : S → Vid → S × Option (Option Shard)
  -- `writes.send((id, shard))`
  pub write : S → Vid → Shard → Option S

abbrev pub Bused : Type 0 → Type 0 → Type 0
Bused S A = S → S × Result Error A

infixl 5 ◌>>=◌
abbrev pub ◌>>=◌ : {S A B : Type 0} → Bused S A → (A → Bused S B) → Bused S B
◌>>=◌ m f s = let (s', r) = m s in elim r [ ok a ↦ f a s' | err e ↦ (s', err e) ]

abbrev pub lift : {S A : Type 0} → Result Error A → Bused S A
lift r s = (s, r)

abbrev pub await_response :
    {S : Type 0} → S × Option (Option Shard) → S × Result Error (Option Shard)
await_response (s, r) = (s, ok_or r response_channel_closed)

-- `join!` lets both futures finish before the first error is returned.
unfoldable pub join : {S A B : Type 0} → Bused S A → Bused S B → Bused S (A × B)
join m n s =
    let (s1, r1) = m s in
    let (s2, r2) = n s1 in
    elim r1 [
      | err e ↦ (s2, err e)
      | ok a ↦ elim r2 [ err e ↦ (s2, err e) | ok b ↦ (s2, ok (a, b)) ]
    ]

abbrev pub pair : Option Shard → Option Shard → Option (BinaryOp Shard)
pair none y = none
pair (some x) none = none
pair (some x) (some y) = some (record { first = x; second = y })

abbrev pub to_unary : Option Shard → Option (UnaryOp Shard)
to_unary none = none
to_unary (some o) = some (record { operand = o })

-- `.await?.ok_or(Error::NoShardsAssigned)?`, and the variant around the operands.
abbrev pub assigned :
    {S A : Type 0} → (A → Operation Shard) → Bused S (Option A) → Bused S (Operation Shard)
assigned wrap m = do o ← m; a ← lift (ok_or o no_shards_assigned); lift (ok (wrap a))

module _ {S : Type 0} (bus : Bus S) where
  unfoldable pub request_local_shard : Vid → Bused S S
  request_local_shard id s = elim (bus.request s id) [
    | none ↦ (s, err data_request_channel_closed)
    | some s' ↦ (s', ok s')
  ]

  unfoldable pub retrieve_local_shard : Vid → Bused S (Option Shard)
  unfolding request_local_shard
  retrieve_local_shard id = do _ ← request_local_shard id; λ s. await_response (bus.response s id)

  unfoldable pub store_local_shard : Vid → Shard → S → S × Option Error
  store_local_shard id shard s = elim (bus.write s id shard) [
    | none ↦ (s, some data_write_channel_closed)
    | some s' ↦ (s', none)
  ]

  unfoldable pub retrieve_operand : Vid → Option Shard → Bused S (Option Shard)
  unfolding retrieve_local_shard
  retrieve_operand operand (some o) = lift (ok (some o))
  retrieve_operand operand none = retrieve_local_shard operand

  -- The match on what the context holds.
  unfoldable pub retrieve_missing :
      BinaryOp Vid → Option Shard → Option Shard → Bused S (Option (BinaryOp Shard))
  unfolding retrieve_operand join
  retrieve_missing b (some x) (some y) = lift (ok (pair (some x) (some y)))
  retrieve_missing b (some x) none = do
    y ← retrieve_operand b.second none
    lift (ok (pair (some x) y))
  retrieve_missing b none (some y) = do
    x ← retrieve_operand b.first none
    lift (ok (pair x (some y)))
  retrieve_missing b none none = do
    both ← join (retrieve_operand b.first none) (retrieve_operand b.second none)
    lift (ok (pair both.0 both.1))

  unfoldable pub retrieve_binary : BinaryOp Vid → Map Vid Shard → Bused S (Option (BinaryOp Shard))
  unfolding retrieve_missing
  retrieve_binary b context = retrieve_missing b (get context b.first) (get context b.second)

  unfoldable pub retrieve_unary : UnaryOp Vid → Map Vid Shard → Bused S (Option (UnaryOp Shard))
  unfolding retrieve_operand
  retrieve_unary u context = do
    o ← retrieve_operand u.operand (get context u.operand)
    lift (ok (to_unary o))

  unfoldable pub retrieve_operands : Operation Vid → Map Vid Shard → Bused S (Operation Shard)
  unfolding retrieve_binary retrieve_unary
  retrieve_operands (sub b) context = assigned sub (retrieve_binary b context)
  retrieve_operands (plus b) context = assigned plus (retrieve_binary b context)
  retrieve_operands (inv u) context = assigned inv (retrieve_unary u context)
  retrieve_operands (nand b) context = assigned nand (retrieve_binary b context)
  retrieve_operands (nor b) context = assigned nor (retrieve_binary b context)
