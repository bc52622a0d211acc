-- ===== src/Processor/SingleThreaded/Reference.antt =====
-- src/processor/single_threaded.rs: executing a program against a memory that answers, compared
-- with a plain sequential meaning of programs.
use the_swarm.Common.{
  ℕ, ◌≡◌, refl, ap, ◌∙◌, ite, Option, none, some, List, [], ◌∷◌, arith, ℕ_discrete,
}
use mathlib.Core.Option
use the_swarm.Common.Map.{Map, nat_key, get}
use the_swarm.Common.Result.{Result, ok, err, ok_or}
use the_swarm.Types.{Vid, Shard}
use the_swarm.Processor.Program.{Instructions}
use the_swarm.Processor.Instruction.{
  BinaryOp, UnaryOp, Operation, sub, plus, inv, nand, nor, map_operation, map_binary, map_unary,
  transpose, transpose_binary, transpose_unary,
}
use the_swarm.Processor.SingleThreaded.{
  Error, no_shards_assigned, Bus, calculate, retrieve_local_shard, retrieve_operand,
  retrieve_missing, retrieve_binary, retrieve_unary, retrieve_operands, join, pair, to_unary, Bused,
  assigned, lift, ◌>>=◌,
}

abbrev pub update : (Vid → Option Shard) → Vid → Shard → Vid → Option Shard
update env id shard j = ite (ℕ_discrete id j) (some shard) (env j)

-- The meaning of one instruction, and of a program: the results, and what each id holds after it.
module _ (galois_add : ℕ → ℕ → ℕ) where
  abbrev pub ref_apply :
      Vid
      → (Vid → Option Shard)
      → Option (Operation Shard)
      → (Vid → Option Shard) × Result Error Vid
  ref_apply result env none = (env, err no_shards_assigned)
  ref_apply result env (some operation) =
      (update env result (calculate galois_add operation), ok result)

  unfoldable pub ref_run :
      Instructions → (Vid → Option Shard) → (Vid → Option Shard) × List (Result Error Vid)
  ref_run [] env = (env, [])
  ref_run (i ∷ program) env =
      let (env', r) = ref_apply i.result env (transpose (map_operation env i.operation)) in
      let (last, results) = ref_run program env' in (last, r ∷ results)

-- A memory that answers every read at once, and applies no write while it does.
pub record IsReadable {S : Type 0} (bus : Bus S) (contents : S → Vid → Option Shard) : Type 0 where
  pub request_lem : (s : S) (id : Vid) → bus.request s id ≡ some s
  pub response_lem : (s : S) (id : Vid) → bus.response s id ≡ (s, some (contents s id))

-- One that also keeps what is written. Its contents are what it holds once the writes that are
-- queued are applied; a run reads before it writes.
pub record IsMemory {S : Type 0} (bus : Bus S) (contents : S → Vid → Option Shard) : Type 0 where
  pub readable : IsReadable bus contents
  pub write_lem :
      (s : S) (id : Vid) (shard : Shard)
      → (s' : S) × (bus.write s id shard ≡ some s') × (contents s' ≡ update (contents s) id shard)

abbrev pub or_else : Option Shard → Option Shard → Option Shard
or_else (some v) other = some v
or_else none other = other

pair_lem : (x y : Option Shard) → pair x y ≡ transpose_binary (record { first = x; second = y })
unfolding transpose_binary
pair_lem none y = refl
pair_lem (some x) none = refl
pair_lem (some x) (some y) = refl

to_unary_lem : (x : Option Shard) → to_unary x ≡ transpose_unary (record { operand = x })
unfolding transpose_unary
to_unary_lem none = refl
to_unary_lem (some x) = refl

bind_lem :
    {S A B : Type 0} (m : Bused S A) (f : A → Bused S B) (s : S) {s' : S} {a : A}
    → m s ≡ (s', ok a)
    → (m >>= f) s ≡ f a s'
bind_lem {S} {A} {B} m f s e =
    ap
      (λ (r : S × Result Error A). elim r.1 as (λ _. S × Result Error B) [
        | ok a ↦ f a r.0
        | err x ↦ (r.0, err x)
      ])
      e

assigned_lem :
    {S A : Type 0} (wrap : A → Operation Shard) (m : Bused S (Option A)) (s : S) (o : Option A)
    → m s ≡ (s, ok o)
    → assigned wrap m s ≡ (s, ok_or (Option.map wrap o) no_shards_assigned)
assigned_lem wrap m s none e =
    bind_lem m (λ o. lift (ok_or o no_shards_assigned) >>= λ a. lift (ok (wrap a))) s e
assigned_lem wrap m s (some a) e =
    bind_lem m (λ o. lift (ok_or o no_shards_assigned) >>= λ a. lift (ok (wrap a))) s e

join_lem :
    {S : Type 0} (m n : Bused S (Option Shard)) (s : S) (x y : Option Shard)
    → m s ≡ (s, ok x)
    → n s ≡ (s, ok y)
    → (join m n >>= λ both. lift (ok (pair both.0 both.1))) s ≡ (s, ok (pair x y))
unfolding join
join_lem m n s x y e f = ground (arith, e, f)

module _ {S : Type 0} (bus : Bus S) (contents : S → Vid → Option Shard)
    (law : IsReadable bus contents) where
  -- What an id holds, the context first.
  abbrev pub env_of : Map Vid Shard → S → Vid → Option Shard
  env_of context s id = or_else (get context id) (contents s id)

  pub retrieve_local_lem :
      (s : S) (id : Vid) → retrieve_local_shard bus id s ≡ (s, ok (contents s id))
  unfolding retrieve_local_shard
  retrieve_local_lem s id = ground (arith, law.request_lem s id, law.response_lem s id)

  pub retrieve_operand_lem :
      (s : S) (id : Vid) (o : Option Shard)
      → retrieve_operand bus id o s ≡ (s, ok (or_else o (contents s id)))
  unfolding retrieve_operand
  retrieve_operand_lem s id none = retrieve_local_lem s id
  retrieve_operand_lem s id (some v) = refl

  retrieve_missing_lem :
      (s : S) (b : BinaryOp Vid) (x y : Option Shard)
      → retrieve_missing bus b x y s
        ≡ (s, ok (pair (or_else x (contents s b.first)) (or_else y (contents s b.second))))
  unfolding retrieve_missing join
  retrieve_missing_lem s b (some x) (some y) = refl
  retrieve_missing_lem s b (some x) none =
      bind_lem (retrieve_operand bus b.second none) (λ y. lift (ok (pair (some x) y))) s
        (retrieve_operand_lem s b.second none)
  retrieve_missing_lem s b none (some y) =
      bind_lem (retrieve_operand bus b.first none) (λ x. lift (ok (pair x (some y)))) s
        (retrieve_operand_lem s b.first none)
  retrieve_missing_lem s b none none =
      join_lem (retrieve_operand bus b.first none) (retrieve_operand bus b.second none) s _ _
        (retrieve_operand_lem s b.first none) (retrieve_operand_lem s b.second none)

  retrieve_binary_lem :
      (s : S) (context : Map Vid Shard) (b : BinaryOp Vid)
      → retrieve_binary bus b context s
        ≡ (s, ok (transpose_binary (map_binary (env_of context s) b)))
  unfolding retrieve_binary
  retrieve_binary_lem s context b =
      retrieve_missing_lem s b (get context b.first) (get context b.second)
      ∙ ap (λ o. (s, ok o)) (pair_lem _ _)

  retrieve_unary_lem :
      (s : S) (context : Map Vid Shard) (u : UnaryOp Vid)
      → retrieve_unary bus u context s ≡ (s, ok (transpose_unary (map_unary (env_of context s) u)))
  unfolding retrieve_unary
  retrieve_unary_lem s context u =
      bind_lem (retrieve_operand bus u.operand (get context u.operand))
        (λ o. lift (ok (to_unary o))) s (retrieve_operand_lem s u.operand (get context u.operand))
      ∙ ap (λ o. (s, ok o)) (to_unary_lem _)

  pub retrieve_operands_lem :
      (s : S) (context : Map Vid Shard) (op : Operation Vid)
      → retrieve_operands bus op context s
        ≡ (s, ok_or (transpose (map_operation (env_of context s) op)) no_shards_assigned)
  unfolding retrieve_operands transpose map_operation
  retrieve_operands_lem s context (sub b) =
      assigned_lem sub (retrieve_binary bus b context) s _ (retrieve_binary_lem s context b)
  retrieve_operands_lem s context (plus b) =
      assigned_lem plus (retrieve_binary bus b context) s _ (retrieve_binary_lem s context b)
  retrieve_operands_lem s context (inv u) =
      assigned_lem inv (retrieve_unary bus u context) s _ (retrieve_unary_lem s context u)
  retrieve_operands_lem s context (nand b) =
      assigned_lem nand (retrieve_binary bus b context) s _ (retrieve_binary_lem s context b)
  retrieve_operands_lem s context (nor b) =
      assigned_lem nor (retrieve_binary bus b context) s _ (retrieve_binary_lem s context b)
