-- ===== src/Processor/SingleThreaded/Execute.antt =====
-- src/processor/single_threaded.rs: the execution of a program.
use the_swarm.Common.{ℕ, Option, none, some, List, [], ◌∷◌, ◌++◌}
use the_swarm.Common.Map.{Map, nat_key, insert, add_all}
use the_swarm.Common.Result.{Result, ok, err}
use the_swarm.Types.{Vid, Shard}
use the_swarm.Processor.Instruction.{Operation, args_as_list}
use the_swarm.Processor.Program.{Instructions}
use the_swarm.Processor.SingleThreaded.{
  Error, Bus, calculate, retrieve_operand, retrieve_operands, store_local_shard,
}

-- The `HashSet` of the ids that the program's operands name.
unfoldable pub needed_ids : List Vid → Instructions → List Vid
needed_ids s [] = s
needed_ids s (i ∷ program) = needed_ids (add_all s (args_as_list i.operation)) program

abbrev pub keep_found : Map Vid Shard → Vid → Result Error (Option Shard) → Map Vid Shard
keep_found context id (ok (some v)) = insert context id v
keep_found context id (ok none) = context
keep_found context id (err e) = context

abbrev pub keep_error : List (Result Error Vid) → Option Error → List (Result Error Vid)
keep_error results none = results
keep_error results (some e) = results ++ (err e ∷ [])

module _ {S : Type 0} (bus : Bus S) where
  -- The loop of `prepare_context` over the needed ids.
  unfoldable pub fetch_all : List Vid → Map Vid Shard → S → S × Map Vid Shard
  fetch_all [] context s = (s, context)
  fetch_all (id ∷ ids) context s =
      let (s', r) = retrieve_operand bus id none s in fetch_all ids (keep_found context id r) s'

  unfoldable pub prepare_context : Instructions → S → S × Map Vid Shard
  unfolding fetch_all needed_ids
  prepare_context program s = fetch_all (needed_ids [] program) [] s

  module _ (galois_add : ℕ → ℕ → ℕ) where
    -- What one instruction adds to the context and to the results, once its operands are there.
    abbrev pub execute_next :
        {R : Type 0}
        → (Map Vid Shard → List (Result Error Vid) → S → R)
        → Vid
        → Map Vid Shard
        → List (Result Error Vid)
        → S × Result Error (Operation Shard)
        → R
    execute_next rest result_id context results (s, err e) =
        rest context (results ++ (err e ∷ [])) s
    execute_next rest result_id context results (s, ok operation) =
        rest (insert context result_id (calculate galois_add operation))
          (results ++ (ok result_id ∷ [])) s

    -- The loop over the instructions, with the context and the results so far.
    unfoldable pub execute_all :
        Instructions
        → Map Vid Shard
        → List (Result Error Vid)
        → S
        → S × Map Vid Shard × List (Result Error Vid)
    execute_all [] context results s = (s, context, results)
    execute_all (i ∷ rest) context results s =
        execute_next (execute_all rest) i.result context results
          (retrieve_operands bus i.operation context s)

  -- The loop that saves the context: a write that fails adds its error to the results.
  unfoldable pub save_all :
      Map Vid Shard → List (Result Error Vid) → S → S × List (Result Error Vid)
  save_all [] results s = (s, results)
  save_all ((id, output) ∷ context) results s =
      let (s', e) = store_local_shard bus id output s in save_all context (keep_error results e) s'

  unfoldable pub execute : (ℕ → ℕ → ℕ) → Instructions → S → S × List (Result Error Vid)
  unfolding prepare_context execute_all save_all
  execute galois_add program s =
      let (s1, context) = prepare_context program s in
      let (s2, context', results) = execute_all galois_add program context [] s1 in
      save_all context' results s2
