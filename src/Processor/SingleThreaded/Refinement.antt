-- ===== src/Processor/SingleThreaded/Refinement.antt =====
-- src/processor/single_threaded.rs: `execute` refines the sequential meaning of programs.
use the_swarm.Common.{
  ℕ, ◌≡◌, refl, sym, ap, ◌∙◌, inl, inr, ite, if_pos, if_neg, Option, none, some, List, [], ◌∷◌,
  ◌++◌, arith, ℕ_discrete, Option-cases,
}
use mathlib.Core.Path.{fun_ext}
use mathlib.Core.List.{append_assoc, append-nil}
use the_swarm.Common.Map.{
  Map, nat_key, get, insert, Distinct, insert-Distinct, get-insert, Fresh, get_of_Fresh,
}
use the_swarm.Common.Result.{Result, ok, err, ok_or}
use the_swarm.Types.{Vid, Shard}
use the_swarm.Processor.Program.{Instructions}
use the_swarm.Processor.Instruction.{Operation, Instruction, map_operation, transpose}
use the_swarm.Processor.SingleThreaded.{
  Error, no_shards_assigned, Bus, calculate, store_local_shard,
}
use the_swarm.Processor.SingleThreaded.Execute.{
  keep_found, keep_error, fetch_all, prepare_context, execute_next, execute_all, save_all, execute,
  needed_ids,
}
use the_swarm.Processor.SingleThreaded.Reference.{
  update, ref_apply, ref_run, IsReadable, IsMemory, or_else, env_of, retrieve_operand_lem,
  retrieve_operands_lem,
}

module _ {S : Type 0} (bus : Bus S) (contents : S → Vid → Option Shard)
    (law : IsReadable bus contents) where
  abbrev pub env : Map Vid Shard → S → Vid → Option Shard
  env = env_of bus contents law

  env-insert :
      (context : Map Vid Shard) (s : S) (id : Vid) (shard : Shard)
      → env (insert context id shard) s ≡ update (env context s) id shard
  env-insert context s id shard = fun_ext λ j. ground (arith, get-insert context id shard j)

  module _ (galois_add : ℕ → ℕ → ℕ) where
    abbrev tail :
        Instructions
        → Instruction Vid Vid
        → (Vid → Option Shard)
        → Option (Operation Shard)
        → List (Result Error Vid)
    tail program i f o =
        (ref_apply galois_add i.result f o).1
        ∷ (ref_run galois_add program (ref_apply galois_add i.result f o).0).1

    abbrev last :
        Instructions
        → Instruction Vid Vid
        → (Vid → Option Shard)
        → Option (Operation Shard)
        → Vid
        → Option Shard
    last program i f o = (ref_run galois_add program (ref_apply galois_add i.result f o).0).0

    step :
        (program : Instructions) (i : Instruction Vid Vid) (context : Map Vid Shard)
        (results : List (Result Error Vid)) (s : S) (o : Option (Operation Shard))
        → transpose (map_operation (env context s) i.operation) ≡ o
        → execute_all bus galois_add (i ∷ program) context results s
          ≡ execute_next bus galois_add
              (execute_all bus galois_add program)
              i.result
              context
              results
              (s, ok_or o no_shards_assigned)
    unfolding execute_all
    step program i context results s o e =
        ap
          (execute_next bus galois_add (execute_all bus galois_add program) i.result context
            results)
          (retrieve_operands_lem bus contents law s context i.operation
            ∙ ap (λ o. (s, ok_or o no_shards_assigned)) e)

    execute_all_lem :
        (program : Instructions) (context : Map Vid Shard) (results : List (Result Error Vid))
        (s : S)
        → Distinct context
        → (context' : Map Vid Shard) × (execute_all bus galois_add program context results s
            ≡ (s, context', results ++ (ref_run galois_add program (env context s)).1))
          × (env context' s ≡ (ref_run galois_add program (env context s)).0)
          × Distinct context'
    unfolding execute_all ref_run
    execute_all_lem [] context results s d =
        (context, ap (λ r. (s, context, r)) (sym (append-nil results)), refl, d)
    execute_all_lem (i ∷ program) context results s d =
        elim (Option-cases (transpose (map_operation (env context s) i.operation))) [
          | inl e ↦
              let (context', ran, same, d') =
                execute_all_lem program context (results ++ (err no_shards_assigned ∷ [])) s d in
              (
                context',
                step program i context results s none e
                    ∙ ran
                    ∙ ap (λ r. (s, context', r)) (append_assoc results _ _)
                    ∙ ap (λ o. (s, context', results ++ tail program i (env context s) o)) (sym e),
                same ∙ ap (λ o. last program i (env context s) o) (sym e),
                d',
              )
          | inr (operation, e) ↦
              let shard = calculate galois_add operation in
              let (context', ran, same, d') =
                execute_all_lem program (insert context i.result shard)
                  (results ++ (ok i.result ∷ [])) s (insert-Distinct context i.result shard d) in
              let grown = env-insert context s i.result shard in
              (
                context',
                step program i context results s (some operation) e
                    ∙ ran
                    ∙ ap (λ r. (s, context', r)) (append_assoc results _ _)
                    ∙ ap
                        (λ f. (
                          s,
                          context',
                          results ++ (ok i.result ∷ (ref_run galois_add program f).1),
                        ))
                        grown
                    ∙ ap (λ o. (s, context', results ++ tail program i (env context s) o)) (sym e),
                same
                    ∙ ap (λ f. (ref_run galois_add program f).0) grown
                    ∙ ap (λ o. last program i (env context s) o) (sym e),
                d',
              )
        ]

  -- What the context holds is what the memory holds.
  abbrev Sound : Map Vid Shard → S → Type 0
  Sound context s = (j : Vid) (v : Shard) → get context j ≡ some v → contents s j ≡ some v

  keep_found_lem :
      (context : Map Vid Shard) (s : S) (id : Vid) (o : Option Shard)
      → contents s id ≡ o
      → Distinct context
      → Sound context s
      → Distinct (keep_found context id (ok o)) × Sound (keep_found context id (ok o)) s
  keep_found_lem context s id none e d sound = (d, sound)
  keep_found_lem context s id (some v) e d sound = (
    insert-Distinct context id v d,
    λ j w g. ground (arith, get-insert context id v j, sound j w),
  )

  fetch_all_lem :
      (ids : List Vid) (context : Map Vid Shard) (s : S)
      → Distinct context
      → Sound context s
      → (context' : Map Vid Shard) × (fetch_all bus ids context s ≡ (s, context'))
        × Distinct context'
        × Sound context' s
  unfolding fetch_all
  fetch_all_lem [] context s d sound = (context, refl, d, sound)
  fetch_all_lem (id ∷ ids) context s d sound =
      let (d1, sound1) = keep_found_lem context s id (contents s id) refl d sound in
      let (context', ran, d', sound') =
        fetch_all_lem ids (keep_found context id (ok (contents s id))) s d1 sound1 in
      (
        context',
        ap
              (λ (p : S × Result Error (Option Shard)).
                fetch_all bus ids (keep_found context id p.1) p.0)
              (retrieve_operand_lem bus contents law s id none)
            ∙ ran,
        d',
        sound',
      )

  env-Sound : (context : Map Vid Shard) (s : S) → Sound context s → env context s ≡ contents s
  env-Sound context s sound = fun_ext λ j. elim (Option-cases (get context j)) [
    | inl e ↦ rw e refl
    | inr (v, e) ↦ rw e (sym (sound j v e))
  ]

  -- A run up to its writes: the results are there, and the context holds what is to be saved.
  pub execute-save_all :
      (galois_add : ℕ → ℕ → ℕ) (program : Instructions) (s : S)
      → (context : Map Vid Shard) × (execute bus galois_add program s
          ≡ save_all bus context (ref_run galois_add program (contents s)).1 s)
        × (env context s ≡ (ref_run galois_add program (contents s)).0)
        × Distinct context
  unfolding execute prepare_context get
  execute-save_all galois_add program s =
      let (context, fetched, d, sound) =
        fetch_all_lem (needed_ids [] program) [] s tt (λ j v e. absurd (cc)) in
      let (context', ran, same, d') = execute_all_lem galois_add program context [] s d in
      let start = env-Sound context s sound in
      (
        context',
        ap
              (λ (p : S × Map Vid Shard).
                let (s2, c, results) = execute_all bus galois_add program p.1 [] p.0 in
                save_all bus c results s2)
              fetched
            ∙ ap (λ (p : S × Map Vid Shard × List (Result Error Vid)). save_all bus p.1 p.2 p.0) ran
            ∙ ap (λ f. save_all bus context' (ref_run galois_add program f).1 s) start,
        same ∙ ap (λ f. (ref_run galois_add program f).0) start,
        d',
      )

module _ {S : Type 0} (bus : Bus S) (contents : S → Vid → Option Shard)
    (law : IsMemory bus contents) where
  store_lem :
      (s : S) (id : Vid) (shard : Shard)
      → (s' : S) × (store_local_shard bus id shard s ≡ (s', none))
        × (contents s' ≡ update (contents s) id shard)
  unfolding store_local_shard
  store_lem s id shard =
      let (s', wrote, holds) = law.write_lem s id shard in
      (s', rw (wrote, store_local_shard) refl, holds)

  -- The context, once saved, is what the memory holds.
  save_all_lem :
      (context : Map Vid Shard) (results : List (Result Error Vid)) (s : S)
      → Distinct context
      → (s' : S) × (save_all bus context results s ≡ (s', results))
        × (contents s' ≡ env bus contents law.readable context s)
  unfolding save_all get
  save_all_lem [] results s d = (s, refl, refl)
  save_all_lem ((id, output) ∷ context) results s d =
      let (s1, wrote, holds) = store_lem s id output in
      let (s', ran, holds') = save_all_lem context results s1 d.1 in
      (
        s',
        ap (λ (p : S × Option Error). save_all bus context (keep_error results p.1) p.0) wrote
            ∙ ran,
        holds'
            ∙ fun_ext (λ j.
              ap (λ (f : Vid → Option Shard). or_else (get context j) (f j)) holds
              ∙ saved context s id output j d.0),
      )
    where
      saved :
          (context : Map Vid Shard) (s : S) (id : Vid) (output : Shard) (j : Vid)
          → Fresh context id
          → or_else (get context j) (update (contents s) id output j)
            ≡ or_else (ite (ℕ_discrete id j) (some output) (get context j)) (contents s j)
      saved context s id output j f = elim (ℕ_discrete id j) [
        | yes p ↦ rw (if_pos _ p, if_pos _ p, ← p, get_of_Fresh context id f) refl
        | no p ↦ rw (if_neg _ p, if_neg _ p) refl
      ]

  -- Against a memory that answers and keeps what is written, a run of a program gives the results
  -- of its sequential meaning, instruction by instruction, also where operands are missing; and
  -- afterwards the memory holds what that meaning leaves at every id.
  pub execute-ref_run :
      (galois_add : ℕ → ℕ → ℕ) (program : Instructions) (s : S)
      → (s' : S) × (execute bus galois_add program s
          ≡ (s', (ref_run galois_add program (contents s)).1))
        × (contents s' ≡ (ref_run galois_add program (contents s)).0)
  execute-ref_run galois_add program s =
      let (context, ran, same, d) =
        execute-save_all bus contents law.readable galois_add program s in
      let (s', saved, holds) =
        save_all_lem context (ref_run galois_add program (contents s)).1 s d in
      (s', ran ∙ saved, holds ∙ same)
