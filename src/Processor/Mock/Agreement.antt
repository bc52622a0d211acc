-- ===== src/Processor/Mock/Agreement.antt =====
-- src/processor/mock.rs and single_threaded.rs: the processor of whole data and the processor of
-- shards agree, shard by shard.
use the_swarm.Common.{
  ℕ, zero, suc, ◌≡◌, refl, sym, ap, ◌∙◌, inl, inr, Option, none, some, List, [], ◌∷◌, arith, take,
  drop, Option-cases,
}
use mathlib.Core.Path.{fun_ext}
use mathlib.Core.Option
use the_swarm.Common.Map.{Map, nat_key, get, insert, get-insert}
use the_swarm.Common.Result.{ok_or}
use the_swarm.Types.{Vid, Data, Shard}
use the_swarm.Processor.Program.{Instructions}
use the_swarm.Processor.Instruction.{Operation, sub, plus, inv, nand, nor, map_operation, transpose}
use the_swarm.Processor.SingleThreaded
use the_swarm.Processor.SingleThreaded.Reference.{update, ref_run, ref_apply}
use the_swarm.Processor.Mock.{
  Error, data_not_found, map_zip, calculate, retrieve_operands, execute_next, execute_all,
}

-- The part of a unit of data that one shard of it is, where the code is systematic.
abbrev pub part : ℕ → ℕ → List ℕ → List ℕ
part offset size bytes = take size (drop offset bytes)

map_zip-same :
    {T : Type 0} (a b : List T) (f : T → T → T) → SingleThreaded.map_zip a b f ≡ map_zip a b f
unfolding SingleThreaded.map_zip map_zip
map_zip-same [] b f = refl
map_zip-same (x ∷ a) [] f = refl
map_zip-same (x ∷ a) (y ∷ b) f = ap (◌∷◌ (f x y)) (map_zip-same a b f)

take-map_zip :
    (n : ℕ) (a b : List ℕ) (f : ℕ → ℕ → ℕ)
    → take n (map_zip a b f) ≡ map_zip (take n a) (take n b) f
unfolding map_zip
take-map_zip zero a b f = refl
take-map_zip (suc n) [] b f = refl
take-map_zip (suc n) (x ∷ a) [] f = refl
take-map_zip (suc n) (x ∷ a) (y ∷ b) f = ap (◌∷◌ (f x y)) (take-map_zip n a b f)

map_zip-nil : {T : Type 0} (a : List T) (f : T → T → T) → map_zip a [] f ≡ a
unfolding map_zip
map_zip-nil [] f = refl
map_zip-nil (x ∷ a) f = refl

drop-map_zip :
    (n : ℕ) (a b : List ℕ) (f : ℕ → ℕ → ℕ)
    → drop n (map_zip a b f) ≡ map_zip (drop n a) (drop n b) f
unfolding map_zip
drop-map_zip zero a b f = refl
drop-map_zip (suc n) [] b f = refl
drop-map_zip (suc n) (x ∷ a) [] f = sym (map_zip-nil (drop n a) f)
drop-map_zip (suc n) (x ∷ a) (y ∷ b) f = drop-map_zip n a b f

part-map_zip :
    (offset size : ℕ) (a b : List ℕ) (f g : ℕ → ℕ → ℕ)
    → ((x y : ℕ) → f x y ≡ g x y)
    → part offset size (map_zip a b f)
      ≡ SingleThreaded.map_zip (part offset size a) (part offset size b) g
part-map_zip offset size a b f g same =
    ap (take size) (drop-map_zip offset a b f)
    ∙ take-map_zip size (drop offset a) (drop offset b) f
    ∙ ap (map_zip (part offset size a) (part offset size b)) (fun_ext λ x. fun_ext λ y. same x y)
    ∙ sym (map_zip-same (part offset size a) (part offset size b) g)

module _ (galois_add : ℕ → ℕ → ℕ) where
  -- Every operation, nand and nor included, computes on a part of its operands what the processor
  -- of whole data computes on that part of the result.
  pub calculate-part :
      (offset size : ℕ) (operation : Operation Data)
      → part offset size (calculate galois_add operation)
        ≡ SingleThreaded.calculate galois_add (map_operation (part offset size) operation)
  unfolding calculate SingleThreaded.calculate map_operation
  calculate-part offset size (sub b) = part-map_zip offset size b.first b.second _ _ (λ x y. refl)
  calculate-part offset size (plus b) = part-map_zip offset size b.first b.second _ _ (λ x y. refl)
  calculate-part offset size (inv u) = refl
  calculate-part offset size (nand b) =
      part-map_zip offset size b.first b.second _ _ (λ x y. ground arith)
  calculate-part offset size (nor b) =
      part-map_zip offset size b.first b.second _ _ (λ x y. ground arith)

retrieve_operands_lem :
    (operation : Operation Vid) (storage : Map Vid Data)
    → retrieve_operands operation storage
      ≡ ok_or (transpose (map_operation (get storage) operation)) data_not_found
unfolding retrieve_operands transpose map_operation
retrieve_operands_lem (sub b) storage = ground arith
retrieve_operands_lem (plus b) storage = ground arith
retrieve_operands_lem (inv u) storage = ground arith
retrieve_operands_lem (nand b) storage = ground arith
retrieve_operands_lem (nor b) storage = ground arith

transpose-map :
    (p : Data → Shard) (f : Vid → Option Data) (operation : Operation Vid)
    → transpose (map_operation (λ id. Option.map p (f id)) operation)
      ≡ Option.map (map_operation p) (transpose (map_operation f operation))
unfolding transpose map_operation
transpose-map p f (sub b) = ground arith
transpose-map p f (plus b) = ground arith
transpose-map p f (inv u) = ground arith
transpose-map p f (nand b) = ground arith
transpose-map p f (nor b) = ground arith

module _ (galois_add : ℕ → ℕ → ℕ) (offset size : ℕ) where
  -- What each id's part is.
  abbrev pub parts : Map Vid Data → Vid → Option Shard
  parts storage id = Option.map (part offset size) (get storage id)

  parts-insert :
      (storage : Map Vid Data) (id : Vid) (bytes : Data)
      → parts (insert storage id bytes) ≡ update (parts storage) id (part offset size bytes)
  parts-insert storage id bytes = fun_ext λ j. ground (arith, get-insert storage id bytes j)

  -- Where the processor of whole data runs a program to its end, the sequential meaning of the
  -- program on one part of each unit of data leaves exactly that part of every result.
  pub execute_all-parts :
      (program : Instructions) (storage last : Map Vid Data)
      → execute_all galois_add program storage ≡ (last, none)
      → (ref_run galois_add program (parts storage)).0 ≡ parts last
  unfolding execute_all ref_run
  execute_all-parts [] storage last e = ap parts (ap (λ (r : Map Vid Data × Option Error). r.0) e)
  execute_all-parts (i ∷ program) storage last e =
      elim (Option-cases (transpose (map_operation (get storage) i.operation))) [
        | inl missing ↦ absurd (failed (sym (ran none missing) ∙ e))
        | inr (operation, found) ↦
            ap
              (λ o.
                (ref_run galois_add program (ref_apply galois_add i.result (parts storage) o).0).0)
              (transpose-map (part offset size) (get storage) i.operation
                ∙ ap (Option.map (map_operation (part offset size))) found)
            ∙ ap (λ shard. (ref_run galois_add program (update (parts storage) i.result shard)).0)
                (sym (calculate-part galois_add offset size operation))
            ∙ ap (λ f. (ref_run galois_add program f).0)
                (sym (parts-insert storage i.result (calculate galois_add operation)))
            ∙ execute_all-parts program (insert storage i.result (calculate galois_add operation))
                last (sym (ran (some operation) found) ∙ e)
      ]
    where
      failed :
          {a b : Map Vid Data} {x : Error}
          → ◌≡◌ {A = Map Vid Data × Option Error} (a, some x) (b, none)
          → ⊥
      failed p = cc

      ran :
          (o : Option (Operation Data))
          → transpose (map_operation (get storage) i.operation) ≡ o
          → execute_all galois_add (i ∷ program) storage
            ≡ execute_next galois_add
                (execute_all galois_add program)
                (λ x. (storage, some x))
                i.result
                storage
                (ok_or o data_not_found)
      ran o p =
          ap
            (execute_next galois_add (execute_all galois_add program) (λ x. (storage, some x))
              i.result storage)
            (retrieve_operands_lem i.operation storage ∙ ap (λ o. ok_or o data_not_found) p)
