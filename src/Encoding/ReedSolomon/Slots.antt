-- ===== src/Encoding/ReedSolomon/Slots.antt =====
-- src/encoding/reed_solomon.rs: the shards that `decode` hands to the code, and what the code is
-- expected to do with them.
use the_swarm.Common.{
  ℕ, zero, suc, ◌+◌, ◌≤◌, ◌<◌, ◌≡◌, ◌≢◌, refl, ap, ◌∙◌, Option, none, some, List, [], ◌∷◌, map,
  arith, length, get_elem?, set, take, replicate, get_elem?-set_ne,
}
use the_swarm.Common.Map.{Map, nat_key, get, Fresh, Distinct, get_of_Fresh}
use the_swarm.Common.Result.{done}
use the_swarm.Types.{Sid, Shard, IsShard}
use the_swarm.Encoding.ReedSolomon.{ErasureCode, place_all}

abbrev pub AllShards : List Shard → Type 0
AllShards [] = Unit {0}
AllShards (shard ∷ shards) = IsShard shard × AllShards shards

-- Every shard that is present is the one of the codeword at its position.
abbrev pub Agree : List (Option (List ℕ)) → List Shard → Type 0
Agree [] [] = Unit {0}
Agree [] (shard ∷ shards) = ⊥
Agree (slot ∷ slots) [] = ⊥
Agree (none ∷ slots) (shard ∷ shards) = Agree slots shards
Agree (some bytes ∷ slots) (shard ∷ shards) = (bytes ≡ shard) × Agree slots shards

abbrev pub present : List (Option (List ℕ)) → ℕ
present [] = 0
present (none ∷ slots) = present slots
present (some bytes ∷ slots) = suc (present slots)

-- What the wrapper relies on: the first shards of a codeword are the data, and any
-- `data_shard_count` shards of a codeword bring back the whole of it.
pub record IsErasureCode (inner : ErasureCode) : Type 0 where
  pub total : inner.total_shard_count ≡ inner.data_shard_count + inner.parity_shard_count
  pub encodes :
      (shards : List Shard)
      → length shards ≡ inner.total_shard_count
      → AllShards shards
      → (codeword : List Shard) × (inner.encode shards ≡ some codeword)
        × (length codeword ≡ inner.total_shard_count)
        × (take inner.data_shard_count codeword ≡ take inner.data_shard_count shards)
  pub reconstructs :
      (shards codeword : List Shard) (slots : List (Option (List ℕ)))
      → AllShards shards
      → inner.encode shards ≡ some codeword
      → Agree slots codeword
      → inner.data_shard_count ≤ present slots
      → inner.reconstruct slots ≡ some (map some codeword)

Agree-replicate : (codeword : List Shard) → Agree (replicate (length codeword) none) codeword
Agree-replicate [] = tt
Agree-replicate (shard ∷ codeword) = Agree-replicate codeword

present-replicate : (n : ℕ) → present (replicate n none) ≡ 0
present-replicate zero = refl
present-replicate (suc n) = present-replicate n

get_elem?-replicate :
    (n i : ℕ) → i < n → get_elem? {A = Option (List ℕ)} (replicate n none) i ≡ some none
get_elem?-replicate zero i h = elim h [ ]
get_elem?-replicate (suc n) zero h = refl
get_elem?-replicate (suc n) (suc i) h = get_elem?-replicate n i (omega arith)

Agree-set :
    (slots : List (Option (List ℕ))) (codeword : List Shard) (i : ℕ) (s : Shard)
    → Agree slots codeword
    → get_elem? codeword i ≡ some s
    → Agree (set slots i (some s)) codeword
Agree-set [] [] i s a e = tt
Agree-set [] (c ∷ cs) i s a e = elim a [ ]
Agree-set (slot ∷ slots) [] i s a e = elim a [ ]
Agree-set (none ∷ slots) (c ∷ cs) zero s a e = (ground arith, a)
Agree-set (none ∷ slots) (c ∷ cs) (suc i) s a e = Agree-set slots cs i s a e
Agree-set (some b ∷ slots) (c ∷ cs) zero s a e = (ground arith, a.1)
Agree-set (some b ∷ slots) (c ∷ cs) (suc i) s a e = (a.0, Agree-set slots cs i s a.1 e)

present-set :
    (slots : List (Option (List ℕ))) (i : ℕ) (s : Shard)
    → get_elem? slots i ≡ some none
    → present (set slots i (some s)) ≡ suc (present slots)
present-set [] i s e = cc
present-set (none ∷ slots) zero s e = refl
present-set (some b ∷ slots) zero s e = cc
present-set (none ∷ slots) (suc i) s e = present-set slots i s e
present-set (some b ∷ slots) (suc i) s e = ap suc (present-set slots i s e)

ne_of_Fresh : (m : Map Sid Shard) (k j : ℕ) (s : Shard) → Fresh m k → get m j ≡ some s → k ≢ j
ne_of_Fresh m k j s f e = λ p. cc (get_of_Fresh m k f)

get-cons_ne :
    (m : Map Sid Shard) (k j : ℕ) (v s : Shard)
    → Fresh m k
    → get m j ≡ some s
    → get ((k, v) ∷ m) j ≡ some s
unfolding get
get-cons_ne m k j v s f e = ground (arith, ne_of_Fresh m k j s f e)

get-cons_self : (m : Map Sid Shard) (k : ℕ) (v : Shard) → get ((k, v) ∷ m) k ≡ some v
unfolding get
get-cons_self m k v = ground arith

-- The shards of a map are all placed, each on an empty slot.
pub place_all_lem :
    (inner : ErasureCode) (m : Map Sid Shard) (slots : List (Option (List ℕ)))
    (codeword : List Shard)
    → Distinct m
    → Agree slots codeword
    → ((j : Sid) (s : Shard) → get m j ≡ some s → get_elem? codeword j ≡ some s)
    → ((j : Sid) (s : Shard) → get m j ≡ some s → get_elem? slots j ≡ some none)
    → (slots' : List (Option (List ℕ))) × (place_all inner m slots ≡ done slots')
      × Agree slots' codeword
      × (present slots' ≡ present slots + length m)
unfolding place_all
place_all_lem inner [] slots codeword d a sub empty = (slots, refl, a, omega arith)
place_all_lem inner ((k, v) ∷ m) slots codeword d a sub empty =
    let here = empty k v (get-cons_self m k v) in
    let (slots', placed, agree, count) =
      place_all_lem inner m (set slots k (some v)) codeword d.1
        (Agree-set slots codeword k v a (sub k v (get-cons_self m k v)))
        (λ j s e. sub j s (get-cons_ne m k j v s d.0 e))
        (λ j s e.
          get_elem?-set_ne slots k j (some v) (ne_of_Fresh m k j s d.0 e)
          ∙ empty j s (get-cons_ne m k j v s d.0 e)) in
    (slots', rw (here, place_all) placed, agree, omega (arith, present-set slots k v here))

-- From empty slots, the shards of a codeword that a map holds are all placed.
pub place_all_codeword :
    (inner : ErasureCode) (m : Map Sid Shard) (codeword : List Shard)
    → Distinct m
    → ((j : Sid) (s : Shard) → get m j ≡ some s → get_elem? codeword j ≡ some s)
    → (slots : List (Option (List ℕ))) × (place_all inner m (replicate (length codeword) none)
        ≡ done slots)
      × Agree slots codeword
      × (present slots ≡ length m)
place_all_codeword inner m codeword d sub =
    let (slots, placed, agree, count) =
      place_all_lem inner m (replicate (length codeword) none) codeword d (Agree-replicate codeword)
        sub (λ j s e. get_elem?-replicate (length codeword) j (bound codeword j s (sub j s e))) in
    (slots, placed, agree, omega (arith, present-replicate (length codeword)))
  where
    bound :
        (codeword : List Shard) (j : Sid) (s : Shard)
        → get_elem? codeword j ≡ some s
        → j < length codeword
    bound [] j s e = cc
    bound (c ∷ cs) zero s e = omega arith
    bound (c ∷ cs) (suc j) s e = omega (arith, bound cs j s e)
