-- ===== src/Encoding/ReedSolomon/RoundTrip.antt =====
-- src/encoding/reed_solomon.rs: any `data_shards_sufficient` shards bring the data back.
use mathlib.Core.List.{append-nil}
use the_swarm.Common.{
  ℕ, zero, suc, ◌+◌, ◌≤◌, ◌≡◌, refl, ap, subst, ◌∙◌, ◌⊎◌, inl, inr, some, List, [], ◌∷◌, ◌++◌, map,
  arith, length, get_elem?, take, drop, replicate, length-replicate, length-take_of_le, length-drop,
  take-append-drop, take_of_length-le, drop_of_length-le,
}
use the_swarm.Common.Map.{
  Map, nat_key, get, insert, collect_into, collect_into-Distinct, get-insert, Distinct,
}
use the_swarm.Common.Result.{done, or_fail, and_then-Ensures, Ensures-done}
use the_swarm.Types.{Sid, Shard, Data, AllBytes, IsShard, IsData, data_shards_count}
use the_swarm.Encoding.ReedSolomon.{
  ErasureCode, reed_solomon, assert, chunks, to_shards, enumerate, encode, decode, unwrap_all,
}
use the_swarm.Encoding.ReedSolomon.Slots.{IsErasureCode, AllShards, place_all_codeword}

chunks-nil : (rounds n : ℕ) → chunks rounds n [] ≡ []
unfolding chunks
chunks-nil zero n = refl
chunks-nil (suc rounds) n = refl

chunks-last :
    (rounds n : ℕ) (bytes : List ℕ)
    → length bytes ≡ suc n
    → chunks (suc rounds) (suc n) bytes ≡ bytes ∷ []
unfolding chunks
chunks-last rounds n [] h = absurd (omega arith)
chunks-last rounds n (b ∷ bytes) h =
    rw
      (
        take_of_length-le n bytes (omega arith),
        drop_of_length-le n bytes (omega arith),
        chunks-nil rounds (suc n),
      )
      refl

-- Eight bytes are two chunks.
pub chunks-data :
    (bytes : Data) → IsData bytes → chunks (length bytes) 4 bytes ≡ take 4 bytes ∷ drop 4 bytes ∷ []
unfolding chunks
chunks-data [] h = absurd (omega (arith, h.0))
chunks-data (b ∷ bytes) h =
    ap (λ n. take 4 (b ∷ bytes) ∷ chunks n 4 (drop 4 (b ∷ bytes))) rounds
    ∙ ap (λ r. take 4 (b ∷ bytes) ∷ r)
        (chunks-last 6 3 (drop 4 (b ∷ bytes)) (omega (arith, h.0, length-drop 4 (b ∷ bytes))))
  where
    rounds : length bytes ≡ 7
    rounds = omega (arith, h.0)

to_shards-pair : (a b : Shard) → IsShard a → IsShard b → to_shards (a ∷ b ∷ []) ≡ done (a ∷ b ∷ [])
unfolding to_shards
to_shards-pair a b ha hb = rw (ha.0, hb.0) refl

-- A shard that the collected map holds stands in the list at its index.
get-collect :
    (m : Map Sid Shard) (i : ℕ) (shards : List Shard) (j : Sid) (s : Shard)
    → get (collect_into m (enumerate i shards)) j ≡ some s
    → (get m j ≡ some s) ⊎ ((k : ℕ) × (j ≡ i + k) × (get_elem? shards k ≡ some s))
unfolding collect_into enumerate
get-collect m i [] j s e = inl e
get-collect m i (x ∷ xs) j s e = elim (get-collect (insert m i x) (suc i) xs j s e) [
  | inl h ↦ elim (ℕ-cases i j) [
    | inl p ↦ inr (0, omega arith, ground (arith, get-insert m i x j))
    | inr p ↦ inl (ground (arith, get-insert m i x j))
  ]
  | inr (k, p, h) ↦ inr (suc k, omega arith, h)
]
  where
    ℕ-cases : (a b : ℕ) → (a ≡ b) ⊎ (¬ (a ≡ b))
    ℕ-cases a b = grind arith

AllBytes-take : (n : ℕ) (bytes : List ℕ) → AllBytes bytes → AllBytes (take n bytes)
AllBytes-take zero bytes a = tt
AllBytes-take (suc n) [] a = tt
AllBytes-take (suc n) (b ∷ bytes) a = (a.0, AllBytes-take n bytes a.1)

AllBytes-drop : (n : ℕ) (bytes : List ℕ) → AllBytes bytes → AllBytes (drop n bytes)
AllBytes-drop zero bytes a = a
AllBytes-drop (suc n) [] a = tt
AllBytes-drop (suc n) (b ∷ bytes) a = AllBytes-drop n bytes a.1

zeros-AllBytes : (n : ℕ) → AllBytes (replicate n 0)
zeros-AllBytes zero = tt
zeros-AllBytes (suc n) = (omega arith, zeros-AllBytes n)

AllShards-replicate : (n : ℕ) → AllShards (replicate n (replicate 4 0))
AllShards-replicate zero = tt
AllShards-replicate (suc n) = ((refl, zeros-AllBytes 4), AllShards-replicate n)

-- Whatever the code does, the shards have distinct indices.
pub encode-Distinct :
    (inner : ErasureCode) (bytes : Data) (all : Map Sid Shard)
    → encode inner bytes ≡ done all
    → Distinct all
unfolding encode
encode-Distinct inner bytes all e =
    Ensures-done Distinct (encode inner bytes) all
      (and_then-Ensures Distinct (to_shards (chunks (length bytes) 4 bytes)) _ λ shards.
        and_then-Ensures Distinct (assert (length shards) 2 shards) _ λ shards.
          and_then-Ensures Distinct
            (or_fail (inner.encode (shards ++ replicate inner.parity_shard_count (replicate 4 0)))
              reed_solomon)
            _ λ codeword. collect_into-Distinct [] (enumerate 0 codeword) tt)
      e

module _ (inner : ErasureCode) (law : IsErasureCode inner)
    (two : inner.data_shard_count ≡ data_shards_count) where
  -- The shards that go into the code.
  abbrev padded : Data → List Shard
  padded bytes =
      (take 4 bytes ∷ drop 4 bytes ∷ []) ++ replicate inner.parity_shard_count (replicate 4 0)

  padded-length : (bytes : Data) → length (padded bytes) ≡ inner.total_shard_count
  padded-length bytes =
      let zeros : Shard = replicate 4 0 in
      omega (arith, law.total, two, length-replicate inner.parity_shard_count zeros)

  padded-AllShards : (bytes : Data) → IsData bytes → AllShards (padded bytes)
  padded-AllShards bytes h = (
    (length-take_of_le 4 bytes (omega (arith, h.0)), AllBytes-take 4 bytes h.1),
    (
      (omega (arith, h.0, length-drop 4 bytes), AllBytes-drop 4 bytes h.1),
      AllShards-replicate inner.parity_shard_count,
    ),
  )

  -- Encoding neither fails nor panics: it numbers the shards of a codeword that begins with the
  -- data.
  pub encode_codeword :
      (bytes : Data)
      → IsData bytes
      → (codeword : List Shard) × (inner.encode (padded bytes) ≡ some codeword)
        × (encode inner bytes ≡ done (collect_into [] (enumerate 0 codeword)))
        × (length codeword ≡ inner.total_shard_count)
        × (take 2 codeword ≡ take 4 bytes ∷ drop 4 bytes ∷ [])
  unfolding encode
  encode_codeword bytes h =
      let (codeword, ran, size, front) =
        law.encodes (padded bytes) (padded-length bytes) (padded-AllShards bytes h) in
      (
        codeword,
        ran,
        rw
            (
              chunks-data bytes h,
              to_shards-pair (take 4 bytes) (drop 4 bytes) (padded-AllShards bytes h).0
                  (padded-AllShards bytes h).1.0,
              ran,
            )
            refl,
        size,
        subst (λ n. take n codeword ≡ take n (padded bytes)) two front,
      )

  unwrap-pair :
      (codeword : List Shard) (a b : Shard)
      → take 2 codeword ≡ a ∷ b ∷ []
      → unwrap_all inner (take 2 (map some codeword)) ≡ done (a ++ b)
  unfolding unwrap_all
  unwrap-pair [] a b e = cc
  unwrap-pair (x ∷ []) a b e = cc
  unwrap-pair (x ∷ y ∷ cs) a b e = rw append-nil (ground arith)

  codeword-get :
      (codeword : List Shard) (j : Sid) (s : Shard)
      → get (collect_into [] (enumerate 0 codeword)) j ≡ some s
      → get_elem? codeword j ≡ some s
  unfolding get
  codeword-get codeword j s e = elim (get-collect [] 0 codeword j s e) [
    | inl h ↦ cc
    | inr (k, p, h) ↦ subst (λ n. get_elem? codeword n ≡ some s) (omega arith) h
  ]

  -- With an erasure code that keeps its laws and has two data shards, any two or more of the
  -- shards that `encode` made of eight bytes, each index at most once, bring the data back,
  -- whichever they are.
  pub decode-encode :
      (bytes : Data) (all some_of : Map Sid Shard)
      → IsData bytes
      → encode inner bytes ≡ done all
      → Distinct some_of
      → ((j : Sid) (s : Shard) → get some_of j ≡ some s → get all j ≡ some s)
      → data_shards_count ≤ length some_of
      → decode inner some_of ≡ done bytes
  unfolding decode
  decode-encode bytes all some_of h made distinct subset enough =
      let (codeword, ran, encoded, size, front) = encode_codeword bytes h in
      let (slots, placed, agree, count) =
        place_all_codeword inner some_of codeword distinct (λ j s e.
          codeword-get codeword j s
            (subst (λ m. get m j ≡ some s) (same codeword encoded) (subset j s e))) in
      rw
        (
          ← size,
          placed,
          law.reconstructs (padded bytes) codeword slots (padded-AllShards bytes h) ran agree
              (omega arith),
          unwrap-pair codeword (take 4 bytes) (drop 4 bytes) front,
          take-append-drop 4 bytes,
          h.0,
        )
        refl
    where
      same :
          (codeword : List Shard)
          → encode inner bytes ≡ done (collect_into [] (enumerate 0 codeword))
          → all ≡ collect_into [] (enumerate 0 codeword)
      same codeword e = cc
