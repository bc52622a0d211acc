-- ===== src/Encoding/ReedSolomon/Sample.antt =====
-- A small erasure code of three shards, any two of which bring the others back, for the tests of
-- src/encoding/reed_solomon.rs and of its users. The third shard is the sum of the others,
-- byte for byte.
use the_swarm.Common.{
  ℕ, ◌≤◌, ◌≡◌, refl, subst, Option, none, some, List, [], ◌∷◌, map, arith, length, take, ap, sym,
  ◌∙◌, ◌+◌, ◌-◌, ◌%◌,
}
use the_swarm.Types.{Shard, AllBytes, IsShard}
use the_swarm.Encoding.ReedSolomon.{ErasureCode}
use the_swarm.Encoding.ReedSolomon.Slots.{IsErasureCode, AllShards, Agree, present}

abbrev add_bytes : List ℕ → List ℕ → List ℕ
add_bytes [] ys = []
add_bytes (x ∷ xs) [] = []
add_bytes (x ∷ xs) (y ∷ ys) = ((x + y) % 256) ∷ add_bytes xs ys

-- `a` from `a + b` and `b`.
abbrev take_away : List ℕ → List ℕ → List ℕ
take_away [] ys = []
take_away (p ∷ ps) [] = []
take_away (p ∷ ps) (y ∷ ys) = ((p + (256 - y)) % 256) ∷ take_away ps ys

abbrev pub parity_of : List ℕ → List ℕ → List ℕ
parity_of a b = add_bytes a b

take_away-second :
    (a b : List ℕ) → length a ≡ length b → AllBytes a → AllBytes b → take_away (add_bytes a b) b ≡ a
take_away-second [] b h p q = refl
take_away-second (x ∷ a) [] h p q = absurd (omega arith)
take_away-second (x ∷ a) (y ∷ b) h p q =
    ap (λ z. z ∷ take_away (add_bytes a b) b) (omega (arith, p.0, q.0))
    ∙ ap (◌∷◌ x) (take_away-second a b (omega arith) p.1 q.1)

take_away-first :
    (a b : List ℕ) → length a ≡ length b → AllBytes a → AllBytes b → take_away (add_bytes a b) a ≡ b
take_away-first [] [] h p q = refl
take_away-first [] (y ∷ b) h p q = absurd (omega arith)
take_away-first (x ∷ a) [] h p q = absurd (omega arith)
take_away-first (x ∷ a) (y ∷ b) h p q =
    ap (λ z. z ∷ take_away (add_bytes a b) a) (omega (arith, p.0, q.0))
    ∙ ap (◌∷◌ y) (take_away-first a b (omega arith) p.1 q.1)

abbrev pub sample_encode : List Shard → Option (List Shard)
sample_encode [] = none
sample_encode (a ∷ []) = none
sample_encode (a ∷ b ∷ []) = none
sample_encode (a ∷ b ∷ c ∷ []) = some (a ∷ b ∷ parity_of a b ∷ [])
sample_encode (a ∷ b ∷ c ∷ d ∷ more) = none

abbrev full : List ℕ → List ℕ → Option (List (Option (List ℕ)))
full a b = some (some a ∷ some b ∷ some (parity_of a b) ∷ [])

abbrev recover :
    Option (List ℕ) → Option (List ℕ) → Option (List ℕ) → Option (List (Option (List ℕ)))
recover (some a) (some b) p = full a b
recover (some a) none (some p) = full a (take_away p a)
recover (some a) none none = none
recover none (some b) (some p) = full (take_away p b) b
recover none (some b) none = none
recover none none p = none

abbrev pub sample_reconstruct : List (Option (List ℕ)) → Option (List (Option (List ℕ)))
sample_reconstruct [] = none
sample_reconstruct (a ∷ []) = none
sample_reconstruct (a ∷ b ∷ []) = none
sample_reconstruct (a ∷ b ∷ c ∷ []) = recover a b c
sample_reconstruct (a ∷ b ∷ c ∷ d ∷ more) = none

abbrev pub sample_code : ErasureCode
sample_code = record {
  data_shard_count = 2;
  parity_shard_count = 1;
  total_shard_count = 3;
  encode = sample_encode;
  reconstruct = sample_reconstruct;
}

sample-encodes :
    (shards : List Shard)
    → length shards ≡ 3
    → (codeword : List Shard) × (sample_encode shards ≡ some codeword)
      × (length codeword ≡ 3)
      × (take 2 codeword ≡ take 2 shards)
sample-encodes [] h = absurd (omega arith)
sample-encodes (a ∷ []) h = absurd (omega arith)
sample-encodes (a ∷ b ∷ []) h = absurd (omega arith)
sample-encodes (a ∷ b ∷ c ∷ []) h = (_, refl, refl, refl)
sample-encodes (a ∷ b ∷ c ∷ d ∷ more) h = absurd (omega arith)

recover_lem :
    (a b : List ℕ) (slots : List (Option (List ℕ)))
    → IsShard a
    → IsShard b
    → Agree slots (a ∷ b ∷ parity_of a b ∷ [])
    → 2 ≤ present slots
    → sample_reconstruct slots ≡ full a b
recover_lem a b [] ha hb agree enough = absurd agree
recover_lem a b (none ∷ []) ha hb agree enough = absurd agree
recover_lem a b (some x ∷ []) ha hb agree enough = absurd agree.1
recover_lem a b (none ∷ none ∷ []) ha hb agree enough = absurd agree
recover_lem a b (none ∷ some y ∷ []) ha hb agree enough = absurd agree.1
recover_lem a b (some x ∷ none ∷ []) ha hb agree enough = absurd agree.1
recover_lem a b (some x ∷ some y ∷ []) ha hb agree enough = absurd agree.1.1
recover_lem a b (none ∷ none ∷ none ∷ []) ha hb agree enough = absurd (omega arith)
recover_lem a b (none ∷ none ∷ some p ∷ []) ha hb agree enough = absurd (omega arith)
recover_lem a b (none ∷ some y ∷ none ∷ []) ha hb agree enough = absurd (omega arith)
recover_lem a b (none ∷ some y ∷ some p ∷ []) ha hb agree enough =
    rw (agree.0, agree.1.0, take_away-second a b (ha.0 ∙ sym hb.0) ha.1 hb.1) refl
recover_lem a b (some x ∷ none ∷ none ∷ []) ha hb agree enough = absurd (omega arith)
recover_lem a b (some x ∷ none ∷ some p ∷ []) ha hb agree enough =
    rw (agree.0, agree.1.0, take_away-first a b (ha.0 ∙ sym hb.0) ha.1 hb.1) refl
recover_lem a b (some x ∷ some y ∷ c ∷ []) ha hb agree enough = rw (agree.0, agree.1.0) refl
recover_lem a b (x ∷ y ∷ c ∷ d ∷ more) ha hb agree enough = longer x y c d more agree
  where
    longer :
        (x y c d : Option (List ℕ)) (more : List (Option (List ℕ)))
        → Agree (x ∷ y ∷ c ∷ d ∷ more) (a ∷ b ∷ parity_of a b ∷ [])
        → sample_reconstruct (x ∷ y ∷ c ∷ d ∷ more) ≡ full a b
    longer none none none d more agree = absurd agree
    longer none none (some p) d more agree = absurd agree.1
    longer none (some y) none d more agree = absurd agree.1
    longer none (some y) (some p) d more agree = absurd agree.1.1
    longer (some x) none none d more agree = absurd agree.1
    longer (some x) none (some p) d more agree = absurd agree.1.1
    longer (some x) (some y) none d more agree = absurd agree.1.1
    longer (some x) (some y) (some p) d more agree = absurd agree.1.1.1

sample-reconstructs :
    (shards codeword : List Shard) (slots : List (Option (List ℕ)))
    → AllShards shards
    → sample_encode shards ≡ some codeword
    → Agree slots codeword
    → 2 ≤ present slots
    → sample_reconstruct slots ≡ some (map some codeword)
sample-reconstructs [] codeword slots all e agree enough = absurd (cc)
sample-reconstructs (a ∷ []) codeword slots all e agree enough = absurd (cc)
sample-reconstructs (a ∷ b ∷ []) codeword slots all e agree enough = absurd (cc)
sample-reconstructs (a ∷ b ∷ c ∷ []) codeword slots all e agree enough =
    let same : codeword ≡ a ∷ b ∷ parity_of a b ∷ [] = cc in
    rw same (recover_lem a b slots all.0 all.1.0 (subst (Agree slots) same agree) enough)
sample-reconstructs (a ∷ b ∷ c ∷ d ∷ more) codeword slots all e agree enough = absurd (cc)

pub sample_code-IsErasureCode : IsErasureCode sample_code
sample_code-IsErasureCode = record {
  total = refl;
  encodes = λ shards size all. sample-encodes shards size;
  reconstructs = sample-reconstructs;
}
