-- ===== src/Behaviour/Initialization.antt =====
-- src/behaviour/mod.rs and data_memory/mod.rs: the distribution that the behaviour schedules for a
-- user, and whether the data memory accepts it.
use the_swarm.Common.{
  ℕ, zero, suc, ◌+◌, ◌<◌, ◌≡◌, refl, sym, ap, ◌∙◌, ◌↔◌, ◌≢◌, subst, ◌⊎◌, inl, inr, ite, if_pos,
  if_neg, true, false, ◌||◌, cond, none, some, List, [], ◌∷◌, arith, length, ℕ_discrete, dec_lt,
  Bool-cases,
}
use mathlib.Core.Bool.{true≢false}
use the_swarm.Common.Map.{
  Map, nat_key, get, insert, collect_into, contains, add, add_all, get-insert,
}
use the_swarm.Types.{Sid, PeerId}
use the_swarm.Encoding.ReedSolomon.{ErasureCode}
use the_swarm.DataMemory.Uninitialized.{verify_distribution}
use the_swarm.DataMemory.Acceptance.{Covers, verify_distribution_iff, contains-add}
use the_swarm.Behaviour.Poll.{enumerate, distribution_of}

abbrev NoRepeat : List PeerId → Type 0
NoRepeat [] = Unit {0}
NoRepeat (p ∷ ps) = (contains ps p ≡ false) × NoRepeat ps

add-NoRepeat : (s : List PeerId) (k : PeerId) → NoRepeat s → NoRepeat (add s k)
unfolding add
add-NoRepeat s k h = elim (Bool-cases (contains s k)) [
  | inl e ↦ rw (add, e) h
  | inr e ↦ rw (add, e) (e, h)
]

add_all-NoRepeat : (s ks : List PeerId) → NoRepeat s → NoRepeat (add_all s ks)
unfolding add_all
add_all-NoRepeat s [] h = h
add_all-NoRepeat s (k ∷ ks) h = add_all-NoRepeat (add s k) ks (add-NoRepeat s k h)

contains-add_all :
    (s ks : List PeerId) (p : PeerId) → contains (add_all s ks) p ≡ (contains s p || contains ks p)
unfolding add_all contains
contains-add_all s [] p = ground arith
contains-add_all s (k ∷ ks) p = ground (arith, contains-add_all (add s k) ks p, contains-add s k p)

abbrev index : List PeerId → PeerId → ℕ
index [] q = 0
index (p ∷ ps) q = ite (ℕ_discrete p q) 0 (suc (index ps q))

get-enumerate :
    (m : Map PeerId Sid) (i : ℕ) (l : List PeerId) (q : PeerId)
    → NoRepeat l
    → get (collect_into m (enumerate i l)) q ≡ cond (contains l q) (some (i + index l q)) (get m q)
unfolding collect_into enumerate contains
get-enumerate m i [] q h = refl
get-enumerate m i (p ∷ ps) q h =
    let found = get (collect_into (insert m p i) (enumerate (suc i) ps)) q in
    let value = some (i + index (p ∷ ps) q) in
    elim (ℕ_discrete p q) as (λ _. found ≡ cond (contains (p ∷ ps) q) value (get m q)) [
      | yes e ↦
          get-enumerate (insert m p i) (suc i) ps q h.1
          ∙ ap (λ b. cond b (some (suc i + index ps q)) (get (insert m p i) q))
              (subst (λ r. contains ps r ≡ false) e h.0)
          ∙ get-insert m p i q
          ∙ if_pos (ℕ_discrete p q) e _ _
          ∙ ap some (omega (arith, if_pos (ℕ_discrete p q) e 0 (suc (index ps q))))
          ∙ sym (ap (λ b. cond b value (get m q)) (if_pos (ℕ_discrete p q) e _ _))
      | no d ↦
          get-enumerate (insert m p i) (suc i) ps q h.1
          ∙ ap (cond (contains ps q) (some (suc i + index ps q)))
              (get-insert m p i q ∙ if_neg (ℕ_discrete p q) d _ _)
          ∙ ap (λ k. cond (contains ps q) (some k) (get m q))
              (omega (arith, if_neg (ℕ_discrete p q) d 0 (suc (index ps q))))
          ∙ sym (ap (λ b. cond b value (get m q)) (if_neg (ℕ_discrete p q) d _ _))
    ]

index-lt : (l : List PeerId) (q : PeerId) → contains l q ≡ true → index l q < length l
unfolding contains
index-lt [] q h = absurd (ground arith)
index-lt (p ∷ ps) q h = elim (ℕ_discrete p q) [
  | yes e ↦ omega (arith, if_pos (ℕ_discrete p q) e 0 (suc (index ps q)))
  | no d ↦ omega (
    arith,
    if_neg (ℕ_discrete p q) d 0 (suc (index ps q)),
    index-lt ps q (sym (if_neg (ℕ_discrete p q) d _ _) ∙ h),
  )
]

contains-differ :
    (ps : List PeerId) (p q : PeerId) → contains ps p ≡ false → contains ps q ≡ true → p ≢ q
contains-differ ps p q absent c same =
    true≢false (sym c ∙ subst (λ r. contains ps r ≡ false) same absent)

-- The peer at a position.
peer_at :
    (l : List PeerId) (i : ℕ)
    → NoRepeat l
    → i < length l
    → (q : PeerId) × (contains l q ≡ true) × (index l q ≡ i)
unfolding contains
peer_at [] i h below = absurd (omega arith)
peer_at (p ∷ ps) zero h below =
    (p, if_pos (ℕ_discrete p p) refl _ _, if_pos (ℕ_discrete p p) refl _ _)
peer_at (p ∷ ps) (suc i) h below =
    let (q, c, e) = peer_at ps i h.1 (omega arith) in
    let d = contains-differ ps p q h.0 c in
    (q, if_neg (ℕ_discrete p q) d _ _ ∙ c, if_neg (ℕ_discrete p q) d _ _ ∙ ap suc e)

module _ (u : List PeerId) (different : NoRepeat u) where
  abbrev numbered : Map PeerId Sid
  numbered = collect_into [] (enumerate 0 u)

  get-numbered : (q : PeerId) → contains u q ≡ true → get numbered q ≡ some (index u q)
  unfolding get
  get-numbered q c =
      get-enumerate [] 0 u q different
      ∙ ap (λ b. cond b (some (0 + index u q)) none) c
      ∙ ap some (omega arith)

  numbered-index :
      (q : PeerId) (sid : Sid)
      → get numbered q ≡ some sid
      → (contains u q ≡ true) × (index u q ≡ sid)
  unfolding get
  numbered-index q sid e = elim (Bool-cases (contains u q)) [
    | inl c ↦ (c, ground (arith, sym (get-numbered q c) ∙ e))
    | inr c ↦ absurd (
        ground (
          arith,
          sym (ap (λ b. cond b (some (0 + index u q)) none) c)
              ∙ sym (get-enumerate [] 0 u q different)
              ∙ e,
        ))
  ]

  Covers-length : (total : ℕ) → Covers total numbered ↔ (length u ≡ total)
  Covers-length total = (counted, covers)
    where
      counted : Covers total numbered → length u ≡ total
      counted (below, all) = elim (dec_lt (length u) total) [
        | yes fewer ↦
            let (q, e) = all (length u) fewer in
            let (c, i) = numbered-index q (length u) e in absurd (omega (arith, i, index-lt u q c))
        | no enough ↦ elim (dec_lt total (length u)) [
          | yes more ↦
              let (q, c, i) = peer_at u total different more in
              absurd (omega (arith, below q total (get-numbered q c ∙ ap some i)))
          | no exact ↦ omega arith
        ]
      ]

      covers : length u ≡ total → Covers total numbered
      covers e = (
        λ q sid found. let (c, i) = numbered-index q sid found in omega (arith, index-lt u q c),
        λ sid below.
            let (q, c, i) = peer_at u sid different (omega arith) in
            (q, get-numbered q c ∙ ap some i),
      )

-- The distribution that is scheduled, collected from the pairs that arrive, has exactly the peers
-- that are known or connected, and the data memory accepts it exactly where these are as many
-- different peers as there are shards.
pub distribution_of-accepted :
    (inner : ErasureCode) (known connected : List PeerId)
    → ((verify_distribution inner (collect_into [] (distribution_of known connected)) ≡ true)
        ↔ (length (add_all (add_all [] known) connected) ≡ inner.total_shard_count))
      × ((peer : PeerId)
          → ((sid : Sid) × (get (collect_into [] (distribution_of known connected)) peer
                ≡ some sid))
            ↔ ((contains known peer ≡ true) ⊎ (contains connected peer ≡ true)))
unfolding distribution_of contains
distribution_of-accepted inner known connected = (
  (λ accepted. lengths.0 (verified.0 accepted), λ enough. verified.1 (lengths.1 enough)),
  λ peer. (
    λ found. ground (arith, members peer, (numbered-index u different peer found.0 found.1).0),
    λ member. (index u peer, get-numbered u different peer (ground (arith, members peer, member))),
  ),
)
  where
    u : List PeerId
    u = add_all (add_all [] known) connected

    different : NoRepeat u
    different = add_all-NoRepeat (add_all [] known) connected (add_all-NoRepeat [] known tt)

    lengths :
        Covers inner.total_shard_count (numbered u different) ↔ (length u ≡ inner.total_shard_count)
    lengths = Covers-length u different inner.total_shard_count

    verified :
        (verify_distribution inner (collect_into [] (enumerate 0 u)) ≡ true)
        ↔ Covers inner.total_shard_count (collect_into [] (enumerate 0 u))
    verified = verify_distribution_iff inner (enumerate 0 u)

    members : (q : PeerId) → contains u q ≡ (contains known q || contains connected q)
    members q =
        contains-add_all (add_all [] known) connected q
        ∙ ap (λ b. b || contains connected q) (contains-add_all [] known q)
