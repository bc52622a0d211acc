-- ===== src/DataMemory/Acceptance.antt =====
-- src/data_memory/mod.rs: which distributions the uninitialized memory accepts.
use the_swarm.Common.{
  false, none, Bool, ℕ, zero, suc, ◌+◌, ◌<◌, ◌≡◌, refl, subst, ◌↔◌, inl, inr, ite, if_pos, if_neg,
  true, ◌&&◌, some, List, [], ◌∷◌, arith, ltb, leb, ℕ_discrete, Bool-cases,
}
use the_swarm.Common.Map.{
  Map, nat_key, get, contains, add, subset, Distinct, get_of_Fresh, collect_into,
  collect_into-Distinct,
}
use the_swarm.Types.{Sid, PeerId}
use the_swarm.Encoding.ReedSolomon.{ErasureCode}
use the_swarm.Common.Channel.{send}
use the_swarm.DataMemory.State.{initialized, InEvent, Wake, input, read, write}
use the_swarm.DataMemory.Output.{Output}
use the_swarm.DataMemory.Invariant.{IsValid}
use the_swarm.DataMemory.Uninitialized.{
  Start, waiting, stopped, started, initialize_with, announce, on_initialize, round, run, value_set,
  range, verify_distribution,
}

pub contains-add :
    (s : List ℕ) (k j : ℕ) → contains (add s k) j ≡ ite (ℕ_discrete k j) true (contains s j)
unfolding add contains
contains-add s k j = elim (Bool-cases (contains s k)) [
  | inl e ↦ elim (ℕ_discrete k j) [
    | yes p ↦ rw (add, e, if_pos (ℕ_discrete k j) p) (subst (λ n. contains s n ≡ true) p e)
    | no p ↦ rw (add, e, if_neg (ℕ_discrete k j) p) refl
  ]
  | inr e ↦ rw (add, e) refl
]

contains-subset :
    (s t : List ℕ) (k : ℕ) → subset s t ≡ true → contains s k ≡ true → contains t k ≡ true
unfolding subset contains
contains-subset [] t k h c = absurd (ground arith)
contains-subset (j ∷ s) t k h c = ground (arith, contains-subset s t k)

subset_of_contains :
    (s t : List ℕ) → ((k : ℕ) → contains s k ≡ true → contains t k ≡ true) → subset s t ≡ true
unfolding subset contains
subset_of_contains [] t h = refl
subset_of_contains (j ∷ s) t h =
    ground (arith, h j, subset_of_contains s t (λ k c. h k (ground arith)))

contains-range : (i n k : ℕ) → contains (range i n) k ≡ (leb i k && ltb k (i + n))
unfolding contains range
contains-range i zero k = ground arith
contains-range i (suc n) k = ground (arith, contains-range (suc i) n k)

value_of_contains :
    (d : Map PeerId Sid) (sid : Sid)
    → Distinct d
    → contains (value_set d) sid ≡ true
    → (peer : PeerId) × (get d peer ≡ some sid)
unfolding value_set contains get
value_of_contains [] sid v c = absurd (ground arith)
value_of_contains ((p, s) ∷ d) sid v c = elim (ℕ_discrete s sid) [
  | yes e ↦ (p, ground arith)
  | no e ↦
      let (peer, found) =
        value_of_contains d sid v.1 (ground (arith, contains-add (value_set d) s sid)) in
      (peer, ground (arith, get_of_Fresh d p v.0))
]

contains_of_value :
    (d : Map PeerId Sid) (peer : PeerId) (sid : Sid)
    → get d peer ≡ some sid
    → contains (value_set d) sid ≡ true
unfolding value_set get contains
contains_of_value [] peer sid e = absurd (cc)
contains_of_value ((p, s) ∷ d) peer sid e =
    ground (arith, contains-add (value_set d) s sid, contains_of_value d peer sid)

-- Every peer has an index of a shard, and every such index has a peer.
abbrev pub Covers : ℕ → Map PeerId Sid → Type 0
Covers total d =
    ((peer : PeerId) (sid : Sid) → get d peer ≡ some sid → sid < total)
    × ((sid : Sid) → sid < total → (peer : PeerId) × (get d peer ≡ some sid))

-- A distribution, collected from the pairs that arrive, is accepted exactly when the peers in it
-- hold the indices of all the shards and no other.
pub verify_distribution_iff :
    (inner : ErasureCode) (pairs : List (PeerId × Sid))
    → (verify_distribution inner (collect_into [] pairs) ≡ true)
      ↔ Covers inner.total_shard_count (collect_into [] pairs)
unfolding verify_distribution
verify_distribution_iff inner pairs = (accepts, covers)
  where
    d : Map PeerId Sid
    d = collect_into [] pairs

    accepts :
        (subset (value_set d) (range 0 inner.total_shard_count)
            && subset (range 0 inner.total_shard_count) (value_set d))
          ≡ true
        → Covers inner.total_shard_count d
    accepts h = (
      λ peer sid e. ground (
        arith,
        contains-range 0 inner.total_shard_count sid,
        contains-subset (value_set d) (range 0 inner.total_shard_count) sid,
        contains_of_value d peer sid,
      ),
      λ sid below. value_of_contains d sid (collect_into-Distinct [] pairs tt) (
          ground (
            arith,
            contains-range 0 inner.total_shard_count sid,
            contains-subset (range 0 inner.total_shard_count) (value_set d) sid,
          )),
    )

    covers :
        Covers inner.total_shard_count d
        → (subset (value_set d) (range 0 inner.total_shard_count)
            && subset (range 0 inner.total_shard_count) (value_set d))
          ≡ true
    covers c = ground (
      arith,
      subset_of_contains (value_set d) (range 0 inner.total_shard_count) (λ k h.
          let (peer, e) = value_of_contains d k (collect_into-Distinct [] pairs tt) h in
          ground (arith, contains-range 0 inner.total_shard_count k, c.0 peer k e)),
      subset_of_contains (range 0 inner.total_shard_count) (value_set d) (λ k h.
          let (peer, e) = c.1 k (ground (arith, contains-range 0 inner.total_shard_count k)) in
          contains_of_value d peer k e),
    )

module _ (inner : ErasureCode) (local_id : PeerId) where
  -- A memory that starts is valid and empty, belongs to this peer, and its peers hold the indices
  -- of all the shards and no other.
  abbrev pub Starts : Start → Type 0
  Starts waiting = Unit {0}
  Starts stopped = Unit {0}
  Starts (started m) =
      IsValid inner.data_shard_count m
      × Covers inner.total_shard_count m.distribution
      × (m.local_id ≡ local_id)

  announce-Starts :
      (pairs : List (PeerId × Sid)) (r : Output × Bool)
      → verify_distribution inner (collect_into [] pairs) ≡ true
      → Starts (announce inner local_id (collect_into [] pairs) r).1
  unfolding initialize_with
  announce-Starts pairs (o, false) h = tt
  announce-Starts pairs (o, true) h = (
    record {
      stored = (tt, tt);
      served = (tt, tt);
      assembling = (tt, tt);
      located = (tt, tt);
      incomplete = tt;
    },
    (verify_distribution_iff inner pairs).0 h,
    refl,
  )

  on_initialize-Starts :
      (pairs : List (PeerId × Sid)) (o : Output) → Starts (on_initialize inner local_id pairs o).1
  unfolding on_initialize
  on_initialize-Starts pairs o =
      elim (Bool-cases (verify_distribution inner (collect_into [] pairs))) [
        | inl e ↦ rw e (announce-Starts pairs (send initialized o) e)
        | inr e ↦ rw e tt
      ]

  round-Starts : (wake : Wake) (o : Output) → Starts (round inner local_id wake o).1
  unfolding round
  round-Starts (input none) o = tt
  round-Starts (input (some (InEvent.initialize pairs))) o = on_initialize-Starts pairs o
  round-Starts (input (some (InEvent.prepare_service_request _ _))) o = tt
  round-Starts (input (some (InEvent.storage_request_tx _ _))) o = tt
  round-Starts (input (some (InEvent.serve_shard_response _ _))) o = tt
  round-Starts (input (some (InEvent.serve_shard_request _))) o = tt
  round-Starts (input (some (InEvent.store_confirmed _ _))) o = tt
  round-Starts (input (some (InEvent.assigned_request _))) o = tt
  round-Starts (input (some (InEvent.assigned_response _ _))) o = tt
  round-Starts (input (some InEvent.list_distributed)) o = tt
  round-Starts (input (some (InEvent.recollect_request _))) o = tt
  round-Starts (input (some (InEvent.peer_shards_actualized _ _))) o = tt
  round-Starts (read none) o = tt
  round-Starts (read (some _)) o = tt
  round-Starts (write none) o = tt
  round-Starts (write (some _)) o = tt

  -- Whatever wakes the uninitialized memory, if it starts then it starts as a memory that is valid
  -- and belongs to this peer, with a distribution in which the peers hold the indices of all the
  -- shards and no other.
  pub run-Starts : (wakes : List Wake) (o : Output) → Starts (run inner local_id wakes o).1
  unfolding run
  run-Starts [] o = tt
  run-Starts (wake ∷ wakes) o =
      next (round inner local_id wake o) (round-Starts wake o) (λ o'. run-Starts wakes o')
    where
      next :
          (r : Output × Start)
          → Starts r.1
          → ((o' : Output) → Starts (run inner local_id wakes o').1)
          → Starts
              (elim r.1 as (λ _. Output × Start × List Wake) [
                | waiting ↦ run inner local_id wakes r.0
                | stopped ↦ (r.0, stopped, wakes)
                | started m ↦ (r.0, started m, wakes)
              ]).1
      next (o', waiting) s later = later o'
      next (o', stopped) s later = tt
      next (o', started m) s later = s
