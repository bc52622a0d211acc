-- ===== src/DataMemory/Distribution.antt =====
-- src/data_memory/mod.rs: how data is handed out to the peers, and when that is reported.
use the_swarm.Common.{
  ℕ, ◌≡◌, refl, ap, ◌∙◌, inl, inr, Bool, ◌&&◌, ◌||◌, Option, none, some, List, [], ◌∷◌, ◌++◌, arith,
  ◌==◌, if◌then◌else◌, length, Bool-cases, Option-cases,
}
use mathlib.Core.List.{append_assoc, append-nil}
use the_swarm.Common.Map.{
  Map, nat_key, get, insert, remove, get-insert, get-insert_self, get-remove_self, get-remove_ne,
}
use the_swarm.Common.Values.{IsTable, IsTable-get}
use the_swarm.Common.Result.{done}
use the_swarm.Types.{Vid, Sid, PeerId, Shard, Data, IsData, data_shards_count}
use the_swarm.Encoding.ReedSolomon.{ErasureCode, encode}
use the_swarm.Encoding.ReedSolomon.Slots.{IsErasureCode}
use the_swarm.Encoding.ReedSolomon.RoundTrip.{encode_codeword}
use the_swarm.DataMemory.State.{OutEvent, Memory}
use the_swarm.DataMemory.Output.{World, Exit, running}
use the_swarm.DataMemory.Storage.{
  get_in, or_default, serve_shard, observe_new_location, drop_shard, prepare_to_serve_shards,
}
use the_swarm.DataMemory.Handlers.{
  with_memory, on_prepare_service_request, on_store_confirmed, report,
}
use the_swarm.DataMemory.Invariant.{IsValid, observe-IsValid}
use the_swarm.DataMemory.Recollection.{emits, send_or_return_open}

pub prepare_open :
    (inner : ErasureCode) (w : World) (id : Vid) (bytes : Data) (all : Map Sid Shard)
    → encode inner bytes ≡ done all
    → w.output.room ≡ none
    → on_prepare_service_request inner id bytes w ≡ (
      emits
          (with_memory w (prepare_to_serve_shards w.memory id all))
          (OutEvent.prepared_service_response id ∷ []),
      running,
    )
unfolding on_prepare_service_request
prepare_open inner w id bytes all e room = rw e (send_or_return_open _ _ room)

serve-prepare :
    (m : Memory) (id : Vid) (all : Map Sid Shard) (other : Vid) (sid : Sid)
    → serve_shard (prepare_to_serve_shards m id all) (other, sid)
      ≡ (if id == other then get all sid else serve_shard m (other, sid))
unfolding prepare_to_serve_shards serve_shard
serve-prepare m id all other sid = ground (arith, get-insert m.to_distribute id all other)

module _ (inner : ErasureCode) (law : IsErasureCode inner)
    (two : inner.data_shard_count ≡ data_shards_count) where
  -- With an erasure code that keeps its laws and has two data shards, and an open output
  -- channel, data of eight bytes that is put neither fails nor panics: its shards are ready to
  -- be served, under their indices, when the preparation is announced, and what is served of
  -- other data does not change.
  pub on_prepare_service_request-serves :
      (w : World) (id : Vid) (bytes : Data)
      → IsData bytes
      → w.output.room ≡ none
      → (all : Map Sid Shard) × (encode inner bytes ≡ done all)
        × ((on_prepare_service_request inner id bytes w).1 ≡ running)
        × ((on_prepare_service_request inner id bytes w).0.output.sent
            ≡ w.output.sent ++ (OutEvent.prepared_service_response id ∷ []))
        × ((other : Vid) (sid : Sid)
            → serve_shard (on_prepare_service_request inner id bytes w).0.memory (other, sid)
              ≡ (if id == other then get all sid else serve_shard w.memory (other, sid)))
  on_prepare_service_request-serves w id bytes h room =
      let (codeword, ran, encoded, size, front) = encode_codeword inner law two bytes h in
      let ready = prepare_open inner w id bytes _ encoded room in
      (
        _,
        encoded,
        ap (λ (r : World × Exit). r.1) ready,
        ap (λ (r : World × Exit). r.0.output.sent) ready,
        λ other sid.
            ap (λ (r : World × Exit). serve_shard r.0.memory (other, sid)) ready
            ∙ serve-prepare w.memory id _ other sid,
      )

-- The locations known for the data once one more is observed.
abbrev pub located_with : Memory → Vid → Sid → PeerId → Map Sid PeerId
located_with m id sid location = insert (or_default (get m.data_known_locations id)) sid location

abbrev when : Bool → OutEvent → List OutEvent
when b e = if b then e ∷ [] else []

module _ (inner : ErasureCode) where
  -- What the number of locations lets the memory report.
  abbrev reports : Vid → ℕ → List OutEvent
  reports id n =
      when (n == inner.data_shard_count) (OutEvent.distribution_sufficient id)
      ++ when (n == inner.total_shard_count) (OutEvent.distribution_full id)

  -- What is still served after one more location is observed.
  abbrev pub served_after : Memory → Vid → Sid → ℕ → Vid → Sid → Option Shard
  served_after m id sid n other osid =
      if (id == other) && ((sid == osid) || (n == inner.total_shard_count))
      then none
      else serve_shard m (other, osid)

  -- The memory after a confirmation that makes `n` locations.
  abbrev after_confirmation : Memory → Vid → ℕ → Memory
  after_confirmation m id n =
      if n == inner.total_shard_count
      then record m { to_distribute = remove m.to_distribute id }
      else m

  report_open :
      (w : World) (id : Vid) (locations : Map Sid PeerId)
      → w.output.room ≡ none
      → report inner id (some locations) w ≡ (
        emits
            (with_memory w (after_confirmation w.memory id (length locations)))
            (reports id (length locations)),
        running,
      )
  report_open w id locations room = elim (Bool-cases (length locations == inner.data_shard_count)) [
    | inl s ↦ elim (Bool-cases (length locations == inner.total_shard_count)) [
      | inl t ↦
          rw
            (
              s,
              send_or_return_open (OutEvent.distribution_sufficient id) w room,
              t,
              send_or_return_open (OutEvent.distribution_full id)
                  (emits
                    (with_memory w
                      (record (w.memory) { to_distribute = remove w.memory.to_distribute id }))
                    (OutEvent.distribution_sufficient id ∷ []))
                  refl,
            )
            (ground (
              arith,
              append_assoc w.output.sent (OutEvent.distribution_sufficient id ∷ [])
                  (OutEvent.distribution_full id ∷ []),
            ))
      | inr t ↦ rw (s, send_or_return_open (OutEvent.distribution_sufficient id) w room, t) refl
    ]
    | inr s ↦ elim (Bool-cases (length locations == inner.total_shard_count)) [
      | inl t ↦
          rw
            (
              s,
              t,
              send_or_return_open (OutEvent.distribution_full id)
                  (with_memory w
                    (record (w.memory) { to_distribute = remove w.memory.to_distribute id }))
                  room,
            )
            refl
      | inr t ↦ rw (s, t) (ground (arith, append-nil w.output.sent))
    ]
  ]

get_in-drop :
    (t : Map Vid (Map Sid Shard)) (id : Vid) (sid : Sid) (other : Vid) (osid : Sid)
    → IsTable t
    → get_in (get (drop_shard t id sid (get t id)) other) osid
      ≡ (if (id == other) && (sid == osid) then none else get_in (get t other) osid)
get_in-drop t id sid other osid v = elim (Option-cases (get t id)) [
  | inl e ↦ rw e (ground arith)
  | inr (shards, e) ↦ rw e (
      ground (
        arith,
        get-insert t id (remove shards sid) other,
        get-remove_self shards sid (IsTable-get t id shards v e),
        get-remove_ne shards sid osid,
      ))
]

get_in-remove :
    (t : Map Vid (Map Sid Shard)) (id : Vid) (other : Vid) (osid : Sid)
    → IsTable t
    → get_in (get (remove t id) other) osid
      ≡ (if id == other then none else get_in (get t other) osid)
get_in-remove t id other osid v = ground (arith, get-remove_self t id v.0, get-remove_ne t id other)

serve-observe :
    (m : Memory) (id : Vid) (sid : Sid) (location : PeerId) (other : Vid) (osid : Sid)
    → IsTable m.to_distribute
    → serve_shard (observe_new_location m (id, sid) location) (other, osid)
      ≡ (if (id == other) && (sid == osid) then none else serve_shard m (other, osid))
unfolding serve_shard observe_new_location
serve-observe m id sid location other osid t = get_in-drop m.to_distribute id sid other osid t

located-observe :
    (m : Memory) (id : Vid) (sid : Sid) (location : PeerId)
    → (observe_new_location m (id, sid) location).data_known_locations
      ≡ insert m.data_known_locations id (located_with m id sid location)
unfolding observe_new_location
located-observe m id sid location = refl

get-observe :
    (m : Memory) (id : Vid) (sid : Sid) (location : PeerId)
    → get (observe_new_location m (id, sid) location).data_known_locations id
      ≡ some (located_with m id sid location)
unfolding observe_new_location
get-observe m id sid location =
    get-insert_self m.data_known_locations id (located_with m id sid location)

module _ (inner : ErasureCode) where
  on_store_confirmed_open :
      (w : World) (id : Vid) (sid : Sid) (location : PeerId)
      → w.output.room ≡ none
      → let n = length (located_with w.memory id sid location) in
        on_store_confirmed inner (id, sid) location w ≡ (
          emits
              (with_memory w
                (after_confirmation inner (observe_new_location w.memory (id, sid) location) id n))
              (reports inner id n),
          running,
        )
  unfolding on_store_confirmed
  on_store_confirmed_open w id sid location room =
      let m = observe_new_location w.memory (id, sid) location in
      ap (λ found. report inner id found (with_memory w m)) (get-observe w.memory id sid location)
      ∙ report_open inner (with_memory w m) id (located_with w.memory id sid location) room

  located-after :
      (m : Memory) (id : Vid) (n : ℕ)
      → (after_confirmation inner m id n).data_known_locations ≡ m.data_known_locations
  located-after m id n = ground arith

  serve-after :
      (m : Memory) (id : Vid) (n : ℕ) (other : Vid) (osid : Sid)
      → IsTable m.to_distribute
      → serve_shard (after_confirmation inner m id n) (other, osid) ≡ (
          if (id == other) && (n == inner.total_shard_count)
          then none
          else serve_shard m (other, osid))
  unfolding serve_shard
  serve-after m id n other osid t = ground (arith, get_in-remove m.to_distribute id other osid t)

  -- In a valid memory with an open output channel, a confirmation that a peer stores a shard
  -- never stops the memory. It records the location; it reports sufficient distribution exactly
  -- when the shards with a known location are then as many as bring the data back, and full
  -- distribution exactly when they are as many as the code has, in this order; and it stops serving
  -- the shard, and at full distribution every shard of the data, but nothing else.
  pub on_store_confirmed-reports :
      (w : World) (id : Vid) (sid : Sid) (location : PeerId)
      → IsValid inner.data_shard_count w.memory
      → w.output.room ≡ none
      → let n = length (located_with w.memory id sid location) in
        let r = on_store_confirmed inner (id, sid) location w in
        (r.1 ≡ running)
        × (r.0.output.sent ≡ w.output.sent ++ reports inner id n)
        × (r.0.memory.data_known_locations
            ≡ insert w.memory.data_known_locations id (located_with w.memory id sid location))
        × ((other : Vid) (osid : Sid)
            → serve_shard r.0.memory (other, osid)
              ≡ served_after inner w.memory id sid n other osid)
  on_store_confirmed-reports w id sid location v room =
      let m = observe_new_location w.memory (id, sid) location in
      let n = length (located_with w.memory id sid location) in
      let open_run = on_store_confirmed_open w id sid location room in
      let tables =
        (observe-IsValid {sufficient = inner.data_shard_count} w.memory (id, sid) location
          v).served in
      (
        ap (λ (r : World × Exit). r.1) open_run,
        ap (λ (r : World × Exit). r.0.output.sent) open_run,
        ap (λ (r : World × Exit). r.0.memory.data_known_locations) open_run
            ∙ located-after m id n
            ∙ located-observe w.memory id sid location,
        λ other osid.
            ap (λ (r : World × Exit). serve_shard r.0.memory (other, osid)) open_run
            ∙ ground (
              arith,
              serve-after m id n other osid tables,
              serve-observe w.memory id sid location other osid v.served,
            ),
      )
