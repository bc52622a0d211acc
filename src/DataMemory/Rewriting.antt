-- ===== src/DataMemory/Rewriting.antt =====
-- src/data_memory/mod.rs: what happens to data that is put under an id that was used before.
use the_swarm.Common.{◌≡◌, refl, ap, ◌∙◌, none, some, arith, length, [], ◌∷◌}
use the_swarm.Common.Map.{Map, nat_key, get, length-insert_old}
use the_swarm.Common.Values.{IsTable-insert}
use the_swarm.Common.Result.{done}
use the_swarm.Types.{Vid, Sid, PeerId, Shard, Data, IsData, data_shards_count}
use the_swarm.Encoding.ReedSolomon.{ErasureCode, encode}
use the_swarm.Encoding.ReedSolomon.Slots.{IsErasureCode}
use the_swarm.Encoding.ReedSolomon.RoundTrip.{encode_codeword, encode-Distinct}
use the_swarm.DataMemory.State.{OutEvent, Memory}
use the_swarm.DataMemory.Output.{World, Exit}
use the_swarm.DataMemory.Storage.{serve_shard, prepare_to_serve_shards}
use the_swarm.DataMemory.Handlers.{with_memory, on_prepare_service_request, on_store_confirmed}
use the_swarm.DataMemory.Invariant.{IsValid}
use the_swarm.DataMemory.Recollection.{emits}
use the_swarm.DataMemory.Distribution.{
  prepare_open, located_with, served_after, on_store_confirmed-reports,
}

prepare-IsValid :
    (inner : ErasureCode) (m : Memory) (id : Vid) (bytes : Data) (all : Map Sid Shard)
    → encode inner bytes ≡ done all
    → IsValid inner.data_shard_count m
    → IsValid inner.data_shard_count (prepare_to_serve_shards m id all)
unfolding prepare_to_serve_shards
prepare-IsValid inner m id bytes all e v = record {
  stored = v.stored;
  served = IsTable-insert _ id all v.served (encode-Distinct inner bytes all e);
  assembling = v.assembling;
  located = v.located;
  incomplete = v.incomplete;
}

located-count :
    (m : Memory) (id : Vid) (all : Map Sid Shard) (sid : Sid) (location before : PeerId)
    (locations : Map Sid PeerId)
    → get m.data_known_locations id ≡ some locations
    → get locations sid ≡ some before
    → length (located_with (prepare_to_serve_shards m id all) id sid location) ≡ length locations
unfolding prepare_to_serve_shards
located-count m id all sid location before locations known here =
    rw known (length-insert_old locations sid location before here)

module _ (inner : ErasureCode) (law : IsErasureCode inner)
    (two : inner.data_shard_count ≡ data_shards_count) where
  -- With an erasure code that keeps its laws and has two data shards, a valid memory and an open
  -- output channel: where the locations of all the shards of some data are known, and other data
  -- of eight bytes is put under the same id, the first confirmation of one of these shards makes
  -- the memory stop serving every shard of the new data, whether or not its peer has it.
  pub put_again-unserved :
      (w : World) (id : Vid) (sid : Sid) (location before : PeerId) (bytes : Data)
      (locations : Map Sid PeerId) (other : Sid)
      → IsData bytes
      → IsValid inner.data_shard_count w.memory
      → w.output.room ≡ none
      → get w.memory.data_known_locations id ≡ some locations
      → length locations ≡ inner.total_shard_count
      → get locations sid ≡ some before
      → serve_shard
          (on_store_confirmed inner
            (id, sid)
            location
            (on_prepare_service_request inner id bytes w).0).0.memory
          (id, other)
        ≡ none
  put_again-unserved w id sid location before bytes locations other h v room known full here =
      let (codeword, ran, encoded, size, front) = encode_codeword inner law two bytes h in
      let ready = prepare_open inner w id bytes _ encoded room in
      let put =
        emits (with_memory w (prepare_to_serve_shards w.memory id _))
          (OutEvent.prepared_service_response id ∷ []) in
      let (_, _, _, served) =
        on_store_confirmed-reports inner put id sid location
          (prepare-IsValid inner w.memory id bytes _ encoded v) refl in
      let count = located-count w.memory id _ sid location before locations known here ∙ full in
      ap
        (λ (r : World × Exit).
          serve_shard (on_store_confirmed inner (id, sid) location r.0).0.memory (id, other))
        ready
      ∙ served id other
      ∙ ap (λ n. served_after inner put.memory id sid n id other) count
      ∙ ground arith
