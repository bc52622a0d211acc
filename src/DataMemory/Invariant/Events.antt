-- ===== src/DataMemory/Invariant/Events.antt =====
-- src/data_memory/mod.rs: every event, and every run of the loop, keeps the memory valid.
use the_swarm.Common.{
  ◌<◌, ◌≡◌, refl, inl, inr, Option, none, some, List, [], ◌∷◌, arith, leb, ltb, ◌==◌, length,
  Bool-cases, Option-cases,
}
use the_swarm.Common.Map.{Map, nat_key, get, Distinct, insert-Distinct}
use the_swarm.Common.Values.{
  AllValues-insert, AllValues-remove, IsTable-insert, IsTable-remove, IsTable-get,
}
use the_swarm.Common.Result.{Attempt, done, failed, panicked}
use the_swarm.Types.{Vid, Sid, PeerId, Shard, Data}
use the_swarm.Encoding.ReedSolomon.{ErasureCode, Error, encode}
use the_swarm.Encoding.ReedSolomon.RoundTrip.{encode-Distinct}
use the_swarm.DataMemory.State.{FullShardId, InEvent, Wake, input, read, write}
use the_swarm.DataMemory.Output.{World}
use the_swarm.DataMemory.Storage.{prepare_to_serve_shards}
use the_swarm.DataMemory.Handlers.{
  on_serve_shard_request, on_assigned_request, on_storage_request_tx, on_peer_shards_actualized,
  on_prepare_service_request, prepared, on_store_confirmed, report, report_sufficient, report_full,
  on_list_distributed, handle_assigned_response, receive, receive_vacant, assembled, collect_one,
  collect_all, start_collecting, recollect, on_recollect_request,
}
use the_swarm.DataMemory.Run.{on_read, on_write, write_assigned, handle, round, run}
use the_swarm.DataMemory.Invariant.{
  IsValid, send_or_return-IsValid, send_or_abort-IsValid, or_cancel-IsValid, and_then-IsValid,
  handle_serve_shard_response-IsValid, storage_request-IsValid, peer_shards_actualized-IsValid,
  store_shard-IsValid, observe-IsValid,
}

module _ (inner : ErasureCode) where
  prepared-IsValid :
      (id : Vid) (bytes : Data) (made : Attempt Error (Map Sid Shard)) (w : World)
      → encode inner bytes ≡ made
      → IsValid inner.data_shard_count w.memory
      → IsValid inner.data_shard_count (prepared inner id made w).0.memory
  unfolding prepare_to_serve_shards
  prepared-IsValid id bytes (done shards) w e v = send_or_return-IsValid _ _ (record {
    stored = v.stored;
    served = IsTable-insert _ id shards v.served (encode-Distinct inner bytes shards e);
    assembling = v.assembling;
    located = v.located;
    incomplete = v.incomplete;
  })
  prepared-IsValid id bytes (failed _) w e v = v
  prepared-IsValid id bytes panicked w e v = v

  report_full-IsValid :
      (id : Vid) (locations : Map Sid PeerId) (w : World)
      → IsValid inner.data_shard_count w.memory
      → IsValid inner.data_shard_count (report_full inner id locations w).0.memory
  report_full-IsValid id locations w v =
      elim (Bool-cases (length locations == inner.total_shard_count)) [
        | inl e ↦ rw e (
            send_or_return-IsValid _ _ (record {
              stored = v.stored;
              served = IsTable-remove _ id v.served;
              assembling = v.assembling;
              located = v.located;
              incomplete = v.incomplete;
            }))
        | inr e ↦ rw e v
      ]

  report-IsValid :
      (id : Vid) (found : Option (Map Sid PeerId)) (w : World)
      → IsValid inner.data_shard_count w.memory
      → IsValid inner.data_shard_count (report inner id found w).0.memory
  report-IsValid id none w v = v
  report-IsValid id (some locations) w v =
      and_then-IsValid _ _ first (report_full-IsValid id locations)
    where
      first : IsValid inner.data_shard_count (report_sufficient inner id locations w).0.memory
      first = elim (Bool-cases (length locations == inner.data_shard_count)) [
        | inl e ↦ rw e (send_or_return-IsValid _ w v)
        | inr e ↦ rw e v
      ]

  assembled-IsValid :
      (id : Vid) (r : Attempt Error Data) (w : World)
      → IsValid inner.data_shard_count w.memory
      → IsValid inner.data_shard_count (assembled inner id r w).0.memory
  assembled-IsValid id (done bytes) w v = send_or_abort-IsValid _ w v
  assembled-IsValid id (failed _) w v = v
  assembled-IsValid id panicked w v = v

  receive_vacant-IsValid :
      (id : Vid) (received : Map Sid Shard) (w : World)
      → Distinct received
      → IsValid inner.data_shard_count w.memory
      → IsValid inner.data_shard_count (receive_vacant inner id received w).0.memory
  receive_vacant-IsValid id received w d v =
      elim (Bool-cases (leb inner.data_shard_count (length received))) [
        | inl e ↦ rw e (
            assembled-IsValid id _ _ (record {
              stored = v.stored;
              served = v.served;
              assembling = IsTable-remove _ id v.assembling;
              located = v.located;
              incomplete = AllValues-remove _ _ id v.incomplete;
            }))
        | inr e ↦ rw e (record {
          stored = v.stored;
          served = v.served;
          assembling = IsTable-insert _ id received v.assembling d;
          located = v.located;
          incomplete = AllValues-insert _ _ id received v.incomplete (ground arith);
        })
      ]

  receive-IsValid :
      (id : FullShardId) (shard : Shard) (found : Option (Map Sid Shard)) (w : World)
      → get w.memory.currently_assembled id.0 ≡ found
      → IsValid inner.data_shard_count w.memory
      → IsValid inner.data_shard_count (receive inner id shard found w).0.memory
  receive-IsValid id shard none w f v = v
  receive-IsValid id shard (some received) w f v = elim (Option-cases (get received id.1)) [
    | inl e ↦
        rw (e, receive)
          (receive_vacant-IsValid id.0 _ w
            (insert-Distinct received id.1 shard (IsTable-get _ id.0 received v.assembling f)) v)
    | inr (_, e) ↦ rw (e, receive) v
  ]

  pub handle_assigned_response-IsValid :
      (id : FullShardId) (shard : Option Shard) (w : World)
      → IsValid inner.data_shard_count w.memory
      → IsValid inner.data_shard_count (handle_assigned_response inner id shard w).0.memory
  unfolding handle_assigned_response
  handle_assigned_response-IsValid id none w v = v
  handle_assigned_response-IsValid id (some shard) w v = receive-IsValid id shard _ w refl v

  collect_one-IsValid :
      (id : Vid) (sid : Sid) (owner : PeerId) (w : World)
      → IsValid inner.data_shard_count w.memory
      → IsValid inner.data_shard_count (collect_one inner id sid owner w).0.memory
  unfolding collect_one
  collect_one-IsValid id sid owner w v = elim (Bool-cases (owner == w.memory.local_id)) [
    | inl e ↦ rw e (or_cancel-IsValid _ (handle_assigned_response-IsValid _ _ w v))
    | inr e ↦ rw e (send_or_return-IsValid _ w v)
  ]

  collect_all-IsValid :
      (id : Vid) (locations : Map Sid PeerId) (w : World)
      → IsValid inner.data_shard_count w.memory
      → IsValid inner.data_shard_count (collect_all inner id locations w).0.memory
  unfolding collect_all
  collect_all-IsValid id [] w v = v
  collect_all-IsValid id ((sid, owner) ∷ locations) w v =
      and_then-IsValid _ _ (collect_one-IsValid id sid owner w v) (collect_all-IsValid id locations)

  start_collecting-IsValid :
      (id : Vid) (locations : Map Sid PeerId) (found : Option (Map Sid Shard)) (w : World)
      → 0 < inner.data_shard_count
      → IsValid inner.data_shard_count w.memory
      → IsValid inner.data_shard_count (start_collecting inner id locations found w).0.memory
  start_collecting-IsValid id locations (some _) w h v = v
  start_collecting-IsValid id locations none w h v = collect_all-IsValid id locations _ (record {
    stored = v.stored;
    served = v.served;
    assembling = IsTable-insert _ id [] v.assembling tt;
    located = v.located;
    incomplete = AllValues-insert _ _ id [] v.incomplete h;
  })

  recollect-IsValid :
      (id : Vid) (found : Option (Map Sid PeerId)) (w : World)
      → 0 < inner.data_shard_count
      → IsValid inner.data_shard_count w.memory
      → IsValid inner.data_shard_count (recollect inner id found w).0.memory
  recollect-IsValid id none w h v = send_or_return-IsValid _ w v
  recollect-IsValid id (some locations) w h v =
      elim (Bool-cases (ltb (length locations) inner.data_shard_count)) [
        | inl e ↦ rw e (send_or_return-IsValid _ w v)
        | inr e ↦ rw e (start_collecting-IsValid id locations _ w h v)
      ]

  module _ (positive : 0 < inner.data_shard_count) where
    handle-IsValid :
        (e : InEvent) (w : World)
        → IsValid inner.data_shard_count w.memory
        → IsValid inner.data_shard_count (handle inner e w).0.memory
    unfolding handle on_prepare_service_request on_storage_request_tx on_serve_shard_request
        on_store_confirmed on_assigned_request on_list_distributed on_recollect_request
        on_peer_shards_actualized
    handle-IsValid (InEvent.initialize pairs) w v = v
    handle-IsValid (InEvent.prepare_service_request id bytes) w v =
        prepared-IsValid id bytes _ w refl v
    handle-IsValid (InEvent.storage_request_tx id author) w v =
        storage_request-IsValid id author _ w v
    handle-IsValid (InEvent.serve_shard_request id) w v = send_or_return-IsValid _ w v
    handle-IsValid (InEvent.serve_shard_response id shard) w v =
        or_cancel-IsValid _ (handle_serve_shard_response-IsValid id shard w v)
    handle-IsValid (InEvent.store_confirmed id location) w v =
        report-IsValid id.0 _ _ (observe-IsValid w.memory id location v)
    handle-IsValid (InEvent.assigned_request id) w v = send_or_return-IsValid _ w v
    handle-IsValid InEvent.list_distributed w v = send_or_return-IsValid _ w v
    handle-IsValid (InEvent.recollect_request id) w v = recollect-IsValid id _ w positive v
    handle-IsValid (InEvent.assigned_response id shard) w v =
        or_cancel-IsValid _ (handle_assigned_response-IsValid id shard w v)
    handle-IsValid (InEvent.peer_shards_actualized peer ids) w v =
        peer_shards_actualized-IsValid peer ids _ w v

    write_assigned-IsValid :
        (id : Vid) (shard : Shard) (assigned : Option Sid) (w : World)
        → IsValid inner.data_shard_count w.memory
        → IsValid inner.data_shard_count (write_assigned id shard assigned w).0.memory
    write_assigned-IsValid id shard none w v = v
    write_assigned-IsValid id shard (some sid) w v = store_shard-IsValid w.memory (id, sid) shard v

    -- One round of the loop keeps the memory valid, whatever wakes it.
    pub round-IsValid :
        (wake : Wake) (w : World)
        → IsValid inner.data_shard_count w.memory
        → IsValid inner.data_shard_count (round inner wake w).0.memory
    unfolding round on_read on_write
    round-IsValid (input none) w v = v
    round-IsValid (input (some e)) w v = handle-IsValid e w v
    round-IsValid (read none) w v = v
    round-IsValid (read (some id)) w v = v
    round-IsValid (write none) w v = v
    round-IsValid (write (some (id, shard))) w v = write_assigned-IsValid id shard _ w v

    -- Where the code has a data shard at all, any run of the loop of an initialized memory,
    -- whatever wakes it and however it ends, keeps a valid memory valid: its maps have one entry
    -- for a key, on both levels, and no data is still being assembled from as many shards as
    -- bring it back.
    pub run-IsValid :
        (wakes : List Wake) (w : World)
        → IsValid inner.data_shard_count w.memory
        → IsValid inner.data_shard_count (run inner wakes w).0.memory
    unfolding run
    run-IsValid [] w v = v
    run-IsValid (wake ∷ wakes) w v =
        and_then-IsValid _ _ (round-IsValid wake w v) (run-IsValid wakes)
