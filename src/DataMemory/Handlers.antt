-- ===== src/DataMemory/Handlers.antt =====
-- src/data_memory/mod.rs: the handlers of the events of an initialized memory.
use the_swarm.Common.{
  ℕ, Bool, true, false, Option, none, some, List, [], ◌∷◌, ◌==◌, ltb, leb, if◌then◌else◌, length,
}
use the_swarm.Common.Map.{Map, nat_key, get, insert, remove}
use the_swarm.Common.Result.{err, Attempt, done, failed, panicked}
use the_swarm.Types.{Vid, Sid, PeerId, Shard, Data}
use the_swarm.Encoding.ReedSolomon.{ErasureCode, Error, encode, decode, settings}
use the_swarm.DataMemory.State.{FullShardId, OutEvent, unkonwn_data_id, not_enough_shards, Memory}
use the_swarm.DataMemory.Output.{
  World, HandleResult, ok, unwound, Exit, running, returned, send_or_return, send_or_abort,
  or_cancel, and_then,
}
use the_swarm.DataMemory.Storage.{
  or_default, assigned_shard_id, get_shard, store_shard, observe_new_location,
  prepare_to_serve_shards, serve_shard,
}

abbrev pub with_memory : World → Memory → World
with_memory w m = record w { memory = m }

unfoldable pub handle_serve_shard_response :
    FullShardId → Option Shard → World → World × HandleResult
handle_serve_shard_response id none w = (w, ok)
handle_serve_shard_response id (some shard) w =
    send_or_abort (OutEvent.assigned_store_success id)
      (with_memory w (store_shard w.memory id shard).0)

-- `InEvent::ServeShardRequest`.
unfoldable pub on_serve_shard_request : FullShardId → World → World × Exit
on_serve_shard_request id w =
    send_or_return (OutEvent.serve_shard_response id (serve_shard w.memory id)) w

-- `InEvent::AssignedRequest`.
unfoldable pub on_assigned_request : FullShardId → World → World × Exit
on_assigned_request id w = send_or_return (OutEvent.assigned_response id (get_shard w.memory id)) w

abbrev pub storage_request : Vid → PeerId → Option Sid → World → World × Exit
storage_request data_id author none w = (w, running)
storage_request data_id author (some sid) w =
    if author == w.memory.local_id
    then or_cancel
        (handle_serve_shard_response (data_id, sid) (serve_shard w.memory (data_id, sid)) w)
    else send_or_return (OutEvent.serve_shard_request (data_id, sid) author) w

-- `InEvent::StorageRequestTx`.
unfoldable pub on_storage_request_tx : Vid → PeerId → World → World × Exit
unfolding handle_serve_shard_response
on_storage_request_tx data_id author w =
    storage_request data_id author (assigned_shard_id w.memory) w

-- The loop of `InEvent::PeerShardsActualized`.
unfoldable pub actualize_all :
    Map Vid (Map Sid PeerId) → Sid → PeerId → List Vid → Map Vid (Map Sid PeerId)
actualize_all known sid peer [] = known
actualize_all known sid peer (data_id ∷ ids) =
    actualize_all (insert known data_id (insert (or_default (get known data_id)) sid peer)) sid peer
      ids

abbrev pub peer_shards_actualized : PeerId → List Vid → Option Sid → World → World × Exit
peer_shards_actualized peer ids none w = (w, returned)
peer_shards_actualized peer ids (some sid) w =
    let known = actualize_all w.memory.data_known_locations sid peer ids in
    (with_memory w (record (w.memory) { data_known_locations = known }), running)

-- `InEvent::PeerShardsActualized`.
unfoldable pub on_peer_shards_actualized : PeerId → List Vid → World → World × Exit
unfolding actualize_all
on_peer_shards_actualized peer ids w =
    peer_shards_actualized peer ids (get w.memory.distribution peer) w

-- The entries with enough known locations.
unfoldable pub distributed : ℕ → Map Vid (Map Sid PeerId) → List (Vid × Map Sid PeerId)
distributed sufficient [] = []
distributed sufficient ((data_id, locations) ∷ known) =
    let rest = distributed sufficient known in
    if leb sufficient (length locations) then (data_id, locations) ∷ rest else rest

module _ (inner : ErasureCode) where
  abbrev pub sufficient_shards : ℕ
  sufficient_shards = (settings inner).data_shards_sufficient

  abbrev pub total_shards : ℕ
  total_shards = (settings inner).data_shards_total

  abbrev pub prepared : Vid → Attempt Error (Map Sid Shard) → World → World × Exit
  prepared data_id (done shards) w =
      send_or_return (OutEvent.prepared_service_response data_id)
        (with_memory w (prepare_to_serve_shards w.memory data_id shards))
  prepared data_id (failed _) w = (w, Exit.panicked)
  prepared data_id panicked w = (w, Exit.panicked)

  -- `InEvent::PrepareServiceRequest`.
  unfoldable pub on_prepare_service_request : Vid → Data → World → World × Exit
  on_prepare_service_request data_id bytes w = prepared data_id (encode inner bytes) w

  abbrev pub report_sufficient : Vid → Map Sid PeerId → World → World × Exit
  report_sufficient data_id locations w =
      if length locations == sufficient_shards
      then send_or_return (OutEvent.distribution_sufficient data_id) w
      else (w, running)

  abbrev pub report_full : Vid → Map Sid PeerId → World → World × Exit
  report_full data_id locations w =
      let m = w.memory in
      if length locations == total_shards
      then send_or_return (OutEvent.distribution_full data_id)
          (with_memory w (record m { to_distribute = remove m.to_distribute data_id }))
      else (w, running)

  abbrev pub report : Vid → Option (Map Sid PeerId) → World → World × Exit
  report data_id none w = (w, running)
  report data_id (some locations) w =
      and_then (report_sufficient data_id locations w) (report_full data_id locations)

  -- `InEvent::StoreConfirmed`.
  unfoldable pub on_store_confirmed : FullShardId → PeerId → World → World × Exit
  on_store_confirmed id location w =
      let m = observe_new_location w.memory id location in
      report id.0 (get m.data_known_locations id.0) (with_memory w m)

  -- `InEvent::ListDistributed`.
  unfoldable pub on_list_distributed : World → World × Exit
  on_list_distributed w =
      send_or_return
        (OutEvent.list_distributed (distributed sufficient_shards w.memory.data_known_locations)) w

  abbrev pub assembled : Vid → Attempt Error Data → World → World × HandleResult
  assembled data_id (done bytes) w =
      send_or_abort (OutEvent.recollect_response (the_swarm.Common.Result.ok (data_id, bytes))) w
  assembled data_id (failed _) w = (w, ok)
  assembled data_id panicked w = (w, unwound)

  -- A vacant entry is filled; with enough shards the entry is taken out and decoded.
  abbrev pub receive_vacant : Vid → Map Sid Shard → World → World × HandleResult
  receive_vacant data_id received w =
      let m = w.memory in
      if leb sufficient_shards (length received)
      then assembled data_id (decode inner received)
          (with_memory w (record m { currently_assembled = remove m.currently_assembled data_id }))
      else (
        with_memory w
            (record m { currently_assembled = insert m.currently_assembled data_id received }),
        ok,
      )

  abbrev pub receive : FullShardId → Shard → Option (Map Sid Shard) → World → World × HandleResult
  receive id shard none w = (w, ok)
  receive id shard (some received) w = elim (get received id.1) [
    | some _ ↦ (w, ok)
    | none ↦ receive_vacant id.0 (insert received id.1 shard) w
  ]

  unfoldable pub handle_assigned_response :
      FullShardId → Option Shard → World → World × HandleResult
  handle_assigned_response id none w = (w, ok)
  handle_assigned_response id (some shard) w =
      receive id shard (get w.memory.currently_assembled id.0) w

  -- One round of the loop over the known locations.
  unfoldable pub collect_one : Vid → Sid → PeerId → World → World × Exit
  unfolding handle_assigned_response
  collect_one data_id shard_id owner w =
      if owner == w.memory.local_id
      then or_cancel
          (handle_assigned_response (data_id, shard_id) (get_shard w.memory (data_id, shard_id)) w)
      else send_or_return (OutEvent.assigned_request (data_id, shard_id) owner) w

  unfoldable pub collect_all : Vid → Map Sid PeerId → World → World × Exit
  collect_all data_id [] w = (w, running)
  collect_all data_id ((shard_id, owner) ∷ locations) w =
      and_then (collect_one data_id shard_id owner w) (collect_all data_id locations)

  abbrev pub start_collecting : Vid → Map Sid PeerId → Option (Map Sid Shard) → World → World × Exit
  start_collecting data_id locations (some _) w = (w, running)
  start_collecting data_id locations none w =
      let m = w.memory in
      collect_all data_id locations
        (with_memory w (record m { currently_assembled = insert m.currently_assembled data_id [] }))

  abbrev pub recollect : Vid → Option (Map Sid PeerId) → World → World × Exit
  recollect data_id none w = send_or_return (OutEvent.recollect_response (err unkonwn_data_id)) w
  recollect data_id (some locations) w =
      if ltb (length locations) sufficient_shards
      then send_or_return (OutEvent.recollect_response (err not_enough_shards)) w
      else start_collecting data_id locations (get w.memory.currently_assembled data_id) w

  -- `InEvent::RecollectRequest`.
  unfoldable pub on_recollect_request : Vid → World → World × Exit
  unfolding collect_all collect_one
  on_recollect_request data_id w = recollect data_id (get w.memory.data_known_locations data_id) w
