-- ===== src/DataMemory/Run.antt =====
-- src/data_memory/mod.rs: the loop of an initialized memory, and the whole memory.
use the_swarm.Common.{Option, none, some, List, [], ◌∷◌, ◌++◌}
use the_swarm.Common.Map.{Map, nat_key, get}
use the_swarm.Types.{Vid, Sid, PeerId, Shard}
use the_swarm.Encoding.ReedSolomon.{ErasureCode}
use the_swarm.DataMemory.State.{InEvent, Wake, input, read, write}
use the_swarm.DataMemory.Output.{Output, World, Exit, running, returned, or_cancel, and_then}
use the_swarm.DataMemory.Storage.{assigned_shard_id, store_shard}
use the_swarm.DataMemory.Uninitialized
use the_swarm.DataMemory.Uninitialized.{Start, waiting, stopped, started}
use the_swarm.DataMemory.Handlers.{
  with_memory, handle_serve_shard_response, on_serve_shard_request, on_assigned_request,
  on_storage_request_tx, on_peer_shards_actualized, on_prepare_service_request, on_store_confirmed,
  on_list_distributed, handle_assigned_response, on_recollect_request,
}

-- The first of the shards that are stored for a data id.
abbrev pub first_shard : Option (Map Sid Shard) → Option Shard
first_shard none = none
first_shard (some []) = none
first_shard (some ((sid, shard) ∷ shards)) = some shard

-- A read request of the memory bus.
unfoldable pub on_read : Vid → World → World × Exit
on_read data_id w =
    let shard = first_shard (get w.memory.local_storage data_id) in
    (record w { answered = w.answered ++ (shard ∷ []) }, running)

abbrev pub write_assigned : Vid → Shard → Option Sid → World → World × Exit
write_assigned data_id shard none w = (w, running)
write_assigned data_id shard (some sid) w =
    (with_memory w (store_shard w.memory (data_id, sid) shard).0, running)

-- A write request of the memory bus.
unfoldable pub on_write : Vid → Shard → World → World × Exit
on_write data_id shard w = write_assigned data_id shard (assigned_shard_id w.memory) w

module _ (inner : ErasureCode) where
  unfoldable pub handle : InEvent → World → World × Exit
  handle (InEvent.initialize pairs) w = (w, running)
  handle (InEvent.prepare_service_request data_id bytes) w =
      on_prepare_service_request inner data_id bytes w
  handle (InEvent.storage_request_tx data_id author) w = on_storage_request_tx data_id author w
  handle (InEvent.serve_shard_request id) w = on_serve_shard_request id w
  handle (InEvent.serve_shard_response id shard) w =
      or_cancel (handle_serve_shard_response id shard w)
  handle (InEvent.store_confirmed id location) w = on_store_confirmed inner id location w
  handle (InEvent.assigned_request id) w = on_assigned_request id w
  handle InEvent.list_distributed w = on_list_distributed inner w
  handle (InEvent.recollect_request data_id) w = on_recollect_request inner data_id w
  handle (InEvent.assigned_response id shard) w =
      or_cancel (handle_assigned_response inner id shard w)
  handle (InEvent.peer_shards_actualized peer ids) w = on_peer_shards_actualized peer ids w

  -- One round of the `select!`.
  unfoldable pub round : Wake → World → World × Exit
  unfolding handle on_read on_write
  round (input none) w = (w, returned)
  round (input (some e)) w = handle e w
  round (read none) w = (w, returned)
  round (read (some data_id)) w = on_read data_id w
  round (write none) w = (w, returned)
  round (write (some (data_id, shard))) w = on_write data_id shard w

  unfoldable pub run : List Wake → World → World × Exit
  run [] w = (w, running)
  run (wake ∷ wakes) w = and_then (round wake w) (run wakes)

  -- `DistributedDataMemory::run_memory`.
  unfoldable pub run_memory : PeerId → List Wake → Output → Output × Exit
  unfolding run
  run_memory local_id wakes o =
      let (o', next, rest) = Uninitialized.run inner local_id wakes o in
      elim next [
        | waiting ↦ (o', running)
        | stopped ↦ (o', returned)
        | started m ↦
            let (w, exit) = run rest (record { memory = m; output = o'; answered = [] }) in
            (w.output, exit)
      ]
