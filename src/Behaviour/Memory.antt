-- ===== src/Behaviour/Memory.antt =====
-- src/behaviour/mod.rs: what the behaviour does with the events of the data memory.
use the_swarm.Common.{Option, none, some, List, [], ◌∷◌}
use the_swarm.Common.Map.{get, remove}
use the_swarm.Consensus.Graph
use the_swarm.Consensus.Transaction.{storage_request, stored}
use the_swarm.DataMemory.State
use the_swarm.DataMemory.State.{
  initialized, prepared_service_response, serve_shard_request, serve_shard_response,
  assigned_store_success, distribution_sufficient, distribution_full, assigned_response,
  assigned_request, list_distributed, recollect_response,
}
use the_swarm.Protocol
use the_swarm.Protocol.{
  Request, get_shard, serve_shard, Response, shard_got, shard_served, request_key, RequestId,
  ResponseChannel,
}
use the_swarm.Behaviour.State.{
  get_response, put_confirmed, list_stored_response, storage_initialized, Node, Outside, Polling,
  and_then, to_network, to_user, schedule_tx, drain, or_closed,
}

abbrev pub waiters :
    Option (List (RequestId × ResponseChannel)) → List (RequestId × ResponseChannel)
waiters none = []
waiters (some ws) = ws

module _ {J : Type 0} where
  -- `processed_requests.remove(&request).unwrap_or_default()`
  unfoldable pub take_waiters : Request → Node J → List (RequestId × ResponseChannel) × Node J
  unfolding get remove
  take_waiters request n = (
    waiters (get n.processed_requests request),
    record n { processed_requests = remove n.processed_requests request },
  )

  unfoldable pub respond_all : Response → List (RequestId × ResponseChannel) → Node J → Polling J
  unfolding to_network
  respond_all answer [] n = (n, none)
  respond_all answer ((request_id, channel) ∷ ws) n =
      and_then (to_network (Protocol.InEvent.respond request_id channel answer) n)
        (respond_all answer ws)

  unfoldable pub respond_to : Request → Response → Node J → Polling J
  unfolding take_waiters respond_all
  respond_to request answer n = let (ws, n') = take_waiters request n in respond_all answer ws n'

  module _ (outside : Outside) where
    unfoldable pub on_memory_event : State.OutEvent → Node J → Polling J
    unfolding to_network to_user schedule_tx respond_to
    on_memory_event (serve_shard_request full_shard_id location) n =
        to_network (Protocol.InEvent.make_request (serve_shard full_shard_id) location) n
    on_memory_event (serve_shard_response full_shard_id shard) n =
        respond_to (serve_shard full_shard_id) (shard_served shard) n
    on_memory_event (assigned_store_success (data_id, shard_id)) n =
        schedule_tx outside (Graph.InEvent.schedule_tx (stored data_id shard_id)) n
    on_memory_event (assigned_response full_shard_id shard) n =
        respond_to (get_shard full_shard_id) (shard_got shard) n
    on_memory_event (distribution_sufficient data_id) n = (n, none)
    on_memory_event (distribution_full data_id) n = to_user (put_confirmed data_id) n
    on_memory_event (list_distributed list) n = to_user (list_stored_response list) n
    on_memory_event (prepared_service_response data_id) n =
        schedule_tx outside (Graph.InEvent.schedule_tx (storage_request data_id)) n
    on_memory_event (assigned_request full_shard_id location) n =
        to_network (Protocol.InEvent.make_request (get_shard full_shard_id) location) n
    on_memory_event (recollect_response answer) n = to_user (get_response answer) n
    on_memory_event initialized n = to_user storage_initialized n

    abbrev pub put_back : Polling J × List State.OutEvent → Polling J
    put_back ((n, r), es) = (
      record n {
        arrivals = record n.arrivals {
          data_memory = record n.arrivals.data_memory { waiting = es };
        };
      },
      r,
    )

    unfoldable pub check_memory : Node J → Polling J
    unfolding on_memory_event drain
    check_memory n =
        or_closed n.arrivals.data_memory.is_closed
          (put_back (drain on_memory_event n.arrivals.data_memory.waiting n))
