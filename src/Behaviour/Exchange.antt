-- ===== src/Behaviour/Exchange.antt =====
-- src/behaviour/mod.rs: what the behaviour does with requests of other peers and with the
-- responses to its own.
use the_swarm.Common.{Option, none, some, List, [], ◌∷◌, ◌++◌}
use the_swarm.Common.Map.{nat_key, get, insert}
use the_swarm.DataMemory.State
use the_swarm.Protocol.{
  Request, get_shard, serve_shard, Response, shard_got, shard_served, request_key, RequestId,
  ResponseChannel, OutEvent, assigned_request_id, response, incoming_request,
}
use the_swarm.Behaviour.State.{Node, Polling, and_then, to_memory, drain, or_closed}
use the_swarm.Behaviour.Memory.{waiters}

module _ {J : Type 0} where
  -- The match on the request that was made, if its id is known. Others are only logged.
  unfoldable pub accept_response : Option Request → Response → Node J → Polling J
  unfolding to_memory
  accept_response (some (get_shard full_shard_id)) (shard_got shard) n =
      to_memory (State.InEvent.assigned_response full_shard_id shard) n
  accept_response (some (get_shard full_shard_id)) (shard_served shard) n = (n, none)
  accept_response (some (serve_shard full_shard_id)) (shard_got shard) n = (n, none)
  accept_response (some (serve_shard full_shard_id)) (shard_served shard) n =
      to_memory (State.InEvent.serve_shard_response full_shard_id shard) n
  accept_response none answer n = (n, none)

  unfoldable pub ask_memory : Request → Node J → Polling J
  unfolding to_memory
  ask_memory (get_shard full_shard_id) n =
      to_memory (State.InEvent.assigned_request full_shard_id) n
  ask_memory (serve_shard full_shard_id) n =
      to_memory (State.InEvent.serve_shard_request full_shard_id) n

  -- `processed_requests.entry(request).or_default().push((request_id, channel))`
  unfoldable pub enlist : RequestId → Request → ResponseChannel → Node J → Node J
  unfolding get insert
  enlist request_id request channel n = record n {
    processed_requests =
        insert n.processed_requests request
          (waiters (get n.processed_requests request) ++ ((request_id, channel) ∷ []));
  }

  unfoldable pub on_network_event : OutEvent → Node J → Polling J
  unfolding get insert accept_response ask_memory enlist
  on_network_event (assigned_request_id request_id request) n =
      (record n { pending_response = insert n.pending_response request_id request }, none)
  on_network_event (response request_id answer) n =
      accept_response (get n.pending_response request_id) answer n
  on_network_event (incoming_request request_id request channel) n =
      and_then (ask_memory request n) (λ n. (enlist request_id request channel n, none))

  abbrev pub put_back : Polling J × List OutEvent → Polling J
  put_back ((n, r), es) = (
    record n {
      arrivals = record n.arrivals {
        request_response = record n.arrivals.request_response { waiting = es };
      };
    },
    r,
  )

  unfoldable pub check_network : Node J → Polling J
  unfolding on_network_event drain
  check_network n =
      or_closed n.arrivals.request_response.is_closed
        (put_back (drain on_network_event n.arrivals.request_response.waiting n))
