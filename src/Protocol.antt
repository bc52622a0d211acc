-- ===== src/Protocol.antt =====
-- src/protocol/mod.rs and src/request_response.rs: the messages between peers, and how the events
-- of the network's request-response protocol reach the behaviour.
use the_swarm.Common.{ℕ, Bool, true, Option}
use the_swarm.Common.Map.{Key}
use the_swarm.Common.Channel.{Channel, send}
use the_swarm.Types.{PeerId, Shard}
use the_swarm.DataMemory.State.{FullShardId}
use native.Mathlib.Decide.{ℕ_discrete}

pub data Request : Type 0 where
  get_shard : FullShardId → Request
  serve_shard : FullShardId → Request

pub data Response : Type 0 where
  shard_got : Option Shard → Response
  shard_served : Option Shard → Response

pub request_discrete : Discrete Request
request_discrete = hlevel ℕ_discrete

instance abbrev pub request_key : Key Request
request_key = record { eq = request_discrete }

-- The crate's request ids and response channels, which the program only passes on.
abbrev pub RequestId : Type 0
RequestId = ℕ

abbrev pub ResponseChannel : Type 0
ResponseChannel = ℕ

pub data OutEvent : Type 0 where
  assigned_request_id : RequestId → Request → OutEvent
  response : RequestId → Response → OutEvent
  incoming_request : RequestId → Request → ResponseChannel → OutEvent

pub data InEvent : Type 0 where
  make_request : Request → PeerId → InEvent
  respond : RequestId → ResponseChannel → Response → InEvent

-- The crate's events, less what is only logged.
pub data Event : Type 0 where
  message_request : RequestId → Request → ResponseChannel → Event
  message_response : RequestId → Response → Event
  outbound_failure : RequestId → Event
  inbound_failure : RequestId → Event
  response_sent : PeerId → RequestId → Event

-- `true` is `Ok(())`, and `false` the error of a channel that is closed.
unfoldable pub handle_request_response_event : Event → Channel OutEvent → Channel OutEvent × Bool
unfolding send
handle_request_response_event (message_request request_id request channel) o =
    send (incoming_request request_id request channel) o
handle_request_response_event (message_response request_id answer) o =
    send (response request_id answer) o
handle_request_response_event (outbound_failure _) o = (o, true)
handle_request_response_event (inbound_failure _) o = (o, true)
handle_request_response_event (response_sent _ _) o = (o, true)
