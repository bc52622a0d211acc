-- ===== src/Behaviour/State.antt =====
-- src/behaviour/mod.rs: the events of the user, the state of the behaviour, and how it sends.
use the_swarm.Common.{ℕ, suc, Bool, true, false, Option, none, some, List, [], ◌∷◌}
use the_swarm.Common.Map.{Map}
use the_swarm.Common.Result.{Result}
use the_swarm.Types.{Vid, Sid, PeerId, Data}
use the_swarm.Processor.Program.{Instructions, ProgramIdentifier}
use the_swarm.Processor.SingleThreaded.Run
use the_swarm.InstructionStorage
use the_swarm.DataMemory.State
use the_swarm.Consensus.Graph
use the_swarm.Protocol
use the_swarm.Protocol.{Request, RequestId, ResponseChannel}
use the_swarm.Behaviour.Metrics.{Metrics, new_metrics, update_queue_size}
use the_swarm.Behaviour.Timer
use the_swarm.Behaviour.Timer.{DynamicTimer, Floats, reset_full}
use the_swarm.Behaviour.Handlers.{Inbox, Modules, Polled, sent, closed, full, poll_send}

pub data InEvent : Type 0 where
  schedule_program : Instructions → InEvent
  get : Vid → InEvent
  put : Vid → Data → InEvent
  list_stored initialize_storage get_metrics : InEvent

pub data OutEvent : Type 0 where
  schedule_ok : OutEvent
  program_executed : ProgramIdentifier → OutEvent
  get_response : Result State.RecollectionError (Vid × Data) → OutEvent
  put_confirmed : Vid → OutEvent
  list_stored_response : List (Vid × Map Sid PeerId) → OutEvent
  storage_initialized : OutEvent
  get_metrics_response : Metrics → OutEvent

-- What a poll is ready with. A sync message is a list of jobs of the graph.
pub data Ready (J : Type 0) : Type 0 where
  dial : PeerId → Ready J
  notify_handler : PeerId → List J → Ready J
  unable_to_operate cancel_signal : Ready J
  -- the call did not return
  panicked : Ready J

-- The receiving half of a channel: what waits, oldest first, and whether the other half is closed.
pub record Outbox (E : Type 0) : Type 0 where
  pub waiting : List E
  pub is_closed : Bool

-- The outputs of the modules and the input from the user.
pub record Arrivals (J : Type 0) : Type 0 where
  pub data_memory : Outbox State.OutEvent
  pub user : Outbox InEvent
  pub processor : Outbox Run.OutEvent
  pub instruction_memory : Outbox InstructionStorage.OutEvent
  pub consensus : Outbox (Graph.OutEvent J)
  pub request_response : Outbox Protocol.OutEvent

-- `Behaviour`, with the channels, and the number of times that the clock and the random numbers
-- were used. Queues are oldest first.
pub record Node (J : Type 0) : Type 0 where
  pub local_peer_id : PeerId
  pub discovered_peers : List PeerId
  pub arrivals : Arrivals J
  pub user_output : Inbox OutEvent
  pub consensus : Inbox (Graph.InEvent J)
  pub processor : Inbox Run.InEvent
  pub request_response : Inbox Protocol.InEvent
  -- the inputs of the data memory and of the instruction memory
  pub modules : Modules
  pub connected_peers : List PeerId
  pub draws : ℕ
  pub timer : DynamicTimer
  pub oneshot_messages : List (PeerId × List J)
  pub pending_response : Map RequestId Request
  pub processed_requests : Map Request (List (RequestId × ResponseChannel))
  pub metrics : Metrics
  pub ticks : ℕ

-- The clock, the arithmetic of the timer and the random numbers (one below a bound), by the number
-- of times that they were used; the serializer and the hash of programs.
pub record Outside : Type 0 where
  pub clock : ℕ → ℕ
  pub floats : Floats
  pub gen_range : ℕ → ℕ → ℕ
  pub serialize : Instructions → Option (List ℕ)
  pub digest : List ℕ → List ℕ

unfoldable pub new :
    {J : Type 0}
    → Outside
    → PeerId
    → ℕ × ℕ
    → Arrivals J
    → Inbox OutEvent
    → Inbox (Graph.InEvent J)
    → Inbox Run.InEvent
    → Inbox Protocol.InEvent
    → Modules
    → Node J
unfolding Timer.new new_metrics
new outside local_peer_id (min_timeout, max_timeout) arrivals user_output consensus processor
      request_response modules =
    let (timer, ticks) = Timer.new outside.clock outside.floats min_timeout max_timeout 0 in
    record {
      local_peer_id = local_peer_id;
      discovered_peers = [];
      arrivals = arrivals;
      user_output = user_output;
      consensus = consensus;
      processor = processor;
      request_response = request_response;
      modules = modules;
      connected_peers = [];
      draws = 0;
      timer = timer;
      oneshot_messages = [];
      pending_response = [];
      processed_requests = [];
      metrics = new_metrics;
      ticks = ticks;
    }

-- The state after some of a poll, and what the poll is ready with if it returned there.
abbrev pub Polling : Type 0 → Type 0
Polling J = Node J × Option (Ready J)

module _ {J : Type 0} where
  abbrev pub and_then : Polling J → (Node J → Polling J) → Polling J
  and_then (n, none) f = f n
  and_then (n, some r) f = (n, some r)

  -- `cant_operate_error_return!` where a send is not done.
  abbrev pub fail_fast : Polled → Option (Ready J)
  fail_fast sent = none
  fail_fast closed = some unable_to_operate
  fail_fast full = some unable_to_operate

  unfoldable pub to_consensus : Graph.InEvent J → Node J → Polling J
  unfolding poll_send
  to_consensus e n =
      let (inbox, polled) = poll_send e n.consensus in
      (record n { consensus = inbox }, fail_fast polled)

  unfoldable pub to_processor : Run.InEvent → Node J → Polling J
  unfolding poll_send
  to_processor e n =
      let (inbox, polled) = poll_send e n.processor in
      (record n { processor = inbox }, fail_fast polled)

  unfoldable pub to_network : Protocol.InEvent → Node J → Polling J
  unfolding poll_send
  to_network e n =
      let (inbox, polled) = poll_send e n.request_response in
      (record n { request_response = inbox }, fail_fast polled)

  unfoldable pub to_user : OutEvent → Node J → Polling J
  unfolding poll_send
  to_user e n =
      let (inbox, polled) = poll_send e n.user_output in
      (record n { user_output = inbox }, fail_fast polled)

  unfoldable pub to_memory : State.InEvent → Node J → Polling J
  unfolding poll_send
  to_memory e n =
      let (inbox, polled) = poll_send e n.modules.data_memory in
      (record n { modules = record n.modules { data_memory = inbox } }, fail_fast polled)

  module _ (outside : Outside) where
    -- `Metrics::update_queue_size` of the input of the consensus. The clock counts as read even
    -- where no value is recorded.
    unfoldable pub measure_queue : Node J → Node J
    unfolding update_queue_size
    measure_queue n = record n {
      metrics = record n.metrics {
        consensus_queue_size =
            update_queue_size (outside.clock n.ticks) n.consensus.max_capacity n.consensus.free
              n.metrics.consensus_queue_size;
      };
      ticks = suc n.ticks;
    }

    abbrev pub set_timer : Node J → Option (DynamicTimer × ℕ) → Polling J
    set_timer n none = (n, some panicked)
    set_timer n (some (timer, ticks)) = (record n { timer = timer; ticks = ticks }, none)

    unfoldable pub reset_timer : Node J → Polling J
    unfolding reset_full
    reset_timer n = set_timer n (reset_full outside.clock outside.floats n.timer n.ticks)

    -- The send of a transaction to be scheduled, with what always follows it.
    unfoldable pub schedule_tx : Graph.InEvent J → Node J → Polling J
    unfolding to_consensus measure_queue reset_timer
    schedule_tx e n = and_then (to_consensus e n) (λ n. reset_timer (measure_queue n))

  -- A loop over what waits, until nothing does or the poll returns.
  abbrev pub go_on :
      {E : Type 0} → (Node J → Polling J × List E) → List E → Polling J → Polling J × List E
  go_on rest es (n, none) = rest n
  go_on rest es (n, some r) = ((n, some r), es)

  unfoldable pub drain :
      {E : Type 0} → (E → Node J → Polling J) → List E → Node J → Polling J × List E
  drain handle [] n = ((n, none), [])
  drain handle (e ∷ es) n = go_on (drain handle es) es (handle e n)

  -- `Poll::Ready(None)` or `Poll::Pending`, once nothing waits.
  abbrev pub or_closed : Bool → Polling J → Polling J
  or_closed is_closed (n, some r) = (n, some r)
  or_closed true (n, none) = (n, some unable_to_operate)
  or_closed false (n, none) = (n, none)
