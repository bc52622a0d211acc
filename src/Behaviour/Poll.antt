-- ===== src/Behaviour/Poll.antt =====
-- src/behaviour/mod.rs: `poll`.
use the_swarm.Common.{ℕ, suc, Bool, none, some, List, [], ◌∷◌, if◌then◌else◌}
use the_swarm.Common.Map.{nat_key, add_all}
use the_swarm.Types.{Sid, PeerId}
use the_swarm.Module.{Shared, accepts_input}
use the_swarm.Processor.SingleThreaded.Run
use the_swarm.InstructionStorage
use the_swarm.InstructionStorage.{next_program, finished_execution, peer_shards_actualized}
use the_swarm.DataMemory.State
use the_swarm.Consensus.Transaction.{initialize_storage, execute, executed}
use the_swarm.Consensus.Graph
use the_swarm.Consensus.Graph.{
  generate_sync_response, known_peers_response, finalized_transaction, recognized_transaction,
}
use the_swarm.Behaviour.Metrics.{record_end}
use the_swarm.Behaviour.Handlers.{Modules, HandleResult, ok, abort, handle_tx}
use the_swarm.Behaviour.State.{
  InEvent, schedule_program, get, put, list_stored, get_metrics, schedule_ok, program_executed,
  get_metrics_response, dial, notify_handler, unable_to_operate, cancel_signal, Node, Outside,
  Polling, and_then, to_consensus, to_processor, to_user, to_memory, measure_queue, reset_timer,
  schedule_tx, go_on, drain, or_closed,
}
use the_swarm.Behaviour.Memory.{check_memory}
use the_swarm.Behaviour.Exchange.{check_network}
use the_swarm.Behaviour.Gossip.{check_gossip}

-- What the behaviour sees of the shared states and of the shutdown token. The state of the
-- processor is looked at each time before its loop receives.
pub record Observed : Type 0 where
  pub shutdown : Bool
  pub processor_state : ℕ → Shared Run.ModuleState
  pub consensus_state : Shared Graph.ModuleState

-- `enumerate`, with the index as a shard id. The cast to 64 bits does not fail.
unfoldable pub enumerate : Sid → List PeerId → List (PeerId × Sid)
enumerate i [] = []
enumerate i (peer ∷ peers) = (peer, i) ∷ enumerate (suc i) peers

-- The peers that are known or connected, each with an index.
unfoldable pub distribution_of : List PeerId → List PeerId → List (PeerId × Sid)
unfolding add_all enumerate
distribution_of known connected = enumerate 0 (add_all (add_all [] known) connected)

module _ {J : Type 0} (outside : Outside) where
  -- `oneshot_messages` up to the first that cannot be passed on.
  unfoldable pub check_oneshot : List (PeerId × List J) → Node J → Polling J
  unfolding to_consensus measure_queue
  check_oneshot [] n = (n, none)
  check_oneshot ((from, sync) ∷ messages) n =
      and_then
        (to_consensus (Graph.InEvent.apply_sync from sync)
          (record n { oneshot_messages = messages }))
        (λ n. check_oneshot messages (measure_queue outside n))

  unfoldable pub on_user_event : InEvent → Node J → Polling J
  unfolding to_consensus to_user to_memory measure_queue reset_timer
  on_user_event (schedule_program instructions) n =
      and_then (to_consensus (Graph.InEvent.schedule_tx (execute instructions)) n)
        (λ n. and_then (to_user schedule_ok (measure_queue outside n)) (reset_timer outside))
  on_user_event (get data_id) n = to_memory (State.InEvent.recollect_request data_id) n
  on_user_event (put data_id data_unit) n =
      to_memory (State.InEvent.prepare_service_request data_id data_unit) n
  on_user_event list_stored n = to_memory State.InEvent.list_distributed n
  on_user_event InEvent.initialize_storage n =
      and_then (to_consensus Graph.InEvent.known_peers_request n)
        (λ n. (measure_queue outside n, none))
  on_user_event get_metrics n = to_user (get_metrics_response n.metrics) n

  abbrev pub put_back_user : Polling J × List InEvent → Polling J
  put_back_user ((n, r), es) = (
    record n { arrivals = record n.arrivals { user = record n.arrivals.user { waiting = es } } },
    r,
  )

  unfoldable pub check_user : Node J → Polling J
  unfolding on_user_event drain
  check_user n =
      or_closed n.arrivals.user.is_closed
        (put_back_user (drain on_user_event n.arrivals.user.waiting n))

  unfoldable pub on_processor_event : Run.OutEvent → Node J → Polling J
  unfolding schedule_tx
  on_processor_event (Run.OutEvent.finished_execution program_id results) n =
      schedule_tx outside (Graph.InEvent.schedule_tx (executed program_id)) n

  abbrev pub put_back_processor : Polling J × List Run.OutEvent → Polling J
  put_back_processor ((n, r), es) = (
    record n {
      arrivals = record n.arrivals { processor = record n.arrivals.processor { waiting = es } };
    },
    r,
  )

  unfoldable pub check_processor : Node J → Polling J
  unfolding on_processor_event drain
  check_processor n =
      or_closed n.arrivals.processor.is_closed
        (put_back_processor (drain on_processor_event n.arrivals.processor.waiting n))

  unfoldable pub on_instruction_event : InstructionStorage.OutEvent → Node J → Polling J
  unfolding to_processor to_user to_memory
  on_instruction_event (next_program program) n =
      to_processor (Run.InEvent.execute_program program) n
  on_instruction_event (finished_execution program_id) n = to_user (program_executed program_id) n
  on_instruction_event (peer_shards_actualized _ peer updated_data_ids) n =
      to_memory (State.InEvent.peer_shards_actualized peer updated_data_ids) n

  -- The loop receives only while the processor accepts input.
  unfoldable pub drain_instructions :
      (ℕ → Shared Run.ModuleState)
      → ℕ
      → Bool
      → List InstructionStorage.OutEvent
      → Node J
      → Polling J × List InstructionStorage.OutEvent
  unfolding accepts_input on_instruction_event
  drain_instructions state i is_closed [] n =
      if accepts_input Run.accepts (state i)
      then (or_closed is_closed (n, none), [])
      else ((n, none), [])
  drain_instructions state i is_closed (e ∷ es) n =
      let rest = drain_instructions state (suc i) is_closed es in
      if accepts_input Run.accepts (state i)
      then go_on rest es (on_instruction_event e n)
      else ((n, none), e ∷ es)

  abbrev pub put_back_instructions : Polling J × List InstructionStorage.OutEvent → Polling J
  put_back_instructions ((n, r), es) = (
    record n {
      arrivals = record n.arrivals {
        instruction_memory = record n.arrivals.instruction_memory { waiting = es };
      };
    },
    r,
  )

  unfoldable pub check_instructions : (ℕ → Shared Run.ModuleState) → Node J → Polling J
  unfolding drain_instructions
  check_instructions state n =
      let arrived = n.arrivals.instruction_memory in
      put_back_instructions (drain_instructions state 0 arrived.is_closed arrived.waiting n)

  abbrev pub or_abort : Node J → Modules × HandleResult → Polling J
  or_abort n (modules, ok) = (record n { modules = modules }, none)
  or_abort n (modules, abort) = (record n { modules = modules }, some unable_to_operate)

  -- The clock counts as read at the end of a sync even where none is in progress.
  unfoldable pub on_consensus_event : Graph.OutEvent J → Node J → Polling J
  unfolding record_end schedule_tx reset_timer handle_tx distribution_of
  on_consensus_event (generate_sync_response to sync) n = (
    record n {
      metrics = record n.metrics { sync = record_end (outside.clock n.ticks) n.metrics.sync };
      ticks = suc n.ticks;
    },
    some (notify_handler to sync),
  )
  on_consensus_event (known_peers_response peers) n =
      schedule_tx outside
        (Graph.InEvent.schedule_tx (initialize_storage (distribution_of peers n.connected_peers))) n
  on_consensus_event (recognized_transaction from event_hash tx) n =
      and_then (reset_timer outside n)
        (λ n. or_abort n (handle_tx outside.serialize outside.digest from tx event_hash n.modules))
  on_consensus_event (finalized_transaction from event_hash tx) n = (n, none)

  abbrev pub put_back_consensus : Polling J × List (Graph.OutEvent J) → Polling J
  put_back_consensus ((n, r), es) = (
    record n {
      arrivals = record n.arrivals { consensus = record n.arrivals.consensus { waiting = es } };
    },
    r,
  )

  unfoldable pub check_consensus : Node J → Polling J
  unfolding on_consensus_event drain
  check_consensus n =
      or_closed n.arrivals.consensus.is_closed
        (put_back_consensus (drain on_consensus_event n.arrivals.consensus.waiting n))

  -- The parts of a poll in turn: those before the loop of the consensus, and those after it.
  unfoldable pub before_consensus : Observed → Node J → (Node J → Polling J) → Polling J
  unfolding check_oneshot check_memory check_user check_processor check_instructions
  before_consensus seen n rest = and_then (check_oneshot n.oneshot_messages n) (λ n.
      and_then (check_memory outside n) (λ n. and_then (check_user n) (λ n.
        and_then (check_processor n)
          (λ n. and_then (check_instructions seen.processor_state n) rest))))

  unfoldable pub after_consensus : Observed → Node J → Polling J
  unfolding check_gossip check_network
  after_consensus seen n = and_then (check_gossip outside seen.consensus_state n) check_network

  -- What a poll does where it is not shut down and has nobody to dial.
  unfoldable pub check_all : Observed → Node J → Polling J
  unfolding check_consensus before_consensus after_consensus
  check_all seen n =
      before_consensus seen n (λ n. and_then (check_consensus n) (after_consensus seen))

  abbrev pub dial_or : List PeerId → Node J → Polling J → Polling J
  dial_or [] n rest = rest
  dial_or (peer ∷ peers) n rest = (record n { discovered_peers = peers }, some (dial peer))

  unfoldable pub poll : Observed → Node J → Polling J
  unfolding check_all
  poll seen n =
      if seen.shutdown
      then (n, some cancel_signal)
      else dial_or n.discovered_peers n (check_all seen n)
