-- ===== src/Behaviour/Tests/Polls.antt =====
-- src/behaviour: polls of a small behaviour. The jobs of the graph are numbers.
use the_swarm.Common.{
  ℕ, ◌-◌, ◌≡◌, ◌↔◌, ◌⊎◌, refl, ap, if_pos, ℕ_discrete, true, false, none, some, List, [], ◌∷◌, ◌++◌,
  arith, length, ltb, inr, if◌then◌else◌,
}
use the_swarm.Common.Map.{nat_key, get, Distinct, collect_into, contains, add_all, remove_key}
use the_swarm.Types.{Sid, PeerId}
use the_swarm.Encoding.ReedSolomon.Sample.{sample_code}
use the_swarm.Module
use the_swarm.InstructionStorage
use the_swarm.Processor.Program.{Program}
use the_swarm.Processor.SingleThreaded.Run
use the_swarm.DataMemory.State
use the_swarm.DataMemory.Output.{World}
use the_swarm.DataMemory.Storage
use the_swarm.DataMemory.Run.{handle}
use the_swarm.DataMemory.Uninitialized.{verify_distribution}
use the_swarm.Consensus.Graph
use the_swarm.Consensus.Transaction.{storage_request, stored}
use the_swarm.Protocol
use the_swarm.Protocol.{
  Request, get_shard, serve_shard, shard_got, incoming_request, response, assigned_request_id,
  request_key, request_discrete,
}
use the_swarm.Behaviour.Timer.{DynamicTimer, reset_full}
use the_swarm.Behaviour.Handlers.{Inbox, Modules}
use the_swarm.Behaviour.State.{InEvent, Outbox, Arrivals, Node, Outside, Polling, new, drain}
use the_swarm.Behaviour.Memory.{waiters, on_memory_event}
use the_swarm.Behaviour.Exchange.{on_network_event}
use the_swarm.Behaviour.Gossip.{connection_established, connection_closed, get_random_peer}
use the_swarm.Behaviour.Poll.{
  Observed, drain_instructions, poll, on_consensus_event, distribution_of,
}
use the_swarm.Behaviour.Deadline.{IsMonotone, IsExact, Resets, reset_full-Resets}
use the_swarm.Behaviour.Peers.{
  IsRange, Chooses, get_random_peer-Chooses, opens, closes, starts, goes_on, update_all, Mirrors,
  update_all-Mirrors,
}
use the_swarm.Behaviour.Failure.{Returns, poll-Explained}
use the_swarm.Behaviour.Progress.{drive, drive-ends}
use the_swarm.Behaviour.Consistency.{IsConsistent}
use the_swarm.Behaviour.Gating.{Received, drain_instructions-Received}
use the_swarm.Behaviour.Reachable.{Reachable, created, polled, Reachable-IsConsistent}
use the_swarm.Behaviour.Trace.{Drained}
use the_swarm.Behaviour.Recognition.{Applied, drain-Applied}
use the_swarm.Behaviour.Answering.{Exchanged, drain-Exchanged, memory_queue, waiting_for}
use the_swarm.Behaviour.Responding.{Served, on_memory_event-Served, answer_event, responses}
use the_swarm.Behaviour.Serving.{memory_event, request-served}
use the_swarm.Behaviour.Initialization.{distribution_of-accepted}
use the_swarm.Behaviour.Tests.{instructions, serialize, digest, event_hash}

-- The clock ticks with every reading, and the last number below a bound is drawn.
abbrev outside : Outside
outside = record {
  clock = λ t. t;
  floats = record {
    sigmoid = λ span passed. if ltb passed 10 then 0 else span;
    try_from_secs = λ d. some d;
  };
  gen_range = λ draws n. n - 1;
  serialize = serialize;
  digest = digest;
}

monotone : IsMonotone outside.clock
monotone i j le = le

exact : IsExact outside.floats
exact = record { sigmoid_le = λ span passed. ground arith; from_secs = λ d. inr refl }

range : IsRange outside.gen_range
range draws n positive = omega arith

abbrev inbox : {E : Type 0} → Inbox E
inbox = record { queued = []; free = 4; open_still = true; max_capacity = 4 }

abbrev outbox : {E : Type 0} → List E → Outbox E
outbox waiting = record { waiting = waiting; is_closed = false }

abbrev consensus_events : List (Graph.OutEvent ℕ)
consensus_events =
    Graph.OutEvent.recognized_transaction 6 event_hash (storage_request 7)
    ∷ Graph.OutEvent.finalized_transaction 6 event_hash (storage_request 7)
    ∷ Graph.OutEvent.recognized_transaction 6 event_hash (stored 7 1)
    ∷ Graph.OutEvent.generate_sync_response 6 (1 ∷ 2 ∷ [])
    ∷ Graph.OutEvent.known_peers_response (5 ∷ 6 ∷ [])
    ∷ []

abbrev network_events : List Protocol.OutEvent
network_events =
    assigned_request_id 1 (get_shard (7, 0))
    ∷ incoming_request 2 (get_shard (7, 1)) 20
    ∷ response 1 (shard_got (some (1 ∷ 2 ∷ 3 ∷ 4 ∷ [])))
    ∷ incoming_request 3 (get_shard (7, 1)) 30
    ∷ []

abbrev arrivals : Arrivals ℕ
arrivals = record {
  data_memory = outbox (State.OutEvent.prepared_service_response 7 ∷ []);
  user = outbox (InEvent.list_stored ∷ []);
  processor = outbox [];
  instruction_memory = outbox [];
  consensus = outbox consensus_events;
  request_response = outbox network_events;
}

abbrev modules : Modules
modules = record { data_memory = inbox; instruction_memory = inbox }

abbrev node : Node ℕ
node = new outside 5 (2, 60) arrivals inbox inbox inbox inbox modules

abbrev seen : Observed
seen = record {
  shutdown = false;
  processor_state = λ i. Module.Shared.stateless;
  consensus_state = Module.Shared.holds Graph.ModuleState.ready;
}

poll-Explained_example : Returns false (poll outside seen node)
unfolding new
poll-Explained_example =
    poll-Explained outside seen node (λ l. (length l ∷ [], refl)) range (omega arith)

node-Reachable : Reachable outside node
node-Reachable = created 5 2 60 arrivals inbox inbox inbox inbox modules (omega arith)

Reachable-IsConsistent_example : IsConsistent outside monotone exact (poll outside seen node).0
Reachable-IsConsistent_example =
    Reachable-IsConsistent outside monotone exact (poll outside seen node).0
      (polled seen node node-Reachable)

drive-ends_example : (p : Polling ℕ) × (drive outside (λ i. seen) 9 node ≡ some p)
unfolding new
drive-ends_example = drive-ends outside (λ i. seen) 9 node (omega arith)

drain-Applied_example :
    Drained
      (on_consensus_event outside)
      (Applied outside)
      node
      consensus_events
      (drain (on_consensus_event outside) consensus_events node)
drain-Applied_example = drain-Applied outside consensus_events node

drain-Exchanged_example :
    Drained on_network_event Exchanged node network_events
      (drain on_network_event network_events node)
drain-Exchanged_example = drain-Exchanged network_events node

-- Two peers wait for the same shard.
abbrev asked : Node ℕ
asked = record node {
  processed_requests = (get_shard (7, 1), (2, 20) ∷ (3, 30) ∷ []) ∷ (serve_shard (8, 0), []) ∷ [];
}

asked-Distinct : Distinct asked.processed_requests
asked-Distinct = ((λ e. cc, tt), (tt, tt))

asked-waiting : waiting_for (get_shard (7, 1)) asked ≡ (2, 20) ∷ (3, 30) ∷ []
unfolding get
asked-waiting =
    ap waiters (if_pos (request_discrete (get_shard (7, 1)) (get_shard (7, 1))) refl _ _)

on_memory_event-Served_example :
    Served asked
      (get_shard (7, 1))
      none
      (on_memory_event outside (answer_event (get_shard (7, 1)) none) asked)
unfolding new
on_memory_event-Served_example =
    on_memory_event-Served outside (get_shard (7, 1)) none asked asked-Distinct refl
      (omega (arith, ap length asked-waiting))

abbrev memory : World
memory = record {
  memory = record {
    local_storage = (7, (1, 1 ∷ 2 ∷ 3 ∷ 4 ∷ []) ∷ []) ∷ [];
    to_distribute = [];
    currently_assembled = [];
    distribution = (5, 1) ∷ [];
    data_known_locations = [];
    local_id = 5;
  };
  output = record { sent = []; room = none };
  answered = [];
}

request-served_example :
    let (n', r) = on_network_event (incoming_request 4 (get_shard (7, 1)) 40) asked in
    let answer = State.OutEvent.assigned_response (7, 1) (some (1 ∷ 2 ∷ 3 ∷ 4 ∷ [])) in
    (memory_queue n' ≡ State.InEvent.assigned_request (7, 1) ∷ [])
    × ((handle sample_code (memory_event (get_shard (7, 1))) memory).0.output.sent ≡ answer ∷ [])
    × ((on_memory_event outside answer n').0.request_response.queued
        ≡ responses
            (shard_got (some (1 ∷ 2 ∷ 3 ∷ 4 ∷ [])))
            (waiting_for (get_shard (7, 1)) asked ++ ((4, 40) ∷ [])))
unfolding new Storage.get_shard get ℕ_discrete
request-served_example =
    request-served 4 (get_shard (7, 1)) 40 outside sample_code asked memory asked-Distinct refl
      (omega arith) refl (omega (arith, ap length asked-waiting)) refl

distribution_of-accepted_example :
    ((verify_distribution sample_code (collect_into [] (distribution_of (5 ∷ 6 ∷ []) (6 ∷ 8 ∷ [])))
        ≡ true)
      ↔ (length {A = PeerId} (add_all (add_all [] (5 ∷ 6 ∷ [])) (6 ∷ 8 ∷ [])) ≡ 3))
    × ((peer : PeerId)
        → ((sid : Sid) × (get (collect_into [] (distribution_of (5 ∷ 6 ∷ []) (6 ∷ 8 ∷ []))) peer
              ≡ some sid))
          ↔ ((contains (5 ∷ 6 ∷ []) peer ≡ true) ⊎ (contains (6 ∷ 8 ∷ []) peer ≡ true)))
distribution_of-accepted_example = distribution_of-accepted sample_code (5 ∷ 6 ∷ []) (6 ∷ 8 ∷ [])

get_random_peer-Chooses_example :
    Chooses (6 ∷ 8 ∷ []) (get_random_peer outside.gen_range (6 ∷ 8 ∷ []) 0).0
get_random_peer-Chooses_example = get_random_peer-Chooses outside.gen_range (6 ∷ 8 ∷ []) 0 range

-- Two connections to the same peer, of which one is closed.
update_all-Mirrors_example : Mirrors (6 ∷ []) (
    update_all
      (connection_established 6 0 ∷ connection_established 6 1 ∷ connection_closed 6 1 ∷ [])
      [])
unfolding ℕ_discrete remove_key
update_all-Mirrors_example =
    update_all-Mirrors (6 ∷ [])
      (connection_established 6 0 ∷ connection_established 6 1 ∷ connection_closed 6 1 ∷ [])
      (goes_on [] (6 ∷ []) (6 ∷ []) _ _ (opens 6 []) (
        goes_on (6 ∷ []) (6 ∷ 6 ∷ []) (6 ∷ []) _ _ (opens 6 (6 ∷ [])) (
          goes_on (6 ∷ 6 ∷ []) (6 ∷ []) (6 ∷ []) _ _ (closes 6 (6 ∷ 6 ∷ []) (omega arith))
            (starts (6 ∷ [])))))

abbrev timer : DynamicTimer
timer = record { deadline = 50; last_reset = 0; min_duration = 2; max_duration = 60 }

reset_full-Resets_example :
    Resets outside.clock outside.floats monotone exact timer 20
      (reset_full outside.clock outside.floats timer 20)
reset_full-Resets_example =
    reset_full-Resets outside.clock outside.floats monotone exact timer 20
      (omega arith, omega arith)

-- The processor is busy once it has been given a program.
abbrev processor_state : ℕ → Module.Shared Run.ModuleState
processor_state i =
    Module.Shared.holds (if ltb i 2 then Run.ModuleState.ready else Run.ModuleState.executing)

abbrev program : Program
program = record {
  instructions = instructions;
  identifier = record { hash = event_hash; event_hash = event_hash };
}

abbrev instruction_events : List InstructionStorage.OutEvent
instruction_events =
    InstructionStorage.OutEvent.finished_execution program.identifier
    ∷ InstructionStorage.OutEvent.next_program program
    ∷ InstructionStorage.OutEvent.next_program program
    ∷ []

drain_instructions-Received_example :
    let (p, rest) = drain_instructions outside processor_state 0 false instruction_events node in
    Received outside processor_state 0 node instruction_events p.0 rest
drain_instructions-Received_example =
    drain_instructions-Received outside processor_state 0 false instruction_events node
