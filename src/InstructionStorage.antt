-- ===== src/InstructionStorage.antt =====
-- src/instruction_storage/mod.rs: `InstructionMemory`, which follows the execution of programs.
pub mod Completion
pub mod History
pub mod Tests
use the_swarm.Common.{
  ℕ, Bool, true, false, Option, none, some, List, [], ◌∷◌, leb, if◌then◌else◌, length,
}
use the_swarm.Common.Map.{Map, Key, nat_key, get, insert, add}
use the_swarm.Common.Channel.{Channel, send}
use the_swarm.Types.{Vid, PeerId}
use the_swarm.Processor.Instruction.{Instruction}
use the_swarm.Processor.Program.{Instructions, Program, ProgramIdentifier, identifier_key}

pub data ExecutionState : Type 0 where
  executing : List PeerId → ExecutionState
  finished : ExecutionState

pub record ProgramMetadata : Type 0 where
  pub state : ExecutionState
  pub affected_data_ids : List Vid

pub record InstructionMemory : Type 0 where
  pub currently_executed : Map ProgramIdentifier ProgramMetadata
  pub accept_threshold : ℕ

pub data OutEvent : Type 0 where
  next_program : Program → OutEvent
  finished_execution : ProgramIdentifier → OutEvent
  peer_shards_actualized : ProgramIdentifier → PeerId → List Vid → OutEvent

pub data InEvent : Type 0 where
  finalized_program : Program → InEvent
  executed_program : PeerId → ProgramIdentifier → InEvent

unfoldable pub new : ℕ → InstructionMemory
new execution_confirmations_threshold = record {
  currently_executed = [];
  accept_threshold = execution_confirmations_threshold;
}

-- The match on the state of a known program, once `who` has finished it.
unfoldable pub confirm : ℕ → PeerId → ExecutionState → ExecutionState × Bool
confirm threshold who (executing peers) =
    let peers_finished = add peers who in
    if leb threshold (length peers_finished)
    then (finished, true)
    else (executing peers_finished, false)
confirm threshold who finished = (finished, false)

abbrev pub confirmed :
    InstructionMemory
    → ProgramIdentifier
    → ProgramMetadata
    → ExecutionState × Bool
    → InstructionMemory × Bool
confirmed m program metadata (state, done) = (
  record m {
    currently_executed = insert m.currently_executed program (record metadata { state = state });
  },
  done,
)

abbrev pub notify_known :
    PeerId
    → ProgramIdentifier
    → InstructionMemory
    → Option ProgramMetadata
    → InstructionMemory × Bool
notify_known who program m none = (m, false)
notify_known who program m (some metadata) =
    confirmed m program metadata (confirm m.accept_threshold who metadata.state)

unfoldable pub notify_executed :
    PeerId → ProgramIdentifier → InstructionMemory → InstructionMemory × Bool
unfolding confirm
notify_executed who program m = notify_known who program m (get m.currently_executed program)

unfoldable pub results_set : List Vid → Instructions → List Vid
results_set ids [] = ids
results_set ids (i ∷ instructions) = results_set (add ids i.result) instructions

unfoldable pub compute_affected_data_ids : Instructions → List Vid
unfolding results_set
compute_affected_data_ids instructions = results_set [] instructions

unfoldable pub new_started_executing : Instructions → ProgramMetadata
new_started_executing instructions = record {
  state = executing [];
  affected_data_ids = compute_affected_data_ids instructions;
}

abbrev pub finalize_vacant :
    ProgramIdentifier
    → Instructions
    → InstructionMemory
    → Option ProgramMetadata
    → InstructionMemory
finalize_vacant program instructions m (some _) = m
finalize_vacant program instructions m none = record m {
  currently_executed = insert m.currently_executed program (new_started_executing instructions);
}

unfoldable pub notify_finalized :
    ProgramIdentifier → Instructions → InstructionMemory → InstructionMemory
notify_finalized program instructions m =
    finalize_vacant program instructions m (get m.currently_executed program)

-- The memory, its output channel, and whether `run` goes on.
pub record World : Type 0 where
  pub memory : InstructionMemory
  pub output : Channel OutEvent
  pub running : Bool

-- `if send(e).await.is_err() { return; }`.
abbrev pub send_or_return : OutEvent → InstructionMemory → Channel OutEvent → World
send_or_return e m o =
    let (o', sent) = send e o in record { memory = m; output = o'; running = sent }

abbrev pub announce_updates : PeerId → ProgramIdentifier → Option ProgramMetadata → World → World
announce_updates peer program none w = w
announce_updates peer program (some metadata) w =
    send_or_return (peer_shards_actualized program peer metadata.affected_data_ids) w.memory
      w.output

-- The rest of the branch is skipped if `run` returned.
abbrev pub while_running : Bool → World → World → World
while_running true w rest = rest
while_running false w rest = w

abbrev pub announce_finished :
    ProgramIdentifier → InstructionMemory → Bool → Channel OutEvent → World
announce_finished program m true o = send_or_return (finished_execution program) m o
announce_finished program m false o = record { memory = m; output = o; running = true }

unfoldable pub handle : InEvent → World → World
unfolding notify_executed notify_finalized send
handle (finalized_program program) w =
    send_or_return (next_program program)
      (notify_finalized program.identifier program.instructions w.memory) w.output
handle (executed_program peer program) w =
    let (m, done) = notify_executed peer program w.memory in
    let w' = announce_finished program m done w.output in
    while_running w'.running w'
      (announce_updates peer program (get m.currently_executed program) w')

-- The loop, over the events that arrive; `none` is the input channel that is closed.
unfoldable pub run : List (Option InEvent) → World → World
run [] w = w
run (none ∷ events) w = record w { running = false }
run (some e ∷ events) w =
    let w' = handle e w in let rest = run events w' in while_running w'.running w' rest
