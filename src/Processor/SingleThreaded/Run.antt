-- ===== src/Processor/SingleThreaded/Run.antt =====
-- src/processor/single_threaded.rs: the event loop of the processor.
use the_swarm.Common.{ℕ, Bool, true, false, Option, none, some, List, [], ◌∷◌}
use the_swarm.Common.Channel.{Channel, send}
use the_swarm.Common.Result.{Result}
use the_swarm.Types.{Vid}
use the_swarm.Processor.Program.{Program, ProgramIdentifier}
use the_swarm.Processor.SingleThreaded.{Error, Bus}
use the_swarm.Processor.SingleThreaded.Execute.{execute}

pub data OutEvent : Type 0 where
  finished_execution : ProgramIdentifier → List (Result Error Vid) → OutEvent

pub data InEvent : Type 0 where
  execute_program : Program → InEvent

pub data ModuleState : Type 0 where
  ready executing : ModuleState

-- `accepts_input` of the state.
abbrev pub accepts : ModuleState → Bool
accepts ready = true
accepts executing = false

-- The memory behind the bus, the output channel, the shared state, and whether `run` goes on.
pub record World (S : Type 0) : Type 0 where
  pub memory : S
  pub output : Channel OutEvent
  pub state : ModuleState
  pub running : Bool

module _ {S : Type 0} where
  abbrev after_send : S → Channel OutEvent × Bool → World S
  after_send s (o, true) = record { memory = s; output = o; state = ready; running = true }
  after_send s (o, false) = record { memory = s; output = o; state = executing; running = false }

  abbrev pub respond : ProgramIdentifier → World S → S × List (Result Error Vid) → World S
  respond program_id w (s, results) =
      after_send s (send (finished_execution program_id results) w.output)

  abbrev pub while_running : Bool → World S → World S → World S
  while_running true w rest = rest
  while_running false w rest = w

module _ {S : Type 0} (bus : Bus S) (galois_add : ℕ → ℕ → ℕ) where
  unfoldable pub handle : InEvent → World S → World S
  unfolding send
  handle (execute_program program) w =
      respond program.identifier w (execute bus galois_add program.instructions w.memory)

  -- The loop, over the events that arrive; `none` is the input channel that is closed.
  unfoldable pub run : List (Option InEvent) → World S → World S
  unfolding handle
  run [] w = w
  run (none ∷ events) w = record w { running = false }
  run (some e ∷ events) w =
      let w' = handle e w in let rest = run events w' in while_running w'.running w' rest
