-- ===== src/InstructionStorage/Tests.antt =====
-- src/instruction_storage/mod.rs: runs of the memory, with two confirmations needed.
use the_swarm.Common.{◌≤◌, ◌≡◌, refl, Option, none, some, List, [], ◌∷◌, arith, if_pos, ℕ_discrete}
use the_swarm.Common.Map.{get, add, add_all}
use the_swarm.Processor.Instruction.{plus, inv}
use the_swarm.Processor.Program.{
  Instructions, Program, ProgramIdentifier, identifier_key, identifier_discrete,
}
use the_swarm.InstructionStorage.{
  executing, finished, InstructionMemory, InEvent, finalized_program, executed_program, run,
}
use the_swarm.InstructionStorage.Completion.{notify_all, notify_all-finishes}
use the_swarm.InstructionStorage.History.{fresh, reported, run-reports_once}

abbrev instructions : Instructions
instructions =
    record { operation = plus (record { first = 1; second = 2 }); result = 3 }
    ∷ record { operation = inv (record { operand = 3 }); result = 4 }
    ∷ []

abbrev identifier : ProgramIdentifier
identifier = record { hash = record { inner = 9 ∷ [] }; event_hash = record { inner = 8 ∷ [] } }

abbrev program : Program
program = record { instructions = instructions; identifier = identifier }

abbrev started : InstructionMemory
started = record {
  currently_executed =
      (identifier, record { state = executing []; affected_data_ids = 4 ∷ 3 ∷ [] }) ∷ [];
  accept_threshold = 2;
}

abbrev history : List (Option InEvent)
history =
    some (finalized_program program)
    ∷ some (executed_program 5 identifier)
    ∷ some (executed_program 5 identifier)
    ∷ some (executed_program 6 identifier)
    ∷ some (executed_program 7 identifier)
    ∷ []

known :
    get started.currently_executed identifier
    ≡ some (record { state = executing []; affected_data_ids = 4 ∷ 3 ∷ [] })
unfolding get
known = if_pos (identifier_discrete identifier identifier) refl _ _

notify_all-finishes_example :
    (get (notify_all (5 ∷ 5 ∷ 6 ∷ 7 ∷ []) identifier started).0.currently_executed identifier
      ≡ some (record { state = finished; affected_data_ids = 4 ∷ 3 ∷ [] }))
    × ((notify_all (5 ∷ 5 ∷ 6 ∷ 7 ∷ []) identifier started).1 ≡ 1)
unfolding add_all add ℕ_discrete
notify_all-finishes_example =
    notify_all-finishes identifier (4 ∷ 3 ∷ []) started (5 ∷ 5 ∷ 6 ∷ 7 ∷ []) (omega arith) known

run-reports_once_example : reported identifier (run history (fresh 2 none)).output.sent ≤ 1
run-reports_once_example = run-reports_once 2 none history identifier
