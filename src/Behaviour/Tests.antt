-- ===== src/Behaviour/Tests.antt =====
-- src/behaviour/handlers.rs: runs of the handlers. The serializer and the hash are small functions.
mod Polls
use the_swarm.Common.{ℕ, ◌≡◌, refl, true, Option, some, List, [], ◌∷◌, arith, length}
use the_swarm.Types.{Hash}
use the_swarm.Processor.Instruction.{inv}
use the_swarm.Processor.Program.{Instructions, program_new}
use the_swarm.InstructionStorage
use the_swarm.DataMemory.State
use the_swarm.Consensus.Transaction.{storage_request, stored, execute, initialize_storage}
use the_swarm.Behaviour.Handlers.{Modules, ok}
use the_swarm.Behaviour.Delivery.{
  OrderedTx, queues, Handled, handle_all, handle_all-Handled, handle_all-ok,
}

abbrev serialize : Instructions → Option (List ℕ)
serialize instructions = some (length instructions ∷ [])

abbrev digest : List ℕ → List ℕ
digest bytes = 64 ∷ bytes

abbrev instructions : Instructions
instructions = record { operation = inv (record { operand = 1 }); result = 2 } ∷ []

abbrev event_hash : Hash
event_hash = record { inner = 3 ∷ [] }

abbrev txs : List OrderedTx
txs =
    (5, initialize_storage ((5, 0) ∷ (6, 1) ∷ []), event_hash)
    ∷ (5, storage_request 7, event_hash)
    ∷ (6, execute instructions, event_hash)
    ∷ (6, stored 7 1, event_hash)
    ∷ []

abbrev modules : ℕ → Modules
modules free = record {
  data_memory = record {
    queued = State.InEvent.list_distributed ∷ [];
    free = free;
    open_still = true;
    max_capacity = 32;
  };
  instruction_memory = record { queued = []; free = free; open_still = true; max_capacity = 32 };
}

handle_all-ok_example :
    ((handle_all serialize digest txs (modules 4)).1 ≡ ok)
    × (queues (handle_all serialize digest txs (modules 4)).0 ≡ (
      State.InEvent.list_distributed
          ∷ State.InEvent.initialize ((5, 0) ∷ (6, 1) ∷ [])
          ∷ State.InEvent.storage_request_tx 7 5
          ∷ State.InEvent.store_confirmed (7, 1) 6
          ∷ [],
      InstructionStorage.InEvent.finalized_program (record {
        instructions = instructions;
        identifier = record { hash = record { inner = 64 ∷ 1 ∷ [] }; event_hash = event_hash };
      })
          ∷ [],
    ))
unfolding program_new
handle_all-ok_example =
    handle_all-ok serialize digest (λ l. (length l ∷ [], refl)) txs (modules 4)
      (refl, refl, omega arith, omega arith)
