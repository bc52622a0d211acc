-- ===== src/Behaviour/Handlers.antt =====
-- src/behaviour/handlers.rs: what the behaviour does with a transaction.
use the_swarm.Common.{ℕ, zero, suc, Bool, true, false, Option, none, some, List, [], ◌∷◌, ◌++◌}
use the_swarm.Types.{Vid, Sid, PeerId, Hash}
use the_swarm.Processor.Program.{Instructions, Program, ProgramIdentifier, program_new}
use the_swarm.InstructionStorage
use the_swarm.DataMemory.State
use the_swarm.Consensus.Transaction.{
  Transaction, initialize_storage, storage_request, stored, execute, executed,
}

-- The input channel of a module, as the behaviour polls a send to it once.
pub record Inbox (E : Type 0) : Type 0 where
  pub queued : List E
  pub free : ℕ
  pub open_still : Bool
  pub max_capacity : ℕ

-- `Poll::Ready(Ok(_))`, `Poll::Ready(Err(_))` and `Poll::Pending`; the send that is pending is
-- dropped.
pub data Polled : Type 0 where
  sent closed full : Polled

abbrev pub deliver : {E : Type 0} → E → Inbox E → Bool → ℕ → Inbox E × Polled
deliver e inbox false free = (inbox, closed)
deliver e inbox true zero = (inbox, full)
deliver e inbox true (suc free) =
    (record inbox { queued = inbox.queued ++ (e ∷ []); free = free }, sent)

unfoldable pub poll_send : {E : Type 0} → E → Inbox E → Inbox E × Polled
poll_send e inbox = deliver e inbox inbox.open_still inbox.free

-- The inputs of the modules that transactions go to.
pub record Modules : Type 0 where
  pub data_memory : Inbox State.InEvent
  pub instruction_memory : Inbox InstructionStorage.InEvent

pub data HandleResult : Type 0 where
  ok abort : HandleResult

abbrev pub result_of : Polled → HandleResult
result_of sent = ok
result_of closed = abort
result_of full = abort

unfoldable pub to_data_memory : State.InEvent → Modules → Modules × HandleResult
unfolding poll_send
to_data_memory e m =
    let (inbox, polled) = poll_send e m.data_memory in
    (record m { data_memory = inbox }, result_of polled)

unfoldable pub to_instruction_memory : InstructionStorage.InEvent → Modules → Modules × HandleResult
unfolding poll_send
to_instruction_memory e m =
    let (inbox, polled) = poll_send e m.instruction_memory in
    (record m { instruction_memory = inbox }, result_of polled)

unfoldable pub handle_storage_request_tx : Vid → PeerId → Modules → Modules × HandleResult
unfolding to_data_memory
handle_storage_request_tx data_id from m =
    to_data_memory (State.InEvent.storage_request_tx data_id from) m

unfoldable pub handle_stored_ts : Vid → Sid → PeerId → Modules → Modules × HandleResult
unfolding to_data_memory
handle_stored_ts data_id shard_id from m =
    to_data_memory (State.InEvent.store_confirmed (data_id, shard_id) from) m

unfoldable pub handle_executed_tx : PeerId → ProgramIdentifier → Modules → Modules × HandleResult
unfolding to_instruction_memory
handle_executed_tx from program_id m =
    to_instruction_memory (InstructionStorage.InEvent.executed_program from program_id) m

unfoldable pub handle_initialize_storage_tx : List (PeerId × Sid) → Modules → Modules × HandleResult
unfolding to_data_memory
handle_initialize_storage_tx distribution m =
    to_data_memory (State.InEvent.initialize distribution) m

module _ (serialize : Instructions → Option (List ℕ)) (digest : List ℕ → List ℕ) where
  abbrev pub finalize : Option Program → Modules → Modules × HandleResult
  finalize none m = (m, abort)
  finalize (some program) m =
      to_instruction_memory (InstructionStorage.InEvent.finalized_program program) m

  unfoldable pub handle_execute_tx : Hash → Instructions → Modules → Modules × HandleResult
  handle_execute_tx event_hash instructions m =
      finalize (program_new serialize digest instructions event_hash) m

  unfoldable pub handle_tx : PeerId → Transaction → Hash → Modules → Modules × HandleResult
  unfolding handle_storage_request_tx handle_stored_ts handle_execute_tx handle_executed_tx
      handle_initialize_storage_tx
  handle_tx from (storage_request data_id) event_hash m = handle_storage_request_tx data_id from m
  handle_tx from (stored data_id shard_id) event_hash m = handle_stored_ts data_id shard_id from m
  handle_tx from (execute instructions) event_hash m = handle_execute_tx event_hash instructions m
  handle_tx from (executed program_id) event_hash m = handle_executed_tx from program_id m
  handle_tx from (initialize_storage distribution) event_hash m =
      handle_initialize_storage_tx distribution m
