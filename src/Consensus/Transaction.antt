-- ===== src/Consensus/Transaction.antt =====
-- src/consensus/mod.rs: `Transaction`.
use the_swarm.Common.{List}
use the_swarm.Types.{Vid, Sid, PeerId}
use the_swarm.Processor.Program.{Instructions, ProgramIdentifier}

pub data Transaction : Type 0 where
  initialize_storage : List (PeerId × Sid) → Transaction
  storage_request : Vid → Transaction
  stored : Vid → Sid → Transaction
  execute : Instructions → Transaction
  executed : ProgramIdentifier → Transaction
