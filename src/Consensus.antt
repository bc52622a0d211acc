-- ===== src/Consensus.antt =====
-- src/consensus: transactions, and the wrapper of the graph that orders them.
pub mod Transaction
pub mod Graph
pub mod Loop
pub mod Buffer
pub mod Inclusion
mod Tests
