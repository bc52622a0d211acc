-- ===== src/DataMemory.antt =====
-- src/data_memory/mod.rs: the storage of shards, their distribution and their recollection.
pub mod State
pub mod Output
pub mod Storage
pub mod Uninitialized
pub mod Handlers
pub mod Run
pub mod Invariant
pub mod Distribution
pub mod Recollection
pub mod Responses
pub mod Retrieval
pub mod Rewriting
pub mod Access
pub mod Acceptance
pub mod Tests
