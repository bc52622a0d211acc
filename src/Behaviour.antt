-- ===== src/Behaviour.antt =====
-- src/behaviour: the network behaviour, which passes events between the modules, the user and the
-- other peers.
pub mod Handlers
pub mod Delivery
pub mod Metrics
pub mod Timer
pub mod Deadline
pub mod State
pub mod Memory
pub mod Exchange
pub mod Gossip
pub mod Poll
pub mod Steps
pub mod Stages
pub mod Peers
pub mod Failure
pub mod Gating
pub mod Trace
pub mod Recognition
pub mod Heard
pub mod Answering
pub mod Responding
pub mod Reachable
pub mod Timeline
pub mod Serving
pub mod Initialization
pub mod Quiet
pub mod Progress
pub mod Log
pub mod Consistency
mod Tests
