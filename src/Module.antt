-- ===== src/Module.antt =====
-- src/module.rs: the state that a module shares with its clients.
use the_swarm.Common.{Bool, true, false}

-- The mutex with the state, if there is one, as an attempt to lock it finds it.
pub data Shared (S : Type 0) : Type 0 where
  stateless locked : Shared S
  holds : S → Shared S

-- `ModuleChannelServer::set_state`: a mutex that stays locked until the time is out keeps its
-- state.
unfoldable pub set_state : {S : Type 0} → S → Shared S → Shared S
set_state s stateless = stateless
set_state s locked = locked
set_state s (holds _) = holds s

-- `ModuleChannelClient::accepts_input`, of the state's own `accepts_input`.
unfoldable pub accepts_input : {S : Type 0} → (S → Bool) → Shared S → Bool
accepts_input state_accepts stateless = true
accepts_input state_accepts locked = false
accepts_input state_accepts (holds s) = state_accepts s
