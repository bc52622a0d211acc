-- ===== src/DataMemory/State.antt =====
-- src/data_memory/mod.rs: the events and the state of the data memory.
use the_swarm.Common.{Option, List}
use the_swarm.Common.Map.{Map}
use the_swarm.Common.Result.{Result}
use the_swarm.Types.{Vid, Sid, PeerId, Shard, Data}

abbrev pub FullShardId : Type 0
FullShardId = Vid × Sid

pub data RecollectionError : Type 0 where
  unkonwn_data_id not_enough_shards : RecollectionError

pub data OutEvent : Type 0 where
  initialized : OutEvent
  prepared_service_response : Vid → OutEvent
  serve_shard_request : FullShardId → PeerId → OutEvent
  serve_shard_response : FullShardId → Option Shard → OutEvent
  assigned_store_success : FullShardId → OutEvent
  distribution_sufficient : Vid → OutEvent
  distribution_full : Vid → OutEvent
  assigned_response : FullShardId → Option Shard → OutEvent
  assigned_request : FullShardId → PeerId → OutEvent
  list_distributed : List (Vid × Map Sid PeerId) → OutEvent
  recollect_response : Result RecollectionError (Vid × Data) → OutEvent

pub data InEvent : Type 0 where
  initialize : List (PeerId × Sid) → InEvent
  prepare_service_request : Vid → Data → InEvent
  storage_request_tx : Vid → PeerId → InEvent
  serve_shard_response : FullShardId → Option Shard → InEvent
  serve_shard_request : FullShardId → InEvent
  store_confirmed : FullShardId → PeerId → InEvent
  assigned_request : FullShardId → InEvent
  assigned_response : FullShardId → Option Shard → InEvent
  list_distributed : InEvent
  recollect_request : Vid → InEvent
  peer_shards_actualized : PeerId → List Vid → InEvent

-- What wakes the `select!` of either loop. `none` is a channel that was closed.
pub data Wake : Type 0 where
  input : Option InEvent → Wake
  read : Option Vid → Wake
  write : Option (Vid × Shard) → Wake

-- `InitializedDataMemory`, less its channels and its encoding.
pub record Memory : Type 0 where
  pub local_storage : Map Vid (Map Sid Shard)
  pub to_distribute : Map Vid (Map Sid Shard)
  pub currently_assembled : Map Vid (Map Sid Shard)
  pub distribution : Map PeerId Sid
  pub data_known_locations : Map Vid (Map Sid PeerId)
  pub local_id : PeerId
