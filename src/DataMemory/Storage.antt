-- ===== src/DataMemory/Storage.antt =====
-- src/data_memory/mod.rs: the operations of `InitializedDataMemory` on its maps.
use the_swarm.Common.{ℕ, Option, none, some, []}
use the_swarm.Common.Map.{Map, nat_key, get, insert, remove}
use the_swarm.Types.{Vid, Sid, PeerId, Shard}
use the_swarm.DataMemory.State.{FullShardId, Memory}

-- `map.entry(k).or_default()` of a map of maps.
abbrev pub or_default : {V : Type 0} → Option (Map ℕ V) → Map ℕ V
or_default none = []
or_default (some m) = m

unfoldable pub assigned_shard_id : Memory → Option Sid
assigned_shard_id m = get m.distribution m.local_id

abbrev pub get_in : {V : Type 0} → Option (Map ℕ V) → ℕ → Option V
get_in none k = none
get_in (some m) k = get m k

unfoldable pub get_shard : Memory → FullShardId → Option Shard
get_shard m (data_id, shard_id) = get_in (get m.local_storage data_id) shard_id

-- The old value is returned too.
unfoldable pub store_shard : Memory → FullShardId → Shard → Memory × Option Shard
store_shard m (data_id, shard_id) shard =
    let shards = or_default (get m.local_storage data_id) in
    (
      record m { local_storage = insert m.local_storage data_id (insert shards shard_id shard) },
      get shards shard_id,
    )

unfoldable pub remove_shard : Memory → FullShardId → Memory × Option Shard
remove_shard m (data_id, shard_id) = elim (get m.local_storage data_id) [
  | none ↦ (m, none)
  | some shards ↦ (
    record m { local_storage = insert m.local_storage data_id (remove shards shard_id) },
    get shards shard_id,
  )
]

abbrev pub drop_shard :
    Map Vid (Map Sid Shard) → Vid → Sid → Option (Map Sid Shard) → Map Vid (Map Sid Shard)
drop_shard maps data_id shard_id none = maps
drop_shard maps data_id shard_id (some shards) = insert maps data_id (remove shards shard_id)

-- The warnings about an unexpected location change nothing.
unfoldable pub observe_new_location : Memory → FullShardId → PeerId → Memory
observe_new_location m (data_id, shard_id) location = record m {
  to_distribute = drop_shard m.to_distribute data_id shard_id (get m.to_distribute data_id);
  data_known_locations =
      insert m.data_known_locations data_id
        (insert (or_default (get m.data_known_locations data_id)) shard_id location);
}

unfoldable pub prepare_to_serve_shards : Memory → Vid → Map Sid Shard → Memory
prepare_to_serve_shards m data_id shards = record m {
  to_distribute = insert m.to_distribute data_id shards;
}

unfoldable pub serve_shard : Memory → FullShardId → Option Shard
serve_shard m (data_id, shard_id) = get_in (get m.to_distribute data_id) shard_id
