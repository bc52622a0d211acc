-- ===== src/DataMemory/Access.antt =====
-- src/data_memory/mod.rs: the local storage.
use the_swarm.Common.{◌≡◌, Option, none, some, [], arith, ◌&&◌, ◌==◌, if◌then◌else◌}
use the_swarm.Common.Map.{Map, nat_key, get, insert, get-insert, get_of_Fresh}
use the_swarm.Types.{Vid, Sid, Shard}
use the_swarm.DataMemory.State.{Memory}
use the_swarm.DataMemory.Storage.{or_default, get_in, get_shard, store_shard}

get_in-insert :
    (found : Option (Map Sid Shard)) (sid : Sid) (shard : Shard) (osid : Sid)
    → get (insert (or_default found) sid shard) osid
      ≡ (if sid == osid then some shard else get_in found osid)
get_in-insert none sid shard osid =
    ground (arith, get-insert [] sid shard osid, get_of_Fresh {V = Shard} [] osid tt)
get_in-insert (some shards) sid shard osid = ground (arith, get-insert shards sid shard osid)

get_in-store :
    (t : Map Vid (Map Sid Shard)) (id : Vid) (sid : Sid) (shard : Shard) (other : Vid) (osid : Sid)
    → get_in (get (insert t id (insert (or_default (get t id)) sid shard)) other) osid
      ≡ (if (id == other) && (sid == osid) then some shard else get_in (get t other) osid)
get_in-store t id sid shard other osid = ground (
  arith,
  get-insert t id (insert (or_default (get t id)) sid shard) other,
  get_in-insert (get t id) sid shard osid,
)

-- A stored shard is found under its own data id and index, and what is found under any other
-- does not change.
pub get_shard-store_shard :
    (m : Memory) (id : Vid) (sid : Sid) (shard : Shard) (other : Vid) (osid : Sid)
    → get_shard (store_shard m (id, sid) shard).0 (other, osid)
      ≡ (if (id == other) && (sid == osid) then some shard else get_shard m (other, osid))
unfolding get_shard store_shard
get_shard-store_shard m id sid shard other osid =
    get_in-store m.local_storage id sid shard other osid
