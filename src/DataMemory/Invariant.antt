-- ===== src/DataMemory/Invariant.antt =====
-- src/data_memory/mod.rs: what every event keeps true of the maps of the memory.
pub mod Events
use the_swarm.Common.{
  ℕ, ◌<◌, ◌≡◌, refl, sym, subst, inl, inr, Option, none, some, List, [], ◌∷◌, arith, leb, ltb, ◌==◌,
  length, Bool-cases, Option-cases,
}
use the_swarm.Common.Map.{Map, nat_key, get, insert, Distinct, insert-Distinct, remove-Distinct}
use the_swarm.Common.Values.{
  AllValues, AllValues-insert, AllValues-remove, IsTable, IsTable-insert, IsTable-remove,
  IsTable-get,
}
use the_swarm.Common.Result.{Attempt, done, failed, panicked}
use the_swarm.Types.{Vid, Sid, PeerId, Shard, Data}
use the_swarm.Encoding.ReedSolomon.{ErasureCode, Error, encode}
use the_swarm.Encoding.ReedSolomon.RoundTrip.{encode-Distinct}
use the_swarm.DataMemory.State.{FullShardId, OutEvent, InEvent, Wake, input, read, write, Memory}
use the_swarm.DataMemory.Output.{
  World, HandleResult, Exit, running, send_or_return, send_or_abort, or_cancel, and_then,
}
use the_swarm.DataMemory.Storage.{
  or_default, drop_shard, store_shard, observe_new_location, prepare_to_serve_shards,
}
use the_swarm.DataMemory.Handlers.{
  handle_serve_shard_response, on_serve_shard_request, on_assigned_request, on_storage_request_tx,
  storage_request, actualize_all, peer_shards_actualized, on_peer_shards_actualized,
  on_prepare_service_request, prepared, on_store_confirmed, report, report_sufficient, report_full,
  on_list_distributed, handle_assigned_response, receive, receive_vacant, assembled, collect_one,
  collect_all, start_collecting, recollect, on_recollect_request,
}
use the_swarm.DataMemory.Run.{on_read, on_write, write_assigned, handle, round, run}

-- Every map has one entry for a key, and no data is still being assembled from enough shards.
pub record IsValid (sufficient : ℕ) (m : Memory) : Type 0 where
  pub stored : IsTable m.local_storage
  pub served : IsTable m.to_distribute
  pub assembling : IsTable m.currently_assembled
  pub located : IsTable m.data_known_locations
  pub incomplete : AllValues (λ received. length received < sufficient) m.currently_assembled

pub memory-send_or_return : (e : OutEvent) (w : World) → (send_or_return e w).0.memory ≡ w.memory
unfolding send_or_return
memory-send_or_return e w = ground arith

pub memory-send_or_abort : (e : OutEvent) (w : World) → (send_or_abort e w).0.memory ≡ w.memory
unfolding send_or_abort
memory-send_or_abort e w = ground arith

pub memory-or_cancel : (r : World × HandleResult) → (or_cancel r).0.memory ≡ r.0.memory
memory-or_cancel (w, HandleResult.ok) = refl
memory-or_cancel (w, HandleResult.abort) = refl
memory-or_cancel (w, HandleResult.unwound) = refl

module _ {sufficient : ℕ} where
  pub send_or_return-IsValid :
      (e : OutEvent) (w : World)
      → IsValid sufficient w.memory
      → IsValid sufficient (send_or_return e w).0.memory
  send_or_return-IsValid e w v = subst (IsValid sufficient) (sym (memory-send_or_return e w)) v

  pub send_or_abort-IsValid :
      (e : OutEvent) (w : World)
      → IsValid sufficient w.memory
      → IsValid sufficient (send_or_abort e w).0.memory
  send_or_abort-IsValid e w v = subst (IsValid sufficient) (sym (memory-send_or_abort e w)) v

  pub or_cancel-IsValid :
      (r : World × HandleResult)
      → IsValid sufficient r.0.memory
      → IsValid sufficient (or_cancel r).0.memory
  or_cancel-IsValid r v = subst (IsValid sufficient) (sym (memory-or_cancel r)) v

  pub and_then-IsValid :
      (r : World × Exit) (f : World → World × Exit)
      → IsValid sufficient r.0.memory
      → ((w : World) → IsValid sufficient w.memory → IsValid sufficient (f w).0.memory)
      → IsValid sufficient (and_then r f).0.memory
  and_then-IsValid (w, running) f v h = h w v
  and_then-IsValid (w, Exit.returned) f v h = v
  and_then-IsValid (w, Exit.cancelled) f v h = v
  and_then-IsValid (w, Exit.panicked) f v h = v

or_default-Distinct :
    {V : Type 0} (m : Map Vid (Map Sid V)) (id : Vid) → IsTable m → Distinct (or_default (get m id))
or_default-Distinct m id t = elim (Option-cases (get m id)) [
  | inl e ↦ rw e tt
  | inr (v, e) ↦ rw e (IsTable-get m id v t e)
]

-- One more entry of an inner map.
pub insert_in-IsTable :
    {V : Type 0} (m : Map Vid (Map Sid V)) (id : Vid) (sid : Sid) (v : V)
    → IsTable m
    → IsTable (insert m id (insert (or_default (get m id)) sid v))
insert_in-IsTable m id sid v t =
    IsTable-insert m id _ t (insert-Distinct _ sid v (or_default-Distinct m id t))

drop_shard-IsTable :
    (m : Map Vid (Map Sid Shard)) (id : Vid) (sid : Sid)
    → IsTable m
    → IsTable (drop_shard m id sid (get m id))
drop_shard-IsTable m id sid t = elim (Option-cases (get m id)) [
  | inl e ↦ rw e t
  | inr (v, e) ↦ rw e (IsTable-insert m id _ t (remove-Distinct v sid (IsTable-get m id v t e)))
]

actualize_all-IsTable :
    (known : Map Vid (Map Sid PeerId)) (sid : Sid) (peer : PeerId) (ids : List Vid)
    → IsTable known
    → IsTable (actualize_all known sid peer ids)
unfolding actualize_all
actualize_all-IsTable known sid peer [] t = t
actualize_all-IsTable known sid peer (id ∷ ids) t =
    actualize_all-IsTable (insert known id (insert (or_default (get known id)) sid peer)) sid peer
      ids (insert_in-IsTable known id sid peer t)

module _ {sufficient : ℕ} where
  pub store_shard-IsValid :
      (m : Memory) (id : FullShardId) (shard : Shard)
      → IsValid sufficient m
      → IsValid sufficient (store_shard m id shard).0
  unfolding store_shard
  store_shard-IsValid m (id, sid) shard v = record {
    stored = insert_in-IsTable m.local_storage id sid shard v.stored;
    served = v.served;
    assembling = v.assembling;
    located = v.located;
    incomplete = v.incomplete;
  }

  pub observe-IsValid :
      (m : Memory) (id : FullShardId) (location : PeerId)
      → IsValid sufficient m
      → IsValid sufficient (observe_new_location m id location)
  unfolding observe_new_location
  observe-IsValid m (id, sid) location v = record {
    stored = v.stored;
    served = drop_shard-IsTable m.to_distribute id sid v.served;
    assembling = v.assembling;
    located = insert_in-IsTable m.data_known_locations id sid location v.located;
    incomplete = v.incomplete;
  }

  pub handle_serve_shard_response-IsValid :
      (id : FullShardId) (shard : Option Shard) (w : World)
      → IsValid sufficient w.memory
      → IsValid sufficient (handle_serve_shard_response id shard w).0.memory
  unfolding handle_serve_shard_response
  handle_serve_shard_response-IsValid id none w v = v
  handle_serve_shard_response-IsValid id (some shard) w v =
      send_or_abort-IsValid _ _ (store_shard-IsValid w.memory id shard v)

  pub storage_request-IsValid :
      (id : Vid) (author : PeerId) (assigned : Option Sid) (w : World)
      → IsValid sufficient w.memory
      → IsValid sufficient (storage_request id author assigned w).0.memory
  storage_request-IsValid id author none w v = v
  storage_request-IsValid id author (some sid) w v =
      elim (Bool-cases (author == w.memory.local_id)) [
        | inl e ↦ rw e (or_cancel-IsValid _ (handle_serve_shard_response-IsValid _ _ w v))
        | inr e ↦ rw e (send_or_return-IsValid _ w v)
      ]

  pub peer_shards_actualized-IsValid :
      (peer : PeerId) (ids : List Vid) (assigned : Option Sid) (w : World)
      → IsValid sufficient w.memory
      → IsValid sufficient (peer_shards_actualized peer ids assigned w).0.memory
  peer_shards_actualized-IsValid peer ids none w v = v
  peer_shards_actualized-IsValid peer ids (some sid) w v = record {
    stored = v.stored;
    served = v.served;
    assembling = v.assembling;
    located = actualize_all-IsTable _ sid peer ids v.located;
    incomplete = v.incomplete;
  }
