-- ===== src/DataMemory/Recollection.antt =====
-- src/data_memory/mod.rs: how data is recollected from the shards of the peers.
use the_swarm.Common.{
  ℕ, suc, ◌≤◌, ◌≡◌, ◌≢◌, refl, ap, ◌∙◌, true, false, none, some, List, [], ◌∷◌, ◌++◌, arith, leb,
  ltb, ◌==◌, length,
}
use mathlib.Core.List.{append_assoc, append-nil}
use the_swarm.Common.Map.{
  Map, nat_key, get, insert, remove, Distinct, insert-Distinct, get-insert, length-insert_new,
}
use the_swarm.Common.Result.{ok, done}
use the_swarm.Types.{Vid, Sid, PeerId, Shard, Data, IsData, data_shards_count}
use the_swarm.Encoding.ReedSolomon.{ErasureCode, encode, decode}
use the_swarm.Encoding.ReedSolomon.Slots.{IsErasureCode}
use the_swarm.Encoding.ReedSolomon.RoundTrip.{decode-encode}
use the_swarm.DataMemory.State.{OutEvent}
use the_swarm.DataMemory.Output.{World, HandleResult, running, send_or_return, send_or_abort}
use the_swarm.DataMemory.Handlers.{
  with_memory, handle_assigned_response, receive, collect_one, collect_all, on_recollect_request,
  recollect,
}

-- The channel is open, and the event joins those that were sent.
abbrev pub emits : World → List OutEvent → World
emits w es = record w { output = record { sent = w.output.sent ++ es; room = none } }

pub send_or_return_open :
    (e : OutEvent) (w : World)
    → w.output.room ≡ none
    → send_or_return e w ≡ (emits w (e ∷ []), running)
unfolding send_or_return
send_or_return_open e w h = ground arith

pub send_or_abort_open :
    (e : OutEvent) (w : World)
    → w.output.room ≡ none
    → send_or_abort e w ≡ (emits w (e ∷ []), HandleResult.ok)
unfolding send_or_abort
send_or_abort_open e w h = ground arith

abbrev pub with_assembled : World → Map Vid (Map Sid Shard) → World
with_assembled w m = with_memory w (record (w.memory) { currently_assembled = m })

module _ (inner : ErasureCode) (law : IsErasureCode inner)
    (two : inner.data_shard_count ≡ data_shards_count) where
  -- With an erasure code that keeps its laws and has two data shards, and an open output
  -- channel: while data of eight bytes is assembled from shards that its encoding made, a new
  -- one of these shards that makes them two ends the assembly, and the data goes to the user
  -- exactly as it was encoded.
  pub handle_assigned_response-completes :
      (w : World) (id : Vid) (sid : Sid) (shard : Shard) (bytes : Data)
      (all received : Map Sid Shard)
      → IsData bytes
      → encode inner bytes ≡ done all
      → get w.memory.currently_assembled id ≡ some received
      → Distinct received
      → ((j : Sid) (s : Shard) → get received j ≡ some s → get all j ≡ some s)
      → suc (length received) ≡ data_shards_count
      → get received sid ≡ none
      → get all sid ≡ some shard
      → w.output.room ≡ none
      → handle_assigned_response inner (id, sid) (some shard) w ≡ (
        emits
            (with_assembled w (remove w.memory.currently_assembled id))
            (OutEvent.recollect_response (ok (id, bytes)) ∷ []),
        HandleResult.ok,
      )
  unfolding handle_assigned_response
  handle_assigned_response-completes w id sid shard bytes all received h made found d subset count
        new right room =
      rw (found, new, receive, enough, decoded)
        (send_or_abort_open _ (with_assembled w (remove w.memory.currently_assembled id)) room)
    where
      received' : Map Sid Shard
      received' = insert received sid shard

      size : length (insert received sid shard) ≡ 2
      size = length-insert_new received sid shard new ∙ count

      enough : leb inner.data_shard_count (length (insert received sid shard)) ≡ true
      enough = ground (arith, size)

      subset' :
          (j : Sid) (s : Shard) → get (insert received sid shard) j ≡ some s → get all j ≡ some s
      subset' j s e = ground (arith, get-insert received sid shard j, subset j s)

      decoded : decode inner (insert received sid shard) ≡ done bytes
      decoded =
          decode-encode inner law two bytes all (insert received sid shard) h made
            (insert-Distinct received sid shard d) subset' (omega (arith, size))

module _ (inner : ErasureCode) where
  -- The requests that go out for the known locations of one data id.
  abbrev pub requests : Vid → Map Sid PeerId → List OutEvent
  requests id [] = []
  requests id ((sid, owner) ∷ locations) =
      OutEvent.assigned_request (id, sid) owner ∷ requests id locations

  abbrev pub NoneIs : PeerId → Map Sid PeerId → Type 0
  NoneIs peer [] = Unit {0}
  NoneIs peer ((sid, owner) ∷ locations) = (owner ≢ peer) × NoneIs peer locations

  collect_all-remote :
      (id : Vid) (locations : Map Sid PeerId) (w : World)
      → NoneIs w.memory.local_id locations
      → w.output.room ≡ none
      → collect_all inner id locations w ≡ (emits w (requests id locations), running)
  unfolding collect_all collect_one
  collect_all-remote id [] w n room = ground (arith, append-nil w.output.sent)
  collect_all-remote id ((sid, owner) ∷ locations) w n room =
      rw (remote, send_or_return_open (OutEvent.assigned_request (id, sid) owner) w room)
        (collect_all-remote id locations (emits w (OutEvent.assigned_request (id, sid) owner ∷ []))
            n.1 refl
          ∙ ap (λ sent. (record w { output = record { sent = sent; room = none } }, running))
              (append_assoc w.output.sent (OutEvent.assigned_request (id, sid) owner ∷ [])
                (requests id locations)))
    where
      remote : (owner == w.memory.local_id) ≡ false
      remote = ground (arith, n.0)

  not_below_enough : (n : ℕ) → inner.data_shard_count ≤ n → ltb n inner.data_shard_count ≡ false
  not_below_enough n h = ground arith

  -- While the output channel is open, a request for data that is known in enough places and is
  -- not being assembled starts an empty assembly and asks each known location, in turn, for its
  -- shard, where none of them is the peer itself.
  pub on_recollect_request_starts :
      (w : World) (id : Vid) (locations : Map Sid PeerId)
      → get w.memory.data_known_locations id ≡ some locations
      → inner.data_shard_count ≤ length locations
      → get w.memory.currently_assembled id ≡ none
      → NoneIs w.memory.local_id locations
      → w.output.room ≡ none
      → on_recollect_request inner id w ≡ (
        emits
            (with_assembled w (insert w.memory.currently_assembled id []))
            (requests id locations),
        running,
      )
  unfolding on_recollect_request
  on_recollect_request_starts w id locations e many idle remote room =
      rw (e, recollect, not_below_enough (length locations) many, idle)
        (collect_all-remote id locations
          (with_assembled w (insert w.memory.currently_assembled id [])) remote room)
