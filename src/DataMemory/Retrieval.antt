-- ===== src/DataMemory/Retrieval.antt =====
-- src/data_memory/mod.rs: a recollection from the user's request to the last response.
use the_swarm.Common.{
  suc, ◌<◌, ◌≤◌, ◌≡◌, refl, sym, subst, ◌∙◌, inl, inr, true, false, none, some, List, [], ◌∷◌, ◌++◌,
  map, arith, leb, length, if◌then◌else◌, Option-cases, dec_lt,
}
use mathlib.Core.List.{append-nil}
use the_swarm.Common.Map.{
  Map, nat_key, get, insert, remove, Distinct, insert-Distinct, get-insert, get-insert_self,
  get-remove_self, length-insert_new,
}
use the_swarm.Common.Result.{ok, done}
use the_swarm.Types.{Vid, Sid, PeerId, Shard, Data, IsData, data_shards_count}
use the_swarm.Encoding.ReedSolomon.{ErasureCode, encode}
use the_swarm.Encoding.ReedSolomon.Slots.{IsErasureCode}
use the_swarm.DataMemory.State.{OutEvent, InEvent, input}
use the_swarm.DataMemory.Output.{World, Exit, HandleResult, running}
use the_swarm.DataMemory.Handlers.{handle_assigned_response, receive}
use the_swarm.DataMemory.Run.{run}
use the_swarm.DataMemory.Recollection.{
  with_assembled, emits, handle_assigned_response-completes, requests, NoneIs,
  on_recollect_request_starts,
}
use the_swarm.DataMemory.Responses.{
  Response, to_wake, gathered, Genuine, enough, insert_again, length-gathered-le, nothing, late,
  after, asked, none_left, absent,
}

module _ (inner : ErasureCode) (law : IsErasureCode inner)
    (two : inner.data_shard_count ≡ data_shards_count) (id : Vid) (bytes : Data)
    (all : Map Sid Shard) (bytes-IsData : IsData bytes) (made : encode inner bytes ≡ done all) where
  -- The data is being assembled from less than enough of its shards.
  record Assembling (w : World) (received : Map Sid Shard) : Type 0 where
    found : get w.memory.currently_assembled id ≡ some received
    entries : Distinct w.memory.currently_assembled
    distinct : Distinct received
    subset : (j : Sid) (s : Shard) → get received j ≡ some s → get all j ≡ some s
    few : length received < data_shards_count
    room : w.output.room ≡ none

  -- What the user is told, and what is left of the assembly.
  abbrev pub Ends : List OutEvent → Map Sid Shard → World × Exit → Type 0
  Ends sent received r =
      (r.1 ≡ running)
      × (r.0.output ≡ record {
        sent =
            sent
            ++ (if enough received then OutEvent.recollect_response (ok (id, bytes)) ∷ [] else []);
        room = none;
      })
      × (get r.0.memory.currently_assembled id ≡ (if enough received then none else some received))

  few-enough :
      (received : Map Sid Shard) → length received < data_shards_count → enough received ≡ false
  few-enough received h = ground arith

  many-enough :
      (received : Map Sid Shard) → data_shards_count ≤ length received → enough received ≡ true
  many-enough received h = ground arith

  repeated :
      (w : World) (received : Map Sid Shard) (sid : Sid) (shard s : Shard)
      → get w.memory.currently_assembled id ≡ some received
      → get received sid ≡ some s
      → handle_assigned_response inner (id, sid) (some shard) w ≡ (w, HandleResult.ok)
  unfolding handle_assigned_response
  repeated w received sid shard s found here = rw (found, receive, here) refl

  added :
      (w : World) (received : Map Sid Shard) (sid : Sid) (shard : Shard)
      → get w.memory.currently_assembled id ≡ some received
      → get received sid ≡ none
      → suc (length received) < data_shards_count
      → handle_assigned_response inner (id, sid) (some shard) w ≡ (
        with_assembled w (insert w.memory.currently_assembled id (insert received sid shard)),
        HandleResult.ok,
      )
  unfolding handle_assigned_response
  added w received sid shard found new few = rw (found, receive, new, below) refl
    where
      below : leb inner.data_shard_count (length (insert received sid shard)) ≡ false
      below = ground (arith, length-insert_new received sid shard new)

  -- The response that completes the assembly ends it.
  completed-Ends :
      (responses : List Response) (w : World) (received : Map Sid Shard) (sid : Sid) (shard : Shard)
      → Assembling w received
      → get received sid ≡ none
      → get all sid ≡ some shard
      → suc (length received) ≡ data_shards_count
      → Ends w.output.sent
          (gathered (insert received sid shard) responses)
          (run inner (map (to_wake id) ((sid, some shard) ∷ responses)) w)
  completed-Ends responses w received sid shard a new genuine last =
      let gone = get-remove_self w.memory.currently_assembled id a.entries in
      let w' =
        emits (with_assembled w (remove w.memory.currently_assembled id))
          (OutEvent.recollect_response (ok (id, bytes)) ∷ []) in
      subst (Ends w.output.sent (gathered (insert received sid shard) responses))
        (sym (
          after inner id w w' sid shard responses (
            handle_assigned_response-completes inner law two w id sid shard bytes all received
              bytes-IsData made a.found a.distinct a.subset last new genuine a.room)
          ∙ late inner id responses w' gone))
        (rw (many-enough (gathered (insert received sid shard) responses) many) (refl, refl, gone))
    where
      many : data_shards_count ≤ length (gathered (insert received sid shard) responses)
      many = omega (
        arith,
        last,
        length-insert_new received sid shard new,
        length-gathered-le (insert received sid shard) responses,
      )

  grown-Assembling :
      (w : World) (received : Map Sid Shard) (sid : Sid) (shard : Shard)
      → Assembling w received
      → get received sid ≡ none
      → get all sid ≡ some shard
      → suc (length received) < data_shards_count
      → Assembling
          (with_assembled w (insert w.memory.currently_assembled id (insert received sid shard)))
          (insert received sid shard)
  grown-Assembling w received sid shard a new genuine few = record {
    found = get-insert_self w.memory.currently_assembled id (insert received sid shard);
    entries = insert-Distinct w.memory.currently_assembled id _ a.entries;
    distinct = insert-Distinct received sid shard a.distinct;
    subset = λ j s e. ground (arith, get-insert received sid shard j, a.subset j s);
    few = omega (arith, length-insert_new received sid shard new);
    room = a.room;
  }

  assembling-Ends :
      (responses : List Response) (w : World) (received : Map Sid Shard)
      → Assembling w received
      → Genuine all responses
      → Ends w.output.sent (gathered received responses) (run inner (map (to_wake id) responses) w)
  unfolding gathered
  assembling-Ends [] w received a g =
      subst (Ends w.output.sent received) (sym (none_left inner id w)) (
        rw (few-enough received a.few)
          (refl, ground (arith, a.room, append-nil w.output.sent), a.found))
  assembling-Ends ((sid, none) ∷ responses) w received a g =
      subst (Ends w.output.sent (gathered received responses))
        (sym (absent inner id w sid responses)) (assembling-Ends responses w received a g)
  assembling-Ends ((sid, some shard) ∷ responses) w received a g =
      elim (Option-cases (get received sid)) [
        | inl new ↦ elim (dec_lt (suc (length received)) data_shards_count) [
          | yes few ↦
              subst (Ends w.output.sent (gathered (insert received sid shard) responses))
                (sym (
                  after inner id w
                    (with_assembled w
                      (insert w.memory.currently_assembled id (insert received sid shard)))
                    sid shard responses (added w received sid shard a.found new few)))
                (assembling-Ends responses _ (insert received sid shard)
                  (grown-Assembling w received sid shard a new g.0 few) g.1)
          | no many ↦
              completed-Ends responses w received sid shard a new g.0 (omega (arith, a.few, many))
        ]
        | inr (s, here) ↦
            subst
              (λ m.
                Ends w.output.sent (gathered m responses)
                  (run inner (map (to_wake id) ((sid, some shard) ∷ responses)) w))
              (sym (insert_again received sid shard (here ∙ same s here)))
              (subst (Ends w.output.sent (gathered received responses))
                (sym (
                  after inner id w w sid shard responses
                    (repeated w received sid shard s a.found here)))
                (assembling-Ends responses w received a g.1))
      ]
    where
      same : (s : Shard) → get received sid ≡ some s → some s ≡ some shard
      same s here = sym (a.subset sid s here) ∙ g.0

  -- With an erasure code that keeps its laws and has two data shards, an open output channel, and
  -- at most one assembly for a data id, consider a user's request for data that is known in at
  -- least two places, none of them the peer itself, and that is not being assembled, followed by
  -- any number of responses to the requests for it, in any order, with absent ones and repeated
  -- ones, where each shard that comes is the one of its index in the encoding of the same eight
  -- bytes. The loop of the memory goes on; it sends one request for each known place, and then, if
  -- shards of at least two indices came, exactly once the eight bytes to the user, and nothing
  -- else. No assembly of this data is left in that case, and otherwise it holds the shards that
  -- came.
  pub run-recollects :
      (w : World) (locations : Map Sid PeerId) (responses : List Response)
      → get w.memory.data_known_locations id ≡ some locations
      → data_shards_count ≤ length locations
      → NoneIs inner w.memory.local_id locations
      → get w.memory.currently_assembled id ≡ none
      → Distinct w.memory.currently_assembled
      → w.output.room ≡ none
      → Genuine all responses
      → Ends
          (w.output.sent ++ requests inner id locations)
          (gathered [] responses)
          (run inner (input (some (InEvent.recollect_request id)) ∷ map (to_wake id) responses) w)
  run-recollects w locations responses known many remote idle entries room genuine =
      subst (Ends (w.output.sent ++ requests inner id locations) (gathered [] responses))
        (sym (
          asked inner id w _ responses (
            on_recollect_request_starts inner w id locations known (omega (arith, two, many)) idle
              remote room)))
        (assembling-Ends responses
          (emits (with_assembled w (insert w.memory.currently_assembled id []))
            (requests inner id locations))
          []
          (record {
            found = get-insert_self w.memory.currently_assembled id [];
            entries = insert-Distinct w.memory.currently_assembled id [] entries;
            distinct = tt;
            subset = λ j s e. nothing j s _ e;
            few = omega arith;
            room = refl;
          })
          genuine)
