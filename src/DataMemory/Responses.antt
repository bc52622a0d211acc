-- ===== src/DataMemory/Responses.antt =====
-- src/data_memory/mod.rs: the responses of the peers that a recollection asks for.
use the_swarm.Common.{
  ap, ◌≤◌, ◌≡◌, refl, inl, inr, Bool, Option, none, some, List, [], ◌∷◌, map, arith, leb, length,
  Option-cases,
}
use the_swarm.Common.Map.{Map, nat_key, get, insert, length-insert_new, length-insert_old}
use the_swarm.Types.{Vid, Sid, Shard, data_shards_count}
use the_swarm.Encoding.ReedSolomon.{ErasureCode}
use the_swarm.DataMemory.State.{InEvent, Wake, input}
use the_swarm.DataMemory.Output.{World, Exit, HandleResult, running, or_cancel, and_then}
use the_swarm.DataMemory.Handlers.{handle_assigned_response, on_recollect_request}
use the_swarm.DataMemory.Run.{handle, round, run}

-- A peer's response: the index of the shard that was asked for, and the shard if the peer has it.
abbrev pub Response : Type 0
Response = Sid × Option Shard

abbrev pub to_wake : Vid → Response → Wake
to_wake id (sid, shard) = input (some (InEvent.assigned_response (id, sid) shard))

-- The shards that came, by their index.
unfoldable pub gathered : Map Sid Shard → List Response → Map Sid Shard
gathered received [] = received
gathered received ((sid, none) ∷ responses) = gathered received responses
gathered received ((sid, some shard) ∷ responses) = gathered (insert received sid shard) responses

-- Every shard that came is the one of its index.
abbrev pub Genuine : Map Sid Shard → List Response → Type 0
Genuine all [] = Unit {0}
Genuine all ((sid, none) ∷ responses) = Genuine all responses
Genuine all ((sid, some shard) ∷ responses) = (get all sid ≡ some shard) × Genuine all responses

abbrev pub enough : Map Sid Shard → Bool
enough received = leb data_shards_count (length received)

pub insert_again :
    (received : Map Sid Shard) (sid : Sid) (shard : Shard)
    → get received sid ≡ some shard
    → insert received sid shard ≡ received
unfolding insert get
insert_again [] sid shard e = absurd (cc)
insert_again ((j, s) ∷ received) sid shard e = ground (arith, insert_again received sid shard)

length-insert-le :
    (received : Map Sid Shard) (sid : Sid) (shard : Shard)
    → length received ≤ length (insert received sid shard)
length-insert-le received sid shard = elim (Option-cases (get received sid)) [
  | inl e ↦ omega (arith, length-insert_new received sid shard e)
  | inr (s, e) ↦ omega (arith, length-insert_old received sid shard s e)
]

pub length-gathered-le :
    (received : Map Sid Shard) (responses : List Response)
    → length received ≤ length (gathered received responses)
unfolding gathered
length-gathered-le received [] = omega arith
length-gathered-le received ((sid, none) ∷ responses) = length-gathered-le received responses
length-gathered-le received ((sid, some shard) ∷ responses) = omega (
  arith,
  length-insert-le received sid shard,
  length-gathered-le (insert received sid shard) responses,
)

pub nothing : (j : Sid) (s : Shard) (P : Type 0) → get [] j ≡ some s → P
unfolding get
nothing j s P e = absurd (cc)

-- Responses for data that is not assembled change nothing.
pub late :
    (inner : ErasureCode) (id : Vid) (responses : List Response) (w : World)
    → get w.memory.currently_assembled id ≡ none
    → run inner (map (to_wake id) responses) w ≡ (w, running)
unfolding run round handle handle_assigned_response
late inner id [] w e = refl
late inner id ((sid, none) ∷ responses) w e = late inner id responses w e
late inner id ((sid, some shard) ∷ responses) w e = rw e (late inner id responses w e)

module _ (inner : ErasureCode) (id : Vid) where
  -- A response that is handled without an error is followed by the next ones.
  pub after :
      (w w' : World) (sid : Sid) (shard : Shard) (responses : List Response)
      → handle_assigned_response inner (id, sid) (some shard) w ≡ (w', HandleResult.ok)
      → run inner (map (to_wake id) ((sid, some shard) ∷ responses)) w
        ≡ run inner (map (to_wake id) responses) w'
  unfolding run round handle
  after w w' sid shard responses e =
      ap
        (λ (r : World × HandleResult).
          and_then (or_cancel r) (run inner (map (to_wake id) responses)))
        e

  pub asked :
      (w w' : World) (responses : List Response)
      → on_recollect_request inner id w ≡ (w', running)
      → run inner (input (some (InEvent.recollect_request id)) ∷ map (to_wake id) responses) w
        ≡ run inner (map (to_wake id) responses) w'
  unfolding run round handle
  asked w w' responses e =
      ap (λ (r : World × Exit). and_then r (run inner (map (to_wake id) responses))) e

  pub none_left : (w : World) → run inner [] w ≡ (w, running)
  unfolding run
  none_left w = refl

  pub absent :
      (w : World) (sid : Sid) (responses : List Response)
      → run inner (map (to_wake id) ((sid, none) ∷ responses)) w
        ≡ run inner (map (to_wake id) responses) w
  unfolding run round handle handle_assigned_response
  absent w sid responses = refl
