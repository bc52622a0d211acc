-- ===== src/DataMemory/Uninitialized.antt =====
-- src/data_memory/mod.rs: `UninitializedDataMemory`, which waits for a distribution.
use the_swarm.Common.{
  ℕ, zero, suc, Bool, true, false, ◌&&◌, none, some, List, [], ◌∷◌, if◌then◌else◌,
}
use the_swarm.Common.Map.{Map, nat_key, collect_into, add, subset}
use the_swarm.Types.{Sid, PeerId}
use the_swarm.Common.Channel.{send}
use the_swarm.Encoding.ReedSolomon.{ErasureCode, settings}
use the_swarm.DataMemory.State.{initialized, initialize, Wake, input, read, write, Memory}
use the_swarm.DataMemory.Output.{Output}

-- `distribution.values().collect::<HashSet<_>>()`.
unfoldable pub value_set : Map PeerId Sid → List Sid
value_set [] = []
value_set ((peer, sid) ∷ m) = add (value_set m) sid

-- `(0..).take(n)`.
unfoldable pub range : ℕ → ℕ → List Sid
range i zero = []
range i (suc n) = i ∷ range (suc i) n

-- What `run` does next.
pub data Start : Type 0 where
  waiting : Start
  stopped : Start
  started : Memory → Start

module _ (inner : ErasureCode) where
  unfoldable pub verify_distribution : Map PeerId Sid → Bool
  unfolding value_set range subset add
  verify_distribution distribution =
      let shard_ids = value_set distribution in
      let expected_ids = range 0 (settings inner).data_shards_total in
      subset shard_ids expected_ids && subset expected_ids shard_ids

  unfoldable pub initialize_with : PeerId → Map PeerId Sid → Memory
  initialize_with local_id distribution = record {
    local_storage = [];
    to_distribute = [];
    currently_assembled = [];
    distribution = distribution;
    data_known_locations = [];
    local_id = local_id;
  }

  abbrev pub announce : PeerId → Map PeerId Sid → Output × Bool → Output × Start
  announce local_id distribution (o, false) = (o, stopped)
  announce local_id distribution (o, true) = (o, started (initialize_with local_id distribution))

  -- The branch of `InEvent::Initialize`.
  unfoldable pub on_initialize : PeerId → List (PeerId × Sid) → Output → Output × Start
  unfolding verify_distribution initialize_with send
  on_initialize local_id pairs o =
      let distribution = collect_into [] pairs in
      if verify_distribution distribution
      then announce local_id distribution (send initialized o)
      else (o, waiting)

  -- One round of the loop: every other request is ignored.
  unfoldable pub round : PeerId → Wake → Output → Output × Start
  unfolding on_initialize
  round local_id (input none) o = (o, stopped)
  round local_id (input (some (initialize pairs))) o = on_initialize local_id pairs o
  round local_id (input (some e)) o = (o, waiting)
  round local_id (read none) o = (o, stopped)
  round local_id (read (some _)) o = (o, waiting)
  round local_id (write none) o = (o, stopped)
  round local_id (write (some _)) o = (o, waiting)

  -- The loop of `run`, over the wakes so far; the wakes that are left go to the memory that
  -- started.
  unfoldable pub run : PeerId → List Wake → Output → Output × Start × List Wake
  run local_id [] o = (o, waiting, [])
  run local_id (wake ∷ wakes) o =
      let (o', next) = round local_id wake o in
      elim next [
        | waiting ↦ run local_id wakes o'
        | stopped ↦ (o', stopped, wakes)
        | started m ↦ (o', started m, wakes)
      ]
