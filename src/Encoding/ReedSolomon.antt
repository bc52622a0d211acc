-- ===== src/Encoding/ReedSolomon.antt =====
-- src/encoding/reed_solomon.rs: `ReedSolomonWrapper`, over the erasure-coding crate's
-- `ReedSolomon`.
pub mod Slots
pub mod RoundTrip
pub mod Sample
pub mod Tests
use the_swarm.Common.{
  ℕ, zero, suc, ◌+◌, ◌*◌, ◌≡◌, ◌==◌, if◌then◌else◌, Option, none, some, List, [], ◌∷◌, ◌++◌, length,
  get_elem?, set, take, drop, replicate,
}
use the_swarm.Common.Map.{Map, nat_key, collect_into}
use the_swarm.Common.Result.{Attempt, done, failed, panicked, and_then, expect, or_fail}
use the_swarm.Types.{Sid, Shard, Data, shard_bytes_number, data_shards_count}

-- The crate's encoder. `none` is an error that a method returns.
pub record ErasureCode : Type 0 where
  pub data_shard_count : ℕ
  pub parity_shard_count : ℕ
  pub total_shard_count : ℕ
  pub encode : List Shard → Option (List Shard)
  pub reconstruct : List (Option (List ℕ)) → Option (List (Option (List ℕ)))

pub record Settings : Type 0 where
  pub data_shards_total : ℕ
  pub data_shards_sufficient : ℕ

pub data Error : Type 0 where
  reed_solomon wrong_shard_id : Error

infixl 5 ◌>>=◌ ◌>>◌
abbrev ◌>>=◌ : {A B : Type 0} → Attempt Error A → (A → Attempt Error B) → Attempt Error B
m >>= f = and_then m f

abbrev ◌>>◌ : {A B : Type 0} → Attempt Error A → Attempt Error B → Attempt Error B
m >> n = and_then m (λ _. n)

-- `data.chunks(n)`: the rounds left bound the number of chunks.
unfoldable pub chunks : ℕ → ℕ → List ℕ → List (List ℕ)
chunks zero n bytes = []
chunks (suc rounds) n [] = []
chunks (suc rounds) n (b ∷ bytes) = take n (b ∷ bytes) ∷ chunks rounds n (drop n (b ∷ bytes))

-- `Shard(slice.try_into().expect(..))` for each slice.
unfoldable pub to_shards : List (List ℕ) → Attempt Error (List Shard)
to_shards [] = done []
to_shards (slice ∷ slices) =
    let rest = to_shards slices in
    if length slice == shard_bytes_number
    then (rest >>= λ shards. done (slice ∷ shards))
    else panicked

abbrev pub assert : {A : Type 0} → ℕ → ℕ → A → Attempt Error A
assert m n a = if m == n then done a else panicked

unfoldable pub enumerate : ℕ → List Shard → List (Sid × Shard)
enumerate i [] = []
enumerate i (shard ∷ shards) = (i, shard) ∷ enumerate (suc i) shards

module _ (inner : ErasureCode) where
  unfoldable pub encode : Data → Attempt Error (Map Sid Shard)
  unfolding chunks to_shards enumerate
  encode bytes = do
    shards ← to_shards (chunks (length bytes) shard_bytes_number bytes)
    shards ← assert (length shards) data_shards_count shards
    let parity = replicate inner.parity_shard_count (replicate shard_bytes_number 0)
    shards ← or_fail (inner.encode (shards ++ parity)) reed_solomon
    done (collect_into [] (enumerate 0 shards))

  -- The loop that puts each shard at its position.
  unfoldable pub place_all :
      Map Sid Shard → List (Option (List ℕ)) → Attempt Error (List (Option (List ℕ)))
  place_all [] slots = done slots
  place_all ((index, shard) ∷ shards) slots = elim (get_elem? slots index) [
    | none ↦ failed wrong_shard_id
    | some _ ↦ place_all shards (set slots index (some shard))
  ]

  -- `option.unwrap()` of the first slots, flattened.
  unfoldable pub unwrap_all : List (Option (List ℕ)) → Attempt Error (List ℕ)
  unwrap_all [] = done []
  unwrap_all (slot ∷ slots) =
      let rest = unwrap_all slots in do bytes ← expect slot; more ← rest; done (bytes ++ more)

  unfoldable pub decode : Map Sid Shard → Attempt Error Data
  unfolding place_all unwrap_all
  decode shards = do
    slots ← place_all shards (replicate inner.total_shard_count none)
    slots ← or_fail (inner.reconstruct slots) reed_solomon
    bytes ← unwrap_all (take data_shards_count slots)
    assert (length bytes) (shard_bytes_number * data_shards_count) bytes

  abbrev pub settings : Settings
  settings = record {
    data_shards_total = inner.total_shard_count;
    data_shards_sufficient = inner.data_shard_count;
  }
