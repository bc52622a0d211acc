-- ===== src/Encoding/Mock.antt =====
-- src/encoding/mock.rs: `MockEncoding`, whose shards are the parts of the data themselves.
pub mod RoundTrip
mod Tests
use the_swarm.Common.{
  ℕ, zero, suc, ◌*◌, ◌≡◌, refl, sym, ap, ◌∙◌, Option, none, some, List, [], ◌∷◌, ◌++◌, ◌==◌, arith,
  leb, if◌then◌else◌, length,
}
use the_swarm.Common.Map.{Map, nat_key, collect_into, insert}
use the_swarm.Common.Result.{Attempt, done, failed, panicked}
use the_swarm.Encoding.ReedSolomon.{enumerate}
use the_swarm.Types.{Sid, PeerId, Shard, Data, IsData, shard_bytes_number, data_shards_count}

pub record MockEncodingSettings : Type 0 where
  pub data_shards_total : ℕ
  pub data_shards_sufficient : ℕ
  pub locally_assigned_id : Sid
  pub self_id : PeerId

pub data Error : Type 0 where
  not_enough_shards : Error

-- `chunks_exact(4)`: what is left at the end is not visited.
unfoldable pub chunks_exact : List ℕ → List Shard
chunks_exact [] = []
chunks_exact (a ∷ []) = []
chunks_exact (a ∷ b ∷ []) = []
chunks_exact (a ∷ b ∷ c ∷ []) = []
chunks_exact (a ∷ b ∷ c ∷ d ∷ rest) = (a ∷ b ∷ c ∷ d ∷ []) ∷ chunks_exact rest

-- The `assert!` panics where the number of shards is another.
unfoldable pub encode : MockEncodingSettings → Data → Attempt Error (Map Sid Shard)
unfolding chunks_exact enumerate collect_into
encode settings bytes =
    let shards = collect_into [] (enumerate 0 (chunks_exact bytes)) in
    if length shards == settings.data_shards_total then done shards else panicked

-- `sort_by_key`, which keeps the order of equal keys.
unfoldable pub insert_sorted : Sid × Shard → List (Sid × Shard) → List (Sid × Shard)
insert_sorted x [] = x ∷ []
insert_sorted x (y ∷ ys) = if leb x.0 y.0 then x ∷ y ∷ ys else y ∷ insert_sorted x ys

unfoldable pub sort_by_key : List (Sid × Shard) → List (Sid × Shard)
unfolding insert_sorted
sort_by_key [] = []
sort_by_key (x ∷ xs) = insert_sorted x (sort_by_key xs)

unfoldable pub flatten : List (Sid × Shard) → List ℕ
flatten [] = []
flatten ((i, s) ∷ shards) = s ++ flatten shards

-- `try_into` an array of the size of the data.
unfoldable pub decode : Map Sid Shard → Attempt Error Data
unfolding sort_by_key flatten
decode shards =
    let arr = flatten (sort_by_key shards) in
    if length arr == shard_bytes_number * data_shards_count
    then done arr
    else failed not_enough_shards
