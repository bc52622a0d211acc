-- ===== src/Types.antt =====
-- src/types.rs: identifiers, the units of data, and hashes. Bytes are numbers below 256, and the
-- sizes are those of the default build.
mod Xor
mod Tests
use the_swarm.Common.{ℕ, ◌*◌, ◌<◌, ◌≡◌, List, [], ◌∷◌, length}
pub use Xor.{Hash, hash_bytes, bitxor_refs, bitxor_owned, bitxor_owned-refs}

abbrev pub Vid : Type 0
Vid = ℕ

abbrev pub Sid : Type 0
Sid = ℕ

-- A number stands for a peer id, which the program only compares.
abbrev pub PeerId : Type 0
PeerId = ℕ

abbrev pub shard_bytes_number : ℕ
shard_bytes_number = 4

abbrev pub data_shards_count : ℕ
data_shards_count = 2

abbrev pub Shard : Type 0
Shard = List ℕ

abbrev pub Data : Type 0
Data = List ℕ

abbrev pub AllBytes : List ℕ → Type 0
AllBytes [] = Unit {0}
AllBytes (b ∷ bytes) = (b < 256) × AllBytes bytes

-- The array lengths that the Rust types carry, and the bytes in them.
abbrev pub IsShard : Shard → Type 0
IsShard s = (length s ≡ shard_bytes_number) × AllBytes s

abbrev pub IsData : Data → Type 0
IsData d = (length d ≡ shard_bytes_number * data_shards_count) × AllBytes d
