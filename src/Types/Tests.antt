-- ===== src/Types/Tests.antt =====
-- src/types.rs: a run of `^`.
use the_swarm.Common.{◌≡◌, refl, some, replicate}
use the_swarm.Types.Xor.{Hash, bitxor_refs, bitxor_owned, bitxor_owned-refs}

abbrev left : Hash
left = record { inner = replicate 64 12 }

abbrev right : Hash
right = record { inner = replicate 64 10 }

bitxor_owned-refs_example : bitxor_owned left right ≡ some (bitxor_refs left right)
bitxor_owned-refs_example = bitxor_owned-refs left right refl refl
