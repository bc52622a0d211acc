-- ===== src/Encoding/ReedSolomon/Tests.antt =====
-- src/encoding/reed_solomon.rs: runs of the wrapper over a small code.
use the_swarm.Common.{◌≡◌, refl, ℕ_discrete, [], ◌∷◌, some, arith}
use the_swarm.Common.Map.{Map, nat_key, get, insert, collect_into, Distinct}
use the_swarm.Common.Result.{done, failed}
use the_swarm.Types.{Sid, Shard, Data, IsData}
use the_swarm.Encoding.ReedSolomon.{encode, decode, reed_solomon, wrong_shard_id}
use the_swarm.Encoding.ReedSolomon.RoundTrip.{decode-encode}
use the_swarm.Encoding.ReedSolomon.Sample.{sample_code, sample_code-IsErasureCode}

abbrev pub sample_data : Data
sample_data = 1 ∷ 2 ∷ 3 ∷ 4 ∷ 5 ∷ 6 ∷ 7 ∷ 8 ∷ []

pub sample_data-IsData : IsData sample_data
sample_data-IsData = (
  refl,
  (
    omega arith,
    (
      omega arith,
      (omega arith, (omega arith, (omega arith, (omega arith, (omega arith, (omega arith, tt)))))),
    ),
  ),
)

abbrev pub shard0 : Shard
shard0 = 1 ∷ 2 ∷ 3 ∷ 4 ∷ []

abbrev pub shard1 : Shard
shard1 = 5 ∷ 6 ∷ 7 ∷ 8 ∷ []

abbrev pub shard2 : Shard
shard2 = 6 ∷ 8 ∷ 10 ∷ 12 ∷ []

abbrev pub sample_shards : Map Sid Shard
sample_shards = (0, shard0) ∷ (1, shard1) ∷ (2, shard2) ∷ []

abbrev last_two : Map Sid Shard
last_two = (2, shard2) ∷ (1, shard1) ∷ []

pub encode_sample : encode sample_code sample_data ≡ done sample_shards
unfolding encode collect_into insert ℕ_discrete
encode_sample = refl

decode_one : decode sample_code ((1, shard1) ∷ []) ≡ failed reed_solomon
unfolding decode
decode_one = refl

decode_out_of_range :
    decode sample_code ((1, shard1) ∷ (2, shard2) ∷ (3, shard0) ∷ []) ≡ failed wrong_shard_id
unfolding decode
decode_out_of_range = refl

last_two-subset : (j : Sid) (s : Shard) → get last_two j ≡ some s → get sample_shards j ≡ some s
unfolding get
last_two-subset j s e = ground arith

last_two-Distinct : Distinct last_two
last_two-Distinct = ((omega arith, tt), (tt, tt))

decode-encode_example : decode sample_code last_two ≡ done sample_data
decode-encode_example =
    decode-encode sample_code sample_code-IsErasureCode refl sample_data sample_shards last_two
      sample_data-IsData encode_sample last_two-Distinct last_two-subset (omega arith)
