-- ===== src/Encoding/Mock/Tests.antt =====
-- src/encoding/mock.rs: a run of the encoding.
use the_swarm.Common.{◌≡◌, refl, [], ◌∷◌}
use the_swarm.Common.Result.{done, failed}
use the_swarm.Encoding.Mock.{MockEncodingSettings, not_enough_shards, encode, decode}
use the_swarm.Encoding.Mock.RoundTrip.{decode-encode_mock}

abbrev settings : MockEncodingSettings
settings = record {
  data_shards_total = 2;
  data_shards_sufficient = 2;
  locally_assigned_id = 0;
  self_id = 5;
}

decode-encode_mock_example :
    (encode settings (1 ∷ 2 ∷ 3 ∷ 4 ∷ 5 ∷ 6 ∷ 7 ∷ 8 ∷ [])
      ≡ done ((0, 1 ∷ 2 ∷ 3 ∷ 4 ∷ []) ∷ (1, 5 ∷ 6 ∷ 7 ∷ 8 ∷ []) ∷ []))
    × (decode ((0, 1 ∷ 2 ∷ 3 ∷ 4 ∷ []) ∷ (1, 5 ∷ 6 ∷ 7 ∷ 8 ∷ []) ∷ [])
        ≡ done (1 ∷ 2 ∷ 3 ∷ 4 ∷ 5 ∷ 6 ∷ 7 ∷ 8 ∷ []))
    × (decode ((1, 5 ∷ 6 ∷ 7 ∷ 8 ∷ []) ∷ (0, 1 ∷ 2 ∷ 3 ∷ 4 ∷ []) ∷ [])
        ≡ done (1 ∷ 2 ∷ 3 ∷ 4 ∷ 5 ∷ 6 ∷ 7 ∷ 8 ∷ []))
    × (decode ((0, 1 ∷ 2 ∷ 3 ∷ 4 ∷ []) ∷ []) ≡ failed not_enough_shards)
    × (decode ((1, 5 ∷ 6 ∷ 7 ∷ 8 ∷ []) ∷ []) ≡ failed not_enough_shards)
decode-encode_mock_example = decode-encode_mock settings 1 2 3 4 5 6 7 8 refl
