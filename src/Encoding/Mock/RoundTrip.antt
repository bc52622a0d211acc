-- ===== src/Encoding/Mock/RoundTrip.antt =====
-- src/encoding/mock.rs: encoding and decoding.
use the_swarm.Common.{ℕ, ◌≡◌, refl, ℕ_discrete, [], ◌∷◌}
use the_swarm.Common.Map.{nat_key, insert, collect_into}
use the_swarm.Common.Result.{done, failed}
use the_swarm.Encoding.ReedSolomon.{enumerate}
use the_swarm.Encoding.Mock.{
  MockEncodingSettings, not_enough_shards, chunks_exact, encode, insert_sorted, sort_by_key,
  flatten, decode,
}

-- With two shards in all, the eight bytes of a unit of data are encoded to the two halves, which
-- decode to the data in whichever order they are visited; either half alone is not enough.
pub decode-encode_mock :
    (settings : MockEncodingSettings) (a b c d e f g h : ℕ)
    → settings.data_shards_total ≡ 2
    → let first = a ∷ b ∷ c ∷ d ∷ [] in
      let second = e ∷ f ∷ g ∷ h ∷ [] in
      let bytes = a ∷ b ∷ c ∷ d ∷ e ∷ f ∷ g ∷ h ∷ [] in
      (encode settings bytes ≡ done ((0, first) ∷ (1, second) ∷ []))
      × (decode ((0, first) ∷ (1, second) ∷ []) ≡ done bytes)
      × (decode ((1, second) ∷ (0, first) ∷ []) ≡ done bytes)
      × (decode ((0, first) ∷ []) ≡ failed not_enough_shards)
      × (decode ((1, second) ∷ []) ≡ failed not_enough_shards)
unfolding encode chunks_exact enumerate collect_into insert decode sort_by_key insert_sorted flatten
    ℕ_discrete
decode-encode_mock settings a b c d e f g h two = (rw two refl, refl, refl, refl, refl)
