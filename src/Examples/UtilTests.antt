-- ===== src/Examples/UtilTests.antt =====
-- os/src/util.rs at concrete inputs.
use wasabi.Base.{ℕ, ◌*◌, ◌^◌, ◌≤◌, ◌<◌, ◌≡◌, refl, arith, ok, err, calc_out_of_range}
use wasabi.Util.{extract_bits, round_up_to_nearest_pow2, leading_zeros, bit_length}
use wasabi.Util.Pow2.{round_up_to_nearest_pow2_least}

-- `extract_bits_tests` and `round_up_to_nearest_pow2_tests`
extract_bits_tests :
    (extract_bits 32 (30 * 2 ^ 24) 24 8 ≡ 30)
    × (extract_bits 64 0x123 4 8 ≡ 0x12)
    × (extract_bits 64 0x1234_5678_1234_5678 60 4 ≡ 1)
    × (extract_bits 64 0x1234_5678_1234_5678 64 0 ≡ 0)
    × (extract_bits 64 0x1234_5678_1234_5678 0 65 ≡ 0x1234_5678_1234_5678)
unfolding extract_bits
extract_bits_tests = (refl, refl, refl, refl, refl)

round_up_to_nearest_pow2_tests :
    (round_up_to_nearest_pow2 0 ≡ err calc_out_of_range)
    × (round_up_to_nearest_pow2 1 ≡ ok 1)
    × (round_up_to_nearest_pow2 5 ≡ ok 8)
    × (round_up_to_nearest_pow2 9 ≡ ok 16)
unfolding round_up_to_nearest_pow2 leading_zeros bit_length
round_up_to_nearest_pow2_tests = (refl, refl, refl, refl)

round_up_to_nearest_pow2_least_example :
    (k : ℕ) × (round_up_to_nearest_pow2 1234 ≡ ok (2 ^ k)) × (1234 ≤ 2 ^ k) × (2 ^ k < 2 * 1234)
round_up_to_nearest_pow2_least_example =
    round_up_to_nearest_pow2_least 1234 (omega arith) (omega arith)
