-- ===== src/Util/Pow2.antt =====
-- `round_up_to_nearest_pow2` and `size_in_pages_from_bytes` round up, to the least such value.
use wasabi.Base.{
  ℕ, zero, suc, ◌+◌, ◌-◌, ◌*◌, ◌/◌, ◌%◌, ◌^◌, ◌≤◌, ◌<◌, ◌≡◌, refl, ◌⊎◌, inl, inr, ==_iff,
}
use wasabi.Base.{
  arith, ◌==◌, Bool-cases, ok, err, ok_or, calc_out_of_range, lt→ltb, le→ltb, ap, ◌∙◌,
}
use wasabi.Util.{u64_mod, page_size, bit_length, leading_zeros, checked_shl}
use wasabi.Util.{round_up_to_nearest_pow2, size_in_pages_from_bytes}
use native.Mathlib.Nat.{pow-suc, pow-le-pow_right}
use native.Mathlib.Decide.{dec_le, dec_lt}

bit_length-zero : (digits : ℕ) → bit_length digits 0 ≡ 0
unfolding bit_length
bit_length-zero zero = refl
bit_length-zero (suc digits) = refl

-- `x` lies below the power, and the power is at most twice `x`.
bit_length_bounds :
    (digits x : ℕ)
    → x < 2 ^ digits
    → (x < 2 ^ bit_length digits x) × (0 < x → 2 ^ bit_length digits x ≤ 2 * x)
unfolding bit_length
bit_length_bounds zero x h = (omega arith, λ p. absurd (omega arith))
bit_length_bounds (suc digits) x h =
    twice (bit_length_bounds digits (x / 2) (omega (arith, pow-suc 2 digits)))
  where
    one_digit : (y : ℕ) → y ≡ 0 → 2 ^ suc (bit_length digits y) ≡ 2
    one_digit y e = rw (e, bit_length-zero digits)

    twice :
        (x / 2 < 2 ^ bit_length digits (x / 2))
          × (0 < x / 2 → 2 ^ bit_length digits (x / 2) ≤ 2 * (x / 2))
        → (x < 2 ^ bit_length (suc digits) x) × (0 < x → 2 ^ bit_length (suc digits) x ≤ 2 * x)
    twice half = elim (Bool-cases (x == 0)) [
      | inl z ↦ rw (z, bit_length) (omega (arith, (==_iff x 0).0 z))
      | inr nz ↦
          rw (nz, bit_length)
            (
              omega (arith, half.0, pow-suc 2 (bit_length digits (x / 2))),
              λ p. elim (dec_lt 0 (x / 2)) [
                | yes q ↦ omega (arith, half.1 q, pow-suc 2 (bit_length digits (x / 2)))
                | no q ↦ omega (arith, p, one_digit (x / 2) (omega arith))
              ],
            )
    ]

bit_length-le : (digits e x : ℕ) → x < 2 ^ e → bit_length digits x ≤ e
unfolding bit_length
bit_length-le zero e x h = omega arith
bit_length-le (suc digits) zero x h = rw ((==_iff x 0).1 (omega arith), bit_length) (omega arith)
bit_length-le (suc digits) (suc e) x h = elim (Bool-cases (x == 0)) [
  | inl z ↦ rw (z, bit_length) (omega arith)
  | inr nz ↦
      rw (nz, bit_length)
        (omega (arith, bit_length-le digits e (x / 2) (omega (arith, pow-suc 2 e))))
]

bit_length_large : (x : ℕ) → x < 2 ^ 64 → 2 ^ 63 ≤ x → bit_length 64 x ≡ 64
bit_length_large x h k = elim (dec_le (bit_length 64 x) 63) [
  | yes small ↦
      absurd (omega (arith, bit_length_bounds 64 x h, pow-le-pow_right {n = 2} (omega arith) small))
  | no big ↦ omega (arith, bit_length-le 64 64 x h)
]

-- The shift count of the source, for a size and for 0, where `wrapping_sub` comes round.
shift_count :
    (v x : ℕ)
    → (v + u64_mod - 1) % u64_mod ≡ x
    → 64 - leading_zeros ((v + u64_mod - 1) % u64_mod) ≡ 64 - (64 - bit_length 64 x)
unfolding leading_zeros
shift_count v x e = rw e

shl_ok : (n k : ℕ) → n ≡ k → k ≤ 63 → ok_or (checked_shl 1 n) calc_out_of_range ≡ ok (2 ^ k)
unfolding checked_shl
shl_ok n k e small =
    rw (e, lt→ltb k 64 (omega arith))
      (ap ok (omega (arith, pow-le-pow_right {n = 2} (omega arith) small)))

shl_error : (n : ℕ) → 64 ≤ n → ok_or (checked_shl 1 n) calc_out_of_range ≡ err calc_out_of_range
unfolding checked_shl
shl_error n big = rw (le→ltb n 64 big)

-- For a size from 1 to `2 ^ 63`, `round_up_to_nearest_pow2` returns a power of two that is at
-- least the size and less than twice it, so it is the least one.
pub round_up_to_nearest_pow2_least :
    (v : ℕ)
    → 0 < v
    → v ≤ 2 ^ 63
    → (k : ℕ) × (round_up_to_nearest_pow2 v ≡ ok (2 ^ k)) × (v ≤ 2 ^ k) × (2 ^ k < 2 * v)
unfolding round_up_to_nearest_pow2
round_up_to_nearest_pow2_least v pos fits =
    (k, shl_ok _ k count small, omega (arith, bounds.0), least)
  where
    k : ℕ
    k = bit_length 64 (v - 1)

    bounds : (v - 1 < 2 ^ k) × (0 < v - 1 → 2 ^ k ≤ 2 * (v - 1))
    bounds = bit_length_bounds 64 (v - 1) (omega arith)

    least : 2 ^ k < 2 * v
    least = elim (dec_lt 0 (v - 1)) [
      | yes p ↦ omega (arith, bounds.1 p)
      | no p ↦ omega (
        arith,
        ap (λ (t : ℕ). 2 ^ bit_length 64 t) (none_left p),
        ap (λ (t : ℕ). 2 ^ t) (bit_length-zero 64),
      )
    ]
      where
        none_left : ¬ (0 < v - 1) → v - 1 ≡ 0
        none_left p = omega arith

    small : k ≤ 63
    small = bit_length-le 64 63 (v - 1) (omega arith)

    count : 64 - leading_zeros ((v + u64_mod - 1) % u64_mod) ≡ k
    count = shift_count v (v - 1) (omega arith) ∙ omega (arith, small)

-- For 0 and for every size past `2 ^ 63` the result is `CalcOutOfRange`.
pub round_up_to_nearest_pow2_error :
    (v : ℕ)
    → v < 2 ^ 64
    → (v ≡ 0) ⊎ (2 ^ 63 < v)
    → round_up_to_nearest_pow2 v ≡ err calc_out_of_range
unfolding round_up_to_nearest_pow2
round_up_to_nearest_pow2_error v h (inl z) =
    shl_error _
      (omega (arith, shift_count v (2 ^ 64 - 1) (omega arith), bit_length_large (2 ^ 64 - 1)))
round_up_to_nearest_pow2_error v h (inr big) =
    shl_error _ (omega (arith, shift_count v (v - 1) (omega arith), bit_length_large (v - 1)))

-- The pages of a size hold it, and one page less would not, unless the sum wraps.
pub size_in_pages_tight :
    (size : ℕ)
    → size + page_size ≤ 2 ^ 64
    → (size ≤ size_in_pages_from_bytes size * page_size)
      × (size_in_pages_from_bytes size * page_size < size + page_size)
unfolding size_in_pages_from_bytes
size_in_pages_tight size h = omega arith
