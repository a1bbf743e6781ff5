-- ===== src/Util/Fields.antt =====
-- What `extract_bits` reads: the bits of a field, but never more than 63 of them.
use wasabi.Base.{ℕ, ◌-◌, ◌/◌, ◌%◌, ◌^◌, ◌≤◌, ◌<◌, ◌≡◌, refl, min, arith, sym, true, ◌∙◌}
use wasabi.Base.{ltb, lt→ltb, le→ltb}
use wasabi.Base.Bits.{bit_and_mask}
use wasabi.Util.{checked_shr, extract_bits}
use native.Mathlib.Nat.{pow-le-pow_right, div-eq_of_lt, mod-le, lt_of_lt_of_le}
use native.Mathlib.Decide.{dec_lt}
use mathlib.Core.Option

-- A shift past the width reads 0, which is also the quotient.
shifted_lem :
    (value shift : ℕ)
    → value < 2 ^ 64
    → Option.get_or (checked_shr value shift) 0 ≡ value / 2 ^ shift
unfolding checked_shr
shifted_lem value shift h = elim (dec_lt shift 64) [
  | yes p ↦ rw (lt→ltb shift 64 p) refl
  | no p ↦ rw (le→ltb shift 64 (omega arith)) (
      sym (
        div-eq_of_lt
          (lt_of_lt_of_le h (pow-le-pow_right {n = 2} (omega arith) {i = 64} (omega arith)))))
]

-- `extract_bits` on a value of the type is the field of `width` bits at `shift`, where a width
-- past 63 counts as 63. The shift is a `u32`.
pub extract_bits_lem :
    (bits value shift width : ℕ)
    → bits ≤ 64
    → value < 2 ^ bits
    → shift < 2 ^ 32
    → extract_bits bits value shift width ≡ value / 2 ^ shift % 2 ^ min 63 width
unfolding extract_bits
extract_bits_lem bits value shift width fits in_range small =
    rw
      (
        shift_lem,
        shifted_lem value shift wide,
        bit_and_mask (min 63 width) (value / 2 ^ shift),
        below,
      )
      refl
  where
    wide : value < 2 ^ 64
    wide = omega (arith, pow-le-pow_right {n = 2} (omega arith) fits)

    shift_lem : shift % 2 ^ 32 ≡ shift
    shift_lem = omega arith

    below : ltb (value / 2 ^ shift % 2 ^ min 63 width) (2 ^ bits) ≡ true
    below = lt→ltb _ _ (grind (arith, mod-le (value / 2 ^ shift) (2 ^ min 63 width)))

-- The whole of a 64-bit value cannot be read: when bit 63 is set it is lost.
pub extract_bits_loses_top :
    (value : ℕ) → value < 2 ^ 64 → 2 ^ 63 ≤ value → extract_bits 64 value 0 64 ≡ value - 2 ^ 63
extract_bits_loses_top value h top =
    extract_bits_lem 64 value 0 64 (omega arith) h (omega arith) ∙ omega arith
