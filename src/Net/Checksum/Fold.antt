-- ===== src/Net/Checksum/Fold.antt =====
-- The folding loop ends, and computes the sum in one's complement.
use wasabi.Base.{ℕ, suc, ◌+◌, ◌-◌, ◌/◌, ◌%◌, ◌^◌, ◌≤◌, ◌<◌, ◌≡◌, ap, arith, ◌∙◌}
use wasabi.Base.{bit_and, some, ◌==◌, Bool-cases, ==_iff, if◌then◌else◌, inl, inr}
use wasabi.Base.Bits.{bit_and_mask}
use wasabi.Net.Checksum.{fold_sum, fold_fuel}
use native.Mathlib.Decide.{dec_lt}

-- The value of a sum modulo 65535, where only 0 is represented by 0.
abbrev pub ones_complement : ℕ → ℕ
ones_complement sum = if sum == 0 then 0 else (sum - 1) % 65535 + 1

fold_once :
    (sum : ℕ)
    → sum < 2 ^ 32
    → (bit_and sum 0xffff + sum / 2 ^ 16) % 2 ^ 32 ≡ sum % 2 ^ 16 + sum / 2 ^ 16
fold_once sum h = omega (arith, bit_and_mask 16 sum)

ones_complement-fold :
    (sum : ℕ) → ones_complement (sum % 2 ^ 16 + sum / 2 ^ 16) ≡ ones_complement sum
ones_complement-fold sum = ground arith

fold_done : (fuel sum : ℕ) → sum < 2 ^ 16 → fold_sum (suc fuel) sum ≡ some (ones_complement sum)
unfolding fold_sum
fold_done fuel sum h =
    rw ((==_iff (sum / 2 ^ 16) 0).1 (omega arith), fold_sum) (ap some (ground arith))

fold_step :
    (fuel sum : ℕ)
    → 2 ^ 16 ≤ sum
    → sum < 2 ^ 32
    → fold_sum (suc fuel) sum ≡ fold_sum fuel (sum % 2 ^ 16 + sum / 2 ^ 16)
unfolding fold_sum
fold_step fuel sum h k = elim (Bool-cases (sum / 2 ^ 16 == 0)) [
  | inl z ↦ absurd (omega (arith, (==_iff (sum / 2 ^ 16) 0).0 z))
  | inr nz ↦ rw (nz, fold_sum) (ap (fold_sum fuel) (fold_once sum k))
]

-- The loop ends within three tests for every `u32`, with the one's complement value of the sum.
pub fold_sum_total : (sum : ℕ) → sum < 2 ^ 32 → fold_sum fold_fuel sum ≡ some (ones_complement sum)
fold_sum_total sum h = elim (dec_lt sum (2 ^ 16)) [
  | yes p ↦ fold_done 2 sum p
  | no p ↦
      fold_step 2 sum (omega arith) h
      ∙ second (sum % 2 ^ 16 + sum / 2 ^ 16) (omega arith)
      ∙ ap some (ones_complement-fold sum)
]
  where
    second : (t : ℕ) → t ≤ 131070 → fold_sum 2 t ≡ some (ones_complement t)
    second t k = elim (dec_lt t (2 ^ 16)) [
      | yes p ↦ fold_done 1 t p
      | no p ↦
          fold_step 1 t (omega arith) (omega arith)
          ∙ fold_done 0 (t % 2 ^ 16 + t / 2 ^ 16) (omega arith)
          ∙ ap some (ones_complement-fold t)
    ]
