-- ===== src/Base/Digits.antt =====
-- The single binary digits of a word, and how the bitwise operations act on each.
use Prim.Native.Nat.{ℕ, zero, suc, ◌-◌, ◌/◌, ◌%◌, ◌^◌, ◌<◌, differ}
use Prim.Native.Nat.{bit_and, bit_or, bit_xor}
use mathlib.Core.Path.{◌≡◌, refl, ap, ◌∙◌}
use mathlib.Core.Bool.{Bool, true, false, ◌&&◌, ◌||◌, xor, not}
use native.Mathlib.Omega.{arith}
use native.Mathlib.Nat.{pow-suc}
use wasabi.Base.Compare.{◌==◌, ◌/=◌}
use wasabi.Base.Bits.{bit_and_step, bit_or_step, bit_xor_step, bit_and_mask}

-- The binary digit of `x` at place `i`.
abbrev pub testbit : ℕ → ℕ → Bool
testbit x zero = x % 2 == 1
testbit x (suc i) = testbit (x / 2) i

-- On two digits, what `bit_xor` computes in one place.
differ_digits :
    (r s : ℕ) → r < 2 → s < 2 → (differ r s < 2) × ((differ r s == 1) ≡ xor (r == 1) (s == 1))
unfolding xor
differ_digits zero zero p q = (omega arith, refl)
differ_digits zero (suc zero) p q = (omega arith, refl)
differ_digits (suc zero) zero p q = (omega arith, refl)
differ_digits (suc zero) (suc zero) p q = (omega arith, refl)
differ_digits zero (suc (suc s)) p q = absurd (omega arith)
differ_digits (suc zero) (suc (suc s)) p q = absurd (omega arith)
differ_digits (suc (suc r)) s p q = absurd (omega arith)

differ_mod :
    (x y : ℕ)
    → (differ (x % 2) (y % 2) < 2) × ((differ (x % 2) (y % 2) == 1) ≡ xor (x % 2 == 1) (y % 2 == 1))
differ_mod x y = differ_digits (x % 2) (y % 2) (omega arith) (omega arith)

-- A mask of one bit tells that bit.
pub testbit_mask : (x i : ℕ) → (bit_and x (2 ^ i) /= 0) ≡ testbit x i
testbit_mask x zero = ground (arith, bit_and_mask 1 x)
testbit_mask x (suc i) = ground (
  arith,
  bit_and_step x (2 ^ suc i),
  ap (λ (m : ℕ). bit_and (x / 2) m) half,
  pow-suc 2 i,
  testbit_mask (x / 2) i,
)
  where
    half : 2 ^ suc i / 2 ≡ 2 ^ i
    half = omega (arith, pow-suc 2 i)

pub testbit-bit_or : (x y i : ℕ) → testbit (bit_or x y) i ≡ (testbit x i || testbit y i)
testbit-bit_or x y zero = ground (arith, bit_or_step x y)
testbit-bit_or x y (suc i) =
    rw (let e : bit_or x y / 2 ≡ bit_or (x / 2) (y / 2) = omega (arith, bit_or_step x y) in e)
      (testbit-bit_or (x / 2) (y / 2) i)

pub testbit-bit_and : (x y i : ℕ) → testbit (bit_and x y) i ≡ (testbit x i && testbit y i)
testbit-bit_and x y zero = ground (arith, bit_and_step x y)
testbit-bit_and x y (suc i) =
    rw (let e : bit_and x y / 2 ≡ bit_and (x / 2) (y / 2) = omega (arith, bit_and_step x y) in e)
      (testbit-bit_and (x / 2) (y / 2) i)

pub testbit-bit_xor : (x y i : ℕ) → testbit (bit_xor x y) i ≡ xor (testbit x i) (testbit y i)
testbit-bit_xor x y zero =
    rw
      (let e : bit_xor x y % 2 ≡ differ (x % 2) (y % 2) =
          omega (arith, bit_xor_step x y, (differ_mod x y).0) in
        e)
      (differ_mod x y).1
testbit-bit_xor x y (suc i) =
    rw
      (let e : bit_xor x y / 2 ≡ bit_xor (x / 2) (y / 2) =
          omega (arith, bit_xor_step x y, (differ_mod x y).0) in
        e)
      (testbit-bit_xor (x / 2) (y / 2) i)

pub testbit-zero : (i : ℕ) → testbit 0 i ≡ false
testbit-zero zero = refl
testbit-zero (suc i) = testbit-zero i

pub testbit-pow : (i j : ℕ) → testbit (2 ^ i) j ≡ (i == j)
testbit-pow zero zero = refl
testbit-pow zero (suc j) = ground (arith, testbit-zero j)
testbit-pow (suc i) zero = ground (arith, pow-suc 2 i)
testbit-pow (suc i) (suc j) =
    rw (let e : 2 ^ suc i / 2 ≡ 2 ^ i = omega (arith, pow-suc 2 i) in e)
      (testbit-pow i j ∙ ground arith)

-- Some number below `count` fails a test, counted from 0.
fails : (ℕ → Bool) → ℕ → Bool
fails test zero = false
fails test (suc count) = fails test count || not (test count)

fails_none : (test : ℕ → Bool) (i count : ℕ) → i < count → fails test count ≡ false → test i ≡ true
unfolding fails
fails_none test i zero k none = absurd (omega arith)
fails_none test i (suc count) k none = ground (arith, fails_none test i count)

-- The 64 pairs of places in a byte, by evaluation.
complement_table :
    fails (λ i. not (fails (λ j. not (xor (testbit (255 - 2 ^ i) j) (not (i == j)))) 8)) 8 ≡ false
unfolding fails xor
complement_table = refl

refuted : (b : Bool) → not b ≡ true → b ≡ false
refuted true h = cc
refuted false h = refl

-- The complement of a byte with one bit has all the others.
pub testbit_complement : (i j : ℕ) → i < 8 → j < 8 → testbit (255 - 2 ^ i) j ≡ not (i == j)
unfolding xor
testbit_complement i j hi hj =
    agree _ _ (fails_none _ j 8 hj (refuted _ (fails_none _ i 8 hi complement_table)))
  where
    agree : (a b : Bool) → not (xor a b) ≡ true → a ≡ b
    agree true true h = refl
    agree false false h = refl
    agree true false h = cc
    agree false true h = cc
