-- ===== src/Base/Bits.antt =====
-- Shifts, masks and single bits of unsigned words, as arithmetic at every width.
use Prim.Native.Nat.{ℕ, zero, suc, ◌+◌, ◌-◌, ◌*◌, ◌/◌, ◌%◌, ◌^◌, ◌≤◌, ◌<◌, min, max}
use Prim.Native.Nat.{bit_and, bit_or, bit_xor, differ, digits, bitwise}
use Prim.Native.Nat.{bit_and-bitwise, bit_or-bitwise, bit_xor-bitwise}
use mathlib.Core.Path.{◌≡◌, refl, ap, ap₂, sym, ◌∙◌}
use native.Mathlib.Omega.{arith}
use native.Mathlib.Nat.{
  pow-suc, one-le-pow, mod-add-div', div-add-mod, div-div-eq-div-mul, mod-lt, mod-eq_of_lt,
  div-add-mod', div-lt_iff_lt-mul, add-zero,
}

-- A bitwise operation computes one digit from the last digits, and the rest by halves.
module _ (z : ℕ → ℕ) (f : ℕ → ℕ → ℕ) where
  enough_fuel :
      (x y more less : ℕ) → x ≤ less → x ≤ more → digits z f more x y ≡ digits z f less x y
  enough_fuel zero y zero zero u v = refl
  enough_fuel zero y zero (suc less) u v = refl
  enough_fuel zero y (suc more) zero u v = refl
  enough_fuel zero y (suc more) (suc less) u v = refl
  enough_fuel (suc x) y zero less u v = absurd (omega arith)
  enough_fuel (suc x) y (suc more) zero u v = absurd (omega arith)
  enough_fuel (suc x) y (suc more) (suc less) u v =
      ap (λ (t : ℕ). t * 2 + f (suc x % 2) (y % 2))
        (enough_fuel (suc x / 2) (y / 2) more less (omega arith) (omega arith))

  module _ (op : ℕ → ℕ → ℕ) (agrees : (x y : ℕ) → op x y ≡ bitwise z f x y)
      (last : (y : ℕ) → z y ≡ z (y / 2) * 2 + f 0 (y % 2)) where
    one_digit : (x y : ℕ) → bitwise z f x y ≡ f (x % 2) (y % 2) + 2 * bitwise z f (x / 2) (y / 2)
    one_digit zero y = omega (arith, last y)
    one_digit (suc x) y =
        omega (arith, enough_fuel (suc x / 2) (y / 2) x (suc x / 2) (omega arith) (omega arith))

    op_digit : (x y : ℕ) → op x y ≡ op (x / 2) (y / 2) * 2 + f (x % 2) (y % 2)
    op_digit x y = omega (arith, agrees x y, agrees (x / 2) (y / 2), one_digit x y)

pub bit_and_step : (x y : ℕ) → bit_and x y ≡ bit_and (x / 2) (y / 2) * 2 + min (x % 2) (y % 2)
bit_and_step = op_digit (λ _. 0) min bit_and bit_and-bitwise (λ y. omega arith)

pub bit_or_step : (x y : ℕ) → bit_or x y ≡ bit_or (x / 2) (y / 2) * 2 + max (x % 2) (y % 2)
bit_or_step = op_digit (λ y. y) max bit_or bit_or-bitwise (λ y. omega arith)

pub bit_xor_step : (x y : ℕ) → bit_xor x y ≡ bit_xor (x / 2) (y / 2) * 2 + differ (x % 2) (y % 2)
bit_xor_step = op_digit (λ y. y) differ bit_xor bit_xor-bitwise (λ y. omega arith)

zero-bit_and : (b : ℕ) → bit_and 0 b ≡ 0
zero-bit_and b = bit_and-bitwise 0 b

zero-bit_or : (b : ℕ) → bit_or 0 b ≡ b
zero-bit_or b = bit_or-bitwise 0 b

bit_or-zero_below : (n a : ℕ) → a ≤ n → bit_or a 0 ≡ a
bit_or-zero_below n zero h = refl
bit_or-zero_below zero (suc a) h = absurd (omega arith)
bit_or-zero_below (suc n) (suc a) h =
    omega (arith, bit_or_step (suc a) 0, bit_or-zero_below n (suc a / 2) (omega arith))

pub bit_or-zero : (a : ℕ) → bit_or a 0 ≡ a
bit_or-zero a = bit_or-zero_below a a (omega arith)

bit_and-zero_below : (n a : ℕ) → a ≤ n → bit_and a 0 ≡ 0
bit_and-zero_below n zero h = refl
bit_and-zero_below zero (suc a) h = absurd (omega arith)
bit_and-zero_below (suc n) (suc a) h =
    omega (arith, bit_and_step (suc a) 0, bit_and-zero_below n (suc a / 2) (omega arith))

pub bit_and-zero : (a : ℕ) → bit_and a 0 ≡ 0
bit_and-zero a = bit_and-zero_below a a (omega arith)

pub double_pow : (q k : ℕ) → q * 2 ^ suc k ≡ 2 * (q * 2 ^ k)
double_pow q k = omega (arith, ap (λ (t : ℕ). q * t) (pow-suc 2 k))

-- A field shifted above `k` free bits, joined with a value of `k` bits, is their sum.
pub bit_or_join : (k q r : ℕ) → r < 2 ^ k → bit_or (q * 2 ^ k) r ≡ q * 2 ^ k + r
bit_or_join zero q r fits = ground (arith, bit_or-zero q)
bit_or_join (suc k) q r fits = ground (
  arith,
  bit_or_step (q * 2 ^ suc k) r,
  double_pow q k,
  bit_or_join k q (r / 2) (omega (arith, pow-suc 2 k)),
)

-- Masking a number split at bit `k` by a mask split there too masks both parts.
pub bit_and_split :
    (k q m r s : ℕ)
    → r < 2 ^ k
    → s < 2 ^ k
    → bit_and (q * 2 ^ k + r) (m * 2 ^ k + s) ≡ bit_and q m * 2 ^ k + bit_and r s
bit_and_split zero q m r s hr hs = ground (
  arith,
  zero-bit_and 0,
  ap (λ (t : ℕ). bit_and t (m * 2 ^ 0 + s)) (let e : q * 2 ^ 0 + r ≡ q = omega arith in e),
  ap (λ (t : ℕ). bit_and q t) (let e : m * 2 ^ 0 + s ≡ m = omega arith in e),
)
bit_and_split (suc k) q m r s hr hs = ground (
  arith,
  bit_and_step (q * 2 ^ suc k + r) (m * 2 ^ suc k + s),
  bit_and_step r s,
  double_pow q k,
  double_pow m k,
  double_pow (bit_and q m) k,
  pow-suc 2 k,
  bit_and_split k q m (r / 2) (s / 2),
)

-- A mask of `k` low bits is the remainder by `2 ^ k`.
pub bit_and_mask : (k a : ℕ) → bit_and a (2 ^ k - 1) ≡ a % 2 ^ k
bit_and_mask zero a = ground (arith, bit_and-zero a)
bit_and_mask (suc k) a = omega (
  arith,
  bit_and_step a (2 ^ suc k - 1),
  ap (λ (m : ℕ). bit_and (a / 2) m) half,
  bit_and_mask k (a / 2),
  double,
  one-le-pow k 2 (omega arith),
  quotient,
  mod-add-div' (a / 2) (2 ^ k),
  mod-lt (a / 2) (one-le-pow k 2 (omega arith)),
)
  where
    double : 2 ^ suc k ≡ 2 * 2 ^ k
    double = omega (arith, pow-suc 2 k)

    half : (2 ^ suc k - 1) / 2 ≡ 2 ^ k - 1
    half = omega (arith, double, one-le-pow k 2 (omega arith))

    quotient : a % 2 ^ suc k ≡ 2 * (a / 2 % 2 ^ k) + a % 2
    quotient =
        ap (λ (m : ℕ). a % m) double
        ∙ omega (
          arith,
          div-add-mod a (2 * 2 ^ k),
          div-add-mod (a / 2) (2 ^ k),
          ap (λ (t : ℕ). 2 ^ k * t) (div-div-eq-div-mul a 2 (2 ^ k)),
        )

-- Clearing the `k` low bits of a number of `w + k` bits, by the mask of the upper `w` bits.
pub bit_and_clear :
    (k w a : ℕ) → a < 2 ^ w * 2 ^ k → bit_and a ((2 ^ w - 1) * 2 ^ k) ≡ a - a % 2 ^ k
bit_and_clear k w a h = omega (
  arith,
  ap₂ bit_and (sym (div-add-mod' a (2 ^ k))) (sym (add-zero ((2 ^ w - 1) * 2 ^ k))),
  bit_and_split k (a / 2 ^ k) (2 ^ w - 1) (a % 2 ^ k) 0 (mod-lt a positive) positive,
  bit_and-zero (a % 2 ^ k),
  ap (λ (t : ℕ). t * 2 ^ k)
      (bit_and_mask w (a / 2 ^ k) ∙ mod-eq_of_lt ((div-lt_iff_lt-mul positive).1 h)),
  div-add-mod' a (2 ^ k),
)
  where
    positive : 0 < 2 ^ k
    positive = one-le-pow k 2 (omega arith)
