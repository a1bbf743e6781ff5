-- ===== src/Base/Int.antt =====
-- Signed integers over the native numbers, and the arithmetic of an i64 on them.
use Prim.Native.Nat.{ℕ, suc, ◌+◌, ◌-◌, ◌*◌, ◌/◌, ◌%◌, ◌^◌, ◌≤◌, ◌<◌}
use mathlib.Core.Path.{◌≡◌, refl}
use mathlib.Core.Logic.{◌⊎◌, inl, inr}
use mathlib.Core.Bool.{Bool}
use native.Mathlib.Omega.{arith}
use wasabi.Base.Compare.{ltb, leb, if◌then◌else◌}

-- `negsuc n` is -(n + 1).
pub data ℤ : Type 0 where
  pos : ℕ → ℤ
  negsuc : ℕ → ℤ

abbrev pub pos_part : ℤ → ℕ
pos_part (pos n) = n
pos_part (negsuc n) = 0

abbrev pub neg_part : ℤ → ℕ
neg_part (pos n) = 0
neg_part (negsuc n) = suc n

-- a - b, as an integer.
abbrev pub sub_ℕ : ℕ → ℕ → ℤ
sub_ℕ a b = if leb b a then pos (a - b) else negsuc (b - a - 1)

infix 50 ◌≤ℤ◌
abbrev pub ◌≤ℤ◌ : ℤ → ℤ → Type 0
a ≤ℤ b = pos_part a + neg_part b ≤ pos_part b + neg_part a

abbrev pub ltb_ℤ : ℤ → ℤ → Bool
ltb_ℤ a b = ltb (pos_part a + neg_part b) (pos_part b + neg_part a)

abbrev pub leb_ℤ : ℤ → ℤ → Bool
leb_ℤ a b = leb (pos_part a + neg_part b) (pos_part b + neg_part a)

-- An integer of 64 bits, from the difference of two numbers: the bits, read as two's complement.
unfoldable pub wrap64 : ℕ → ℕ → ℤ
wrap64 a b =
    let low = (a + 2 ^ 64 - b % 2 ^ 64) % 2 ^ 64 in
    if ltb low (2 ^ 63) then pos low else negsuc (2 ^ 64 - 1 - low)

unfoldable pub add64 : ℤ → ℤ → ℤ
add64 a b = wrap64 (pos_part a + pos_part b) (neg_part a + neg_part b)

unfoldable pub sub64 : ℤ → ℤ → ℤ
sub64 a b = wrap64 (pos_part a + neg_part b) (neg_part a + pos_part b)

unfoldable pub mul64 : ℤ → ℤ → ℤ
mul64 a b =
    wrap64 (pos_part a * pos_part b + neg_part a * neg_part b)
      (pos_part a * neg_part b + neg_part a * pos_part b)

unfoldable pub min_ℤ : ℤ → ℤ → ℤ
min_ℤ a b = if leb_ℤ a b then a else b

unfoldable pub max_ℤ : ℤ → ℤ → ℤ
max_ℤ a b = if leb_ℤ b a then a else b

-- Without overflow, a result has the parts of the exact one.
pub wrap64_parts :
    (a b : ℕ)
    → a < 2 ^ 63 + b
    → b < 2 ^ 63 + a
    → pos_part (wrap64 a b) + b ≡ neg_part (wrap64 a b) + a
unfolding wrap64
wrap64_parts a b h k = ground arith

pub wrap64_nonneg : (a b : ℕ) → b ≤ a → a < 2 ^ 63 + b → wrap64 a b ≡ pos (a - b)
unfolding wrap64
wrap64_nonneg a b h k = ground arith

-- One of the two parts is 0.
pub one_part : (a : ℤ) → (pos_part a ≡ 0) ⊎ (neg_part a ≡ 0)
one_part (pos n) = inr refl
one_part (negsuc n) = inl refl

-- The division of an i64 by a positive one, which rounds towards zero.
unfoldable pub quot64 : ℤ → ℤ → ℤ
quot64 (pos n) b = pos (n / pos_part b)
quot64 (negsuc n) b = sub_ℕ 0 (suc n / pos_part b)
