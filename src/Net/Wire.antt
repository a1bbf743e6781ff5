-- ===== src/Net/Wire.antt =====
-- The fixed arrays of bytes that packets are made of, with their big-endian values, and readers
-- that take such a field from the front of a byte string.
use wasabi.Base.{ℕ, ◌+◌, ◌*◌, ◌/◌, ◌%◌, ◌^◌, ◌<◌, ◌≡◌, arith, List, [], ◌∷◌, Option, none, some}
use wasabi.Base.{Bool, ◌&&◌, ◌==◌}

-- `[u8; 2]`, `[u8; 4]` and `[u8; 6]`
pub record Bytes2 : Type 0 where
  pub b0 : ℕ
  pub b1 : ℕ

pub record Bytes4 : Type 0 where
  pub b0 : ℕ
  pub b1 : ℕ
  pub b2 : ℕ
  pub b3 : ℕ

pub record Bytes6 : Type 0 where
  pub b0 : ℕ
  pub b1 : ℕ
  pub b2 : ℕ
  pub b3 : ℕ
  pub b4 : ℕ
  pub b5 : ℕ

abbrev pub list2 : Bytes2 → List ℕ
list2 v = v.b0 ∷ v.b1 ∷ []

abbrev pub list4 : Bytes4 → List ℕ
list4 v = v.b0 ∷ v.b1 ∷ v.b2 ∷ v.b3 ∷ []

abbrev pub list6 : Bytes6 → List ℕ
list6 v = v.b0 ∷ v.b1 ∷ v.b2 ∷ v.b3 ∷ v.b4 ∷ v.b5 ∷ []

-- `u16::to_be_bytes`, `u16::from_be_bytes`, and the same for `u32`
unfoldable pub be16 : ℕ → Bytes2
be16 v = record { b0 = v / 256 % 256; b1 = v % 256 }

unfoldable pub from_be16 : Bytes2 → ℕ
from_be16 v = v.b0 * 256 + v.b1

unfoldable pub be32 : ℕ → Bytes4
be32 v = record { b0 = v / 256 ^ 3 % 256; b1 = v / 256 ^ 2 % 256; b2 = v / 256 % 256; b3 = v % 256 }

unfoldable pub from_be32 : Bytes4 → ℕ
from_be32 v = v.b0 * 256 ^ 3 + v.b1 * 256 ^ 2 + v.b2 * 256 + v.b3

pub from_be16-be16 : (v : ℕ) → v < 2 ^ 16 → from_be16 (be16 v) ≡ v
unfolding from_be16 be16
from_be16-be16 v h = omega arith

pub from_be32-be32 : (v : ℕ) → v < 2 ^ 32 → from_be32 (be32 v) ≡ v
unfolding from_be32 be32
from_be32-be32 v h = omega arith

abbrev pub eq2 : Bytes2 → Bytes2 → Bool
eq2 v w = v.b0 == w.b0 && v.b1 == w.b1

abbrev pub eq4 : Bytes4 → Bytes4 → Bool
eq4 v w = v.b0 == w.b0 && v.b1 == w.b1 && v.b2 == w.b2 && v.b3 == w.b3

-- What a reader returns: a value and the bytes behind it, or nothing if they are too few.
abbrev pub Reader : Type 0 → Type 0
Reader A = List ℕ → Option (A × List ℕ)

infixl 5 ◌>>=◌
abbrev pub ◌>>=◌ : {A B : Type 0} → Reader A → (A → Reader B) → Reader B
◌>>=◌ m f bytes = elim (m bytes) [ none ↦ none | some (a, rest) ↦ f a rest ]

abbrev pub return : {A : Type 0} → A → Reader A
return a bytes = some (a, bytes)

abbrev pub read1 : Reader ℕ
read1 [] = none
read1 (b0 ∷ rest) = some (b0, rest)

abbrev pub read2 : Reader Bytes2
read2 (b0 ∷ b1 ∷ rest) = some (record { b0 = b0; b1 = b1 }, rest)
read2 _ = none

abbrev pub read4 : Reader Bytes4
read4 (b0 ∷ b1 ∷ b2 ∷ b3 ∷ rest) = some (record { b0 = b0; b1 = b1; b2 = b2; b3 = b3 }, rest)
read4 _ = none

abbrev pub read6 : Reader Bytes6
read6 (b0 ∷ b1 ∷ b2 ∷ b3 ∷ b4 ∷ b5 ∷ rest) =
    some (record { b0 = b0; b1 = b1; b2 = b2; b3 = b3; b4 = b4; b5 = b5 }, rest)
read6 _ = none
