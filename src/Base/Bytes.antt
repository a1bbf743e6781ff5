-- ===== src/Base/Bytes.antt =====
-- Fixed-size integers as bytes, and the slices that Rust checks: `to_le_bytes`, `from_be_bytes`,
-- `data[a..b]`.
use Prim.Native.Nat.{ℕ, zero, suc, ◌+◌, ◌-◌, ◌*◌, ◌/◌, ◌%◌, ◌^◌, ◌<◌}
use mathlib.Core.Path.{◌≡◌, refl, ap, ap₂, ◌∙◌}
use mathlib.Core.Bool.{true, ◌&&◌}
use mathlib.Core.List.{List, [], ◌∷◌, ◌++◌}
use native.Mathlib.Omega.{arith}
use native.Mathlib.Nat.{pow-suc}
use wasabi.Base.Compare.{leb, if◌then◌else◌}
use wasabi.Base.Lists.{length, take, drop, length-append, take-append, drop-append}
use wasabi.Base.Outcome.{Result, ok, panic}

-- The low `n` bytes of a number, least significant first.
unfoldable pub to_le_bytes : ℕ → ℕ → List ℕ
to_le_bytes zero v = []
to_le_bytes (suc n) v = v % 256 ∷ to_le_bytes n (v / 256)

unfoldable pub from_le_bytes : List ℕ → ℕ
from_le_bytes [] = 0
from_le_bytes (b ∷ bs) = b + 256 * from_le_bytes bs

-- The low `n` bytes of a number, most significant first.
unfoldable pub to_be_bytes : ℕ → ℕ → List ℕ
to_be_bytes zero v = []
to_be_bytes (suc n) v = v / 256 ^ n % 256 ∷ to_be_bytes n v

from_be_acc : ℕ → List ℕ → ℕ
from_be_acc acc [] = acc
from_be_acc acc (b ∷ bs) = from_be_acc (acc * 256 + b) bs

unfoldable pub from_be_bytes : List ℕ → ℕ
unfolding from_be_acc
from_be_bytes bs = from_be_acc 0 bs

-- `data[from..to]`: it panics where the bounds are out of order or out of range.
unfoldable pub slice {ℓ} : {A : Type ℓ} → List A → ℕ → ℕ → Result (List A)
slice xs from to =
    if leb from to && leb to (length xs) then ok (take (to - from) (drop from xs)) else panic

pub length-to_le_bytes : (n v : ℕ) → length (to_le_bytes n v) ≡ n
unfolding to_le_bytes
length-to_le_bytes zero v = refl
length-to_le_bytes (suc n) v = ap suc (length-to_le_bytes n (v / 256))

pub length-to_be_bytes : (n v : ℕ) → length (to_be_bytes n v) ≡ n
unfolding to_be_bytes
length-to_be_bytes zero v = refl
length-to_be_bytes (suc n) v = ap suc (length-to_be_bytes n v)

pub from_le_bytes-to_le_bytes : (n v : ℕ) → v < 256 ^ n → from_le_bytes (to_le_bytes n v) ≡ v
unfolding to_le_bytes from_le_bytes
from_le_bytes-to_le_bytes zero v h = omega arith
from_le_bytes-to_le_bytes (suc n) v h =
    omega (arith, from_le_bytes-to_le_bytes n (v / 256) (omega (arith, pow-suc 256 n)))

pub to_be_bytes_two : (v : ℕ) → to_be_bytes 2 v ≡ v / 256 % 256 ∷ v % 256 ∷ []
unfolding to_be_bytes
to_be_bytes_two v = ap₂ (λ hi lo. hi ∷ lo ∷ []) (ap (λ t. t % 256) (omega arith)) (omega arith)

-- A part that stands between two others is the slice from the length of the first on.
pub slice-append {ℓ} :
    {A : Type ℓ} (xs ys zs : List A) (from to : ℕ)
    → from ≡ length xs
    → to ≡ from + length ys
    → slice (xs ++ (ys ++ zs)) from to ≡ ok ys
unfolding slice
slice-append xs ys zs from to hf ht = rw test (ap ok cut)
  where
    test : (leb from to && leb to (length (xs ++ (ys ++ zs)))) ≡ true
    test = ground (arith, length-append xs (ys ++ zs), length-append ys zs)

    count : to - from ≡ length ys
    count = omega arith

    cut : take (to - from) (drop from (xs ++ (ys ++ zs))) ≡ ys
    cut =
        ap₂ (λ a b. take a (drop b (xs ++ (ys ++ zs)))) count hf
        ∙ rw (drop-append xs (ys ++ zs)) (take-append ys zs)
