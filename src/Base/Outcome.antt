-- ===== src/Base/Outcome.antt =====
-- `core::result::Result` with the error values of os/src/error.rs and noli/src/error.rs, and a
-- third case for a Rust panic (index out of range, failed assertion, overflow check).
use mathlib.Core.Path.{◌≡◌, refl}
use mathlib.Core.Logic.{◌≢◌, ◌⊎◌, inl, inr}
use Prim.Native.String.{String}
use mathlib.Core.Bool.{Bool, true, false}
use mathlib.Core.Option.{Option, none, some}

pub data Error : Type 0 where
  failed : String → Error
  graphics_out_of_range : Error
  calc_out_of_range : Error
  page_not_found : Error
  try_from_int_error : Error
  lock_failed : Error

pub data Result {ℓ} (A : Type ℓ) : Type ℓ where
  ok : A → Result A
  err : Error → Result A
  panic : Result A

infixl 5 ◌>>=◌ ◌>>◌
abbrev pub ◌>>=◌ {ℓ κ} : {A : Type ℓ} {B : Type κ} → Result A → (A → Result B) → Result B
ok a >>= f = f a
err e >>= f = err e
panic >>= f = panic

abbrev pub ◌>>◌ {ℓ κ} : {A : Type ℓ} {B : Type κ} → Result A → Result B → Result B
m >> k = m >>= λ _. k

-- `if !b { return Err(e) }`
abbrev pub ensure : Bool → Error → Result (Unit {0})
ensure true e = ok tt
ensure false e = err e

-- `assert!(b)`, and every check that the language itself makes
abbrev pub assert : Bool → Result (Unit {0})
assert true = ok tt
assert false = panic

-- `o.ok_or(e)?`
abbrev pub ok_or {ℓ} : {A : Type ℓ} → Option A → Error → Result A
ok_or none e = err e
ok_or (some a) e = ok a

pub Result-cases {ℓ} :
    {A : Type ℓ} (out : Result A)
    → ((value : A) × (out ≡ ok value)) ⊎ ((failure : Error) × (out ≡ err failure)) ⊎ (out ≡ panic)
Result-cases (ok value) = inl (value, refl)
Result-cases (err failure) = inr (inl (failure, refl))
Result-cases panic = inr (inr refl)

-- Where no step panics, the sequence does not.
pub >>=-ne-panic {ℓ κ} :
    {A : Type ℓ} {B : Type κ} (m : Result A) (f : A → Result B)
    → m ≢ panic
    → ((a : A) → f a ≢ panic)
    → (m >>= f) ≢ panic
>>=-ne-panic (ok a) f h k = k a
>>=-ne-panic (err e) f h k = cc
>>=-ne-panic panic f h k = absurd (h refl)

pub ensure-ne-panic : (b : Bool) (e : Error) → ensure b e ≢ panic
ensure-ne-panic true e = cc
ensure-ne-panic false e = cc

pub ok_or-ne-panic {ℓ} : {A : Type ℓ} (o : Option A) (e : Error) → ok_or o e ≢ panic
ok_or-ne-panic none e = cc
ok_or-ne-panic (some a) e = cc
