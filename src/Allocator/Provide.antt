-- ===== src/Allocator/Provide.antt =====
-- `Header::provide`: where the object lies in the region, and what is left of the region.
use wasabi.Base.{
  ℕ, ◌+◌, ◌-◌, ◌*◌, ◌/◌, ◌%◌, ◌^◌, ◌≤◌, ◌<◌, ◌≡◌, refl, ap, ◌∙◌, arith, List, [], ◌∷◌, ok,
}
use native.Mathlib.Decide.{dec_lt}
use wasabi.Base.{true, false, ◌⊎◌, inl, inr, zero, suc, bit_and, sym}
use wasabi.Base.Bits.{bit_and_clear}
use native.Mathlib.Nat.{
  pow-suc, one-mul, mul_right_comm, mul_assoc, mul-mod_left, div-add-mod', one-le-pow,
  pow-le-pow_right, add-mul,
}
use wasabi.Util.{u64_mod}
use wasabi.Allocator.{Header, Provided, carve, sub}

-- The object and its headers when the region ends right behind the object, and when it does not.
carve_tight :
    (h : Header) (size o : ℕ)
    → h.addr + h.size < 2 ^ 64
    → h.addr + 64 ≤ o
    → o + size ≡ h.addr + h.size
    → carve h size o
      ≡ ok (record {
        shrunk = record h { size = o - 32 - h.addr };
        behind = record { addr = o - 32; size = size + 32; is_allocated = true } ∷ [];
        object = o;
      })
unfolding carve
carve_tight h size o fits low e = ground arith

carve_padded :
    (h : Header) (size o : ℕ)
    → h.addr + h.size < 2 ^ 64
    → h.addr + 64 ≤ o
    → o + size < h.addr + h.size
    → carve h size o
      ≡ ok (record {
        shrunk = record h { size = o - 32 - h.addr };
        behind =
            record { addr = o - 32; size = size + 32; is_allocated = true }
            ∷ record { addr = o + size; size = h.addr + h.size - (o + size); is_allocated = false }
            ∷ [];
        object = o;
      })
unfolding carve
carve_padded h size o fits low e = ground arith

-- Regions: 32-byte aligned, of at least 32 bytes, and inside the address space.
pub record IsSound (h : Header) : Type 0 where
  pub aligned : (h.addr % 32 ≡ 0) × (h.size % 32 ≡ 0)
  pub room : 32 ≤ h.size
  pub inside : h.addr + h.size < 2 ^ 64

pow2-add : (a b : ℕ) → 2 ^ (a + b) ≡ 2 ^ a * 2 ^ b
pow2-add zero b = ap (λ (n : ℕ). 2 ^ n) {y = b} (omega arith) ∙ sym (one-mul (2 ^ b))
pow2-add (suc a) b = omega (
  arith,
  pow-suc 2 a,
  pow-suc 2 (a + b),
  pow2-add a b,
  mul_right_comm (2 ^ a) 2 (2 ^ b),
  ap (λ (n : ℕ). n * 2 ^ b) (pow-suc 2 a),
  ap (λ (n : ℕ). 2 ^ n) (let e : suc a + b ≡ suc (a + b) = omega arith in e),
)

-- A multiple of a power of two is one of every lower power.
pub multiple : (q m i : ℕ) → i ≤ m → q * 2 ^ m % 2 ^ i ≡ 0
multiple q m i h =
    ap (λ (n : ℕ). q * 2 ^ n % 2 ^ i) (let e : m ≡ (m - i) + i = omega arith in e)
    ∙ ap (λ (n : ℕ). q * n % 2 ^ i) (pow2-add (m - i) i)
    ∙ ap (λ (n : ℕ). n % 2 ^ i) (sym (mul_assoc q (2 ^ (m - i)) (2 ^ i)))
    ∙ mul-mod_left (q * 2 ^ (m - i)) (2 ^ i)

-- The mask `!(align - 1)` clears the low bits.
pub mask_lem :
    (k a : ℕ) → k ≤ 62 → a < 2 ^ 64 → bit_and a (u64_mod - 1 - sub (2 ^ k) 1) ≡ a / 2 ^ k * 2 ^ k
mask_lem k a small h =
    ap (bit_and a) mask
    ∙ bit_and_clear k (64 - k) a (omega (arith, h, whole))
    ∙ omega (arith, div-add-mod' a (2 ^ k))
  where
    whole : 2 ^ (64 - k) * 2 ^ k ≡ 2 ^ 64
    whole = sym (pow2-add (64 - k) k) ∙ ap (λ (n : ℕ). 2 ^ n) {y = 64} (omega arith)

    mask : u64_mod - 1 - sub (2 ^ k) 1 ≡ (2 ^ (64 - k) - 1) * 2 ^ k
    mask = omega (
      arith,
      whole,
      one-le-pow k 2 (omega arith),
      pow-le-pow_right {n = 2} (omega arith) small,
      one-le-pow (64 - k) 2 (omega arith),
      add-mul (2 ^ (64 - k) - 1) 1 (2 ^ k),
      ap (λ (n : ℕ). n * 2 ^ k)
          (let e : 2 ^ (64 - k) - 1 + 1 ≡ 2 ^ (64 - k) =
              omega (arith, one-le-pow (64 - k) 2 (omega arith)) in
            e),
    )

-- What `provide` makes of a region: the pieces tile it, in order.
pub record Split (h : Header) (size k : ℕ) (p : Provided) : Type 0 where
  pub object_aligned : p.object % 2 ^ k ≡ 0
  pub shrunk_start : p.shrunk.addr ≡ h.addr
  pub shrunk_free : p.shrunk.is_allocated ≡ h.is_allocated
  pub shrunk_sound : IsSound p.shrunk
  pub pieces :
      (a : Header) × (rest : List Header) × (p.behind ≡ a ∷ rest)
      × IsSound a
      × (a.is_allocated ≡ true)
      × (a.addr ≡ h.addr + p.shrunk.size)
      × (p.object ≡ a.addr + 32)
      × (size + 32 ≤ a.size)
      × (((rest ≡ []) × (a.addr + a.size ≡ h.addr + h.size))
          ⊎ ((b : Header) × (rest ≡ b ∷ [])
              × IsSound b
              × (b.addr ≡ a.addr + a.size)
              × (b.addr + b.size ≡ h.addr + h.size)))

-- Carving at an address that is a multiple of 32, for a size that is too.
pub carve_lem :
    (h : Header) (size k o : ℕ)
    → IsSound h
    → (size % 32 ≡ 0) × (32 ≤ size)
    → (o % 32 ≡ 0) × (o % 2 ^ k ≡ 0)
    → h.addr + 64 ≤ o
    → o + size ≤ h.addr + h.size
    → (p : Provided) × (carve h size o ≡ ok p) × Split h size k p
carve_lem h size k o s (m, big) (d, d') low high = elim (dec_lt (o + size) (h.addr + h.size)) [
  | no p ↦ (
    _,
    carve_tight h size o s.inside low (omega arith),
    record {
      object_aligned = d';
      shrunk_start = refl;
      shrunk_free = refl;
      shrunk_sound = record {
        aligned = omega (arith, s.aligned);
        room = omega (arith, s.aligned);
        inside = omega (arith, s.inside);
      };
      pieces = (
        _,
        _,
        refl,
        record { aligned = omega arith; room = omega arith; inside = omega (arith, s.inside) },
        refl,
        omega arith,
        omega arith,
        omega arith,
        inl (refl, omega arith),
      );
    },
  )
  | yes p ↦ (
    _,
    carve_padded h size o s.inside low p,
    record {
      object_aligned = d';
      shrunk_start = refl;
      shrunk_free = refl;
      shrunk_sound = record {
        aligned = omega (arith, s.aligned);
        room = omega (arith, s.aligned);
        inside = omega (arith, s.inside);
      };
      pieces = (
        _,
        _,
        refl,
        record { aligned = omega arith; room = omega arith; inside = omega (arith, s.inside) },
        refl,
        omega arith,
        omega arith,
        omega arith,
        inr (
          _,
          refl,
          record {
            aligned = omega (arith, s.aligned);
            room = omega (arith, s.aligned);
            inside = omega (arith, s.inside);
          },
          omega arith,
          omega arith,
        ),
      );
    },
  )
]
