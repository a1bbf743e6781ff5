-- ===== src/Allocator/Fit.antt =====
-- `Header::provide` as a whole: when it provides, and what.
use wasabi.Base.{
  ℕ, ◌+◌, ◌-◌, ◌*◌, ◌/◌, ◌%◌, ◌^◌, ◌≤◌, ◌<◌, max, ◌≡◌, refl, ap, ◌∙◌, arith, none, some,
}
use wasabi.Base.{le→leb, subst, sym, bit_and, true, false, ◌⊎◌, inl, inr, Bool-cases, ok, leb}
use wasabi.Util.{u64_mod, round_up_to_nearest_pow2}
use wasabi.Util.Pow2.{round_up_to_nearest_pow2_least, round_up_to_nearest_pow2_error}
use wasabi.Allocator.{Header, Provided, provide, carve, place, sub, can_provide, header_size}
use wasabi.Allocator.Provide.{IsSound, Split, carve_lem, mask_lem, multiple}
use native.Mathlib.Decide.{dec_le, ℕ_discrete}
use native.Mathlib.Nat.{pow-le-pow_right, one-le-pow, div-add-mod', mod-lt, one-mul}

-- A power of two, raised to 32 where it is less.
raised : (r : ℕ) → (t : ℕ) × (max (2 ^ r) header_size ≡ 2 ^ t) × (5 ≤ t) × (r ≤ t) × (t ≤ max r 5)
raised r = elim (dec_le r 5) [
  | yes p ↦
      (5, ground (arith, pow-le-pow_right {n = 2} (omega arith) p), omega arith, p, omega arith)
  | no p ↦ (
    r,
    ground (arith, pow-le-pow_right {n = 2} (omega arith) (let q : 5 ≤ r = omega arith in q)),
    omega arith,
    omega arith,
    omega arith,
  )
]

exponent-le : (r : ℕ) → 2 ^ r < 2 ^ 64 → r ≤ 63
exponent-le r h = elim (dec_le r 63) [
  | yes p ↦ p
  | no p ↦
      absurd (
        omega
          (arith, h, pow-le-pow_right {n = 2} (omega arith) (let q : 64 ≤ r = omega arith in q)))
]

-- The place of an object of `size` bytes in a region that has room for it.
module _ (h : Header) (size t i : ℕ) (s : IsSound h) (ht : 5 ≤ t) (hi : i ≤ t)
    (small : t ≤ 62) where
  place_lem :
      size + 96 + 2 ^ t ≤ h.size
      → (place h size (2 ^ t) % 32 ≡ 0)
        × (place h size (2 ^ t) % 2 ^ i ≡ 0)
        × (h.addr + 64 ≤ place h size (2 ^ t))
        × (place h size (2 ^ t) + size ≤ h.addr + h.size)
  unfolding place
  place_lem room = subst Good (sym at) (
    multiple q t 5 ht,
    multiple q t i hi,
    omega (arith, room, div-add-mod' e (2 ^ t), mod-lt e (one-le-pow t 2 (omega arith))),
    omega (arith, room, div-add-mod' e (2 ^ t)),
  )
    where
      e : ℕ
      e = h.addr + h.size - size

      q : ℕ
      q = e / 2 ^ t

      Good : ℕ → Type 0
      Good o = (o % 32 ≡ 0) × (o % 2 ^ i ≡ 0) × (h.addr + 64 ≤ o) × (o + size ≤ h.addr + h.size)

      at : place h size (2 ^ t) ≡ q * 2 ^ t
      at =
          ap (λ (n : ℕ). bit_and n (u64_mod - 1 - sub (2 ^ t) 1)) {y = e}
            (omega (arith, room, s.inside))
          ∙ mask_lem t e small (omega (arith, s.inside))

-- Why a region does not provide.
pub Declines : Header → ℕ → ℕ → Type 0
Declines h size align = (h.is_allocated ≡ true) ⊎ (size ≡ 0) ⊎ (h.size < 2 * size + align + 160)

weaken :
    {h : Header} {big size i : ℕ} {p : Provided} → size ≤ big → Split h big i p → Split h size i p
weaken le sp = record {
  object_aligned = sp.object_aligned;
  shrunk_start = sp.shrunk_start;
  shrunk_free = sp.shrunk_free;
  shrunk_sound = sp.shrunk_sound;
  pieces =
      let (a, rest, e, sa, al, at, ob, sz, tail) = sp.pieces in
      (a, rest, e, sa, al, at, ob, omega (arith, le, sz), tail);
}

-- The test that admits a size and an alignment, without wrapping.
can_provide_lem :
    (h : Header) (size align : ℕ)
    → size + 96 + align < 2 ^ 64
    → can_provide h size align ≡ leb (size + 96 + align) h.size
unfolding can_provide
can_provide_lem h size align k = ap (λ (n : ℕ). leb n h.size) (omega arith)

le→leb_false : {a b : ℕ} → ¬ (a ≤ b) → leb a b ≡ false
le→leb_false h = ground arith

provides :
    (h : Header) (size align rounded : ℕ) (p : Provided)
    → round_up_to_nearest_pow2 size ≡ ok rounded
    → h.is_allocated ≡ false
    → can_provide h (max rounded header_size) (max align header_size) ≡ true
    → carve h (max rounded header_size) (place h (max rounded header_size) (max align header_size))
      ≡ ok p
    → provide h size align ≡ ok (some p)
unfolding provide
provides h size align rounded p e n c k = rw (e, provide, c, k, n) refl

-- Carving for a size and an alignment that are powers of two raised to 32.
carve_raised :
    (h : Header) (r i : ℕ)
    → IsSound h
    → i ≤ 62
    → max (2 ^ r) header_size + 96 + max (2 ^ i) header_size ≤ h.size
    → (p : Provided) × (carve h
          (max (2 ^ r) header_size)
          (place h (max (2 ^ r) header_size) (max (2 ^ i) header_size))
        ≡ ok p)
      × Split h (max (2 ^ r) header_size) i p
carve_raised h r i s small room =
    let (u, eu, hu, _, _) = raised r in
    let (t, et, ht, hi, top) = raised i in
    let (d, d', low, high) =
      place_lem h (max (2 ^ r) header_size) t i s ht hi (omega arith) (omega (arith, room, et)) in
    subst
      (λ a.
        (p : Provided) × (carve h (max (2 ^ r) header_size) (place h (max (2 ^ r) header_size) a)
          ≡ ok p)
        × Split h (max (2 ^ r) header_size) i p)
      (sym et)
      (carve_lem h (max (2 ^ r) header_size) i (place h (max (2 ^ r) header_size) (2 ^ t)) s
        (omega (arith, eu, multiple 1 u 5 hu, one-mul (2 ^ u)), omega arith) (d, d') low high)

-- For a region that is sound, and a layout, whose size rounded up to its alignment stays below
-- `2 ^ 63`: `provide` does not panic; it splits the region, which was free, or it declines, and
-- then the region is taken, the size is 0, or the region is smaller than about twice the size.
pub provide_lem :
    (h : Header) (size i : ℕ)
    → IsSound h
    → i ≤ 62
    → size + 2 ^ i ≤ 2 ^ 63
    → ((provide h size (2 ^ i) ≡ ok none) × Declines h size (2 ^ i))
      ⊎ ((p : Provided) × (provide h size (2 ^ i) ≡ ok (some p))
          × (h.is_allocated ≡ false)
          × Split h size i p)
unfolding provide Declines
provide_lem h size i s small fits = elim (ℕ_discrete size 0) [
  | yes z ↦
      inl
        (rw (round_up_to_nearest_pow2_error size (omega arith) (inl z), provide) refl, inr (inl z))
  | no nz ↦ rounded (round_up_to_nearest_pow2_least size (omega arith) (omega arith))
]
  where
    rounded :
        (r : ℕ) × (round_up_to_nearest_pow2 size ≡ ok (2 ^ r)) × (size ≤ 2 ^ r) × (2 ^ r < 2 * size)
        → ((provide h size (2 ^ i) ≡ ok none) × Declines h size (2 ^ i))
          ⊎ ((p : Provided) × (provide h size (2 ^ i) ≡ ok (some p))
              × (h.is_allocated ≡ false)
              × Split h size i p)
    rounded (r, e, le, lt) = elim (Bool-cases h.is_allocated) [
      | inl y ↦ inl (rw (e, provide, y) refl, inl y)
      | inr n ↦ elim (dec_le (max (2 ^ r) header_size + 96 + max (2 ^ i) header_size) h.size) [
        | no p ↦ inl (rw (e, provide, test ∙ le→leb_false p, n) refl, inr (inr (omega arith)))
        | yes p ↦
            let (q, c, split) = carve_raised h r i s small p in
            inr (
              q,
              provides h size (2 ^ i) (2 ^ r) q e n (test ∙ le→leb _ _ p) c,
              n,
              weaken (omega (arith, le)) split,
            )
      ]
    ]
      where
        test :
            can_provide h (max (2 ^ r) header_size) (max (2 ^ i) header_size)
            ≡ leb (max (2 ^ r) header_size + 96 + max (2 ^ i) header_size) h.size
        test = can_provide_lem h (max (2 ^ r) header_size) (max (2 ^ i) header_size) (
            omega (
              arith,
              fits,
              pow-le-pow_right {n = 2} (omega arith)
                  (exponent-le r (omega (arith, lt, fits, one-le-pow i 2 (omega arith)))),
              pow-le-pow_right {n = 2} (omega arith) small,
            ))
