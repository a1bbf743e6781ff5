-- ===== src/Loader/Bounds.antt =====
-- The range of a program in memory contains each of its segments.
use native.Mathlib.Nat.{pow-suc, one-le-pow, pow-le-pow_right, mod-lt}
use wasabi.Base.{
  ℕ, zero, suc, ◌+◌, ◌-◌, ◌*◌, ◌%◌, ◌^◌, ◌≤◌, ◌<◌, ◌≡◌, ap, ◌∙◌, sym, subst, arith, List, [], ◌∷◌,
  min, max, bit_and, length,
}
use wasabi.Base.Bits.{bit_and_clear, double_pow}
use wasabi.Loader.Memory.{AddressRange, add64, sub64}
use wasabi.Loader.Headers.{SegmentHeader}
use wasabi.Loader.Image.{align_mask, aligned_bounds, app_range}

-- A segment whose bytes the file has, and whose memory, rounded up, ends below `2 ^ 64`.
pub record IsLoadable (bytes : List ℕ) (s : SegmentHeader) : Type 0 where
  pub align_bits : ℕ
  pub align_bound : align_bits < 64
  pub align_lem : s.align ≡ 2 ^ align_bits
  pub some_memory : 0 < s.vsize
  pub fits_memory : s.fsize ≤ s.vsize
  pub fits_space : s.vaddr + s.vsize + s.align < 2 ^ 64
  pub fits_file : s.offset + s.fsize ≤ length bytes
  pub offset_bound : s.offset + s.fsize < 2 ^ 64

abbrev pub AllLoadable : List ℕ → List SegmentHeader → Type 0
AllLoadable bytes [] = Unit
AllLoadable bytes (s ∷ segments) = IsLoadable bytes s × AllLoadable bytes segments

-- All segments lie in the range.
abbrev pub AllWithin : AddressRange → List SegmentHeader → Type 0
AllWithin r [] = Unit
AllWithin r (s ∷ segments) =
    (r.start ≤ s.vaddr) × (s.vaddr + s.vsize ≤ r.end) × AllWithin r segments

pow_split : (w k : ℕ) → 2 ^ w * 2 ^ k ≡ 2 ^ (w + k)
pow_split w zero = omega (arith, ap (λ (t : ℕ). 2 ^ t) (let e : w + 0 ≡ w = omega arith in e))
pow_split w (suc k) = omega (
  arith,
  double_pow (2 ^ w) k,
  pow_split w k,
  pow-suc 2 (w + k),
  ap (λ (t : ℕ). 2 ^ t) (let e : w + suc k ≡ suc (w + k) = omega arith in e),
)

sub_mul : (p q : ℕ) → (p - 1) * q ≡ p * q - q
sub_mul zero q = omega arith
sub_mul (suc p) q = omega (arith, ap (λ (t : ℕ). t * q) (let e : suc p - 1 ≡ p = omega arith in e))

full : (k : ℕ) → k < 64 → 2 ^ (64 - k) * 2 ^ k ≡ 2 ^ 64
full k h = pow_split (64 - k) k ∙ ap (λ (t : ℕ). 2 ^ t) (let e : 64 - k + k ≡ 64 = omega arith in e)

module _ (k : ℕ) (h : k < 64) where
  positive : 1 ≤ 2 ^ k
  positive = one-le-pow k 2 (omega arith)

  small : 2 ^ k < 2 ^ 64
  small = omega (arith, pow-le-pow_right {n = 2} (omega arith) {i = k} {j = 63} (omega arith))

  mask_lem : align_mask (2 ^ k) ≡ (2 ^ (64 - k) - 1) * 2 ^ k
  mask_lem = omega (arith, sub_mul (2 ^ (64 - k)) (2 ^ k), full k h, positive, small)

  clear_lem : (a : ℕ) → a < 2 ^ 64 → bit_and a (align_mask (2 ^ k)) ≡ a - a % 2 ^ k
  clear_lem a b = ap (bit_and a) mask_lem ∙ bit_and_clear k (64 - k) a (omega (arith, full k h))

  top_lem :
      (v z : ℕ)
      → v + z + 2 ^ k < 2 ^ 64
      → (v + z ≤ bit_and (add64 (add64 v z) (sub64 (2 ^ k) 1)) (align_mask (2 ^ k)))
        × (bit_and (add64 (add64 v z) (sub64 (2 ^ k) 1)) (align_mask (2 ^ k)) < 2 ^ 64)
  top_lem v z fits =
      let top : add64 (add64 v z) (sub64 (2 ^ k) 1) ≡ v + z + 2 ^ k - 1 =
        omega (arith, positive, small) in
      rw top (
        omega (
          arith,
          clear_lem (v + z + 2 ^ k - 1) (omega arith),
          mod-lt (v + z + 2 ^ k - 1) positive,
          positive,
        ))

-- The bounds of a segment contain it.
module _ {bytes : List ℕ} {s : SegmentHeader} (l : IsLoadable bytes s) where
  bounds_within :
      ((aligned_bounds s).0 ≤ s.vaddr)
      × (s.vaddr + s.vsize ≤ (aligned_bounds s).1)
      × ((aligned_bounds s).1 < 2 ^ 64)
  unfolding aligned_bounds
  bounds_within =
      let fits : s.vaddr + s.vsize + 2 ^ l.align_bits < 2 ^ 64 =
        omega (arith, l.fits_space, l.align_lem) in
      let low = clear_lem l.align_bits l.align_bound s.vaddr (omega (arith, fits)) in
      let high = top_lem l.align_bits l.align_bound s.vaddr s.vsize fits in
      subst
        (λ a.
          (bit_and s.vaddr (align_mask a) ≤ s.vaddr)
          × (s.vaddr + s.vsize ≤ bit_and (add64 (add64 s.vaddr s.vsize) (sub64 a 1)) (align_mask a))
          × (bit_and (add64 (add64 s.vaddr s.vsize) (sub64 a 1)) (align_mask a) < 2 ^ 64))
        (sym l.align_lem) (omega (arith, low), high.0, high.1)

pub app_range_bounds :
    (bytes : List ℕ) (from to : ℕ) (segments : List SegmentHeader)
    → AllLoadable bytes segments
    → to < 2 ^ 64
    → ((app_range (from, to) segments).start ≤ from)
      × (to ≤ (app_range (from, to) segments).end)
      × ((app_range (from, to) segments).end < 2 ^ 64)
      × AllWithin (app_range (from, to) segments) segments
unfolding app_range
app_range_bounds bytes from to [] l h = (omega arith, omega arith, h, tt)
app_range_bounds bytes from to (s ∷ segments) (l, ls) h =
    let (low, high, top) = bounds_within l in
    let (a, b, c, d) =
      app_range_bounds bytes (min from (aligned_bounds s).0) (max to (aligned_bounds s).1) segments
        ls (omega (arith, top)) in
    (omega (arith, a), omega (arith, b), c, (omega (arith, a, low), omega (arith, b, high), d))
