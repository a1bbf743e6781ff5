-- ===== src/Graphics/Flush.antt =====
-- Sheet::flush_area of noli/src/sheet.rs, over an area that contains the sheet.
use wasabi.Base.{◌+◌, ◌≡◌, refl, ap, ◌∙◌, arith, some, ok}
use wasabi.Base.Int.{
  ℤ, pos, negsuc, pos_part, neg_part, ◌≤ℤ◌, add64, sub64, min_ℤ, max_ℤ, wrap64_parts, wrap64_nonneg,
}
use wasabi.Graphics.{range_intersection, Rect, rect_new, rect_intersection}
use wasabi.Graphics.Intersect.{IsSide, IsFrame, side, frame_ranges_lem}
use wasabi.Graphics.Sheet.{Sheet, sheet_rect, flush, flush_area}

-- Two integers with the same parts are one.
same_parts : (a b : ℤ) → a ≤ℤ b → b ≤ℤ a → a ≡ b
same_parts (pos m) (pos n) p q = ap pos (omega (arith, p, q))
same_parts (pos m) (negsuc n) p q = ground (arith, p, q)
same_parts (negsuc m) (pos n) p q = ground (arith, p, q)
same_parts (negsuc m) (negsuc n) p q = ap negsuc (omega (arith, p, q))

max_lem : (a b : ℤ) → b ≤ℤ a → max_ℤ a b ≡ a
unfolding max_ℤ
max_lem a b p = ground arith

min_lem : (a b : ℤ) → a ≤ℤ b → min_ℤ a b ≡ a
unfolding min_ℤ
min_lem a b p = ground arith

sub64_self : (a : ℤ) → sub64 a a ≡ pos 0
unfolding sub64
sub64_self a =
    wrap64_nonneg (pos_part a + neg_part a) (neg_part a + pos_part a) (omega arith) (omega arith)
    ∙ ap pos (omega arith)

-- A number of pixels, as an integer.
size-pos : {a u : ℤ} → IsSide a u → pos (pos_part u) ≡ u
size-pos {u = pos n} s = refl
size-pos {u = negsuc n} s = ground (arith, s.nonneg)

from_start : {a u : ℤ} → IsSide a u → IsSide (pos 0) u
from_start s = record {
  nonneg = s.nonneg;
  some_points = s.some_points;
  bounded = omega (arith, s.bounded);
  low = omega arith;
}

sub64-add64 : {a u : ℤ} → IsSide a u → sub64 (add64 a u) a ≡ u
unfolding sub64 add64
sub64-add64 {a = a} {u = u} s =
    let parts =
      wrap64_parts (pos_part a + pos_part u) (neg_part a + neg_part u) (omega (arith, s.bounded))
        (omega (arith, s.nonneg, s.low, s.some_points)) in
    wrap64_nonneg (pos_part (add64 a u) + neg_part a) (neg_part (add64 a u) + pos_part a)
      (omega (arith, parts, s.nonneg)) (omega (arith, parts, s.nonneg, s.bounded))
    ∙ ap pos (omega (arith, parts, s.nonneg))
    ∙ size-pos s

add64-zero : {a u : ℤ} → IsSide a u → add64 (pos 0) u ≡ u
unfolding add64
add64-zero {a = a} {u = u} s =
    wrap64_nonneg (0 + pos_part u) (0 + neg_part u) (omega (arith, s.nonneg))
      (omega (arith, s.bounded))
    ∙ ap pos (omega (arith, s.nonneg))
    ∙ size-pos s

rect_new_lem :
    (x y : ℤ) {a b u v : ℤ}
    → IsSide a u
    → IsSide b v
    → rect_new x y u v ≡ some (record { x = x; y = y; w = u; h = v })
unfolding rect_new
rect_new_lem x y s t = ground (arith, s.nonneg, t.nonneg)

-- A range within another is their intersection.
range_lem :
    (a u b v : ℤ)
    → IsSide a u
    → b ≤ℤ a
    → add64 a u ≤ℤ add64 b v
    → range_intersection
        (record { start = a; end = add64 a u })
        (record { start = b; end = add64 b v })
      ≡ some (record { start = a; end = add64 a u })
unfolding range_intersection
range_lem a u b v s p q = rw (max_lem a b p, min_lem (add64 a u) (add64 b v) q) (side s)

-- Whether the second rectangle contains the first, by their corners.
pub record IsWithin (r g : Rect) : Type 0 where
  pub left : g.x ≤ℤ r.x
  pub right : add64 r.x r.w ≤ℤ add64 g.x g.w
  pub top : g.y ≤ℤ r.y
  pub bottom : add64 r.y r.h ≤ℤ add64 g.y g.h

rect_lem : (r g : Rect) → IsFrame r → IsFrame g → IsWithin r g → rect_intersection r g ≡ ok (some r)
unfolding rect_intersection
rect_lem r g one two h =
    rw
      (
        frame_ranges_lem r one,
        frame_ranges_lem g two,
        range_lem r.x r.w g.x g.w one.0 h.left h.right,
        range_lem r.y r.h g.y g.h one.1 h.top h.bottom,
        sub64-add64 one.0,
        sub64-add64 one.1,
      )
      refl

abbrev pub frame : Sheet → Rect
frame s = record { x = s.x; y = s.y; w = s.bitmap.width; h = s.bitmap.height }

-- For a sheet that is not empty, whose corners are i64 values, and an area that contains it (also with
-- i64 corners), flush_area sends the same points in the same order as flush, with the same result.
pub flush_area-flush :
    (s : Sheet) (g : Rect)
    → IsFrame (frame s)
    → IsFrame g
    → IsWithin (frame s) g
    → flush_area g s ≡ flush s
unfolding flush_area flush sheet_rect
flush_area-flush s g one two h =
    rw
      (
        rect_new_lem s.x s.y one.0 one.1,
        rect_lem (frame s) g one two h,
        sub64_self s.x,
        sub64_self s.y,
        rect_new_lem (pos 0) (pos 0) one.0 one.1,
        frame_ranges_lem (record { x = pos 0; y = pos 0; w = s.bitmap.width; h = s.bitmap.height })
            (from_start one.0, from_start one.1),
        add64-zero one.0,
        add64-zero one.1,
      )
      refl
