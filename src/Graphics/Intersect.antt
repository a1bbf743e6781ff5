-- ===== src/Graphics/Intersect.antt =====
-- The intersection of two rectangles covers the points that both cover.
use wasabi.Base.{
  ℕ, ◌+◌, ◌-◌, ◌≤◌, ◌<◌, ◌^◌, ◌≡◌, refl, ap, ap₂, ◌∙◌, arith, Bool, true, false, ◌&&◌, ltb, Option,
  none, some, ok, inl, inr, ltb→lt, sym, Option-cases,
}
use wasabi.Base.Int.{
  ℤ, pos, pos_part, neg_part, ◌≤ℤ◌, leb_ℤ, ltb_ℤ, add64, sub64, min_ℤ, max_ℤ, wrap64_parts,
  wrap64_nonneg, one_part,
}
use wasabi.Graphics.{
  ScalarRange, range_new, range_intersection, Rect, frame_ranges, rect_intersection, from_ranges,
}

-- Whether `p` is one of the `size` integers from `start` on, with no overflow.
abbrev pub within : ℤ → ℤ → ℤ → Bool
within start size p =
    leb_ℤ start p && ltb (pos_part p + neg_part start) (pos_part start + neg_part p + pos_part size)

abbrev pub covers : Rect → ℤ → ℤ → Bool
covers r p q = within r.x r.w p && within r.y r.h q

abbrev pub covers_some : Option Rect → ℤ → ℤ → Bool
covers_some none p q = false
covers_some (some r) p q = covers r p q

-- A side that is not empty and whose end is an i64.
pub record IsSide (start size : ℤ) : Type 0 where
  pub nonneg : neg_part size ≡ 0
  pub some_points : 0 < pos_part size
  pub bounded : pos_part start + pos_part size < 2 ^ 63
  pub low : neg_part start ≤ 2 ^ 63

abbrev pub IsFrame : Rect → Type 0
IsFrame r = IsSide r.x r.w × IsSide r.y r.h

between : ScalarRange → ℤ → Bool
between r p = leb_ℤ r.start p && ltb_ℤ p r.end

pub side :
    {start size : ℤ}
    → IsSide start size
    → range_new start (add64 start size) ≡ some (record { start = start; end = add64 start size })
unfolding range_new add64
side {start} {size} s =
    ground (arith, wrap64_parts (pos_part start + pos_part size) (neg_part start + neg_part size))

between-within :
    (start size : ℤ)
    → IsSide start size
    → (p : ℤ) → between (record { start = start; end = add64 start size }) p ≡ within start size p
unfolding between add64
between-within start size s p =
    ground (arith, wrap64_parts (pos_part start + pos_part size) (neg_part start + neg_part size))

abbrev between_some : Option ScalarRange → ℤ → Bool
between_some none p = false
between_some (some r) p = between r p

range_intersection-between :
    (r t : ScalarRange) (p : ℤ)
    → between_some (range_intersection r t) p ≡ (between r p && between t p)
unfolding range_intersection range_new min_ℤ max_ℤ between
range_intersection-between r t p = ground arith

-- A range within a side, as a start and a size.
module _ (a u : ℤ) (one : IsSide a u) (r : ScalarRange) (from : a ≤ℤ r.start)
    (to : r.end ≤ℤ add64 a u) (some_points : ltb_ℤ r.start r.end ≡ true) where
  abbrev up : ℕ
  up = pos_part r.end + neg_part r.start

  abbrev down : ℕ
  down = neg_part r.end + pos_part r.start

  end_parts :
      pos_part (add64 a u) + (neg_part a + neg_part u)
      ≡ neg_part (add64 a u) + (pos_part a + pos_part u)
  unfolding add64
  end_parts =
      wrap64_parts (pos_part a + pos_part u) (neg_part a + neg_part u) (omega (arith, one.bounded))
        (omega (arith, one.nonneg, one.low, one.some_points))

  size_lem : sub64 r.end r.start ≡ pos (up - down)
  unfolding sub64
  size_lem =
      wrap64_nonneg up down (omega (arith, ltb→lt _ _ some_points))
        (omega (arith, end_parts, one.nonneg, one.bounded, from, to))

  range-IsSide : IsSide r.start (sub64 r.end r.start)
  range-IsSide = rw size_lem (record {
    nonneg = refl;
    some_points = omega (arith, ltb→lt _ _ some_points);
    bounded = ground (arith, end_parts, ltb→lt _ _ some_points, one_part r.start, one_part r.end);
    low = ground (arith, one_part r.start);
  })

  range_points : (p : ℤ) → within r.start (sub64 r.end r.start) p ≡ between r p
  unfolding between
  range_points p = rw size_lem (ground (arith, ltb→lt _ _ some_points))

module _ (a u b v : ℤ) (one : IsSide a u) (two : IsSide b v) where
  abbrev both : Option ScalarRange
  both =
      range_intersection (record { start = a; end = add64 a u })
        (record { start = b; end = add64 b v })

  -- The points of the intersection, as points of the two sides.
  both_points : (p : ℤ) → between_some both p ≡ (within a u p && within b v p)
  both_points p =
      range_intersection-between (record { start = a; end = add64 a u })
        (record { start = b; end = add64 b v }) p
      ∙ ap₂ ◌&&◌ (between-within a u one p) (between-within b v two p)

  -- An intersection lies within the first side, and is not empty.
  both_range :
      (r : ScalarRange)
      → both ≡ some r
      → (a ≤ℤ r.start) × (r.end ≤ℤ add64 a u) × (ltb_ℤ r.start r.end ≡ true)
  unfolding range_intersection range_new min_ℤ max_ℤ
  both_range r e = ground arith

  both-IsSide :
      (r : ScalarRange)
      → both ≡ some r
      → IsSide r.start (sub64 r.end r.start)
        × ((p : ℤ) → within r.start (sub64 r.end r.start) p ≡ (within a u p && within b v p))
  both-IsSide r e =
      let (from, to, more) = both_range r e in
      (
        range-IsSide a u one r from to more,
        λ p.
            range_points a u one r from to more p
            ∙ sym (ap (λ o. between_some o p) e)
            ∙ both_points p,
      )

pub frame_ranges_lem :
    (r : Rect)
    → IsFrame r
    → frame_ranges r
      ≡ ok
          (record { start = r.x; end = add64 r.x r.w }, record { start = r.y; end = add64 r.y r.h })
unfolding frame_ranges
frame_ranges_lem r (sx, sy) = rw (side sx, side sy) refl

abbrev pub IsFrameSome : Option Rect → Type 0
IsFrameSome none = Unit
IsFrameSome (some s) = IsFrame s

shuffle : (a b c d : Bool) → ((a && b) && (c && d)) ≡ ((a && c) && (b && d))
shuffle a b c d = ground arith

-- What `from_ranges` gives, by its ranges on the two axes.
module _ (r t : Rect) (one : IsFrame r) (two : IsFrame t) where
  abbrev xs : Option ScalarRange
  xs = both r.x r.w t.x t.w one.0 two.0

  abbrev ys : Option ScalarRange
  ys = both r.y r.h t.y t.h one.1 two.1

  abbrev Good : Option Rect → Type 0
  Good o = IsFrameSome o × ((p q : ℤ) → covers_some o p q ≡ (covers r p q && covers t p q))

  no_column : (p q : ℤ) → xs ≡ none → false ≡ (covers r p q && covers t p q)
  no_column p q e =
      ground (arith, ap (λ o. between_some o p) e, both_points r.x r.w t.x t.w one.0 two.0 p)

  no_row : (p q : ℤ) → ys ≡ none → false ≡ (covers r p q && covers t p q)
  no_row p q e =
      ground (arith, ap (λ o. between_some o q) e, both_points r.y r.h t.y t.h one.1 two.1 q)

  from_ranges_lem : Good (from_ranges xs ys)
  from_ranges_lem = elim (Option-cases xs) [
    | inl e ↦ rw e (tt, λ p q. no_column p q e)
    | inr (rx, e) ↦ elim (Option-cases ys) [
      | inl f ↦ rw (e, f) (tt, λ p q. no_row p q f)
      | inr (ry, f) ↦
          let (side_x, points_x) = both-IsSide r.x r.w t.x t.w one.0 two.0 rx e in
          let (side_y, points_y) = both-IsSide r.y r.h t.y t.h one.1 two.1 ry f in
          rw (e, f)
            (
              (side_x, side_y),
              λ p q.
                  ap₂ ◌&&◌ (points_x p) (points_y q)
                  ∙ shuffle (within r.x r.w p) (within t.x t.w p) (within r.y r.h q)
                      (within t.y t.h q),
            )
    ]
  ]

  -- For two rectangles that are not empty and whose corners are i64 values, intersection does not
  -- panic, and the result covers exactly the points that both cover, where none covers no point; a
  -- rectangle that results is not empty and its corners are i64 values again.
  pub rect_intersection-covers :
      (o : Option Rect) × (rect_intersection r t ≡ ok o)
      × IsFrameSome o
      × ((p q : ℤ) → covers_some o p q ≡ (covers r p q && covers t p q))
  unfolding rect_intersection
  rect_intersection-covers = (
    from_ranges xs ys,
    rw (frame_ranges_lem r one, frame_ranges_lem t two) refl,
    from_ranges_lem.0,
    from_ranges_lem.1,
  )
