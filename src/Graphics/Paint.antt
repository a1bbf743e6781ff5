-- ===== src/Graphics/Paint.antt =====
-- A rectangle inside a bitmap is painted exactly, and no access leaves the buffer.
use wasabi.Base.{
  ℕ, zero, suc, ◌+◌, ◌-◌, ◌*◌, ◌/◌, ◌^◌, ◌≤◌, ◌<◌, ◌≡◌, refl, ap, ap₂, sym, ◌∙◌, arith, Bool, ◌&&◌,
  ltb, leb, if◌then◌else◌, ok, List, length, get_or, set, length-set, get_or-set_self,
  get_or-set_ne, inl, inr, Bool-cases, ◌==◌, lt→ltb,
}
use native.Mathlib.Nat.{mul-le-mul_right, add-mul, le-mul_of_pos_right, mul_comm}
use native.Mathlib.Decide.{dec_lt}
use wasabi.Base.Int.{pos, add64, sub64, mul64, min_ℤ, wrap64_nonneg}
use wasabi.Graphics.Bitmap.{
  Bitmap, is_in_x_range, is_in_y_range, unchecked_pixel_at, unchecked_draw_point, bitmap_draw_point,
  rounds, draw_row, draw_rows, bitmap_draw_rect,
}

pub add64_pos : (a b : ℕ) → a + b < 2 ^ 63 → add64 (pos a) (pos b) ≡ pos (a + b)
unfolding add64
add64_pos a b h = wrap64_nonneg (a + b) (0 + 0) (omega arith) (omega arith) ∙ ap pos (omega arith)

pub mul64_pos : (a b : ℕ) → a * b < 2 ^ 63 → mul64 (pos a) (pos b) ≡ pos (a * b)
unfolding mul64
mul64_pos a b h =
    wrap64_nonneg (a * b + 0 * 0) (a * 0 + 0 * b) (omega arith) (omega arith) ∙ ap pos (omega arith)

pub sub64_pos : (a b : ℕ) → b ≤ a → a < 2 ^ 63 → sub64 (pos a) (pos b) ≡ pos (a - b)
unfolding sub64
sub64_pos a b h k = wrap64_nonneg (a + 0) (0 + b) (omega arith) (omega arith) ∙ ap pos (omega arith)

-- A place in a grid with lines of `l` cells is determined by its index.
pub index-lt : (l h x y : ℕ) → x < l → y < h → y * l + x < l * h
index-lt l h x y p q = grind arith

row-le : (l y b x a : ℕ) → x < l → y * l + x ≡ b * l + a → b ≤ y
row-le l y b x a p e = elim (dec_lt y b) [
  | yes h ↦
      absurd
        (omega (arith, mul-le-mul_right l (let k : y + 1 ≤ b = omega arith in k), add-mul y 1 l))
  | no h ↦ omega arith
]

pub index_inj : (l x y a b : ℕ) → x < l → a < l → y * l + x ≡ b * l + a → (y ≡ b) × (x ≡ a)
index_inj l x y a b p q e =
    let same : y ≡ b = omega (arith, row-le l y b x a p e, row-le l b y a x q (sym e)) in
    (same, omega (arith, ap (λ (t : ℕ). t * l) same))

-- Bitmaps of given dimensions, by their pixels.
module _ (w h l : ℕ) (line : w ≤ l) (size : l * h * 4 < 2 ^ 63) where
  abbrev pub bitmap : List ℕ → Bitmap
  bitmap cells = record { width = pos w; height = pos h; pixels_per_line = pos l; buf = cells }

  abbrev pub pixel : List ℕ → ℕ → ℕ → ℕ
  pixel cells x y = get_or cells (y * l + x) 0

  module _ (cells : List ℕ) (whole : length cells ≡ l * h) (x y : ℕ) (hx : x < l) (hy : y < h) where
    pub unchecked_pixel_at_lem : unchecked_pixel_at (bitmap cells) (pos x) (pos y) ≡ ok (y * l + x)
    unfolding unchecked_pixel_at
    unchecked_pixel_at_lem =
        let small : y * l + x < l * h = index-lt l h x y hx hy in
        rw
          (
            mul64_pos y l (omega arith),
            add64_pos (y * l) x (omega arith),
            mul64_pos (y * l + x) 4 (omega arith),
            (let e : (y * l + x) * 4 / 4 ≡ y * l + x = omega arith in e),
            lt→ltb (y * l + x) (length cells) (omega arith),
          )
          refl

  pub line_small : 0 < h → l < 2 ^ 61
  line_small some_rows = omega (arith, le-mul_of_pos_right l some_rows)

  pub rows_small : 0 < l → h < 2 ^ 61
  rows_small some_columns = omega (arith, le-mul_of_pos_right h some_columns, mul_comm h l)

  -- The pixels of a buffer after those chosen have been painted.
  pub record Painted (color : ℕ) (chosen : ℕ → ℕ → Bool) (old new : List ℕ) : Type 0 where
    pub whole : length new ≡ l * h
    pub pixels :
        (p q : ℕ) → p < l → q < h → pixel new p q ≡ (if chosen p q then color else pixel old p q)

  module _ (color : ℕ) where
    draw_point_lem :
        (cells : List ℕ) (x y : ℕ)
        → length cells ≡ l * h
        → x < w
        → y < h
        → bitmap_draw_point color (pos x) (pos y) (bitmap cells)
          ≡ (bitmap (set cells (y * l + x) color), ok tt)
    unfolding bitmap_draw_point is_in_x_range min_ℤ unchecked_draw_point
    draw_point_lem cells x y whole hx hy = ground (arith, unchecked_pixel_at_lem cells whole x y)

    pub set-Painted :
        (cells : List ℕ) (x y : ℕ)
        → length cells ≡ l * h
        → x < l
        → y < h
        → Painted color (λ p q. p == x && q == y) cells (set cells (y * l + x) color)
    set-Painted cells x y whole hx hy = record {
      whole = length-set cells (y * l + x) color ∙ whole;
      pixels = λ p q hp hq. elim (Bool-cases (p == x && q == y)) [
        | inl e ↦ rw e (
            let at : q * l + p ≡ y * l + x =
              ap₂ (λ (a b : ℕ). b * l + a) (let t : p ≡ x = ground arith in t)
                (let t : q ≡ y = ground arith in t) in
            rw at
              (get_or-set_self cells (y * l + x) color 0 (omega (arith, index-lt l h x y hx hy))))
        | inr e ↦ rw e (
            get_or-set_ne cells (y * l + x) (q * l + p) color 0
              (λ f. let same = index_inj l x y p q hx hp f in absurd (ground (arith, same))))
      ];
    }

    draw_row_lem :
        (n a y : ℕ) (cells : List ℕ)
        → length cells ≡ l * h
        → a + n ≤ w
        → y < h
        → (cells' : List ℕ) × (draw_row color (pos y) n (pos a) (bitmap cells)
            ≡ (bitmap cells', ok tt))
          × Painted color (λ p q. q == y && leb a p && ltb p (a + n)) cells cells'
    unfolding draw_row
    draw_row_lem zero a y cells whole hx hy =
        (cells, refl, record { whole = whole; pixels = λ p q hp hq. ground arith })
    draw_row_lem (suc n) a y cells whole hx hy =
        let first = set-Painted cells a y whole (omega arith) hy in
        let (cells', runs, rest) =
          draw_row_lem n (a + 1) y (set cells (y * l + a) color) first.whole (omega arith) hy in
        (
          cells',
          rw
              (
                draw_point_lem cells a y whole (omega arith) hy,
                add64_pos a 1 (omega (arith, line_small (omega arith))),
              )
              runs,
          record {
            whole = rest.whole;
            pixels = λ p q hp hq. ground (arith, rest.pixels p q hp hq, first.pixels p q hp hq);
          },
        )

    draw_rows_lem :
        (m n a b : ℕ) (cells : List ℕ)
        → length cells ≡ l * h
        → 0 < n
        → a + n ≤ w
        → b + m ≤ h
        → (cells' : List ℕ) × (draw_rows color (pos a) (pos (a + n)) m (pos b) (bitmap cells)
            ≡ (bitmap cells', ok tt))
          × Painted color
              (λ p q. leb b q && ltb q (b + m) && (leb a p && ltb p (a + n)))
              cells
              cells'
    unfolding draw_rows
    draw_rows_lem zero n a b cells whole some_columns hx hy =
        (cells, refl, record { whole = whole; pixels = λ p q hp hq. ground arith })
    draw_rows_lem (suc m) n a b cells whole some_columns hx hy =
        let (cells1, runs1, first) = draw_row_lem n a b cells whole hx (omega arith) in
        let (cells', runs, rest) =
          draw_rows_lem m n a (b + 1) cells1 first.whole some_columns hx (omega arith) in
        (
          cells',
          rw
              (
                (let e : rounds (pos a) (pos (a + n)) ≡ n = omega arith in e),
                runs1,
                add64_pos b 1 (omega (arith, rows_small (omega arith))),
              )
              runs,
          record {
            whole = rest.whole;
            pixels = λ p q hp hq. ground (arith, rest.pixels p q hp hq, first.pixels p q hp hq);
          },
        )

    -- For a rectangle of `n` by `m` pixels at (a, b), not empty and inside the bitmap, drawing
    -- succeeds with no access outside of the buffer, and afterwards exactly the pixels of the
    -- rectangle have the color, while the others, those past the width included, are as before.
    pub bitmap_draw_rect_lem :
        (a b n m : ℕ) (cells : List ℕ)
        → length cells ≡ l * h
        → 0 < n
        → 0 < m
        → a + n ≤ w
        → b + m ≤ h
        → (cells' : List ℕ) × (bitmap_draw_rect color (pos a) (pos b) (pos n) (pos m) (bitmap cells)
            ≡ (bitmap cells', ok tt))
          × Painted color
              (λ p q. leb b q && ltb q (b + m) && (leb a p && ltb p (a + n)))
              cells
              cells'
    unfolding bitmap_draw_rect is_in_x_range is_in_y_range min_ℤ
    bitmap_draw_rect_lem a b n m cells whole some_columns some_rows hx hy =
        let (cells', runs, painted) = draw_rows_lem m n a b cells whole some_columns hx hy in
        (
          cells',
          rw
              (
                add64_pos a n (omega (arith, line_small (omega arith))),
                add64_pos b m (omega (arith, rows_small (omega arith))),
                sub64_pos (a + n) 1 (omega arith) (omega (arith, line_small (omega arith))),
                sub64_pos (b + m) 1 (omega arith) (omega (arith, rows_small (omega arith))),
              )
              (ground (arith, runs, (let e : rounds (pos b) (pos (b + m)) ≡ m = omega arith in e))),
          painted,
        )
