-- ===== src/Graphics/Spans.antt =====
-- The tests of `transfer_rect` on a rectangle, which one inside the bitmap passes.
use wasabi.Base.{ℕ, ◌+◌, ◌-◌, ◌*◌, ◌^◌, ◌≤◌, ◌<◌, ◌≡◌, refl, arith, true, List}
use wasabi.Base.Int.{pos, min_ℤ}
use wasabi.Graphics.Bitmap.{is_in_x_range, is_in_y_range, spans}
use wasabi.Graphics.Paint.{add64_pos, sub64_pos, bitmap, line_small, rows_small}

module _ (w h l : ℕ) (line : w ≤ l) (size : l * h * 4 < 2 ^ 63) where
  in_x_range :
      (cells : List ℕ) (x : ℕ) → x < w → is_in_x_range (bitmap w h l line size cells) (pos x) ≡ true
  unfolding is_in_x_range min_ℤ
  in_x_range cells x hx = ground arith

  in_y_range :
      (cells : List ℕ) (y : ℕ) → y < h → is_in_y_range (bitmap w h l line size cells) (pos y) ≡ true
  unfolding is_in_y_range
  in_y_range cells y hy = ground arith

  pub spans_lem :
      (cells : List ℕ) (x y n m : ℕ)
      → x + n ≤ w
      → y + m ≤ h
      → 0 < n
      → 0 < m
      → spans (bitmap w h l line size cells) (pos x) (pos y) (pos n) (pos m) ≡ true
  unfolding spans
  spans_lem cells x y n m hx hy some_columns some_rows =
      let bx : w < 2 ^ 61 = omega (arith, line_small w h l line size (omega arith)) in
      let by_ : h < 2 ^ 61 = rows_small w h l line size (omega arith) in
      rw
        (
          add64_pos x n (omega arith),
          add64_pos y m (omega arith),
          sub64_pos (x + n) 1 (omega arith) (omega arith),
          sub64_pos (y + m) 1 (omega arith) (omega arith),
          in_x_range cells x (omega arith),
          in_y_range cells y (omega arith),
          in_x_range cells (x + n - 1) (omega arith),
          in_y_range cells (y + m - 1) (omega arith),
        )
        refl
