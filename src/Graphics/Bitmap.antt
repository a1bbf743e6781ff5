-- ===== src/Graphics/Bitmap.antt =====
-- noli/src/bitmap.rs: pixel buffers, points and rectangles. The bytes of a buffer are taken four at
-- a time, as its pixels. An access outside of the buffer, which is undefined in the source, panics.
use wasabi.Base.{
  ℕ, zero, suc, ◌+◌, ◌-◌, ◌/◌, Bool, not, ◌&&◌, ◌||◌, ltb, if◌then◌else◌, Option, none, some,
  Result, ok, err, panic, graphics_out_of_range, List, length, get_or, set, replicate, assert,
  ◌>>=◌, ◌>>◌,
}
use wasabi.Base.Int.{ℤ, pos, negsuc, pos_part, neg_part, leb_ℤ, ltb_ℤ, add64, sub64, mul64, min_ℤ}

pub record Bitmap : Type 0 where
  pub width : ℤ
  pub height : ℤ
  pub pixels_per_line : ℤ
  pub buf : List ℕ

-- `BitmapBuffer::new`, with its assertions
unfoldable pub new : ℤ → ℤ → ℤ → Result Bitmap
new width height pixels_per_line = do
  assert (leb_ℤ (pos 0) width)
  assert (leb_ℤ (pos 0) height)
  assert (leb_ℤ (pos 0) pixels_per_line)
  assert (leb_ℤ width pixels_per_line)
  ok (record {
    width = width;
    height = height;
    pixels_per_line = pixels_per_line;
    buf = replicate (pos_part (mul64 (mul64 pixels_per_line height) (pos 4)) / 4) 0;
  })

unfoldable pub is_in_x_range : Bitmap → ℤ → Bool
is_in_x_range b px = leb_ℤ (pos 0) px && ltb_ℤ px (min_ℤ b.width b.pixels_per_line)

unfoldable pub is_in_y_range : Bitmap → ℤ → Bool
is_in_y_range b py = leb_ℤ (pos 0) py && ltb_ℤ py b.height

-- The pixel that a byte offset refers to, if it is in the buffer.
abbrev pub cell : Bitmap → ℤ → Result ℕ
cell b (pos n) = if ltb (n / 4) (length b.buf) then ok (n / 4) else panic
cell b (negsuc n) = panic

-- `unchecked_pixel_at` and `unchecked_pixel_at_mut`
unfoldable pub unchecked_pixel_at : Bitmap → ℤ → ℤ → Result ℕ
unchecked_pixel_at b x y = cell b (mul64 (add64 (mul64 y b.pixels_per_line) x) (pos 4))

abbrev pub read_cell : Bitmap → Result ℕ → Option ℕ
read_cell b (ok i) = some (get_or b.buf i 0)
read_cell b (err e) = none
read_cell b panic = none

-- `pixel_at`
unfoldable pub pixel_at : Bitmap → ℤ → ℤ → Result (Option ℕ)
pixel_at b x y =
    if is_in_x_range b x && is_in_y_range b y
    then (unchecked_pixel_at b x y >>= λ i. ok (some (get_or b.buf i 0)))
    else ok none

abbrev pub write_cell : Bitmap → ℕ → Result ℕ → Bitmap × Result (Unit {0})
write_cell b color (ok i) = (record b { buf = set b.buf i color }, ok tt)
write_cell b color (err e) = (b, err e)
write_cell b color panic = (b, panic)

unfoldable pub unchecked_draw_point : ℕ → ℤ → ℤ → Bitmap → Bitmap × Result (Unit {0})
unchecked_draw_point color x y b = write_cell b color (unchecked_pixel_at b x y)

-- The guard tests the x coordinate twice, as the source does.
unfoldable pub bitmap_draw_point : ℕ → ℤ → ℤ → Bitmap → Bitmap × Result (Unit {0})
bitmap_draw_point color x y b =
    if not (is_in_x_range b x) || not (is_in_x_range b x)
    then (b, err graphics_out_of_range)
    else unchecked_draw_point color x y b

-- `?` between two operations on a bitmap
abbrev pub next :
    Bitmap × Result (Unit {0}) → (Bitmap → Bitmap × Result (Unit {0})) → Bitmap × Result (Unit {0})
next (b, ok u) f = f b
next (b, err e) f = (b, err e)
next (b, panic) f = (b, panic)

-- The rounds of `for i in start..end`
abbrev pub rounds : ℤ → ℤ → ℕ
rounds start end = pos_part end + neg_part start - (neg_part end + pos_part start)

-- The inner loop of `bitmap_draw_rect`, by the rounds left
unfoldable pub draw_row : ℕ → ℤ → ℕ → ℤ → Bitmap → Bitmap × Result (Unit {0})
draw_row color y zero x b = (b, ok tt)
draw_row color y (suc n) x b =
    next (bitmap_draw_point color x y b) λ b'. draw_row color y n (add64 x (pos 1)) b'

-- The outer loop
unfoldable pub draw_rows : ℕ → ℤ → ℤ → ℕ → ℤ → Bitmap → Bitmap × Result (Unit {0})
draw_rows color px right zero y b = (b, ok tt)
draw_rows color px right (suc n) y b =
    next (draw_row color y (rounds px right) px b)
      λ b'. draw_rows color px right n (add64 y (pos 1)) b'

unfoldable pub bitmap_draw_rect : ℕ → ℤ → ℤ → ℤ → ℤ → Bitmap → Bitmap × Result (Unit {0})
bitmap_draw_rect color px py w h b =
    if not (is_in_x_range b px)
      || not (is_in_y_range b py)
      || not (is_in_x_range b (sub64 (add64 px w) (pos 1)))
      || not (is_in_y_range b (sub64 (add64 py h) (pos 1)))
    then (b, err graphics_out_of_range)
    else draw_rows color px (add64 px w) (rounds py (add64 py h)) py b

abbrev pub or_panic :
    Result ℕ → (ℕ → Bitmap × Result (Unit {0})) → Bitmap → Bitmap × Result (Unit {0})
or_panic (ok i) f b = f i
or_panic (err e) f b = (b, err e)
or_panic panic f b = (b, panic)

-- The loops of `transfer_rect`, each by the rounds left.
module _ (dx dy sx sy : ℤ) where
  unfoldable pub copy_pixel : ℤ → ℤ → Bitmap → Bitmap × Result (Unit {0})
  copy_pixel x y b =
      or_panic (unchecked_pixel_at b (add64 sx x) (add64 sy y))
        (λ i. unchecked_draw_point (get_or b.buf i 0) (add64 dx x) (add64 dy y) b) b

  -- `for x in 0..w`, from `x` on
  unfoldable pub copy_row : ℕ → ℕ → ℕ → Bitmap → Bitmap × Result (Unit {0})
  copy_row y zero x b = (b, ok tt)
  copy_row y (suc n) x b = next (copy_pixel (pos x) (pos y) b) λ b'. copy_row y n (x + 1) b'

  -- `for x in (0..w).rev()`
  unfoldable pub copy_row_rev : ℕ → ℕ → Bitmap → Bitmap × Result (Unit {0})
  copy_row_rev y zero b = (b, ok tt)
  copy_row_rev y (suc n) b = next (copy_pixel (pos n) (pos y) b) λ b'. copy_row_rev y n b'

  -- `for y in 0..h`, from `y` on, with either inner loop
  unfoldable pub copy_rows :
      (ℕ → Bitmap → Bitmap × Result (Unit {0})) → ℕ → ℕ → Bitmap → Bitmap × Result (Unit {0})
  copy_rows row zero y b = (b, ok tt)
  copy_rows row (suc m) y b = next (row y b) λ b'. copy_rows row m (y + 1) b'

  -- `for y in (0..h).rev()`
  unfoldable pub copy_rows_rev : ℕ → ℕ → Bitmap → Bitmap × Result (Unit {0})
  copy_rows_rev n zero b = (b, ok tt)
  copy_rows_rev n (suc m) b = next (copy_row m n 0 b) λ b'. copy_rows_rev n m b'

  -- The `match` on the orders of the rows and of the columns.
  unfoldable pub transfer_loops : ℕ → ℕ → Bitmap → Bitmap × Result (Unit {0})
  transfer_loops n m b =
      if ltb_ℤ dy sy || (leb_ℤ dy sy && ltb_ℤ dx sx)
      then copy_rows (λ y. copy_row y n 0) m 0 b
      else if ltb_ℤ sy dy
      then copy_rows_rev n m b
      else if ltb_ℤ sx dx
      then copy_rows (λ y. copy_row_rev y n) m 0 b
      else (b, ok tt)

-- The four tests of a rectangle in `transfer_rect`
unfoldable pub spans : Bitmap → ℤ → ℤ → ℤ → ℤ → Bool
spans b x y w h =
    is_in_x_range b x
    && is_in_y_range b y
    && is_in_x_range b (sub64 (add64 x w) (pos 1))
    && is_in_y_range b (sub64 (add64 y h) (pos 1))

unfoldable pub transfer_rect : ℤ → ℤ → ℤ → ℤ → ℤ → ℤ → Bitmap → Bitmap × Result (Unit {0})
unfolding transfer_loops
transfer_rect dx dy sx sy w h b =
    if not (spans b sx sy w h && spans b dx dy w h)
    then (b, err graphics_out_of_range)
    else transfer_loops dx dy sx sy (rounds (pos 0) w) (rounds (pos 0) h) b
