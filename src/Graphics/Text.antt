-- ===== src/Graphics/Text.antt =====
-- noli/src/bitmap.rs: lines, characters and strings. The font is generated at build time: it is a
-- parameter, the bits of a row of a character below 256.
use wasabi.Base.{
  ℕ, zero, suc, ◌+◌, ◌*◌, ◌/◌, ◌%◌, ◌^◌, Bool, not, ◌&&◌, ◌||◌, ◌==◌, leb, if◌then◌else◌, Option,
  none, some, Result, ok, err, graphics_out_of_range, List, [], ◌∷◌,
}
use wasabi.Base.Int.{ℤ, pos, pos_part, leb_ℤ, ltb_ℤ, add64, sub64, mul64, quot64}
use wasabi.Graphics.Bitmap.{Bitmap, is_in_x_range, is_in_y_range, bitmap_draw_point, next, rounds}

-- `for i in 0..n`, from `i` on
unfoldable pub each :
    ℕ → ℕ → (ℕ → Bitmap → Bitmap × Result (Unit {0})) → Bitmap → Bitmap × Result (Unit {0})
each zero i body b = (b, ok tt)
each (suc n) i body b = next (body i b) λ b'. each n (i + 1) body b'

-- The points of a column, `for i in y0..=y1`
unfoldable pub draw_column : ℕ → ℤ → ℤ → ℤ → Bitmap → Bitmap × Result (Unit {0})
unfolding each
draw_column color x y0 y1 b =
    each (rounds y0 (add64 y1 (pos 1))) 0 (λ i b'. bitmap_draw_point color x (add64 y0 (pos i)) b')
      b

-- A line whose ends have the same x coordinate
unfoldable pub draw_vertical : ℕ → ℤ → ℤ → ℤ → Bitmap → Bitmap × Result (Unit {0})
unfolding draw_column
draw_vertical color x y0 y1 b =
    if leb_ℤ y0 y1 then draw_column color x y0 y1 b else draw_column color x y1 y0 b

abbrev pub line_in_range : ℤ → ℤ → ℤ → ℤ → Bitmap → Bool
line_in_range x0 y0 x1 y1 b =
    is_in_x_range b x0 && is_in_x_range b x1 && is_in_y_range b y0 && is_in_y_range b y1

-- The recursive call for one column of a line
unfoldable pub draw_segment : ℕ → ℤ → ℤ → ℤ → Bitmap → Bitmap × Result (Unit {0})
unfolding draw_vertical
draw_segment color x y0 y1 b =
    if not (line_in_range x y0 x y1 b)
    then (b, err graphics_out_of_range)
    else draw_vertical color x y0 y1 b

abbrev pub multiplier : ℤ
multiplier = pos (1024 * 1024)

-- A line from left to right
unfoldable pub draw_right : ℕ → ℤ → ℤ → ℤ → ℤ → Bitmap → Bitmap × Result (Unit {0})
unfolding draw_segment
draw_right color x0 y0 x1 y1 b =
    let lx = add64 (sub64 x1 x0) (pos 1) in
    let a = quot64 (mul64 (sub64 y1 y0) multiplier) lx in
    next
      (each (pos_part lx) 0
        (λ i b'.
          draw_segment color (add64 x0 (pos i)) (add64 y0 (quot64 (mul64 a (pos i)) multiplier))
            (add64 y0 (quot64 (mul64 a (pos (i + 1))) multiplier)) b')
        b)
      λ b1. next (bitmap_draw_point color x0 y0 b1) λ b2. bitmap_draw_point color x1 y1 b2

-- The recursive call with the ends exchanged makes the same tests of the ranges again.
unfoldable pub bitmap_draw_line : ℕ → ℤ → ℤ → ℤ → ℤ → Bitmap → Bitmap × Result (Unit {0})
unfolding draw_right
bitmap_draw_line color x0 y0 x1 y1 b =
    if not (line_in_range x0 y0 x1 y1 b)
    then (b, err graphics_out_of_range)
    else if ltb_ℤ x1 x0
    then draw_right color x1 y1 x0 y0 b
    else if ltb_ℤ x0 x1
    then draw_right color x0 y0 x1 y1 b
    else draw_vertical color x0 y0 y1 b

module _ (font : ℕ → ℕ → ℕ) (fg : ℕ) (bg : Option ℕ) where
  abbrev pub char_in_range : ℤ → ℤ → Bitmap → Bool
  char_in_range px py b =
      is_in_x_range b px
      && is_in_y_range b py
      && is_in_x_range b (sub64 (add64 px (pos 8)) (pos 1))
      && is_in_y_range b (sub64 (add64 py (pos 16)) (pos 1))

  -- Whether the font has ink at a column of a row; a character past the font is all ink.
  abbrev pub has_ink : ℕ → ℕ → ℕ → Bool
  has_ink c y x = leb 256 c || (font c y / 2 ^ x % 2 == 1)

  abbrev pub draw_background : Option ℕ → ℤ → ℤ → Bitmap → Bitmap × Result (Unit {0})
  draw_background none x y b = (b, ok tt)
  draw_background (some color) x y b = bitmap_draw_point color x y b

  unfoldable pub draw_pixel : ℕ → ℤ → ℤ → ℕ → ℕ → Bitmap → Bitmap × Result (Unit {0})
  draw_pixel c px py y x b =
      if has_ink c y x
      then bitmap_draw_point fg (add64 px (pos x)) (add64 py (pos y)) b
      else draw_background bg (add64 px (pos x)) (add64 py (pos y)) b

  unfoldable pub bitmap_draw_char : ℤ → ℤ → ℕ → Bitmap → Bitmap × Result (Unit {0})
  unfolding each draw_pixel
  bitmap_draw_char px py c b =
      if not (char_in_range px py b)
      then (b, err graphics_out_of_range)
      else each 16 0 (λ y b1. each 8 0 (λ x b2. draw_pixel c px py y x b2) b1) b

  -- The four points for one of the font
  unfoldable pub draw_four : ℤ → ℤ → Bitmap → Bitmap × Result (Unit {0})
  draw_four left top b = next (bitmap_draw_point fg left top b) λ b1.
      next (bitmap_draw_point fg (add64 left (pos 1)) top b1) λ b2.
        next (bitmap_draw_point fg left (add64 top (pos 1)) b2)
          λ b3. bitmap_draw_point fg (add64 left (pos 1)) (add64 top (pos 1)) b3

  -- The background has one point for each of the font.
  unfoldable pub draw_pixel_2x : ℕ → ℤ → ℤ → ℕ → ℕ → Bitmap → Bitmap × Result (Unit {0})
  unfolding draw_four
  draw_pixel_2x c px py y x b =
      if has_ink c y x
      then draw_four (add64 px (mul64 (pos x) (pos 2))) (add64 py (mul64 (pos y) (pos 2))) b
      else draw_background bg (add64 px (pos x)) (add64 py (pos y)) b

  unfoldable pub bitmap_draw_char_2x : ℤ → ℤ → ℕ → Bitmap → Bitmap × Result (Unit {0})
  unfolding each draw_pixel_2x
  bitmap_draw_char_2x px py c b =
      if not (char_in_range px py b)
      then (b, err graphics_out_of_range)
      else each 16 0 (λ y b1. each 8 0 (λ x b2. draw_pixel_2x c px py y x b2) b1) b

  unfoldable pub draw_pixel_3x : ℕ → ℤ → ℤ → ℕ → ℕ → Bitmap → Bitmap × Result (Unit {0})
  draw_pixel_3x c px py y x b =
      if has_ink c (y / 3) (x / 3)
      then bitmap_draw_point fg (add64 px (pos x)) (add64 py (pos y)) b
      else draw_background bg (add64 px (pos x)) (add64 py (pos y)) b

  unfoldable pub bitmap_draw_char_3x : ℤ → ℤ → ℕ → Bitmap → Bitmap × Result (Unit {0})
  unfolding each draw_pixel_3x
  bitmap_draw_char_3x px py c b =
      if not (char_in_range px py b)
      then (b, err graphics_out_of_range)
      else each 48 0 (λ y b1. each 24 0 (λ x b2. draw_pixel_3x c px py y x b2) b1) b

  -- The loop of the functions that draw a string: `advance` pixels for each character
  unfoldable pub draw_chars :
      (ℤ → ℤ → ℕ → Bitmap → Bitmap × Result (Unit {0}))
      → ℕ
      → ℤ
      → ℤ
      → ℤ
      → List ℕ
      → Bitmap
      → Bitmap × Result (Unit {0})
  draw_chars draw advance px py at [] b = (b, ok tt)
  draw_chars draw advance px py at (c ∷ cs) b =
      next (draw (add64 px at) py c b)
        λ b'. draw_chars draw advance px py (add64 at (pos advance)) cs b'

  unfoldable pub bitmap_draw_string : ℤ → ℤ → List ℕ → Bitmap → Bitmap × Result (Unit {0})
  unfolding draw_chars bitmap_draw_char
  bitmap_draw_string px py s b = draw_chars bitmap_draw_char 8 px py (pos 0) s b

  unfoldable pub bitmap_draw_string_2x : ℤ → ℤ → List ℕ → Bitmap → Bitmap × Result (Unit {0})
  unfolding draw_chars bitmap_draw_char_2x
  bitmap_draw_string_2x px py s b = draw_chars bitmap_draw_char_2x 16 px py (pos 0) s b

  unfoldable pub bitmap_draw_string_3x : ℤ → ℤ → List ℕ → Bitmap → Bitmap × Result (Unit {0})
  unfolding draw_chars bitmap_draw_char_3x
  bitmap_draw_string_3x px py s b = draw_chars bitmap_draw_char_3x 24 px py (pos 0) s b

  -- Where `draw_chars` stops: the offset after the characters
  abbrev pub string_width : ℕ → ℤ → List ℕ → ℤ
  string_width advance at [] = at
  string_width advance at (c ∷ cs) = string_width advance (add64 at (pos advance)) cs

  -- The line below a string, at the same height for every size of the font
  unfoldable pub underline : ℤ → ℤ → ℤ → Bitmap → Bitmap × Result (Unit {0})
  unfolding bitmap_draw_line
  underline px py width b =
      bitmap_draw_line fg px (add64 py (pos 16)) (add64 px width) (add64 py (pos 16)) b

  unfoldable pub bitmap_draw_string_with_underline :
      ℤ → ℤ → List ℕ → Bitmap → Bitmap × Result (Unit {0})
  unfolding underline draw_chars bitmap_draw_char
  bitmap_draw_string_with_underline px py s b =
      next (draw_chars bitmap_draw_char 8 px py (pos 0) s b)
        (underline px py (string_width 8 (pos 0) s))

  unfoldable pub bitmap_draw_string_2x_with_underline :
      ℤ → ℤ → List ℕ → Bitmap → Bitmap × Result (Unit {0})
  unfolding underline draw_chars bitmap_draw_char_2x
  bitmap_draw_string_2x_with_underline px py s b =
      next (draw_chars bitmap_draw_char_2x 16 px py (pos 0) s b)
        (underline px py (string_width 16 (pos 0) s))

  unfoldable pub bitmap_draw_string_3x_with_underline :
      ℤ → ℤ → List ℕ → Bitmap → Bitmap × Result (Unit {0})
  unfolding underline draw_chars bitmap_draw_char_3x
  bitmap_draw_string_3x_with_underline px py s b =
      next (draw_chars bitmap_draw_char_3x 24 px py (pos 0) s b)
        (underline px py (string_width 24 (pos 0) s))
