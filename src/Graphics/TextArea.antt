-- ===== src/Graphics/TextArea.antt =====
-- noli/src/text_area.rs: a cursor that prints into a rectangle of a bitmap.
use wasabi.Base.{
  ℕ, ◌+◌, ◌*◌, ◌%◌, ◌^◌, Bool, not, ◌==◌, ◌||◌, if◌then◌else◌, some, Result, ok, err, panic, List,
  [], ◌∷◌,
}
use wasabi.Base.Int.{ℤ, pos, leb_ℤ, add64, sub64, mul64, max_ℤ}
use wasabi.Graphics.Bitmap.{Bitmap, bitmap_draw_rect, transfer_rect}
use wasabi.Graphics.Text.{bitmap_draw_line, bitmap_draw_char}

pub data TextAreaMode : Type 0 where
  scroll : TextAreaMode
  ring : TextAreaMode

pub record TextArea : Type 0 where
  pub buf : Bitmap
  pub x : ℤ
  pub y : ℤ
  pub w : ℤ
  pub h : ℤ
  pub cx : ℤ
  pub cy : ℤ
  pub mode : TextAreaMode
  pub ring_count : ℕ

-- An operation on the bitmap of a text area
abbrev pub on_buf : (Bitmap → Bitmap × Result (Unit {0})) → TextArea → TextArea × Result (Unit {0})
on_buf draw t = (record t { buf = (draw t.buf).0 }, (draw t.buf).1)

-- `?` between two operations on a text area
abbrev pub and_then :
    TextArea × Result (Unit {0})
    → (TextArea → TextArea × Result (Unit {0}))
    → TextArea × Result (Unit {0})
and_then (t, ok u) f = f t
and_then (t, err e) f = (t, err e)
and_then (t, panic) f = (t, panic)

unfoldable pub clear_screen : TextArea → TextArea × Result (Unit {0})
clear_screen t = on_buf (bitmap_draw_rect 0 t.x t.y t.w t.h) t

-- `.unwrap()` of the first clearing
abbrev pub expect_cleared : TextArea × Result (Unit {0}) → Result TextArea
expect_cleared (t, ok u) = ok t
expect_cleared (t, err e) = panic
expect_cleared (t, panic) = panic

unfoldable pub new : Bitmap → ℤ → ℤ → ℤ → ℤ → Result TextArea
unfolding clear_screen
new buf x y w h = expect_cleared (
    clear_screen (record {
      buf = buf;
      x = x;
      y = y;
      w = w;
      h = h;
      cx = pos 0;
      cy = pos 0;
      mode = scroll;
      ring_count = 0;
    }))

unfoldable pub set_mode : TextAreaMode → TextArea → TextArea
set_mode mode t = record t { mode = mode }

-- The top of the line of text at the cursor
abbrev pub line_top : TextArea → ℤ
line_top t = add64 t.y (mul64 t.cy (pos 16))

-- Whether the line after `cy` fits: `(cy + 1) * 16 <= h`
abbrev pub fits : ℤ → TextArea → Bool
fits cy t = leb_ℤ (mul64 (add64 cy (pos 1)) (pos 16)) t.h

-- Clear the line of the cursor.
abbrev pub clear_line : TextArea → TextArea × Result (Unit {0})
clear_line t = on_buf (bitmap_draw_rect 0 t.x (line_top t) t.w (pos 16)) t

-- Move the lines up by one, and clear the last one.
unfoldable pub scroll_up : TextArea → TextArea × Result (Unit {0})
scroll_up t =
    and_then (on_buf (transfer_rect t.x t.y t.x (add64 t.y (pos 16)) t.w (mul64 t.cy (pos 16))) t)
      clear_line

unfoldable pub new_line_scroll : TextArea → TextArea × Result (Unit {0})
new_line_scroll t =
    if fits (add64 t.cy (pos 1)) t
    then (record t { cy = add64 t.cy (pos 1) }, ok tt)
    else scroll_up (record t { cy = sub64 (add64 t.cy (pos 1)) (pos 1) })

-- The cursor of a ring, moved to the next line or back to the first one
unfoldable pub next_in_ring : TextArea → TextArea
next_in_ring t =
    if not (fits (add64 t.cy (pos 1)) t)
    then record t { cy = pos 0; ring_count = (t.ring_count + 1) % 2 ^ 64 }
    else record t { cy = add64 t.cy (pos 1) }

-- The mark on the line that was filled: `0xff << ((ring_count % 3) * 8)`
abbrev pub ring_color : ℕ → ℕ
ring_color count = 0xff * 2 ^ (count % 3 * 8)

abbrev pub mark_line : TextArea → TextArea × Result (Unit {0})
mark_line t =
    on_buf
      (bitmap_draw_line (ring_color t.ring_count) t.x (line_top t) t.x
        (sub64 (add64 t.y (mul64 (add64 t.cy (pos 1)) (pos 16))) (pos 1)))
      t

unfoldable pub new_line_ring : TextArea → TextArea × Result (Unit {0})
unfolding next_in_ring
new_line_ring t = and_then (mark_line t) λ t'. clear_line (next_in_ring t')

unfoldable pub new_line_in : TextAreaMode → TextArea → TextArea × Result (Unit {0})
new_line_in scroll t = new_line_scroll t
new_line_in ring t = new_line_ring t

unfoldable pub new_line : TextArea → TextArea × Result (Unit {0})
new_line t = new_line_in t.mode (record t { cx = pos 0 })

unfoldable pub move_cursor_next : TextArea → TextArea × Result (Unit {0})
move_cursor_next t =
    if leb_ℤ (add64 (mul64 (add64 t.cx (pos 1)) (pos 8)) (pos 8)) t.w
    then (record t { cx = add64 t.cx (pos 1) }, ok tt)
    else new_line (record t { cx = add64 t.cx (pos 1) })

unfoldable pub move_cursor_prev : TextArea → TextArea × Result (Unit {0})
move_cursor_prev t = (record t { cx = max_ℤ (pos 0) (sub64 t.cx (pos 1)) }, ok tt)

module _ (font : ℕ → ℕ → ℕ) where
  unfoldable pub print_char_with_color : ℕ → ℕ → ℕ → TextArea → TextArea × Result (Unit {0})
  print_char_with_color fg bg c t =
      if c == 10
      then new_line t
      else if (c == 8) || (c == 127)
      then move_cursor_prev t
      else and_then
          (on_buf
            (bitmap_draw_char font fg (some bg) (add64 t.x (mul64 t.cx (pos 8))) (line_top t) c) t)
          move_cursor_next

  unfoldable pub print_string_with_color : ℕ → ℕ → List ℕ → TextArea → TextArea × Result (Unit {0})
  print_string_with_color fg bg [] t = (t, ok tt)
  print_string_with_color fg bg (c ∷ cs) t =
      and_then (print_char_with_color fg bg c t) λ t'. print_string_with_color fg bg cs t'

  unfoldable pub print_string : List ℕ → TextArea → TextArea × Result (Unit {0})
  print_string s t = print_string_with_color 0xFFFFFF 0 s t
