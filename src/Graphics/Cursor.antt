-- ===== src/Graphics/Cursor.antt =====
-- The cursor of a text area stays where a character fits, whatever is printed and whether or not
-- the drawing succeeds.
use wasabi.Base.{
  ℕ, ◌+◌, ◌-◌, ◌*◌, ◌%◌, ◌^◌, ◌≤◌, ◌<◌, ◌≡◌, refl, ap, ap₂, ◌∙◌, arith, ◌==◌, ◌||◌, some, Result,
  ok, err, panic, List, [], ◌∷◌, Bool-cases, inl, inr, leb, leb→le,
}
use wasabi.Base.Int.{ℤ, pos, leb_ℤ, add64, sub64, mul64, max_ℤ, wrap64}
use wasabi.Graphics.Bitmap.{Bitmap, transfer_rect}
use wasabi.Graphics.Text.{bitmap_draw_char}
use wasabi.Graphics.Paint.{add64_pos, sub64_pos, mul64_pos}
use wasabi.Graphics.TextArea.{
  TextArea, TextAreaMode, scroll, ring, on_buf, clear_line, mark_line, and_then, line_top, fits,
  scroll_up, new_line_scroll, next_in_ring, new_line_ring, new_line_in, new_line, move_cursor_next,
  move_cursor_prev, print_char_with_color, print_string_with_color,
}

-- The cursor is at column `a` and line `b`, and a character of 8 by 16 pixels fits there.
pub record IsInside (w h : ℕ) (t : TextArea) : Type 0 where
  pub column : ℕ
  pub row : ℕ
  pub at_column : t.cx ≡ pos column
  pub at_row : t.cy ≡ pos row
  pub width : t.w ≡ pos w
  pub height : t.h ≡ pos h
  pub column_fits : column * 8 + 8 ≤ w
  pub row_fits : (row + 1) * 16 ≤ h

column_back : (a : ℕ) → a < 2 ^ 62 → max_ℤ (pos 0) (sub64 (pos a) (pos 1)) ≡ pos (a - 1)
unfolding max_ℤ sub64 wrap64
column_back a small = ground arith

module _ (w h : ℕ) (wide : 8 ≤ w) (w_small : w < 2 ^ 62) (h_small : h < 2 ^ 62) where
  drawn-IsInside :
      (b : Bitmap) (t : TextArea) → IsInside w h t → IsInside w h (record t { buf = b })
  drawn-IsInside b t v = record {
    column = v.column;
    row = v.row;
    at_column = v.at_column;
    at_row = v.at_row;
    width = v.width;
    height = v.height;
    column_fits = v.column_fits;
    row_fits = v.row_fits;
  }

  and_then-IsInside :
      (out : TextArea × Result (Unit {0})) (f : TextArea → TextArea × Result (Unit {0}))
      → IsInside w h out.0
      → ((t : TextArea) → IsInside w h t → IsInside w h (f t).0)
      → IsInside w h (and_then out f).0
  and_then-IsInside (t, ok u) f v keep = keep t v
  and_then-IsInside (t, err e) f v keep = v
  and_then-IsInside (t, panic) f v keep = v

  clear_line-IsInside : (t : TextArea) → IsInside w h t → IsInside w h (clear_line t).0
  clear_line-IsInside t v = drawn-IsInside (clear_line t).0.buf t v

  scroll_up-IsInside : (t : TextArea) → IsInside w h t → IsInside w h (scroll_up t).0
  unfolding scroll_up
  scroll_up-IsInside t v =
      and_then-IsInside
        (on_buf (transfer_rect t.x t.y t.x (add64 t.y (pos 16)) t.w (mul64 t.cy (pos 16))) t)
        clear_line
        (drawn-IsInside
          (transfer_rect t.x t.y t.x (add64 t.y (pos 16)) t.w (mul64 t.cy (pos 16)) t.buf).0 t v)
        clear_line-IsInside

  -- Whether a later line fits, on the numbers.
  fits_lem :
      (t : TextArea) (b : ℕ)
      → t.h ≡ pos h
      → b * 16 ≤ h
      → fits (pos b) t ≡ leb ((b + 1) * 16 + 0) (h + 0)
  fits_lem t b e low = rw (add64_pos b 1 (omega arith), mul64_pos (b + 1) 16 (omega arith), e) refl

  -- A text area with its cursor on another line that fits, as its numbers tell.
  at_line :
      (t : TextArea) (b : ℕ) (y : ℤ)
      → IsInside w h t
      → y ≡ pos b
      → (b + 1) * 16 ≤ h
      → (count : ℕ) → IsInside w h (record t { cy = y; ring_count = count })
  at_line t b y v e low count = record {
    column = v.column;
    row = b;
    at_column = v.at_column;
    at_row = e;
    width = v.width;
    height = v.height;
    column_fits = v.column_fits;
    row_fits = low;
  }

  module _ (t : TextArea) (v : IsInside w h t) where
    next_row : add64 t.cy (pos 1) ≡ pos (v.row + 1)
    next_row = ap (λ z. add64 z (pos 1)) v.at_row ∙ add64_pos v.row 1 (omega (arith, v.row_fits))

    same_row : sub64 (add64 t.cy (pos 1)) (pos 1) ≡ pos v.row
    same_row =
        ap (λ z. sub64 z (pos 1)) next_row
        ∙ sub64_pos (v.row + 1) 1 (omega arith) (omega (arith, v.row_fits))
        ∙ ap pos (omega arith)

    next_fits : fits (add64 t.cy (pos 1)) t ≡ leb ((v.row + 2) * 16) h
    next_fits =
        ap (λ z. fits z t) next_row
        ∙ fits_lem t (v.row + 1) v.height (omega (arith, v.row_fits))
        ∙ ap₂ leb (omega arith) (omega arith)

    new_line_scroll-IsInside : IsInside w h (new_line_scroll t).0
    unfolding new_line_scroll
    new_line_scroll-IsInside = elim (Bool-cases (leb ((v.row + 2) * 16) h)) [
      | inl e ↦
          rw (next_fits, e)
            (at_line t (v.row + 1) (add64 t.cy (pos 1)) v next_row
              (omega (arith, leb→le ((v.row + 2) * 16) h)) t.ring_count)
      | inr e ↦
          rw (next_fits, e)
            (scroll_up-IsInside (record t { cy = sub64 (add64 t.cy (pos 1)) (pos 1) })
              (at_line t v.row (sub64 (add64 t.cy (pos 1)) (pos 1)) v same_row v.row_fits
                t.ring_count))
    ]

    next_in_ring-IsInside : IsInside w h (next_in_ring t)
    unfolding next_in_ring
    next_in_ring-IsInside = elim (Bool-cases (leb ((v.row + 2) * 16) h)) [
      | inl e ↦
          rw (next_fits, e)
            (at_line t (v.row + 1) (add64 t.cy (pos 1)) v next_row
              (omega (arith, leb→le ((v.row + 2) * 16) h)) t.ring_count)
      | inr e ↦
          rw (next_fits, e)
            (at_line t 0 (pos 0) v refl (omega (arith, v.row_fits)) ((t.ring_count + 1) % 2 ^ 64))
    ]

  -- A text area with its cursor in another column that fits.
  at_column :
      (t : TextArea) (a : ℕ) (x : ℤ)
      → IsInside w h t
      → x ≡ pos a
      → a * 8 + 8 ≤ w
      → IsInside w h (record t { cx = x })
  at_column t a x v e low = record {
    column = a;
    row = v.row;
    at_column = e;
    at_row = v.at_row;
    width = v.width;
    height = v.height;
    column_fits = low;
    row_fits = v.row_fits;
  }

  new_line_in-IsInside :
      (mode : TextAreaMode) (t : TextArea) → IsInside w h t → IsInside w h (new_line_in mode t).0
  unfolding new_line_in new_line_ring
  new_line_in-IsInside scroll t v = new_line_scroll-IsInside t v
  new_line_in-IsInside ring t v =
      and_then-IsInside (mark_line t) (λ t'. clear_line (next_in_ring t'))
        (drawn-IsInside (mark_line t).0.buf t v)
        (λ t' v'. clear_line-IsInside (next_in_ring t') (next_in_ring-IsInside t' v'))

  new_line-IsInside :
      (t : TextArea) (x : ℤ) → IsInside w h t → IsInside w h (new_line (record t { cx = x })).0
  unfolding new_line
  new_line-IsInside t x v =
      new_line_in-IsInside t.mode (record t { cx = pos 0 }) (at_column t 0 (pos 0) v refl wide)

  move_cursor_next-IsInside : (t : TextArea) → IsInside w h t → IsInside w h (move_cursor_next t).0
  unfolding move_cursor_next
  move_cursor_next-IsInside t v = elim (Bool-cases (leb ((v.column + 1) * 8 + 8) w)) [
    | inl e ↦
        rw (test, e)
          (at_column t (v.column + 1) (add64 t.cx (pos 1)) v next_column
            (leb→le ((v.column + 1) * 8 + 8) w e))
    | inr e ↦ rw (test, e) (new_line-IsInside t (add64 t.cx (pos 1)) v)
  ]
    where
      next_column : add64 t.cx (pos 1) ≡ pos (v.column + 1)
      next_column =
          ap (λ z. add64 z (pos 1)) v.at_column
          ∙ add64_pos v.column 1 (omega (arith, v.column_fits))

      width_next : add64 (mul64 (add64 t.cx (pos 1)) (pos 8)) (pos 8) ≡ pos ((v.column + 1) * 8 + 8)
      width_next =
          ap (λ z. add64 (mul64 z (pos 8)) (pos 8)) next_column
          ∙ ap (λ z. add64 z (pos 8)) (mul64_pos (v.column + 1) 8 (omega (arith, v.column_fits)))
          ∙ add64_pos ((v.column + 1) * 8) 8 (omega (arith, v.column_fits))

      test :
          leb_ℤ (add64 (mul64 (add64 t.cx (pos 1)) (pos 8)) (pos 8)) t.w
          ≡ leb ((v.column + 1) * 8 + 8) w
      test = ap₂ leb_ℤ width_next v.width ∙ ap₂ leb (omega arith) (omega arith)

  move_cursor_prev-IsInside : (t : TextArea) → IsInside w h t → IsInside w h (move_cursor_prev t).0
  unfolding move_cursor_prev
  move_cursor_prev-IsInside t v =
      at_column t (v.column - 1) (max_ℤ (pos 0) (sub64 t.cx (pos 1))) v
        (ap (λ z. max_ℤ (pos 0) (sub64 z (pos 1))) v.at_column
          ∙ column_back v.column (omega (arith, v.column_fits)))
        (omega (arith, v.column_fits))

  module _ (font : ℕ → ℕ → ℕ) (fg bg : ℕ) where
    print_char-IsInside :
        (c : ℕ) (t : TextArea)
        → IsInside w h t
        → IsInside w h (print_char_with_color font fg bg c t).0
    unfolding print_char_with_color
    print_char-IsInside c t v = elim (Bool-cases (c == 10)) [
      | inl e ↦ rw e (new_line-IsInside t t.cx v)
      | inr e ↦ elim (Bool-cases ((c == 8) || (c == 127))) [
        | inl f ↦ rw (e, f) (move_cursor_prev-IsInside t v)
        | inr f ↦
            rw (e, f)
              (and_then-IsInside _ move_cursor_next
                (drawn-IsInside
                  (bitmap_draw_char font fg (some bg) (add64 t.x (mul64 t.cx (pos 8))) (line_top t)
                    c t.buf).0
                  t v)
                move_cursor_next-IsInside)
      ]
    ]

    -- In a text area at least one character wide, with the cursor where a character fits, printing
    -- a text leaves the cursor where a character fits, in both modes, whether or not the drawing
    -- succeeds, and leaves the size of the area as it was.
    pub print_string-IsInside :
        (s : List ℕ) (t : TextArea)
        → IsInside w h t
        → IsInside w h (print_string_with_color font fg bg s t).0
    unfolding print_string_with_color
    print_string-IsInside [] t v = v
    print_string-IsInside (c ∷ cs) t v =
        and_then-IsInside (print_char_with_color font fg bg c t)
          (print_string_with_color font fg bg cs) (print_char-IsInside c t v)
          (print_string-IsInside cs)
