-- ===== src/Examples/GraphicsTests.antt =====
-- noli/src/rect.rs and noli/src/bitmap.rs at concrete inputs.
use wasabi.Base.{ℕ, ◌+◌, ◌≡◌, refl, arith, ◌&&◌, ltb, leb, Option, some, ok, List, [], ◌∷◌, panic}
use wasabi.Base.Int.{ℤ, pos, negsuc, add64, sub64, wrap64, min_ℤ, max_ℤ, mul64}
use wasabi.Graphics.{Rect, rect_new, rect_intersection, frame_ranges, range_intersection, range_new}
use wasabi.Graphics.Intersect.{covers, covers_some, IsFrameSome, rect_intersection-covers}
use wasabi.Graphics.Bitmap.{
  Bitmap, is_in_y_range, pixel_at, bitmap_draw_rect, transfer_rect, bitmap_draw_point,
  is_in_x_range, unchecked_draw_point, unchecked_pixel_at,
}
use wasabi.Graphics.Paint.{bitmap, Painted, bitmap_draw_rect_lem}
use wasabi.Graphics.TextArea.{TextArea, scroll}
use wasabi.Graphics.Cursor.{IsInside}
use wasabi.Graphics.Flush.{flush_area-flush, IsWithin, frame}
use wasabi.Graphics.Sheet.{Sheet, flush_area, draw_bmp_clipped, flush, pixel_at_mut}
use wasabi.Graphics.Text.{each}
use wasabi.Graphics.Transfer.{Moved, transfer_rect_lem}

abbrev left_rect : Rect
left_rect = record { x = negsuc 1; y = pos 0; w = pos 4; h = pos 3 }

abbrev right_rect : Rect
right_rect = record { x = pos 1; y = pos 1; w = pos 5; h = pos 5 }

rect_intersection-covers_example :
    (o : Option Rect) × (rect_intersection left_rect right_rect ≡ ok o)
    × IsFrameSome o
    × ((p q : ℤ) → covers_some o p q ≡ (covers left_rect p q && covers right_rect p q))
rect_intersection-covers_example =
    rect_intersection-covers left_rect right_rect (omega arith) (omega arith)

meet :
    rect_intersection left_rect right_rect
    ≡ ok (some (record { x = pos 1; y = pos 1; w = pos 1; h = pos 2 }))
unfolding rect_intersection range_intersection frame_ranges range_new add64 sub64 wrap64 min_ℤ max_ℤ
meet = refl

-- A rectangle with no columns can be made, but has no ranges.
empty_rect : frame_ranges (record { x = pos 0; y = pos 0; w = pos 0; h = pos 1 }) ≡ panic
unfolding frame_ranges range_new add64 wrap64
empty_rect = refl

-- Two rows of three pixels, each line of four cells.
abbrev cells : List ℕ
cells = 1 ∷ 2 ∷ 3 ∷ 9 ∷ 4 ∷ 5 ∷ 6 ∷ 9 ∷ []

bitmap_draw_rect_lem_example :
    (cells' : List ℕ) × (bitmap_draw_rect 7
        (pos 1)
        (pos 0)
        (pos 2)
        (pos 2)
        (bitmap 3 2 4 (omega arith) (omega arith) cells)
      ≡ (bitmap 3 2 4 (omega arith) (omega arith) cells', ok tt))
    × Painted 3 2 4
        (omega arith)
        (omega arith)
        7
        (λ p q. leb 0 q && ltb q (0 + 2) && (leb 1 p && ltb p (1 + 2)))
        cells
        cells'
bitmap_draw_rect_lem_example =
    bitmap_draw_rect_lem 3 2 4 (omega arith) (omega arith) 7 1 0 2 2 cells refl (omega arith)
      (omega arith) (omega arith) (omega arith)

transfer_rect_lem_example :
    (cells' : List ℕ) × (transfer_rect
        (pos 1)
        (pos 0)
        (pos 0)
        (pos 0)
        (pos 2)
        (pos 2)
        (bitmap 3 2 4 (omega arith) (omega arith) cells)
      ≡ (bitmap 3 2 4 (omega arith) (omega arith) cells', ok tt))
    × Moved 3 2 4
        (omega arith)
        (omega arith)
        1
        0
        0
        0
        2
        2
        (omega arith)
        (omega arith)
        (omega arith)
        (omega arith)
        cells
        (λ p q. leb 0 q && ltb q (0 + 2) && (leb 1 p && ltb p (1 + 2)))
        cells'
transfer_rect_lem_example =
    transfer_rect_lem 3 2 4 (omega arith) (omega arith) 1 0 0 0 2 2 (omega arith) (omega arith)
      (omega arith) (omega arith) cells refl (omega arith) (omega arith)

-- A point below the bitmap passes the guard, and the write leaves the buffer.
below :
    (bitmap_draw_point 7 (pos 0) (pos 2) (bitmap 3 2 4 (omega arith) (omega arith) cells)).1 ≡ panic
unfolding bitmap_draw_point is_in_x_range unchecked_draw_point unchecked_pixel_at add64 mul64 wrap64
    min_ℤ
below = refl

-- A text area of two columns and two lines, in a bitmap that is too small for it: drawing fails.
abbrev area : TextArea
area = record {
  buf = bitmap 3 2 4 (omega arith) (omega arith) cells;
  x = pos 0;
  y = pos 0;
  w = pos 16;
  h = pos 32;
  cx = pos 1;
  cy = pos 1;
  mode = scroll;
  ring_count = 0;
}

area-IsInside : IsInside 16 32 area
area-IsInside = record {
  column = 1;
  row = 1;
  at_column = refl;
  at_row = refl;
  width = refl;
  height = refl;
  column_fits = omega arith;
  row_fits = omega arith;
}

-- `just_copy` of the source: a bitmap of ones, drawn over one of zeros.
abbrev square : ℕ → Bitmap
square color = record {
  width = pos 2;
  height = pos 2;
  pixels_per_line = pos 2;
  buf = color ∷ color ∷ color ∷ color ∷ [];
}

just_copy : draw_bmp_clipped (square 1) (pos 0) (pos 0) (square 0) ≡ (square 1, ok (some tt))
unfolding draw_bmp_clipped rect_new rect_intersection range_intersection frame_ranges range_new
    add64 wrap64 max_ℤ min_ℤ sub64 each pixel_at_mut is_in_x_range is_in_y_range unchecked_pixel_at
    mul64 pixel_at
just_copy = refl

-- Drawn one to the left and one down, the source covers one pixel of the target.
clipped : (draw_bmp_clipped (square 1) (negsuc 0) (pos 1) (square 0)).0.buf ≡ 0 ∷ 0 ∷ 1 ∷ 0 ∷ []
unfolding draw_bmp_clipped rect_new rect_intersection range_intersection frame_ranges range_new
    add64 wrap64 max_ℤ min_ℤ sub64 each pixel_at_mut is_in_x_range is_in_y_range unchecked_pixel_at
    mul64 pixel_at
clipped = refl

flushed :
    flush (record { x = pos 5; y = negsuc 0; bitmap = record (square 3) { height = pos 1 } })
    ≡ ok (
        record { color = 3; x = pos 5; y = negsuc 0 }
        ∷ record { color = 3; x = pos 6; y = negsuc 0 }
        ∷ [])
unfolding flush pixel_at is_in_x_range add64 wrap64 min_ℤ is_in_y_range unchecked_pixel_at mul64
flushed = refl

abbrev small_sheet : Sheet
small_sheet = record { x = pos 5; y = negsuc 0; bitmap = square 3 }

abbrev screen_part : Rect
screen_part = record { x = pos 0; y = negsuc 4; w = pos 20; h = pos 20 }

area_contains : IsWithin (frame small_sheet) screen_part
unfolding add64 wrap64
area_contains = omega arith

flush_area-flush_example : flush_area screen_part small_sheet ≡ flush small_sheet
flush_area-flush_example =
    flush_area-flush small_sheet screen_part (omega arith) (omega arith) area_contains
