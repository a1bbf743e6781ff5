-- ===== src/Graphics.antt =====
-- Ranges and rectangles of noli/src/graphics.rs and noli/src/rect.rs, over 64-bit integers.
pub mod Intersect
pub mod Bitmap
pub mod Paint
pub mod Text
pub mod TextArea
pub mod Cursor
pub mod Sheet
pub mod Flush
mod Spans
pub mod Transfer
use wasabi.Base.{
  ℕ, ◌+◌, Bool, true, false, ◌&&◌, ◌||◌, ltb, if◌then◌else◌, Option, none, some, Result, ok, err,
  panic, ◌>>=◌,
}
use wasabi.Base.Int.{ℤ, pos, negsuc, pos_part, neg_part, leb_ℤ, ltb_ℤ, add64, sub64, min_ℤ, max_ℤ}

pub record ScalarRange : Type 0 where
  pub start : ℤ
  pub end : ℤ

-- `ScalarRange::new`: an empty range is none.
unfoldable pub range_new : ℤ → ℤ → Option ScalarRange
range_new start end = if ltb_ℤ start end then some (record { start = start; end = end }) else none

-- `ScalarRange::intersection`
unfoldable pub range_intersection : ScalarRange → ScalarRange → Option ScalarRange
range_intersection r another = range_new (max_ℤ r.start another.start) (min_ℤ r.end another.end)

pub record Rect : Type 0 where
  pub x : ℤ
  pub y : ℤ
  pub w : ℤ
  pub h : ℤ

-- `Rect::new`
unfoldable pub rect_new : ℤ → ℤ → ℤ → ℤ → Option Rect
rect_new x y w h =
    if ltb_ℤ w (pos 0) || ltb_ℤ h (pos 0)
    then none
    else some (record { x = x; y = y; w = w; h = h })

-- `.unwrap()`
abbrev pub unwrap {ℓ} : {A : Type ℓ} → Option A → Result A
unwrap none = panic
unwrap (some a) = ok a

unfoldable pub frame_ranges : Rect → Result (ScalarRange × ScalarRange)
unfolding range_new
frame_ranges r = do
  rx ← unwrap (range_new r.x (add64 r.x r.w))
  ry ← unwrap (range_new r.y (add64 r.y r.h))
  ok (rx, ry)

abbrev pub from_ranges : Option ScalarRange → Option ScalarRange → Option Rect
from_ranges (some rx) (some ry) =
    some
      (record { x = rx.start; y = ry.start; w = sub64 rx.end rx.start; h = sub64 ry.end ry.start })
from_ranges (some rx) none = none
from_ranges none ry = none

-- `Rect::intersection`
unfoldable pub rect_intersection : Rect → Rect → Result (Option Rect)
unfolding range_intersection frame_ranges
rect_intersection r another = do
  r0 ← frame_ranges r
  r1 ← frame_ranges another
  ok (from_ranges (range_intersection r0.0 r1.0) (range_intersection r0.1 r1.1))
