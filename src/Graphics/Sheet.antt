-- ===== src/Graphics/Sheet.antt =====
-- noli/src/sheet.rs, and the clipped drawing of noli/src/bitmap.rs. The screen belongs to the
-- kernel: drawing on it is the list of the points that are sent, with their colors, and the answers
-- of the system call are dropped, as in the source.
use wasabi.Base.{
  ℕ, zero, suc, ◌+◌, ◌&&◌, if◌then◌else◌, Option, none, some, Result, ok, err, panic, List, [], ◌∷◌,
  ◌++◌, set, ◌>>=◌,
}
use wasabi.Base.Int.{ℤ, pos, add64, sub64}
use wasabi.Graphics.{Rect, ScalarRange, rect_new, rect_intersection, frame_ranges, unwrap}
use wasabi.Graphics.Bitmap.{
  Bitmap, is_in_x_range, is_in_y_range, unchecked_pixel_at, pixel_at, rounds, new,
}
use wasabi.Graphics.Text.{each}

-- `pixel_at_mut`: the place of a pixel
unfoldable pub pixel_at_mut : Bitmap → ℤ → ℤ → Result (Option ℕ)
pixel_at_mut b x y =
    if is_in_x_range b x && is_in_y_range b y
    then (unchecked_pixel_at b x y >>= λ i. ok (some i))
    else ok none

-- One pixel of `draw_bmp_clipped`, where both bitmaps have it
abbrev pub copy_found : Option ℕ → Option ℕ → Bitmap → Bitmap
copy_found none found dst = dst
copy_found (some i) none dst = dst
copy_found (some i) (some v) dst = record dst { buf = set dst.buf i v }

abbrev pub or_keep : Bitmap → Result Bitmap → Bitmap × Result (Unit {0})
or_keep dst (ok b) = (b, ok tt)
or_keep dst (err e) = (dst, err e)
or_keep dst panic = (dst, panic)

unfoldable pub clip_pixel : Bitmap → ℤ → ℤ → ℤ → ℤ → Bitmap → Bitmap × Result (Unit {0})
clip_pixel src dx dy x y dst = or_keep dst do
  place ← pixel_at_mut dst x y
  found ← pixel_at src (sub64 x dx) (sub64 y dy)
  ok (copy_found place found dst)

unfoldable pub clip_loops :
    Bitmap → ℤ → ℤ → ScalarRange → ScalarRange → Bitmap → Bitmap × Result (Unit {0})
unfolding clip_pixel
clip_loops src dx dy rx ry dst =
    each (rounds ry.start ry.end) 0
      (λ j b1.
        each (rounds rx.start rx.end) 0
          (λ i b2. clip_pixel src dx dy (add64 rx.start (pos i)) (add64 ry.start (pos j)) b2) b1)
      dst

-- The result of `draw_bmp_clipped`: `some` if something was to be copied
abbrev pub copied : Bitmap × Result (Unit {0}) → Bitmap × Result (Option (Unit {0}))
copied (b, ok u) = (b, ok (some tt))
copied (b, err e) = (b, err e)
copied (b, panic) = (b, panic)

abbrev pub copy_ranges :
    Bitmap
    → ℤ
    → ℤ
    → Bitmap
    → Result (ScalarRange × ScalarRange)
    → Bitmap × Result (Option (Unit {0}))
copy_ranges src dx dy dst (ok (rx, ry)) = copied (clip_loops src dx dy rx ry dst)
copy_ranges src dx dy dst (err e) = (dst, err e)
copy_ranges src dx dy dst panic = (dst, panic)

abbrev pub copy_within :
    Bitmap → ℤ → ℤ → Result (Option Rect) → Bitmap → Bitmap × Result (Option (Unit {0}))
copy_within src dx dy (ok none) dst = (dst, ok none)
copy_within src dx dy (ok (some r)) dst = copy_ranges src dx dy dst (frame_ranges r)
copy_within src dx dy (err e) dst = (dst, err e)
copy_within src dx dy panic dst = (dst, panic)

-- The rectangle that both bitmaps share, if both have one
abbrev pub shared_rect : Option Rect → Option Rect → Result (Option Rect)
shared_rect none src_rect = ok none
shared_rect (some d) none = ok none
shared_rect (some d) (some s) = rect_intersection d s

unfoldable pub draw_bmp_clipped : Bitmap → ℤ → ℤ → Bitmap → Bitmap × Result (Option (Unit {0}))
unfolding clip_loops
draw_bmp_clipped src dx dy dst =
    copy_within src dx dy
      (shared_rect (rect_new (pos 0) (pos 0) dst.width dst.height)
        (rect_new dx dy src.width src.height))
      dst

pub record Sheet : Type 0 where
  pub x : ℤ
  pub y : ℤ
  pub bitmap : Bitmap

-- `Sheet::new`
unfoldable pub sheet_new : Rect → Result Sheet
sheet_new r = new r.w r.h r.w >>= λ b. ok (record { x = r.x; y = r.y; bitmap = b })

unfoldable pub set_position : ℤ → ℤ → Sheet → Sheet
set_position x y s = record s { x = x; y = y }

-- `Sheet::rect`
unfoldable pub sheet_rect : Sheet → Result Rect
sheet_rect s = unwrap (rect_new s.x s.y s.bitmap.width s.bitmap.height)

-- A point sent to the screen: its color and its place
pub record Point : Type 0 where
  pub color : ℕ
  pub x : ℤ
  pub y : ℤ

-- `.cloned().unwrap_or_default()`
abbrev pub or_default : Option ℕ → ℕ
or_default none = 0
or_default (some p) = p

unfoldable pub flush_pixel : Sheet → ℤ → ℤ → Result (List Point)
flush_pixel s x y = pixel_at s.bitmap x y >>= λ p.
    ok (record { color = or_default p; x = add64 x s.x; y = add64 y s.y } ∷ [])

-- A loop that sends points
unfoldable pub send_each : ℕ → ℕ → (ℕ → Result (List Point)) → Result (List Point)
send_each zero i send = ok []
send_each (suc n) i send = do points ← send i; rest ← send_each n (i + 1) send; ok (points ++ rest)

unfoldable pub flush_ranges : Sheet → ScalarRange → ScalarRange → Result (List Point)
unfolding flush_pixel send_each
flush_ranges s rx ry = send_each (rounds ry.start ry.end) 0 λ j.
    send_each (rounds rx.start rx.end) 0
      λ i. flush_pixel s (add64 rx.start (pos i)) (add64 ry.start (pos j))

abbrev pub flush_found : Sheet → Option Rect → Result (List Point)
flush_found s none = ok []
flush_found s (some r) = do
  local ← unwrap (rect_new (sub64 r.x s.x) (sub64 r.y s.y) r.w r.h)
  ranges ← frame_ranges local
  flush_ranges s ranges.0 ranges.1

unfoldable pub flush_area : Rect → Sheet → Result (List Point)
unfolding flush_ranges
flush_area global s = do
  own ← sheet_rect s
  found ← rect_intersection own global
  flush_found s found

unfoldable pub flush : Sheet → Result (List Point)
unfolding flush_ranges
flush s =
    flush_ranges s (record { start = pos 0; end = s.bitmap.width })
      (record { start = pos 0; end = s.bitmap.height })
