-- ===== src/Graphics/Transfer.antt =====
-- `transfer_rect` moves a rectangle as if all its pixels were read before any is written.
use wasabi.Base.{
  ℕ, zero, suc, ◌+◌, ◌-◌, ◌*◌, ◌^◌, ◌≤◌, ◌<◌, ◌≡◌, ◌≢◌, refl, ap₂, ◌∙◌, arith, Bool, false, ◌&&◌,
  ◌||◌, ltb, leb, if◌then◌else◌, Result, ok, List, length, get_or, set, ◌⊎◌, inl, inr, Bool-cases,
  ◌==◌,
}
use wasabi.Base.Int.{pos}
use wasabi.Graphics.Bitmap.{
  Bitmap, unchecked_draw_point, copy_pixel, copy_row, copy_row_rev, copy_rows, copy_rows_rev,
  transfer_loops, transfer_rect,
}
use wasabi.Graphics.Paint.{
  add64_pos, bitmap, pixel, unchecked_pixel_at_lem, Painted, set-Painted, line_small, rows_small,
}
use wasabi.Graphics.Spans.{spans_lem}

module _ (w h l : ℕ) (line : w ≤ l) (size : l * h * 4 < 2 ^ 63) (dx dy sx sy n m : ℕ)
    (to_x : dx + n ≤ w) (to_y : dy + m ≤ h) (from_x : sx + n ≤ w) (from_y : sy + m ≤ h)
    (orig : List ℕ) where
  -- The pixels chosen have been moved, and the others are as they were.
  pub record Moved (chosen : ℕ → ℕ → Bool) (cells : List ℕ) : Type 0 where
    pub whole : length cells ≡ l * h
    pub pixels :
        (p q : ℕ)
        → p < l
        → q < h
        → pixel w h l line size cells p q ≡ (
            if chosen p q
            then pixel w h l line size orig (p + sx - dx) (q + sy - dy)
            else pixel w h l line size orig p q)

  Moved-eq :
      (d e : ℕ → ℕ → Bool) (cells : List ℕ)
      → Moved d cells
      → ((p q : ℕ) → d p q ≡ e p q)
      → Moved e cells
  Moved-eq d e cells v same = record {
    whole = v.whole;
    pixels = λ p q hp hq. rw (← same p q) (v.pixels p q hp hq);
  }

  abbrev bm : List ℕ → Bitmap
  bm = bitmap w h l line size

  abbrev Runs : (Bitmap × Result (Unit {0})) → (ℕ → ℕ → Bool) → Type 0
  Runs out d = (cells : List ℕ) × (out ≡ (bm cells, ok tt)) × Moved d cells

  module _ (d : ℕ → ℕ → Bool) (cells : List ℕ) (v : Moved d cells) (i j : ℕ) (hi : i < n)
      (hj : j < m) (unread : d (sx + i) (sy + j) ≡ false) where
    small_x : w < 2 ^ 61
    small_x = omega (arith, line_small w h l line size (omega arith))

    small_y : h < 2 ^ 61
    small_y = rows_small w h l line size (omega arith)

    read_lem :
        pixel w h l line size cells (sx + i) (sy + j) ≡ pixel w h l line size orig (sx + i) (sy + j)
    read_lem = v.pixels (sx + i) (sy + j) (omega arith) (omega arith) ∙ rw unread

    abbrev moved : List ℕ
    moved = set cells ((dy + j) * l + (dx + i)) (get_or cells ((sy + j) * l + (sx + i)) 0)

    copy_runs :
        copy_pixel (pos dx) (pos dy) (pos sx) (pos sy) (pos i) (pos j) (bm cells)
        ≡ (bm moved, ok tt)
    unfolding copy_pixel unchecked_draw_point
    copy_runs =
        rw
          (
            add64_pos sx i (omega (arith, small_x)),
            add64_pos sy j (omega (arith, small_y)),
            add64_pos dx i (omega (arith, small_x)),
            add64_pos dy j (omega (arith, small_y)),
            unchecked_pixel_at_lem w h l line size cells v.whole (sx + i) (sy + j) (omega arith)
                (omega arith),
            unchecked_pixel_at_lem w h l line size cells v.whole (dx + i) (dy + j) (omega arith)
                (omega arith),
          )
          refl

    painted :
        Painted w h l line size
          (get_or cells ((sy + j) * l + (sx + i)) 0)
          (λ p q. p == dx + i && q == dy + j)
          cells
          moved
    painted =
        set-Painted w h l line size (get_or cells ((sy + j) * l + (sx + i)) 0) cells (dx + i)
          (dy + j) v.whole (omega arith) (omega arith)

    moved_pixels :
        (p q : ℕ)
        → p < l
        → q < h
        → pixel w h l line size moved p q ≡ (
            if (p == dx + i && q == dy + j) || d p q
            then pixel w h l line size orig (p + sx - dx) (q + sy - dy)
            else pixel w h l line size orig p q)
    moved_pixels p q hp hq = elim (Bool-cases (p == dx + i && q == dy + j)) [
      | inl e ↦
          let px : p ≡ dx + i = ground arith in
          let qy : q ≡ dy + j = ground arith in
          painted.pixels p q hp hq
          ∙ rw e (read_lem ∙ ap₂ (pixel w h l line size orig) (omega arith) (omega arith))
      | inr e ↦ painted.pixels p q hp hq ∙ rw e (v.pixels p q hp hq)
    ]

    copy_Moved :
        Runs
          (copy_pixel (pos dx) (pos dy) (pos sx) (pos sy) (pos i) (pos j) (bm cells))
          (λ p q. (p == dx + i && q == dy + j) || d p q)
    copy_Moved = (moved, copy_runs, record { whole = painted.whole; pixels = moved_pixels })

  -- One row, over the pixels moved before it.
  module _ (d : ℕ → ℕ → Bool) (j : ℕ) (hj : j < m) where
    abbrev upto : ℕ → ℕ → ℕ → Bool
    upto i p q = (q == dy + j && leb dx p && ltb p (dx + i)) || d p q

    abbrev from : ℕ → ℕ → ℕ → Bool
    from i p q = (q == dy + j && leb (dx + i) p && ltb p (dx + n)) || d p q

    copy_row_lem :
        (k i : ℕ) (cells : List ℕ)
        → i + k ≡ n
        → Moved (upto i) cells
        → ((x : ℕ) → x < n → upto x (sx + x) (sy + j) ≡ false)
        → Runs (copy_row (pos dx) (pos dy) (pos sx) (pos sy) j k i (bm cells)) (upto n)
    unfolding copy_row
    copy_row_lem zero i cells e v unread =
        (cells, refl, Moved-eq (upto i) (upto n) cells v (λ p q. ground arith))
    copy_row_lem (suc k) i cells e v unread =
        let (cells1, runs1, v1) =
          copy_Moved (upto i) cells v i j (omega arith) hj (unread i (omega arith)) in
        let (cells2, runs2, v2) =
          copy_row_lem k (i + 1) cells1 (omega arith)
            (Moved-eq (λ p q. (p == dx + i && q == dy + j) || upto i p q) (upto (i + 1)) cells1 v1
              (λ p q. ground arith))
            unread in
        (cells2, rw runs1 runs2, v2)

    copy_row_rev_lem :
        (i : ℕ) (cells : List ℕ)
        → i ≤ n
        → Moved (from i) cells
        → ((x : ℕ) → x < n → from (x + 1) (sx + x) (sy + j) ≡ false)
        → Runs (copy_row_rev (pos dx) (pos dy) (pos sx) (pos sy) j i (bm cells)) (from 0)
    unfolding copy_row_rev
    copy_row_rev_lem zero cells e v unread = (cells, refl, v)
    copy_row_rev_lem (suc i) cells e v unread =
        let (cells1, runs1, v1) =
          copy_Moved (from (i + 1)) cells
            (Moved-eq (from (suc i)) (from (i + 1)) cells v (λ p q. ground arith)) i j (omega arith)
            hj (unread i (omega arith)) in
        let (cells2, runs2, v2) =
          copy_row_rev_lem i cells1 (omega arith)
            (Moved-eq (λ p q. (p == dx + i && q == dy + j) || from (i + 1) p q) (from i) cells1 v1
              (λ p q. ground arith))
            unread in
        (cells2, rw runs1 runs2, v2)

  -- The rows moved so far, from the first one or from the last one on.
  abbrev above : ℕ → ℕ → ℕ → Bool
  above j p q = leb dy q && ltb q (dy + j) && (leb dx p && ltb p (dx + n))

  abbrev below : ℕ → ℕ → ℕ → Bool
  below j p q = leb (dy + j) q && ltb q (dy + m) && (leb dx p && ltb p (dx + n))

  copy_rows_lem :
      (row : ℕ → Bitmap → Bitmap × Result (Unit {0}))
      → ((j : ℕ) (cells : List ℕ)
          → j < m
          → Moved (above j) cells
          → Runs (row j (bm cells)) (above (j + 1)))
      → (k j : ℕ) (cells : List ℕ) → j + k ≡ m
      → Moved (above j) cells
      → Runs (copy_rows (pos dx) (pos dy) (pos sx) (pos sy) row k j (bm cells)) (above m)
  unfolding copy_rows
  copy_rows_lem row one zero j cells e v =
      (cells, refl, Moved-eq (above j) (above m) cells v (λ p q. ground arith))
  copy_rows_lem row one (suc k) j cells e v =
      let (cells1, runs1, v1) = one j cells (omega arith) v in
      let (cells2, runs2, v2) = copy_rows_lem row one k (j + 1) cells1 (omega arith) v1 in
      (cells2, rw runs1 runs2, v2)

  copy_rows_rev_lem :
      (j : ℕ) (cells : List ℕ)
      → sy < dy
      → j ≤ m
      → Moved (below j) cells
      → Runs (copy_rows_rev (pos dx) (pos dy) (pos sx) (pos sy) n j (bm cells)) (below 0)
  unfolding copy_rows_rev
  copy_rows_rev_lem zero cells down e v = (cells, refl, v)
  copy_rows_rev_lem (suc j) cells down e v =
      let (cells1, runs1, v1) =
        copy_row_lem (below (j + 1)) j (omega arith) n 0 cells (omega arith)
          (Moved-eq (below (suc j)) (upto (below (j + 1)) j (omega arith) 0) cells v
            (λ p q. ground arith))
          (λ x hx. ground arith) in
      let (cells2, runs2, v2) = copy_rows_rev_lem j cells1 down (omega arith) (
        Moved-eq (upto (below (j + 1)) j (omega arith) n) (below j) cells1 v1
          (λ p q. ground arith)) in
      (cells2, rw runs1 runs2, v2)

  module _ (whole : length orig ≡ l * h) where
    start : Moved (λ p q. false) orig
    start = record { whole = whole; pixels = λ p q hp hq. refl }

    abbrev loops : Bitmap × Result (Unit {0})
    loops = transfer_loops (pos dx) (pos dy) (pos sx) (pos sy) n m (bm orig)

    -- Upwards, or to the left in the same rows.
    first_rows :
        (sy ≢ dy) ⊎ (dx < sx)
        → dy ≤ sy
        → Runs
            (copy_rows
              (pos dx)
              (pos dy)
              (pos sx)
              (pos sy)
              (λ y. copy_row (pos dx) (pos dy) (pos sx) (pos sy) y n 0)
              m
              0
              (bm orig))
            (above m)
    first_rows order up =
        copy_rows_lem (λ y. copy_row (pos dx) (pos dy) (pos sx) (pos sy) y n 0)
          (λ j cells hj v.
            let (cells1, runs, v1) =
              copy_row_lem (above j) j hj n 0 cells (omega arith)
                (Moved-eq (above j) (upto (above j) j hj 0) cells v (λ p q. ground arith))
                (λ x hx. ground arith) in
            (
              cells1,
              runs,
              Moved-eq (upto (above j) j hj n) (above (j + 1)) cells1 v1 (λ p q. ground arith),
            ))
          m 0 orig (omega arith)
          (Moved-eq (λ p q. false) (above 0) orig start (λ p q. ground arith))

    -- To the right in the same rows.
    same_rows :
        sx < dx
        → dy ≡ sy
        → Runs
            (copy_rows
              (pos dx)
              (pos dy)
              (pos sx)
              (pos sy)
              (λ y. copy_row_rev (pos dx) (pos dy) (pos sx) (pos sy) y n)
              m
              0
              (bm orig))
            (above m)
    same_rows right level =
        copy_rows_lem (λ y. copy_row_rev (pos dx) (pos dy) (pos sx) (pos sy) y n)
          (λ j cells hj v.
            let (cells1, runs, v1) =
              copy_row_rev_lem (above j) j hj n cells (omega arith)
                (Moved-eq (above j) (from (above j) j hj n) cells v (λ p q. ground arith))
                (λ x hx. ground arith) in
            (
              cells1,
              runs,
              Moved-eq (from (above j) j hj 0) (above (j + 1)) cells1 v1 (λ p q. ground arith),
            ))
          m 0 orig (omega arith)
          (Moved-eq (λ p q. false) (above 0) orig start (λ p q. ground arith))

    last_rows :
        sy < dy → Runs (copy_rows_rev (pos dx) (pos dy) (pos sx) (pos sy) n m (bm orig)) (above m)
    last_rows down =
        let (cells, runs, v) =
          copy_rows_rev_lem m orig down (omega arith)
            (Moved-eq (λ p q. false) (below m) orig start (λ p q. ground arith)) in
        (cells, runs, Moved-eq (below 0) (above m) cells v (λ p q. ground arith))

    in_place : dx ≡ sx → dy ≡ sy → Runs (bm orig, ok tt) (above m)
    in_place ex ey = (
      orig,
      refl,
      record {
        whole = whole;
        pixels = λ p q hp hq.
            let same : pixel w h l line size orig p q
                ≡ pixel w h l line size orig (p + sx - dx) (q + sy - dy) =
              ap₂ (pixel w h l line size orig) (omega arith) (omega arith) in
            ground (arith, same);
      },
    )

    loops_lem : Runs loops (above m)
    unfolding transfer_loops
    loops_lem = elim (Bool-cases (ltb dy sy)) [
      | inl e ↦ let r = first_rows (ground arith) (ground arith) in (r.0, ground (arith, r.1), r.2)
      | inr e ↦ elim (Bool-cases (ltb sy dy)) [
        | inl f ↦ let r = last_rows (ground arith) in (r.0, ground (arith, r.1), r.2)
        | inr f ↦ elim (Bool-cases (ltb dx sx)) [
          | inl g ↦
              let r = first_rows (ground arith) (ground arith) in (r.0, ground (arith, r.1), r.2)
          | inr g ↦ elim (Bool-cases (ltb sx dx)) [
            | inl k ↦
                let r = same_rows (ground arith) (ground arith) in (r.0, ground (arith, r.1), r.2)
            | inr k ↦
                let r = in_place (ground arith) (ground arith) in (r.0, ground (arith, r.1), r.2)
          ]
        ]
      ]
    ]

    -- Moving a rectangle of `n` by `m` pixels, not empty, from (sx, sy) to (dx, dy) inside a bitmap
    -- succeeds with no access outside of the buffer. Afterwards each pixel of the target has the
    -- value that the matching pixel of the source had at the start, however the two overlap, and the
    -- other pixels, those past the width included, are as before.
    pub transfer_rect_lem :
        0 < n
        → 0 < m
        → (cells : List ℕ) × (transfer_rect
              (pos dx)
              (pos dy)
              (pos sx)
              (pos sy)
              (pos n)
              (pos m)
              (bitmap w h l line size orig)
            ≡ (bitmap w h l line size cells, ok tt))
          × Moved (λ p q. leb dy q && ltb q (dy + m) && (leb dx p && ltb p (dx + n))) cells
    unfolding transfer_rect
    transfer_rect_lem some_columns some_rows =
        let (cells, runs, v) = loops_lem in
        (
          cells,
          rw
              (
                spans_lem w h l line size orig sx sy n m from_x from_y some_columns some_rows,
                spans_lem w h l line size orig dx dy n m to_x to_y some_columns some_rows,
              )
              (ap₂
                  (λ (a b : ℕ).
                    transfer_loops (pos dx) (pos dy) (pos sx) (pos sy) a b
                      (bitmap w h l line size orig))
                  (omega arith) (omega arith)
                ∙ runs),
          v,
        )
