-- ===== src/Paging/Rounds.antt =====
-- The loop of `create_mapping`: the entries of the pages of a range.
use wasabi.Base.{
  ℕ, zero, suc, ◌+◌, ◌-◌, ◌*◌, ◌/◌, ◌%◌, ◌^◌, ◌≤◌, ◌<◌, ◌≡◌, ◌≢◌, refl, ap, ◌∙◌, arith, bit_or,
  Bool, true, false, Result, ok, err, if◌then◌else◌, Bool-cases, inl, inr, ◌&&◌, ltb, leb, ◌==◌,
  ◌%◌, page_not_found,
}
use wasabi.Paging.{Boxes, Heap, is_present, map_page, map_pages, bits, PageAttr, page_size, bind}
use wasabi.Paging.Words.{bits-lt, leaf, leaf-bit_or, is_present_lem}
use wasabi.Paging.Tree.{Labels, walk}
use wasabi.Paging.Page.{
  Rooted, after, after-Rooted, after-count, map_page_runs, walk_elsewhere, walk-page, target, d3,
}

-- The entry of a page that was mapped, if the attributes say that it is present
abbrev pub found : ℕ → PageAttr → Result ℕ
found phys attr = if is_present (bits attr) then ok (phys + bits attr) else err page_not_found

module _ (b : Boxes) (root virt_start phys : ℕ) (attr : PageAttr)
    (start_aligned : virt_start % 4096 ≡ 0) (phys_aligned : phys % 4096 ≡ 0) where
  -- What the loop leaves behind, for the pages from `addr` to `stop`.
  pub record Mapped (addr stop : ℕ) (s : Heap) (out : Heap × Result (Unit {0})) : Type 0 where
    pub heap : Heap
    pub labels : Labels
    pub runs : out ≡ (heap, ok tt)
    pub rooted : Rooted b root heap labels
    pub walks :
        (v : ℕ)
        → v < 2 ^ 48
        → walk 3 heap root v ≡ (
            if leb addr v && ltb v stop
            then found (phys + (v / 4096 * 4096 - virt_start)) attr
            else walk 3 s root v)

  module _ (addr : ℕ) (s : Heap) (l : Labels) (rooted : Rooted b root s l)
      (room : s.count + 3 ≤ b.capacity) (low : addr < 2 ^ 48) (aligned : addr % 4096 ≡ 0)
      (from : virt_start ≤ addr) (fits : phys + (addr - virt_start) < 2 ^ 64) where
    target_lem :
        target b root virt_start phys attr addr s l rooted room low ≡ phys + (addr - virt_start)
    target_lem = omega arith

    page-found :
        leaf (bit_or (target b root virt_start phys attr addr s l rooted room low) (bits attr))
        ≡ found (phys + (addr - virt_start)) attr
    page-found =
        rw (target_lem, is_present_lem (bits attr))
          (leaf-bit_or (phys + (addr - virt_start)) (omega arith) fits (bits attr)
            (omega (arith, bits-lt attr)))

    abbrev done : Heap
    done = after b root virt_start phys attr addr s l rooted room low

    -- The round's page and the pages that the rest maps make up the whole range.
    walks_lem :
        (stop : ℕ) (w : Result ℕ) (v : ℕ)
        → addr + 4096 ≤ stop
        → v < 2 ^ 48
        → w ≡ (
            if leb (addr + 4096) v && ltb v stop
            then found (phys + (v / 4096 * 4096 - virt_start)) attr
            else walk 3 done root v)
        → w ≡ (
            if leb addr v && ltb v stop
            then found (phys + (v / 4096 * 4096 - virt_start)) attr
            else walk 3 s root v)
    walks_lem stop w v more h e = elim (Bool-cases (v / 4096 == addr / 4096)) [
      | inl here ↦
          let same : v / 4096 ≡ addr / 4096 = ground arith in
          let whole : v / 4096 * 4096 ≡ addr = omega arith in
          e
          ∙ rw
              (
                (let t : (leb (addr + 4096) v && ltb v stop) ≡ false = ground arith in t),
                (let t : (leb addr v && ltb v stop) ≡ true = ground arith in t),
                whole,
              )
              (walk-page b root virt_start phys attr addr s l rooted room low v same ∙ page-found)
      | inr there ↦
          let other : v / 4096 ≢ addr / 4096 = ground arith in
          e
          ∙ rw (walk_elsewhere b root virt_start phys attr addr s l rooted room low v h other) (
              ap
                (λ (t : Bool).
                  if t then found (phys + (v / 4096 * 4096 - virt_start)) attr else walk 3 s root v)
                (let e : (leb (addr + 4096) v && ltb v stop) ≡ (leb addr v && ltb v stop) =
                    ground arith in
                  e))
    ]

    -- One round, and the rest of the loop.
    round_Mapped :
        (stop : ℕ) (k : Heap → Heap × Result (Unit {0}))
        → addr + 4096 ≤ stop
        → Mapped (addr + 4096) stop done (k done)
        → Mapped addr stop s (bind (map_page b root virt_start phys attr addr s) λ s' _. k s')
    round_Mapped stop k more rest = record {
      heap = rest.heap;
      labels = rest.labels;
      runs =
          rw
            (map_page_runs b root virt_start phys attr addr s l rooted room low
              (omega (arith, target_lem)))
            rest.runs;
      rooted = rest.rooted;
      walks = λ v h. walks_lem stop (walk 3 rest.heap root v) v more h (rest.walks v h);
    }

  pub map_pages_lem :
      (rounds addr stop : ℕ) (s : Heap) (l : Labels)
      → Rooted b root s l
      → s.count + 3 * rounds ≤ b.capacity
      → addr % 4096 ≡ 0
      → virt_start ≤ addr
      → stop ≡ addr + 4096 * rounds
      → stop ≤ 2 ^ 48
      → phys + (stop - virt_start) ≤ 2 ^ 64
      → Mapped addr stop s (map_pages b root virt_start phys attr rounds addr s)
  unfolding map_pages
  map_pages_lem zero addr stop s l rooted room aligned from e low fits = record {
    heap = s;
    labels = l;
    runs = refl;
    rooted = rooted;
    walks = λ v h. ground arith;
  }
  map_pages_lem (suc rounds) addr stop s l rooted room aligned from e low fits =
      round_Mapped addr s l rooted r1 r2 aligned from (omega arith) stop
        (map_pages b root virt_start phys attr rounds (addr + page_size)) (omega arith)
        (map_pages_lem rounds (addr + page_size) stop
          (after b root virt_start phys attr addr s l rooted r1 r2)
          (d3 b root virt_start phys attr addr s l rooted r1 r2).labels
          (after-Rooted b root virt_start phys attr addr s l rooted r1 r2)
          (omega (arith, after-count b root virt_start phys attr addr s l rooted r1 r2))
          (omega arith) (omega arith) (omega arith) low fits)
    where
      r1 : s.count + 3 ≤ b.capacity
      r1 = omega arith

      r2 : addr < 2 ^ 48
      r2 = omega arith
