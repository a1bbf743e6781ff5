-- ===== src/Paging/Page.antt =====
-- One round of `create_mapping`: the page is mapped, and every other page stays as it was.
use wasabi.Base.{
  ℕ, suc, ◌+◌, ◌-◌, ◌*◌, ◌/◌, ◌%◌, ◌^◌, ◌≤◌, ◌<◌, ◌≡◌, ◌≢◌, refl, ap, sym, ◌∙◌, arith, bit_or, true,
  ok,
}
use wasabi.Paging.{Boxes, Heap, is_present, table, map_page, calc_index, bits, PageAttr}
use wasabi.Paging.Words.{calc_index_lem, leaf}
use wasabi.Paging.Tree.{Live, Labels, IsTree, walk, slot, span}
use wasabi.Paging.Descend.{Descent, descend_lem}
use wasabi.Paging.Leaf.{
  set_page_lem, written, written-IsTree, value_above, value_written, walk_other,
}

table-is_present : (v u : ℕ) → table v ≡ ok u → is_present v ≡ true
unfolding table
table-is_present v u e = ground arith

module _ (b : Boxes) where
  -- A tree with a given root.
  pub record Rooted (root : ℕ) (s : Heap) (l : Labels) : Type 0 where
    pub tree : IsTree b s l
    pub live : Live b s root
    pub height : l.height root ≡ 3
    pub region : l.region root ≡ 0

  module _ (root virt_start phys : ℕ) (attr : PageAttr) (addr : ℕ) (s : Heap) (l : Labels)
      (rooted : Rooted root s l) (room : s.count + 3 ≤ b.capacity) (low : addr < 2 ^ 48) where
    -- The three tables on the way.
    pub d1 : Descent b 39 addr s l 2 root
    d1 = descend_lem b 39 addr s l rooted.tree (omega arith) 2 root rooted.live rooted.height

    pub d2 : Descent b 30 addr d1.heap d1.labels 1 d1.next
    d2 =
        descend_lem b 30 addr d1.heap d1.labels d1.extends.tree (omega (arith, d1.extends.count)) 1
          d1.next d1.child.1 d1.child.2

    pub d3 : Descent b 21 addr d2.heap d2.labels 0 d2.next
    d3 =
        descend_lem b 21 addr d2.heap d2.labels d2.extends.tree
          (omega (arith, d1.extends.count, d2.extends.count)) 0 d2.next d2.child.1 d2.child.2

    abbrev pub target : ℕ
    target = ((phys + addr) % 2 ^ 64 + 2 ^ 64 - virt_start) % 2 ^ 64

    pub after : Heap
    after =
        written b d3.heap d3.labels d3.extends.tree d3.next (calc_index 12 addr)
          (bit_or target (bits attr)) d3.child.1 d3.child.2

    pub map_page_runs :
        target % 4096 ≡ 0 → map_page b root virt_start phys attr addr s ≡ (after, ok tt)
    unfolding map_page after
    map_page_runs aligned =
        rw (d1.runs, d2.runs, d3.runs)
          (set_page_lem d3.heap d3.next (calc_index 12 addr) target attr aligned)

    root_2 : Live b d2.heap root
    root_2 = d2.extends.live root (d1.extends.live root rooted.live)

    root_1 : Live b d1.heap root
    root_1 = d1.extends.live root rooted.live

    height_1 : d1.labels.height root ≡ 3
    height_1 = d1.extends.height root rooted.live ∙ rooted.height

    height_2 : d2.labels.height root ≡ 3
    height_2 = d2.extends.height root root_1 ∙ height_1

    root_height : d3.labels.height root ≡ 3
    root_height = d3.extends.height root root_2 ∙ height_2

    root_region : d3.labels.region root ≡ 0
    root_region =
        d3.extends.region root root_2
        ∙ d2.extends.region root root_1
        ∙ d1.extends.region root rooted.live
        ∙ rooted.region

    pub after-Rooted : Rooted root after d3.labels
    unfolding after
    after-Rooted = record {
      tree =
          written-IsTree b d3.heap d3.labels d3.extends.tree d3.next (calc_index 12 addr)
            (bit_or target (bits attr)) d3.child.1 d3.child.2;
      live = d3.extends.live root root_2;
      height = root_height;
      region = root_region;
    }

    pub after-count : after.count ≤ s.count + 3
    unfolding after
    after-count = omega (arith, d1.extends.count, d2.extends.count, d3.extends.count)

    -- The entry written serves the page of `addr`.
    leaf_region : d3.labels.region d3.next * 512 + calc_index 12 addr ≡ addr / 4096
    leaf_region = omega (
      arith,
      calc_index_lem 12 addr,
      calc_index_lem 21 addr,
      calc_index_lem 30 addr,
      calc_index_lem 39 addr,
      d3.child.3,
      d3.extends.region d2.next d2.child.1,
      d2.child.3,
      d2.extends.region d1.next d1.child.1,
      d1.child.3,
      d1.extends.region root rooted.live,
      rooted.region,
    )

    pub walk_elsewhere :
        (v : ℕ) → v < 2 ^ 48 → v / 4096 ≢ addr / 4096 → walk 3 after root v ≡ walk 3 s root v
    unfolding after
    walk_elsewhere v h ne =
        walk_other b d3.heap d3.labels d3.extends.tree d3.next (calc_index 12 addr)
          (bit_or target (bits attr)) d3.child.1 d3.child.2 3 root v (d3.extends.live root root_2)
          root_height (omega (arith, root_region)) (λ e. ne (e ∙ leaf_region))
        ∙ d3.extends.same 3 root root_2 height_2 v
        ∙ d2.extends.same 3 root root_1 height_1 v
        ∙ d1.extends.same 3 root rooted.live rooted.height v

    -- An entry above the last level that is present before the last step is there at the end.
    entry_after :
        (n t j u : ℕ)
        → d3.labels.height t ≡ suc n
        → table (d3.heap.value t j) ≡ ok u
        → table (after.value t j) ≡ ok u
    unfolding after
    entry_after n t j u h e =
        ap table (
          value_above b d3.heap d3.labels d3.extends.tree d3.next (calc_index 12 addr)
            (bit_or target (bits attr)) d3.child.1 d3.child.2 n t j h)
        ∙ e

    kept_3 :
        (t j u : ℕ)
        → Live b d2.heap t
        → table (d2.heap.value t j) ≡ ok u
        → table (d3.heap.value t j) ≡ ok u
    kept_3 t j u live e = ap table (d3.extends.kept t j live (table-is_present _ u e)) ∙ e

    kept_2 :
        (t j u : ℕ)
        → Live b d1.heap t
        → table (d1.heap.value t j) ≡ ok u
        → table (d2.heap.value t j) ≡ ok u
    kept_2 t j u live e = ap table (d2.extends.kept t j live (table-is_present _ u e)) ∙ e

    to_pdpt : table (after.value root (calc_index 39 addr)) ≡ ok d1.next
    to_pdpt = entry_after 2 root (calc_index 39 addr) d1.next root_height (
        kept_3 root (calc_index 39 addr) d1.next root_2
          (kept_2 root (calc_index 39 addr) d1.next root_1 d1.child.0))

    next_2 : Live b d2.heap d1.next
    next_2 = d2.extends.live d1.next d1.child.1

    to_pd : table (after.value d1.next (calc_index 30 addr)) ≡ ok d2.next
    to_pd =
        entry_after 1 d1.next (calc_index 30 addr) d2.next
          (d3.extends.height d1.next next_2 ∙ d2.extends.height d1.next d1.child.1 ∙ d1.child.2)
          (kept_3 d1.next (calc_index 30 addr) d2.next next_2 d2.child.0)

    to_pt : table (after.value d2.next (calc_index 21 addr)) ≡ ok d3.next
    to_pt =
        entry_after 0 d2.next (calc_index 21 addr) d3.next
          (d3.extends.height d2.next d2.child.1 ∙ d2.child.2) d3.child.0

    leaf_value : after.value d3.next (calc_index 12 addr) ≡ bit_or target (bits attr)
    unfolding after
    leaf_value =
        value_written b d3.heap d3.labels d3.extends.tree d3.next (calc_index 12 addr)
          (bit_or target (bits attr)) d3.child.1 d3.child.2

    -- The way from the root to the entry written, for an address of the same page.
    module _ (v : ℕ) (same : v / 4096 ≡ addr / 4096) where
      slot_lem :
          (n shift : ℕ)
          → 2 ^ shift ≡ span n
          → v / 2 ^ shift ≡ addr / 2 ^ shift
          → slot n v ≡ calc_index shift addr
      unfolding slot
      slot_lem n shift e f =
          ap (λ k. v / k % 512) (sym e) ∙ ap (λ k. k % 512) f ∙ sym (calc_index_lem shift addr)

      pub walk-page : walk 3 after root v ≡ leaf (bit_or target (bits attr))
      unfolding walk
      walk-page =
          rw
            (
              slot_lem 3 39 refl (omega arith),
              slot_lem 2 30 refl (omega arith),
              slot_lem 1 21 refl (omega arith),
              slot_lem 0 12 refl (omega arith),
              to_pdpt,
              to_pd,
              to_pt,
              leaf_value,
            )
            refl
