-- ===== src/Paging/Descend.antt =====
-- One level down from a live table: the next table exists afterwards, and translations are kept.
use wasabi.Base.{ℕ, suc, ◌+◌, ◌<◌, ◌≡◌, ap, arith, bit_or, true, false, ok, Bool-cases, inl, inr}
use wasabi.Paging.{
  Boxes, Heap, is_present, table, descend, ensure_populated, populate, box_new, calc_index, bits,
  update, zeroed,
}
use wasabi.Paging.Tree.{Live, Labels, Child, IsTree}
use wasabi.Paging.Populate.{Extends, Extends-refl, relabelled, grown-Extends, Child-here}

module _ (b : Boxes) where
  pub record Descent (shift addr : ℕ) (s : Heap) (l : Labels) (n t : ℕ) : Type 0 where
    pub heap : Heap
    pub labels : Labels
    pub next : ℕ
    pub runs : descend b shift addr s t ≡ (heap, ok next)
    pub extends : Extends b s l heap labels
    pub child : Child b heap labels n t (calc_index shift addr) next

  -- The heap after an absent entry has been populated.
  abbrev populated : Heap → ℕ → ℕ → Heap
  populated s t i = record {
    count = s.count + 1;
    value = update (zeroed s.value (b.address s.count)) t i (bit_or (b.address s.count) 7);
  }

  populate_lem :
      (s : Heap) (t i : ℕ)
      → s.count < b.capacity
      → is_present (s.value t i) ≡ false
      → ensure_populated b s t i ≡ (populated s t i, ok tt)
  unfolding ensure_populated populate box_new bits
  populate_lem s t i room absent = ground arith

  module _ (shift addr : ℕ) (s : Heap) (l : Labels) (tree : IsTree b s l)
      (room : s.count < b.capacity) (n t : ℕ) (live : Live b s t)
      (height : l.height t ≡ suc n) where
    abbrev i : ℕ
    i = calc_index shift addr

    present_runs :
        (u : ℕ)
        → is_present (s.value t i) ≡ true
        → table (s.value t i) ≡ ok u
        → descend b shift addr s t ≡ (s, ok u)
    unfolding descend ensure_populated
    present_runs u there e = rw there (ap (λ r. (s, r)) e)

    absent_runs :
        is_present (s.value t i) ≡ false
        → table ((populated s t i).value t i) ≡ ok (b.address s.count)
        → descend b shift addr s t ≡ (populated s t i, ok (b.address s.count))
    unfolding descend
    absent_runs absent e = rw (populate_lem s t i room absent) (ap (λ r. (populated s t i, r)) e)

    pub descend_lem : Descent shift addr s l n t
    descend_lem = elim (Bool-cases (is_present (s.value t i))) [
      | inl there ↦
          let (u, c) = tree.child n t i live height there in
          record {
            heap = s;
            labels = l;
            next = u;
            runs = present_runs u there c.0;
            extends = Extends-refl b s l tree;
            child = c;
          }
      | inr absent ↦
          let c = Child-here b s l tree room n t i live height absent in
          record {
            heap = populated s t i;
            labels = relabelled b s l tree room n t i live height absent;
            next = b.address s.count;
            runs = absent_runs absent c.0;
            extends = grown-Extends b s l tree room n t i live height absent;
            child = c;
          }
    ]
