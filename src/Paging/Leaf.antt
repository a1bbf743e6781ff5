-- ===== src/Paging/Leaf.antt =====
-- Writing an entry of a table of the last level: the tree and the other pages stay as they were.
use wasabi.Base.{
  ℕ, zero, suc, ◌+◌, ◌*◌, ◌/◌, ◌%◌, ◌≡◌, ◌≢◌, refl, ap, sym, ◌∙◌, arith, bit_or, ok, Bool-cases,
  inl, inr, ◌==◌, ◌&&◌, ==_ne, ==_refl,
}
use native.Mathlib.Nat.{div-div-eq-div-mul, div-add-mod'}
use wasabi.Paging.{Boxes, Heap, is_present, table, set_page, bits, update, PageAttr}
use wasabi.Paging.Words.{low_bits}
use wasabi.Paging.Tree.{Live, Labels, IsTree, walk, slot, span, absent-table}

pub set_page_lem :
    (s : Heap) (t i phys : ℕ) (attr : PageAttr)
    → phys % 4096 ≡ 0
    → set_page s t i phys attr
      ≡ (record s { value = update s.value t i (bit_or phys (bits attr)) }, ok tt)
unfolding set_page
set_page_lem s t i phys attr aligned = rw (low_bits phys, aligned) refl

-- The region of an address, one level down.
pub region-slot : (n v : ℕ) → v / span n ≡ v / span (suc n) * 512 + slot n v
unfolding slot
region-slot n v = omega (
  arith,
  div-add-mod' (v / span n) 512,
  ap (λ (q : ℕ). q * 512) (div-div-eq-div-mul v (span n) 512),
)

module _ (b : Boxes) (s : Heap) (l : Labels) (tree : IsTree b s l) (t i w : ℕ) (live : Live b s t)
    (height : l.height t ≡ 0) where
  abbrev pub written : Heap
  written = record s { value = update s.value t i w }

  pub value_above : (n u j : ℕ) → l.height u ≡ suc n → written.value u j ≡ s.value u j
  unfolding update
  value_above n u j h = rw (==_ne t u (λ e. absurd (omega (arith, ap l.height e, height)))) refl

  pub value_written : written.value t i ≡ w
  unfolding update
  value_written = rw (==_refl t, ==_refl i) refl

  pub written-IsTree : IsTree b written l
  written-IsTree = record {
    room = tree.room;
    child = λ n u j h height_u e.
        let (x, c) =
          tree.child n u j h height_u (sym (ap is_present (value_above n u j height_u)) ∙ e) in
        (x, (ap table (value_above n u j height_u) ∙ c.0, c.1, c.2, c.3));
  }

  -- Pages other than that of the entry are translated as before.
  pub walk_other :
      (n u v : ℕ)
      → Live b s u
      → l.height u ≡ n
      → l.region u ≡ v / span (suc n)
      → v / 4096 ≢ l.region t * 512 + i
      → walk n written u v ≡ walk n s u v
  unfolding walk update
  walk_other zero u v h height_u region ne = elim (Bool-cases ((t == u) && (i == slot 0 v))) [
    | inl e ↦ absurd (ne (region-slot 0 v ∙ ground (arith, sym region)))
    | inr e ↦ rw e refl
  ]
  walk_other (suc n) u v h height_u region ne =
      elim (Bool-cases (is_present (s.value u (slot (suc n) v)))) [
        | inl e ↦
            let (x, c) = tree.child n u (slot (suc n) v) h height_u e in
            rw (value_above n u (slot (suc n) v) height_u, c.0)
              (walk_other n x v c.1 c.2 (omega (arith, c.3, region, region-slot (suc n) v)) ne)
        | inr e ↦
            rw
              (
                value_above n u (slot (suc n) v) height_u,
                absent-table (s.value u (slot (suc n) v)) e,
              )
              refl
      ]
