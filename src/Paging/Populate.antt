-- ===== src/Paging/Populate.antt =====
-- Populating an absent entry: the tree grows by an empty table, and no translation changes.
use wasabi.Base.{
  ℕ, zero, suc, ◌+◌, ◌*◌, ◌≤◌, ◌<◌, ◌≡◌, ◌≢◌, refl, ap, sym, ◌∙◌, arith, bit_or, true, false, ◌==◌,
  ◌&&◌, ok, err, page_not_found, ◌>>=◌, if◌then◌else◌, Bool-cases, ◌⊎◌, inl, inr, ==_ne, ==_refl,
}
use wasabi.Paging.{Boxes, Heap, is_present, table, update, zeroed}
use wasabi.Paging.Words.{table-bit_or, is_present_lem}
use wasabi.Paging.Words.{leaf}
use wasabi.Paging.Tree.{Live, Labels, Child, IsTree, walk, slot, absent-table, absent-leaf}

module _ (b : Boxes) where
  -- What later steps rely on: old tables keep their labels, present entries and translations.
  pub record Extends (s : Heap) (l : Labels) (s' : Heap) (l' : Labels) : Type 0 where
    pub tree : IsTree b s' l'
    pub live : (u : ℕ) → Live b s u → Live b s' u
    pub height : (u : ℕ) → Live b s u → l'.height u ≡ l.height u
    pub region : (u : ℕ) → Live b s u → l'.region u ≡ l.region u
    pub kept : (u j : ℕ) → Live b s u → is_present (s.value u j) ≡ true → s'.value u j ≡ s.value u j
    pub same : (n u : ℕ) → Live b s u → l.height u ≡ n → (v : ℕ) → walk n s' u v ≡ walk n s u v
    pub count : s'.count ≤ s.count + 1

  pub Extends-refl : (s : Heap) (l : Labels) → IsTree b s l → Extends s l s l
  Extends-refl s l tree = record {
    tree = tree;
    live = λ u live. live;
    height = λ u live. refl;
    region = λ u live. refl;
    kept = λ u j live e. refl;
    same = λ n u live h v. refl;
    count = omega arith;
  }

  module _ (s : Heap) (l : Labels) (tree : IsTree b s l) (room : s.count < b.capacity) (n t i : ℕ)
      (live : Live b s t) (height : l.height t ≡ suc n)
      (absent : is_present (s.value t i) ≡ false) where
    abbrev pub fresh : ℕ
    fresh = b.address s.count

    abbrev pub grown : Heap
    grown = record {
      count = s.count + 1;
      value = update (zeroed s.value fresh) t i (bit_or fresh 7);
    }

    abbrev pub relabelled : Labels
    relabelled = record {
      height = λ u. if u == fresh then n else l.height u;
      region = λ u. if u == fresh then l.region t * 512 + i else l.region u;
    }

    old : (u : ℕ) → Live b s u → u ≢ fresh
    old u h e =
        let same : h.0 ≡ s.count = b.distinct h.0 s.count (omega (arith, h.1)) room (sym h.2 ∙ e) in
        omega (arith, h.1)

    empty : (j : ℕ) → grown.value fresh j ≡ 0
    unfolding update zeroed
    empty j = rw (==_ne t fresh (old t live), ==_refl fresh)

    value_old :
        (u j : ℕ)
        → Live b s u
        → grown.value u j ≡ (if (t == u) && (i == j) then bit_or fresh 7 else s.value u j)
    unfolding update zeroed
    value_old u j h = rw (==_ne fresh u (λ e. old u h (sym e)))

    table-fresh : table (bit_or fresh 7) ≡ ok fresh
    table-fresh = table-bit_or fresh (b.aligned s.count room) (b.fits s.count room) 7 (omega arith)

    kept_lem :
        (u j : ℕ) → Live b s u → is_present (s.value u j) ≡ true → grown.value u j ≡ s.value u j
    kept_lem u j h e = value_old u j h ∙ ground (arith)

    old_labels :
        (u : ℕ)
        → Live b s u
        → (relabelled.height u ≡ l.height u) × (relabelled.region u ≡ l.region u)
    old_labels u h = rw (==_ne u fresh (old u h)) (refl, refl)

    fresh_labels : (relabelled.height fresh ≡ n) × (relabelled.region fresh ≡ l.region t * 512 + i)
    fresh_labels = rw (==_refl fresh) (refl, refl)

    Live-fresh : Live b grown fresh
    Live-fresh = (s.count, omega arith, refl)

    Live-old : (u : ℕ) → Live b s u → Live b grown u
    Live-old u h = (h.0, omega (arith, h.1), h.2)

    -- A table of the grown heap is the fresh one or an old one.
    Live-cases : (u : ℕ) → Live b grown u → (u ≡ fresh) ⊎ Live b s u
    Live-cases u h = elim (Bool-cases (h.0 == s.count)) [
      | inl e ↦ inl (h.2 ∙ ap b.address (ground arith))
      | inr e ↦ inr (h.0, ground (arith, h.1), h.2)
    ]

    value_here : grown.value t i ≡ bit_or fresh 7
    value_here = value_old t i live ∙ rw (==_refl t, ==_refl i)

    pub Child-here : Child b grown relabelled n t i fresh
    Child-here = (
      ap table value_here ∙ table-fresh,
      Live-fresh,
      fresh_labels.0,
      fresh_labels.1 ∙ omega (arith, (old_labels t live).1),
    )

    Child-old :
        (m u j : ℕ)
        → Live b s u
        → l.height u ≡ suc m
        → is_present (s.value u j) ≡ true
        → (w : ℕ) × Child b grown relabelled m u j w
    Child-old m u j h height_u e =
        let (w, (to, live_w, height_w, region_w)) = tree.child m u j h height_u e in
        (
          w,
          (
            ap table (kept_lem u j h e) ∙ to,
            Live-old w live_w,
            (old_labels w live_w).0 ∙ height_w,
            omega (arith, (old_labels w live_w).1, region_w, (old_labels u h).1),
          ),
        )

    fresh_absent : (j : ℕ) → is_present (grown.value fresh j) ≡ false
    fresh_absent j = ap is_present (empty j) ∙ is_present_lem 0

    -- At an old table: the entry populated, a present entry, or an entry that is absent still.
    entry_cases : (u j : ℕ) → Live b s u → ((u ≡ t) × (j ≡ i)) ⊎ (grown.value u j ≡ s.value u j)
    entry_cases u j h = elim (Bool-cases ((t == u) && (i == j))) [
      | inl e ↦ inl (ground arith, ground arith)
      | inr e ↦ inr (value_old u j h ∙ rw e)
    ]

    grown-IsTree : IsTree b grown relabelled
    grown-IsTree = record {
      room = omega arith;
      child = λ m u j h height_u e. elim (Live-cases u h) [
        | inl e' ↦ absurd (grind (arith, fresh_absent))
        | inr h' ↦ elim (entry_cases u j h') [
          | inl here ↦ child_at m u j here (sym (old_labels u h').0 ∙ height_u)
          | inr rest ↦
              Child-old m u j h' (sym (old_labels u h').0 ∙ height_u) (sym (ap is_present rest) ∙ e)
        ]
      ];
    }
      where
        child_at :
            (m u j : ℕ)
            → (u ≡ t) × (j ≡ i)
            → l.height u ≡ suc m
            → (w : ℕ) × Child b grown relabelled m u j w
        child_at m u j here h =
            let e : n ≡ m = omega (arith, ap l.height here.0, height) in
            (fresh, rw (here.0, here.1, ← e) Child-here)

    walk-fresh : (m v : ℕ) → walk m grown fresh v ≡ err page_not_found
    unfolding walk
    walk-fresh zero v = absent-leaf (grown.value fresh (slot 0 v)) (fresh_absent (slot 0 v))
    walk-fresh (suc m) v =
        rw (absent-table (grown.value fresh (slot (suc m) v)) (fresh_absent (slot (suc m) v))) refl

    walk_here :
        (m v : ℕ) (j : ℕ)
        → j ≡ i
        → (table (grown.value t j) >>= λ w. walk m grown w v)
          ≡ (table (s.value t j) >>= λ w. walk m s w v)
    walk_here m v j e =
        rw (e, value_here, table-fresh, absent-table (s.value t i) absent) (walk-fresh m v)

    walk_same : (m u : ℕ) → Live b s u → l.height u ≡ m → (v : ℕ) → walk m grown u v ≡ walk m s u v
    unfolding walk
    walk_same zero u h height_u v = elim (entry_cases u (slot 0 v) h) [
      | inl here ↦ absurd (omega (arith, ap l.height here.0, height, height_u))
      | inr rest ↦ ap leaf rest
    ]
    walk_same (suc m) u h height_u v = elim (entry_cases u (slot (suc m) v) h) [
      | inl here ↦ rw here.0 (walk_here m v (slot (suc m) v) here.1)
      | inr rest ↦ elim (Bool-cases (is_present (s.value u (slot (suc m) v)))) [
        | inl e ↦
            let (w, (to, live_w, height_w, region_w)) =
              tree.child m u (slot (suc m) v) h height_u e in
            rw (rest, to) (walk_same m w live_w height_w v)
        | inr e ↦ rw (rest, absent-table (s.value u (slot (suc m) v)) e)
      ]
    ]

    pub grown-Extends : Extends s l grown relabelled
    grown-Extends = record {
      tree = grown-IsTree;
      live = Live-old;
      height = λ u h. (old_labels u h).0;
      region = λ u h. (old_labels u h).1;
      kept = kept_lem;
      same = walk_same;
      count = omega arith;
    }
