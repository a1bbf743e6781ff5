-- ===== src/Paging/Tree.antt =====
-- The tables of a heap as a tree: each table's height and the virtual addresses that it serves.
use wasabi.Base.{
  ℕ, zero, suc, ◌+◌, ◌*◌, ◌/◌, ◌%◌, ◌<◌, ◌≡◌, refl, true, false, Result, ok, err, panic,
  page_not_found, ◌>>=◌, bit_and, Bool-cases, inl, inr,
}
use wasabi.Paging.{Boxes, Heap, is_present, table, page, translate, page_mapped_4k, address_mask}
use wasabi.Paging.Words.{calc_index_lem, leaf}

-- The bytes that one entry of a table of height `n` serves; `PT` has height 0, `PML4` has 3.
abbrev pub span : ℕ → ℕ
span zero = 4096
span (suc n) = span n * 512

unfoldable pub slot : ℕ → ℕ → ℕ
slot n virt = virt / span n % 512

-- `height` and the number of the region that the table serves, in units of what it serves.
pub record Labels : Type 0 where
  pub height : ℕ → ℕ
  pub region : ℕ → ℕ

module _ (b : Boxes) where
  abbrev pub Live : Heap → ℕ → Type 0
  Live s t = (k : ℕ) × (k < s.count) × (t ≡ b.address k)

  -- A present entry refers to a live table one level down, which serves that entry's addresses.
  abbrev pub Child : Heap → Labels → ℕ → ℕ → ℕ → ℕ → Type 0
  Child s l n t i u =
      (table (s.value t i) ≡ ok u)
      × Live s u
      × (l.height u ≡ n)
      × (l.region u ≡ l.region t * 512 + i)

  pub record IsTree (s : Heap) (l : Labels) : Type 0 where
    pub room : s.count < b.capacity + 1
    pub child :
        (n t i : ℕ)
        → Live s t
        → l.height t ≡ suc n
        → is_present (s.value t i) ≡ true
        → (u : ℕ) × Child s l n t i u

pub absent-table : (v : ℕ) → is_present v ≡ false → table v ≡ err page_not_found
unfolding table
absent-table v e = rw e

pub absent-leaf : (v : ℕ) → is_present v ≡ false → leaf v ≡ err page_not_found
unfolding leaf
absent-leaf v e = rw e

-- The entry that serves an address, from a table of height `n` on
unfoldable pub walk : ℕ → Heap → ℕ → ℕ → Result ℕ
walk zero s t virt = leaf (s.value t (slot 0 virt))
walk (suc n) s t virt = table (s.value t (slot (suc n) virt)) >>= λ u. walk n s u virt

then_after :
    {A B C : Type 0} (m : Result A) (f : A → Result B) (g : B → Result C)
    → (m >>= λ a. f a >>= g) ≡ (m >>= f >>= g)
then_after (ok a) f g = refl
then_after (err e) f g = refl
then_after panic f g = refl

page-leaf : (v : ℕ) → page v ≡ (leaf v >>= λ value. ok (bit_and value address_mask))
unfolding page leaf
page-leaf v = elim (Bool-cases (is_present v)) [ inl e ↦ rw e refl | inr e ↦ rw e refl ]

pub translate-walk :
    (s : Heap) (root virt : ℕ)
    → translate s root virt
      ≡ (walk 3 s root virt >>= λ value. ok (page_mapped_4k (bit_and value address_mask)))
unfolding translate walk slot
translate-walk s root virt = simp (calc_index_lem, page-leaf, ← then_after)
