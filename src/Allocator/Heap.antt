-- ===== src/Allocator/Heap.antt =====
-- The heap as a whole: regions never overlap, and an allocation keeps what was allocated.
use wasabi.Base.{
  ℕ, ◌+◌, ◌%◌, ◌^◌, ◌≤◌, ◌≡◌, refl, ap, ◌∙◌, arith, List, [], ◌∷◌, ◌++◌, none, some, subst, sym,
}
use wasabi.Base.{true, false, ◌⊎◌, inl, inr, ok}
use mathlib.Core.Bool.{true≢false}
use wasabi.Allocator.{Header, Provided, provide, alloc}
use wasabi.Allocator.Provide.{Split}
use wasabi.Allocator.Regions.{
  ApartFromAll, IsValid, In, first, later, Keeps, AllInside, In-append, replace-IsValid,
  replace-ApartFromAll,
}
use wasabi.Allocator.Fit.{Declines, provide_lem}

-- What an allocation of `size` bytes at alignment `2 ^ i` does to a heap.
pub record Served (heap : List Header) (size i : ℕ) (heap' : List Header) (object : ℕ)
    : Type 0 where
  pub object_aligned : object % 2 ^ i ≡ 0
  pub owner :
      (a : Header) × In a heap'
      × (a.is_allocated ≡ true)
      × (object ≡ a.addr + 32)
      × (size + 32 ≤ a.size)
  pub keeps : Keeps heap heap'

-- No header of the heap provides.
abbrev pub AllDecline : List Header → ℕ → ℕ → Type 0
AllDecline [] size align = Unit
AllDecline (h ∷ hs) size align = Declines h size align × AllDecline hs size align

pieces-IsValid :
    (h : Header) (size i : ℕ) (p : Provided)
    → Split h size i p
    → IsValid (p.shrunk ∷ p.behind) × AllInside (p.shrunk ∷ p.behind) h
pieces-IsValid h size i p sp =
    let (a, rest, e, sa, al, at, ob, sz, tail) = sp.pieces in
    elim tail [
      | inl (n, end) ↦
          subst (λ bs. IsValid (p.shrunk ∷ bs) × AllInside (p.shrunk ∷ bs) h)
            (sym (e ∙ ap (λ r. a ∷ r) n))
            (
              (sp.shrunk_sound, (inl (omega (arith, sp.shrunk_start)), tt), (sa, tt, tt)),
              omega (arith, sp.shrunk_start),
            )
      | inr (b, n, sb, next, end) ↦
          subst (λ bs. IsValid (p.shrunk ∷ bs) × AllInside (p.shrunk ∷ bs) h)
            (sym (e ∙ ap (λ r. a ∷ r) n))
            (
              (
                sp.shrunk_sound,
                (inl (omega (arith, sp.shrunk_start)), (inl (omega (arith, sp.shrunk_start)), tt)),
                (sa, (inl (omega arith), tt), (sb, tt, tt)),
              ),
              omega (arith, sp.shrunk_start),
            )
    ]

-- The heap after its first header has been split.
Split-Served :
    (h : Header) (size i : ℕ) (hs : List Header) (p : Provided)
    → h.is_allocated ≡ false
    → Split h size i p
    → Served (h ∷ hs) size i ((p.shrunk ∷ p.behind) ++ hs) p.object
Split-Served h size i hs p free sp =
    let (a, rest, e, sa, al, at, ob, sz, tail) = sp.pieces in
    record {
      object_aligned = sp.object_aligned;
      owner = (a, subst (λ bs. In a ((p.shrunk ∷ bs) ++ hs)) (sym e) (later first), al, ob, sz);
      keeps = kept;
    }
  where
    kept : (b : Header) → In b (h ∷ hs) → b.is_allocated ≡ true → In b ((p.shrunk ∷ p.behind) ++ hs)
    kept b first y = absurd (true≢false (sym y ∙ free))
    kept b (later m) y = In-append b (p.shrunk ∷ p.behind) hs m

-- The whole of what `alloc_with_options` does to a valid heap.
abbrev Outcome : ℕ → ℕ → List Header → Type 0
Outcome size i heap =
    (heap' : List Header) × (object : ℕ) × (alloc heap size (2 ^ i) ≡ ok (heap', object))
    × IsValid heap'
    × ((x : Header) → ApartFromAll x heap → ApartFromAll x heap')
    × (Served heap size i heap' object
        ⊎ ((object ≡ 0) × (heap' ≡ heap) × AllDecline heap size (2 ^ i)))

module _ (size i : ℕ) (small : i ≤ 62) (fits : size + 2 ^ i ≤ 2 ^ 63) where
  -- The first header provides.
  alloc_first :
      (h : Header) (hs : List Header) (p : Provided)
      → IsValid (h ∷ hs)
      → provide h size (2 ^ i) ≡ ok (some p)
      → h.is_allocated ≡ false
      → Split h size i p
      → Outcome size i (h ∷ hs)
  unfolding alloc
  alloc_first h hs p (s, u, v) e free sp =
      let (w, inside) = pieces-IsValid h size i p sp in
      (
        (p.shrunk ∷ p.behind) ++ hs,
        p.object,
        rw (e, alloc) refl,
        replace-IsValid (p.shrunk ∷ p.behind) hs h inside w u v,
        λ x away. replace-ApartFromAll (p.shrunk ∷ p.behind) hs h x inside away,
        inl (Split-Served h size i hs p free sp),
      )

  -- It declines, and the search goes on behind it.
  alloc_behind :
      (h : Header) (hs : List Header)
      → IsValid (h ∷ hs)
      → provide h size (2 ^ i) ≡ ok none
      → Declines h size (2 ^ i)
      → Outcome size i hs
      → Outcome size i (h ∷ hs)
  unfolding alloc
  alloc_behind h hs (s, u, v) e declines (heap', object, found, w, away, outcome) = (
    h ∷ heap',
    object,
    rw (e, alloc, found) refl,
    (s, away h u, w),
    λ x y. (y.0, away x y.1),
    elim outcome [
      | inl served ↦ inl (record {
        object_aligned = served.object_aligned;
        owner = let (a, m, y, o, z) = served.owner in (a, later m, y, o, z);
        keeps = kept served;
      })
      | inr (null, same, all) ↦ inr (null, ap (λ t. h ∷ t) same, (declines, all))
    ],
  )
    where
      kept : Served hs size i heap' object → Keeps (h ∷ hs) (h ∷ heap')
      kept served b first y = first
      kept served b (later m) y = later (served.keeps b m y)

  alloc-Outcome : (heap : List Header) → IsValid heap → Outcome size i heap
  unfolding alloc
  alloc-Outcome [] v = ([], 0, refl, tt, λ x u. tt, inr (refl, refl, tt))
  alloc-Outcome (h ∷ hs) v = elim (provide_lem h size i v.0 small fits) [
    | inl (e, declines) ↦ alloc_behind h hs v e declines (alloc-Outcome hs v.2)
    | inr (p, e, free, sp) ↦ alloc_first h hs p v e free sp
  ]

-- `alloc_with_options` on a valid heap and a layout: it never panics, and the heap stays valid.
-- Either the object is aligned, lies behind its own allocated header, whose region holds it, and
-- every region allocated before is still there; or the result is null, the heap is as it was, and
-- every header declines.
pub alloc_lem :
    (size i : ℕ) (heap : List Header)
    → i ≤ 62
    → size + 2 ^ i ≤ 2 ^ 63
    → IsValid heap
    → (heap' : List Header) × (object : ℕ) × (alloc heap size (2 ^ i) ≡ ok (heap', object))
      × IsValid heap'
      × (Served heap size i heap' object
          ⊎ ((object ≡ 0) × (heap' ≡ heap) × AllDecline heap size (2 ^ i)))
alloc_lem size i heap small fits v =
    let (heap', object, e, w, away, outcome) = alloc-Outcome size i small fits heap v in
    (heap', object, e, w, outcome)
