-- ===== src/Allocator/Boot.antt =====
-- The heap from the firmware's memory map on, over any sequence of allocations and deallocations.
use wasabi.Base.{
  ℕ, ◌+◌, ◌*◌, ◌%◌, ◌^◌, ◌≤◌, ◌<◌, ◌≡◌, ◌∙◌, sym, subst, arith, List, [], ◌∷◌, true, false, Result,
  ok, ◌⊎◌, inl, inr, Bool-cases,
}
use wasabi.Allocator.{Header, EfiMemoryDescriptor, is_conventional, init_with_mmap, alloc, dealloc}
use wasabi.Allocator.Provide.{IsSound}
use wasabi.Allocator.Regions.{Apart, ApartFromAll, IsValid, In}
use wasabi.Allocator.Free.{dealloc_lem}
use wasabi.Allocator.Heap.{alloc_lem}

abbrev pub Conventional : EfiMemoryDescriptor → Type 0
Conventional e = is_conventional e.memory_type ≡ true

-- Whole pages, and not none of them, below the end of the address space and not at its start
pub record IsRegion (e : EfiMemoryDescriptor) : Type 0 where
  pub aligned : e.physical_start % 4096 ≡ 0
  pub start : 0 < e.physical_start
  pub some_pages : 0 < e.number_of_pages
  pub below : e.physical_start + e.number_of_pages * 4096 < 2 ^ 64

abbrev pub Disjoint : EfiMemoryDescriptor → EfiMemoryDescriptor → Type 0
Disjoint e f =
    (e.physical_start + e.number_of_pages * 4096 ≤ f.physical_start)
    ⊎ (f.physical_start + f.number_of_pages * 4096 ≤ e.physical_start)

abbrev pub DisjointFromAll : EfiMemoryDescriptor → List EfiMemoryDescriptor → Type 0
DisjointFromAll e [] = Unit
DisjointFromAll e (f ∷ es) = (Conventional f → Disjoint e f) × DisjointFromAll e es

-- The conventional memory of a map: whole pages, in regions that do not overlap
abbrev pub IsMemoryMap : List EfiMemoryDescriptor → Type 0
IsMemoryMap [] = Unit
IsMemoryMap (e ∷ es) = (Conventional e → IsRegion e × DisjointFromAll e es) × IsMemoryMap es

abbrev header_of : EfiMemoryDescriptor → Header
header_of e = record {
  addr = e.physical_start;
  size = e.number_of_pages * 4096 % 2 ^ 64;
  is_allocated = false;
}

header_of-IsSound : (e : EfiMemoryDescriptor) → IsRegion e → IsSound (header_of e)
header_of-IsSound e r = record {
  aligned = omega (arith, r.aligned);
  room = omega (arith, r.some_pages, r.below);
  inside = omega (arith, r.below);
}

-- No region that is still to come overlaps one of the heap.
abbrev Clear : List Header → List EfiMemoryDescriptor → Type 0
Clear heap [] = Unit
Clear heap (f ∷ es) = (Conventional f → ApartFromAll (header_of f) heap) × Clear heap es

Clear-cons :
    (e : EfiMemoryDescriptor) (heap : List Header) (es : List EfiMemoryDescriptor)
    → IsRegion e
    → IsMemoryMap es
    → DisjointFromAll e es
    → Clear heap es
    → Clear (header_of e ∷ heap) es
Clear-cons e heap [] r m d c = tt
Clear-cons e heap (f ∷ es) r (region, m) (d, ds) (c, cs) =
    (λ conv. (apart (d conv) (region conv).0, c conv), Clear-cons e heap es r m ds cs)
  where
    apart : Disjoint e f → IsRegion f → Apart (header_of f) (header_of e)
    apart (inl p) q = inr (omega (arith, r.below, q.below))
    apart (inr p) q = inl (omega (arith, r.below, q.below))

init-IsValid :
    (heap : List Header) (es : List EfiMemoryDescriptor)
    → IsValid heap
    → IsMemoryMap es
    → Clear heap es
    → IsValid (init_with_mmap heap es)
unfolding init_with_mmap
init-IsValid heap [] v m c = v
init-IsValid heap (e ∷ es) v (region, m) (c, cs) =
    elim (Bool-cases (is_conventional e.memory_type)) [
      | inl conv ↦
          let (r, d) = region conv in
          rw conv (
            init-IsValid (header_of e ∷ heap) es (header_of-IsSound e r, c conv, v) m
              (Clear-cons e heap es r m d cs))
      | inr other ↦ rw other (init-IsValid heap es v m cs)
    ]

Clear-nil : (es : List EfiMemoryDescriptor) → Clear [] es
Clear-nil [] = tt
Clear-nil (e ∷ es) = (λ conv. tt, Clear-nil es)

-- An allocation of a layout, or the deallocation of an object that is allocated
pub data Use : List Header → List Header → Type 0 where
  allocate :
      (heap heap' : List Header) (size i object : ℕ)
      → i ≤ 62
      → size + 2 ^ i ≤ 2 ^ 63
      → alloc heap size (2 ^ i) ≡ ok (heap', object)
      → Use heap heap'
  free :
      (heap : List Header) (a : Header)
      → In a heap
      → a.is_allocated ≡ true
      → Use heap (dealloc heap (a.addr + 32))

pub data Uses (start : List Header) : List Header → Type 0 where
  fresh : Uses start start
  then_use : {heap heap' : List Header} → Uses start heap → Use heap heap' → Uses start heap'

Use-IsValid : {heap heap' : List Header} → Use heap heap' → IsValid heap → IsValid heap'
Use-IsValid (allocate heap heap' size i object small fits e) v =
    let (found, at, run, valid, outcome) = alloc_lem size i heap small fits v in
    subst IsValid (same (sym run ∙ e)) valid
  where
    same :
        {found : List Header} {at : ℕ}
        → ◌≡◌ {A = Result (List Header × ℕ)} (ok (found, at)) (ok (heap', object))
        → found ≡ heap'
    same h = cc
Use-IsValid (free heap a m y) v = (dealloc_lem heap a v m).0

Uses-IsValid : {start heap : List Header} → IsValid start → Uses start heap → IsValid heap
Uses-IsValid v fresh = v
Uses-IsValid v (then_use r u) = Use-IsValid u (Uses-IsValid v r)

-- From the heap that init_with_mmap makes of a memory map whose conventional memory is whole pages
-- in regions that do not overlap, none empty, none at address 0 and all ending below 2 ^ 64, after
-- any sequence of allocations of layouts and of deallocations of objects that are allocated: the
-- regions of the heap are sound and do not overlap, and the next allocation of a layout does not
-- panic.
pub alloc-Uses :
    (es : List EfiMemoryDescriptor) (heap : List Header) (size i : ℕ)
    → IsMemoryMap es
    → Uses (init_with_mmap [] es) heap
    → i ≤ 62
    → size + 2 ^ i ≤ 2 ^ 63
    → IsValid heap
      × ((heap' : List Header) × (object : ℕ) × (alloc heap size (2 ^ i) ≡ ok (heap', object)))
alloc-Uses es heap size i m r small fits =
    let v = Uses-IsValid (init-IsValid [] es tt m (Clear-nil es)) r in
    let (heap', object, run, valid, rest) = alloc_lem size i heap small fits v in
    (v, (heap', object, run))
