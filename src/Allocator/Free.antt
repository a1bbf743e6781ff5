-- ===== src/Allocator/Free.antt =====
-- `dealloc`: it frees the region of the object, and touches no other.
use wasabi.Base.{ℕ, ◌+◌, ◌^◌, ◌<◌, ◌≡◌, ◌≢◌, arith, List, [], ◌∷◌}
use wasabi.Base.{true, false, inl, inr, ◌==◌, Bool-cases}
use wasabi.Allocator.{Header, dealloc, sub, header_size}
use wasabi.Allocator.Provide.{IsSound}
use wasabi.Allocator.Regions.{Apart, ApartFromAll, IsValid, In, first, later}

freed : Header → Header
freed a = record a { is_allocated = false }

dealloc-ApartFromAll :
    (x : Header) (heap : List Header) (ptr : ℕ)
    → ApartFromAll x heap
    → ApartFromAll x (dealloc heap ptr)
unfolding dealloc
dealloc-ApartFromAll x [] ptr u = tt
dealloc-ApartFromAll x (h ∷ hs) ptr u = elim (Bool-cases (h.addr == sub ptr header_size)) [
  | inl y ↦ rw (y, dealloc) u
  | inr n ↦ rw (n, dealloc) (u.0, dealloc-ApartFromAll x hs ptr u.1)
]

dealloc-ApartFromAll-freed :
    (x : Header) (hs : List Header) → ApartFromAll x hs → ApartFromAll (freed x) hs
unfolding freed
dealloc-ApartFromAll-freed x [] u = tt
dealloc-ApartFromAll-freed x (h ∷ hs) u = (u.0, dealloc-ApartFromAll-freed x hs u.1)

dealloc-IsValid : (heap : List Header) (ptr : ℕ) → IsValid heap → IsValid (dealloc heap ptr)
unfolding dealloc freed
dealloc-IsValid [] ptr v = tt
dealloc-IsValid (h ∷ hs) ptr (s, u, v) = elim (Bool-cases (h.addr == sub ptr header_size)) [
  | inl y ↦
      rw (y, dealloc)
        (
          record { aligned = s.aligned; room = s.room; inside = s.inside },
          dealloc-ApartFromAll-freed h hs u,
          v,
        )
  | inr n ↦ rw (n, dealloc) (s, dealloc-ApartFromAll h hs ptr u, dealloc-IsValid hs ptr v)
]

-- No region behind `h` begins where `h` does.
begins_once :
    (h a : Header) (hs : List Header)
    → IsSound h
    → IsValid hs
    → ApartFromAll h hs
    → In a hs
    → h.addr ≢ a.addr
begins_once h a [] s v u m = elim m [ ]
begins_once h a (a' ∷ hs) s v u first = λ e. apart u.0 e
  where
    apart : Apart h a' → h.addr ≢ a'.addr
    apart (inl p) = omega (arith, s.room)
    apart (inr p) = omega (arith, v.0.room)
begins_once h a (k ∷ hs) s v u (later m) = begins_once h a hs s v.2 u.1 m

In-IsSound : (a : Header) (heap : List Header) → IsValid heap → In a heap → IsSound a
In-IsSound a [] v m = elim m [ ]
In-IsSound a (a' ∷ hs) v first = v.0
In-IsSound a (h ∷ hs) v (later m) = In-IsSound a hs v.2 m

-- The test of `dealloc`, for a region that begins at `x`.
test_false : (x y : ℕ) → y + 32 < 2 ^ 64 → x ≢ y → (x == sub (y + 32) header_size) ≡ false
test_false x y k e = ground arith

freed-In :
    (heap : List Header) (a : Header)
    → IsValid heap
    → In a heap
    → a.addr + 32 < 2 ^ 64
    → In (freed a) (dealloc heap (a.addr + 32))
unfolding dealloc freed
freed-In [] a v m k = elim m [ ]
freed-In (a' ∷ hs) a v first k =
    rw (let e : (a'.addr == sub (a'.addr + 32) header_size) ≡ true = ground arith in e, dealloc)
      first
freed-In (h ∷ hs) a (s, u, v) (later m) k =
    rw (test_false h.addr a.addr k (begins_once h a hs s v u m), dealloc)
      (later (freed-In hs a v m k))

others-In :
    (heap : List Header) (y : ℕ) (b : Header)
    → y + 32 < 2 ^ 64
    → In b heap
    → b.addr ≢ y
    → In b (dealloc heap (y + 32))
unfolding dealloc
others-In [] y b k m e = elim m [ ]
others-In (b' ∷ hs) y b k first e = rw (test_false b'.addr y k e, dealloc) first
others-In (h ∷ hs) y b k (later m) e = elim (Bool-cases (h.addr == sub (y + 32) header_size)) [
  | inl t ↦ rw (t, dealloc) (later m)
  | inr f ↦ rw (f, dealloc) (later (others-In hs y b k m e))
]

-- Deallocating an object of a valid heap leaves a valid heap, in which the region of the object
-- is free, and every other region is as it was.
pub dealloc_lem :
    (heap : List Header) (a : Header)
    → IsValid heap
    → In a heap
    → IsValid (dealloc heap (a.addr + 32))
      × In (record a { is_allocated = false }) (dealloc heap (a.addr + 32))
      × ((b : Header) → In b heap → b.addr ≢ a.addr → In b (dealloc heap (a.addr + 32)))
unfolding freed
dealloc_lem heap a v m = (
  dealloc-IsValid heap (a.addr + 32) v,
  freed-In heap a v m k,
  λ b n e. others-In heap a.addr b k n e,
)
  where
    k : a.addr + 32 < 2 ^ 64
    k = omega (arith, (In-IsSound a heap v m).room, (In-IsSound a heap v m).inside)
