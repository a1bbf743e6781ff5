-- ===== src/Allocator/Regions.antt =====
-- Regions of memory that do not overlap, and pieces of them.
use wasabi.Base.{◌+◌, ◌≤◌, ◌≡◌, arith, List, [], ◌∷◌, ◌++◌, true, ◌⊎◌, inl, inr}
use wasabi.Allocator.{Header}
use wasabi.Allocator.Provide.{IsSound}

-- Two regions have no byte in common.
abbrev pub Apart : Header → Header → Type 0
Apart h k = (h.addr + h.size ≤ k.addr) ⊎ (k.addr + k.size ≤ h.addr)

abbrev pub ApartFromAll : Header → List Header → Type 0
ApartFromAll h [] = Unit
ApartFromAll h (k ∷ ks) = Apart h k × ApartFromAll h ks

-- A heap of sound regions, no two of which overlap.
abbrev pub IsValid : List Header → Type 0
IsValid [] = Unit
IsValid (h ∷ hs) = IsSound h × ApartFromAll h hs × IsValid hs

-- A header stands in the heap.
pub data In (a : Header) : List Header → Type 0 where
  first : {hs : List Header} → In a (a ∷ hs)
  later : {h : Header} {hs : List Header} → In a hs → In a (h ∷ hs)

-- Every allocated header of the one heap stands in the other.
abbrev pub Keeps : List Header → List Header → Type 0
Keeps heap heap' = (b : Header) → In b heap → b.is_allocated ≡ true → In b heap'

-- One region lies inside another.
abbrev pub Inside : Header → Header → Type 0
Inside a h = (h.addr ≤ a.addr) × (a.addr + a.size ≤ h.addr + h.size)

pub Apart-Inside : (a h x : Header) → Inside a h → Apart h x → Apart a x
Apart-Inside a h x i (inl p) = inl (omega arith)
Apart-Inside a h x i (inr p) = inr (omega arith)

pub Apart-sym : (h k : Header) → Apart h k → Apart k h
Apart-sym h k (inl p) = inr p
Apart-sym h k (inr p) = inl p

pub ApartFromAll-Inside :
    (a h : Header) (hs : List Header) → Inside a h → ApartFromAll h hs → ApartFromAll a hs
ApartFromAll-Inside a h [] i u = tt
ApartFromAll-Inside a h (k ∷ ks) i u = (Apart-Inside a h k i u.0, ApartFromAll-Inside a h ks i u.1)

pub ApartFromAll-append :
    (a : Header) (ps hs : List Header)
    → ApartFromAll a ps
    → ApartFromAll a hs
    → ApartFromAll a (ps ++ hs)
ApartFromAll-append a [] hs u v = v
ApartFromAll-append a (p ∷ ps) hs u v = (u.0, ApartFromAll-append a ps hs u.1 v)

pub In-append : (b : Header) (ps hs : List Header) → In b hs → In b (ps ++ hs)
In-append b [] hs m = m
In-append b (p ∷ ps) hs m = later (In-append b ps hs m)

-- Pieces of one region.
abbrev pub AllInside : List Header → Header → Type 0
AllInside [] h = Unit
AllInside (p ∷ ps) h = Inside p h × AllInside ps h

-- A region of the heap may be replaced by pieces of it that do not overlap.
pub replace-IsValid :
    (ps hs : List Header) (h : Header)
    → AllInside ps h
    → IsValid ps
    → ApartFromAll h hs
    → IsValid hs
    → IsValid (ps ++ hs)
replace-IsValid [] hs h i w u v = v
replace-IsValid (p ∷ ps) hs h i (s, a, w) u v = (
  s,
  ApartFromAll-append p ps hs a (ApartFromAll-Inside p h hs i.0 u),
  replace-IsValid ps hs h i.1 w u v,
)

pub replace-ApartFromAll :
    (ps hs : List Header) (h x : Header)
    → AllInside ps h
    → ApartFromAll x (h ∷ hs)
    → ApartFromAll x (ps ++ hs)
replace-ApartFromAll [] hs h x i u = u.1
replace-ApartFromAll (p ∷ ps) hs h x i u = (
  Apart-sym p x (Apart-Inside p h x i.0 (Apart-sym x h u.0)),
  replace-ApartFromAll ps hs h x i.1 u,
)
