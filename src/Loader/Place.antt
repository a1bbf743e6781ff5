-- ===== src/Loader/Place.antt =====
-- A segment that is loaded stands at its address, and the rest of the pages is as before.
use wasabi.Base.{
  ℕ, zero, suc, ◌+◌, ◌-◌, ◌^◌, ◌≤◌, ◌<◌, ◌≡◌, refl, ap, ◌∙◌, arith, List, [], ◌∷◌, ◌&&◌, leb, ltb,
  if◌then◌else◌, length, take, drop, set, get_or, ok, length-set, length-take, length-drop,
  get_or-set_self, get_or-set_ne,
}
use wasabi.Base.Bytes.{slice}
use wasabi.Loader.Memory.{AddressRange, Region, copy_at, to_range_in, from_start_and_size, add64}
use wasabi.Loader.Headers.{SegmentHeader, vaddr_range, file_range}
use wasabi.Loader.Image.{load_segment}
use wasabi.Loader.Bounds.{IsLoadable}

pub length-copy_at :
    (dst : List ℕ) (ofs : ℕ) (src : List ℕ) → length (copy_at dst ofs src) ≡ length dst
unfolding copy_at
length-copy_at dst ofs [] = refl
length-copy_at dst ofs (b ∷ src) =
    length-copy_at (set dst ofs b) (suc ofs) src ∙ length-set dst ofs b

next_byte : (b : ℕ) (src : List ℕ) (k : ℕ) → 0 < k → get_or (b ∷ src) k 0 ≡ get_or src (k - 1) 0
next_byte b src zero h = absurd (omega arith)
next_byte b src (suc k) h = ap (λ j. get_or src j 0) (omega arith)

cell :
    (dst : List ℕ) (ofs b : ℕ) (src : List ℕ) (i : ℕ)
    → ofs < length dst
    → (if leb (suc ofs) i && ltb i (suc ofs + length src)
        then get_or src (i - suc ofs) 0
        else get_or (set dst ofs b) i 0)
      ≡ (if leb ofs i && ltb i (ofs + suc (length src))
          then get_or (b ∷ src) (i - ofs) 0
          else get_or dst i 0)
cell dst ofs b src i h =
    ground
      (arith, get_or-set_self dst ofs b 0 h, get_or-set_ne dst ofs i b 0, next_byte b src (i - ofs))

-- A copy changes the bytes that it covers, and no others.
pub get_or-copy_at :
    (dst : List ℕ) (ofs : ℕ) (src : List ℕ) (i : ℕ)
    → ofs + length src ≤ length dst
    → get_or (copy_at dst ofs src) i 0
      ≡ (if leb ofs i && ltb i (ofs + length src) then get_or src (i - ofs) 0 else get_or dst i 0)
unfolding copy_at
get_or-copy_at dst ofs [] i h = ground arith
get_or-copy_at dst ofs (b ∷ src) i h =
    get_or-copy_at (set dst ofs b) (suc ofs) src i (omega (arith, h, length-set dst ofs b))
    ∙ cell dst ofs b src i (omega (arith, h))

get_or-take : (n : ℕ) (xs : List ℕ) (i : ℕ) → i < n → get_or (take n xs) i 0 ≡ get_or xs i 0
get_or-take zero xs i h = absurd (omega arith)
get_or-take (suc n) [] i h = refl
get_or-take (suc n) (x ∷ xs) zero h = refl
get_or-take (suc n) (x ∷ xs) (suc i) h = get_or-take n xs i (omega arith)

get_or-drop : (n : ℕ) (xs : List ℕ) (i : ℕ) → get_or (drop n xs) i 0 ≡ get_or xs (n + i) 0
get_or-drop zero xs i = ap (λ k. get_or xs k 0) (omega arith)
get_or-drop (suc n) [] i = refl
get_or-drop (suc n) (x ∷ xs) i =
    get_or-drop n xs i
    ∙ ap (λ k. get_or (x ∷ xs) k 0) (let e : suc (n + i) ≡ suc n + i = omega arith in e)

-- A slice within the bounds, by its length and its bytes.
pub slice_lem :
    (xs : List ℕ) (from to : ℕ)
    → from ≤ to
    → to ≤ length xs
    → (part : List ℕ) × (slice xs from to ≡ ok part)
      × (length part ≡ to - from)
      × ((i : ℕ) → i < to - from → get_or part i 0 ≡ get_or xs (from + i) 0)
unfolding slice
slice_lem xs from to h k = (
  take (to - from) (drop from xs),
  ground arith,
  omega (arith, length-take (to - from) (drop from xs), length-drop from xs),
  λ i b. get_or-take (to - from) (drop from xs) i b ∙ get_or-drop from xs i,
)

-- A range within a region, as offsets from its start.
pub to_range_in_lem :
    (start size : ℕ) (app : AddressRange)
    → 0 < size
    → app.start ≤ start
    → start + size ≤ app.end
    → app.end < 2 ^ 64
    → to_range_in (from_start_and_size start size) app
      ≡ ok (start - app.start, start - app.start + size)
unfolding to_range_in from_start_and_size
to_range_in_lem start size app p low high top = ground arith

module _ (bytes : List ℕ) (app : AddressRange) (s : SegmentHeader) (region : Region)
    (l : IsLoadable bytes s) (low : app.start ≤ s.vaddr) (high : s.vaddr + s.vsize ≤ app.end)
    (top : app.end < 2 ^ 64) (room : app.end ≤ app.start + length region.bytes) where
  -- The byte of the segment at an address, or the one that was there.
  abbrev placed : ℕ → ℕ
  placed addr =
      if leb s.vaddr addr && ltb addr (s.vaddr + s.fsize)
      then get_or bytes (s.offset + (addr - s.vaddr)) 0
      else get_or region.bytes (addr - app.start) 0

  shift :
      (part : List ℕ) (addr : ℕ)
      → length part ≡ s.fsize
      → ((i : ℕ) → i < s.fsize → get_or part i 0 ≡ get_or bytes (s.offset + i) 0)
      → app.start ≤ addr
      → get_or (copy_at region.bytes (s.vaddr - app.start) part) (addr - app.start) 0 ≡ placed addr
  shift part addr size eq h = ground (
    arith,
    get_or-copy_at region.bytes (s.vaddr - app.start) part (addr - app.start)
        (omega (arith, size, l.fits_memory)),
    eq (addr - s.vaddr),
    ap (λ k. get_or part k 0)
        (let e : s.vaddr + (addr - s.vaddr) - app.start - (s.vaddr - app.start) ≡ addr - s.vaddr =
            omega arith in
          e),
    ap (λ k. get_or part k 0)
        (let e : addr - s.vaddr + app.start - app.start ≡ addr - s.vaddr = omega arith in e),
  )

  pub load_segment_lem :
      (loaded : Region) × (load_segment bytes app s region ≡ ok loaded)
      × (loaded.phys_addr ≡ region.phys_addr)
      × (length loaded.bytes ≡ length region.bytes)
      × ((addr : ℕ) → app.start ≤ addr → get_or loaded.bytes (addr - app.start) 0 ≡ placed addr)
  unfolding load_segment vaddr_range file_range
  load_segment_lem =
      let (part, sliced, size, eq) =
        slice_lem bytes s.offset (s.offset + s.fsize) (omega arith) (omega (arith, l.fits_file)) in
      let cut : slice bytes s.offset (add64 s.offset s.fsize) ≡ ok part =
        ap (slice bytes s.offset) (omega (arith, l.offset_bound)) ∙ sliced in
      (
        record region { bytes = copy_at region.bytes (s.vaddr - app.start) part },
        ground (arith, cut, size, l.some_memory, l.fits_memory),
        refl,
        length-copy_at region.bytes (s.vaddr - app.start) part,
        λ addr h. shift part addr (omega (arith, size)) (λ i b. eq i (omega arith)) h,
      )
