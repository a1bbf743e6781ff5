-- ===== src/Loader/Load.antt =====
-- Loading a program with no dynamic segment: what its pages hold.
use wasabi.Base.{
  ℕ, ◌+◌, ◌-◌, ◌*◌, ◌%◌, ◌^◌, ◌≤◌, ◌<◌, ◌≡◌, refl, ap, ◌∙◌, sym, subst, arith, List, [], ◌∷◌, ◌&&◌,
  leb, ltb, if◌then◌else◌, length, get_or, ok, none, replicate, length-replicate, get_or-replicate,
  false,
}
use wasabi.Util.{u64_mod, page_size, size_in_pages_from_bytes}
use wasabi.Util.Pow2.{size_in_pages_tight}
use wasabi.Loader.Memory.{AddressRange, Region, range_size, alloc_bytes}
use wasabi.Loader.Headers.{SegmentHeader}
use wasabi.Loader.Image.{
  LoadedElf, load, load_range, load_segments, app_range, to_be_loaded, find_dynamic, is_empty,
}
use wasabi.Loader.Bounds.{AllLoadable, AllWithin, app_range_bounds}
use wasabi.Loader.Place.{load_segment_lem}

-- What an address holds once the segments are loaded in order: the byte of the last one whose bytes
-- of the file reach it, and `old` if there is none.
abbrev pub image : List ℕ → List SegmentHeader → ℕ → ℕ → ℕ
image bytes [] addr old = old
image bytes (s ∷ segments) addr old = image bytes segments addr (
    if leb s.vaddr addr && ltb addr (s.vaddr + s.fsize)
    then get_or bytes (s.offset + (addr - s.vaddr)) 0
    else old)

module _ (bytes : List ℕ) (app : AddressRange) (top : app.end < 2 ^ 64) where
  load_segments_lem :
      (segments : List SegmentHeader) (region : Region)
      → AllLoadable bytes segments
      → AllWithin app segments
      → app.end ≤ app.start + length region.bytes
      → (loaded : Region) × (load_segments bytes app segments region ≡ ok loaded)
        × (loaded.phys_addr ≡ region.phys_addr)
        × (length loaded.bytes ≡ length region.bytes)
        × ((addr : ℕ)
            → app.start ≤ addr
            → get_or loaded.bytes (addr - app.start) 0
              ≡ image bytes segments addr (get_or region.bytes (addr - app.start) 0))
  unfolding load_segments
  load_segments_lem [] region l w room = (region, refl, refl, refl, λ addr h. refl)
  load_segments_lem (s ∷ segments) region (l, ls) (low, high, w) room =
      let (mid, run, at, size, bytes_of) =
        load_segment_lem bytes app s region l low high top room in
      let (loaded, rest, at', size', bytes_of') =
        load_segments_lem segments mid ls w (omega (arith, room, size)) in
      (
        loaded,
        rw run rest,
        at' ∙ at,
        size' ∙ size,
        λ addr h. bytes_of' addr h ∙ ap (image bytes segments addr) (bytes_of addr h),
      )

alloc_bytes_lem :
    (phys_addr n : ℕ)
    → n + 2 * page_size < 2 ^ 63
    → (region : Region) × (alloc_bytes phys_addr n ≡ ok region)
      × (region.phys_addr ≡ phys_addr)
      × (n ≤ length region.bytes)
      × ((i : ℕ) → get_or region.bytes i 0 ≡ 0)
unfolding alloc_bytes
alloc_bytes_lem phys_addr n h =
    let (holds, tight) = size_in_pages_tight n (omega (arith, h)) in
    let size = page_size * size_in_pages_from_bytes n % u64_mod in
    (
      record { phys_addr = phys_addr; bytes = replicate size 0 },
      ground (arith, tight),
      refl,
      omega (arith, length-replicate {A = ℕ} size 0, holds, tight),
      get_or-replicate {A = ℕ} size 0,
    )

-- A range that contains a segment is not empty.
start-lt-end :
    (bytes : List ℕ) (r : AddressRange) (segments : List SegmentHeader)
    → is_empty segments ≡ false
    → AllLoadable bytes segments
    → AllWithin r segments
    → r.start < r.end
start-lt-end bytes r [] h l w = cc
start-lt-end bytes r (s ∷ segments) h (l, ls) (low, high, w) =
    omega (arith, low, high, l.some_memory)

load_range_lem :
    (bytes : List ℕ) (app : AddressRange) (segments : List SegmentHeader) (phys_addr : ℕ)
    → is_empty segments ≡ false
    → AllLoadable bytes segments
    → AllWithin app segments
    → app.end < 2 ^ 64
    → app.end + 2 * page_size < 2 ^ 63 + app.start
    → (l : LoadedElf) × (load_range bytes app segments none phys_addr ≡ ok l)
      × (l.app_vaddr_range ≡ app)
      × (l.region.phys_addr ≡ phys_addr)
      × (app.end ≤ app.start + length l.region.bytes)
      × ((addr : ℕ)
          → app.start ≤ addr
          → get_or l.region.bytes (addr - app.start) 0 ≡ image bytes segments addr 0)
unfolding load_range
load_range_lem bytes app segments phys_addr some_load ls w top size =
    let order = start-lt-end bytes app segments some_load ls w in
    let span : range_size app ≡ app.end - app.start =
      unfold range_size in omega (arith, order, top) in
    let (fresh, alloc, at, room, zero_bytes) =
      alloc_bytes_lem phys_addr (range_size app) (omega (arith, size, span)) in
    let (region, run, at', size', bytes_of) =
      load_segments_lem bytes app top segments fresh ls w (omega (arith, room, span)) in
    (
      record { region = region; app_vaddr_range = app; loaded_segments = segments },
      rw alloc (rw run refl),
      refl,
      at' ∙ at,
      omega (arith, size', room, span, order),
      λ addr h. bytes_of addr h ∙ ap (image bytes segments addr) (zero_bytes (addr - app.start)),
    )

-- For a file whose segments of type LOAD have their bytes in the file, no more of these than memory,
-- power-of-two alignments and ends below `2 ^ 64`, at least one of them, a total range that the
-- allocator takes, and no dynamic segment: load succeeds, the range contains every such segment, the
-- pages hold the whole range, and each address holds the byte of the last segment in order whose part
-- of the file reaches it, or 0.
pub load_lem :
    (bytes : List ℕ) (segments : List SegmentHeader) (phys_addr : ℕ)
    → is_empty (to_be_loaded segments) ≡ false
    → AllLoadable bytes (to_be_loaded segments)
    → find_dynamic segments ≡ none
    → (app_range (u64_mod - 1, 0) (to_be_loaded segments)).end + 2 * page_size
      < 2 ^ 63 + (app_range (u64_mod - 1, 0) (to_be_loaded segments)).start
    → (l : LoadedElf) × (load bytes segments phys_addr ≡ ok l)
      × (l.region.phys_addr ≡ phys_addr)
      × AllWithin l.app_vaddr_range (to_be_loaded segments)
      × (l.app_vaddr_range.end ≤ l.app_vaddr_range.start + length l.region.bytes)
      × ((addr : ℕ)
          → l.app_vaddr_range.start ≤ addr
          → get_or l.region.bytes (addr - l.app_vaddr_range.start) 0
            ≡ image bytes (to_be_loaded segments) addr 0)
unfolding load
load_lem bytes segments phys_addr some_load ls static size =
    let ss = to_be_loaded segments in
    let app = app_range (u64_mod - 1, 0) ss in
    let (from, to, top, w) = app_range_bounds bytes (u64_mod - 1) 0 ss ls (omega arith) in
    let (l, run, range, at, room, bytes_of) =
      load_range_lem bytes app ss phys_addr some_load ls w top size in
    (
      l,
      rw (some_load, static) run,
      at,
      subst (λ r. AllWithin r ss) (sym range) w,
      subst (λ r. r.end ≤ r.start + length l.region.bytes) (sym range) room,
      subst
          (λ r.
            (addr : ℕ)
            → r.start ≤ addr
            → get_or l.region.bytes (addr - r.start) 0 ≡ image bytes ss addr 0)
          (sym range) bytes_of,
    )
