-- ===== src/Loader/Memory.antt =====
-- os/src/memory.rs: address ranges, and the contiguous pages that a program is loaded to. The
-- address that the allocator gives is a parameter of `alloc_bytes`; the pages are mapped where they
-- stand, which changes none of their bytes.
use wasabi.Base.{
  ℕ, suc, ◌+◌, ◌-◌, ◌*◌, ◌%◌, ◌^◌, List, [], ◌∷◌, Bool, ◌&&◌, ◌||◌, ltb, leb, ◌==◌, if◌then◌else◌,
  Result, ok, err, failed, ensure, ◌>>=◌, ◌>>◌, length, set, replicate,
}
use wasabi.Util.{u64_mod, page_size, size_in_pages_from_bytes}

abbrev pub add64 : ℕ → ℕ → ℕ
add64 a b = (a + b) % u64_mod

abbrev pub sub64 : ℕ → ℕ → ℕ
sub64 a b = (a + u64_mod - b) % u64_mod

pub record AddressRange : Type 0 where
  pub start : ℕ
  pub end : ℕ

unfoldable pub from_start_and_size : ℕ → ℕ → AddressRange
from_start_and_size start size = record { start = start; end = add64 start size }

-- `AddressRange::size`
unfoldable pub range_size : AddressRange → ℕ
range_size r = sub64 r.end r.start

unfoldable pub contains : AddressRange → ℕ → Bool
contains r addr = leb r.start addr && ltb addr r.end

unfoldable pub offset_of : AddressRange → ℕ → Result ℕ
unfolding contains
offset_of r addr =
    if contains r addr then ok (addr - r.start) else err (failed "addr is outside of this region")

-- `to_range_in`: the bounds of this range as offsets in the region
unfoldable pub to_range_in : AddressRange → AddressRange → Result (ℕ × ℕ)
unfolding offset_of range_size contains
to_range_in r region = do
  start ← offset_of region r.start
  ensure (range_size r == 0 || contains region (sub64 r.end 1))
      (failed "end of this range is outside of the region")
  ok (start, add64 start (range_size r))

-- `ContiguousPhysicalMemoryPages`: where the pages are, and what they hold
pub record Region : Type 0 where
  pub phys_addr : ℕ
  pub bytes : List ℕ

-- `ContiguousPhysicalMemoryPages::range`
unfoldable pub region_range : Region → AddressRange
unfolding from_start_and_size
region_range r = from_start_and_size r.phys_addr (length r.bytes)

-- `alloc_bytes` and `fill_with_bytes(0)`: `Layout::from_size_align` refuses a size above
-- `isize::MAX`, once rounded up to the alignment.
unfoldable pub alloc_pages : ℕ → ℕ → Result Region
alloc_pages phys_addr num_pages =
    let size = page_size * num_pages % u64_mod in
    if leb size (2 ^ 63 - page_size)
    then ok (record { phys_addr = phys_addr; bytes = replicate size 0 })
    else err (failed "Invalid layout")

unfoldable pub alloc_bytes : ℕ → ℕ → Result Region
unfolding alloc_pages
alloc_bytes phys_addr num_bytes = alloc_pages phys_addr (size_in_pages_from_bytes num_bytes)

-- `dst[ofs..ofs + src.len()].copy_from_slice(src)`, within the bounds
unfoldable pub copy_at : List ℕ → ℕ → List ℕ → List ℕ
copy_at dst ofs [] = dst
copy_at dst ofs (b ∷ src) = copy_at (set dst ofs b) (suc ofs) src
