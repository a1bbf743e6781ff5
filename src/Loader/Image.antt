-- ===== src/Loader/Image.antt =====
-- `Elf::load` of os/src/loader.rs: the segments are copied to fresh pages, and relocated there. The
-- address of the pages is the parameter `phys_addr`.
use wasabi.Base.{
  ℕ, zero, suc, ◌-◌, ◌%◌, ◌^◌, List, [], ◌∷◌, Bool, true, false, not, ◌&&◌, ltb, leb, min, max,
  bit_and, ◌==◌, if◌then◌else◌, Result, ok, err, failed, ensure, assert, ◌>>=◌, ◌>>◌, Option, none,
  some, length, take, drop,
}
use wasabi.Base.Bytes.{slice, to_le_bytes}
use wasabi.Util.{u64_mod}
use wasabi.Loader.Memory.{
  AddressRange, from_start_and_size, contains, offset_of, to_range_in, range_size, Region,
  alloc_bytes, copy_at, add64, sub64,
}
use wasabi.Loader.Headers.{
  SegmentHeader, vaddr_range, file_range, RelocationEntry, relocation_entry, DynamicEntry,
  dynamic_entry, phdr_type_load, phdr_type_dynamic, dynamic_tag_rela_address,
  dynamic_tag_rela_total_size, dynamic_tag_rela_entry_size, r_386_relative,
}

-- `&mut dst[from..to]` and `[..src.len()].copy_from_slice(src)`
abbrev pub copy_part : Region → ℕ × ℕ → List ℕ → Result Region
copy_part region (from, to) src = do
  assert (leb from to && leb to (length region.bytes))
  assert (leb (length src) (to - from))
  ok (record region { bytes = copy_at region.bytes from src })

unfoldable pub load_segment : List ℕ → AddressRange → SegmentHeader → Region → Result Region
unfolding to_range_in vaddr_range file_range
load_segment bytes app sh region = do
  dst ← to_range_in (vaddr_range sh) app
  assert (leb dst.0 dst.1 && leb dst.1 (length region.bytes))
  src ← slice bytes (file_range sh).0 (file_range sh).1
  copy_part region dst src

unfoldable pub load_segments : List ℕ → AddressRange → List SegmentHeader → Region → Result Region
unfolding load_segment
load_segments bytes app [] region = ok region
load_segments bytes app (s ∷ segments) region =
    load_segment bytes app s region >>= load_segments bytes app segments

-- The segments to be loaded
unfoldable pub to_be_loaded : List SegmentHeader → List SegmentHeader
to_be_loaded [] = []
to_be_loaded (s ∷ segments) =
    if s.phdr_type == phdr_type_load then s ∷ to_be_loaded segments else to_be_loaded segments

-- `!(align - 1)`
abbrev pub align_mask : ℕ → ℕ
align_mask align = u64_mod - 1 - sub64 align 1

-- The page-aligned bounds of a segment
unfoldable pub aligned_bounds : SegmentHeader → ℕ × ℕ
aligned_bounds s = (
  bit_and s.vaddr (align_mask s.align),
  bit_and (add64 (add64 s.vaddr s.vsize) (sub64 s.align 1)) (align_mask s.align),
)

-- The range of all segments: `fold`, from the empty range
unfoldable pub app_range : ℕ × ℕ → List SegmentHeader → AddressRange
unfolding aligned_bounds
app_range (from, to) [] = record { start = from; end = to }
app_range (from, to) (s ∷ segments) =
    app_range (min from (aligned_bounds s).0, max to (aligned_bounds s).1) segments

pub record LoadedElf : Type 0 where
  pub region : Region
  pub app_vaddr_range : AddressRange
  pub loaded_segments : List SegmentHeader

-- `resolve_vaddr`
abbrev pub resolve_in : LoadedElf → List SegmentHeader → ℕ → Result ℕ
resolve_in l [] vaddr = err (failed "vaddr not found")
resolve_in l (s ∷ segments) vaddr =
    let found = offset_of l.app_vaddr_range vaddr >>= λ ofs. ok (add64 l.region.phys_addr ofs) in
    let rest = resolve_in l segments vaddr in if contains (vaddr_range s) vaddr then found else rest

unfoldable pub resolve_vaddr : LoadedElf → ℕ → Result ℕ
unfolding offset_of vaddr_range contains
resolve_vaddr l vaddr = resolve_in l l.loaded_segments vaddr

unfoldable pub slice_of_vaddr_range : LoadedElf → AddressRange → Result (List ℕ)
unfolding to_range_in
slice_of_vaddr_range l r = do
  part ← to_range_in r l.app_vaddr_range
  slice l.region.bytes part.0 part.1

-- The range that is written has eight bytes, as many as the value.
unfoldable pub write_le_u64_at_vaddr : LoadedElf → ℕ → ℕ → Result LoadedElf
unfolding to_range_in from_start_and_size
write_le_u64_at_vaddr l vaddr value = do
  part ← to_range_in (from_start_and_size vaddr 8) l.app_vaddr_range
  region ← copy_part l.region part (to_le_bytes 8 value)
  ok (record l { region = region })

-- One relocation
unfoldable pub relocate : LoadedElf → RelocationEntry → Result LoadedElf
unfolding resolve_vaddr write_le_u64_at_vaddr
relocate l e =
    ensure (e.info % 2 ^ 32 == r_386_relative) (failed "Relocation type is not supported yet")
    >> do resolved ← resolve_vaddr l e.addend; write_le_u64_at_vaddr l e.address resolved

unfoldable pub relocate_all : LoadedElf → List RelocationEntry → Result LoadedElf
unfolding relocate
relocate_all l [] = ok l
relocate_all l (e ∷ entries) = relocate l e >>= λ l'. relocate_all l' entries

-- `chunks_exact(size)`, each chunk read by `f`, with a bound on the rounds
unfoldable pub read_chunks : {A : Type 0} → ℕ → (List ℕ → Result A) → ℕ → List ℕ → Result (List A)
read_chunks size f zero bytes = ok []
read_chunks size f (suc rounds) bytes =
    let more = f (take size bytes) >>= λ a.
    read_chunks size f rounds (drop size bytes) >>= λ rest. ok (a ∷ rest) in
    if ltb (length bytes) size then ok [] else more

-- It panics if the size is 0.
unfoldable pub chunks_exact : {A : Type 0} → ℕ → (List ℕ → Result A) → List ℕ → Result (List A)
unfolding read_chunks
chunks_exact size f bytes = assert (ltb 0 size) >> read_chunks size f (length bytes) bytes

-- `iter().find(|e| e.tag == tag).map(|e| e.value as usize)`
abbrev pub find_tag : ℕ → List DynamicEntry → Option ℕ
find_tag tag [] = none
find_tag tag (e ∷ entries) = if e.tag == tag then some e.value else find_tag tag entries

abbrev pub find_dynamic : List SegmentHeader → Option SegmentHeader
find_dynamic [] = none
find_dynamic (s ∷ segments) =
    if s.phdr_type == phdr_type_dynamic then some s else find_dynamic segments

-- The relocations of the dynamic segment, where the address, the size and the entry size are given
abbrev pub relocate_table : LoadedElf → Option ℕ → Option ℕ → Option ℕ → Result LoadedElf
relocate_table l (some addr) (some size) (some entry_size) = do
  table ← slice_of_vaddr_range l (from_start_and_size addr size)
  entries ← chunks_exact entry_size relocation_entry table
  relocate_all l entries
relocate_table l (some addr) (some size) none = ok l
relocate_table l (some addr) none entry_size = ok l
relocate_table l none size entry_size = ok l

abbrev pub relocate_dynamic : List ℕ → Option SegmentHeader → LoadedElf → Result LoadedElf
relocate_dynamic bytes none l = ok l
relocate_dynamic bytes (some d) l = do
  part ← slice bytes (file_range d).0 (file_range d).1
  entries ← chunks_exact 16 dynamic_entry part
  relocate_table l (find_tag dynamic_tag_rela_address entries)
      (find_tag dynamic_tag_rela_total_size entries) (find_tag dynamic_tag_rela_entry_size entries)

abbrev pub is_empty : List SegmentHeader → Bool
is_empty [] = true
is_empty (s ∷ segments) = false

-- The load of the segments to the range that they need, and the relocation there. The call of
-- set_page_attr, which opens the pages to user mode and changes none of their bytes, is left out.
unfoldable pub load_range :
    List ℕ → AddressRange → List SegmentHeader → Option SegmentHeader → ℕ → Result LoadedElf
unfolding load_segments file_range chunks_exact dynamic_entry relocation_entry slice_of_vaddr_range
    relocate_all from_start_and_size
load_range bytes app segments dynamic phys_addr = do
  fresh ← alloc_bytes phys_addr (range_size app)
  region ← load_segments bytes app segments fresh
  relocate_dynamic bytes dynamic
      (record { region = region; app_vaddr_range = app; loaded_segments = segments })

unfoldable pub load : List ℕ → List SegmentHeader → ℕ → Result LoadedElf
load bytes segments phys_addr = do
  ensure (not (is_empty (to_be_loaded segments))) (failed "LOAD segment not found")
  load_range bytes (app_range (u64_mod - 1, 0) (to_be_loaded segments)) (to_be_loaded segments)
      (find_dynamic segments) phys_addr
