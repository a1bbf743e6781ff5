-- ===== src/Examples/PagingTests.antt =====
-- os/src/x86_64/paging.rs at concrete inputs, among them those of its unit test.
use wasabi.Base.{
  ℕ, ◌+◌, ◌-◌, ◌*◌, ◌/◌, ◌<◌, ◌⊎◌, ◌≡◌, refl, arith, inl, inr, ok, err, ◌≤◌, failed, if◌then◌else◌,
  ltb, leb, ◌&&◌, page_not_found, ◌^◌, ◌/=◌, ◌%◌,
}
use wasabi.Paging.{
  Boxes, Heap, create_mapping, translate, disable_cache, box_new, read_write_kernel, page_mapped_4k,
  is_present, bits, table, map_pages, map_page, descend, ensure_populated, populate, update,
  calc_index, zeroed, set_page, page,
}
use wasabi.Paging.Mapping.{
  IsPageTable, create_mapping-translate, create_mapping_misaligned, translation,
}
use wasabi.Paging.Identity.{uncached_entry, disable_cache_identity}
use wasabi.Paging.Tree.{walk}
use wasabi.Paging.Rounds.{found}

-- Sixteen boxes in a row from the second page on.
abbrev boxes : Boxes
boxes = record {
  capacity = 16;
  address = λ k. 4096 * (k + 1);
  aligned = λ k h. omega arith;
  fits = λ k h. omega arith;
  distinct = λ j k h h' e. omega arith;
}

-- An empty page table in the first box
abbrev empty_heap : Heap
empty_heap = record { count = 1; value = λ t i. 0 }

empty_heap-IsPageTable : IsPageTable boxes 4096 empty_heap
unfolding is_present
empty_heap-IsPageTable = (
  record { height = λ t. 3; region = λ t. 0 },
  record {
    tree = record { room = omega arith; child = λ n t i live h e. absurd (ground arith) };
    live = (0, omega arith, refl);
    height = refl;
    region = refl;
  },
)

-- `page_translation` of the source: one page, mapped to the next one.
mapped : Heap
unfolding create_mapping
mapped = (create_mapping boxes 4096 0 0x1000 0x1000 read_write_kernel empty_heap).0

first_page : translate mapped 4096 0 ≡ ok (page_mapped_4k 0x1000)
unfolding mapped translate create_mapping table is_present map_pages map_page descend
    ensure_populated populate box_new update calc_index bits zeroed set_page page
first_page = refl

second_page : translate mapped 4096 0x1000 ≡ err page_not_found
unfolding mapped translate create_mapping table is_present map_pages map_page descend
    ensure_populated populate box_new update calc_index bits zeroed set_page page
second_page = refl

create_mapping-translate_example :
    (s' : Heap) × (create_mapping boxes 4096 0x200000 0x202000 0x5000 read_write_kernel empty_heap
      ≡ (s', ok tt))
    × IsPageTable boxes 4096 s'
    × ((v : ℕ)
        → v < 2 ^ 48
        → (walk 3 s' 4096 v ≡ (
            if leb 0x200000 v && ltb v 0x202000
            then found (0x5000 + (v / 4096 * 4096 - 0x200000)) read_write_kernel
            else walk 3 empty_heap 4096 v))
          × (translate s' 4096 v ≡ (
              if leb 0x200000 v && ltb v 0x202000
              then translation (0x5000 + (v / 4096 * 4096 - 0x200000)) read_write_kernel
              else translate empty_heap 4096 v)))
create_mapping-translate_example =
    create_mapping-translate boxes 4096 0x200000 0x202000 0x5000 read_write_kernel empty_heap
      empty_heap-IsPageTable (omega arith) (omega arith) (omega arith) (omega arith) (omega arith)
      (omega arith) (omega arith)

create_mapping_misaligned_example :
    create_mapping boxes 4096 0x1000 0x2010 0x1000 read_write_kernel empty_heap ≡ (
      empty_heap,
      err (
          failed (
            if 0x1000 % 4096 /= 0
            then "Invalid virt_start"
            else if 0x2010 % 4096 /= 0
            then "Invalid virt_end"
            else "Invalid phys")),
    )
create_mapping_misaligned_example =
    create_mapping_misaligned boxes 4096 0x1000 0x2010 0x1000 read_write_kernel empty_heap
      (inr (inl (omega arith)))

disable_cache_identity_example :
    (s' : Heap) × (disable_cache boxes 4096 0x3000 0x2000 empty_heap ≡ (s', ok tt))
    × IsPageTable boxes 4096 s'
    × ((v : ℕ)
        → 0x3000 ≤ v
        → v < 0x3000 + 0x2000
        → (walk 3 s' 4096 v ≡ ok (uncached_entry v))
          × (translate s' 4096 v ≡ ok (page_mapped_4k (v / 4096 * 4096))))
    × ((v : ℕ)
        → v < 2 ^ 48
        → (v < 0x3000) ⊎ (0x3000 + 0x2000 ≤ v)
        → translate s' 4096 v ≡ translate empty_heap 4096 v)
disable_cache_identity_example =
    disable_cache_identity boxes 4096 0x3000 0x2000 empty_heap empty_heap-IsPageTable (omega arith)
      (omega arith) (omega arith) (omega arith)
