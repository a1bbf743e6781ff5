-- ===== src/Examples/AllocatorTests.antt =====
-- os/src/allocator.rs at concrete inputs.
use wasabi.Base.{ℕ, ◌^◌, ◌≡◌, ◌≢◌, refl, arith, List, [], ◌∷◌, true, false, ok, ◌⊎◌, inl}
use wasabi.Util.{round_up_to_nearest_pow2, leading_zeros, bit_length}
use wasabi.Allocator.{
  EfiMemoryDescriptor, conventional_memory, reserved, init_with_mmap, Header, alloc, dealloc,
  provide, can_provide, place, carve,
}
use wasabi.Allocator.Provide.{IsSound}
use wasabi.Allocator.Regions.{IsValid, In, first, later}
use wasabi.Allocator.Heap.{Served, AllDecline, alloc_lem}
use wasabi.Allocator.Free.{dealloc_lem}
use wasabi.Allocator.Boot.{IsMemoryMap, Uses, fresh, then_use, allocate, alloc-Uses}

abbrev low : Header
low = record { addr = 0x1000; size = 0x1000; is_allocated = false }

abbrev taken : Header
taken = record { addr = 0x100000; size = 96; is_allocated = true }

abbrev high : Header
high = record { addr = 0x100060; size = 0x20000; is_allocated = false }

abbrev heap : List Header
heap = low ∷ taken ∷ high ∷ []

low-IsSound : IsSound low
low-IsSound = record { aligned = omega arith; room = omega arith; inside = omega arith }

heap-IsValid : IsValid heap
heap-IsValid = (
  low-IsSound,
  (inl (omega arith), (inl (omega arith), tt)),
  (
    record { aligned = omega arith; room = omega arith; inside = omega arith },
    (inl (omega arith), tt),
    (record { aligned = omega arith; room = omega arith; inside = omega arith }, tt, tt),
  ),
)

-- Fifteen pages from 0x1000 on, a reserved region, and a page
abbrev memory_map : List EfiMemoryDescriptor
memory_map =
    record {
      memory_type = conventional_memory;
      physical_start = 0x1000;
      virtual_start = 0;
      number_of_pages = 15;
      attribute = 0;
    }
    ∷ record {
      memory_type = reserved;
      physical_start = 0x10000;
      virtual_start = 0;
      number_of_pages = 16;
      attribute = 0;
    }
    ∷ record {
      memory_type = conventional_memory;
      physical_start = 0x20000;
      virtual_start = 0;
      number_of_pages = 1;
      attribute = 0;
    }
    ∷ []

memory_map-IsMemoryMap : IsMemoryMap memory_map
memory_map-IsMemoryMap = (
  λ conv. (
    record {
      aligned = omega arith;
      start = omega arith;
      some_pages = omega arith;
      below = omega arith;
    },
    (λ c. cc, (λ c. inl (omega arith), tt)),
  ),
  (
    λ conv. cc,
    (
      λ conv. (
        record {
          aligned = omega arith;
          start = omega arith;
          some_pages = omega arith;
          below = omega arith;
        },
        tt,
      ),
      tt,
    ),
  ),
)

abbrev after_one : List Header
after_one =
    record { addr = 0x20000; size = 0xf60; is_allocated = false }
    ∷ record { addr = 0x20f60; size = 0xa0; is_allocated = true }
    ∷ record { addr = 0x1000; size = 0xf000; is_allocated = false }
    ∷ []

one_use : Uses (init_with_mmap [] memory_map) after_one
unfolding init_with_mmap alloc provide can_provide place carve round_up_to_nearest_pow2
    leading_zeros bit_length
one_use = then_use fresh (
    allocate (init_with_mmap [] memory_map) after_one 100 3 0x20f80 (omega arith) (omega arith)
      refl)

alloc-Uses_example :
    IsValid after_one
    × ((heap' : List Header) × (object : ℕ) × (alloc after_one 1234 (2 ^ 12) ≡ ok (heap', object)))
alloc-Uses_example =
    alloc-Uses memory_map after_one 1234 12 memory_map-IsMemoryMap one_use (omega arith)
      (omega arith)

alloc_lem_example :
    (heap' : List Header) × (object : ℕ) × (alloc heap 1234 (2 ^ 12) ≡ ok (heap', object))
    × IsValid heap'
    × (Served heap 1234 12 heap' object
        ⊎ ((object ≡ 0) × (heap' ≡ heap) × AllDecline heap 1234 (2 ^ 12)))
alloc_lem_example = alloc_lem 1234 12 heap (omega arith) (omega arith) heap-IsValid

dealloc_lem_example :
    IsValid (dealloc heap 0x100020)
    × In (record taken { is_allocated = false }) (dealloc heap 0x100020)
    × ((b : Header) → In b heap → b.addr ≢ 0x100000 → In b (dealloc heap 0x100020))
dealloc_lem_example = dealloc_lem heap taken heap-IsValid (later first)

-- 1234 bytes are rounded up to 2048, and do not fit the first region at the alignment of a page.
alloc_skips :
    alloc heap 1234 4096
    ≡ ok (
      low
          ∷ taken
          ∷ record { addr = 0x100060; size = 0x1ef80; is_allocated = false }
          ∷ record { addr = 0x11efe0; size = 0x820; is_allocated = true }
          ∷ record { addr = 0x11f800; size = 0x860; is_allocated = false }
          ∷ [],
      0x11f000,
    )
unfolding alloc provide can_provide place carve round_up_to_nearest_pow2 leading_zeros bit_length
alloc_skips = refl
