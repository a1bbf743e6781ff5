-- ===== src/Allocator.antt =====
-- os/src/allocator.rs: the first-fit allocator. A `Header` stands at the start of the region it
-- describes, so a heap is the list of the headers with their addresses, in the order of the
-- `next_header` links. Addresses and sizes are `usize`, whose arithmetic wraps.
pub mod Provide
pub mod Fit
pub mod Regions
pub mod Heap
pub mod Free
pub mod Boot
use wasabi.Base.{ℕ, ◌+◌, ◌-◌, ◌*◌, ◌%◌, ◌^◌, max, bit_and, List, [], ◌∷◌, ◌++◌, Option, none, some}
use wasabi.Base.{
  Bool, true, false, not, ◌||◌, ◌==◌, ◌/=◌, leb, if◌then◌else◌, Result, ok, err, panic,
}
use wasabi.Util.{u64_mod, round_up_to_nearest_pow2}

-- `Header`, with the address at which it stands
pub record Header : Type 0 where
  pub addr : ℕ
  pub size : ℕ
  pub is_allocated : Bool

abbrev pub header_size : ℕ
header_size = 32

-- `usize` addition and subtraction
abbrev pub add : ℕ → ℕ → ℕ
add a b = (a + b) % u64_mod

abbrev pub sub : ℕ → ℕ → ℕ
sub a b = (a + u64_mod - b) % u64_mod

abbrev pub end_addr : Header → ℕ
end_addr h = add h.addr h.size

unfoldable pub can_provide : Header → ℕ → ℕ → Bool
can_provide h size align = leb (add (add size (header_size * 3)) align) h.size

-- What `provide` leaves of a header that provides: the shrunk header, the headers linked behind
-- it in front of the old rest, and the address of the object.
pub record Provided : Type 0 where
  pub shrunk : Header
  pub behind : List Header
  pub object : ℕ

-- `(self.end_addr() - size) & !(align - 1)`
unfoldable pub place : Header → ℕ → ℕ → ℕ
place h size align = bit_and (sub (end_addr h) size) (u64_mod - 1 - sub align 1)

-- The part of `provide` behind its test and the choice of `allocated_addr`.
unfoldable pub carve : Header → ℕ → ℕ → Result Provided
carve h size allocated_addr =
    let header_for_allocated : Header = record {
      addr = sub allocated_addr header_size;
      size = add size header_size;
      is_allocated = true;
    } in
    let header_for_padding : Header = record {
      addr = end_addr header_for_allocated;
      size = sub (end_addr h) (end_addr header_for_allocated);
      is_allocated = false;
    } in
    let needs_padding = end_addr header_for_allocated /= end_addr h in
    let size_used =
      if needs_padding
      then add header_for_allocated.size header_for_padding.size
      else header_for_allocated.size in
    if leb (add size_used header_size) h.size
    then ok (record {
      shrunk = record h { size = sub h.size size_used };
      behind =
          if needs_padding
          then header_for_allocated ∷ header_for_padding ∷ []
          else header_for_allocated ∷ [];
      object = allocated_addr;
    })
    else panic

-- `Header::provide`: nothing, when the size cannot be rounded up, the region is taken, or it is
-- too small.
unfoldable pub provide : Header → ℕ → ℕ → Result (Option Provided)
provide h size align = elim (round_up_to_nearest_pow2 size) [
  | err e ↦ ok none
  | panic ↦ panic
  | ok rounded ↦
      let size = max rounded header_size in
      let align = max align header_size in
      if h.is_allocated || not (can_provide h size align)
      then ok none
      else elim (carve h size (place h size align)) [
        | ok p ↦ ok (some p)
        | err e ↦ err e
        | panic ↦ panic
      ]
]

-- `alloc_with_options`: the first header that provides; address 0 when none does.
unfoldable pub alloc : List Header → ℕ → ℕ → Result (List Header × ℕ)
alloc [] size align = ok ([], 0)
alloc (h ∷ hs) size align =
    let rest = alloc hs size align in
    elim (provide h size align) [
      | panic ↦ panic
      | err e ↦ err e
      | ok (some p) ↦ ok (p.shrunk ∷ (p.behind ++ hs), p.object)
      | ok none ↦ elim rest [
        | ok (heap, object) ↦ ok (h ∷ heap, object)
        | err e ↦ err e
        | panic ↦ panic
      ]
    ]

-- `dealloc` marks the header that stands right before the object, if one of the heap does: for
-- any other pointer the Rust code writes to memory that the heap does not describe.
unfoldable pub dealloc : List Header → ℕ → List Header
dealloc [] ptr = []
dealloc (h ∷ hs) ptr =
    let rest = dealloc hs ptr in
    if h.addr == sub ptr header_size then record h { is_allocated = false } ∷ hs else h ∷ rest

pub data EfiMemoryType : Type 0 where
  reserved loader_code loader_data boot_services_code boot_services_data : EfiMemoryType
  runtime_services_code runtime_services_data conventional_memory unusable_memory : EfiMemoryType
  acpi_reclaim_memory acpi_memory_nvs memory_mapped_io memory_mapped_io_port_space : EfiMemoryType
  pal_code persistent_memory : EfiMemoryType

pub record EfiMemoryDescriptor : Type 0 where
  pub memory_type : EfiMemoryType
  pub physical_start : ℕ
  pub virtual_start : ℕ
  pub number_of_pages : ℕ
  pub attribute : ℕ

abbrev pub is_conventional : EfiMemoryType → Bool
is_conventional conventional_memory = true
is_conventional _ = false

unfoldable pub add_free_from_descriptor : List Header → EfiMemoryDescriptor → List Header
add_free_from_descriptor heap desc =
    record {
      addr = desc.physical_start;
      size = desc.number_of_pages * 4096 % u64_mod;
      is_allocated = false;
    }
    ∷ heap

unfoldable pub init_with_mmap : List Header → List EfiMemoryDescriptor → List Header
unfolding add_free_from_descriptor
init_with_mmap heap [] = heap
init_with_mmap heap (e ∷ es) =
    if is_conventional e.memory_type
    then init_with_mmap (add_free_from_descriptor heap e) es
    else init_with_mmap heap es
