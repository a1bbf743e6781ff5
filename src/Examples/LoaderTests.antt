-- ===== src/Examples/LoaderTests.antt =====
-- Tests and instances for the loader.
use wasabi.Base.{
  ℕ, ◌+◌, ◌-◌, ◌*◌, ◌^◌, ◌≤◌, ◌<◌, ◌≡◌, refl, arith, inl, List, [], ◌∷◌, ok, panic, true, false,
  length, get_or, replicate,
}
use wasabi.Base.Bytes.{slice}
use wasabi.Util.{u64_mod, page_size}
use wasabi.Loader.Memory.{contains}
use wasabi.Loader.Headers.{SegmentHeader, SectionHeader, RelocationEntry, vaddr_range}
use wasabi.Loader.Parse.{Elf, parse, check_signature}
use wasabi.Loader.Image.{LoadedElf, load, relocate_all, to_be_loaded, app_range, is_empty}
use wasabi.Loader.Bounds.{AllLoadable, AllWithin}
use wasabi.Loader.Load.{load_lem, image}
use wasabi.Loader.Relocate.{relocate_all_lem, relocated, AllRelocations}
use wasabi.Loader.Rows.{ProgramHeader, SectionRow}
use wasabi.Loader.WellFormed.{FileHeader, IsWellFormed, file, parse-file}

-- Four bytes of the file at 0x1002, in a segment of eight bytes of memory
abbrev code_segment : SegmentHeader
code_segment = record {
  phdr_type = 1;
  entry_type = 5;
  offset = 2;
  vaddr = 0x1002;
  fsize = 4;
  vsize = 8;
  align = 0x1000;
}

abbrev note_segment : SegmentHeader
note_segment = record {
  phdr_type = 4;
  entry_type = 4;
  offset = 0;
  vaddr = 0;
  fsize = 4;
  vsize = 4;
  align = 4;
}

abbrev headers : List SegmentHeader
headers = note_segment ∷ code_segment ∷ []

abbrev bytes : List ℕ
bytes = 9 ∷ 9 ∷ 1 ∷ 2 ∷ 3 ∷ 4 ∷ []

loads : is_empty (to_be_loaded headers) ≡ false
unfolding to_be_loaded
loads = refl

loadable : AllLoadable bytes (to_be_loaded headers)
unfolding to_be_loaded
loadable = (
  record {
    align_bits = 12;
    align_bound = omega arith;
    align_lem = omega arith;
    some_memory = omega arith;
    fits_memory = omega arith;
    fits_space = omega arith;
    fits_file = omega arith;
    offset_bound = omega arith;
  },
  tt,
)

range_fits :
    (app_range (u64_mod - 1, 0) (to_be_loaded headers)).end + 2 * page_size
    < 2 ^ 63 + (app_range (u64_mod - 1, 0) (to_be_loaded headers)).start
unfolding to_be_loaded app_range
range_fits = omega arith

load_lem_example :
    (l : LoadedElf) × (load bytes headers 0x8000 ≡ ok l)
    × (l.region.phys_addr ≡ 0x8000)
    × AllWithin l.app_vaddr_range (to_be_loaded headers)
    × (l.app_vaddr_range.end ≤ l.app_vaddr_range.start + length l.region.bytes)
    × ((addr : ℕ)
        → l.app_vaddr_range.start ≤ addr
        → get_or l.region.bytes (addr - l.app_vaddr_range.start) 0
          ≡ image bytes (to_be_loaded headers) addr 0)
load_lem_example = load_lem bytes headers 0x8000 loads loadable refl range_fits

-- A program at 0x1000, in 32 bytes of memory at 0x8000
abbrev data_segment : SegmentHeader
data_segment = record code_segment { vaddr = 0x1000; vsize = 32 }

abbrev loaded : LoadedElf
loaded = record {
  region = record { phys_addr = 0x8000; bytes = replicate 32 0 };
  app_vaddr_range = record { start = 0x1000; end = 0x1020 };
  loaded_segments = data_segment ∷ [];
}

abbrev relocations : List RelocationEntry
relocations = record { address = 0x1008; info = 8; addend = 0x1010 } ∷ []

relocations_lem : AllRelocations loaded.app_vaddr_range loaded.loaded_segments relocations
unfolding contains vaddr_range
relocations_lem = (
  record {
    kind = refl;
    addend_found = refl;
    addend_low = omega arith;
    addend_high = omega arith;
    place_low = omega arith;
    place_high = omega arith;
  },
  tt,
)

relocate_all_lem_example :
    (l' : LoadedElf) × (relocate_all loaded relocations ≡ ok l')
    × (l'.region.phys_addr ≡ 0x8000)
    × ((addr : ℕ)
        → 0x1000 ≤ addr
        → get_or l'.region.bytes (addr - 0x1000) 0
          ≡ relocated 0x8000 loaded.app_vaddr_range relocations addr
              (get_or loaded.region.bytes (addr - 0x1000) 0))
relocate_all_lem_example =
    relocate_all_lem loaded relocations relocations_lem (omega arith) (omega arith)

abbrev header : FileHeader
header = record {
  padding = 0;
  elf_type = 2;
  version = 1;
  entry_vaddr = 0x1002;
  flags = 0;
  header_size = 64;
  names_idx = 0;
}

abbrev names_section : SectionHeader
names_section = record {
  name_ofs = 0;
  section_type = 3;
  flags = 0;
  vaddr = 0;
  offset = 120;
  size = 2;
  link = 0;
  info = 0;
  align = 1;
  entry_size = 0;
}

abbrev program_headers : List ProgramHeader
program_headers = record { header = code_segment; paddr = 0x1002; fits = omega arith } ∷ []

abbrev section_rows : List SectionRow
section_rows = record { header = names_section; padding = 0; fits = omega arith } ∷ []

well_formed : IsWellFormed header 2 program_headers (b'a' ∷ 0 ∷ []) section_rows []
well_formed = record {
  fits = omega arith;
  class_lem = inl refl;
  type_lem = inl refl;
  size = omega arith;
  names = omega arith;
  in_file = omega arith;
}

parse-file_example :
    (elf : Elf) × (parse
        (λ name. true)
        (file header 2 program_headers (b'a' ∷ 0 ∷ []) section_rows [])
      ≡ ok elf)
    × (elf.entry_vaddr ≡ 0x1002)
    × (elf.segments ≡ code_segment ∷ [])
parse-file_example =
    parse-file header 2 program_headers (b'a' ∷ 0 ∷ []) section_rows [] well_formed (λ name. true)

-- A file of three bytes makes the parser panic.
short_file : parse (λ name. true) (1 ∷ 2 ∷ 3 ∷ []) ≡ panic
unfolding parse check_signature slice
short_file = refl
