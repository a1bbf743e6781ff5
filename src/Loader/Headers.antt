-- ===== src/Loader/Headers.antt =====
-- os/src/elf.rs: the headers and entries of an ELF file, and those that are read from bytes.
use wasabi.Base.{
  ℕ, List, ◌&&◌, leb, ◌/=◌, if◌then◌else◌, Result, ok, err, failed, ensure, ◌>>=◌, ◌>>◌, length,
}
use wasabi.Util.{read_le}
use wasabi.Loader.Memory.{AddressRange, from_start_and_size, add64}

abbrev pub phdr_type_load : ℕ
phdr_type_load = 1

abbrev pub phdr_type_dynamic : ℕ
phdr_type_dynamic = 2

abbrev pub dynamic_tag_rela_address : ℕ
dynamic_tag_rela_address = 7

abbrev pub dynamic_tag_rela_total_size : ℕ
dynamic_tag_rela_total_size = 8

abbrev pub dynamic_tag_rela_entry_size : ℕ
dynamic_tag_rela_entry_size = 9

abbrev pub r_386_relative : ℕ
r_386_relative = 8

pub record SegmentHeader : Type 0 where
  pub phdr_type : ℕ
  pub entry_type : ℕ
  pub offset : ℕ
  pub vaddr : ℕ
  pub fsize : ℕ
  pub vsize : ℕ
  pub align : ℕ

unfoldable pub vaddr_range : SegmentHeader → AddressRange
unfolding from_start_and_size
vaddr_range s = from_start_and_size s.vaddr s.vsize

-- `SegmentHeader::file_range`
unfoldable pub file_range : SegmentHeader → ℕ × ℕ
file_range s = (s.offset, add64 s.offset s.fsize)

pub record SectionHeader : Type 0 where
  pub name_ofs : ℕ
  pub section_type : ℕ
  pub flags : ℕ
  pub vaddr : ℕ
  pub offset : ℕ
  pub size : ℕ
  pub link : ℕ
  pub info : ℕ
  pub align : ℕ
  pub entry_size : ℕ

-- `SectionHeader::file_range`
unfoldable pub section_file_range : SectionHeader → Result (ℕ × ℕ)
section_file_range s =
    if s.offset /= 0 && s.size /= 0
    then ok (s.offset, add64 s.offset s.size)
    else err (failed "This section does not have a valid file_range")

pub record RelocationEntry : Type 0 where
  pub address : ℕ
  pub info : ℕ
  pub addend : ℕ

-- `RelocationEntry::try_from`
unfoldable pub relocation_entry : List ℕ → Result RelocationEntry
relocation_entry bytes =
    ensure (leb 24 (length bytes)) (failed "data is too short for SymbolTableEntry") >> do
      address ← read_le 8 bytes 0
      info ← read_le 8 bytes 8
      addend ← read_le 8 bytes 16
      ok (record { address = address; info = info; addend = addend })

pub record DynamicEntry : Type 0 where
  pub tag : ℕ
  pub value : ℕ

-- `DynamicEntry::try_from`
unfoldable pub dynamic_entry : List ℕ → Result DynamicEntry
dynamic_entry bytes =
    ensure (leb 16 (length bytes)) (failed "data is too short for DynamicEntry") >> do
      tag ← read_le 8 bytes 0
      value ← read_le 8 bytes 8
      ok (record { tag = tag; value = value })
