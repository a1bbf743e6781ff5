-- ===== src/Loader/Parse.antt =====
-- `Elf::parse` of os/src/loader.rs. The check of `core::str::from_utf8` is the parameter `is_utf8`; a
-- text is the list of its bytes. A BTreeMap is the list of its insertions, the last one first.
use wasabi.Base.{
  ℕ, zero, suc, ◌*◌, List, [], ◌∷◌, ◌++◌, Bool, true, false, not, ◌&&◌, ◌||◌, ltb, leb, ◌==◌, ◌/=◌,
  if◌then◌else◌, Result, ok, err, panic, failed, ensure, ◌>>=◌, ◌>>◌, Option, none, some, length,
  drop,
}
use Prim.Native.Char.{code}
use Prim.Native.String.{String}
use wasabi.Base.Bytes.{slice}
use wasabi.Util.{read_le}
use wasabi.Loader.Memory.{add64}
use wasabi.Loader.Headers.{SegmentHeader, SectionHeader, section_file_range}

-- `data[i]`
unfoldable pub index {ℓ} : {A : Type ℓ} → List A → ℕ → Result A
index [] i = panic
index (x ∷ xs) zero = ok x
index (x ∷ xs) (suc i) = index xs i

-- The bytes of an ASCII text
abbrev pub codes : String → List ℕ
codes String.[] = []
codes (String.◌∷◌ c s) = code c ∷ codes s

-- The bytes of `a` are those of `b`.
abbrev pub same_bytes : List ℕ → List ℕ → Bool
same_bytes [] [] = true
same_bytes (a ∷ ax) (b ∷ bs) = (a == b) && same_bytes ax bs
same_bytes [] (b ∷ bs) = false
same_bytes (a ∷ ax) [] = false

-- `take_while(|c| *c != 0)`
abbrev pub take_while_nonzero : List ℕ → List ℕ
take_while_nonzero [] = []
take_while_nonzero (c ∷ cs) = let rest = c ∷ take_while_nonzero cs in if c /= 0 then rest else []

pub record Elf : Type 0 where
  pub entry_vaddr : ℕ
  pub segments : List SegmentHeader
  pub sections : List (List ℕ × SectionHeader)
  pub string_table : Option (List ℕ)

-- The identification and the type of the file, before any header is read.
unfoldable pub check_signature : List ℕ → Result (Unit {0})
unfolding index
check_signature bytes = do
  magic ← slice bytes 0 4
  ensure (same_bytes magic (0x7f ∷ b'E' ∷ b'L' ∷ b'F' ∷ [])) (failed "No ELF signature found")
  class ← index bytes 4
  ensure (class == 2 || class == 3) (failed "Not a 64-bit ELF")
  order ← index bytes 5
  ensure (order == 1) (failed "Not a litte endian ELF")
  abi ← index bytes 7
  ensure (abi == 0) (failed "ABI is not SystemV")
  elf_type ← read_le 2 bytes 16
  ensure (elf_type == 2 || elf_type == 3) (failed "Not an executable ELF")
  machine ← read_le 2 bytes 18
  ensure (machine == 0x3E) (failed "Not an x86_64 ELF")

-- The fields of one program header
unfoldable pub parse_segment : List ℕ → Result SegmentHeader
parse_segment entry = do
  phdr_type ← read_le 4 entry 0
  entry_type ← read_le 4 entry 4
  offset ← read_le 8 entry 8
  vaddr ← read_le 8 entry 16
  fsize ← read_le 8 entry 32
  vsize ← read_le 8 entry 40
  align ← read_le 8 entry 48
  ok (record {
    phdr_type = phdr_type;
    entry_type = entry_type;
    offset = offset;
    vaddr = vaddr;
    fsize = fsize;
    vsize = vsize;
    align = align;
  })

-- The loop over the headers of a table, with the rounds left
unfoldable pub parse_entries :
    {A : Type 0} → (List ℕ → Result A) → List ℕ → ℕ → ℕ → ℕ → ℕ → Result (List A)
parse_entries parse_entry bytes start size zero i = ok []
parse_entries parse_entry bytes start size (suc left) i = do
  entry ← slice bytes (add64 start (i * size)) (add64 (add64 start (i * size)) size)
  a ← parse_entry entry
  rest ← parse_entries parse_entry bytes start size left (suc i)
  ok (a ∷ rest)

-- A section header is read as the struct stands in memory.
unfoldable pub parse_section : List ℕ → Result SectionHeader
parse_section entry = do
  ensure (not (ltb (length entry) 64)) (failed "Section size is invalid")
  name_ofs ← read_le 4 entry 0
  section_type ← read_le 4 entry 4
  flags ← read_le 4 entry 8
  vaddr ← read_le 8 entry 16
  offset ← read_le 8 entry 24
  size ← read_le 8 entry 32
  link ← read_le 4 entry 40
  info ← read_le 4 entry 44
  align ← read_le 8 entry 48
  entry_size ← read_le 8 entry 56
  ok (record {
    name_ofs = name_ofs;
    section_type = section_type;
    flags = flags;
    vaddr = vaddr;
    offset = offset;
    size = size;
    link = link;
    info = info;
    align = align;
    entry_size = entry_size;
  })

-- `sections.get(".strtab")`, its bytes in the file
abbrev pub find_string_table : List (List ℕ × SectionHeader) → Option SectionHeader
find_string_table [] = none
find_string_table ((name, s) ∷ rest) =
    if same_bytes name (codes ".strtab") then some s else find_string_table rest

-- `.and_then(|s| s.file_range().ok()).map(|r| &data[r])`
abbrev pub part_of : List ℕ → Result (ℕ × ℕ) → Result (Option (List ℕ))
part_of bytes (ok (from, to)) = slice bytes from to >>= λ table. ok (some table)
part_of bytes (err e) = ok none
part_of bytes panic = panic

abbrev pub string_table_bytes : List ℕ → Option SectionHeader → Result (Option (List ℕ))
string_table_bytes bytes none = ok none
string_table_bytes bytes (some s) = part_of bytes (section_file_range s)

module _ (is_utf8 : List ℕ → Bool) where
  unfoldable pub read_string_from_table : Option (List ℕ) → ℕ → List ℕ
  read_string_from_table none name_ofs = codes "(no string table)"
  read_string_from_table (some table) name_ofs =
      let name = take_while_nonzero (drop name_ofs table) in
      if leb (length table) name_ofs
      then codes "(out of range)"
      else if is_utf8 name
      then name
      else codes "(invalid)"

  -- The names of the sections, as they are inserted
  unfoldable pub named : List ℕ → List SectionHeader → List (List ℕ × SectionHeader)
  unfolding read_string_from_table
  named table [] = []
  named table (s ∷ sections) =
      named table sections ++ ((read_string_from_table (some table) s.name_ofs, s) ∷ [])

  unfoldable pub parse : List ℕ → Result Elf
  parse bytes = do
    check_signature bytes
    entry_vaddr ← read_le 8 bytes 24
    phdr_start ← read_le 8 bytes 32
    phdr_entry_size ← read_le 2 bytes 54
    num_of_phdr_entry ← read_le 2 bytes 56
    shdr_start ← read_le 8 bytes 40
    shdr_entry_size ← read_le 2 bytes 58
    num_of_shdr_entry ← read_le 2 bytes 60
    shdr_name_table_idx ← read_le 2 bytes 62
    segments ← parse_entries parse_segment bytes phdr_start phdr_entry_size num_of_phdr_entry 0
    sections ← parse_entries parse_section bytes shdr_start shdr_entry_size num_of_shdr_entry 0
    names ← index sections shdr_name_table_idx
    table ← slice bytes names.offset (add64 names.offset names.size)
    string_table ← string_table_bytes bytes (find_string_table (named table sections))
    ok (record {
      entry_vaddr = entry_vaddr;
      segments = segments;
      sections = named table sections;
      string_table = string_table;
    })
