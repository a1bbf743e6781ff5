-- ===== src/Loader/WellFormed.antt =====
-- A file in the layout of ELF is parsed to its headers.
use wasabi.Base.{
  ℕ, zero, suc, ◌+◌, ◌*◌, ◌^◌, ◌≤◌, ◌<◌, ◌≡◌, refl, ap, ◌∙◌, sym, subst, arith, List, [], ◌∷◌, ◌++◌,
  append_assoc, length, length-append, ok, Bool, ◌&&◌, ◌/=◌, Option, none, some, ◌⊎◌, inl, inr,
  Bool-cases,
}
use wasabi.Base.Bytes.{slice, slice-append}
use wasabi.Loader.Memory.{add64}
use wasabi.Loader.Headers.{SectionHeader, section_file_range}
use wasabi.Loader.Parse.{
  Elf, parse, parse_segment, parse_section, parse_entries, check_signature, index, named,
  same_bytes, find_string_table, string_table_bytes, codes,
}
use wasabi.Loader.Format.{layout, AllFit, AllRead, layout-AllRead, length-layout}
use wasabi.Loader.Rows.{
  ProgramHeader, SectionRow, segment_headers, section_headers, segment_table, section_table,
  length-segment_table, length-section_table, length-section_headers, parse_entries-segments,
  parse_entries-sections,
}
use wasabi.Loader.Place.{slice_lem}

-- The fields of the file header that stand behind its eight bytes of identification
pub record FileHeader : Type 0 where
  pub padding : ℕ
  pub elf_type : ℕ
  pub version : ℕ
  pub entry_vaddr : ℕ
  pub flags : ℕ
  pub header_size : ℕ
  pub names_idx : ℕ

-- A section whose bytes lie in the file
abbrev pub InFile : ℕ → SectionHeader → Type 0
InFile size s = (s.offset + s.size ≤ size) × (s.offset + s.size < 2 ^ 64)

abbrev pub AllInFile : ℕ → List SectionHeader → Type 0
AllInFile size [] = Unit
AllInFile size (s ∷ sections) = InFile size s × AllInFile size sections

abbrev pub AllNamedInFile : ℕ → List (List ℕ × SectionHeader) → Type 0
AllNamedInFile size [] = Unit
AllNamedInFile size ((name, s) ∷ sections) = InFile size s × AllNamedInFile size sections

index_lem :
    (size : ℕ) (sections : List SectionHeader) (i : ℕ)
    → AllInFile size sections
    → i < length sections
    → (s : SectionHeader) × (index sections i ≡ ok s) × InFile size s
unfolding index
index_lem size [] i l h = absurd (omega arith)
index_lem size (s ∷ sections) zero (l, ls) h = (s, refl, l)
index_lem size (s ∷ sections) (suc i) (l, ls) h = index_lem size sections i ls (omega arith)

AllNamedInFile-append :
    (size : ℕ) (xs : List (List ℕ × SectionHeader)) (name : List ℕ) (s : SectionHeader)
    → AllNamedInFile size xs
    → InFile size s
    → AllNamedInFile size (xs ++ ((name, s) ∷ []))
AllNamedInFile-append size [] name s ls l = (l, tt)
AllNamedInFile-append size ((n, x) ∷ xs) name s (l', ls) l =
    (l', AllNamedInFile-append size xs name s ls l)

section_slice :
    (bytes : List ℕ) (s : SectionHeader)
    → InFile (length bytes) s
    → (part : List ℕ) × (slice bytes s.offset (add64 s.offset s.size) ≡ ok part)
section_slice bytes s l =
    let (part, cut, size, eq) =
      slice_lem bytes s.offset (s.offset + s.size) (omega arith) (omega (arith, l)) in
    (part, ap (slice bytes s.offset) (omega (arith, l)) ∙ cut)

module _ (is_utf8 : List ℕ → Bool) where
  named-AllInFile :
      (size : ℕ) (names : List ℕ) (sections : List SectionHeader)
      → AllInFile size sections
      → AllNamedInFile size (named is_utf8 names sections)
  unfolding named
  named-AllInFile size names [] ls = tt
  named-AllInFile size names (s ∷ sections) (l, ls) =
      AllNamedInFile-append size (named is_utf8 names sections) _ s
        (named-AllInFile size names sections ls) l

string_of :
    (bytes : List ℕ) (s : SectionHeader)
    → InFile (length bytes) s
    → (strings : Option (List ℕ)) × (string_table_bytes bytes (some s) ≡ ok strings)
unfolding section_file_range
string_of bytes s l =
    let (part, cut) = section_slice bytes s l in
    elim (Bool-cases (s.offset /= 0 && s.size /= 0)) [
      | inl given ↦ (some part, rw given (rw cut refl))
      | inr missing ↦ (none, rw missing refl)
    ]

-- The string table is found, or there is none.
strings_lem :
    (bytes : List ℕ) (sections : List (List ℕ × SectionHeader))
    → AllNamedInFile (length bytes) sections
    → (strings : Option (List ℕ)) × (string_table_bytes bytes (find_string_table sections)
        ≡ ok strings)
strings_lem bytes [] ls = (none, refl)
strings_lem bytes ((name, s) ∷ sections) (l, ls) =
    elim (Bool-cases (same_bytes name (codes ".strtab"))) [
      | inl found ↦ rw found (string_of bytes s l)
      | inr other ↦ rw other (strings_lem bytes sections ls)
    ]

module _ (h : FileHeader) (class : ℕ) (segments : List ProgramHeader) (middle : List ℕ)
    (sections : List SectionRow) (back : List ℕ) where
  -- `\x7fELF`, the class, little endian, a version and the ABI of System V
  abbrev identification : List ℕ
  identification = 0x7f ∷ b'E' ∷ b'L' ∷ b'F' ∷ class ∷ 1 ∷ 1 ∷ 0 ∷ []

  abbrev shdr_start : ℕ
  shdr_start = 64 + length segments * 56 + length middle

  abbrev header_fields : List (ℕ × ℕ)
  header_fields =
      (8, h.padding)
      ∷ (2, h.elf_type)
      ∷ (2, 0x3E)
      ∷ (4, h.version)
      ∷ (8, h.entry_vaddr)
      ∷ (8, 64)
      ∷ (8, shdr_start)
      ∷ (4, h.flags)
      ∷ (2, h.header_size)
      ∷ (2, 56)
      ∷ (2, length segments)
      ∷ (2, 64)
      ∷ (2, length sections)
      ∷ (2, h.names_idx)
      ∷ []

  abbrev tables : List ℕ
  tables = segment_table segments ++ (middle ++ (section_table sections ++ back))

  -- The file: its header, the program headers, anything, the section headers, and anything.
  abbrev pub file : List ℕ
  file = identification ++ (layout header_fields ++ tables)

  abbrev pub file_size : ℕ
  file_size = 64 + length segments * 56 + length middle + length sections * 64 + length back

  pub record IsWellFormed : Type 0 where
    pub fits : AllFit header_fields
    pub class_lem : (class ≡ 2) ⊎ (class ≡ 3)
    pub type_lem : (h.elf_type ≡ 2) ⊎ (h.elf_type ≡ 3)
    pub size : file_size < 2 ^ 64
    pub names : h.names_idx < length sections
    pub in_file : AllInFile file_size (section_headers sections)

  module _ (w : IsWellFormed) where
    reads : AllRead file 8 header_fields
    reads = layout-AllRead identification header_fields tables 8 refl w.fits

    magic : slice file 0 4 ≡ ok (0x7f ∷ b'E' ∷ b'L' ∷ b'F' ∷ [])
    magic =
        slice-append [] (0x7f ∷ b'E' ∷ b'L' ∷ b'F' ∷ [])
          (class ∷ 1 ∷ 1 ∷ 0 ∷ (layout header_fields ++ tables)) 0 4 refl refl

    signature : check_signature file ≡ ok tt
    unfolding check_signature
    signature =
        let (a, (elf_type, (machine, others))) = reads in
        ground (arith, magic, elf_type, machine, w.class_lem, w.type_lem)

    front : List ℕ
    front = identification ++ layout header_fields

    length-front : length front ≡ 64
    unfolding front
    length-front =
        omega
          (arith, length-append identification (layout header_fields), length-layout header_fields)

    whole : front ++ tables ≡ file
    unfolding front
    whole = append_assoc identification (layout header_fields) tables

    total : length file ≡ file_size
    total = omega (
      arith,
      ap length whole,
      length-append front tables,
      length-front,
      length-append (segment_table segments) (middle ++ (section_table sections ++ back)),
      length-append middle (section_table sections ++ back),
      length-append (section_table sections) back,
      length-segment_table segments,
      length-section_table sections,
    )

    in_bytes : AllInFile (length file) (section_headers sections)
    in_bytes = subst (λ n. AllInFile n (section_headers sections)) (sym total) w.in_file

    segments_read :
        parse_entries parse_segment file 64 56 (length segments) 0 ≡ ok (segment_headers segments)
    segments_read =
        subst
          (λ t.
            parse_entries parse_segment t 64 56 (length segments) 0 ≡ ok (segment_headers segments))
          whole
          (parse_entries-segments front segments (middle ++ (section_table sections ++ back)) 64 0
            (omega (arith, length-front)) (omega (arith, length-front, total, w.size)))

    before : List ℕ
    before = front ++ (segment_table segments ++ middle)

    before_shape : before ++ (section_table sections ++ back) ≡ file
    unfolding before
    before_shape =
        append_assoc front (segment_table segments ++ middle) (section_table sections ++ back)
        ∙ ap (λ t. front ++ t)
            (append_assoc (segment_table segments) middle (section_table sections ++ back))
        ∙ whole

    length-before : length before ≡ shdr_start
    unfolding before
    length-before = omega (
      arith,
      length-append front (segment_table segments ++ middle),
      length-append (segment_table segments) middle,
      length-front,
      length-segment_table segments,
    )

    sections_read :
        parse_entries parse_section file shdr_start 64 (length sections) 0
        ≡ ok (section_headers sections)
    sections_read =
        subst
          (λ t.
            parse_entries parse_section t shdr_start 64 (length sections) 0
            ≡ ok (section_headers sections))
          before_shape
          (parse_entries-sections before sections back shdr_start 0 (omega (arith, length-before))
            (omega (arith, length-before, total, w.size)))

    -- A file of a 64-bit little-endian x86_64 program, with program headers of 56 bytes behind the file
    -- header, section headers of 64 bytes anywhere behind them, an index of a section of names and
    -- every section inside the file, is parsed without a panic or an error: the entry point and the
    -- segments are those of the headers, whatever check of UTF-8 is used.
    pub parse-file :
        (is_utf8 : List ℕ → Bool)
        → (elf : Elf) × (parse is_utf8 file ≡ ok elf)
          × (elf.entry_vaddr ≡ h.entry_vaddr)
          × (elf.segments ≡ segment_headers segments)
    unfolding parse
    parse-file is_utf8 =
        let (a, (b, (c, (d, (entry, (ph, (sh, (e, (f, (ps, (pn, (ss, (sn, (idx, end)))))))))))))) =
          reads in
        let (names, found, inside) =
          index_lem (length file) (section_headers sections) h.names_idx in_bytes
            (omega (arith, w.names, length-section_headers sections)) in
        let (text, cut) = section_slice file names inside in
        let (strings, read) =
          strings_lem file (named is_utf8 text (section_headers sections))
            (named-AllInFile is_utf8 (length file) text (section_headers sections) in_bytes) in
        (
          record {
            entry_vaddr = h.entry_vaddr;
            segments = segment_headers segments;
            sections = named is_utf8 text (section_headers sections);
            string_table = strings;
          },
          rw
              (
                signature, entry, ph, ps, pn, sh, ss, sn, idx, segments_read, sections_read, found,
                cut, read,
              )
              refl,
          refl,
          refl,
        )
