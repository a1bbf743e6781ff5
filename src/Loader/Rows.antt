-- ===== src/Loader/Rows.antt =====
-- Tables of program headers and of section headers, in the layout of ELF.
use wasabi.Base.{
  ℕ, suc, ◌+◌, ◌*◌, ◌^◌, ◌<◌, ◌≡◌, refl, ap, ap₂, ◌∙◌, sym, List, [], ◌∷◌, ◌++◌, length, ok,
}
use wasabi.Loader.Headers.{SegmentHeader, SectionHeader}
use wasabi.Loader.Parse.{parse_segment, parse_section, parse_entries}
use wasabi.Loader.Format.{
  layout, AllFit, length-layout, segment_fields, section_fields, segment-layout, section-layout,
}
use wasabi.Loader.Tables.{Entry, values, table, length-table, parse_entries-table}

-- A program header of the file, with the physical address that nothing reads
pub record ProgramHeader : Type 0 where
  pub header : SegmentHeader
  pub paddr : ℕ
  pub fits : AllFit (segment_fields header paddr)

abbrev pub segment_headers : List ProgramHeader → List SegmentHeader
segment_headers [] = []
segment_headers (p ∷ ps) = p.header ∷ segment_headers ps

abbrev pub segment_table : List ProgramHeader → List ℕ
segment_table [] = []
segment_table (p ∷ ps) = layout (segment_fields p.header p.paddr) ++ segment_table ps

-- A section header of the file, with the padding behind its flags
pub record SectionRow : Type 0 where
  pub header : SectionHeader
  pub padding : ℕ
  pub fits : AllFit (section_fields header padding)

abbrev pub section_headers : List SectionRow → List SectionHeader
section_headers [] = []
section_headers (p ∷ ps) = p.header ∷ section_headers ps

abbrev pub section_table : List SectionRow → List ℕ
section_table [] = []
section_table (p ∷ ps) = layout (section_fields p.header p.padding) ++ section_table ps

segment_entries : List ProgramHeader → List (Entry 56 parse_segment)
segment_entries [] = []
segment_entries (p ∷ ps) =
    record {
      value = p.header;
      bytes = layout (segment_fields p.header p.paddr);
      length_lem = length-layout (segment_fields p.header p.paddr);
      read_lem = segment-layout p.header p.paddr p.fits;
    }
    ∷ segment_entries ps

section_entries : List SectionRow → List (Entry 64 parse_section)
section_entries [] = []
section_entries (p ∷ ps) =
    record {
      value = p.header;
      bytes = layout (section_fields p.header p.padding);
      length_lem = length-layout (section_fields p.header p.padding);
      read_lem = section-layout p.header p.padding p.fits;
    }
    ∷ section_entries ps

-- What the lemmas on entries say of these.
segments_lem :
    (ps : List ProgramHeader)
    → (length (segment_entries ps) ≡ length ps)
      × (table 56 parse_segment (segment_entries ps) ≡ segment_table ps)
      × (values 56 parse_segment (segment_entries ps) ≡ segment_headers ps)
unfolding segment_entries
segments_lem [] = (refl, refl, refl)
segments_lem (p ∷ ps) =
    let (n, t, v) = segments_lem ps in
    (ap suc n, ap (λ r. layout (segment_fields p.header p.paddr) ++ r) t, ap (λ r. p.header ∷ r) v)

sections_lem :
    (ps : List SectionRow)
    → (length (section_entries ps) ≡ length ps)
      × (table 64 parse_section (section_entries ps) ≡ section_table ps)
      × (values 64 parse_section (section_entries ps) ≡ section_headers ps)
unfolding section_entries
sections_lem [] = (refl, refl, refl)
sections_lem (p ∷ ps) =
    let (n, t, v) = sections_lem ps in
    (
      ap suc n,
      ap (λ r. layout (section_fields p.header p.padding) ++ r) t,
      ap (λ r. p.header ∷ r) v,
    )

pub length-segment_table : (ps : List ProgramHeader) → length (segment_table ps) ≡ length ps * 56
length-segment_table ps =
    let (n, t, v) = segments_lem ps in
    ap length (sym t)
    ∙ length-table 56 parse_segment (segment_entries ps)
    ∙ ap (λ (k : ℕ). k * 56) n

pub length-section_table : (ps : List SectionRow) → length (section_table ps) ≡ length ps * 64
length-section_table ps =
    let (n, t, v) = sections_lem ps in
    ap length (sym t)
    ∙ length-table 64 parse_section (section_entries ps)
    ∙ ap (λ (k : ℕ). k * 64) n

pub length-section_headers : (ps : List SectionRow) → length (section_headers ps) ≡ length ps
length-section_headers [] = refl
length-section_headers (p ∷ ps) = ap suc (length-section_headers ps)

pub parse_entries-segments :
    (front : List ℕ) (ps : List ProgramHeader) (back : List ℕ) (start i : ℕ)
    → start + i * 56 ≡ length front
    → length front + length ps * 56 < 2 ^ 64
    → parse_entries parse_segment (front ++ (segment_table ps ++ back)) start 56 (length ps) i
      ≡ ok (segment_headers ps)
parse_entries-segments front ps back start i at room =
    let (n, t, v) = segments_lem ps in
    let room' : length front + length (segment_entries ps) * 56 < 2 ^ 64 = rw n room in
    sym (ap₂ (λ xs k. parse_entries parse_segment (front ++ (xs ++ back)) start 56 k i) t n)
    ∙ parse_entries-table 56 parse_segment front (segment_entries ps) back start i at room'
    ∙ ap ok v

pub parse_entries-sections :
    (front : List ℕ) (ps : List SectionRow) (back : List ℕ) (start i : ℕ)
    → start + i * 64 ≡ length front
    → length front + length ps * 64 < 2 ^ 64
    → parse_entries parse_section (front ++ (section_table ps ++ back)) start 64 (length ps) i
      ≡ ok (section_headers ps)
parse_entries-sections front ps back start i at room =
    let (n, t, v) = sections_lem ps in
    let room' : length front + length (section_entries ps) * 64 < 2 ^ 64 = rw n room in
    sym (ap₂ (λ xs k. parse_entries parse_section (front ++ (xs ++ back)) start 64 k i) t n)
    ∙ parse_entries-table 64 parse_section front (section_entries ps) back start i at room'
    ∙ ap ok v
