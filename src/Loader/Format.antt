-- ===== src/Loader/Format.antt =====
-- The layout of the headers and entries of an ELF file, and what reading them back gives.
use wasabi.Base.{
  ℕ, ◌+◌, ◌^◌, ◌<◌, ◌≡◌, refl, ap, ◌∙◌, sym, subst, arith, List, [], ◌∷◌, ◌++◌, append_assoc,
  append-nil, length, length-append, ok,
}
use wasabi.Base.Bytes.{to_le_bytes, length-to_le_bytes, slice-append, from_le_bytes-to_le_bytes}
use wasabi.Util.{read_le}
use wasabi.Loader.Headers.{SegmentHeader, SectionHeader, RelocationEntry, relocation_entry}
use wasabi.Loader.Parse.{parse_segment, parse_section}

-- Fields in a row, each with its width in bytes and its value
abbrev pub layout : List (ℕ × ℕ) → List ℕ
layout [] = []
layout ((width, v) ∷ fields) = to_le_bytes width v ++ layout fields

abbrev pub widths : List (ℕ × ℕ) → ℕ
widths [] = 0
widths ((width, v) ∷ fields) = width + widths fields

-- Each value fits its width.
abbrev pub AllFit : List (ℕ × ℕ) → Type 0
AllFit [] = Unit
AllFit ((width, v) ∷ fields) = (v < 256 ^ width) × AllFit fields

pub length-layout : (fs : List (ℕ × ℕ)) → length (layout fs) ≡ widths fs
length-layout [] = refl
length-layout ((width, v) ∷ fs) = omega (
  arith,
  length-append (to_le_bytes width v) (layout fs),
  length-to_le_bytes width v,
  length-layout fs,
)

-- Each field is read back at its offset, where the first stands at `ofs`.
abbrev pub AllRead : List ℕ → ℕ → List (ℕ × ℕ) → Type 0
AllRead bytes ofs [] = Unit
AllRead bytes ofs ((width, v) ∷ fields) =
    (read_le width bytes ofs ≡ ok v) × AllRead bytes (ofs + width) fields

read_le-append :
    (xs : List ℕ) (width v : ℕ) (rest : List ℕ) (ofs : ℕ)
    → ofs ≡ length xs
    → v < 256 ^ width
    → read_le width (xs ++ (to_le_bytes width v ++ rest)) ofs ≡ ok v
unfolding read_le
read_le-append xs width v rest ofs at fits =
    rw
      (slice-append xs (to_le_bytes width v) rest ofs (ofs + width) at
        (omega (arith, length-to_le_bytes width v)))
      (ap ok (from_le_bytes-to_le_bytes width v fits))

pub layout-AllRead :
    (xs : List ℕ) (fields : List (ℕ × ℕ)) (rest : List ℕ) (ofs : ℕ)
    → ofs ≡ length xs
    → AllFit fields
    → AllRead (xs ++ (layout fields ++ rest)) ofs fields
layout-AllRead xs [] rest ofs at fits = tt
layout-AllRead xs ((width, v) ∷ fields) rest ofs at (fit, fits) =
    let shape : (xs ++ to_le_bytes width v) ++ (layout fields ++ rest)
        ≡ xs ++ ((to_le_bytes width v ++ layout fields) ++ rest) =
      append_assoc xs (to_le_bytes width v) (layout fields ++ rest)
      ∙ ap (λ t. xs ++ t) (sym (append_assoc (to_le_bytes width v) (layout fields) rest)) in
    (
      ap (λ t. read_le width (xs ++ t) ofs)
            (append_assoc (to_le_bytes width v) (layout fields) rest)
          ∙ read_le-append xs width v (layout fields ++ rest) ofs at fit,
      subst (λ t. AllRead t (ofs + width) fields) shape
          (layout-AllRead (xs ++ to_le_bytes width v) fields rest (ofs + width)
            (omega (arith, at, length-append xs (to_le_bytes width v), length-to_le_bytes width v))
            fits),
    )

-- Fields that stand alone
read_alone : (fields : List (ℕ × ℕ)) → AllFit fields → AllRead (layout fields) 0 fields
read_alone fields fits =
    subst (λ t. AllRead t 0 fields) (append-nil (layout fields))
      (layout-AllRead [] fields [] 0 refl fits)

-- An Elf64_Phdr; the physical address is not read.
abbrev pub segment_fields : SegmentHeader → ℕ → List (ℕ × ℕ)
segment_fields s paddr =
    (4, s.phdr_type)
    ∷ (4, s.entry_type)
    ∷ (8, s.offset)
    ∷ (8, s.vaddr)
    ∷ (8, paddr)
    ∷ (8, s.fsize)
    ∷ (8, s.vsize)
    ∷ (8, s.align)
    ∷ []

-- A SectionHeader, with the padding behind its flags
abbrev pub section_fields : SectionHeader → ℕ → List (ℕ × ℕ)
section_fields s padding =
    (4, s.name_ofs)
    ∷ (4, s.section_type)
    ∷ (4, s.flags)
    ∷ (4, padding)
    ∷ (8, s.vaddr)
    ∷ (8, s.offset)
    ∷ (8, s.size)
    ∷ (4, s.link)
    ∷ (4, s.info)
    ∷ (8, s.align)
    ∷ (8, s.entry_size)
    ∷ []

abbrev pub relocation_fields : RelocationEntry → List (ℕ × ℕ)
relocation_fields e = (8, e.address) ∷ (8, e.info) ∷ (8, e.addend) ∷ []

pub relocation_entry-layout :
    (e : RelocationEntry)
    → AllFit (relocation_fields e)
    → relocation_entry (layout (relocation_fields e)) ≡ ok e
unfolding relocation_entry
relocation_entry-layout e fits =
    let (a, (b, (c, end))) = read_alone (relocation_fields e) fits in
    rw (length-layout (relocation_fields e), a, b, c) refl

pub segment-layout :
    (s : SegmentHeader) (paddr : ℕ)
    → AllFit (segment_fields s paddr)
    → parse_segment (layout (segment_fields s paddr)) ≡ ok s
unfolding parse_segment
segment-layout s paddr fits =
    let (a, (b, (c, (d, (e, (f, (g, (h, end)))))))) = read_alone (segment_fields s paddr) fits in
    rw (a, b, c, d, f, g, h) refl

pub section-layout :
    (s : SectionHeader) (padding : ℕ)
    → AllFit (section_fields s padding)
    → parse_section (layout (section_fields s padding)) ≡ ok s
unfolding parse_section
section-layout s padding fits =
    let (a, (b, (c, (d, (e, (f, (g, (h, (i, (j, (k, end))))))))))) =
      read_alone (section_fields s padding) fits in
    rw (length-layout (section_fields s padding), a, b, c, e, f, g, h, i, j, k) refl
