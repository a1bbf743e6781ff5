-- ===== src/Loader/Tables.antt =====
-- Tables of entries of one size: what the loops over them read.
use wasabi.Base.{
  ℕ, zero, suc, ◌+◌, ◌*◌, ◌^◌, ◌≤◌, ◌<◌, ◌≡◌, refl, ap, ◌∙◌, sym, subst, arith, List, [], ◌∷◌, ◌++◌,
  append_assoc, length, length-append, take, drop, take-append, drop-append, Result, ok, le→ltb,
  lt→ltb,
}
use wasabi.Base.Bytes.{slice, slice-append}
use wasabi.Loader.Memory.{add64}
use wasabi.Loader.Parse.{parse_entries}
use wasabi.Loader.Image.{read_chunks, chunks_exact}

-- A reader of one entry, and the entries that it reads, each with its bytes
module _ {A : Type 0} (size : ℕ) (read : List ℕ → Result A) where
  pub record Entry : Type 0 where
    pub value : A
    pub bytes : List ℕ
    pub length_lem : length bytes ≡ size
    pub read_lem : read bytes ≡ ok value

  abbrev pub values : List Entry → List A
  values [] = []
  values (e ∷ entries) = e.value ∷ values entries

  abbrev pub table : List Entry → List ℕ
  table [] = []
  table (e ∷ entries) = e.bytes ++ table entries

  pub length-values : (entries : List Entry) → length (values entries) ≡ length entries
  length-values [] = refl
  length-values (e ∷ entries) = ap suc (length-values entries)

  pub length-table : (entries : List Entry) → length (table entries) ≡ length entries * size
  length-table [] = omega arith
  length-table (e ∷ entries) =
      omega (arith, length-append e.bytes (table entries), e.length_lem, length-table entries)

  pub parse_entries-table :
      (front : List ℕ) (entries : List Entry) (back : List ℕ) (start i : ℕ)
      → start + i * size ≡ length front
      → length front + length entries * size < 2 ^ 64
      → parse_entries read (front ++ (table entries ++ back)) start size (length entries) i
        ≡ ok (values entries)
  unfolding parse_entries
  parse_entries-table front [] back start i at room = refl
  parse_entries-table front (e ∷ entries) back start i at room =
      let from : add64 start (i * size) ≡ length front = omega (arith, at, room) in
      let to : add64 (add64 start (i * size)) size ≡ length front + size =
        omega (arith, from, room, e.length_lem) in
      let shape : (front ++ e.bytes) ++ (table entries ++ back)
          ≡ front ++ ((e.bytes ++ table entries) ++ back) =
        append_assoc front e.bytes (table entries ++ back)
        ∙ ap (λ t. front ++ t) (sym (append_assoc e.bytes (table entries) back)) in
      let cut : slice (front ++ ((e.bytes ++ table entries) ++ back)) (add64 start (i * size))
            (add64 (add64 start (i * size)) size)
          ≡ ok e.bytes =
        ap (λ t. slice (front ++ t) (add64 start (i * size)) (add64 (add64 start (i * size)) size))
          (append_assoc e.bytes (table entries) back)
        ∙ slice-append front e.bytes (table entries ++ back) (add64 start (i * size))
            (add64 (add64 start (i * size)) size) from (omega (arith, from, to, e.length_lem)) in
      let rest =
        parse_entries-table (front ++ e.bytes) entries back start (suc i)
          (omega (arith, at, length-append front e.bytes, e.length_lem))
          (omega (arith, room, length-append front e.bytes, e.length_lem)) in
      rw
        (
          cut,
          e.read_lem,
          subst
              (λ t. parse_entries read t start size (length entries) (suc i) ≡ ok (values entries))
              shape rest,
        )
        refl

  -- With a round for each entry, every entry is read.
  read_chunks-table :
      (entries : List Entry) (rounds : ℕ)
      → 0 < size
      → length entries ≤ rounds
      → read_chunks size read rounds (table entries) ≡ ok (values entries)
  unfolding read_chunks
  read_chunks-table [] zero h k = refl
  read_chunks-table [] (suc rounds) h k = rw (lt→ltb 0 size h) refl
  read_chunks-table (e ∷ entries) zero h k = absurd (omega arith)
  read_chunks-table (e ∷ entries) (suc rounds) h k =
      let first : take size (e.bytes ++ table entries) ≡ e.bytes =
        ap (λ n. take n (e.bytes ++ table entries)) (sym e.length_lem)
        ∙ take-append e.bytes (table entries) in
      let others : drop size (e.bytes ++ table entries) ≡ table entries =
        ap (λ n. drop n (e.bytes ++ table entries)) (sym e.length_lem)
        ∙ drop-append e.bytes (table entries) in
      rw
        (
          le→ltb (length (e.bytes ++ table entries)) size
              (omega (arith, length-append e.bytes (table entries), e.length_lem)),
          first,
          e.read_lem,
          others,
          read_chunks-table entries rounds h (omega arith),
        )
        refl

  pub chunks_exact-table :
      (entries : List Entry)
      → 0 < size
      → chunks_exact size read (table entries) ≡ ok (values entries)
  unfolding chunks_exact
  chunks_exact-table entries h =
      rw (lt→ltb 0 size h)
        (read_chunks-table entries (length (table entries)) h (grind (arith, length-table entries)))
