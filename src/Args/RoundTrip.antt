-- ===== src/Args/RoundTrip.antt =====
-- `deserialize_args` gives back what `serialize_args` wrote.
use wasabi.Base.{ℕ, suc, ◌+◌, ◌*◌, ◌%◌, ◌^◌, ◌<◌, ◌≡◌, refl, ap, ◌∙◌, sym, arith}
use wasabi.Base.{
  List, [], ◌∷◌, ◌++◌, append_assoc, append-nil, Bool, true, length, length-append, le→ltb,
}
use wasabi.Base.{ok}
use wasabi.Base.Bytes.{
  to_le_bytes, from_le_bytes, slice, slice-append, length-to_le_bytes, from_le_bytes-to_le_bytes,
}
use wasabi.Args.{serialize_args, read_args, deserialize_args}
use wasabi.Args.Layout.{table, strings, length-table, serialize_args_lem}

module _ (is_utf8 : List ℕ → Bool) where
  -- Every argument is a text.
  abbrev pub AreTexts : List (List ℕ) → Type 0
  AreTexts [] = Unit {0}
  AreTexts (e ∷ args) = (is_utf8 e ≡ true) × AreTexts args

  -- One round reads the entry that stands behind `before` and the argument that stands `ofs` bytes
  -- into the region.
  read_args-suc :
      (region before behind prefix suffix e : List ℕ) (left i : ℕ) (args : List (List ℕ))
      → region ≡ before ++ (to_le_bytes 8 (length prefix) ++ (to_le_bytes 8 (length e) ++ behind))
      → region ≡ prefix ++ (e ++ suffix)
      → length before ≡ 16 + i * 16
      → length region < 2 ^ 64
      → is_utf8 e ≡ true
      → read_args is_utf8 region (suc left) i args
        ≡ read_args is_utf8 region left (i + 1) (args ++ (e ∷ []))
  unfolding read_args
  read_args-suc region before behind prefix suffix e left i args entry placed at small text =
      rw (first, second, ofs, len, third, text) refl
    where
      first : slice region (16 + i * 16) (16 + i * 16 + 8) ≡ ok (to_le_bytes 8 (length prefix))
      first =
          ap (λ r. slice r (16 + i * 16) (16 + i * 16 + 8)) entry
          ∙ slice-append before (to_le_bytes 8 (length prefix)) _ _ _ (sym at)
              (omega (arith, length-to_le_bytes 8 (length prefix)))

      second : slice region (16 + i * 16 + 8) (16 + i * 16 + 16) ≡ ok (to_le_bytes 8 (length e))
      second =
          ap (λ r. slice r (16 + i * 16 + 8) (16 + i * 16 + 16))
            (entry ∙ sym (append_assoc before _ _))
          ∙ slice-append (before ++ to_le_bytes 8 (length prefix)) (to_le_bytes 8 (length e)) behind
              _ _
              (omega (
                arith,
                length-to_le_bytes 8 (length prefix),
                length-append before (to_le_bytes 8 (length prefix)),
              ))
              (omega (arith, length-to_le_bytes 8 (length e)))

      sizes : length region ≡ length prefix + length e + length suffix
      sizes =
          ap length placed
          ∙ omega (arith, length-append prefix (e ++ suffix), length-append e suffix)

      ofs : from_le_bytes (to_le_bytes 8 (length prefix)) ≡ length prefix
      ofs = from_le_bytes-to_le_bytes 8 (length prefix) (omega (arith, sizes))

      len : from_le_bytes (to_le_bytes 8 (length e)) ≡ length e
      len = from_le_bytes-to_le_bytes 8 (length e) (omega (arith, sizes))

      third : slice region (length prefix) ((length prefix + length e) % 2 ^ 64) ≡ ok e
      third =
          ap (λ r. slice r (length prefix) ((length prefix + length e) % 2 ^ 64)) placed
          ∙ slice-append prefix e suffix _ _ refl (omega (arith, sizes))

  -- The rounds that are left read the arguments whose entries and data are still ahead: the
  -- entries stand behind `before`, the data behind `done`, `ofs` bytes into the region.
  read_args_lem :
      (region : List ℕ) (rest : List (List ℕ)) (before done : List ℕ) (ofs i : ℕ)
      (args : List (List ℕ))
      → region ≡ before ++ (table ofs rest ++ (done ++ strings rest))
      → ofs ≡ length before + length rest * 16 + length done
      → length before ≡ 16 + i * 16
      → length region < 2 ^ 64
      → AreTexts rest
      → read_args is_utf8 region (length rest) i args ≡ ok (args ++ rest)
  read_args_lem region [] before done ofs i args shape pos at small texts =
      unfold read_args in rw append-nil refl
  read_args_lem region (e ∷ rest) before done ofs i args shape pos at small texts =
      read_args-suc region before (table (ofs + length e + 1) rest ++ (done ++ strings (e ∷ rest)))
        prefix (0 ∷ strings rest) e (length rest) i args (shape ∙ rw size (simp append_assoc))
        (shape ∙ simp append_assoc) at small texts.0
      ∙ read_args_lem region rest (before ++ (to_le_bytes 8 ofs ++ to_le_bytes 8 (length e)))
          (done ++ (e ++ (0 ∷ []))) (ofs + length e + 1) (i + 1) (args ++ (e ∷ []))
          (shape ∙ simp append_assoc) (omega (arith, moved, longer, pos)) (omega (arith, moved, at))
          small texts.1
      ∙ ap ok (append_assoc args (e ∷ []) rest)
    where
      prefix : List ℕ
      prefix = before ++ (table ofs (e ∷ rest) ++ done)

      size : length prefix ≡ ofs
      size = omega (
        arith,
        length-append before (table ofs (e ∷ rest) ++ done),
        length-append (table ofs (e ∷ rest)) done,
        length-table ofs (e ∷ rest),
        pos,
      )

      moved :
          length (before ++ (to_le_bytes 8 ofs ++ to_le_bytes 8 (length e))) ≡ length before + 16
      moved = omega (
        arith,
        length-append before (to_le_bytes 8 ofs ++ to_le_bytes 8 (length e)),
        length-append (to_le_bytes 8 ofs) (to_le_bytes 8 (length e)),
        length-to_le_bytes 8 ofs,
        length-to_le_bytes 8 (length e),
      )

      longer : length (done ++ (e ++ (0 ∷ []))) ≡ length done + length e + 1
      longer = omega (arith, length-append done (e ++ (0 ∷ [])), length-append e (0 ∷ []))

  -- A list of texts whose region fits a `u64` size comes back unchanged.
  pub deserialize_args-serialize_args :
      (args : List (List ℕ))
      → AreTexts args
      → length (serialize_args args) < 2 ^ 64
      → deserialize_args is_utf8 (serialize_args args) ≡ ok args
  unfolding deserialize_args
  deserialize_args-serialize_args args texts small =
      rw
        (
          le→ltb (length region) 16 (omega (arith, sizes)),
          count,
          number,
          le→ltb (length region) ((length args + 1) * 16 % 2 ^ 64) (omega (arith, sizes)),
        )
        (read_args_lem region args (total ++ to_le_bytes 8 (length args)) [] base 0 []
          (shape ∙ simp append_assoc) (omega (arith, header)) (omega (arith, header)) small texts)
    where
      region : List ℕ
      region = serialize_args args

      base : ℕ
      base = (length args + 1) * 16

      total : List ℕ
      total = to_le_bytes 8 (base + length (strings args))

      shape : region ≡ total ++ (to_le_bytes 8 (length args) ++ (table base args ++ strings args))
      shape = serialize_args_lem args

      header : length (total ++ to_le_bytes 8 (length args)) ≡ 16
      header = omega (
        arith,
        length-append total (to_le_bytes 8 (length args)),
        length-to_le_bytes 8 (base + length (strings args)),
        length-to_le_bytes 8 (length args),
      )

      sizes : length region ≡ base + length (strings args)
      sizes =
          ap length shape
          ∙ omega (
            arith,
            length-append total (to_le_bytes 8 (length args) ++ (table base args ++ strings args)),
            length-append (to_le_bytes 8 (length args)) (table base args ++ strings args),
            length-append (table base args) (strings args),
            length-table base args,
            length-to_le_bytes 8 (base + length (strings args)),
            length-to_le_bytes 8 (length args),
          )

      count : slice region 8 16 ≡ ok (to_le_bytes 8 (length args))
      count =
          ap (λ r. slice r 8 16) shape
          ∙ slice-append total (to_le_bytes 8 (length args)) _ 8 16
              (omega (arith, length-to_le_bytes 8 (base + length (strings args))))
              (omega (arith, length-to_le_bytes 8 (length args)))

      number : from_le_bytes (to_le_bytes 8 (length args)) ≡ length args
      number = from_le_bytes-to_le_bytes 8 (length args) (omega (arith, sizes))
