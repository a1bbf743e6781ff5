-- ===== src/Args/Layout.antt =====
-- The bytes that `serialize_args` writes: header, table, data.
use wasabi.Base.{ℕ, ◌+◌, ◌*◌, ◌≡◌, ap, ◌∙◌, arith, List, [], ◌∷◌, ◌++◌, append_assoc, append-nil}
use wasabi.Base.{length, length-append}
use wasabi.Base.Bytes.{to_le_bytes, length-to_le_bytes}
use wasabi.Args.{place_args, extend_table, serialize_args}

-- The table for arguments whose data begins at `ofs`, and the data: each argument and a 0.
abbrev pub table : ℕ → List (List ℕ) → List ℕ
table ofs [] = []
table ofs (e ∷ args) =
    to_le_bytes 8 ofs ++ (to_le_bytes 8 (length e) ++ table (ofs + length e + 1) args)

abbrev pub strings : List (List ℕ) → List ℕ
strings [] = []
strings (e ∷ args) = e ++ (0 ∷ strings args)

places : ℕ → List (List ℕ) → List (ℕ × ℕ)
places ofs [] = []
places ofs (e ∷ args) = (ofs, length e) ∷ places (ofs + length e + 1) args

pub length-table : (ofs : ℕ) (args : List (List ℕ)) → length (table ofs args) ≡ length args * 16
length-table ofs [] = omega arith
length-table ofs (e ∷ args) = omega (
  arith,
  length-append (to_le_bytes 8 ofs) (to_le_bytes 8 (length e) ++ table (ofs + length e + 1) args),
  length-append (to_le_bytes 8 (length e)) (table (ofs + length e + 1) args),
  length-to_le_bytes 8 ofs,
  length-to_le_bytes 8 (length e),
  length-table (ofs + length e + 1) args,
)

place_args_lem :
    (base : ℕ) (args : List (List ℕ)) (ofs_and_len : List (ℕ × ℕ)) (blob : List ℕ)
    → place_args base args ofs_and_len blob
      ≡ (ofs_and_len ++ places (base + length blob) args, blob ++ strings args)
unfolding place_args places
place_args_lem base [] ofs_and_len blob = simp append-nil
place_args_lem base (e ∷ args) ofs_and_len blob =
    place_args_lem base args _ _ ∙ simp (append_assoc) (rw count)
  where
    count : base + length (blob ++ (e ++ (0 ∷ []))) ≡ base + length blob + length e + 1
    count = omega (arith, length-append blob (e ++ (0 ∷ [])), length-append e (0 ∷ []))

extend_table_lem :
    (start : List ℕ) (ofs : ℕ) (args : List (List ℕ))
    → extend_table start (places ofs args) ≡ start ++ table ofs args
unfolding extend_table places
extend_table_lem start ofs [] = simp append-nil
extend_table_lem start ofs (e ∷ args) =
    extend_table_lem ((start ++ to_le_bytes 8 ofs) ++ to_le_bytes 8 (length e)) (ofs + length e + 1)
      args
    ∙ simp append_assoc

-- The region: its total size, the number of arguments, the table and the data.
pub serialize_args_lem :
    (args : List (List ℕ))
    → let base = (length args + 1) * 16 in
      serialize_args args
      ≡ to_le_bytes 8 (base + length (strings args))
        ++ (to_le_bytes 8 (length args) ++ (table base args ++ strings args))
unfolding serialize_args
serialize_args_lem args = simp (placed, extend_table_lem, append_assoc)
  where
    base : ℕ
    base = (length args + 1) * 16

    placed : place_args base args [] [] ≡ (places base args, strings args)
    placed = place_args_lem base args [] [] ∙ ap (λ b. (places b args, strings args)) (omega arith)
