-- ===== src/Args.antt =====
-- noli/src/args.rs: the arguments of an application as one region of bytes. A text is the list of
-- its UTF-8 bytes; `core::str::from_utf8`, which checks them, is the parameter `is_utf8`.
pub mod Layout
pub mod RoundTrip
use wasabi.Base.{ℕ, zero, suc, ◌+◌, ◌*◌, ◌%◌, ◌^◌, List, [], ◌∷◌, ◌++◌, Bool, ltb, if◌then◌else◌}
use wasabi.Base.{length, Result, ok, err, failed, ensure, ◌>>=◌, ◌>>◌}
use wasabi.Base.Bytes.{to_le_bytes, from_le_bytes, slice}
use mathlib.Core.Bool.{not}

-- The loop over the arguments: where each stands and its length, and the data so far. The numbers
-- are `u64`; `to_le_bytes 8` keeps of them what a `u64` holds.
pub place_args : ℕ → List (List ℕ) → List (ℕ × ℕ) → List ℕ → List (ℕ × ℕ) × List ℕ
place_args data_base_ofs [] ofs_and_len blob = (ofs_and_len, blob)
place_args data_base_ofs (e ∷ args) ofs_and_len blob =
    place_args data_base_ofs args (ofs_and_len ++ ((data_base_ofs + length blob, length e) ∷ []))
      ((blob ++ e) ++ (0 ∷ []))

pub extend_table : List ℕ → List (ℕ × ℕ) → List ℕ
extend_table serialized [] = serialized
extend_table serialized ((ofs, len) ∷ rest) =
    extend_table ((serialized ++ to_le_bytes 8 ofs) ++ to_le_bytes 8 len) rest

unfoldable pub serialize_args : List (List ℕ) → List ℕ
unfolding place_args extend_table
serialize_args args =
    let data_base_ofs = (length args + 1) * 16 in
    let (ofs_and_len, blob) = place_args data_base_ofs args [] [] in
    let total_size = data_base_ofs + length blob in
    extend_table (to_le_bytes 8 total_size ++ to_le_bytes 8 (length args)) ofs_and_len ++ blob

module _ (is_utf8 : List ℕ → Bool) where
  -- `for i in 0..num_args`, with the rounds left.
  pub read_args : List ℕ → ℕ → ℕ → List (List ℕ) → Result (List (List ℕ))
  read_args region zero i args = ok args
  read_args region (suc left) i args = do
    ofs ← slice region (16 + i * 16) (16 + i * 16 + 8)
    len ← slice region (16 + i * 16 + 8) (16 + i * 16 + 16)
    s ← slice region (from_le_bytes ofs) ((from_le_bytes ofs + from_le_bytes len) % 2 ^ 64)
    ensure (is_utf8 s) (failed "Invalid args data")
    read_args region left (i + 1) (args ++ (s ∷ []))

  unfoldable pub deserialize_args : List ℕ → Result (List (List ℕ))
  unfolding read_args
  deserialize_args region = do
    ensure (not (ltb (length region) 16)) (failed "Invalid args data")
    count ← slice region 8 16
    let num_args = from_le_bytes count
    ensure (not (ltb (length region) ((num_args + 1) * 16 % 2 ^ 64))) (failed "Invalid args data")
    read_args region num_args 0 []
