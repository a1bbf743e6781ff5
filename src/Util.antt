-- ===== src/Util.antt =====
-- os/src/util.rs: bit fields, page counts, powers of two and little-endian reads. A `usize` or
-- `u64` is a number below `2 ^ 64`; arithmetic wraps, as in the release build that is run.
pub mod Pow2
pub mod Fields
use wasabi.Base.{ℕ, zero, suc, ◌+◌, ◌-◌, ◌*◌, ◌/◌, ◌%◌, ◌^◌, min, bit_and, List, Option, none, some}
use wasabi.Base.{true, false, ltb, ◌==◌, if◌then◌else◌, Result, ok, ok_or, calc_out_of_range, ◌>>=◌}
use wasabi.Base.Bytes.{slice, from_le_bytes}
use mathlib.Core.Option

abbrev pub u64_mod : ℕ
u64_mod = 2 ^ 64

abbrev pub page_offset_bits : ℕ
page_offset_bits = 12

abbrev pub page_size : ℕ
page_size = 2 ^ page_offset_bits

-- `u64::checked_shr`: `None` when the shift, a `u32`, reaches the width.
pub checked_shr : ℕ → ℕ → Option ℕ
checked_shr value shift = if ltb shift 64 then some (value / 2 ^ shift) else none

-- `usize::checked_shl`
pub checked_shl : ℕ → ℕ → Option ℕ
checked_shl value shift = if ltb shift 64 then some (value * 2 ^ shift % u64_mod) else none

-- `extract_bits::<T>`, for a `T` of `bits` bits. A value that does not fit `T` becomes 0.
unfoldable pub extract_bits : ℕ → ℕ → ℕ → ℕ → ℕ
unfolding checked_shr
extract_bits bits value shift width =
    let mask = 2 ^ min 63 width - 1 in
    let shifted = Option.get_or (checked_shr value (shift % 2 ^ 32)) 0 in
    let field = bit_and shifted mask in if ltb field (2 ^ bits) then field else 0

pub size_in_pages_from_bytes : ℕ → ℕ
size_in_pages_from_bytes size_in_bytes =
    ((size_in_bytes + page_size) % u64_mod + u64_mod - 1) % u64_mod / 2 ^ page_offset_bits

-- The digits of a binary number: `usize::BITS - leading_zeros`.
unfoldable pub bit_length : ℕ → ℕ → ℕ
bit_length zero x = 0
bit_length (suc digits) x = elim (x == 0) [ true ↦ 0 | false ↦ suc (bit_length digits (x / 2)) ]

unfoldable pub leading_zeros : ℕ → ℕ
leading_zeros x = 64 - bit_length 64 x

unfoldable pub round_up_to_nearest_pow2 : ℕ → Result ℕ
unfolding checked_shl
round_up_to_nearest_pow2 v =
    ok_or (checked_shl 1 (64 - leading_zeros ((v + u64_mod - 1) % u64_mod))) calc_out_of_range

-- `read_le_u16`, `read_le_u32` and `read_le_u64`, for 2, 4 and 8 bytes. The conversion of the
-- slice into an array cannot fail, since the slice has that many bytes.
unfoldable pub read_le : ℕ → List ℕ → ℕ → Result ℕ
read_le bytes packet ofs = do part ← slice packet ofs (ofs + bytes); ok (from_le_bytes part)
