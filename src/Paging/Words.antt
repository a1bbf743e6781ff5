-- ===== src/Paging/Words.antt =====
-- What the masks and unions of entry values compute to.
use wasabi.Base.{
  ℕ, ◌+◌, ◌-◌, ◌*◌, ◌/◌, ◌%◌, ◌^◌, ◌<◌, ◌≡◌, ap, ◌∙◌, arith, bit_and, bit_or, ◌/=◌, ok, err, Result,
  if◌then◌else◌, page_not_found,
}
use wasabi.Base.Bits.{bit_and_mask, bit_and_clear, bit_or_join}
use wasabi.Paging.{
  PageAttr, not_present, read_write_kernel, read_write_user, read_write_io, bits, is_present, table,
  calc_index, attr_mask, address_mask,
}

pub low_bits : (a : ℕ) → bit_and a attr_mask ≡ a % 4096
low_bits a = bit_and_mask 12 a

pub high_bits : (a : ℕ) → a < 2 ^ 64 → bit_and a address_mask ≡ a - a % 4096
high_bits a h = bit_and_clear 12 52 a h

pub calc_index_lem : (shift addr : ℕ) → calc_index shift addr ≡ addr / 2 ^ shift % 512
unfolding calc_index
calc_index_lem shift addr = bit_and_mask 9 (addr / 2 ^ shift)

pub is_present_lem : (v : ℕ) → is_present v ≡ (v % 2 /= 0)
unfolding is_present
is_present_lem v = ap (λ k. k /= 0) (bit_and_mask 1 v)

pub bits-lt : (attr : PageAttr) → bits attr < 32
unfolding bits
bits-lt not_present = omega arith
bits-lt read_write_kernel = omega arith
bits-lt read_write_user = omega arith
bits-lt read_write_io = omega arith

-- An aligned address with attributes joined to it.
pub joined : (a r : ℕ) → a % 4096 ≡ 0 → r < 4096 → bit_or a r ≡ a + r
joined a r h k = ap (λ t. bit_or t r) whole ∙ bit_or_join 12 (a / 4096) r k ∙ omega arith
  where
    whole : a ≡ a / 4096 * 2 ^ 12
    whole = omega arith

-- An entry that is present, or the error of one that is not
unfoldable pub leaf : ℕ → Result ℕ
leaf value = if is_present value then ok value else err page_not_found

module _ (a : ℕ) (aligned : a % 4096 ≡ 0) (fits : a < 2 ^ 64) (r : ℕ) (small : r < 4096) where
  pub address_part : bit_and (bit_or a r) address_mask ≡ a
  address_part = ground (arith, joined a r, high_bits (bit_or a r))

  present_part : is_present (bit_or a r) ≡ (r % 2 /= 0)
  present_part = ground (arith, joined a r, is_present_lem (bit_or a r))

  pub table-bit_or : table (bit_or a r) ≡ (if r % 2 /= 0 then ok a else err page_not_found)
  unfolding table
  table-bit_or = rw (present_part, address_part)

  pub leaf-bit_or : leaf (bit_or a r) ≡ (if r % 2 /= 0 then ok (a + r) else err page_not_found)
  unfolding leaf
  leaf-bit_or = rw (present_part, joined a r aligned small)
