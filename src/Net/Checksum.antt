-- ===== src/Net/Checksum.antt =====
-- os/src/net/checksum.rs: the Internet checksum of RFC 1071.
pub mod Fold
pub mod Feed
use wasabi.Base.{ℕ, zero, suc, ◌+◌, ◌-◌, ◌*◌, ◌/◌, ◌%◌, ◌^◌, bit_and, bit_or}
use wasabi.Base.{List, [], ◌∷◌, Option, none, some, ◌==◌, true, false}
use wasabi.Net.Wire.{Bytes2, be16}
use mathlib.Core.Option

-- `InternetChecksumGenerator { sum: u32 }`
pub record InternetChecksumGenerator : Type 0 where
  pub sum : ℕ

abbrev pub start : InternetChecksumGenerator
start = record { sum = 0 }

-- `feed`: one round for each chunk of two bytes; a last single byte is followed by a 0.
pub feed_sum : ℕ → List ℕ → ℕ
feed_sum sum [] = sum
feed_sum sum (w0 ∷ []) = (sum + bit_or (w0 * 2 ^ 8 % 2 ^ 32) 0) % 2 ^ 32
feed_sum sum (w0 ∷ w1 ∷ rest) = feed_sum ((sum + bit_or (w0 * 2 ^ 8 % 2 ^ 32) w1) % 2 ^ 32) rest

unfoldable pub feed : InternetChecksumGenerator → List ℕ → InternetChecksumGenerator
unfolding feed_sum
feed g packet = record g { sum = feed_sum g.sum packet }

-- `while (self.sum >> 16) != 0`, with fuel; `none` when it runs out.
pub fold_sum : ℕ → ℕ → Option ℕ
fold_sum zero sum = none
fold_sum (suc fuel) sum = elim (sum / 2 ^ 16 == 0) [
  | true ↦ some sum
  | false ↦ fold_sum fuel ((bit_and sum 0xffff + sum / 2 ^ 16) % 2 ^ 32)
]

-- Three rounds are enough for every `u32` (`Fold.fold_sum_total`).
abbrev pub fold_fuel : ℕ
fold_fuel = 3

-- `(!self.sum as u16).to_be_bytes()`
unfoldable pub checksum : InternetChecksumGenerator → Option Bytes2
unfolding fold_sum
checksum g = Option.map (λ s. be16 ((2 ^ 32 - 1 - s) % 2 ^ 16)) (fold_sum fold_fuel g.sum)

-- `InternetChecksum::calc`
unfoldable pub calc : List ℕ → Option Bytes2
unfolding checksum feed
calc packet = checksum (feed start packet)
