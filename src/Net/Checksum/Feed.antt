-- ===== src/Net/Checksum/Feed.antt =====
-- Feeding bytes adds 16-bit words, so data may be fed in parts, and a packet that carries its own
-- checksum has the checksum 0.
use wasabi.Base.{ℕ, ◌+◌, ◌-◌, ◌*◌, ◌/◌, ◌%◌, ◌^◌, ◌≤◌, ◌<◌, ◌≡◌, refl, ap, arith, ◌∙◌}
use wasabi.Base.{bit_or, List, [], ◌∷◌, ◌++◌, some, length}
use wasabi.Base.Bits.{bit_or_join, bit_or-zero}
use wasabi.Net.Wire.{Bytes2, be16}
use wasabi.Net.Checksum.{InternetChecksumGenerator, feed_sum, feed, calc, fold_sum, fold_fuel}
use wasabi.Net.Checksum.Fold.{ones_complement, fold_sum_total}
use native.Mathlib.Nat.{add_assoc, zero-add}
use mathlib.Core.Option

abbrev pub AreBytes : List ℕ → Type 0
AreBytes [] = Unit
AreBytes (b ∷ bs) = (b < 256) × AreBytes bs

-- The sum of the big-endian words of a byte string, the last one padded by a 0.
abbrev pub words : List ℕ → ℕ
words [] = 0
words (w0 ∷ []) = w0 * 256
words (w0 ∷ w1 ∷ rest) = w0 * 256 + w1 + words rest

pub words-le : (bs : List ℕ) → AreBytes bs → words bs ≤ 65535 * ((length bs + 1) / 2)
words-le [] h = omega arith
words-le (w0 ∷ []) h = omega arith
words-le (w0 ∷ w1 ∷ rest) h = omega (arith, words-le rest h.1.1)

pub words-append : (xs ys : List ℕ) → length xs % 2 ≡ 0 → words (xs ++ ys) ≡ words xs + words ys
words-append [] ys e = omega arith
words-append (w0 ∷ []) ys e = absurd (omega arith)
words-append (w0 ∷ w1 ∷ rest) ys e = omega (arith, words-append rest ys (omega arith))

pub AreBytes-append : (xs ys : List ℕ) → AreBytes xs → AreBytes ys → AreBytes (xs ++ ys)
AreBytes-append [] ys h k = k
AreBytes-append (x ∷ xs) ys h k = (h.0, AreBytes-append xs ys h.1 k)

-- While the sum stays below `2 ^ 32`, feeding adds the words.
pub feed_sum-words :
    (sum : ℕ) (bs : List ℕ)
    → AreBytes bs
    → sum + words bs < 2 ^ 32
    → feed_sum sum bs ≡ sum + words bs
unfolding feed_sum
feed_sum-words sum [] h k = omega arith
feed_sum-words sum (w0 ∷ []) h k = omega (arith, bit_or-zero (w0 * 2 ^ 8 % 2 ^ 32))
feed_sum-words sum (w0 ∷ w1 ∷ rest) h k =
    ap (λ t. feed_sum t rest) word
    ∙ feed_sum-words (sum + (w0 * 256 + w1)) rest h.1.1 (omega arith)
    ∙ add_assoc sum (w0 * 256 + w1) (words rest)
  where
    word : (sum + bit_or (w0 * 2 ^ 8 % 2 ^ 32) w1) % 2 ^ 32 ≡ sum + (w0 * 256 + w1)
    word =
        rw (let e : w0 * 2 ^ 8 % 2 ^ 32 ≡ w0 * 2 ^ 8 = omega arith in e)
          (omega (arith, bit_or_join 8 w0 w1 (omega arith)))

feed_sum-append :
    (sum : ℕ) (xs ys : List ℕ)
    → length xs % 2 ≡ 0
    → feed_sum (feed_sum sum xs) ys ≡ feed_sum sum (xs ++ ys)
unfolding feed_sum
feed_sum-append sum [] ys e = refl
feed_sum-append sum (w0 ∷ []) ys e = absurd (omega arith)
feed_sum-append sum (w0 ∷ w1 ∷ rest) ys e =
    feed_sum-append ((sum + bit_or (w0 * 2 ^ 8 % 2 ^ 32) w1) % 2 ^ 32) rest ys (omega arith)

-- Feeding two parts in turn is feeding them joined, if the first has an even number of bytes.
pub feed-append :
    (g : InternetChecksumGenerator) (xs ys : List ℕ)
    → length xs % 2 ≡ 0
    → feed (feed g xs) ys ≡ feed g (xs ++ ys)
unfolding feed
feed-append g xs ys e = ap (λ s. record { sum = s }) (feed_sum-append g.sum xs ys e)

pub calc_lem :
    (bs : List ℕ)
    → AreBytes bs
    → length bs ≤ 131072
    → calc bs ≡ some (be16 (65535 - ones_complement (words bs)))
unfolding calc
calc_lem bs h k =
    ap (λ s. Option.map field (fold_sum fold_fuel s)) (feed_sum-words 0 bs h (omega (arith, small)))
    ∙ ap (Option.map field) (
        ap (λ s. fold_sum fold_fuel s) (zero-add (words bs))
        ∙ fold_sum_total (words bs) (omega (arith, small)))
    ∙ ap (λ s. some (be16 s)) value
  where
    field : ℕ → Bytes2
    field s = be16 ((2 ^ 32 - 1 - s) % 2 ^ 16)

    small : words bs ≤ 65535 * ((length bs + 1) / 2)
    small = words-le bs h

    value : (2 ^ 32 - 1 - ones_complement (words bs)) % 2 ^ 16 ≡ 65535 - ones_complement (words bs)
    value = ground arith

pub ones_complement-check : (s : ℕ) → ones_complement (s + (65535 - ones_complement s)) ≡ 65535
ones_complement-check s = ground arith
