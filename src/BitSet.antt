-- ===== src/BitSet.antt =====
-- os/src/bitset.rs: a set of the numbers below `n * 8` in `n` bytes. `n` is the constant parameter
-- of the type; `&mut self` methods return the new set.
pub mod Laws
pub mod Iter
use wasabi.Base.{ℕ, zero, suc, ◌+◌, ◌-◌, ◌*◌, ◌/◌, ◌%◌, ◌^◌, bit_and, bit_or, bit_xor}
use wasabi.Base.{List, [], ◌∷◌, Bool, true, false, Option, none, some, ltb, ◌/=◌, if◌then◌else◌}
use wasabi.Base.{get_or, set, replicate, map}

pub data Error : Type 0 where
  out_of_range : Error

pub data Result {ℓ} (A : Type ℓ) : Type ℓ where
  ok : A → Result A
  err : Error → Result A

pub record BitSet : Type 0 where
  pub bytes : List ℕ

module _ (n : ℕ) where
  unfoldable pub new : BitSet
  new = record { bytes = replicate n 0 }

  unfoldable pub insert : BitSet → ℕ → Result BitSet
  insert s index =
      if ltb index (n * 8)
      then ok (record s {
        bytes = set s.bytes (index / 8) (bit_or (get_or s.bytes (index / 8) 0) (2 ^ (index % 8)));
      })
      else err out_of_range

  unfoldable pub get : BitSet → ℕ → Result Bool
  get s index =
      if ltb index (n * 8)
      then ok (bit_and (get_or s.bytes (index / 8) 0) (2 ^ (index % 8)) /= 0)
      else err out_of_range

  -- `!(1u8 << i)` is the byte with every other bit set.
  unfoldable pub remove : BitSet → ℕ → Result BitSet
  remove s index =
      if ltb index (n * 8)
      then ok (record s {
        bytes =
            set s.bytes (index / 8)
              (bit_and (get_or s.bytes (index / 8) 0) (255 - 2 ^ (index % 8)));
      })
      else err out_of_range

  unfoldable pub clear : BitSet → BitSet
  clear s = record s { bytes = map (λ v. 0) s.bytes }

  -- `for i in 0..N`, with the rounds left: `res.bytes[i]` is set from both sets.
  pub difference_loop : BitSet → BitSet → ℕ → ℕ → BitSet → BitSet
  difference_loop s another zero i res = res
  difference_loop s another (suc left) i res = difference_loop s another left (i + 1) (record res {
    bytes = set res.bytes i (bit_xor (get_or s.bytes i 0) (get_or another.bytes i 0));
  })

  unfoldable pub symmetric_difference : BitSet → BitSet → BitSet
  unfolding difference_loop new
  symmetric_difference s another = difference_loop s another n 0 new

  -- `BitSetIterator`: the set and the rest `start..start + left` of its range.
  -- `range.find(..)` returns the next member and leaves the range behind it. `get` cannot fail
  -- inside the range, so its `unwrap` never panics; the model reads such a failure as no member.
  pub next : BitSet → ℕ → ℕ → Option (ℕ × ℕ)
  next s zero start = none
  next s (suc left) start = elim (get s start) [
    | ok b ↦ elim b [ true ↦ some (start, left) | false ↦ next s left (start + 1) ]
    | err e ↦ none
  ]

  -- `for i in set.iter()`: `next` until it returns `None`, with fuel for the rounds.
  pub iterate : ℕ → BitSet → ℕ → ℕ → List ℕ
  iterate zero s left start = []
  iterate (suc fuel) s left start = elim (next s left start) [
    | none ↦ []
    | some (i, rest) ↦ i ∷ iterate fuel s rest (i + 1)
  ]

  -- There are at most `n * 8` members, and one more call ends the loop.
  unfoldable pub iter : BitSet → List ℕ
  unfolding iterate next get
  iter s = iterate (n * 8 + 1) s (n * 8) 0
