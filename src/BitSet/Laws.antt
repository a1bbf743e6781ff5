-- ===== src/BitSet/Laws.antt =====
-- A `BitSet` of `n` bytes is a set of the numbers below `n * 8`: each method against membership.
use wasabi.Base.{ℕ, zero, suc, ◌+◌, ◌-◌, ◌*◌, ◌/◌, ◌%◌, ◌^◌, ◌≤◌, ◌<◌, bit_and, bit_or, bit_xor}
use wasabi.Base.{
  ◌≡◌, refl, ap, ap₂, ◌∙◌, arith, Bool, true, false, not, ◌&&◌, ◌||◌, xor, List, [], ◌∷◌,
}
use wasabi.Base.{ltb, leb, lt→ltb, ◌==◌, if◌then◌else◌, Bool-cases, inl, inr, ==_iff, ne_of_==}
use wasabi.Base.{get_or, set, map, replicate, length, length-set, length-replicate}
use wasabi.Base.{get_or-set_self, get_or-set_ne, get_or-replicate}
use wasabi.Base.Digits.{testbit, testbit_mask, testbit-bit_or, testbit-bit_and, testbit-bit_xor}
use wasabi.Base.Digits.{testbit-pow, testbit-zero, testbit_complement}
use mathlib.Core.Bool.{or_comm, and_comm}
use wasabi.BitSet.{BitSet, out_of_range, ok, err}
use wasabi.BitSet.{new, insert, get, remove, clear, difference_loop, symmetric_difference}
use native.Mathlib.Decide.{dec_lt}

abbrev pub IsValid : ℕ → BitSet → Type 0
IsValid n s = length s.bytes ≡ n

-- Membership, as the digits of the bytes.
pub has : BitSet → ℕ → Bool
has s j = testbit (get_or s.bytes (j / 8) 0) (j % 8)

-- `get` tells membership inside the range and fails outside it.
pub get_lem :
    (n : ℕ) (s : BitSet) (j : ℕ)
    → get n s j ≡ (if ltb j (n * 8) then ok (has s j) else err out_of_range)
unfolding get has
get_lem n s j =
    ap (λ b. if ltb j (n * 8) then ok b else err out_of_range)
      (testbit_mask (get_or s.bytes (j / 8) 0) (j % 8))

-- The digit at `j` after the byte of `i` has been overwritten by `v`.
has-set :
    (s : BitSet) (i j v : ℕ)
    → i / 8 < length s.bytes
    → has (record s { bytes = set s.bytes (i / 8) v }) j
      ≡ (if i / 8 == j / 8 then testbit v (j % 8) else has s j)
unfolding has
has-set s i j v h = elim (Bool-cases (i / 8 == j / 8)) [
  | inl e ↦ rw (e, ← (==_iff (i / 8) (j / 8)).0 e, get_or-set_self s.bytes (i / 8) v 0 h) refl
  | inr e ↦ rw (e, get_or-set_ne s.bytes (i / 8) (j / 8) v 0 (ne_of_== _ _ e)) refl
]

-- Numbers are equal when they name the same byte and the same bit of it.
same_place : (i j : ℕ) → (i == j) ≡ (i / 8 == j / 8 && i % 8 == j % 8)
same_place i j = ground arith

module _ (s : BitSet) (i j : ℕ) where
  -- Where the bytes agree, so do the bytes' contents.
  byte_of : (i / 8 == j / 8) ≡ true → get_or s.bytes (i / 8) 0 ≡ get_or s.bytes (j / 8) 0
  byte_of e = ap (λ q. get_or s.bytes q 0) ((==_iff (i / 8) (j / 8)).0 e)

  -- The digit at `j` of the byte that `insert` and `remove` store for `i`.
  or_digit :
      (if i / 8 == j / 8
        then testbit (bit_or (get_or s.bytes (i / 8) 0) (2 ^ (i % 8))) (j % 8)
        else has s j)
      ≡ (i == j || has s j)
  unfolding has
  or_digit = elim (Bool-cases (i / 8 == j / 8)) [
    | inl e ↦
        rw (same_place i j, e)
          (testbit-bit_or (get_or s.bytes (i / 8) 0) (2 ^ (i % 8)) (j % 8)
            ∙ ap₂ ◌||◌ (ap (λ b. testbit b (j % 8)) (byte_of e)) (testbit-pow (i % 8) (j % 8))
            ∙ or_comm (testbit (get_or s.bytes (j / 8) 0) (j % 8)) (i % 8 == j % 8))
    | inr e ↦ rw (same_place i j, e) refl
  ]

  and_digit :
      (if i / 8 == j / 8
        then testbit (bit_and (get_or s.bytes (i / 8) 0) (255 - 2 ^ (i % 8))) (j % 8)
        else has s j)
      ≡ (not (i == j) && has s j)
  unfolding has
  and_digit = elim (Bool-cases (i / 8 == j / 8)) [
    | inl e ↦
        rw (same_place i j, e)
          (testbit-bit_and (get_or s.bytes (i / 8) 0) (255 - 2 ^ (i % 8)) (j % 8)
            ∙ ap₂ ◌&&◌ (ap (λ b. testbit b (j % 8)) (byte_of e))
                (testbit_complement (i % 8) (j % 8) (omega arith) (omega arith))
            ∙ and_comm (testbit (get_or s.bytes (j / 8) 0) (j % 8)) (not (i % 8 == j % 8)))
    | inr e ↦ rw (same_place i j, e) refl
  ]

-- `insert` in the range returns a set that has the number and otherwise the same members.
pub insert_lem :
    (n : ℕ) (s : BitSet) (i : ℕ)
    → IsValid n s
    → i < n * 8
    → (t : BitSet) × (insert n s i ≡ ok t) × IsValid n t × ((j : ℕ) → has t j ≡ (i == j || has s j))
unfolding insert
insert_lem n s i v h =
    let b = bit_or (get_or s.bytes (i / 8) 0) (2 ^ (i % 8)) in
    (
      record s { bytes = set s.bytes (i / 8) b },
      rw (lt→ltb i (n * 8) h) refl,
      length-set s.bytes (i / 8) b ∙ v,
      λ j. has-set s i j b (omega (arith, v)) ∙ or_digit s i j,
    )

-- `remove` in the range returns a set without the number and otherwise the same members.
pub remove_lem :
    (n : ℕ) (s : BitSet) (i : ℕ)
    → IsValid n s
    → i < n * 8
    → (t : BitSet) × (remove n s i ≡ ok t)
      × IsValid n t
      × ((j : ℕ) → has t j ≡ (not (i == j) && has s j))
unfolding remove
remove_lem n s i v h =
    let b = bit_and (get_or s.bytes (i / 8) 0) (255 - 2 ^ (i % 8)) in
    (
      record s { bytes = set s.bytes (i / 8) b },
      rw (lt→ltb i (n * 8) h) refl,
      length-set s.bytes (i / 8) b ∙ v,
      λ j. has-set s i j b (omega (arith, v)) ∙ and_digit s i j,
    )

-- A new set and a cleared set are empty, of the same size.
pub has-clear : (n : ℕ) (s : BitSet) (j : ℕ) → has (clear n s) j ≡ false
unfolding has clear
has-clear n s j = rw (zeros s.bytes (j / 8)) (testbit-zero (j % 8))
  where
    zeros : (bs : List ℕ) (i : ℕ) → get_or {A = ℕ} (map (λ v. 0) bs) i 0 ≡ 0
    zeros [] i = refl
    zeros (b ∷ bs) zero = refl
    zeros (b ∷ bs) (suc i) = zeros bs i

pub new-IsValid : (n : ℕ) → IsValid n (new n)
unfolding new
new-IsValid n = length-replicate n 0

pub has-new : (n : ℕ) (j : ℕ) → has (new n) j ≡ false
unfolding has new
has-new n j = rw (get_or-replicate {A = ℕ} n 0 (j / 8)) (testbit-zero (j % 8))

-- After the loop, the bytes in its range are the exclusive or, and the others are as before.
difference_loop_bytes :
    (n : ℕ) (s another : BitSet) (left i : ℕ) (res : BitSet) (k : ℕ)
    → i + left ≡ length res.bytes
    → (length (difference_loop n s another left i res).bytes ≡ length res.bytes)
      × (get_or (difference_loop n s another left i res).bytes k 0 ≡ (
          if leb i k && ltb k (i + left)
          then bit_xor (get_or s.bytes k 0) (get_or another.bytes k 0)
          else get_or res.bytes k 0))
unfolding difference_loop
difference_loop_bytes n s another zero i res k h = (refl, ground arith)
difference_loop_bytes n s another (suc left) i res k h =
    let v = bit_xor (get_or s.bytes i 0) (get_or another.bytes i 0) in
    ground (
      arith,
      length-set res.bytes i v,
      get_or-set_self res.bytes i v 0,
      get_or-set_ne res.bytes i k v 0,
      difference_loop_bytes n s another left (i + 1) (record res { bytes = set res.bytes i v }) k,
    )

-- Past the last byte both sets read 0.
get_or_past : (bs : List ℕ) (k : ℕ) → length bs ≤ k → get_or bs k 0 ≡ 0
get_or_past [] k h = refl
get_or_past (b ∷ bs) zero h = absurd (omega arith)
get_or_past (b ∷ bs) (suc k) h = get_or_past bs k (omega arith)

-- Membership in the symmetric difference of two sets of `n` bytes.
pub has-symmetric_difference :
    (n : ℕ) (s another : BitSet)
    → IsValid n s
    → IsValid n another
    → IsValid n (symmetric_difference n s another)
      × ((j : ℕ) → has (symmetric_difference n s another) j ≡ xor (has s j) (has another j))
unfolding symmetric_difference has
has-symmetric_difference n s another v w = (
  (loop 0).0 ∙ new-IsValid n,
  λ j.
      ap (λ b. testbit b (j % 8)) (byte (j / 8))
      ∙ testbit-bit_xor (get_or s.bytes (j / 8) 0) (get_or another.bytes (j / 8) 0) (j % 8),
)
  where
    zeros : List ℕ
    zeros = replicate n 0

    loop :
        (k : ℕ)
        → (length (difference_loop n s another n 0 (record { bytes = zeros })).bytes ≡ length zeros)
          × (get_or (difference_loop n s another n 0 (record { bytes = zeros })).bytes k 0 ≡ (
              if leb 0 k && ltb k (0 + n)
              then bit_xor (get_or s.bytes k 0) (get_or another.bytes k 0)
              else get_or zeros k 0))
    loop k =
        difference_loop_bytes n s another n 0 (record { bytes = zeros }) k
          (omega (arith, length-replicate n (zero)))

    byte :
        (k : ℕ)
        → get_or (difference_loop n s another n 0 (record { bytes = zeros })).bytes k 0
          ≡ bit_xor (get_or s.bytes k 0) (get_or another.bytes k 0)
    byte k = (loop k).1 ∙ elim (dec_lt k n) [
      | yes p ↦ ground arith
      | no p ↦
          rw
            (
              get_or-replicate {A = ℕ} n 0 k,
              get_or_past s.bytes k (omega (arith, v)),
              get_or_past another.bytes k (omega (arith, w)),
            )
            (ground arith)
    ]
