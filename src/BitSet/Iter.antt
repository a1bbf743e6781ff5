-- ===== src/BitSet/Iter.antt =====
-- The iterator visits exactly the members, in increasing order.
use wasabi.Base.{ℕ, zero, suc, ◌+◌, ◌*◌, ◌≤◌, ◌<◌, ◌≡◌, refl, ap, ◌∙◌, arith, Bool}
use wasabi.Base.{List, [], ◌∷◌, none, some, lt→ltb, Bool-cases, inl, inr, if◌then◌else◌, ◌⊎◌}
use wasabi.BitSet.{BitSet, get, next, iterate, iter, ok}
use wasabi.BitSet.Laws.{has, get_lem}

-- The numbers of `start..start + left` that satisfy a test, in order.
abbrev pub select : (ℕ → Bool) → ℕ → ℕ → List ℕ
select p zero start = []
select p (suc left) start =
    if p start then start ∷ select p left (start + 1) else select p left (start + 1)

get_in_range : (n : ℕ) (s : BitSet) (j : ℕ) → j < n * 8 → get n s j ≡ ok (has s j)
get_in_range n s j h = get_lem n s j ∙ rw (lt→ltb j (n * 8) h) refl

-- One call of `next`: the first selected number, if any, and what is selected behind it.
next-select :
    (n : ℕ) (s : BitSet) (left start : ℕ)
    → start + left ≤ n * 8
    → ((next n s left start ≡ none) × (select (has s) left start ≡ []))
      ⊎ ((i : ℕ) × (rest : ℕ) × (next n s left start ≡ some (i, rest))
          × (select (has s) left start ≡ i ∷ select (has s) rest (i + 1))
          × (i + 1 + rest ≤ n * 8)
          × (rest < left))
unfolding next
next-select n s zero start h = inl (refl, refl)
next-select n s (suc left) start h = elim (Bool-cases (has s start)) [
  | inl e ↦ inr (
    start,
    left,
    rw (get_in_range n s start (omega arith), next, e) refl,
    rw e refl,
    omega arith,
    omega arith,
  )
  | inr e ↦ elim (next-select n s left (start + 1) (omega arith)) [
    | inl (p, q) ↦ inl (rw (get_in_range n s start (omega arith), next, e) p, rw e q)
    | inr (i, rest, p, q, u, w) ↦
        inr (i, rest, rw (get_in_range n s start (omega arith), next, e) p, rw e q, u, omega arith)
  ]
]

iterate-select :
    (n fuel : ℕ) (s : BitSet) (left start : ℕ)
    → start + left ≤ n * 8
    → left < fuel
    → iterate n fuel s left start ≡ select (has s) left start
unfolding iterate
iterate-select n zero s left start h k = absurd (omega arith)
iterate-select n (suc fuel) s left start h k = elim (next-select n s left start h) [
  | inl (p, q) ↦ rw (p, iterate, q) refl
  | inr (i, rest, p, q, u, w) ↦
      rw (p, iterate, q) (ap (λ r. i ∷ r) (iterate-select n fuel s rest (i + 1) u (omega arith)))
]

-- Iterating over a set lists exactly its members below `n * 8`, in increasing order.
pub iter-select : (n : ℕ) (s : BitSet) → iter n s ≡ select (has s) (n * 8) 0
unfolding iter
iter-select n s = iterate-select n (n * 8 + 1) s (n * 8) 0 (omega arith) (omega arith)
