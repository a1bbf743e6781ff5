-- ===== src/Keyboard/Reports.antt =====
-- What a report does: the keys that it holds are the ones pressed next, and the keys that were not
-- pressed before are typed, in the order of their numbers.
use wasabi.Base.{
  ℕ, zero, suc, ◌+◌, ◌≡◌, refl, ap, ap₂, ◌∙◌, arith, List, [], ◌∷◌, drop, Bool, true, false, ◌||◌,
  not, Result, err, panic, none, ◌&&◌, ◌≤◌, ◌<◌, lt→ltb, Bool-cases, inl, inr, ◌++◌, ◌==◌, ok,
  if◌then◌else◌,
}
use wasabi.BitSet
use wasabi.BitSet.{BitSet}
use wasabi.BitSet.Laws.{
  IsValid, has, insert_lem, has-symmetric_difference, get_lem, new-IsValid, has-new,
}
use wasabi.BitSet.Iter.{select, iter-select}
use wasabi.Net.Checksum.Feed.{AreBytes}
use wasabi.Keyboard.{
  KeyEvent, to_char, usage_id_to_char, press_all, is_pressed, typed, typed_by, handle_report,
}
use wasabi.Keyboard.Keys.{key_char, listed, characters, typed_char_lem}
use mathlib.Core.Bool.{or-false, xor}

-- Some key of the list is `j`.
abbrev pub holds : List ℕ → ℕ → Bool
holds [] j = false
holds (v ∷ vs) j = v == j || holds vs j

or_move : (a b c : Bool) → (a || (b || c)) ≡ ((b || a) || c)
or_move true true c = refl
or_move true false c = refl
or_move false true c = refl
or_move false false c = refl

press_all_lem :
    (s : BitSet) (values : List ℕ)
    → IsValid 32 s
    → AreBytes values
    → (t : BitSet) × (press_all s values ≡ ok t)
      × IsValid 32 t
      × ((j : ℕ) → has t j ≡ (holds values j || has s j))
unfolding press_all
press_all_lem s [] v h = (s, refl, v, λ j. refl)
press_all_lem s (value ∷ values) v h =
    let (t, e, w, m) = insert_lem 32 s value v (omega (arith, h)) in
    let (t', e', w', m') = press_all_lem t values w h.1 in
    (
      t',
      rw (e, press_all) e',
      w',
      λ j.
          m' j
          ∙ ap (λ b. holds values j || b) (m j)
          ∙ or_move (holds values j) (value == j) (has s j),
    )

select-ext :
    (p q : ℕ → Bool) (left start : ℕ)
    → ((j : ℕ) → p j ≡ q j)
    → select p left start ≡ select q left start
select-ext p q zero start e = refl
select-ext p q (suc left) start e =
    ap₂ (λ b r. if b then start ∷ r else r) (e start) (select-ext p q left (start + 1) e)

unless_pressed :
    (r : Result KeyEvent) (pressed : Bool)
    → ◌≡◌ {A = List ℕ}
        (elim r [ ok c ↦ if pressed then [] else listed (to_char c) | err e ↦ [] | panic ↦ [] ])
        (if pressed then [] else listed (elim r [ ok c ↦ to_char c | err e ↦ none | panic ↦ none ]))
unless_pressed (ok c) pressed = refl
unless_pressed (err e) true = refl
unless_pressed (err e) false = refl
unless_pressed panic true = refl
unless_pressed panic false = refl

-- What a key adds to the input: its character, when it was not pressed before.
typed_by_lem :
    (prev : BitSet) (id : ℕ)
    → id < 256
    → typed_by prev id ≡ (if has prev id then [] else listed (key_char id))
unfolding typed_by
typed_by_lem prev id h =
    let known : BitSet.get 32 prev id ≡ BitSet.ok (has prev id) =
      get_lem 32 prev id ∙ rw (lt→ltb id 256 h) refl in
    let pressed : is_pressed prev id ≡ has prev id =
      ap (λ r. elim r [ BitSet.ok b ↦ b | BitSet.err e ↦ false ]) known in
    let with_flag : Bool → List ℕ = λ b. elim (usage_id_to_char id) [
      | ok c ↦ if b then [] else listed (to_char c)
      | err e ↦ []
      | panic ↦ []
    ] in
    ap with_flag pressed
    ∙ unless_pressed (usage_id_to_char id) (has prev id)
    ∙ ap (λ c. if has prev id then [] else listed c) (typed_char_lem id h)

-- The keys that have changed type those that are newly pressed.
typed-select :
    (prev : BitSet) (held : ℕ → Bool) (left start : ℕ)
    → start + left ≤ 256
    → typed prev (select (λ j. xor (has prev j) (held j)) left start)
      ≡ characters (select (λ j. held j && not (has prev j)) left start)
unfolding typed xor
typed-select prev held zero start h = refl
typed-select prev held (suc left) start h =
    let rest = typed-select prev held left (start + 1) (omega arith) in
    let first = typed_by_lem prev start (omega arith) in
    let nothing : has prev start ≡ true → typed_by prev start ≡ [] = λ p. first ∙ rw p refl in
    let new_key : has prev start ≡ false → typed_by prev start ≡ listed (key_char start) =
      λ p. first ∙ rw p refl in
    elim (Bool-cases (has prev start)) [
      | inl p ↦ elim (Bool-cases (held start)) [
        | inl k ↦ rw (p, k) rest
        | inr k ↦ rw (p, k) (ap₂ (λ (xs ys : List ℕ). xs ++ ys) (nothing p) rest)
      ]
      | inr p ↦ elim (Bool-cases (held start)) [
        | inl k ↦ rw (p, k) (ap₂ (λ (xs ys : List ℕ). xs ++ ys) (new_key p) rest)
        | inr k ↦ rw (p, k) rest
      ]
    ]

-- A report of bytes never panics: the keys pressed next are those from its third byte on, and the
-- input is the characters of the keys among them that were not pressed before, in increasing order of
-- their numbers, a key without a character adding nothing.
pub handle_report_lem :
    (prev : BitSet) (report : List ℕ)
    → IsValid 32 prev
    → AreBytes (drop 2 report)
    → (next : BitSet) × (handle_report prev report
        ≡ ok (next, characters (select (λ j. holds (drop 2 report) j && not (has prev j)) 256 0)))
      × IsValid 32 next
      × ((j : ℕ) → has next j ≡ holds (drop 2 report) j)
unfolding handle_report
handle_report_lem prev report v h =
    let (next, e, w, m) = press_all_lem (BitSet.new 32) (drop 2 report) (new-IsValid 32) h in
    let pressed : (j : ℕ) → has next j ≡ holds (drop 2 report) j = λ j.
      m j
      ∙ ap (λ b. holds (drop 2 report) j || b) (has-new 32 j)
      ∙ or-false (holds (drop 2 report) j) in
    let d = BitSet.symmetric_difference 32 prev next in
    let members : (j : ℕ) → has d j ≡ xor (has prev j) (holds (drop 2 report) j) = λ j.
      (has-symmetric_difference 32 prev next v w).1 j ∙ ap (λ b. xor (has prev j) b) (pressed j) in
    (
      next,
      rw (e, handle_report)
          (ap (λ ids. ok (next, typed prev ids))
              (iter-select 32 d
                ∙ select-ext (has d) (λ j. xor (has prev j) (holds (drop 2 report) j)) 256 0
                    members)
            ∙ ap (λ input. ok (next, input))
                (typed-select prev (holds (drop 2 report)) 256 0 (omega arith))),
      w,
      pressed,
    )
