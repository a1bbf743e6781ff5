-- ===== src/Keyboard/Keys.antt =====
-- The characters of the keys of a keyboard, as a table, against `usage_id_to_char` of
-- os/src/usb_hid_keyboard.rs.
use wasabi.Base.{
  ℕ, zero, suc, ◌<◌, ◌≡◌, refl, ap, arith, List, [], ◌∷◌, ◌++◌, Option, none, some, Bool, true,
  false, ◌&&◌, ◌==◌, if◌then◌else◌, ==_iff, ok, err, panic,
}
use Prim.Native.Char.{code}
use Prim.Native.String.{String}
use wasabi.Keyboard.{to_char, usage_id_to_char}

-- The characters of a row of keys, numbered from `id` on
abbrev row : ℕ → String → List (ℕ × ℕ)
row id String.[] = []
row id (String.◌∷◌ c s) = (id, code c) ∷ row (suc id) s

abbrev key_table : List (ℕ × ℕ)
key_table =
    row 4 "abcdefghijklmnopqrstuvwxyz1234567890"
    ++ (40, 10) ∷ (42, 8) ∷ row 44 " -"
    ++ row 51 ":"
    ++ row 54 ",./"

abbrev lookup : List (ℕ × ℕ) → ℕ → Option ℕ
lookup [] id = none
lookup ((key, c) ∷ keys) id = if key == id then some c else lookup keys id

abbrev pub listed : Option ℕ → List ℕ
listed none = []
listed (some c) = c ∷ []

-- The character of a key, if it has one
unfoldable pub key_char : ℕ → Option ℕ
key_char id = lookup key_table id

-- What some keys type
abbrev pub characters : List ℕ → List ℕ
characters [] = []
characters (id ∷ ids) = listed (key_char id) ++ characters ids

-- The character of the event of a key
abbrev pub typed_char : ℕ → Option ℕ
typed_char id = elim (usage_id_to_char id) [ ok c ↦ to_char c | err e ↦ none | panic ↦ none ]

same : Option ℕ → Option ℕ → Bool
same none none = true
same (some a) (some b) = a == b
same none (some b) = false
same (some a) none = false

same-eq : (a b : Option ℕ) → same a b ≡ true → a ≡ b
unfolding same
same-eq none none h = refl
same-eq (some a) (some b) h = ap some ((==_iff a b).0 h)
same-eq none (some b) h = cc
same-eq (some a) none h = cc

all_below : ℕ → (ℕ → Bool) → Bool
all_below zero p = true
all_below (suc n) p = p n && all_below n p

all_below_lem : (n : ℕ) (p : ℕ → Bool) (x : ℕ) → all_below n p ≡ true → x < n → p x ≡ true
unfolding all_below
all_below_lem zero p x h lt = absurd (omega arith)
all_below_lem (suc n) p x h lt = ground (arith, all_below_lem n p x)

all_same : all_below 256 (λ id. same (typed_char id) (key_char id)) ≡ true
unfolding all_below same usage_id_to_char key_char
all_same = refl

-- Every key types what the table says.
pub typed_char_lem : (id : ℕ) → id < 256 → typed_char id ≡ key_char id
typed_char_lem id h =
    same-eq (typed_char id) (key_char id)
      (all_below_lem 256 (λ j. same (typed_char j) (key_char j)) id all_same h)
