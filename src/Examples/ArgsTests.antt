-- ===== src/Examples/ArgsTests.antt =====
-- noli/src/args.rs at concrete inputs.
use wasabi.Base.{ℕ, ◌≡◌, refl, arith, [], ◌∷◌, List, Bool, true, ok, length, ◌<◌, ◌^◌}
use wasabi.Base.Bytes.{to_le_bytes}
use wasabi.Args.{serialize_args, deserialize_args}
use wasabi.Args.RoundTrip.{deserialize_args-serialize_args}

-- "zero", "one", "two"
abbrev words : List (List ℕ)
words =
    (b'z' ∷ b'e' ∷ b'r' ∷ b'o' ∷ []) ∷ (b'o' ∷ b'n' ∷ b'e' ∷ []) ∷ (b't' ∷ b'w' ∷ b'o' ∷ []) ∷ []

-- A check that takes every byte string for a text.
abbrev any_text : List ℕ → Bool
any_text bytes = true

expected_size : length (serialize_args words) ≡ 77
unfolding serialize_args to_le_bytes
expected_size = refl

words_fit : length (serialize_args words) < 2 ^ 64
words_fit = rw expected_size (omega arith)

deserialize_args-serialize_args_example :
    deserialize_args any_text (serialize_args words) ≡ ok words
deserialize_args-serialize_args_example =
    deserialize_args-serialize_args any_text words (refl, (refl, (refl, tt))) words_fit
