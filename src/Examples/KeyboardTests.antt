-- ===== src/Examples/KeyboardTests.antt =====
-- os/src/usb_hid_keyboard.rs and os/src/net/dns.rs at concrete inputs.
use wasabi.Base.{ℕ, ◌≡◌, refl, arith, List, [], ◌∷◌, ok, not, ◌&&◌}
use wasabi.BitSet
use wasabi.BitSet.{BitSet}
use wasabi.BitSet.Laws.{IsValid, has, new-IsValid}
use wasabi.BitSet.Iter.{select}
use wasabi.Keyboard.{char, handle_report, usage_id_to_char}
use wasabi.Keyboard.Keys.{characters}
use wasabi.Keyboard.Reports.{holds, handle_report_lem}

-- The keys A and 1, without a modifier
abbrev report : List ℕ
report = 0 ∷ 0 ∷ 4 ∷ 30 ∷ 0 ∷ 0 ∷ 0 ∷ 0 ∷ []

digits : usage_id_to_char 39 ≡ ok (char 48)
unfolding usage_id_to_char
digits = refl

handle_report_lem_example :
    (next : BitSet) × (handle_report (BitSet.new 32) report
      ≡ ok (
        next,
        characters (
            select
              (λ j. holds (4 ∷ 30 ∷ 0 ∷ 0 ∷ 0 ∷ 0 ∷ []) j && not (has (BitSet.new 32) j))
              256
              0),
      ))
    × IsValid 32 next
    × ((j : ℕ) → has next j ≡ holds (4 ∷ 30 ∷ 0 ∷ 0 ∷ 0 ∷ 0 ∷ []) j)
handle_report_lem_example = handle_report_lem (BitSet.new 32) report (new-IsValid 32) (omega arith)

-- `wasabi.io`
abbrev name : List (List ℕ)
name = (119 ∷ 97 ∷ 115 ∷ 97 ∷ 98 ∷ 105 ∷ []) ∷ (105 ∷ 111 ∷ []) ∷ []
