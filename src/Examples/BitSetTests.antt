-- ===== src/Examples/BitSetTests.antt =====
-- os/src/bitset.rs at concrete inputs.
use wasabi.Base.{◌*◌, ◌≡◌, refl, [], ◌∷◌}
use wasabi.BitSet.{BitSet, err, out_of_range, get, iter}
use wasabi.BitSet.Laws.{IsValid, has}
use wasabi.BitSet.Iter.{select, iter-select}

abbrev few : BitSet
few = record { bytes = 35 ∷ 2 ∷ 0 ∷ [] }

-- the test `iter` of the source, in three bytes
iter-few : iter 3 few ≡ 0 ∷ 1 ∷ 5 ∷ 9 ∷ []
unfolding iter
iter-few = refl

few-IsValid : IsValid 3 few
few-IsValid = refl

get_out_of_range : get 3 few 24 ≡ err out_of_range
unfolding get
get_out_of_range = refl

iter-select_example : iter 3 few ≡ select (has few) (3 * 8) 0
iter-select_example = iter-select 3 few
