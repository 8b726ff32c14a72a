-- ===== src/Flags/Tests.antt =====
-- Two flags of three bits.
use ez_cpp.Prelude.{◌≡◌, refl, Bool, true, false, List, [], ◌∷◌}
use ez_cpp.Flags.{test, set_flag, clear_flag}
use ez_cpp.Flags.Tested.{test-set_flag}

abbrev first : List Bool
first = true ∷ false ∷ false ∷ []

abbrev second : List Bool
second = false ∷ true ∷ true ∷ []

test-set_flag_example :
    (test (set_flag second first true) first ≡ true)
    × (test (set_flag second first false) second ≡ test second second)
    × (set_flag second first false ≡ clear_flag second first)
test-set_flag_example = test-set_flag second first second false refl (refl, (refl, (refl, tt)))
