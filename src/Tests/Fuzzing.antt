-- ===== src/Tests/Fuzzing.antt =====
-- The harness on a concrete input.
use coucal.Base.{ℕ, ◌-◌, ◌≡◌, ◌⊎◌, some, ◌+◌, refl, List, [], ◌∷◌, get_or, arith, ap}
use coucal.Fuzz.Filling.{rounds_from, Filled, Headway, fuzz_rounds-Headway}
use coucal.Fuzz.{KeyPrinter, KeyScanner, Prints, Scans, fuzz_one_input, decode}
use coucal.Run.{ok}
use coucal.State.{World}
use coucal.Fuzz.Ending.{fuzz_one_input-Filled, short_input-ends}
use coucal.Tests.{plenty, nothing}

-- A letter, and the identifier as one byte.
abbrev letter : KeyPrinter
letter kid = 107 ∷ (kid + 1) ∷ []

letter-Prints : Prints letter
letter-Prints = record {
  print-IsText = λ kid. (omega arith, (omega arith, tt));
  length-print = λ kid. omega arith;
  print_injective = λ i j hi hj e. omega (arith, ap (λ l. get_or l 1 0) e);
}

-- A write, an increment of it, one of a missing key, a lookup, and a removal.
abbrev input : List ℕ
input = 0 ∷ 5 ∷ 3 ∷ 5 ∷ 7 ∷ 6 ∷ 2 ∷ 5 ∷ 1 ∷ 5 ∷ 9 ∷ []

fuzz_rounds-Headway_example : Headway letter 0 (rounds_from plenty letter nothing) (decode input)
fuzz_rounds-Headway_example =
    fuzz_rounds-Headway plenty letter nothing input (λ n bytes. refl) letter-Prints (omega arith)

-- The identifier of such a string.
abbrev letter_of : KeyScanner
letter_of k = some (get_or k 1 0 - 1)

letter_of-Scans : Scans letter letter_of
letter_of-Scans kid small = ap some (omega arith)

fuzz_one_input-Filled_example :
    ((w : World) × (fuzz_one_input plenty letter letter_of nothing input ≡ ok w))
    ⊎ Filled letter 0 (rounds_from plenty letter nothing) (decode input)
fuzz_one_input-Filled_example =
    fuzz_one_input-Filled plenty letter letter_of nothing input (λ n bytes. refl) letter-Prints
      letter_of-Scans (omega arith)

short_input-ends_example :
    (w : World) × (fuzz_one_input plenty letter letter_of nothing input ≡ ok w)
short_input-ends_example =
    short_input-ends plenty letter letter_of nothing input (λ n bytes. refl) letter-Prints
      letter_of-Scans (omega arith)
