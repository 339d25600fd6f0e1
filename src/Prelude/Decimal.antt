-- ===== src/Prelude/Decimal.antt =====
-- `%d`: numbers in decimal notation.
use Prim.Native.Nat.{ℕ, zero, suc, ◌/◌, ◌%◌}
use Prim.Native.String.{String, ◌++◌}
use mathlib.Core.Option.{get_or}
use mathlib.Core.List.{List, [], ◌∷◌}
use deeperseek.Prelude.Tests.{ltb, if◌then◌else◌}
use deeperseek.Prelude.Lists.{get_elem?}
use deeperseek.Prelude.Int.{ℤ, pos, negsuc}

abbrev numerals : List String
numerals = "0" ∷ "1" ∷ "2" ∷ "3" ∷ "4" ∷ "5" ∷ "6" ∷ "7" ∷ "8" ∷ "9" ∷ []

unfoldable pub digit : ℕ → String
digit d = get_or (get_elem? numerals d) ""

unfoldable pub digits : ℕ → ℕ → String
unfolding digit
digits zero n = ""
digits (suc fuel) n =
    let rest = digits fuel (n / 10) in if ltb n 10 then digit n else rest ++ digit (n % 10)

-- A number has at most as many digits as its successor counts.
unfoldable pub decimal : ℤ → String
unfolding digits
decimal (pos n) = digits (suc n) n
decimal (negsuc n) = "-" ++ digits (suc (suc n)) (suc n)
