-- ===== src/Prelude/Text.antt =====
-- `strings.TrimSpace` and slices of runes, on texts as lists of characters.
use Prim.Native.Char.{Char, code}
use Prim.Native.Nat.{ℕ, zero, suc, ◌≤◌}
use Prim.Native.String.count
use Prim.Native.String.{String, count}
use mathlib.Core.Bool.{Bool, true, false, ◌&&◌, ◌||◌}
use native.Mathlib.Omega.{arith}
use deeperseek.Prelude.Tests.{leb, nat_eq, if◌then◌else◌}

-- `unicode.IsSpace`.
unfoldable pub is_space : Char → Bool
is_space c =
    let n = code c in
    (leb 9 n && leb n 13)
    || nat_eq n 32
    || nat_eq n 0x85
    || nat_eq n 0xa0
    || nat_eq n 0x1680
    || (leb 0x2000 n && leb n 0x200a)
    || nat_eq n 0x2028
    || nat_eq n 0x2029
    || nat_eq n 0x202f
    || nat_eq n 0x205f
    || nat_eq n 0x3000

unfoldable pub trim_left : String → String
trim_left String.[] = ""
trim_left (String.◌∷◌ c s) = if is_space c then trim_left s else String.◌∷◌ c s

abbrev is_nil : String → Bool
is_nil String.[] = true
is_nil (String.◌∷◌ c s) = false

unfoldable pub trim_right : String → String
trim_right String.[] = ""
trim_right (String.◌∷◌ c s) =
    let rest = trim_right s in if is_nil rest && is_space c then "" else String.◌∷◌ c rest

unfoldable pub trim_space : String → String
unfolding trim_left trim_right is_space
trim_space s = trim_right (trim_left s)

-- `string(runes[:n])`, or the whole text if it is shorter.
unfoldable pub take_runes : ℕ → String → String
take_runes zero s = ""
take_runes (suc n) String.[] = ""
take_runes (suc n) (String.◌∷◌ c s) = String.◌∷◌ c (take_runes n s)

-- `string(runes[n:])`.
unfoldable pub drop_runes : ℕ → String → String
drop_runes zero s = s
drop_runes (suc n) String.[] = ""
drop_runes (suc n) (String.◌∷◌ c s) = drop_runes n s

pub count-take_runes : (n : ℕ) (s : String) → count (take_runes n s) ≤ n
unfolding take_runes
count-take_runes zero s = omega arith
count-take_runes (suc n) String.[] = omega arith
count-take_runes (suc n) (String.◌∷◌ c s) = omega (arith, count-take_runes n s, count.cons)
