-- ===== src/Prelude/Lists.antt =====
-- Lists measured and indexed by native numbers, under the library's names, and lists of texts.
use Prim.Native.Nat.{ℕ, zero, suc, ◌+◌, ◌≤◌}
use Prim.Native.String.{String}
use mathlib.Core.Path.{◌≡◌, refl, ap}
use mathlib.Core.Bool.{Bool, true, false}
use mathlib.Core.List.{List, [], ◌∷◌, ◌++◌}
use mathlib.Core.Option.{Option, none, some}
use native.Mathlib.Omega.{arith}
use text.Mathlib.TextEquality.{eq_iff}
use deeperseek.Prelude.Tests.{◌==◌, if◌then◌else◌}

module _ {ℓ} {A : Type ℓ} where
  abbrev pub length : List A → ℕ
  length [] = 0
  length (x ∷ xs) = suc (length xs)

  abbrev pub get_elem? : List A → ℕ → Option A
  get_elem? [] i = none
  get_elem? (x ∷ xs) zero = some x
  get_elem? (x ∷ xs) (suc i) = get_elem? xs i

  abbrev pub take : ℕ → List A → List A
  take zero xs = []
  take (suc n) [] = []
  take (suc n) (x ∷ xs) = x ∷ take n xs

  -- `append(xs[:i], xs[i+1:]...)`.
  abbrev pub remove_at : List A → ℕ → List A
  remove_at [] i = []
  remove_at (x ∷ xs) zero = xs
  remove_at (x ∷ xs) (suc i) = x ∷ remove_at xs i

  abbrev pub is_empty : List A → Bool
  is_empty [] = true
  is_empty (x ∷ xs) = false

  abbrev pub keep : (A → Bool) → List A → List A
  keep p [] = []
  keep p (x ∷ xs) = if p x then x ∷ keep p xs else keep p xs

  pub length-append : (xs ys : List A) → length (xs ++ ys) ≡ length xs + length ys
  length-append [] ys = omega arith
  length-append (x ∷ xs) ys = omega (arith, length-append xs ys)

  pub append_one : (xs : List A) (x : A) (ys : List A) → (xs ++ x ∷ []) ++ ys ≡ xs ++ x ∷ ys
  append_one [] x ys = refl
  append_one (z ∷ xs) x ys = ap (λ l. z ∷ l) (append_one xs x ys)

  pub length-remove_at :
      (xs : List A) (i : ℕ) {x : A}
      → get_elem? xs i ≡ some x
      → length (remove_at xs i) + 1 ≡ length xs
  length-remove_at [] i e = ground arith
  length-remove_at (x ∷ xs) zero e = omega arith
  length-remove_at (x ∷ xs) (suc i) e = omega (arith, length-remove_at xs i e)

  pub length-take_le : (n : ℕ) (xs : List A) → length (take n xs) ≤ n
  length-take_le zero xs = omega arith
  length-take_le (suc n) [] = omega arith
  length-take_le (suc n) (x ∷ xs) = omega (arith, length-take_le n xs)

-- Membership of a text, as a test.
abbrev pub contains : List String → String → Bool
contains [] target = false
contains (x ∷ xs) target = if x == target then true else contains xs target

-- The texts other than one, in order.
abbrev pub without : String → List String → List String
without target [] = []
without target (x ∷ xs) = if x == target then without target xs else x ∷ without target xs

abbrev pub IsNodup : List String → Type 0
IsNodup [] = Unit
IsNodup (x ∷ xs) = (contains xs x ≡ false) × IsNodup xs

pub contains-append :
    (xs : List String) (y x : String)
    → contains (xs ++ y ∷ []) x ≡ (if contains xs x then true else y == x)
contains-append [] y x = ground arith
contains-append (z ∷ xs) y x = ground (arith, contains-append xs y x)

pub contains-without :
    (xs : List String) (y x : String)
    → contains (without y xs) x ≡ (if y == x then false else contains xs x)
contains-without [] y x = ground arith
contains-without (z ∷ xs) y x =
    ground (arith, contains-without xs y x, eq_iff z y, eq_iff z x, eq_iff y x)

pub IsNodup-append :
    (xs : List String) (y : String) → contains xs y ≡ false → IsNodup xs → IsNodup (xs ++ y ∷ [])
IsNodup-append [] y h n = (refl, tt)
IsNodup-append (x ∷ xs) y h n =
    ground (arith, contains-append xs y x, IsNodup-append xs y, eq_iff x y, eq_iff y x)

pub IsNodup-without : (xs : List String) (y : String) → IsNodup xs → IsNodup (without y xs)
IsNodup-without [] y n = tt
IsNodup-without (x ∷ xs) y n = ground (arith, contains-without xs y x, IsNodup-without xs y n.1)

pub get_elem?-contains :
    (xs : List String) (i : ℕ) {x : String} → get_elem? xs i ≡ some x → contains xs x ≡ true
get_elem?-contains [] i e = ground arith
get_elem?-contains (y ∷ xs) zero {x} e = ground (arith, eq_iff y x)
get_elem?-contains (y ∷ xs) (suc i) {x} e = ground (arith, get_elem?-contains xs i e)

pub without_absent : (xs : List String) (x : String) → contains xs x ≡ false → xs ≡ without x xs
without_absent [] x h = refl
without_absent (y ∷ xs) x h = ground (arith, without_absent xs x)

-- Removing by position is removing by value, where values do not repeat.
pub remove_at-without :
    (xs : List String) (i : ℕ) {x : String}
    → get_elem? xs i ≡ some x
    → IsNodup xs
    → remove_at xs i ≡ without x xs
remove_at-without [] i e n = refl
remove_at-without (y ∷ xs) zero {x} e n = ground (arith, eq_iff y x, without_absent xs x)
remove_at-without (y ∷ xs) (suc i) {x} e n =
    ground (arith, eq_iff y x, remove_at-without xs i e n.1, get_elem?-contains xs i e)
