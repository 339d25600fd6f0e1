-- ===== src/Prelude/Maps.antt =====
-- Go's maps with string keys, as association lists.
use Prim.Native.Nat.{ℕ, ◌+◌}
use Prim.Native.String.{String}
use mathlib.Core.Path.{◌≡◌, refl}
use mathlib.Core.Logic.{◌≢◌}
use mathlib.Core.List.{List, [], ◌∷◌}
use mathlib.Core.Option.{Option, none, some, get_or}
use native.Mathlib.Omega.{arith}
use text.Mathlib.TextEquality.{eq_iff}
use deeperseek.Prelude.Tests.{◌==◌, if◌then◌else◌}

abbrev pub Dict {ℓ} : Type ℓ → Type ℓ
Dict V = List (String × V)

module _ {ℓ} {V : Type ℓ} where
  -- `delete(m, key)`: every entry of the key goes.
  unfoldable pub delete : String → Dict V → Dict V
  delete key [] = []
  delete key ((name, held) ∷ rest) =
      if name == key then delete key rest else (name, held) ∷ delete key rest

  -- `m[key] = value`: in place of the first entry of the key, or behind the last entry.
  unfoldable pub insert : String → V → Dict V → Dict V
  insert key value [] = (key, value) ∷ []
  insert key value ((name, held) ∷ rest) =
      if name == key then (key, value) ∷ rest else (name, held) ∷ insert key value rest

  -- `value, ok := m[key]`
  unfoldable pub lookup : String → Dict V → Option V
  lookup key [] = none
  lookup key ((name, held) ∷ rest) = if name == key then some held else lookup key rest

  -- `m[key]` with the zero value for a missing key.
  abbrev pub at : V → String → Dict V → V
  at zero_value key entries = get_or (lookup key entries) zero_value

  pub lookup-delete :
      (key asked : String) (entries : Dict V)
      → lookup asked (delete key entries) ≡ (if key == asked then none else lookup asked entries)
  unfolding lookup delete
  lookup-delete key asked [] = ground arith
  lookup-delete key asked ((name, held) ∷ rest) =
      ground
        (arith, lookup-delete key asked rest, eq_iff name key, eq_iff name asked, eq_iff key asked)

  pub lookup-insert :
      (key asked : String) (value : V) (entries : Dict V)
      → lookup asked (insert key value entries)
        ≡ (if key == asked then some value else lookup asked entries)
  unfolding lookup insert
  lookup-insert key asked value [] = refl
  lookup-insert key asked value ((name, held) ∷ rest) = ground (
    arith,
    lookup-insert key asked value rest,
    eq_iff name key,
    eq_iff name asked,
    eq_iff key asked,
  )

  pub lookup-insert_self :
      (key : String) (value : V) (entries : Dict V)
      → lookup key (insert key value entries) ≡ some value
  lookup-insert_self key value entries =
      ground (arith, lookup-insert key key value entries, eq_iff key key)

  pub lookup-insert_ne :
      (key asked : String) (value : V) (entries : Dict V)
      → key ≢ asked
      → lookup asked (insert key value entries) ≡ lookup asked entries
  lookup-insert_ne key asked value entries other =
      ground (arith, lookup-insert key asked value entries, eq_iff key asked)

  pub lookup-delete_self :
      (key : String) (entries : Dict V) → lookup key (delete key entries) ≡ none
  lookup-delete_self key entries = ground (arith, lookup-delete key key entries, eq_iff key key)

  pub lookup-delete_ne :
      (key asked : String) (entries : Dict V)
      → key ≢ asked
      → lookup asked (delete key entries) ≡ lookup asked entries
  lookup-delete_ne key asked entries other =
      ground (arith, lookup-delete key asked entries, eq_iff key asked)

  -- The sum of a number that each value has, over the whole map.
  unfoldable pub total : (V → ℕ) → Dict V → ℕ
  total f [] = 0
  total f ((k, v) ∷ m) = f v + total f m

  abbrev pub weigh : (V → ℕ) → Option V → ℕ
  weigh f none = 0
  weigh f (some v) = f v

  pub total-insert :
      (f : V → ℕ) (k : String) (v : V) (m : Dict V)
      → total f (insert k v m) + weigh f (lookup k m) ≡ total f m + f v
  unfolding total insert lookup
  total-insert f k v [] = omega arith
  total-insert f k v ((j, w) ∷ m) = ground (arith, total-insert f k v m)

pub ruleset dict_laws = (lookup-insert, lookup-delete)
