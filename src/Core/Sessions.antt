-- ===== src/Core/Sessions.antt =====
-- The ids of sessions: they begin with "ses_", so none is empty or the session of a fallback.
use deeperseek.Core.State.{session_among}
use deeperseek.Core.Types.{Session}
use Prim.Native.Char.{code}
use text.Mathlib.TextLemmas.{cons-append}
use deeperseek.Prelude.{
  ℕ, ◌<◌, ap, String, ◌<>◌, some, [], ◌∷◌, Dict, insert, ◌≡◌, ◌≢◌, arith, eq_iff, ◌==◌, Bool-cases,
  inl, inr, sym, ◌∙◌,
}

abbrev pub IsSessionId : String → Type 0
IsSessionId id = (t : String) × (id ≡ (("ses" <> "_") <> t))

abbrev pub AreNamed : Dict Session → Type 0
AreNamed [] = Unit
AreNamed ((token, x) ∷ m) = IsSessionId x.id × AreNamed m

pub session_among-IsSessionId :
    (id : String) (m : Dict Session) {x : Session}
    → AreNamed m
    → session_among id m ≡ some x
    → IsSessionId id
unfolding session_among
session_among-IsSessionId id [] n e = cc
session_among-IsSessionId id ((token, y) ∷ m) {x} n e = elim (Bool-cases (y.id == id)) [
  | inl hit ↦ (n.0.0, sym ((eq_iff y.id id).0 hit) ∙ n.0.1)
  | inr miss ↦ session_among-IsSessionId id m {x = x} n.1 (ground arith)
]

pub insert-AreNamed :
    (token : String) (x : Session) (m : Dict Session)
    → IsSessionId x.id
    → AreNamed m
    → AreNamed (insert token x m)
unfolding insert
insert-AreNamed token x [] i n = (i, tt)
insert-AreNamed token x ((j, y) ∷ m) i n = elim (Bool-cases (j == token)) [
  | inl hit ↦ rw hit (i, n.1)
  | inr miss ↦ rw miss (n.0, insert-AreNamed token x m i n.1)
]

initial : String → ℕ
initial String.[] = 0
initial (String.◌∷◌ c s) = code c

initial-append : (s t : String) → 0 < initial s → initial (s <> t) ≡ initial s
unfolding initial
initial-append String.[] t h = absurd (omega arith)
initial-append (String.◌∷◌ c s) t h = rw cons-append

pub IsSessionId-ne-nil : {id : String} → IsSessionId id → id ≢ ""
unfolding initial
IsSessionId-ne-nil (t, e) p =
    omega (arith, ap initial (sym e ∙ p), initial-append "ses_" t (omega arith))

pub IsSessionId-ne-fallback : {id : String} (k : String) → IsSessionId id → id ≢ ("fallback_" <> k)
unfolding initial
IsSessionId-ne-fallback k (t, e) p = omega (
  arith,
  ap initial (sym e ∙ p),
  initial-append "ses_" t (omega arith),
  initial-append "fallback_" k (omega arith),
)
