-- ===== src/Pgredis/Redis/Oldest.antt =====
-- The oldest request of the queue that fits a responder.
use deeperseek.Pgredis.Redis.{Redis, is_present, is_compatible, first_compatible, remove_first}
use deeperseek.Prelude.{
  ℕ, String, true, false, none, some, List, [], ◌∷◌, ◌++◌, contains, ◌==◌, ◌≡◌, sym, ap, ◌∙◌, ◌≢◌,
  inl, inr, arith, eq_iff, Bool-cases,
}

-- Nothing in a list of requests fits a responder.
abbrev pub IsIdle : Redis → String → List String → Type 0
IsIdle r sid ids = (id : String) → contains ids id ≡ true → is_compatible r sid id ≡ false

-- No responder of a list that is present has a request to answer.
abbrev pub IsUseless : ℕ → Redis → List String → Type 0
IsUseless fresh r sids =
    (sid : String) → contains sids sid ≡ true → is_present fresh r sid ≡ true → IsIdle r sid r.queue

-- The oldest request that fits a responder, and where it stands.
pub record Oldest (r : Redis) (sid id : String) (ids : List String) : Type 0 where
  pub before : List String
  pub after : List String
  pub split : ids ≡ before ++ id ∷ after
  pub fits : is_compatible r sid id ≡ true
  pub older : IsIdle r sid before
  pub left : remove_first id ids ≡ before ++ after

pub first_compatible-Oldest :
    (r : Redis) (sid : String) (ids : List String) {id : String}
    → first_compatible r sid ids ≡ some id
    → Oldest r sid id ids
unfolding first_compatible remove_first
first_compatible-Oldest r sid [] e = ground arith
first_compatible-Oldest r sid (x ∷ ids) {id} e = elim (Bool-cases (is_compatible r sid x)) [
  | inl fits ↦
      let same : x ≡ id = ground (arith, fits) in
      record {
        before = [];
        after = ids;
        split = ap (λ y. y ∷ ids) same;
        fits = ap (is_compatible r sid) (sym same) ∙ fits;
        older = λ y h. ground arith;
        left = ground (arith, eq_iff x id);
      }
  | inr misfit ↦
      let o = first_compatible-Oldest r sid ids (ground (arith, misfit)) in
      let other : x ≢ id = λ p. ground (arith, misfit, ap (is_compatible r sid) p, o.fits) in
      record {
        before = x ∷ o.before;
        after = o.after;
        split = ap (λ l. x ∷ l) o.split;
        fits = o.fits;
        older = λ y h. elim (Bool-cases (x == y)) [
          | inl p ↦ ap (is_compatible r sid) (sym ((eq_iff x y).0 p)) ∙ misfit
          | inr p ↦ o.older y (ground (arith, p))
        ];
        left = ground (arith, eq_iff x id, o.left);
      }
]

pub first_compatible-IsIdle :
    (r : Redis) (sid : String) (ids : List String)
    → first_compatible r sid ids ≡ none
    → IsIdle r sid ids
unfolding first_compatible
first_compatible-IsIdle r sid [] e id h = ground arith
first_compatible-IsIdle r sid (x ∷ ids) e id h = elim (Bool-cases (is_compatible r sid x)) [
  | inl fits ↦ ground (arith, fits)
  | inr misfit ↦ elim (Bool-cases (x == id)) [
    | inl p ↦ ap (is_compatible r sid) (sym ((eq_iff x id).0 p)) ∙ misfit
    | inr p ↦ first_compatible-IsIdle r sid ids (ground (arith, misfit)) id (ground (arith, p))
  ]
]
