-- ===== src/Pgredis/Redis/Passing.antt =====
-- What the script may do to the keys as it passes a responder: it changes nothing for the others.
use deeperseek.Pgredis.Redis.{Redis, is_present, is_compatible, forget, preferred_of}
use deeperseek.Pgredis.Redis.Oldest.{IsIdle, IsUseless, Oldest}
use deeperseek.Prelude.{
  ℕ, String, true, false, List, ◌∷◌, ◌==◌, ◌≡◌, refl, sym, subst, ap, ◌∙◌, ◌≢◌, inl, inr, arith,
  eq_iff, Bool-cases, lookup-delete_ne,
}

-- What the script does to the keys as it passes stale responders: nothing that a responder who is
-- present can see.
pub record Alike (fresh : ℕ) (r r' : Redis) : Type 0 where
  pub queue : r'.queue ≡ r.queue
  pub routing : r'.routing ≡ r.routing
  pub presence : r'.presence ≡ r.presence
  pub inbox : r'.inbox ≡ r.inbox
  pub locks : r'.locks ≡ r.locks
  pub fits :
      (sid id : String)
      → is_present fresh r sid ≡ true
      → is_compatible r' sid id ≡ is_compatible r sid id

pub Alike-refl : (fresh : ℕ) (r : Redis) → Alike fresh r r
Alike-refl fresh r = record {
  queue = refl;
  routing = refl;
  presence = refl;
  inbox = refl;
  locks = refl;
  fits = λ sid id p. refl;
}

pub forget-fits :
    (sid x id : String) (r : Redis)
    → sid ≢ x
    → is_compatible (forget sid r) x id ≡ is_compatible r x id
unfolding is_compatible forget preferred_of
forget-fits sid x id r other =
    rw (lookup-delete_ne sid x r.accept_ai other, lookup-delete_ne sid x r.kinds other) refl

pub stale-other :
    (fresh : ℕ) (r : Redis) (sid x : String)
    → is_present fresh r sid ≡ false
    → is_present fresh r x ≡ true
    → sid ≢ x
stale-other fresh r sid x stale here p = ground (arith, stale, here, ap (is_present fresh r) p)

pub Alike-forget :
    (fresh : ℕ) (r r' : Redis) (sid : String)
    → is_present fresh r sid ≡ false
    → Alike fresh (forget sid r) r'
    → Alike fresh r r'
unfolding forget is_present
Alike-forget fresh r r' sid stale a = record {
  queue = a.queue;
  routing = a.routing;
  presence = a.presence;
  inbox = a.inbox;
  locks = a.locks;
  fits =
      λ x id here. a.fits x id here ∙ forget-fits sid x id r (stale-other fresh r sid x stale here);
}

pub Oldest-forget :
    (r : Redis) (sid x id : String) (ids : List String)
    → sid ≢ x
    → Oldest (forget sid r) x id ids
    → Oldest r x id ids
Oldest-forget r sid x id ids other o = record {
  before = o.before;
  after = o.after;
  split = o.split;
  fits = sym (forget-fits sid x id r other) ∙ o.fits;
  older = λ y h. sym (forget-fits sid x y r other) ∙ o.older y h;
  left = o.left;
}

pub IsUseless-forget :
    (fresh : ℕ) (r : Redis) (sid : String) (sids : List String)
    → is_present fresh r sid ≡ false
    → IsUseless fresh (forget sid r) sids
    → IsUseless fresh r (sid ∷ sids)
unfolding forget is_present
IsUseless-forget fresh r sid sids stale u x h here id q =
    let other : sid ≢ x = stale-other fresh r sid x stale here in
    sym (forget-fits sid x id r other) ∙ u x (ground (arith, h, eq_iff sid x)) here id q

pub IsUseless-present :
    (fresh : ℕ) (r : Redis) (sid : String) (sids : List String)
    → IsIdle r sid r.queue
    → IsUseless fresh r sids
    → IsUseless fresh r (sid ∷ sids)
IsUseless-present fresh r sid sids idle u x h here id q = elim (Bool-cases (sid == x)) [
  | inl p ↦ subst (λ y. is_compatible r y id ≡ false) ((eq_iff sid x).0 p) (idle id q)
  | inr p ↦ u x (ground (arith, p)) here id q
]
