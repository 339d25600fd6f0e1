-- ===== src/Pgredis/Redis/Scan.antt =====
-- What the assignment script finds: the first responder that is present and fits, and its oldest request.
use mathlib.Core.List.{append-nil}
use deeperseek.Core.Types.{Time}
use deeperseek.Pgredis.Redis.{
  Redis, is_present, first_compatible, forget, pair_up, assign_from, min_fresh,
}
use deeperseek.Pgredis.Redis.Oldest.{
  IsUseless, Oldest, first_compatible-Oldest, first_compatible-IsIdle,
}
use deeperseek.Pgredis.Redis.Passing.{
  Alike, Alike-refl, Alike-forget, stale-other, IsUseless-forget, IsUseless-present, Oldest-forget,
}
use deeperseek.Prelude.{
  append_one, ℕ, String, true, false, none, some, List, [], ◌∷◌, ◌++◌, keep, ◌≡◌, refl, sym, ap,
  ◌∙◌, ◌⊎◌, inl, inr, arith, Bool-cases, Option-cases,
}

-- The script finds a pair: no responder before it is of use, and its request is the oldest that fits.
pub record Pairing (fresh : ℕ) (skipped sids : List String) (r : Redis) (id sid : String)
    : Type 0 where
  pub passed : List String
  pub rest : List String
  pub split : sids ≡ passed ++ sid ∷ rest
  pub useless : IsUseless fresh r passed
  pub present : is_present fresh r sid ≡ true
  pub oldest : Oldest r sid id r.queue
  pub redis : Redis
  pub alike : Alike fresh r redis
  pub result : assign_from fresh skipped sids r ≡ (
    some (id, sid),
    pair_up id sid (skipped ++ (keep (is_present fresh r) passed ++ rest)) redis,
  )

-- The script finds no pair: no responder is of use, and the stale ones are dropped.
pub record Exhausted (fresh : ℕ) (skipped sids : List String) (r : Redis) : Type 0 where
  pub useless : IsUseless fresh r sids
  pub redis : Redis
  pub alike : Alike fresh r redis
  pub result :
      assign_from fresh skipped sids r
      ≡ (none, record redis { available = skipped ++ keep (is_present fresh r) sids })

abbrev Outcome : ℕ → List String → List String → Redis → Type 0
Outcome fresh skipped sids r =
    Exhausted fresh skipped sids r
    ⊎ ((id : String) × (sid : String) × Pairing fresh skipped sids r id sid)

behind_stale :
    (fresh : ℕ) (skipped : List String) (sid : String) (sids : List String) (r : Redis)
    → is_present fresh r sid ≡ false
    → Outcome fresh skipped sids (forget sid r)
    → Outcome fresh skipped (sid ∷ sids) r
unfolding assign_from forget is_present
behind_stale fresh skipped sid sids r stale (inl o) =
    let none_here = IsUseless-forget fresh r sid sids stale o.useless in
    inl (record {
      useless = none_here;
      redis = o.redis;
      alike = Alike-forget fresh r o.redis sid stale o.alike;
      result = rw (stale, assign_from) o.result;
    })
behind_stale fresh skipped sid sids r stale (inr (id, x, p)) = inr (
  id,
  x,
  record {
    passed = sid ∷ p.passed;
    rest = p.rest;
    split = ap (λ l. sid ∷ l) p.split;
    useless = IsUseless-forget fresh r sid p.passed stale p.useless;
    present = p.present;
    oldest = Oldest-forget r sid x id r.queue (stale-other fresh r sid x stale p.present) p.oldest;
    redis = p.redis;
    alike = Alike-forget fresh r p.redis sid stale p.alike;
    result = rw (stale, assign_from) p.result;
  },
)

behind_idle :
    (fresh : ℕ) (skipped : List String) (sid : String) (sids : List String) (r : Redis)
    → is_present fresh r sid ≡ true
    → first_compatible r sid r.queue ≡ none
    → Outcome fresh (skipped ++ sid ∷ []) sids r
    → Outcome fresh skipped (sid ∷ sids) r
unfolding assign_from
behind_idle fresh skipped sid sids r here nothing (inl o) = inl (record {
  useless =
      IsUseless-present fresh r sid sids (first_compatible-IsIdle r sid r.queue nothing) o.useless;
  redis = o.redis;
  alike = o.alike;
  result =
      rw (here, assign_from)
        (rw (nothing, assign_from)
          (o.result
            ∙ ap (λ l. (none, record o.redis { available = l }))
                (append_one skipped sid (keep (is_present fresh r) sids))));
})
behind_idle fresh skipped sid sids r here nothing (inr (id, x, p)) = inr (
  id,
  x,
  record {
    passed = sid ∷ p.passed;
    rest = p.rest;
    split = ap (λ l. sid ∷ l) p.split;
    useless =
        IsUseless-present fresh r sid p.passed (first_compatible-IsIdle r sid r.queue nothing)
          p.useless;
    present = p.present;
    oldest = p.oldest;
    redis = p.redis;
    alike = p.alike;
    result =
        rw (here, assign_from)
          (rw (nothing, assign_from)
            (p.result
              ∙ ap (λ l. (some (id, x), pair_up id x l p.redis))
                  (append_one skipped sid (keep (is_present fresh r) p.passed ++ p.rest))));
  },
)

assign_from-Outcome :
    (fresh : ℕ) (skipped sids : List String) (r : Redis) → Outcome fresh skipped sids r
unfolding assign_from
assign_from-Outcome fresh skipped [] r = inl (record {
  useless = λ x h. ground arith;
  redis = r;
  alike = Alike-refl fresh r;
  result = ap (λ l. (none, record r { available = l })) (sym (append-nil skipped));
})
assign_from-Outcome fresh skipped (sid ∷ sids) r = elim (Bool-cases (is_present fresh r sid)) [
  | inr stale ↦
      behind_stale fresh skipped sid sids r stale
        (assign_from-Outcome fresh skipped sids (forget sid r))
  | inl here ↦ elim (Option-cases (first_compatible r sid r.queue)) [
    | inr (id, found) ↦ inr (
      id,
      sid,
      record {
        passed = [];
        rest = sids;
        split = refl;
        useless = λ x h. ground arith;
        present = here;
        oldest = first_compatible-Oldest r sid r.queue found;
        redis = r;
        alike = Alike-refl fresh r;
        result = rw (here, assign_from) (rw (found, assign_from) refl);
      },
    )
    | inl nothing ↦
        behind_idle fresh skipped sid sids r here nothing
          (assign_from-Outcome fresh (skipped ++ sid ∷ []) sids r)
  ]
]

-- The script either finds a responder that is present together with the oldest request that fits it,
-- where no responder who is present and before it in the list fits any queued request, and takes both
-- out; or no responder who is present fits any queued request, and the queue stays. Stale responders
-- that it passes are dropped from the list, and the others keep their places.
pub assign_next-Outcome :
    (now : Time) (r : Redis)
    → Exhausted (min_fresh now) [] r.available r
      ⊎ ((id : String) × (sid : String) × Pairing (min_fresh now) [] r.available r id sid)
assign_next-Outcome now r = assign_from-Outcome (min_fresh now) [] r.available r
