-- ===== src/Pgredis/Arrivals/Kept.antt =====
-- A responder that is listed when requests are handed out stays listed, or is given one.
use deeperseek.Core.State.{session_among}
use deeperseek.Core.Types.{Time, Session, Request, assigned}
use deeperseek.Pgredis.Redis.Scan.{Exhausted, Pairing}
use deeperseek.Pgredis.Redis.Drain.{drain_assignments-keeps}
use deeperseek.Pgredis.Redis.Tracked.{IsTracked, contains-middle, stop-IsTracked, pair_up-Left}
use deeperseek.Pgredis.Redis.Tracking.{
  IsServed, assignable_or_not, handle_pair-refused, handle_pair-assigned, handle_pair-IsTracked,
}
use deeperseek.Pgredis.Redis.{
  Redis, Cluster, is_present, is_fresh, min_fresh, enqueue_request, release_lock, add_available,
  publish_assignment, pair_up, assign_next, handle_pair, drain_assignments, is_assignable,
  set_assigned,
}
use deeperseek.Prelude.{
  String, Bool, true, false, ◌||◌, some, List, [], ◌∷◌, ◌++◌, lookup, contains, without, keep, ◌≡◌,
  ◌≢◌, ◌⊎◌, refl, sym, subst, ap, ◌∙◌, inl, inr, arith, eq_iff, String-cases, Option-cases,
  contains-append, contains-without, lookup-insert_self, lookup-insert_ne,
}

-- The responder has a request that is assigned to it.
pub record Holding (session : String) (c : Cluster) : Type 0 where
  pub id : String
  pub row : Request
  pub here : lookup id c.db.requests ≡ some row
  pub holder : row.responder_session_id ≡ session
  pub status : row.status ≡ assigned

-- A known responder that is present and is in the list, or holds a request.
pub record IsKept (session : String) (now : Time) (c : Cluster) : Type 0 where
  pub known : (x : Session) × (session_among session c.db.sessions ≡ some x) × (x.id ≡ session)
  pub present : is_present (min_fresh now) c.redis session ≡ true
  pub place : (contains c.redis.available session ≡ true) ⊎ Holding session c

contains-both :
    (xs ys : List String) (x : String) → contains (xs ++ ys) x ≡ (contains xs x || contains ys x)
contains-both [] ys x = ground arith
contains-both (y ∷ xs) ys x = ground (arith, contains-both xs ys x)

contains-kept :
    (p : String → Bool) (xs : List String) (x : String)
    → p x ≡ true
    → contains (keep p xs) x ≡ contains xs x
contains-kept p [] x h = refl
contains-kept p (y ∷ xs) x h = ground (arith, contains-kept p xs x h, eq_iff y x, ap p)

-- The list that a pair leaves has every other responder that was in it and is present.
left_listed :
    (p : String → Bool) (passed : List String) (sid : String) (rest : List String) (x : String)
    → p x ≡ true
    → sid ≢ x
    → contains (passed ++ sid ∷ rest) x ≡ true
    → contains (keep p passed ++ rest) x ≡ true
left_listed p passed sid rest x h other listed = ground (
  arith,
  contains-middle passed sid rest x other,
  contains-both passed rest x,
  contains-both (keep p passed) rest x,
  contains-kept p passed x h,
  listed,
)

relisted :
    (sid x id : String) (r : Redis)
    → (sid ≡ x) ⊎ (contains r.available x ≡ true)
    → contains (add_available sid (release_lock id r)).available x ≡ true
unfolding add_available release_lock
relisted sid x id r h = ground (
  arith,
  contains-append (without sid r.available) sid x,
  contains-without r.available sid x,
  eq_iff sid x,
  h,
)

pub session_among-id :
    (id : String) (m : List (String × Session)) {x : Session}
    → session_among id m ≡ some x
    → x.id ≡ id
unfolding session_among
session_among-id id [] e = cc
session_among-id id ((token, y) ∷ m) {x} e = elim (String-cases y.id id) [
  | inl same ↦ ground (arith, eq_iff y.id id)
  | inr other ↦ session_among-id id m {x = x} (ground (arith, eq_iff y.id id))
]

stop-IsKept :
    (session : String) (now : Time) (c : Cluster)
    → IsKept session now c
    → (o : Exhausted (min_fresh now) [] c.redis.available c.redis)
    → IsKept session now (record c { redis = (assign_next now c.redis).1 })
unfolding assign_next is_present
stop-IsKept session now c k o =
    subst (λ x. IsKept session now (record c { redis = x })) (sym (ap (λ y. y.1) o.result))
      (record {
        known = k.known;
        present =
            ap (λ m. is_fresh (min_fresh now) (lookup session m)) o.alike.presence ∙ k.present;
        place = elim k.place [
          | inl listed ↦ inl (
              contains-kept (is_present (min_fresh now) c.redis) c.redis.available session k.present
              ∙ listed)
          | inr h ↦ inr (record {
            id = h.id;
            row = h.row;
            here = h.here;
            holder = h.holder;
            status = h.status;
          })
        ];
      })

not_assignable :
    (sid : String) (row : Request) → row.status ≡ assigned → is_assignable sid row ≡ false
unfolding is_assignable
not_assignable sid row e = rw e refl

handle_pair-IsKept :
    (session : String) (now : Time) (id sid : String) (c : Cluster) (r' : Redis)
    → IsKept session now c
    → is_present (min_fresh now) r' session ≡ true
    → ((sid ≡ session) ⊎ (contains r'.available session ≡ true)) ⊎ Holding session c
    → IsKept session now (handle_pair now id sid (record c { redis = r' }))
unfolding handle_pair enqueue_request release_lock add_available publish_assignment is_present
handle_pair-IsKept session now id sid c r' k present place =
    let c₀ = record c { redis = r' } in
    elim (Option-cases (session_among sid c.db.sessions)) [
      | inl gone ↦
          rw (gone, handle_pair)
            (record {
              known = k.known;
              present = present;
              place = elim place [
                | inl (inl same) ↦
                    let found =
                      sym gone ∙ ap (λ x. session_among x c.db.sessions) same ∙ k.known.1 in
                    cc
                | inl (inr listed) ↦ inl listed
                | inr h ↦ inr (record {
                  id = h.id;
                  row = h.row;
                  here = h.here;
                  holder = h.holder;
                  status = h.status;
                })
              ];
            })
      | inr (x, known) ↦ elim (assignable_or_not sid (lookup id c.db.requests)) [
        | inr refused ↦
            subst (IsKept session now) (sym (handle_pair-refused now id sid x c₀ known refused))
              (record {
                known = k.known;
                present = present;
                place = elim place [
                  | inl either ↦ inl (relisted sid session id r' either)
                  | inr h ↦ inr (record {
                    id = h.id;
                    row = h.row;
                    here = h.here;
                    holder = h.holder;
                    status = h.status;
                  })
                ];
              })
        | inl (row, here, assignable) ↦
            subst (IsKept session now)
              (sym (handle_pair-assigned now id sid x row c₀ known here assignable))
              (record {
                known = k.known;
                present = present;
                place = elim place [
                  | inl (inl same) ↦ inr (record {
                    id = id;
                    row = set_assigned x now row;
                    here = lookup-insert_self id (set_assigned x now row) c.db.requests;
                    holder = session_among-id sid c.db.sessions known ∙ same;
                    status = refl;
                  })
                  | inl (inr listed) ↦ inl listed
                  | inr h ↦ inr (record {
                    id = h.id;
                    row = h.row;
                    here =
                        lookup-insert_ne id h.id (set_assigned x now row) c.db.requests
                          (λ e. other_row h here assignable e)
                        ∙ h.here;
                    holder = h.holder;
                    status = h.status;
                  })
                ];
              })
      ]
    ]
  where
    other_row :
        (h : Holding session c) {row : Request}
        → lookup id c.db.requests ≡ some row
        → is_assignable sid row ≡ true
        → id ≡ h.id
        → ⊥
    other_row h {row} here assignable e =
        let same : some row ≡ some h.row = sym here ∙ ap (λ x. lookup x c.db.requests) e ∙ h.here in
        let busy = not_assignable sid h.row h.status in cc

step-IsKept :
    (session : String) (now : Time) (c : Cluster) (id sid : String)
    → IsKept session now c
    → (p : Pairing (min_fresh now) [] c.redis.available c.redis id sid)
    → IsKept session now (
        handle_pair now id sid (record c {
          redis =
              pair_up id sid (keep (is_present (min_fresh now) c.redis) p.passed ++ p.rest) p.redis;
        }))
unfolding pair_up is_present
step-IsKept session now c id sid k p =
    let fresh = is_present (min_fresh now) c.redis in
    handle_pair-IsKept session now id sid c (pair_up id sid (keep fresh p.passed ++ p.rest) p.redis)
      k (ap (λ m. is_fresh (min_fresh now) (lookup session m)) p.alike.presence ∙ k.present)
      (elim k.place [
        | inr h ↦ inr h
        | inl listed ↦ elim (String-cases sid session) [
          | inl same ↦ inl (inl same)
          | inr other ↦ inl (
              inr (
                left_listed fresh p.passed sid p.rest session k.present other
                  (ap (λ l. contains l session) (sym p.split) ∙ listed)))
        ]
      ])

-- Handing out requests keeps a responder, and what it keeps anyway.
pub drain_assignments-IsKept :
    (session : String) (now : Time) (c : Cluster)
    → IsTracked c
    → IsKept session now c
    → (c' : Cluster) × (drain_assignments now c ≡ some c')
      × IsTracked c'
      × IsServed now c'
      × IsKept session now c'
unfolding assign_next
drain_assignments-IsKept session now c t k =
    let (c', run, (t', k'), settled) =
      drain_assignments-keeps (λ x. IsTracked x × IsKept session now x) now
        (λ c p o. (stop-IsTracked now c p.0 o, stop-IsKept session now c p.1 o))
        (λ c id sid p o.
          subst
            (λ x.
              IsTracked (handle_pair now id sid (record c { redis = x }))
              × IsKept session now (handle_pair now id sid (record c { redis = x })))
            (sym (ap (λ y. y.1) o.result))
            (
              handle_pair-IsTracked now id sid c
                  (pair_up id sid (keep (is_present (min_fresh now) c.redis) o.passed ++ o.rest)
                    o.redis)
                  p.0
                  (pair_up-Left (min_fresh now) c.redis id sid
                    (keep (is_present (min_fresh now) c.redis) o.passed ++ o.rest) o)
                  o.oldest.fits,
              step-IsKept session now c id sid p.1 o,
            ))
        c (t, k) in
    (
      c',
      run,
      t',
      λ id row here q sid listed present. settled sid listed present id (t' id row here q).waits,
      k',
    )
