-- ===== src/Pgredis/Redis/Tracking.antt =====
-- The queue of Redis and the tables: a request that the tables have as queued is never lost.
use mathlib.Core.Option.{some_inj}
use deeperseek.Core.State.{session_among}
use deeperseek.Core.Types.{Time, Session, Request}
use deeperseek.Pgredis.Creation.{is_queued}
use deeperseek.Pgredis.Redis.{
  Redis, Cluster, is_compatible, is_present, min_fresh, release_lock, add_available,
  publish_assignment, pair_up, assign_next, handle_pair, drain_assignments, is_assignable,
  set_assigned,
}
use deeperseek.Pgredis.Redis.Drain.{drain_assignments-keeps}
use deeperseek.Pgredis.Redis.Tracked.{
  IsTracked, Left, stop-IsTracked, pair_up-Left, requeued-IsTracked, refused-IsTracked,
  assigned-IsTracked,
}
use deeperseek.Pgredis.Tables.{Db, update_row_if}
use deeperseek.Prelude.{
  String, Bool, true, false, Option, none, some, ◌++◌, lookup, insert, contains, keep, ◌≡◌, ◌⊎◌,
  refl, sym, subst, ap, inl, inr, arith, Bool-cases, Option-cases, lookup-insert_self,
}

untouched :
    (id : String) (test : Request → Bool) (set : Request → Request) (d : Db)
    → (lookup id d.requests ≡ none) ⊎ ((row : Request) × (lookup id d.requests ≡ some row))
    → ((row : Request) → lookup id d.requests ≡ some row → test row ≡ false)
    → update_row_if id test set d ≡ (false, d)
unfolding update_row_if
untouched id test set d (inl missing) refused = rw (missing, update_row_if) refl
untouched id test set d (inr (row, here)) refused =
    rw (here, update_row_if) (rw (refused row here, update_row_if) refl)

updated :
    (id : String) (test : Request → Bool) (set : Request → Request) (row : Request) (d : Db)
    → lookup id d.requests ≡ some row
    → test row ≡ true
    → update_row_if id test set d ≡ (true, record d { requests = insert id (set row) d.requests })
unfolding update_row_if
updated id test set row d here passes = rw (here, update_row_if) (rw (passes, update_row_if) refl)

pub assignable_or_not :
    (sid : String) (o : Option Request)
    → ((row : Request) × (o ≡ some row) × (is_assignable sid row ≡ true))
      ⊎ ((row : Request) → o ≡ some row → is_assignable sid row ≡ false)
assignable_or_not sid none = inr (λ row e. ground arith)
assignable_or_not sid (some row) = elim (Bool-cases (is_assignable sid row)) [
  | inl passes ↦ inl (row, refl, passes)
  | inr refused ↦ inr (λ other e. subst (λ x. is_assignable sid x ≡ false) (some_inj.0 e) refused)
]

-- A pair whose UPDATE has no effect goes back to the list, whatever the reason.
pub handle_pair-refused :
    (now : Time) (id sid : String) (session : Session) (c : Cluster)
    → session_among sid c.db.sessions ≡ some session
    → ((row : Request) → lookup id c.db.requests ≡ some row → is_assignable sid row ≡ false)
    → handle_pair now id sid c ≡ record c { redis = add_available sid (release_lock id c.redis) }
unfolding handle_pair
handle_pair-refused now id sid session c known refused =
    rw (known, handle_pair)
      (rw
        (
          untouched id (is_assignable sid) (set_assigned session now) c.db
              (Option-cases (lookup id c.db.requests)) refused,
          handle_pair,
        )
        refl)

pub handle_pair-assigned :
    (now : Time) (id sid : String) (session : Session) (row : Request) (c : Cluster)
    → session_among sid c.db.sessions ≡ some session
    → lookup id c.db.requests ≡ some row
    → is_assignable sid row ≡ true
    → handle_pair now id sid c ≡ record {
      db = record c.db { requests = insert id (set_assigned session now row) c.db.requests };
      redis = publish_assignment sid (some (set_assigned session now row)) c.redis;
    }
unfolding handle_pair
handle_pair-assigned now id sid session row c known here assignable =
    let row' = set_assigned session now row in
    rw (known, handle_pair)
      (rw
        (
          updated id (is_assignable sid) (set_assigned session now) row c.db here assignable,
          handle_pair,
        )
        (ap
          (λ o. record {
            db = record c.db { requests = insert id row' c.db.requests };
            redis = publish_assignment sid o c.redis;
          })
          (lookup-insert_self id row' c.db.requests)))

pub handle_pair-IsTracked :
    (now : Time) (id sid : String) (c : Cluster) (r' : Redis)
    → IsTracked c
    → Left c.redis r' id
    → is_compatible c.redis sid id ≡ true
    → IsTracked (handle_pair now id sid (record c { redis = r' }))
unfolding handle_pair
handle_pair-IsTracked now id sid c r' t l fits =
    let c₀ = record c { redis = r' } in
    elim (Option-cases (session_among sid c.db.sessions)) [
      | inl gone ↦ rw (gone, handle_pair) (requeued-IsTracked id c r' t l)
      | inr (session, known) ↦ elim (assignable_or_not sid (lookup id c.db.requests)) [
        | inl (row, here, assignable) ↦
            subst IsTracked
              (sym (handle_pair-assigned now id sid session row c₀ known here assignable))
              (assigned-IsTracked now id sid session row c r' t l)
        | inr refused ↦
            subst IsTracked (sym (handle_pair-refused now id sid session c₀ known refused))
              (refused-IsTracked id sid c r' t l fits refused)
      ]
    ]

-- Every request that the tables have as queued fits no responder of the list who is present.
abbrev pub IsServed : Time → Cluster → Type 0
IsServed now c =
    (id : String) (row : Request)
    → lookup id c.db.requests ≡ some row
    → is_queued row.status ≡ true
    → (sid : String) → contains c.redis.available sid ≡ true
    → is_present (min_fresh now) c.redis sid ≡ true
    → is_compatible c.redis sid id ≡ false

-- When each request that the tables have as queued is in the queue of Redis and routed as its row
-- says: drainAssignments ends, this holds again, and every request that is still queued in the tables
-- fits no listed responder who is present.
pub drain_assignments-IsTracked :
    (now : Time) (c : Cluster)
    → IsTracked c
    → (c' : Cluster) × (drain_assignments now c ≡ some c') × IsTracked c' × IsServed now c'
unfolding assign_next
drain_assignments-IsTracked now c t =
    let (c', run, t', settled) =
      drain_assignments-keeps IsTracked now (stop-IsTracked now)
        (λ c id sid t p.
          subst (λ x. IsTracked (handle_pair now id sid (record c { redis = x })))
            (sym (ap (λ y. y.1) p.result))
            (handle_pair-IsTracked now id sid c
              (pair_up id sid (keep (is_present (min_fresh now) c.redis) p.passed ++ p.rest)
                p.redis)
              t
              (pair_up-Left (min_fresh now) c.redis id sid
                (keep (is_present (min_fresh now) c.redis) p.passed ++ p.rest) p)
              p.oldest.fits))
        c t in
    (
      c',
      run,
      t',
      λ id row here q sid listed present. settled sid listed present id (t' id row here q).waits,
    )
