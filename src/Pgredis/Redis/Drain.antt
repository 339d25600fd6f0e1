-- ===== src/Pgredis/Redis/Drain.antt =====
-- The loop of drainAssignments ends, where no responder who is present fits a queued request.
use deeperseek.Core.State.{session_among}
use deeperseek.Core.Types.{Time, Request}
use deeperseek.Pgredis.Redis.{
  Redis, Cluster, is_present, is_compatible, min_fresh, is_fresh, enqueue_request, release_lock,
  add_available, publish_assignment, pair_up, remove_first, assign_next, handle_pair, drain,
  drain_assignments, is_assignable, set_assigned,
}
use deeperseek.Pgredis.Redis.Oldest.{IsUseless}
use deeperseek.Pgredis.Redis.Scan.{Exhausted, Pairing, assign_next-Outcome}
use deeperseek.Pgredis.Tables.{update_row_if}
use deeperseek.Prelude.{
  ℕ, zero, suc, ◌+◌, ◌≤◌, ◌<◌, String, Bool, true, Option, none, some, List, [], ◌∷◌, ◌++◌, length,
  lookup, contains, keep, without, ◌≡◌, refl, sym, subst, ap, ◌∙◌, inl, inr, arith, Bool-cases,
  Option-cases, length-append,
}

-- No responder of the list is present and fits a queued request.
abbrev pub IsSettled : Time → Redis → Type 0
IsSettled now r = IsUseless (min_fresh now) r r.available

abbrev waiting : Redis → ℕ
waiting r = length r.available + length r.queue

length-keep_le : (p : String → Bool) (xs : List String) → length (keep p xs) ≤ length xs
length-keep_le p [] = omega arith
length-keep_le p (x ∷ xs) = ground (arith, length-keep_le p xs)

length-without_le : (x : String) (xs : List String) → length (without x xs) ≤ length xs
length-without_le x [] = omega arith
length-without_le x (y ∷ xs) = ground (arith, length-without_le x xs)

contains-keep :
    (p : String → Bool) (xs : List String) (x : String)
    → contains (keep p xs) x ≡ true
    → contains xs x ≡ true
contains-keep p [] x h = ground arith
contains-keep p (y ∷ xs) x h = ground (arith, contains-keep p xs x)

-- A script that finds nothing leaves a settled list.
Exhausted-IsSettled :
    (now : Time) (r : Redis) (o : Exhausted (min_fresh now) [] r.available r)
    → IsSettled now (record o.redis { available = keep (is_present (min_fresh now) r) r.available })
unfolding is_present is_compatible
Exhausted-IsSettled now r o sid h here id q =
    let seen = sym (ap (λ m. is_fresh (min_fresh now) (lookup sid m)) o.alike.presence) ∙ here in
    o.alike.fits sid id seen
    ∙ o.useless sid (contains-keep (is_present (min_fresh now) r) r.available sid h) seen id
        (sym (ap (λ l. contains l id) o.alike.queue) ∙ q)

publish_assignment-lists :
    (sid : String) (row : Option Request) (r : Redis)
    → waiting (publish_assignment sid row r) ≡ waiting r
unfolding publish_assignment
publish_assignment-lists sid none r = refl
publish_assignment-lists sid (some row) r = refl

-- A pair takes two entries out, and what becomes of it brings back one at most.
handle_pair-shorter :
    (now : Time) (id sid : String) (c : Cluster)
    → waiting (handle_pair now id sid c).redis ≤ waiting c.redis + 1
unfolding handle_pair enqueue_request release_lock add_available publish_assignment
handle_pair-shorter now id sid c = elim (Option-cases (session_among sid c.db.sessions)) [
  | inl gone ↦ rw (gone, handle_pair) (omega (arith, length-append c.redis.queue (id ∷ [])))
  | inr (session, known) ↦
      elim (Bool-cases (update_row_if id (is_assignable sid) (set_assigned session now) c.db).0) [
        | inl done ↦
            rw (known, handle_pair)
              (rw (done, handle_pair)
                (omega (
                  arith,
                  publish_assignment-lists sid
                      (lookup id
                        (update_row_if id (is_assignable sid) (set_assigned session now)
                          c.db).1.requests)
                      c.redis,
                )))
        | inr refused ↦
            rw (known, handle_pair)
              (rw (refused, handle_pair)
                (omega (
                  arith,
                  length-append (without sid c.redis.available) (sid ∷ []),
                  length-without_le sid c.redis.available,
                )))
      ]
]

pair_up-shorter :
    (now : Time) (r : Redis) (id sid : String) (p : Pairing (min_fresh now) [] r.available r id sid)
    → waiting (pair_up id sid (keep (is_present (min_fresh now) r) p.passed ++ p.rest) p.redis) + 2
      ≤ waiting r
unfolding pair_up
pair_up-shorter now r id sid p =
    let fresh = min_fresh now in
    let taken =
      ap (λ q. length (remove_first id q)) p.alike.queue
      ∙ ap length p.oldest.left
      ∙ length-append p.oldest.before p.oldest.after in
    omega (
      arith,
      taken,
      ap length p.split,
      ap length p.oldest.split,
      length-append p.passed (sid ∷ p.rest),
      length-append p.oldest.before (id ∷ p.oldest.after),
      length-append (keep (is_present fresh r) p.passed) p.rest,
      length-keep_le (is_present fresh r) p.passed,
    )

-- A round of the loop, from what the script returns.
abbrev drain_with : ℕ → Time → Cluster → Option (String × String) × Redis → Option Cluster
drain_with fuel now c (pair, redis) = elim pair [
  | none ↦ some (record c { redis = redis })
  | some (id, sid) ↦ drain fuel now (handle_pair now id sid (record c { redis = redis }))
]

-- A rule for the loop: what each pair keeps holds at the end, where the list is settled.
pub drain-keeps {ℓ} :
    (P : Cluster → Type ℓ) (now : Time)
    → ((c : Cluster)
        → P c
        → (o : Exhausted (min_fresh now) [] c.redis.available c.redis)
        → P (record c { redis = (assign_next now c.redis).1 }))
    → ((c : Cluster) (id sid : String)
        → P c
        → Pairing (min_fresh now) [] c.redis.available c.redis id sid
        → P (handle_pair now id sid (record c { redis = (assign_next now c.redis).1 })))
    → (fuel : ℕ) (c : Cluster) → waiting c.redis < fuel
    → P c
    → (c' : Cluster) × (drain fuel now c ≡ some c') × P c' × IsSettled now c'.redis
unfolding drain assign_next
drain-keeps P now stop step zero c h p = elim h [ ]
drain-keeps P now stop step (suc fuel) c h p = elim (assign_next-Outcome now c.redis) [
  | inl o ↦
      let r' = record o.redis {
        available = keep (is_present (min_fresh now) c.redis) c.redis.available;
      } in
      (
        record c { redis = r' },
        ap (drain_with fuel now c) o.result,
        subst (λ x. P (record c { redis = x })) (ap (λ y. y.1) o.result) (stop c p o),
        Exhausted-IsSettled now c.redis o,
      )
  | inr (id, sid, o) ↦
      let r' =
        pair_up id sid (keep (is_present (min_fresh now) c.redis) o.passed ++ o.rest) o.redis in
      let c₁ = handle_pair now id sid (record c { redis = r' }) in
      let shorter : waiting c₁.redis < fuel = omega (
        arith,
        handle_pair-shorter now id sid (record c { redis = r' }),
        pair_up-shorter now c.redis id sid o,
      ) in
      let kept =
        subst (λ x. P (handle_pair now id sid (record c { redis = x }))) (ap (λ y. y.1) o.result)
          (step c id sid p o) in
      let (c', run, p', settled) = drain-keeps P now stop step fuel c₁ shorter kept in
      (c', ap (drain_with fuel now c) o.result ∙ run, p', settled)
]

-- What every pair keeps, drainAssignments keeps.
pub drain_assignments-keeps {ℓ} :
    (P : Cluster → Type ℓ) (now : Time)
    → ((c : Cluster)
        → P c
        → (o : Exhausted (min_fresh now) [] c.redis.available c.redis)
        → P (record c { redis = (assign_next now c.redis).1 }))
    → ((c : Cluster) (id sid : String)
        → P c
        → Pairing (min_fresh now) [] c.redis.available c.redis id sid
        → P (handle_pair now id sid (record c { redis = (assign_next now c.redis).1 })))
    → (c : Cluster) → P c
    → (c' : Cluster) × (drain_assignments now c ≡ some c') × P c' × IsSettled now c'.redis
unfolding drain_assignments
drain_assignments-keeps P now stop step c p =
    drain-keeps P now stop step (suc (waiting c.redis)) c (omega arith) p

-- From every state the loop of drainAssignments ends, and it leaves no queued request that fits a
-- listed responder who is present.
pub drain_assignments-IsSettled :
    (now : Time) (c : Cluster)
    → (c' : Cluster) × (drain_assignments now c ≡ some c') × IsSettled now c'.redis
drain_assignments-IsSettled now c =
    let (c', run, _, settled) =
      drain_assignments-keeps (λ _. Unit {0}) now (λ c p o. p) (λ c id sid p o. p) c tt in
    (c', run, settled)
