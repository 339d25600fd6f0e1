-- ===== src/Pgredis/Arrivals/Served.antt =====
-- A responder that comes, or comes back, is served.
use deeperseek.Core.State.{Result, ok, session_among}
use deeperseek.Core.Types.{Time, Session}
use deeperseek.Pgredis.Arrivals.{
  set_accept_ai, with_redis, mark_responder_available, resume_responder,
}
use deeperseek.Pgredis.Redis.{
  Redis, unix_milli, is_fresh, Cluster, preferred_of, heartbeat, add_available, is_present,
  min_fresh,
}
use deeperseek.Pgredis.Redis.Tracked.{IsTracked}
use deeperseek.Pgredis.Arrivals.Kept.{IsKept, session_among-id, drain_assignments-IsKept}
use deeperseek.Pgredis.Redis.Tracking.{IsServed}
use deeperseek.Pgredis.Tables.{active_row}
use deeperseek.Prelude.{
  contains, without, contains-append, eq_iff, arith, inl, ap, ◌∙◌, lookup-insert_self, String, Bool,
  true, Option, none, some, ◌≡◌, refl,
}

-- An operation that returned without an error: no queued request waits for a listed responder, and this
-- responder is present, and listed or given a request.
abbrev pub EndsServed : String → Time → Result (Unit {0}) × Option Cluster → Type 0
EndsServed session now run =
    (run.0 ≡ ok tt)
    × ((c' : Cluster) × (run.1 ≡ some c') × IsTracked c' × IsServed now c' × IsKept session now c')

listed-IsTracked :
    (session : String) (c : Cluster)
    → IsTracked c
    → IsTracked (with_redis c (add_available session c.redis))
unfolding add_available preferred_of
listed-IsTracked session c t id row here q =
    let w = t id row here q in record { waits = w.waits; routed = w.routed }

prepared-IsTracked :
    (session : String) (accept : Bool) (now : Time) (c : Cluster)
    → IsTracked c
    → IsTracked (with_redis c (heartbeat now session (set_accept_ai session accept c.redis)))
unfolding heartbeat set_accept_ai preferred_of
prepared-IsTracked session accept now c t id row here q =
    let w = t id row here q in record { waits = w.waits; routed = w.routed }

listed :
    (session : String) (r : Redis) → contains (add_available session r).available session ≡ true
unfolding add_available
listed session r =
    ground
      (arith, contains-append (without session r.available) session session, eq_iff session session)

-- A heartbeat of this moment is fresh.
beats :
    (session : String) (accept : Bool) (now : Time) (r : Redis)
    → is_present (min_fresh now) (heartbeat now session (set_accept_ai session accept r)) session
      ≡ true
unfolding is_present heartbeat set_accept_ai min_fresh
beats session accept now r =
    ap (is_fresh (min_fresh now)) (lookup-insert_self session (unix_milli now) r.presence)
    ∙ ground arith

-- When each request that the tables have as queued is in the queue of Redis and routed as its row
-- says, and a responder that is known, is connected and holds no request marks itself available: the
-- call succeeds, this holds again, every request that is still queued fits no listed responder who is
-- present, and the responder is present, and is listed or has been assigned a request.
pub mark_responder_available-EndsServed :
    (session : String) (accept : Option Bool) (now : Time) (c : Cluster) {x : Session}
    → IsTracked c
    → session_among session c.db.sessions ≡ some x
    → active_row session c.db.requests ≡ none
    → EndsServed session now (mark_responder_available session accept true now c)
unfolding mark_responder_available
mark_responder_available-EndsServed session accept now c {x} t known idle =
    let wish : Bool = elim accept [ none ↦ true | some b ↦ b ] in
    let c₁ = with_redis c (heartbeat now session (set_accept_ai session wish c.redis)) in
    let done =
      drain_assignments-IsKept session now (with_redis c₁ (add_available session c₁.redis))
        (listed-IsTracked session c₁ (prepared-IsTracked session wish now c t))
        (record {
          known = (x, known, session_among-id session c.db.sessions known);
          present = unfold add_available is_present in beats session wish now c.redis;
          place = inl (listed session c₁.redis);
        }) in
    rw (idle, mark_responder_available) (refl, done)

-- When each request that the tables have as queued is in the queue of Redis and routed as its row
-- says, and a responder who is known, is present and holds no request resumes: the call succeeds, this
-- holds again, every request that is still queued fits no listed responder who is present, and the
-- responder is present, and is listed or has been assigned a request.
pub resume_responder-EndsServed :
    (session : String) (now : Time) (c : Cluster) {x : Session}
    → IsTracked c
    → session_among session c.db.sessions ≡ some x
    → active_row session c.db.requests ≡ none
    → is_present (min_fresh now) c.redis session ≡ true
    → EndsServed session now (resume_responder session now c)
unfolding resume_responder
resume_responder-EndsServed session now c {x} t known idle here =
    let done =
      drain_assignments-IsKept session now (with_redis c (add_available session c.redis))
        (listed-IsTracked session c t)
        (record {
          known = (x, known, session_among-id session c.db.sessions known);
          present = unfold add_available is_present in here;
          place = inl (listed session c.redis);
        }) in
    rw (idle, resume_responder) (rw (here, resume_responder) (refl, done))
