-- ===== src/Pgredis/Arrivals.antt =====
-- backend/internal/pgredis/lifecycle.go: MarkResponderAvailable and ResumeResponder, over the tables and
-- the keys of Redis.
pub mod Kept
pub mod Served
use deeperseek.Core.State.{Result, ok, err, responder_unavailable}
use deeperseek.Core.Types.{Time}
use deeperseek.Pgredis.Redis.{
  Redis, Cluster, heartbeat, add_available, is_present, min_fresh, drain_assignments,
}
use deeperseek.Pgredis.Tables.{active_row}
use deeperseek.Prelude.{String, Bool, true, false, Option, none, some, insert, if◌then◌else◌}

unfoldable pub set_accept_ai : String → Bool → Redis → Redis
set_accept_ai session accept r = record r { accept_ai = insert session accept r.accept_ai }

abbrev pub with_redis : Cluster → Redis → Cluster
with_redis c r = record c { redis = r }

-- `connected` tells whether this instance has the connection of the responder. The second result is
-- `none` when the fuel of the drain is spent.
unfoldable pub mark_responder_available :
    String → Option Bool → Bool → Time → Cluster → Result (Unit {0}) × Option Cluster
mark_responder_available session accept false now c = (err responder_unavailable, some c)
mark_responder_available session accept true now c =
    let r = set_accept_ai session (elim accept [ none ↦ true | some b ↦ b ]) c.redis in
    elim (active_row session c.db.requests) [
      | some _ ↦ (ok tt, some (with_redis c r))
      | none ↦ (
        ok tt,
        drain_assignments now (with_redis c (add_available session (heartbeat now session r))),
      )
    ]

unfoldable pub resume_responder : String → Time → Cluster → Result (Unit {0}) × Option Cluster
resume_responder session now c = elim (active_row session c.db.requests) [
  | some _ ↦ (ok tt, some c)
  | none ↦
      if is_present (min_fresh now) c.redis session
      then (ok tt, drain_assignments now (with_redis c (add_available session c.redis)))
      else (err responder_unavailable, some c)
]
