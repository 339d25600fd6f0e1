-- ===== src/Pgredis/Departures.antt =====
-- backend/internal/pgredis/lifecycle.go: UnregisterResponder, as a transaction and what it does in Redis
-- before. Ending the goroutines of the connection is left out.
pub mod Law
use deeperseek.Core.State.{ok, is_terminal, is_unset}
use deeperseek.Core.Types.{Time, Request, stop, partial}
use deeperseek.Pgredis.Redis.{Redis, drop_presence, remove_available, forget}
use deeperseek.Pgredis.Tables.{Db, active_row, rows_of}
use deeperseek.Pgredis.Transactions.{
  Outcome, complete_request_tx, requeue_request_tx, abandon_request_tx, releases_lock,
  clears_routing, publishes_done, enqueues, drains,
}
use deeperseek.Prelude.{String, Option, none, some, List, [], ◌∷◌, lookup, is_empty, if◌then◌else◌}

-- The heartbeat score, the place in the list and the two hashes of a responder that leaves.
unfoldable pub leave : String → Redis → Redis
leave session r = forget session (remove_available session (drop_presence session r))

-- What becomes of the request that it held.
unfoldable pub release_request : Request → Time → Db → Outcome (Unit {0})
release_request r now d =
    if is_terminal r.status
    then (ok tt, d, [])
    else if is_empty (rows_of r.id d.fragments)
    then (if is_unset r.preferred_responder_session_id
        then (
          ok tt,
          requeue_request_tx r.id now d,
          releases_lock r.id ∷ enqueues r.id ∷ drains ∷ [],
        )
        else (
          ok tt,
          abandon_request_tx r.id now d,
          releases_lock r.id ∷ clears_routing r.id ∷ publishes_done r.id stop ∷ drains ∷ [],
        ))
    else (
      ok tt,
      complete_request_tx r partial now d,
      releases_lock r.id ∷ publishes_done r.id partial ∷ clears_routing r.id ∷ drains ∷ [],
    )

-- It returns nothing. The row is read again, and locked, before it changes.
unfoldable pub unregister_responder : String → Time → Db → Outcome (Unit {0})
unregister_responder session now d = elim (active_row session d.requests) [
  | none ↦ (ok tt, d, [])
  | some found ↦ elim (lookup found.id d.requests) [
    | none ↦ (ok tt, d, [])
    | some r ↦ release_request r now d
  ]
]
