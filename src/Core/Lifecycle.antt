-- ===== src/Core/Lifecycle.antt =====
-- backend/internal/core/service.go: `publishLocked`, `requeueLocked`, `abandonLocked` and
-- `completeLocked`, through which a request leaves a responder.
pub mod Invariant
pub mod Steps
use deeperseek.Core.Types.{
  Time, Request, queued, abandoned, completed, timeout_completed, FinishReason, partial, stop, Kind,
  StreamEvent, done, answer_reward, base_answer_reward,
}
use deeperseek.Core.State.{
  Service, Subscriber, put_request, is_terminal, add_ledger_locked, fragments_of, stream_capacity,
  remove_queued_request_locked, is_unset,
}
use deeperseek.Prelude.{
  Bool, true, false, not, ◌&&◌, none, some, [], ◌∷◌, ◌++◌, map, pos, lookup, insert, delete, length,
  ltb, if◌then◌else◌, is_empty,
}

-- `select { case ch <- event: default: }`: a full channel drops the event.
unfoldable pub offer : StreamEvent → Subscriber → Subscriber
offer e c =
    if ltb (length c.buffer) stream_capacity then record c { buffer = c.buffer ++ e ∷ [] } else c

unfoldable pub publish_locked : StreamEvent → Service → Service
publish_locked e s = elim (lookup e.request_id s.subscribers) [
  | none ↦ s
  | some chans ↦ record s { subscribers = insert e.request_id (map (offer e) chans) s.subscribers }
]

-- The responder's fields of a request, emptied.
abbrev pub unassigned : Request → Request
unassigned r = record r {
  responder_session_id = "";
  responder_user_id = "";
  responder_guest = false;
  responder_kind = Kind.unset;
  responder_display = "";
}

abbrev pub done_event : Request → FinishReason → StreamEvent
done_event r reason = record { type = done; request_id = r.id; text = ""; finish_reason = reason }

unfoldable pub requeue_locked : Request → Time → Service → Service
unfolding put_request
requeue_locked r now s =
    let s' = put_request (record (unassigned r) { status = queued; updated_at = now }) s in
    record s' {
      active_by_res = delete r.responder_session_id s'.active_by_res;
      queue = s'.queue ++ r.id ∷ [];
    }

unfoldable pub abandon_locked : Request → Time → Service → Service
unfolding put_request remove_queued_request_locked
abandon_locked r now s =
    let s₁ = remove_queued_request_locked r.id s in
    let s₂ = record s₁ {
      active_by_res =
          if is_unset r.responder_session_id
          then s₁.active_by_res
          else delete r.responder_session_id s₁.active_by_res;
    } in
    let s₃ =
      put_request
        (record (unassigned r) { status = abandoned; frozen_points = 0; updated_at = now }) s₂ in
    publish_locked (done_event r stop) s₃

abbrev pub is_partial : FinishReason → Bool
is_partial partial = true
is_partial FinishReason.unset = false
is_partial stop = false
is_partial FinishReason.length = false

-- Whether completing an answer pays its responder.
abbrev pub earns_reward : Service → Request → Bool
earns_reward s r =
    not (is_empty (fragments_of s r.id))
    && not r.responder_guest
    && not (is_unset r.responder_user_id)

unfoldable pub pay_responder : Request → Time → Service → Service
unfolding add_ledger_locked
pay_responder r now s =
    if earns_reward s r
    then add_ledger_locked r.responder_user_id r.id answer_reward (pos base_answer_reward) now s
    else s

abbrev pub completed_request : FinishReason → Time → Request → Request
completed_request reason now r = record r {
  status = if is_partial reason then timeout_completed else completed;
  finish_reason = reason;
  updated_at = now;
  completed_at = now;
}

unfoldable pub complete_locked : Request → FinishReason → Time → Service → Service
unfolding put_request
complete_locked r reason now s =
    if is_terminal r.status
    then s
    else publish_locked (done_event r reason) (
        pay_responder r now (
          put_request (completed_request reason now r)
            (record s { active_by_res = delete r.responder_session_id s.active_by_res })))
