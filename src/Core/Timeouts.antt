-- ===== src/Core/Timeouts.antt =====
-- backend/internal/core/service.go: `SweepTimeouts`. Go ranges over a map in an order that it does
-- not fix: `order` is the order of one run, as a list of the ids.
use deeperseek.Core.Lifecycle.{requeue_locked, abandon_locked, complete_locked}
use deeperseek.Core.Matching.{is_streaming, try_assign_locked}
use deeperseek.Core.State.{Service, Result, ok, err, panic, is_terminal, fragments_of, is_unset}
use deeperseek.Core.Types.{Time, Request, RequestStatus, assigned, partial}
use deeperseek.Prelude.{
  ℕ, ◌-◌, String, ◌<>◌, Bool, true, false, not, ◌&&◌, Option, none, some, List, [], ◌∷◌, ◌++◌,
  lookup, ltb, leb, if◌then◌else◌, is_empty,
}

abbrev pub is_assigned : RequestStatus → Bool
is_assigned assigned = true
is_assigned RequestStatus.created = false
is_assigned RequestStatus.queued = false
is_assigned RequestStatus.typing = false
is_assigned RequestStatus.streaming = false
is_assigned RequestStatus.completed = false
is_assigned RequestStatus.timeout_completed = false
is_assigned RequestStatus.requeued = false
is_assigned RequestStatus.abandoned = false

-- `timeout > 0 && now.Sub(updated) >= timeout`
abbrev pub expired : Time → Time → ℕ → Bool
expired now updated timeout = ltb 0 timeout && leb timeout (now - updated)

-- One round of the loop: the state, and the line that it adds to the result.
unfoldable pub sweep_request : Time → ℕ → ℕ → Request → Service → List String × Service
sweep_request now assigned_limit streaming_limit r s =
    if is_terminal r.status
    then ([], s)
    else if is_assigned r.status
        && is_empty (fragments_of s r.id)
        && expired now r.updated_at assigned_limit
    then (if is_unset r.preferred_responder_session_id
        then ((r.id <> ":assigned_timeout_requeued") ∷ [], requeue_locked r now s)
        else ((r.id <> ":targeted_timeout_abandoned") ∷ [], abandon_locked r now s))
    else if is_streaming r.status
        && not (is_empty (fragments_of s r.id))
        && expired now r.updated_at streaming_limit
    then ((r.id <> ":streaming_timeout_completed") ∷ [], complete_locked r partial now s)
    else ([], s)

unfoldable pub sweep_id : Time → ℕ → ℕ → String → Service → List String × Service
sweep_id now assigned_limit streaming_limit id s = elim (lookup id s.requests) [
  | none ↦ ([], s)
  | some r ↦ sweep_request now assigned_limit streaming_limit r s
]

unfoldable pub sweep_all : List String → Time → ℕ → ℕ → Service → List String × Service
sweep_all [] now assigned_limit streaming_limit s = ([], s)
sweep_all (id ∷ order) now assigned_limit streaming_limit s =
    let (line, s₁) = sweep_id now assigned_limit streaming_limit id s in
    let (lines, s₂) = sweep_all order now assigned_limit streaming_limit s₁ in (line ++ lines, s₂)

abbrev swept : List String → Option Service → Service → Result (List String) × Service
swept lines none s = (err panic, s)
swept lines (some s') s = (ok lines, s')

unfoldable pub sweep_timeouts :
    List String → Time → ℕ → ℕ → Service → Result (List String) × Service
sweep_timeouts order now assigned_limit streaming_limit s =
    let (lines, s₁) = sweep_all order now assigned_limit streaming_limit s in
    if is_empty lines then (ok lines, s₁) else swept lines (try_assign_locked now s₁) s₁
