-- ===== src/Core/Matching.antt =====
-- backend/internal/core/service.go: `compatiblePairLocked` and `tryAssignLocked`, which hand queued
-- requests to available responders.
pub mod Oldest
pub mod Total
use deeperseek.Core.Lifecycle.{requeue_locked}
use deeperseek.Core.State.{
  Service, put_request, is_terminal, kind_or_human, session_by_id_locked, active_request,
  assignment_capacity, is_unset,
}
use deeperseek.Core.Types.{
  Time, Request, Session, RequestStatus, streaming, assigned, Kind, ai_persona, AssignedRequest,
}
use deeperseek.Prelude.{
  ℕ, zero, suc, String, Bool, true, false, not, ◌&&◌, ◌||◌, Option, none, some, List, [], ◌∷◌, ◌++◌,
  lookup, insert, at, length, get_elem?, remove_at, ◌==◌, ltb, if◌then◌else◌,
}

abbrev pub is_persona : Kind → Bool
is_persona ai_persona = true
is_persona Kind.unset = false
is_persona Kind.human = false
is_persona Kind.fallback = false

abbrev pub is_streaming : RequestStatus → Bool
is_streaming streaming = true
is_streaming RequestStatus.created = false
is_streaming RequestStatus.queued = false
is_streaming assigned = false
is_streaming RequestStatus.typing = false
is_streaming RequestStatus.completed = false
is_streaming RequestStatus.timeout_completed = false
is_streaming RequestStatus.requeued = false
is_streaming RequestStatus.abandoned = false

unfoldable pub responder_accepts_ai_locked : Service → String → Bool
responder_accepts_ai_locked s id = at true id s.accept_ai

abbrev has_channel : Option (List AssignedRequest) → Bool
has_channel none = false
has_channel (some _) = true

-- The tests of the inner loop: whether this responder, of this session, takes the request.
unfoldable pub takes : Service → Request → String → Option Session → Bool
unfolding responder_accepts_ai_locked
takes s r responder none = false
takes s r responder (some session) =
    let kind = kind_or_human session.kind in
    if not (is_unset (active_request s responder))
      || not (has_channel (lookup responder s.responders))
    then false
    else if not (is_unset r.preferred_responder_session_id)
        && not (r.preferred_responder_session_id == responder)
    then false
    else if is_persona kind && not r.allow_ai_answers
    then false
    else not (
        is_persona r.requester_kind
        && (is_persona kind || not (responder_accepts_ai_locked s responder)))

-- The inner loop: the position of the first responder that takes the request.
unfoldable pub first_responder : Service → Request → List String → Option ℕ
first_responder s r [] = none
first_responder s r (responder ∷ rest) =
    if takes s r responder (session_by_id_locked s responder)
    then some 0
    else elim (first_responder s r rest) [ none ↦ none | some i ↦ some (suc i) ]

-- The test of the outer loop, before a responder is looked for.
unfoldable pub is_waiting : Option Request → Option Request
is_waiting none = none
is_waiting (some r) = if is_terminal r.status || is_streaming r.status then none else some r

unfoldable pub responder_for : Service → String → Option ℕ
unfolding is_waiting
responder_for s id = elim (is_waiting (lookup id s.requests)) [
  | none ↦ none
  | some r ↦ first_responder s r s.available
]

unfoldable pub first_pair : Service → List String → Option (ℕ × ℕ)
first_pair s [] = none
first_pair s (id ∷ rest) = elim (responder_for s id) [
  | some j ↦ some (0, j)
  | none ↦ elim (first_pair s rest) [ none ↦ none | some (i, j) ↦ some (suc i, j) ]
]

-- `none` stands for the indices -1, -1.
unfoldable pub compatible_pair_locked : Service → Option (ℕ × ℕ)
compatible_pair_locked s = first_pair s s.queue

abbrev pub assignment_of : Request → AssignedRequest
assignment_of r = record {
  request_id = r.id;
  requester_kind = r.requester_kind;
  messages = r.messages;
  created_at = r.created_at;
}

-- The request with its new responder.
abbrev pub assigned_to : String → Session → Time → Request → Request
assigned_to responder session now r = record r {
  status = assigned;
  responder_session_id = responder;
  responder_guest = session.guest;
  responder_user_id = session.user_id;
  responder_kind = kind_or_human session.kind;
  responder_display = session.nickname;
  updated_at = now;
}

-- The body of the loop once everything is looked up: the assignment is recorded and sent, and a
-- full channel puts the request back.
unfoldable pub hand_out :
    Time → String → String → Request → List AssignedRequest → Session → Service → Service
unfolding put_request
hand_out now id responder r chan session s =
    let r' = assigned_to responder session now r in
    let s₁ = put_request r' s in
    let s₂ = record s₁ { active_by_res = insert responder id s₁.active_by_res } in
    if ltb (length chan) assignment_capacity
    then record s₂ { responders = insert responder (chan ++ assignment_of r ∷ []) s₂.responders }
    else requeue_locked r' now s₂

-- The lookups at the head of the body; `none` is a panic.
unfoldable pub assign_pair : Time → ℕ → ℕ → Service → Option Service
assign_pair now i j s = elim (get_elem? s.queue i) [
  | none ↦ none
  | some id ↦ elim (get_elem? s.available j) [
    | none ↦ none
    | some responder ↦
        let s₁ = record s { queue = remove_at s.queue i; available = remove_at s.available j } in
        elim (lookup id s.requests) [
          | none ↦ none
          | some r ↦ elim (lookup responder s.responders) [
            | none ↦ none
            | some chan ↦ elim (session_by_id_locked s responder) [
              | none ↦ none
              | some session ↦ some (hand_out now id responder r chan session s₁)
            ]
          ]
        ]
  ]
]

-- The loop, on fuel; `none` is a panic, or that the fuel ran out.
unfoldable pub assign_loop : ℕ → Time → Service → Option Service
assign_loop zero now s = none
assign_loop (suc fuel) now s = elim (compatible_pair_locked s) [
  | none ↦ some s
  | some (i, j) ↦ elim (assign_pair now i j s) [ none ↦ none | some s' ↦ assign_loop fuel now s' ]
]

-- Each round takes a responder off `available`.
unfoldable pub try_assign_locked : Time → Service → Option Service
try_assign_locked now s = assign_loop (suc (length s.available)) now s
