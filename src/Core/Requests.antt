-- ===== src/Core/Requests.antt =====
-- backend/internal/core/service.go: what a requester does. Each operation gives its result and the
-- state that it leaves.
use deeperseek.Core.Lifecycle.{abandon_locked}
use deeperseek.Core.Matching.{is_persona, try_assign_locked, assignment_of}
use deeperseek.Core.Points.{balance_locked}
use deeperseek.Core.State.{
  Service, Result, ok, err, panic, unauthorized, insufficient_points, responder_unavailable,
  request_not_found, new_id, kind_or_human, is_terminal, put_request, fragments_of,
  answer_text_locked, validate_input, remove_queued_request_locked, is_unset,
}
use deeperseek.Core.Types.{
  Time, Message, Session, Request, RequestStatus, queued, assigned, Kind, fallback, FinishReason,
  neutral, StreamEvent, fragment, done, AssignedRequest, question_cost, output_limit_chars,
}
use deeperseek.Prelude.{
  ℕ, suc, String, ◌<>◌, Bool, true, false, not, ◌&&◌, ◌||◌, Option, none, some, List, [], ◌∷◌, ◌++◌,
  ℤ, pos, negsuc, lookup, insert, at, ltb, leb, if◌then◌else◌, is_empty,
}

-- `if maxOutputChars <= 0 || maxOutputChars > OutputLimitChars { maxOutputChars = OutputLimitChars }`
unfoldable pub effective_limit : ℤ → ℕ
effective_limit (negsuc n) = output_limit_chars
effective_limit (pos n) = if leb n 0 || ltb output_limit_chars n then output_limit_chars else n

-- `balance.Available < QuestionCost`
unfoldable pub cannot_pay : ℤ → Bool
cannot_pay (negsuc n) = true
cannot_pay (pos n) = ltb n question_cost

abbrev pub fresh_request :
    String → Session → String → List Message → ℕ → ℕ → Bool → String → Time → Request
fresh_request id session model messages limit frozen allow_ai preferred now = record {
  id = id;
  requester_id = session.user_id;
  requester_session_id = session.id;
  requester_guest = session.guest;
  requester_kind = kind_or_human session.kind;
  allow_ai_answers = allow_ai;
  messages = messages;
  model = model;
  status = queued;
  responder_session_id = "";
  responder_user_id = "";
  responder_guest = false;
  responder_kind = Kind.unset;
  responder_display = "";
  preferred_responder_session_id = preferred;
  board_eligible = session.guest && not (is_persona session.kind);
  frozen_points = frozen;
  question_charged = false;
  output_limit = limit;
  finish_reason = FinishReason.unset;
  reaction = neutral;
  created_at = now;
  updated_at = now;
  completed_at = 0;
}

-- The request as it stands after the assignment: what `cloneRequest` copies.
unfoldable pub after_assignment :
    String → Request → Option Service → Service → Result Request × Service
after_assignment id r none s = (err panic, s)
after_assignment id r (some s') s =
    (ok (elim (lookup id s'.requests) [ none ↦ r | some x ↦ x ]), s')

unfoldable pub enqueue_request :
    Session
    → String
    → List Message
    → ℕ
    → ℕ
    → Bool
    → String
    → Time
    → Service
    → Result Request × Service
unfolding new_id put_request after_assignment
enqueue_request session model messages limit frozen allow_ai preferred now s =
    let (id, s₁) = new_id "req" s in
    let r = fresh_request id session model messages limit frozen allow_ai preferred now in
    let s₂ = put_request r s₁ in
    let s₃ = record s₂ { queue = s₂.queue ++ id ∷ [] } in
    after_assignment id r (try_assign_locked now s₃) s₃

unfoldable pub create_request_for :
    Session → String → List Message → ℕ → Bool → String → Time → Service → Result Request × Service
create_request_for session model messages limit allow_ai preferred now s =
    if not (is_unset preferred) && not (is_persona (kind_or_human session.kind))
    then (err unauthorized, s)
    else if session.guest
    then enqueue_request session model messages limit 0 allow_ai preferred now s
    else if cannot_pay (balance_locked s session.user_id).available
    then (err insufficient_points, s)
    else enqueue_request session model messages limit question_cost allow_ai preferred now s

-- The private `createRequest`.
unfoldable pub create_request_with :
    String → String → List Message → ℤ → Bool → String → Time → Service → Result Request × Service
create_request_with token model messages max_output allow_ai preferred now s =
    elim (validate_input messages) [
      | some e ↦ (err e, s)
      | none ↦ elim (lookup token s.sessions_by_tok) [
        | none ↦ (err unauthorized, s)
        | some session ↦
            create_request_for session model messages (effective_limit max_output) allow_ai
              preferred now s
      ]
    ]

-- A variadic flag that is left out is true.
unfoldable pub create_request :
    String → String → List Message → ℤ → Option Bool → Time → Service → Result Request × Service
create_request token model messages max_output allow_ai now s =
    create_request_with token model messages max_output (elim allow_ai [ none ↦ true | some b ↦ b ])
      "" now s

unfoldable pub create_targeted_request :
    String → String → List Message → ℤ → String → Time → Service → Result Request × Service
create_targeted_request token model messages max_output preferred now s =
    if is_unset preferred
    then (err responder_unavailable, s)
    else create_request_with token model messages max_output false preferred now s

abbrev pub is_queued : RequestStatus → Bool
is_queued queued = true
is_queued RequestStatus.created = false
is_queued assigned = false
is_queued RequestStatus.typing = false
is_queued RequestStatus.streaming = false
is_queued RequestStatus.completed = false
is_queued RequestStatus.timeout_completed = false
is_queued RequestStatus.requeued = false
is_queued RequestStatus.abandoned = false

abbrev pub fallback_session : String → String
fallback_session id = "fallback_" <> id

unfoldable pub may_fall_back : Service → Request → Bool
may_fall_back s r =
    is_unset r.preferred_responder_session_id
    && r.allow_ai_answers
    && is_queued r.status
    && not (is_terminal r.status)
    && is_empty (fragments_of s r.id)

abbrev pub fallback_request : Time → Request → Request
fallback_request now r = record r {
  status = assigned;
  responder_session_id = fallback_session r.id;
  responder_user_id = "";
  responder_guest = true;
  responder_kind = fallback;
  responder_display = "回退助手";
  updated_at = now;
}

-- `none` for the result `("", AssignedRequest{}, false)`.
unfoldable pub acquire_fallback_assignment :
    String → Time → Service → Option (String × AssignedRequest) × Service
unfolding put_request remove_queued_request_locked
acquire_fallback_assignment id now s = elim (lookup id s.requests) [
  | none ↦ (none, s)
  | some r ↦
      if may_fall_back s r
      then (let s₁ = put_request (fallback_request now r) (remove_queued_request_locked id s) in
          (
            some (fallback_session id, assignment_of r),
            record s₁ { active_by_res = insert (fallback_session id) id s₁.active_by_res },
          ))
      else (none, s)
]

unfoldable pub cancel_before_first_fragment : String → Time → Service → Bool × Service
cancel_before_first_fragment id now s = elim (lookup id s.requests) [
  | none ↦ (false, s)
  | some r ↦
      if is_terminal r.status || not (is_empty (fragments_of s id))
      then (false, s)
      else (true, abandon_locked r now s)
]

abbrev pub first_events : Request → String → List StreamEvent
first_events r answer =
    (if is_unset answer
      then []
      else record {
        type = fragment;
        request_id = r.id;
        text = answer;
        finish_reason = FinishReason.unset;
      }
        ∷ [])
    ++ (if is_terminal r.status
        then record { type = done; request_id = r.id; text = ""; finish_reason = r.finish_reason }
          ∷ []
        else [])

-- The channel's number stands for the channel; its buffer holds what it is given at once.
unfoldable pub subscribe : String → Service → Result ℕ × Service
subscribe id s = elim (lookup id s.requests) [
  | none ↦ (err request_not_found, s)
  | some r ↦ (
    ok s.next_chan,
    record s {
      subscribers =
          insert id
            (at [] id s.subscribers
              ++ record { chan = s.next_chan; buffer = first_events r (answer_text_locked s id) }
                ∷ [])
            s.subscribers;
      next_chan = suc s.next_chan;
    },
  )
]

unfoldable pub request_snapshot : String → Service → Result (Request × String)
request_snapshot id s = elim (lookup id s.requests) [
  | none ↦ err request_not_found
  | some r ↦ ok (r, answer_text_locked s id)
]
