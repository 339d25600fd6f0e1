-- ===== src/Pgredis/Creation.antt =====
-- backend/internal/pgredis/lifecycle.go and requests_read.go: what a requester does, as transactions.
-- The column question_category, which only the board reads, is left out.
use deeperseek.Core.Matching.{is_persona, assignment_of}
use deeperseek.Core.Points.{ledger_total, zero_balance}
use deeperseek.Core.Reactions.{reward_for, is_known, is_requester, is_too_late, is_zero}
use deeperseek.Core.Requests.{effective_limit, cannot_pay, fresh_request}
use deeperseek.Core.State.{
  Result, ok, err, unauthorized, insufficient_points, responder_unavailable, request_not_found,
  reaction_not_allowed, invalid_reaction, is_terminal, is_unset, kind_or_human, validate_input,
}
use deeperseek.Core.Types.{
  Time, Message, Session, Request, RequestStatus, queued, assigned, fallback, stop, Reaction,
  Balance, AssignedRequest, reaction_adjustment, question_cost,
}
use deeperseek.Pgredis.Tables.{Db, FragmentRow, new_id, update_row, is_open, rows_of, add_ledger_tx}
use deeperseek.Pgredis.Transactions.{
  Effect, Outcome, set_abandoned, sets_routing, enqueues, drains, removes_queued, releases_lock,
  clears_routing, publishes_done,
}
use deeperseek.Prelude.{
  ℕ, ◌+◌, String, ◌<>◌, Bool, true, false, not, ◌&&◌, ◌||◌, Option, none, some, List, [], ◌∷◌, ℤ,
  pos, ◌-ℤ◌, Dict, lookup, insert, ◌==◌, ltb, if◌then◌else◌, is_empty,
}

-- `SUM(frozen_points) ... WHERE requester_id = $1 AND frozen_points > 0 AND <not terminal>`
unfoldable pub held_points : String → Dict Request → ℕ
held_points user [] = 0
held_points user ((id, r) ∷ rows) =
    (if r.requester_id == user && ltb 0 r.frozen_points && is_open r then r.frozen_points else 0)
    + held_points user rows

unfoldable pub balance : Db → String → Balance
balance d user =
    let points = ledger_total user d.ledger in
    let held = held_points user d.requests in
    record { total = points; held = held; available = points -ℤ pos held }

-- The INSERT, and the routing and queueing that follow the commit.
unfoldable pub insert_request :
    Session → String → List Message → ℕ → ℕ → Bool → String → Time → Db → Outcome Request
unfolding new_id
insert_request session model messages limit frozen allow_ai preferred now d =
    let (id, d') = new_id "req" d in
    let r = fresh_request id session model messages limit frozen allow_ai preferred now in
    (
      ok r,
      record d' { requests = insert id r d'.requests },
      sets_routing id (kind_or_human session.kind) allow_ai preferred ∷ enqueues id ∷ drains ∷ [],
    )

unfoldable pub create_request_for :
    Session → String → List Message → ℕ → Bool → String → Time → Db → Outcome Request
create_request_for session model messages limit allow_ai preferred now d =
    if not (is_unset preferred) && not (is_persona (kind_or_human session.kind))
    then (err unauthorized, d, [])
    else if session.guest
    then insert_request session model messages limit 0 allow_ai preferred now d
    else if cannot_pay (balance d session.user_id).available
    then (err insufficient_points, d, [])
    else insert_request session model messages limit question_cost allow_ai preferred now d

-- The private `createRequest`.
unfoldable pub create_request_with :
    String → String → List Message → ℤ → Bool → String → Time → Db → Outcome Request
create_request_with token model messages max_output allow_ai preferred now d =
    elim (validate_input messages) [
      | some e ↦ (err e, d, [])
      | none ↦ elim (lookup token d.sessions) [
        | none ↦ (err unauthorized, d, [])
        | some session ↦
            create_request_for session model messages (effective_limit max_output) allow_ai
              preferred now d
      ]
    ]

unfoldable pub create_request :
    String → String → List Message → ℤ → Option Bool → Time → Db → Outcome Request
create_request token model messages max_output allow_ai now d =
    create_request_with token model messages max_output (elim allow_ai [ none ↦ true | some b ↦ b ])
      "" now d

unfoldable pub create_targeted_request :
    String → String → List Message → ℤ → String → Time → Db → Outcome Request
create_targeted_request token model messages max_output preferred now d =
    if is_unset preferred
    then (err responder_unavailable, d, [])
    else create_request_with token model messages max_output false preferred now d

abbrev pub is_queued : RequestStatus → Bool
is_queued queued = true
is_queued RequestStatus.created = false
is_queued assigned = false
is_queued RequestStatus.typing = false
is_queued RequestStatus.streaming = false
is_queued RequestStatus.completed = false
is_queued RequestStatus.timeout_completed = false
is_queued RequestStatus.requeued = false
is_queued RequestStatus.abandoned = false

abbrev pub set_fallback : String → Time → Request → Request
set_fallback session now r = record r {
  status = assigned;
  responder_session_id = session;
  responder_user_id = "";
  responder_guest = true;
  responder_kind = fallback;
  responder_display = "回退助手";
  updated_at = now;
}

unfoldable pub acquire_fallback_assignment :
    String → Time → Db → Option (String × AssignedRequest) × Db × List Effect
acquire_fallback_assignment id now d = elim (lookup id d.requests) [
  | none ↦ (none, d, [])
  | some r ↦
      if not (is_unset r.preferred_responder_session_id)
        || not r.allow_ai_answers
        || not (is_queued r.status)
        || not (is_empty (rows_of r.id d.fragments))
      then (none, d, [])
      else (
        some ("fallback_" <> id, assignment_of r),
        update_row r.id (set_fallback ("fallback_" <> id) now) d,
        removes_queued r.id ∷ [],
      )
]

unfoldable pub cancel_before_first_fragment : String → Time → Db → Bool × Db × List Effect
cancel_before_first_fragment id now d = elim (lookup id d.requests) [
  | none ↦ (false, d, [])
  | some r ↦
      if is_terminal r.status || not (is_empty (rows_of r.id d.fragments))
      then (false, d, [])
      else (
        true,
        update_row r.id (set_abandoned now) d,
        removes_queued r.id
            ∷ releases_lock r.id
            ∷ clears_routing r.id
            ∷ publishes_done r.id stop
            ∷ [],
      )
]

abbrev pub set_reaction : Reaction → Request → Request
set_reaction reaction r = record r { reaction = reaction }

unfoldable pub apply_reaction : Session → Request → Reaction → Time → Db → Balance × Db
apply_reaction session r reaction now d =
    let d₁ = update_row r.id (set_reaction reaction) d in
    if r.responder_guest || is_unset r.responder_user_id
    then (if session.guest then zero_balance else balance d₁ session.user_id, d₁)
    else (let delta = pos (reward_for reaction) -ℤ pos (reward_for r.reaction) in
        let d₂ =
          if is_zero delta
          then d₁
          else add_ledger_tx r.responder_user_id r.id reaction_adjustment delta now d₁ in
        (if session.guest then zero_balance else balance d₂ r.responder_user_id, d₂))

-- The clock is read once.
unfoldable pub react : String → String → Reaction → Time → Db → Result Balance × Db
react token id reaction now d =
    if not (is_known reaction) then (err invalid_reaction, d) else elim (lookup token d.sessions) [
      | none ↦ (err unauthorized, d)
      | some session ↦ elim (lookup id d.requests) [
        | none ↦ (err request_not_found, d)
        | some r ↦
            if not (is_requester session r) || not (is_terminal r.status)
            then (err reaction_not_allowed, d)
            else if is_too_late now r
            then (err reaction_not_allowed, d)
            else (let (b, d') = apply_reaction session r reaction now d in (ok b, d'))
      ]
    ]

-- `string_agg(text, '' ORDER BY ordinal)`: the rows in the order of their ordinals, then their texts.
unfoldable pub by_ordinal : FragmentRow → List FragmentRow → List FragmentRow
by_ordinal row [] = row ∷ []
by_ordinal row (x ∷ rows) =
    let rest = by_ordinal row rows in if ltb x.ordinal row.ordinal then x ∷ rest else row ∷ x ∷ rows

unfoldable pub ordered : List FragmentRow → List FragmentRow
ordered [] = []
ordered (row ∷ rows) = by_ordinal row (ordered rows)

unfoldable pub joined_text : List FragmentRow → String
joined_text [] = ""
joined_text (row ∷ rows) = row.fragment.text <> joined_text rows

unfoldable pub answer_text : Db → String → String
answer_text d id = joined_text (ordered (rows_of id d.fragments))

unfoldable pub request_snapshot : String → Db → Result (Request × String)
request_snapshot id d = elim (lookup id d.requests) [
  | none ↦ err request_not_found
  | some r ↦ ok (r, answer_text d id)
]

unfoldable pub fallback_still_wanted : String → Db → Bool
fallback_still_wanted id d = elim (lookup id d.requests) as (λ _. Bool) [
  | none ↦ false
  | some r ↦ r.allow_ai_answers && not (is_terminal r.status) && is_empty (rows_of id d.fragments)
]
