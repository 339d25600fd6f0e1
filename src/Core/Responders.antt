-- ===== src/Core/Responders.antt =====
-- backend/internal/core/service.go: what a responder does. Each operation gives its result and the
-- state that it leaves; those that look for assignments may end in a panic (`none` of
-- `try_assign_locked`).
pub mod Answers
pub mod Keys
use deeperseek.Core.Lifecycle.{requeue_locked, abandon_locked, complete_locked, publish_locked}
use deeperseek.Core.Matching.{is_persona, try_assign_locked}
use deeperseek.Core.State.{
  Service, Result, ok, err, panic, unauthorized, responder_unavailable, request_not_found,
  no_active_assignment, already_completed, output_too_large, cannot_skip_committed,
  client_seq_not_positive, fragment_text_required, finish_before_fragment, new_id, is_terminal,
  put_request, fragments_of, active_request, answer_text_locked, add_ledger_locked,
  remove_available_locked, is_unset,
}
use deeperseek.Core.Types.{
  Time, Request, streaming, FinishReason, stop, partial, Fragment, fragment, StreamEvent,
  question_charge,
}
use deeperseek.Prelude.{
  ◌+◌, String, count, ◌<>◌, Bool, true, false, not, ◌||◌, Option, none, some, [], ◌∷◌, ◌++◌, ℤ, pos,
  negsuc, lookup, insert, delete, at, decimal, contains, ltb, leb, if◌then◌else◌, is_empty,
}

-- A new channel replaces an older one of the same session.
unfoldable pub register_responder : String → Service → Result String × Service
register_responder token s = elim (lookup token s.sessions_by_tok) [
  | none ↦ (err unauthorized, s)
  | some session ↦ (ok session.id, record s { responders = insert session.id [] s.responders })
]

-- What happens to the request that a leaving responder holds.
unfoldable pub release_on_disconnect : String → Time → Service → Service
release_on_disconnect id now s = elim (lookup id s.requests) [
  | none ↦ s
  | some r ↦
      if is_terminal r.status
      then s
      else if is_empty (fragments_of s id)
      then (if is_unset r.preferred_responder_session_id
          then requeue_locked r now s
          else abandon_locked r now s)
      else complete_locked r partial now s
]

unfoldable pub unregister_responder : String → Time → Service → Service
unfolding remove_available_locked
unregister_responder session now s =
    let s₁ = remove_available_locked session (record s {
      responders = delete session s.responders;
      accept_ai = delete session s.accept_ai;
    }) in
    let id = active_request s₁ session in
    if is_unset id then s₁ else release_on_disconnect id now s₁

abbrev pub assigned_or_panic : Option Service → Service → Result (Unit {0}) × Service
assigned_or_panic none s = (err panic, s)
assigned_or_panic (some s') s = (ok tt, s')

-- `if !contains(s.available, sessionID) { ... }` and the search for assignments.
unfoldable pub make_available : String → Time → Service → Result (Unit {0}) × Service
make_available session now s =
    if not (is_unset (active_request s session))
    then (ok tt, s)
    else (let s₁ = record s {
      available = if contains s.available session then s.available else s.available ++ session ∷ [];
    } in
        assigned_or_panic (try_assign_locked now s₁) s₁)

unfoldable pub mark_responder_available :
    String → Option Bool → Time → Service → Result (Unit {0}) × Service
mark_responder_available session accept now s = elim (lookup session s.responders) [
  | none ↦ (err responder_unavailable, s)
  | some _ ↦
      let flag = elim accept as (λ _. Bool) [ none ↦ true | some b ↦ b ] in
      make_available session now (record s { accept_ai = insert session flag s.accept_ai })
]

unfoldable pub resume_responder : String → Time → Service → Result (Unit {0}) × Service
resume_responder session now s = elim (lookup session s.responders) [
  | none ↦ (err responder_unavailable, s)
  | some _ ↦ make_available session now s
]

-- `clientSeq <= 0`
unfoldable pub not_positive : ℤ → Bool
not_positive (negsuc n) = true
not_positive (pos n) = leb n 0

-- `fmt.Sprintf("%s:%d", sessionID, clientSeq)`
unfoldable pub seq_key : String → ℤ → String
seq_key session seq = (session <> ":") <> decimal seq

-- The first fragment turns the frozen points into a charge.
unfoldable pub charge_question : Request → Time → Service → Request × Service
unfolding add_ledger_locked
charge_question r now s = if r.question_charged then (r, s) else (
  record r { question_charged = true; frozen_points = 0 },
  if r.requester_guest
      then s
      else add_ledger_locked r.requester_id r.id question_charge (negsuc 4) now s,
)

-- The fragment, kept under its key and behind those before it.
unfoldable pub store_fragment :
    String → String → String → ℤ → String → Time → Service → Fragment × Service
unfolding new_id
store_fragment session id key seq text now s =
    let (fragment_id, s₁) = new_id "frg" s in
    let f : Fragment = record {
      id = fragment_id;
      request_id = id;
      responder_session_id = session;
      client_seq = seq;
      text = text;
      created_at = now;
    } in
    (
      f,
      record s₁ {
        seq_seen = insert id (insert key f (at [] id s₁.seq_seen)) s₁.seq_seen;
        fragments = insert id (fragments_of s₁ id ++ f ∷ []) s₁.fragments;
      },
    )

-- The request is charged and streaming.
unfoldable pub stream_request : Request → Time → Service → Request × Service
unfolding put_request charge_question
stream_request r now s =
    let (charged, s') = charge_question r now s in
    let r' = record charged { status = streaming; updated_at = now } in (r', put_request r' s')

unfoldable pub complete_if_full : Request → String → Time → Service → Service
complete_if_full r id now s =
    if leb r.output_limit (count (answer_text_locked s id))
    then complete_locked r FinishReason.length now s
    else s

abbrev pub fragment_event : String → String → StreamEvent
fragment_event id text = record {
  type = fragment;
  request_id = id;
  text = text;
  finish_reason = FinishReason.unset;
}

-- The fragment is stored, charged and published, and a full answer is completed.
unfoldable pub commit_fragment :
    String
    → String
    → String
    → ℤ
    → String
    → Request
    → Time
    → Service
    → Result (Fragment × Bool) × Service
commit_fragment session id key seq text r now s =
    let (f, s₁) = store_fragment session id key seq text now s in
    let (r', s₂) = stream_request r now s₁ in
    (ok (f, false), complete_if_full r' id now (publish_locked (fragment_event id text) s₂))

-- The checks on the request that the responder holds.
unfoldable pub submit_to :
    String → String → ℤ → String → Request → Time → Service → Result (Fragment × Bool) × Service
submit_to session id seq text r now s =
    if is_terminal r.status
    then (err already_completed, s)
    else elim (lookup (seq_key session seq) (at [] id s.seq_seen)) [
      | some existing ↦ (ok (existing, true), s)
      | none ↦
          if ltb r.output_limit (count (answer_text_locked s id) + count text)
          then (err output_too_large, s)
          else commit_fragment session id (seq_key session seq) seq text r now s
    ]

unfoldable pub submit_fragment :
    String → ℤ → String → Time → Service → Result (Fragment × Bool) × Service
submit_fragment session seq text now s =
    if not_positive seq
    then (err client_seq_not_positive, s)
    else if is_unset text
    then (err fragment_text_required, s)
    else if is_unset (active_request s session)
    then (err no_active_assignment, s)
    else elim (lookup (active_request s session) s.requests) [
      | none ↦ (err request_not_found, s)
      | some r ↦ submit_to session (active_request s session) seq text r now s
    ]

unfoldable pub finish : String → Time → Service → Result (Unit {0}) × Service
finish session now s =
    if is_unset (active_request s session)
    then (err no_active_assignment, s)
    else elim (lookup (active_request s session) s.requests) [
      | none ↦ (err request_not_found, s)
      | some r ↦
          if is_empty (fragments_of s (active_request s session))
          then (err finish_before_fragment, s)
          else (ok tt, complete_locked r stop now s)
    ]

-- The clock is read once for the requeue and once for the search.
unfoldable pub skip : String → Time → Time → Service → Result (Unit {0}) × Service
skip session now later s =
    if is_unset (active_request s session)
    then (err no_active_assignment, s)
    else elim (lookup (active_request s session) s.requests) [
      | none ↦ (err request_not_found, s)
      | some r ↦
          if not (is_empty (fragments_of s (active_request s session)))
          then (err cannot_skip_committed, s)
          else if not (is_unset r.preferred_responder_session_id) || is_persona r.requester_kind
          then (ok tt, abandon_locked r now s)
          else (let s₁ = requeue_locked r now s in
              assigned_or_panic (try_assign_locked later s₁) s₁)
    ]
