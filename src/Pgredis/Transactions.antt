-- ===== src/Pgredis/Transactions.antt =====
-- backend/internal/pgredis/lifecycle.go: what a responder does, as transactions. Each gives its result,
-- the tables that it leaves, and what it does in Redis after the commit.
use deeperseek.Core.State.{
  Result, ok, err, no_active_assignment, output_too_large, cannot_skip_committed,
  client_seq_not_positive, fragment_text_required, storage_failed, finish_before_fragment, is_unset,
}
use deeperseek.Core.Lifecycle.{is_partial}
use deeperseek.Core.Matching.{is_persona}
use deeperseek.Core.Responders.{not_positive}
use deeperseek.Core.Types.{
  Time, Request, queued, streaming, completed, timeout_completed, abandoned, Kind, FinishReason,
  stop, Fragment, question_charge, answer_reward, base_answer_reward,
}
use deeperseek.Pgredis.Tables.{
  column, has_nul, Db, new_id, active_row, update_row, update_row_if, is_open, rows_of, sum_length,
  max_ordinal, sent_as, insert_fragment, add_ledger_tx,
}
use deeperseek.Prelude.{
  ℕ, suc, ◌+◌, String, count, Bool, true, false, not, ◌&&◌, none, some, List, [], ◌∷◌, ℤ, pos,
  negsuc, ltb, leb, if◌then◌else◌, is_empty,
}

-- What is done in Redis, after the commit and in this order.
pub data Effect : Type 0 where
  publishes_fragment : (id text : String) (ordinal : ℕ) → Effect
  publishes_done : (id : String) → FinishReason → Effect
  releases_lock : (id : String) → Effect
  sets_routing : (id : String) → Kind → (allow_ai : Bool) → (preferred : String) → Effect
  clears_routing : (id : String) → Effect
  enqueues : (id : String) → Effect
  removes_queued : (id : String) → Effect
  adds_available : (session : String) → Effect
  publishes_assignment : (session id : String) → Effect
  drains : Effect

abbrev pub Outcome : Type 0 → Type 0
Outcome A = Result A × Db × List Effect

-- The SET clauses.
abbrev pub set_completed : FinishReason → Time → Request → Request
set_completed reason now r = record r {
  status = if is_partial reason then timeout_completed else completed;
  finish_reason = reason;
  updated_at = now;
  completed_at = now;
}

abbrev pub set_queued : Time → Request → Request
set_queued now r = record r {
  status = queued;
  responder_session_id = "";
  responder_user_id = "";
  responder_guest = false;
  responder_kind = Kind.unset;
  responder_display = "";
  updated_at = now;
}

abbrev pub set_abandoned : Time → Request → Request
set_abandoned now r = record r {
  status = abandoned;
  responder_session_id = "";
  responder_user_id = "";
  responder_guest = false;
  responder_kind = Kind.unset;
  responder_display = "";
  frozen_points = 0;
  updated_at = now;
}

abbrev pub set_charged : Request → Request
set_charged r = record r { question_charged = true; frozen_points = 0 }

abbrev pub set_streaming : Time → Request → Request
set_streaming now r = record r { status = streaming; updated_at = now }

-- An already terminal row is left, so that nothing is paid twice.
unfoldable pub complete_request_tx : Request → FinishReason → Time → Db → Db
complete_request_tx r reason now d =
    let (updated, d') = update_row_if r.id is_open (set_completed reason now) d in
    if not updated
    then d'
    else if not (is_empty (rows_of r.id d'.fragments))
        && not r.responder_guest
        && not (is_unset r.responder_user_id)
    then add_ledger_tx r.responder_user_id r.id answer_reward (pos base_answer_reward) now d'
    else d'

unfoldable pub requeue_request_tx : String → Time → Db → Db
requeue_request_tx id now d = (update_row_if id is_open (set_queued now) d).1

unfoldable pub abandon_request_tx : String → Time → Db → Db
abandon_request_tx id now d = (update_row_if id is_open (set_abandoned now) d).1

unfoldable pub charge_tx : Request → Time → Db → Db
charge_tx r now d =
    if r.question_charged
    then d
    else (let d' = update_row r.id set_charged d in
        if r.requester_guest
        then d'
        else add_ledger_tx r.requester_id r.id question_charge (negsuc 4) now d')

abbrev pub fragment_from : String → Request → ℤ → String → Time → String → Fragment
fragment_from session r seq text now id = record {
  id = id;
  request_id = r.id;
  responder_session_id = session;
  client_seq = seq;
  text = text;
  created_at = now;
}

-- The writes of SubmitFragment, for an answer that has `answer` characters so far, at the time that the
-- columns keep.
unfoldable pub write_fragment :
    String → ℤ → String → ℕ → Request → Time → Db → Outcome (Fragment × Bool)
write_fragment session seq text answer r now d =
    let ordinal = suc (max_ordinal (rows_of r.id d.fragments)) in
    let (id, d₁) = new_id "frg" d in
    let f = fragment_from session r seq text now id in
    let d₂ = charge_tx r now (insert_fragment f ordinal d₁) in
    let d₃ = update_row r.id (set_streaming now) d₂ in
    let told = publishes_fragment r.id text ordinal in
    if leb r.output_limit (answer + count text)
    then (
      ok (f, false),
      complete_request_tx r FinishReason.length now d₃,
      told
          ∷ publishes_done r.id FinishReason.length
          ∷ releases_lock r.id
          ∷ clears_routing r.id
          ∷ [],
    )
    else (ok (f, false), d₃, told ∷ [])

-- The fragment of a reply has the time of the clock.
abbrev pub shown_at : Time → Outcome (Fragment × Bool) → Outcome (Fragment × Bool)
shown_at now (err e, d, effects) = (err e, d, effects)
shown_at now (ok (f, duplicate), d, effects) =
    (ok (record f { created_at = now }, duplicate), d, effects)

-- An INSERT that is refused leaves nothing but that an id is drawn.
unfoldable pub commit_fragment :
    String → ℤ → String → ℕ → Request → Time → Db → Outcome (Fragment × Bool)
commit_fragment session seq text answer r now d =
    if has_nul text
    then (err storage_failed, (new_id "frg" d).1, [])
    else shown_at now (write_fragment session seq text answer r (column now) d)

-- The tests on the row that the session holds.
unfoldable pub submit_to : String → ℤ → String → Request → Time → Db → Outcome (Fragment × Bool)
submit_to session seq text r now d = elim (sent_as session seq (rows_of r.id d.fragments)) [
  | some existing ↦ (ok (existing, true), d, [])
  | none ↦
      let answer = sum_length (rows_of r.id d.fragments) in
      if ltb r.output_limit (answer + count text)
      then (err output_too_large, d, [])
      else commit_fragment session seq text answer r now d
]

unfoldable pub submit_fragment : String → ℤ → String → Time → Db → Outcome (Fragment × Bool)
submit_fragment session seq text now d =
    if not_positive seq
    then (err client_seq_not_positive, d, [])
    else if is_unset text
    then (err fragment_text_required, d, [])
    else elim (active_row session d.requests) [
      | none ↦ (err no_active_assignment, d, [])
      | some r ↦ submit_to session seq text r now d
    ]

unfoldable pub finish : String → Time → Db → Outcome (Unit {0})
finish session now d = elim (active_row session d.requests) [
  | none ↦ (err no_active_assignment, d, [])
  | some r ↦ if is_empty (rows_of r.id d.fragments) then (err finish_before_fragment, d, []) else (
    ok tt,
    complete_request_tx r stop now d,
    publishes_done r.id stop ∷ releases_lock r.id ∷ clears_routing r.id ∷ [],
  )
]

unfoldable pub skip : String → Time → Db → Outcome (Unit {0})
skip session now d = elim (active_row session d.requests) [
  | none ↦ (err no_active_assignment, d, [])
  | some r ↦
      if not (is_empty (rows_of r.id d.fragments))
      then (err cannot_skip_committed, d, [])
      else if is_persona r.requester_kind
      then (
        ok tt,
        abandon_request_tx r.id now d,
        releases_lock r.id ∷ clears_routing r.id ∷ publishes_done r.id stop ∷ [],
      )
      else (ok tt, requeue_request_tx r.id now d, releases_lock r.id ∷ enqueues r.id ∷ drains ∷ [])
]
