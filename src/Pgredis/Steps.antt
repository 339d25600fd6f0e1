-- ===== src/Pgredis/Steps.antt =====
-- The writes of the transactions against those of the in-memory engine: from tables that mirror a
-- state, each leaves the tables that mirror the state after.
use deeperseek.Core.Lifecycle.{
  publish_locked, requeue_locked, abandon_locked, complete_locked, pay_responder, done_event,
  completed_request,
}
use deeperseek.Core.Responders.{charge_question, stream_request}
use deeperseek.Core.State.{
  Service, fragments_of, is_terminal, put_request, add_ledger_locked, is_unset,
}
use deeperseek.Core.Types.{
  Time, Request, FinishReason, StreamEvent, EntryKind, question_charge, answer_reward,
  base_answer_reward,
}
use deeperseek.Pgredis.Mirror.{db_of, numbered, NotEntered, is_empty-numbered}
use deeperseek.Pgredis.Mirror.Rows.{insert-insert}
use deeperseek.Pgredis.Tables.{
  Db, FragmentRow, rows_of, update_row, update_row_if, is_open, add_ledger_tx, has_clash,
}
use deeperseek.Pgredis.Transactions.{
  complete_request_tx, requeue_request_tx, abandon_request_tx, charge_tx, set_queued, set_abandoned,
  set_completed, set_charged, set_streaming,
}
use deeperseek.Prelude.{
  String, Bool, true, false, not, ◌&&◌, some, List, ℤ, lookup, insert, is_empty, ◌≡◌, refl, inl,
  inr, sym, ap, ◌∙◌, arith, lookup-insert_self, Bool-cases, Option-cases, pos, negsuc, delete,
  if◌then◌else◌,
}

pub publish_locked-db_of :
    (e : StreamEvent) (s : Service) (rows : List FragmentRow)
    → db_of (publish_locked e s) rows ≡ db_of s rows
unfolding publish_locked
publish_locked-db_of e s rows = elim (Option-cases (lookup e.request_id s.subscribers)) [
  | inl nobody ↦ rw (nobody, publish_locked)
  | inr (chans, found) ↦ rw (found, publish_locked)
]

add_ledger-db_of :
    (user id : String) (kind : EntryKind) (delta : ℤ) (now : Time) (s : Service)
    (rows : List FragmentRow)
    → has_clash kind user id s.ledger ≡ false
    → add_ledger_tx user id kind delta now (db_of s rows)
      ≡ db_of (add_ledger_locked user id kind delta now s) rows
unfolding add_ledger_tx add_ledger_locked
add_ledger-db_of user id kind delta now s rows new = rw new

update_row-found :
    (id : String) (set : Request → Request) (d : Db) (r : Request)
    → lookup id d.requests ≡ some r
    → update_row id set d ≡ record d { requests = insert id (set r) d.requests }
unfolding update_row
update_row-found id set d r found = rw (found, update_row)

update_row_if-found :
    (id : String) (set : Request → Request) (d : Db) (r : Request)
    → lookup id d.requests ≡ some r
    → is_terminal r.status ≡ false
    → update_row_if id is_open set d ≡ (true, record d { requests = insert id (set r) d.requests })
unfolding update_row_if
update_row_if-found id set d r found open_yet = rw (found, update_row_if) (rw open_yet)

pub requeue-db_of :
    (r : Request) (now : Time) (s : Service) (rows : List FragmentRow)
    → lookup r.id s.requests ≡ some r
    → is_terminal r.status ≡ false
    → requeue_request_tx r.id now (db_of s rows) ≡ db_of (requeue_locked r now s) rows
unfolding requeue_request_tx requeue_locked
requeue-db_of r now s rows found open_yet =
    ap (λ (u : Bool × Db). u.1)
      (update_row_if-found r.id (set_queued now) (db_of s rows) r found open_yet)

pub abandon-db_of :
    (r : Request) (now : Time) (s : Service) (rows : List FragmentRow)
    → lookup r.id s.requests ≡ some r
    → is_terminal r.status ≡ false
    → abandon_request_tx r.id now (db_of s rows) ≡ db_of (abandon_locked r now s) rows
unfolding abandon_request_tx abandon_locked
abandon-db_of r now s rows found open_yet =
    ap (λ (u : Bool × Db). u.1)
      (update_row_if-found r.id (set_abandoned now) (db_of s rows) r found open_yet)
    ∙ sym (publish_locked-db_of _ _ rows)

-- What a completion pays, as the transaction has it.
abbrev paid : Request → Time → Db → Db
paid q now d =
    if not (is_empty (rows_of q.id d.fragments))
      && not q.responder_guest
      && not (is_unset q.responder_user_id)
    then add_ledger_tx q.responder_user_id q.id answer_reward (pos base_answer_reward) now d
    else d

pay-db_of :
    (r : Request) (now : Time) (s : Service) (rows : List FragmentRow)
    → rows_of r.id rows ≡ numbered 1 (fragments_of s r.id)
    → NotEntered answer_reward s.ledger r.id
    → paid r now (db_of s rows) ≡ db_of (pay_responder r now s) rows
unfolding pay_responder
pay-db_of r now s rows texts unpaid =
    let new =
      add_ledger-db_of r.responder_user_id r.id answer_reward (pos base_answer_reward) now s rows
        (unpaid r.responder_user_id) in
    let same : is_empty (rows_of r.id rows) ≡ is_empty (fragments_of s r.id) =
      ap is_empty texts ∙ is_empty-numbered 1 (fragments_of s r.id) in
    let empty = is_empty (fragments_of s r.id) in
    rw same
      (elim (Bool-cases
        (not empty && not r.responder_guest && not (is_unset r.responder_user_id))) [
          | inl earns ↦ rw earns new
          | inr none_due ↦ rw none_due
        ])

-- `q` is the row as the transaction read it, `r` the row as it stands.
pub complete-db_of :
    (q r : Request) (reason : FinishReason) (now : Time) (s : Service) (rows : List FragmentRow)
    → q.id ≡ r.id
    → q.responder_guest ≡ r.responder_guest
    → q.responder_user_id ≡ r.responder_user_id
    → lookup r.id s.requests ≡ some r
    → is_terminal r.status ≡ false
    → rows_of r.id rows ≡ numbered 1 (fragments_of s r.id)
    → NotEntered answer_reward s.ledger r.id
    → complete_request_tx q reason now (db_of s rows) ≡ db_of (complete_locked r reason now s) rows
unfolding complete_request_tx complete_locked pay_responder
complete-db_of q r reason now s rows same_id guest user found open_yet texts unpaid =
    let done = completed_request reason now r in
    let s₁ =
      put_request done
        (record s { active_by_res = delete r.responder_session_id s.active_by_res }) in
    rw same_id (
      rw guest (
        rw user (
          rw open_yet (
            rw (update_row_if-found r.id (set_completed reason now) (db_of s rows) r found open_yet)
              (unfold put_request in
                pay-db_of done now s₁ rows texts unpaid
                ∙ sym
                    (publish_locked-db_of (done_event r reason) (pay_responder r now s₁) rows))))))

-- What charging does, on its three branches.
module _ (r : Request) (now : Time) where
  pub charge-already :
      (s : Service) (d : Db)
      → r.question_charged ≡ true
      → (charge_question r now s ≡ (r, s)) × (charge_tx r now d ≡ d)
  unfolding charge_question charge_tx
  charge-already s d already = (ground arith, ground arith)

  pub charge-guest :
      (s : Service) (d : Db)
      → r.question_charged ≡ false
      → r.requester_guest ≡ true
      → (charge_question r now s ≡ (set_charged r, s))
        × (charge_tx r now d ≡ update_row r.id set_charged d)
  unfolding charge_question charge_tx
  charge-guest s d not_yet guest = (ground arith, ground arith)

  pub charge-account :
      (s : Service) (d : Db)
      → r.question_charged ≡ false
      → r.requester_guest ≡ false
      → (charge_question r now s
          ≡ (set_charged r, add_ledger_locked r.requester_id r.id question_charge (negsuc 4) now s))
        × (charge_tx r now d
            ≡ add_ledger_tx r.requester_id r.id question_charge
                (negsuc 4)
                now
                (update_row r.id set_charged d))
  unfolding charge_question charge_tx
  charge-account s d not_yet account = (ground arith, ground arith)

  -- Marking the row as streaming, behind a charge or not.
  mark-db_of :
      (s s' : Service) (q : Request) (rows : List FragmentRow)
      → lookup r.id s'.requests ≡ some q
      → s'.requests ≡ insert r.id q s.requests
      → update_row r.id (set_streaming now) (db_of s' rows)
        ≡ record (db_of s' rows) { requests = insert r.id (set_streaming now q) s.requests }
  mark-db_of s s' q rows found changed =
      update_row-found r.id (set_streaming now) (db_of s' rows) q found
      ∙ ap (λ m. record (db_of s' rows) { requests = m })
          (ap (insert r.id (set_streaming now q)) changed
            ∙ insert-insert r.id (set_streaming now q) q s.requests)

-- Charging the question and marking the row as streaming.
pub stream-db_of :
    (r : Request) (now : Time) (s : Service) (rows : List FragmentRow)
    → lookup r.id s.requests ≡ some r
    → (r.question_charged ≡ false → NotEntered question_charge s.ledger r.id)
    → update_row r.id (set_streaming now) (charge_tx r now (db_of s rows))
      ≡ db_of (stream_request r now s).1 rows
unfolding stream_request
stream-db_of r now s rows found uncharged =
    let d = db_of s rows in
    let charged = insert r.id (set_charged r) s.requests in
    let s₁ : Service = record s { requests = charged } in
    let here : lookup r.id charged ≡ some (set_charged r) =
      lookup-insert_self r.id (set_charged r) s.requests in
    elim (Bool-cases r.question_charged) [
      | inl already ↦
          let c = charge-already r now s d already in
          rw c.0 (rw c.1 (update_row-found r.id (set_streaming now) d r found))
      | inr not_yet ↦ elim (Bool-cases r.requester_guest) [
        | inl guest ↦
            let c = charge-guest r now s d not_yet guest in
            rw c.0 (
              rw c.1 (
                rw (update_row-found r.id set_charged d r found)
                  (mark-db_of r now s s₁ (set_charged r) rows here refl)))
        | inr account ↦
            let c = charge-account r now s d not_yet account in
            let s₂ = add_ledger_locked r.requester_id r.id question_charge (negsuc 4) now s₁ in
            let new =
              add_ledger-db_of r.requester_id r.id question_charge (negsuc 4) now s₁ rows
                (uncharged not_yet r.requester_id) in
            rw c.0 (
              rw c.1 (
                rw (update_row-found r.id set_charged d r found) (
                  rw new (
                    unfold add_ledger_locked in
                    mark-db_of r now s s₂ (set_charged r) rows here refl))))
      ]
    ]
