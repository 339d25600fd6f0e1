-- ===== src/Pgredis/Refines.antt =====
-- The transactions of a responder refine the operations of the in-memory engine.
pub mod Submission
use deeperseek.Core.Lifecycle.Invariant.{found-Staged}
use deeperseek.Core.Lifecycle.{complete_locked, requeue_locked, abandon_locked}
use deeperseek.Core.Responders
use deeperseek.Core.State.{
  Service, Result, ok, err, active_request, is_terminal, answer_text_locked, fragments_of, is_unset,
  no_active_assignment, finish_before_fragment,
}
use deeperseek.Core.Types.{Time, Request, Fragment, stop, partial, FinishReason}
use deeperseek.Core.Valid.{IsValid}
use deeperseek.Core.Valid.Moves.{Working, held-Working}
use deeperseek.Core.Valid.Responding.{active-some}
use deeperseek.Pgredis.Keeps.{bill_of, complete-Mirrors, requeue-Mirrors, abandon-Mirrors}
use deeperseek.Pgredis.Mirror.{Mirrors, db_of, numbered, is_empty-numbered}
use deeperseek.Pgredis.Mirror.Rows.{active_row-active_request, if_active}
use deeperseek.Pgredis.Steps.{complete-db_of, requeue-db_of, abandon-db_of}
use deeperseek.Pgredis.Tables.{FragmentRow, active_row, is_active, rows_of}
use deeperseek.Pgredis.Transactions.{Effect, Outcome, publishes_done, releases_lock, clears_routing}
use deeperseek.Pgredis.Transactions
use deeperseek.Prelude.{
  ℕ, String, Bool, true, false, not, ◌&&◌, Option, none, some, List, [], ◌∷◌, lookup, is_empty, ◌≡◌,
  refl, ◌≢◌, ◌⊎◌, inl, inr, sym, ap, ◌∙◌, subst, arith, eq_iff, eq_refl, Bool-cases, Option-cases,
  if◌then◌else◌,
}

-- A transaction gives the result of the operation, and leaves tables that mirror its state.
pub record Refines {A : Type 0} (tx : Outcome A) (operation : Result A × Service) : Type 0 where
  pub rows : List FragmentRow
  pub result : tx.0 ≡ operation.0
  pub state : tx.1 ≡ db_of operation.1 rows
  pub mirrors : Mirrors operation.1 rows

-- What both sides find for a session: nothing, or the same request with the same answer.
pub record Holds (s : Service) (rows : List FragmentRow) (session : String) (r : Request)
    : Type 0 where
  pub busy : is_unset (active_request s session) ≡ false
  pub found : lookup (active_request s session) s.requests ≡ some r
  pub keyed : r.id ≡ active_request s session
  pub here : lookup r.id s.requests ≡ some r
  pub open_yet : is_terminal r.status ≡ false
  pub row : active_row session s.requests ≡ some r
  pub texts : rows_of r.id rows ≡ numbered 1 (fragments_of s r.id)

pub held_or_idle :
    (s : Service) (rows : List FragmentRow) (session : String)
    → IsValid s
    → Mirrors s rows
    → session ≢ ""
    → ((is_unset (active_request s session) ≡ true) × (active_row session s.requests ≡ none))
      ⊎ ((r : Request) × Holds s rows session r)
unfolding is_active is_terminal
held_or_idle s rows session v m named =
    let id = active_request s session in
    let query = active_row-active_request s session v.tables m.distinct named in
    elim (Bool-cases (is_unset id)) [
      | inl idle ↦ inl (idle, query ∙ ap (if_active session) (nothing_unnamed idle))
      | inr busy ↦
          let w = held-Working s session id v.tables (active-some s session busy) in
          let r = w.request in
          let open_yet : is_terminal r.status ≡ false = ground (arith, w.stage) in
          let active : is_active session r ≡ true =
            ground (arith, w.stage, w.holder, eq_iff r.responder_session_id session) in
          inr (
            r,
            record {
              busy = busy;
              found = w.found;
              keyed = w.keyed;
              here = ap (λ k. lookup k s.requests) w.keyed ∙ w.found;
              open_yet = open_yet;
              row = query ∙ ap (if_active session) w.found ∙ rw active refl;
              texts = m.texts r.id;
            },
          )
    ]
  where
    nothing_unnamed :
        is_unset (active_request s session) ≡ true
        → lookup (active_request s session) s.requests ≡ none
    nothing_unnamed idle = elim (Option-cases (lookup (active_request s session) s.requests)) [
      | inl nothing ↦ nothing
      | inr (r, found) ↦ absurd (
          (found-Staged v.tables (active_request s session) r found).1
            ((eq_iff (active_request s session) "").0 idle))
    ]

pub same_run :
    {A : Type 0} (tx : Outcome A) (operation : Result A × Service) (result : Result A)
    (s' : Service) (rows : List FragmentRow) (effects : List Effect)
    → tx ≡ (result, db_of s' rows, effects)
    → operation ≡ (result, s')
    → Mirrors s' rows
    → Refines tx operation
same_run tx operation result s' rows effects e e' m = record {
  rows = rows;
  result = ap (λ t. t.0) e ∙ sym (ap (λ o. o.0) e');
  state = ap (λ t. t.1) e ∙ sym (ap (λ o. db_of o.1 rows) e');
  mirrors = subst (λ o. Mirrors o.1 rows) (sym e') m;
}

pub equal_run :
    {A : Type 0} (tx tx' : Outcome A) (operation operation' : Result A × Service)
    → tx ≡ tx'
    → operation ≡ operation'
    → Refines tx' operation'
    → Refines tx operation
equal_run tx tx' operation operation' e e' c = record {
  rows = c.rows;
  result = ap (λ t. t.0) e ∙ c.result ∙ sym (ap (λ o. o.0) e');
  state = ap (λ t. t.1) e ∙ c.state ∙ sym (ap (λ o. db_of o.1 c.rows) e');
  mirrors = subst (λ o. Mirrors o.1 c.rows) (sym e') c.mirrors;
}

-- A completion, in tables that mirror the state.
pub completed-db_of :
    (r : Request) (reason : FinishReason) (now : Time) (s : Service) (rows : List FragmentRow)
    → Mirrors s rows
    → lookup r.id s.requests ≡ some r
    → is_terminal r.status ≡ false
    → Transactions.complete_request_tx r reason now (db_of s rows)
      ≡ db_of (complete_locked r reason now s) rows
completed-db_of r reason now s rows m here open_yet =
    complete-db_of r r reason now s rows refl refl refl here open_yet (m.texts r.id)
      ((bill_of s rows r m here).1 open_yet)

pub finish-Refines :
    (session : String) (now : Time) (s : Service) (rows : List FragmentRow)
    → IsValid s
    → Mirrors s rows
    → session ≢ ""
    → Refines (Transactions.finish session now (db_of s rows)) (Responders.finish session now s)
unfolding Transactions.finish Responders.finish
finish-Refines session now s rows v m named = elim (held_or_idle s rows session v m named) [
  | inl (idle, gone) ↦
      same_run _ _ (err no_active_assignment) s rows [] (rw (gone, Transactions.finish))
        (rw (idle, Responders.finish)) m
  | inr (r, h) ↦
      let id = active_request s session in
      let blank : is_empty (rows_of r.id rows) ≡ is_empty (fragments_of s id) =
        ap is_empty h.texts
        ∙ is_empty-numbered 1 (fragments_of s r.id)
        ∙ ap (λ k. is_empty (fragments_of s k)) h.keyed in
      elim (Bool-cases (is_empty (fragments_of s id))) [
        | inl empty ↦
            same_run _ _ (err finish_before_fragment) s rows []
              (rw (h.row, Transactions.finish) (rw (blank ∙ empty) refl))
              (rw (h.busy, Responders.finish) (rw h.found (rw empty refl))) m
        | inr some_text ↦
            let effects =
              publishes_done r.id stop ∷ releases_lock r.id ∷ clears_routing r.id ∷ [] in
            let written = completed-db_of r stop now s rows m h.here h.open_yet in
            same_run _ _ (ok tt) (complete_locked r stop now s) rows effects
              (rw (h.row, Transactions.finish)
                (rw (blank ∙ some_text) (ap (λ d. (ok tt, d, effects)) written)))
              (rw (h.busy, Responders.finish) (rw h.found (rw some_text refl)))
              (complete-Mirrors r stop now s rows m h.here h.open_yet)
      ]
]
