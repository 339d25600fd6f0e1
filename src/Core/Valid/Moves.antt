-- ===== src/Core/Valid/Moves.antt =====
-- The invariant across the moves of a request that is held, queued or new.
use deeperseek.Core.Lifecycle.Invariant.{Stage, found-Staged, is_live}
use deeperseek.Core.Lifecycle.Steps.{
  LifeOf, publish_locked-Life, requeue_locked-Life, abandon_locked-Life, complete_locked-Life,
}
use deeperseek.Core.Lifecycle.{
  requeue_locked, abandon_locked, complete_locked, publish_locked, pay_responder, done_event,
  completed_request,
}
use deeperseek.Core.Sessions.{AreNamed}
use deeperseek.Core.State.{Service, fragments_of}
use deeperseek.Core.Types.{
  Time, Request, RequestStatus, queued, assigned, streaming, FinishReason, StreamEvent,
}
use deeperseek.Core.Valid.{IsValid}
use deeperseek.Prelude.{
  String, Bool, true, false, Option, some, lookup, insert, delete, ◌≡◌, refl, ◌⊎◌, inl, inr,
  is_empty, arith, subst, sym, ap, ◌∙◌,
}

-- A held request: it is assigned and unanswered, or streaming and answered in part.
pub record Working (s : Service) (x k : String) : Type 0 where
  pub request : Request
  pub found : lookup k s.requests ≡ some request
  pub keyed : request.id ≡ k
  pub holder : request.responder_session_id ≡ x
  pub stage :
      (request.status ≡ assigned) × (is_empty (fragments_of s k) ≡ true)
      ⊎ (request.status ≡ streaming) × (is_empty (fragments_of s k) ≡ false)

pub held-Working :
    (s : Service) (x k : String) → LifeOf s → lookup x s.active_by_res ≡ some k → Working s x k
held-Working s x k l e =
    let h = l.held x k e in
    let st = found-Staged l k h.request h.found in
    record {
      request = h.request;
      found = h.found;
      keyed = st.0;
      holder = h.holder;
      stage = go h.request h.request.status _ _ _ st.2 h.live;
    }
  where
    go :
        (r : Request) (t : RequestStatus) (q b : Bool) (a : Option String)
        → Stage t r k q a b
        → is_live t ≡ true
        → (t ≡ assigned) × (b ≡ true) ⊎ (t ≡ streaming) × (b ≡ false)
    go r assigned q b a st h = inl (refl, st.2)
    go r streaming q b a st h = inr (refl, st.2)
    go r queued q b a st h = cc
    go r RequestStatus.created q b a st h = cc
    go r RequestStatus.typing q b a st h = cc
    go r RequestStatus.completed q b a st h = cc
    go r RequestStatus.timeout_completed q b a st h = cc
    go r RequestStatus.requeued q b a st h = cc
    go r RequestStatus.abandoned q b a st h = cc

pub publish_locked-sessions :
    (e : StreamEvent) (s : Service) → (publish_locked e s).sessions_by_tok ≡ s.sessions_by_tok
unfolding publish_locked
publish_locked-sessions e s = ground arith

pub publish_locked-requests :
    (e : StreamEvent) (s : Service) → (publish_locked e s).requests ≡ s.requests
unfolding publish_locked
publish_locked-requests e s = ground arith

pub publish_locked-IsValid :
    (e : StreamEvent) (s : Service) → IsValid s → IsValid (publish_locked e s)
publish_locked-IsValid e s v = record {
  tables = publish_locked-Life e s v.tables;
  named = subst AreNamed (sym (publish_locked-sessions e s)) v.named;
}

pay_responder-sessions :
    (r : Request) (now : Time) (s : Service)
    → (pay_responder r now s).sessions_by_tok ≡ s.sessions_by_tok
unfolding pay_responder
pay_responder-sessions r now s = ground arith

pub abandon_locked-sessions :
    (r : Request) (now : Time) (s : Service)
    → (abandon_locked r now s).sessions_by_tok ≡ s.sessions_by_tok
unfolding abandon_locked
abandon_locked-sessions r now s = publish_locked-sessions _ _

abbrev completed_state : Request → FinishReason → Time → Service → Service
completed_state r reason now s = record s {
  requests = insert r.id (completed_request reason now r) s.requests;
  active_by_res = delete r.responder_session_id s.active_by_res;
}

pub complete_locked-sessions :
    (r : Request) (reason : FinishReason) (now : Time) (s : Service)
    → (complete_locked r reason now s).sessions_by_tok ≡ s.sessions_by_tok
unfolding complete_locked
complete_locked-sessions r reason now s = ground (
  arith,
  publish_locked-sessions (done_event r reason)
      (pay_responder r now (completed_state r reason now s)),
  pay_responder-sessions r now (completed_state r reason now s),
)

module _ (s : Service) (v : IsValid s) (r : Request) (k : String)
    (found : lookup k s.requests ≡ some r) (now : Time) where
  at_id : lookup r.id s.requests ≡ some r
  at_id = ap (λ j. lookup j s.requests) (found-Staged v.tables k r found).0 ∙ found

  pub requeue_locked-IsValid : r.status ≡ assigned → IsValid (requeue_locked r now s)
  unfolding requeue_locked
  requeue_locked-IsValid status = record {
    tables = requeue_locked-Life s r now v.tables at_id status;
    named = v.named;
  }

  pub abandon_locked-IsValid :
      (r.status ≡ queued) ⊎ (r.status ≡ assigned) → IsValid (abandon_locked r now s)
  abandon_locked-IsValid status = record {
    tables = abandon_locked-Life s r now v.tables at_id status;
    named = subst AreNamed (sym (abandon_locked-sessions r now s)) v.named;
  }

  pub complete_locked-IsValid :
      (reason : FinishReason) → r.status ≡ streaming → IsValid (complete_locked r reason now s)
  complete_locked-IsValid reason status = record {
    tables = complete_locked-Life s r reason now v.tables at_id status;
    named = subst AreNamed (sym (complete_locked-sessions r reason now s)) v.named;
  }
