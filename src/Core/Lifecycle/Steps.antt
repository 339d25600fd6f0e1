-- ===== src/Core/Lifecycle/Steps.antt =====
-- Each way in which a request leaves its responder keeps the request tables well formed.
use deeperseek.Core.Lifecycle.Invariant.{Life, Stage, found-Staged, found-Stage, Life-put, is_live}
use deeperseek.Core.Lifecycle.{
  requeue_locked, abandon_locked, complete_locked, publish_locked, unassigned, earns_reward,
  pay_responder, completed_request, done_event,
}
use deeperseek.Core.State.{Service, is_terminal, fragments_of}
use deeperseek.Core.Types.{
  Time, Request, RequestStatus, queued, assigned, streaming, abandoned, FinishReason, partial,
  StreamEvent, Fragment,
}
use deeperseek.Prelude.{
  String, Bool, true, false, Option, none, some, List, [], ◌∷◌, ◌++◌, Dict, lookup, insert, delete,
  ◌≡◌, refl, ◌≢◌, ◌⊎◌, inl, inr, without, contains-append, contains-without, IsNodup-append,
  IsNodup-without, is_empty, ◌==◌, lookup-delete, Option-cases, Bool-cases, eq_iff, arith, sym, ap,
  ◌∙◌,
}

abbrev pub LifeOf : Service → Type 0
LifeOf s = Life s.requests s.queue s.active_by_res s.fragments

module _ {requests : Dict Request} {queue : List String} {active : Dict String}
    {fragments : Dict (List Fragment)} (l : Life requests queue active fragments) (r : Request)
    (found : lookup r.id requests ≡ some r) where
  -- Letting a responder go touches no other assignment.
  delete-kept :
      (x k : String)
      → lookup r.responder_session_id active ≡ some r.id
      → r.id ≢ k
      → lookup x active ≡ some k
      → lookup x (delete r.responder_session_id active) ≡ some k
  delete-kept x k a other e =
      ground (arith, lookup-delete r.responder_session_id x active, eq_iff r.responder_session_id x)

  delete-back :
      (x k : String)
      → lookup x (delete r.responder_session_id active) ≡ some k
      → (r.id ≢ k) × (lookup x active ≡ some k)
  delete-back x k e =
      let old : lookup x active ≡ some k =
        ground (arith, lookup-delete r.responder_session_id x active) in
      let h = l.held x k old in
      let apart : r.responder_session_id ≢ x = λ same.
        ground
          (arith, lookup-delete r.responder_session_id x active, eq_iff r.responder_session_id x) in
      (
        λ same. apart (
            ap (λ (q : Option Request). resp q)
              (sym found ∙ ap (λ j. lookup j requests) same ∙ h.found)
            ∙ h.holder),
        old,
      )
    where
      resp : Option Request → String
      resp none = ""
      resp (some q) = q.responder_session_id

pub publish_locked-Life : (e : StreamEvent) (s : Service) → LifeOf s → LifeOf (publish_locked e s)
unfolding publish_locked
publish_locked-Life e s l = elim (Option-cases (lookup e.request_id s.subscribers)) [
  | inl nobody ↦ rw (nobody, publish_locked) l
  | inr (chans, some_chans) ↦ rw (some_chans, publish_locked) l
]

-- A request that is assigned, with no answer yet, goes back to the end of the queue.
pub requeue_locked-Life :
    (s : Service) (r : Request) (now : Time)
    → LifeOf s
    → lookup r.id s.requests ≡ some r
    → r.status ≡ assigned
    → LifeOf (requeue_locked r now s)
unfolding requeue_locked
requeue_locked-Life s r now l found status =
    let st = found-Staged l r.id r found in
    let stage = found-Stage l r.id r assigned found status in
    Life-put l r.id _ (s.queue ++ r.id ∷ []) (delete r.responder_session_id s.active_by_res)
      s.fragments (IsNodup-append s.queue r.id stage.0 l.once)
      (
        refl,
        st.1,
        (ground (arith, contains-append s.queue r.id r.id, eq_iff r.id r.id), refl, stage.2),
      )
      (λ k other. (ground (arith, contains-append s.queue r.id k, eq_iff r.id k), refl))
      (λ x k. delete-kept l r found x k stage.1) (λ x k e. inl (delete-back l r found x k e))

module _ (s : Service) (r : Request) (now : Time) (l : LifeOf s)
    (found : lookup r.id s.requests ≡ some r) where
  -- The tables after an abandonment, for a request without an answer that is not yet finished.
  abandoned-Life :
      (active : Dict String)
      → is_empty (fragments_of s r.id) ≡ true
      → ((x k : String) → r.id ≢ k → lookup x s.active_by_res ≡ some k → lookup x active ≡ some k)
      → ((x k : String)
          → lookup x active ≡ some k
          → (r.id ≢ k) × (lookup x s.active_by_res ≡ some k))
      → LifeOf (record s {
        requests =
            insert r.id
              (record (unassigned r) { status = abandoned; frozen_points = 0; updated_at = now })
              s.requests;
        queue = without r.id s.queue;
        active_by_res = active;
      })
  abandoned-Life active empty kept back =
      let st = found-Staged l r.id r found in
      Life-put l r.id _ (without r.id s.queue) active s.fragments
        (IsNodup-without s.queue r.id l.once)
        (
          refl,
          st.1,
          (ground (arith, contains-without s.queue r.id r.id, eq_iff r.id r.id), empty, refl),
        )
        (λ k other. (ground (arith, contains-without s.queue r.id k, eq_iff r.id k), refl)) kept
        (λ x k e. inl (back x k e))

  -- What an abandonment needs of the status.
  pub abandon_locked-Life :
      (r.status ≡ queued) ⊎ (r.status ≡ assigned) → LifeOf (abandon_locked r now s)
  unfolding abandon_locked
  abandon_locked-Life (inl status) =
      let stage = found-Stage l r.id r queued found status in
      let free : (r.responder_session_id == "") ≡ true =
        (eq_iff r.responder_session_id "").1 stage.1 in
      publish_locked-Life _ _ (
        abandoned-Life _ stage.2 (λ x k other e. rw free e)
          (λ x k e.
            let old : lookup x s.active_by_res ≡ some k = rw free at e in
            let h = l.held x k old in
            (
              λ same. not_waiting r.status status (
                  ap (λ (q : Option Request). live q)
                    (sym found ∙ ap (λ j. lookup j s.requests) same ∙ h.found)
                  ∙ h.live),
              old,
            )))
    where
      live : Option Request → Bool
      live none = true
      live (some q) = is_live q.status

      not_waiting : (t : RequestStatus) → t ≡ queued → is_live t ≡ true → ⊥
      not_waiting t e h = ground arith
  abandon_locked-Life (inr status) =
      let stage = found-Stage l r.id r assigned found status in
      let held : (r.responder_session_id == "") ≡ false =
        ground (arith, stage.3, eq_iff r.responder_session_id "") in
      publish_locked-Life _ _ (
        abandoned-Life _ stage.2
          (λ x k other e. rw held (delete-kept l r found x k stage.1 other e))
          (λ x k e. delete-back l r found x k (rw held at e)))

pub pay_responder-Life :
    (r : Request) (now : Time) (s : Service) → LifeOf s → LifeOf (pay_responder r now s)
unfolding pay_responder
pay_responder-Life r now s l = elim (Bool-cases (earns_reward s r)) [
  | inl earns ↦ rw (earns, pay_responder) l
  | inr not_earned ↦ rw (not_earned, pay_responder) l
]

-- A request that is streaming is completed, in part or in full.
pub complete_locked-Life :
    (s : Service) (r : Request) (reason : FinishReason) (now : Time)
    → LifeOf s
    → lookup r.id s.requests ≡ some r
    → r.status ≡ streaming
    → LifeOf (complete_locked r reason now s)
unfolding complete_locked
complete_locked-Life s r reason now l found status =
    let st = found-Staged l r.id r found in
    let stage = found-Stage l r.id r streaming found status in
    let open_yet : is_terminal r.status ≡ false = rw status (unfold is_terminal in refl) in
    let s₁ : Service = record s {
      requests = insert r.id (completed_request reason now r) s.requests;
      active_by_res = delete r.responder_session_id s.active_by_res;
    } in
    let l₁ : LifeOf s₁ =
      Life-put l r.id (completed_request reason now r) s.queue s₁.active_by_res s.fragments l.once
        (refl, st.1, closed reason _ _ _ stage.0 stage.2) (λ k other. (refl, refl))
        (λ x k. delete-kept l r found x k stage.1) (λ x k e. inl (delete-back l r found x k e)) in
    rw open_yet (
      publish_locked-Life (done_event r reason) (pay_responder r now s₁)
        (pay_responder-Life r now s₁ l₁))
  where
    closed :
        (reason : FinishReason) (q e : Bool) (a : Option String)
        → q ≡ false
        → e ≡ false
        → Stage (completed_request reason now r).status (completed_request reason now r) r.id q a e
    closed partial q e a hq he = (hq, he)
    closed FinishReason.unset q e a hq he = (hq, he)
    closed FinishReason.stop q e a hq he = (hq, he)
    closed FinishReason.length q e a hq he = (hq, he)
