-- ===== src/Websocket/Released.antt =====
-- When a socket ends, its responder holds nothing and waits for nothing.
use deeperseek.Core.Lifecycle.{
  requeue_locked, abandon_locked, complete_locked, pay_responder, publish_locked,
}
use deeperseek.Core.Lifecycle.Invariant.{idle-none}
use deeperseek.Core.Responders.{unregister_responder, release_on_disconnect}
use deeperseek.Core.State.{
  Service, active_request, fragments_of, is_terminal, is_unset, remove_available_locked,
}
use deeperseek.Core.Types.{
  Time, Request, RequestStatus, assigned, streaming, FinishReason, StreamEvent, partial,
}
use deeperseek.Core.Valid.{IsValid}
use deeperseek.Core.Valid.Moves.{held-Working}
use deeperseek.Core.Valid.Responding.{active-some, not_terminal}
use deeperseek.Prelude.{
  String, Bool, true, false, none, some, lookup, delete, contains, contains-without, lookup-delete,
  lookup-delete_self, is_empty, ◌⊎◌, ◌≡◌, ap, ◌∙◌, inl, inr, arith, eq_iff, Bool-cases,
}

-- A responder that is not there: it holds no request, is not in the list and has no channel.
pub record IsGone (session : String) (s : Service) : Type 0 where
  pub idle : lookup session s.active_by_res ≡ none
  pub unlisted : contains s.available session ≡ false
  pub disconnected : lookup session s.responders ≡ none

live_status :
    {t : RequestStatus} {b : Bool}
    → (t ≡ assigned) × (b ≡ true) ⊎ (t ≡ streaming) × (b ≡ false)
    → (t ≡ assigned) ⊎ (t ≡ streaming)
live_status (inl h) = inl h.0
live_status (inr h) = inr h.0

publish_locked-IsGone :
    (session : String) (e : StreamEvent) (s : Service)
    → IsGone session s
    → IsGone session (publish_locked e s)
unfolding publish_locked
publish_locked-IsGone session e s g = ground arith

-- What has no entry for the responder but that of its request.
record IsLeaving (session : String) (s : Service) : Type 0 where
  unlisted : contains s.available session ≡ false
  disconnected : lookup session s.responders ≡ none

idle_after :
    (session holder : String) (s : Service)
    → holder ≡ session
    → lookup session (delete holder s.active_by_res) ≡ none
idle_after session holder s e =
    ground (arith, lookup-delete holder session s.active_by_res, eq_iff holder session)

requeue_locked-IsGone :
    (session : String) (r : Request) (now : Time) (s : Service)
    → r.responder_session_id ≡ session
    → IsLeaving session s
    → IsGone session (requeue_locked r now s)
unfolding requeue_locked
requeue_locked-IsGone session r now s e l = record {
  idle = idle_after session r.responder_session_id s e;
  unlisted = l.unlisted;
  disconnected = l.disconnected;
}

abandon_locked-IsGone :
    (session : String) (r : Request) (now : Time) (s : Service)
    → r.responder_session_id ≡ session
    → is_unset session ≡ false
    → IsLeaving session s
    → IsGone session (abandon_locked r now s)
unfolding abandon_locked
abandon_locked-IsGone session r now s e named l = publish_locked-IsGone session _ _ (record {
  idle =
      let held : is_unset r.responder_session_id ≡ false = ap is_unset e ∙ named in
      rw held (idle_after session r.responder_session_id s e);
  unlisted = l.unlisted;
  disconnected = l.disconnected;
})

pay_responder-IsGone :
    (session : String) (r : Request) (now : Time) (s : Service)
    → IsGone session s
    → IsGone session (pay_responder r now s)
unfolding pay_responder
pay_responder-IsGone session r now s g = ground arith

complete_locked-IsGone :
    (session : String) (r : Request) (reason : FinishReason) (now : Time) (s : Service)
    → r.responder_session_id ≡ session
    → is_terminal r.status ≡ false
    → IsLeaving session s
    → IsGone session (complete_locked r reason now s)
unfolding complete_locked
complete_locked-IsGone session r reason now s e open_yet l =
    rw (open_yet, complete_locked)
      (publish_locked-IsGone session _ _ (
        pay_responder-IsGone session r now _ (record {
          idle = idle_after session r.responder_session_id s e;
          unlisted = l.unlisted;
          disconnected = l.disconnected;
        })))

release_on_disconnect-IsGone :
    (session k : String) (now : Time) (s : Service)
    → IsValid s
    → lookup session s.active_by_res ≡ some k
    → is_unset session ≡ false
    → IsLeaving session s
    → IsGone session (release_on_disconnect k now s)
unfolding release_on_disconnect
release_on_disconnect-IsGone session k now s v e named l =
    let w = held-Working s session k v.tables e in
    let r = w.request in
    let open_yet : is_terminal r.status ≡ false = not_terminal r.status (live_status w.stage) in
    elim (Bool-cases (is_empty (fragments_of s k))) [
      | inr answered ↦
          rw (w.found, release_on_disconnect)
            (rw open_yet
              (rw answered (complete_locked-IsGone session r partial now s w.holder open_yet l)))
      | inl empty ↦ elim (Bool-cases (is_unset r.preferred_responder_session_id)) [
        | inl any ↦
            rw (w.found, release_on_disconnect)
              (rw open_yet (rw empty (rw any (requeue_locked-IsGone session r now s w.holder l))))
        | inr reserved ↦
            rw (w.found, release_on_disconnect)
              (rw open_yet
                (rw empty (rw reserved (abandon_locked-IsGone session r now s w.holder named l))))
      ]
    ]

-- A responder that leaves a valid service is gone.
pub unregister_responder-IsGone :
    (session : String) (now : Time) (s : Service)
    → IsValid s
    → is_unset session ≡ false
    → IsGone session (unregister_responder session now s)
unfolding unregister_responder remove_available_locked
unregister_responder-IsGone session now s v named =
    let s₁ = remove_available_locked session (record s {
      responders = delete session s.responders;
      accept_ai = delete session s.accept_ai;
    }) in
    let l : IsLeaving session s₁ = record {
      unlisted =
          ground (arith, contains-without s.available session session, eq_iff session session);
      disconnected = lookup-delete_self session s.responders;
    } in
    let v₁ : IsValid s₁ = record { tables = v.tables; named = v.named } in
    elim (Bool-cases (is_unset (active_request s session))) [
      | inl unset ↦
          rw (unset, unregister_responder)
            (record {
              idle = idle-none v.tables session ((eq_iff (active_request s session) "").0 unset);
              unlisted = l.unlisted;
              disconnected = l.disconnected;
            })
      | inr busy ↦
          rw (busy, unregister_responder)
            (release_on_disconnect-IsGone session (active_request s session) now s₁ v₁
              (active-some s session busy) named l)
    ]
