-- ===== src/Core/Valid/Responding.antt =====
-- Each operation of a responder keeps the invariant, and none of them panics.
use deeperseek.Core.Lifecycle.{requeue_locked}
use deeperseek.Core.Matching.{is_persona}
use deeperseek.Core.Responders.{
  release_on_disconnect, unregister_responder, make_available, finish, skip,
}
use deeperseek.Core.State.{Service, Result, ok, active_request, is_terminal, is_unset}
use deeperseek.Core.Types.{Time, RequestStatus, assigned, streaming, partial, stop}
use deeperseek.Core.Valid.{IsValid, try_assign_locked-IsValid}
use deeperseek.Core.Valid.Moves.{
  held-Working, requeue_locked-IsValid, abandon_locked-IsValid, complete_locked-IsValid,
}
use deeperseek.Prelude.{
  String, get_or, false, not, ◌||◌, Option, some, [], ◌∷◌, ◌++◌, lookup, delete, ◌≡◌, refl, ◌⊎◌,
  inl, inr, contains, without, sym, ap, ◌∙◌, Bool-cases, Option-cases, if◌then◌else◌,
}

-- A responder with an active request has an entry for it.
pub active-some :
    (s : Service) (x : String)
    → is_unset (active_request s x) ≡ false
    → lookup x s.active_by_res ≡ some (active_request s x)
active-some s x h = elim (Option-cases (lookup x s.active_by_res)) [
  | inl e ↦ absurd_test (rw e at h)
  | inr (k, e) ↦ e ∙ sym (ap (λ (o : Option String). some (get_or o "")) e)
]
  where
    absurd_test : is_unset "" ≡ false → lookup x s.active_by_res ≡ some (active_request s x)
    absurd_test h = cc

pub not_terminal : (t : RequestStatus) → (t ≡ assigned) ⊎ (t ≡ streaming) → is_terminal t ≡ false
unfolding is_terminal
not_terminal t (inl e) = rw e
not_terminal t (inr e) = rw e

-- A responder that leaves gives its request back, or completes it if part of it is answered.
pub release_on_disconnect-IsValid :
    (s : Service) (x k : String) (now : Time)
    → IsValid s
    → lookup x s.active_by_res ≡ some k
    → IsValid (release_on_disconnect k now s)
unfolding release_on_disconnect
release_on_disconnect-IsValid s x k now v e =
    let w = held-Working s x k v.tables e in
    elim w.stage [
      | inl (status, empty) ↦
          rw (w.found, release_on_disconnect)
            (rw (not_terminal _ (inl status)) (
              rw empty (elim (Bool-cases (is_unset w.request.preferred_responder_session_id)) [
                | inl any ↦ rw any (requeue_locked-IsValid s v w.request k w.found now status)
                | inr reserved ↦
                    rw reserved (abandon_locked-IsValid s v w.request k w.found now (inr status))
              ])))
      | inr (status, answered) ↦
          rw (w.found, release_on_disconnect)
            (rw (not_terminal _ (inr status))
              (rw answered (complete_locked-IsValid s v w.request k w.found now partial status)))
    ]

pub unregister_responder-IsValid :
    (s : Service) (session : String) (now : Time)
    → IsValid s
    → IsValid (unregister_responder session now s)
unfolding unregister_responder
unregister_responder-IsValid s session now v =
    elim (Bool-cases (is_unset (active_request s session))) [
      | inl idle ↦ rw idle (record { tables = v.tables; named = v.named })
      | inr busy ↦ rw busy (
          release_on_disconnect-IsValid (left s) session (active_request s session) now
            (record { tables = v.tables; named = v.named }) (active-some s session busy))
    ]
  where
    left : Service → Service
    left t = record t {
      responders = delete session t.responders;
      accept_ai = delete session t.accept_ai;
      available = without session t.available;
    }

-- The result of an operation that ends in a search: no panic, and the invariant.
pub record Searched (r : Result (Unit {0}) × Service) : Type 0 where
  pub fine : r.0 ≡ ok tt
  pub valid : IsValid r.1

pub make_available-Searched :
    (s : Service) (session : String) (now : Time)
    → IsValid s
    → Searched (make_available session now s)
unfolding make_available
make_available-Searched s session now v = elim (Bool-cases (is_unset (active_request s session))) [
  | inr busy ↦ rw busy (record { fine = refl; valid = v })
  | inl idle ↦
      let s₁ = listed s in
      let (s', run, v', settled) =
        try_assign_locked-IsValid now s₁ (record { tables = v.tables; named = v.named }) in
      rw idle (rw run (record { fine = refl; valid = v' }))
]
  where
    listed : Service → Service
    listed t = record t {
      available = if contains t.available session then t.available else t.available ++ session ∷ [];
    }

pub finish-IsValid :
    (s : Service) (session : String) (now : Time) → IsValid s → IsValid (finish session now s).1
unfolding finish
finish-IsValid s session now v = elim (Bool-cases (is_unset (active_request s session))) [
  | inl idle ↦ rw idle v
  | inr busy ↦
      let k = active_request s session in
      let w = held-Working s session k v.tables (active-some s session busy) in
      elim w.stage [
        | inl (status, empty) ↦ rw busy (rw (w.found, finish) (rw empty v))
        | inr (status, answered) ↦ rw busy (
            rw (w.found, finish)
              (rw answered (complete_locked-IsValid s v w.request k w.found now stop status)))
      ]
]

pub skip-IsValid :
    (s : Service) (session : String) (now later : Time)
    → IsValid s
    → IsValid (skip session now later s).1
unfolding skip
skip-IsValid s session now later v = elim (Bool-cases (is_unset (active_request s session))) [
  | inl idle ↦ rw idle v
  | inr busy ↦
      let k = active_request s session in
      let w = held-Working s session k v.tables (active-some s session busy) in
      let r = w.request in
      elim w.stage [
        | inr (status, answered) ↦ rw busy (rw (w.found, skip) (rw answered v))
        | inl (status, empty) ↦ rw busy (
            rw (w.found, skip)
              (rw empty
                (elim (Bool-cases (
                  not (is_unset r.preferred_responder_session_id) || is_persona r.requester_kind)) [
                    | inl gives_up ↦
                        rw gives_up (abandon_locked-IsValid s v r k w.found now (inr status))
                    | inr goes_back ↦
                        let (s', run, v', settled) =
                          try_assign_locked-IsValid later (requeue_locked r now s)
                            (requeue_locked-IsValid s v r k w.found now status) in
                        rw goes_back (rw run v')
                  ])))
      ]
]
