-- ===== src/Core/Valid/Requesting.antt =====
-- Each operation of a requester keeps the invariant, and none of them panics.
use text.Mathlib.TextLemmas.{append-eq-nil_iff, append_cancel_left}
use deeperseek.Core.Lifecycle.Invariant.{
  Life, Stage, Staged, found-Staged, Life-put, is_live, OwnFallback,
}
use deeperseek.Core.Lifecycle.Steps.{LifeOf}
use deeperseek.Core.Requests.{
  fresh_request, enqueue_request, create_request_for, create_request_with, create_request,
  create_targeted_request, acquire_fallback_assignment, fallback_session, fallback_request,
  may_fall_back, cancel_before_first_fragment, effective_limit,
}
use deeperseek.Core.State.{Service, Result, err, panic, validate_input, fragments_of, is_terminal}
use deeperseek.Core.Types.{
  Time, Message, Session, Request, RequestStatus, queued, assigned, streaming, question_cost,
}
use deeperseek.Core.Valid.{IsValid, assign-Life, try_assign_locked-IsValid}
use deeperseek.Core.Valid.Moves.{abandon_locked-IsValid}
use deeperseek.Prelude.{
  ℕ, suc, String, ◌<>◌, Bool, true, false, not, ◌||◌, Option, none, some, List, [], ◌∷◌, ◌++◌, ℤ,
  lookup, insert, ◌≡◌, refl, ◌≢◌, ◌⊎◌, inl, inr, is_empty, contains, without, contains-append,
  IsNodup-append, arith, subst, sym, ap, ◌∙◌, eq_iff, Bool-cases, Option-cases,
}

-- The id that the next request would get.
abbrev pub next_request_id : Service → String
next_request_id s = ("req" <> "_") <> s.entropy s.drawn

-- Random ids do not repeat: the one that `crypto/rand` gives next is not in use.
abbrev pub IsFresh : Service → Type 0
IsFresh s = lookup (next_request_id s) s.requests ≡ none

append-ne-nil : (p q : String) → p ≢ "" → (p <> q) ≢ ""
append-ne-nil p q h e = h (append-eq-nil_iff.0 e).0

prefix-ne-nil : ◌≢◌ {A = String} ("req" <> "_") ""
prefix-ne-nil e = ground (arith, eq_iff ("req" <> "_") "")

fallback_prefix-ne-nil : ◌≢◌ {A = String} "fallback_" ""
fallback_prefix-ne-nil e = ground (arith, eq_iff "fallback_" "")

-- A new request goes behind the queue.
enqueue-Life :
    (s : Service) (r : Request)
    → LifeOf s
    → lookup r.id s.requests ≡ none
    → r.id ≢ ""
    → r.status ≡ queued
    → r.responder_session_id ≡ ""
    → Life (insert r.id r s.requests) (s.queue ++ r.id ∷ []) s.active_by_res s.fragments
enqueue-Life s r l new nonempty status free =
    let st = subst (Staged s.queue s.active_by_res s.fragments r.id) new (l.staged r.id) in
    Life-put l r.id r (s.queue ++ r.id ∷ []) s.active_by_res s.fragments
      (IsNodup-append s.queue r.id st.0 l.once)
      (
        refl,
        nonempty,
        subst
            (λ t.
              Stage t r r.id (contains (s.queue ++ r.id ∷ []) r.id)
                (lookup r.responder_session_id s.active_by_res) (is_empty (fragments_of s r.id)))
            (sym status)
            (ground (arith, contains-append s.queue r.id r.id, eq_iff r.id r.id), free, st.1),
      )
      (λ k other. (ground (arith, contains-append s.queue r.id k, eq_iff r.id k), refl))
      (λ x k other e. e)
      (λ x k e.
        let h = l.held x k e in
        inl ((λ same. cc (new, ap (λ j. lookup j s.requests) same, h.found)), e))

-- The result of a creation: no panic, and the invariant.
pub record Created (r : Result Request × Service) : Type 0 where
  pub fine : r.0 ≢ err panic
  pub valid : IsValid r.1

enqueue_request-Created :
    (session : Session) (model : String) (messages : List Message) (limit frozen : ℕ)
    (allow_ai : Bool) (preferred : String) (now : Time) (s : Service)
    → IsValid s
    → IsFresh s
    → Created (enqueue_request session model messages limit frozen allow_ai preferred now s)
unfolding enqueue_request
enqueue_request-Created session model messages limit frozen allow_ai preferred now s v new =
    let id = next_request_id s in
    let r = fresh_request id session model messages limit frozen allow_ai preferred now in
    let s₃ : Service = record s {
      drawn = suc s.drawn;
      requests = insert id r s.requests;
      queue = s.queue ++ id ∷ [];
    } in
    let nonempty = append-ne-nil ("req" <> "_") (s.entropy s.drawn) prefix-ne-nil in
    let (s', run, v', settled) =
      try_assign_locked-IsValid now s₃
        (record { tables = enqueue-Life s r v.tables new nonempty refl refl; named = v.named }) in
    rw run (record { fine = λ e. cc; valid = v' })

module _ (s : Service) (v : IsValid s) (new : IsFresh s) where
  create_request_for-Created :
      (session : Session) (model : String) (messages : List Message) (limit : ℕ) (allow_ai : Bool)
      (preferred : String) (now : Time)
      → Created (create_request_for session model messages limit allow_ai preferred now s)
  unfolding create_request_for
  create_request_for-Created session model messages limit allow_ai preferred now = ground (
    arith,
    v,
    enqueue_request-Created session model messages limit 0 allow_ai preferred now s v new,
    enqueue_request-Created session model messages limit question_cost allow_ai preferred now s v
        new,
  )

  create_request_with-Created :
      (token model : String) (messages : List Message) (max_output : ℤ) (allow_ai : Bool)
      (preferred : String) (now : Time)
      → Created (create_request_with token model messages max_output allow_ai preferred now s)
  unfolding create_request_with validate_input
  create_request_with-Created token model messages max_output allow_ai preferred now =
      elim (Option-cases (lookup token s.sessions_by_tok)) [
        | inl unknown ↦ ground (arith, v)
        | inr (session, known) ↦
            let made =
              create_request_for-Created session model messages (effective_limit max_output)
                allow_ai preferred now in
            ground (arith, v, made)
      ]

  pub create_request-Created :
      (token model : String) (messages : List Message) (max_output : ℤ) (allow_ai : Option Bool)
      (now : Time)
      → Created (create_request token model messages max_output allow_ai now s)
  unfolding create_request
  create_request-Created token model messages max_output allow_ai now =
      create_request_with-Created token model messages max_output _ "" now

  pub create_targeted_request-Created :
      (token model : String) (messages : List Message) (max_output : ℤ) (preferred : String)
      (now : Time)
      → Created (create_targeted_request token model messages max_output preferred now s)
  unfolding create_targeted_request
  create_targeted_request-Created token model messages max_output preferred now =
      ground
        (arith, v, create_request_with-Created token model messages max_output false preferred now)

pub cancel_before_first_fragment-IsValid :
    (s : Service) (id : String) (now : Time)
    → IsValid s
    → IsValid (cancel_before_first_fragment id now s).1
unfolding cancel_before_first_fragment is_terminal
cancel_before_first_fragment-IsValid s id now v = elim (Option-cases (lookup id s.requests)) [
  | inl unknown ↦ rw (unknown, cancel_before_first_fragment) v
  | inr (r, found) ↦
      elim (Bool-cases (is_terminal r.status || not (is_empty (fragments_of s id)))) [
        | inl late ↦ rw (found, cancel_before_first_fragment) (rw late v)
        | inr early ↦
            rw (found, cancel_before_first_fragment)
              (rw early (
                abandon_locked-IsValid s v r id found now
                  (waits r r.status _ _ _ (found-Staged v.tables id r found).2 early)))
      ]
]
  where
    waits :
        (r : Request) (t : RequestStatus) (q e : Bool) (a : Option String)
        → Stage t r id q a e
        → (is_terminal t || not e) ≡ false
        → (t ≡ queued) ⊎ (t ≡ assigned)
    waits r queued q e a st h = inl refl
    waits r assigned q e a st h = inr refl
    waits r streaming q e a st h = ground arith
    waits r RequestStatus.created q e a st h = absurd st
    waits r RequestStatus.typing q e a st h = absurd st
    waits r RequestStatus.completed q e a st h = cc
    waits r RequestStatus.timeout_completed q e a st h = cc
    waits r RequestStatus.requeued q e a st h = absurd st
    waits r RequestStatus.abandoned q e a st h = cc

-- The session of a fallback holds no request before its own is given to it.
fallback-idle :
    (s : Service) (r : Request)
    → LifeOf s
    → lookup r.id s.requests ≡ some r
    → r.status ≡ queued
    → lookup (fallback_session r.id) s.active_by_res ≡ none
fallback-idle s r l found status =
    elim (Option-cases (lookup (fallback_session r.id) s.active_by_res)) [
      | inl e ↦ e
      | inr (k, e) ↦
          let h = l.held (fallback_session r.id) k e in
          let same : r.id ≡ k =
            own h.request h.request.status _ _ _ k (found-Staged l k h.request h.found).2 h.live
              r.id h.holder in
          absurd (
            not_live r.status status (
              ap (λ (o : Option Request). live o)
                (sym found ∙ ap (λ j. lookup j s.requests) same ∙ h.found)
              ∙ h.live))
    ]
  where
    own :
        (q : Request) (t : RequestStatus) (b e : Bool) (a : Option String) (k : String)
        → Stage t q k b a e
        → is_live t ≡ true
        → OwnFallback q.responder_session_id k
    own q assigned b e a k st h = st.4
    own q streaming b e a k st h = st.4
    own q queued b e a k st h = cc
    own q RequestStatus.created b e a k st h = absurd st
    own q RequestStatus.typing b e a k st h = absurd st
    own q RequestStatus.completed b e a k st h = cc
    own q RequestStatus.timeout_completed b e a k st h = cc
    own q RequestStatus.requeued b e a k st h = absurd st
    own q RequestStatus.abandoned b e a k st h = cc

    live : Option Request → Bool
    live none = true
    live (some q) = is_live q.status

    not_live : (t : RequestStatus) → t ≡ queued → is_live t ≡ true → ⊥
    not_live t e h = ground arith

pub acquire_fallback_assignment-IsValid :
    (s : Service) (id : String) (now : Time)
    → IsValid s
    → IsValid (acquire_fallback_assignment id now s).1
unfolding acquire_fallback_assignment may_fall_back
acquire_fallback_assignment-IsValid s id now v = elim (Option-cases (lookup id s.requests)) [
  | inl unknown ↦ rw (unknown, acquire_fallback_assignment) v
  | inr (r, found) ↦ elim (Bool-cases (may_fall_back s r)) [
    | inr refused ↦ rw (found, acquire_fallback_assignment) (rw refused v)
    | inl allowed ↦
        let status : r.status ≡ queued = ground arith in
        let keyed : r.id ≡ id = (found-Staged v.tables id r found).0 in
        let at_id : lookup r.id s.requests ≡ some r = ap (λ j. lookup j s.requests) keyed ∙ found in
        let l : Life (insert r.id (fallback_request now r) s.requests) (without r.id s.queue)
            (insert (fallback_session r.id) r.id s.active_by_res) s.fragments =
          assign-Life v.tables r at_id status (fallback_session r.id) (fallback_request now r)
            (fallback-idle s r v.tables at_id status)
            (append-ne-nil "fallback_" r.id fallback_prefix-ne-nil)
            (λ j e. sym (append_cancel_left "fallback_" r.id j e)) refl refl refl in
        rw (found, acquire_fallback_assignment)
          (rw allowed (record {
            tables =
                subst
                  (λ d.
                    Life (insert r.id (fallback_request now r) s.requests) (without d s.queue)
                      (insert (fallback_session d) d s.active_by_res) s.fragments)
                  keyed l;
            named = v.named;
          }))
  ]
]
