-- ===== src/Core/Valid.antt =====
-- The invariant of `Service`: well-formed request tables and sessions whose ids are told apart from
-- those of the fallback. Each operation's module proves that the operation keeps it.
pub mod Moves
pub mod Responding
pub mod Submitting
pub mod Requesting
pub mod Sweeping
pub mod Others
use deeperseek.Core.Lifecycle.Invariant.{
  Life, Held, Staged, Stage, found-Staged, found-Stage, contains-queued, idle-none, Life-put,
  is_live,
}
use deeperseek.Core.Lifecycle.Steps.{LifeOf, requeue_locked-Life}
use deeperseek.Core.Lifecycle.{requeue_locked}
use deeperseek.Core.Matching.{hand_out, try_assign_locked, assigned_to}
use deeperseek.Core.Matching.Oldest.{IsSettled}
use deeperseek.Core.Matching.Total.{Round, after_round, try_assign_locked-keeps}
use deeperseek.Core.Sessions.{
  AreNamed, IsSessionId, session_among-IsSessionId, IsSessionId-ne-nil, IsSessionId-ne-fallback,
}
use deeperseek.Core.State.{Service, assignment_capacity, session_by_id_locked, session_among}
use deeperseek.Core.Types.{
  Time, Session, Request, RequestStatus, queued, assigned, AssignedRequest, Fragment,
}
use deeperseek.Prelude.{
  ℕ, String, ◌<>◌, ◌==◌, Bool, true, false, Option, none, some, List, [], ◌∷◌, ◌++◌, Dict, lookup,
  insert, at, ◌≡◌, refl, ◌≢◌, ◌⊎◌, inl, inr, contains, without, contains-without, IsNodup-without,
  remove_at, remove_at-without, get_elem?-contains, is_empty, lookup-insert, lookup-insert_self,
  Bool-cases, eq_iff, arith, subst, sym, ap, ◌∙◌, if◌then◌else◌, ltb, length,
}

pub record IsValid (s : Service) : Type 0 where
  pub tables : LifeOf s
  pub named : AreNamed s.sessions_by_tok

module _ {requests : Dict Request} {queue : List String} {active : Dict String}
    {fragments : Dict (List Fragment)} (l : Life requests queue active fragments) (r : Request)
    (found : lookup r.id requests ≡ some r) (status : r.status ≡ queued) where
  -- A queued request is given to a responder that has none.
  pub assign-Life :
      (responder : String) (r' : Request)
      → lookup responder active ≡ none
      → responder ≢ ""
      → ((j : String) → responder ≡ ("fallback_" <> j) → j ≡ r.id)
      → r'.id ≡ r.id
      → r'.status ≡ assigned
      → r'.responder_session_id ≡ responder
      → Life (insert r.id r' requests) (without r.id queue) (insert responder r.id active) fragments
  assign-Life responder r' idle nonempty own same_id now_assigned holder =
      let st = found-Staged l r.id r found in
      let stage = found-Stage l r.id r queued found status in
      Life-put l r.id r' (without r.id queue) (insert responder r.id active) fragments
        (IsNodup-without queue r.id l.once)
        (
          same_id,
          st.1,
          subst
              (λ t.
                Stage t r' r.id (contains (without r.id queue) r.id)
                  (lookup r'.responder_session_id (insert responder r.id active))
                  (is_empty (at [] r.id fragments)))
              (sym now_assigned)
              (
                ground (arith, contains-without queue r.id r.id, eq_iff r.id r.id),
                ap (λ x. lookup x (insert responder r.id active)) holder
                    ∙ lookup-insert_self responder r.id active,
                stage.2,
                (λ e. nonempty (sym holder ∙ e)),
                (λ j e. own j (sym holder ∙ e)),
              ),
        )
        (λ k other. (ground (arith, contains-without queue r.id k, eq_iff r.id k), refl))
        (λ x k other e. ground (arith, lookup-insert responder x r.id active, eq_iff responder x))
        (λ x k e. elim (Bool-cases (responder == x)) [
          | inl hit ↦ inr (
            ground (arith, lookup-insert responder x r.id active),
            rw now_assigned refl,
            holder ∙ (eq_iff responder x).0 hit,
          )
          | inr miss ↦
              let old : lookup x active ≡ some k =
                ground (arith, lookup-insert responder x r.id active) in
              let h = l.held x k old in
              inl (
                λ same. not_waiting r.status status (
                    ap (λ (q : Option Request). live q)
                      (sym found ∙ ap (λ j. lookup j requests) same ∙ h.found)
                    ∙ h.live),
                old,
              )
        ])
    where
      live : Option Request → Bool
      live none = true
      live (some q) = is_live q.status

      not_waiting : (t : RequestStatus) → t ≡ queued → is_live t ≡ true → ⊥
      not_waiting t e h = ground arith

hand_out-Life :
    (now : Time) (responder : String) (r : Request) (chan : List AssignedRequest)
    (session : Session) (s : Service)
    → LifeOf s
    → lookup r.id s.requests ≡ some r
    → r.status ≡ queued
    → lookup responder s.active_by_res ≡ none
    → IsSessionId responder
    → LifeOf
        (hand_out now r.id responder r chan session (record s { queue = without r.id s.queue }))
unfolding hand_out
hand_out-Life now responder r chan session s l found status idle id =
    let r' = assigned_to responder session now r in
    let s₂ : Service = record s {
      requests = insert r.id r' s.requests;
      queue = without r.id s.queue;
      active_by_res = insert responder r.id s.active_by_res;
    } in
    let l₂ : LifeOf s₂ =
      assign-Life l r found status responder r' idle (IsSessionId-ne-nil id)
        (λ j e. absurd (IsSessionId-ne-fallback j id e)) refl refl refl in
    elim (Bool-cases (ltb (length chan) assignment_capacity)) [
      | inl room ↦ rw room l₂
      | inr full ↦
          rw full (requeue_locked-Life s₂ r' now l₂ (lookup-insert_self r.id r' s.requests) refl)
    ]

hand_out-sessions :
    (now : Time) (id responder : String) (r : Request) (chan : List AssignedRequest)
    (session : Session) (s : Service)
    → (hand_out now id responder r chan session s).sessions_by_tok ≡ s.sessions_by_tok
unfolding hand_out requeue_locked
hand_out-sessions now id responder r chan session s = ground arith

after_round-Life :
    (now : Time) (i j : ℕ) (s : Service) (o : Round now i j s)
    → IsValid s
    → LifeOf (after_round now i j s o)
unfolding session_by_id_locked
after_round-Life now i j s o v =
    let l = v.tables in
    let (r, found, status) = contains-queued l o.id (get_elem?-contains s.queue i o.queued_at) in
    let same : r ≡ o.request = cc (o.found) in
    let own_id : o.request.id ≡ o.id = (found-Staged l o.id o.request o.found).0 in
    let named = session_among-IsSessionId o.responder s.sessions_by_tok v.named o.known in
    let rest = remove_at s.available j in
    subst
      (λ q. LifeOf (
        hand_out now o.id o.responder o.request o.chan o.session
          (record s { queue = q; available = rest })))
      (sym (remove_at-without s.queue i o.queued_at l.once))
      (subst
        (λ d. LifeOf (
          hand_out now d o.responder o.request o.chan o.session
            (record s { queue = without d s.queue; available = rest })))
        own_id
        (hand_out-Life now o.responder o.request o.chan o.session (record s { available = rest }) l
          (subst (λ d. lookup d s.requests ≡ some o.request) (sym own_id) o.found)
          (ap (λ (q : Request). q.status) (sym same) ∙ status) (idle-none l o.responder o.idle)
          named))

-- A round of the search keeps the invariant, and so does the whole search.
after_round-IsValid :
    (now : Time) (i j : ℕ) (s : Service) (o : Round now i j s)
    → IsValid s
    → IsValid (after_round now i j s o)
after_round-IsValid now i j s o v = record {
  tables = after_round-Life now i j s o v;
  named =
      subst AreNamed
        (sym (
          hand_out-sessions now o.id o.responder o.request o.chan o.session
            (record s { queue = remove_at s.queue i; available = remove_at s.available j })))
        v.named;
}

pub try_assign_locked-IsValid :
    (now : Time) (s : Service)
    → IsValid s
    → (s' : Service) × (try_assign_locked now s ≡ some s') × IsValid s' × IsSettled s'
try_assign_locked-IsValid now s v =
    try_assign_locked-keeps IsValid now (after_round-IsValid now) s v
