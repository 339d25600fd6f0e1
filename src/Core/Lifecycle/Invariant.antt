-- ===== src/Core/Lifecycle/Invariant.antt =====
-- The well-formedness of the request tables of `Service`: queue, assignments, requests and fragments.
use deeperseek.Core.Types.{
  Request, Fragment, RequestStatus, queued, assigned, streaming, completed, timeout_completed,
  abandoned,
}
use deeperseek.Prelude.{
  String, ◌<>◌, Bool, true, false, Option, none, some, List, [], Dict, lookup, insert, at, ◌≡◌,
  refl, ◌≢◌, ◌⊎◌, inl, inr, contains, IsNodup, is_empty, String-cases, Option-cases, subst, sym, ap,
  ◌∙◌, lookup-insert_self, lookup-insert_ne,
}

-- Whether a responder holds a request of this status.
abbrev pub is_live : RequestStatus → Bool
is_live assigned = true
is_live streaming = true
is_live RequestStatus.created = false
is_live queued = false
is_live RequestStatus.typing = false
is_live completed = false
is_live timeout_completed = false
is_live RequestStatus.requeued = false
is_live abandoned = false

-- The session of the fallback belongs to its own request.
abbrev pub OwnFallback : String → String → Type 0
OwnFallback responder k = (j : String) → responder ≡ ("fallback_" <> j) → j ≡ k

-- What a status says of the tables: is the request queued, whom does its responder hold, is its
-- answer empty.
abbrev pub Stage : RequestStatus → Request → String → Bool → Option String → Bool → Type 0
Stage queued r k q a e = (q ≡ true) × (r.responder_session_id ≡ "") × (e ≡ true)
Stage assigned r k q a e =
    (q ≡ false)
    × (a ≡ some k)
    × (e ≡ true)
    × (r.responder_session_id ≢ "")
    × OwnFallback r.responder_session_id k
Stage streaming r k q a e =
    (q ≡ false)
    × (a ≡ some k)
    × (e ≡ false)
    × (r.responder_session_id ≢ "")
    × OwnFallback r.responder_session_id k
Stage completed r k q a e = (q ≡ false) × (e ≡ false)
Stage timeout_completed r k q a e = (q ≡ false) × (e ≡ false)
Stage abandoned r k q a e = (q ≡ false) × (e ≡ true) × (r.responder_session_id ≡ "")
Stage RequestStatus.created r k q a e = ⊥
Stage RequestStatus.typing r k q a e = ⊥
Stage RequestStatus.requeued r k q a e = ⊥

abbrev pub Staged :
    List String → Dict String → Dict (List Fragment) → String → Option Request → Type 0
Staged queue active fragments k none =
    (contains queue k ≡ false) × (is_empty (at [] k fragments) ≡ true)
Staged queue active fragments k (some r) =
    (r.id ≡ k)
    × (k ≢ "")
    × Stage r.status r k (contains queue k) (lookup r.responder_session_id active)
        (is_empty (at [] k fragments))

pub record Held (requests : Dict Request) (x k : String) : Type 0 where
  pub request : Request
  pub found : lookup k requests ≡ some request
  pub live : is_live request.status ≡ true
  pub holder : request.responder_session_id ≡ x

pub record Life (requests : Dict Request) (queue : List String) (active : Dict String)
    (fragments : Dict (List Fragment)) : Type 0 where
  pub once : IsNodup queue
  pub staged : (k : String) → Staged queue active fragments k (lookup k requests)
  pub held : (x k : String) → lookup x active ≡ some k → Held requests x k

module _ {requests : Dict Request} {queue : List String} {active : Dict String}
    {fragments : Dict (List Fragment)} (l : Life requests queue active fragments) where
  pub found-Staged :
      (k : String) (r : Request)
      → lookup k requests ≡ some r
      → Staged queue active fragments k (some r)
  found-Staged k r e = subst (Staged queue active fragments k) e (l.staged k)

  pub found-Stage :
      (k : String) (r : Request) (t : RequestStatus)
      → lookup k requests ≡ some r
      → r.status ≡ t
      → Stage t r k
          (contains queue k)
          (lookup r.responder_session_id active)
          (is_empty (at [] k fragments))
  found-Stage k r t e status =
      subst
        (λ u.
          Stage u r k (contains queue k) (lookup r.responder_session_id active)
            (is_empty (at [] k fragments)))
        status (found-Staged k r e).2

  -- What is queued has the status `queued`.
  pub contains-queued :
      (k : String)
      → contains queue k ≡ true
      → (r : Request) × (lookup k requests ≡ some r) × (r.status ≡ queued)
  contains-queued k c = elim (Option-cases (lookup k requests)) [
    | inl nothing ↦ cc (c, (subst (Staged queue active fragments k) nothing (l.staged k)).0)
    | inr (r, e) ↦ (r, e, go r r.status _ _ _ (found-Staged k r e).2 c)
  ]
    where
      go :
          (r : Request) (t : RequestStatus) (q e : Bool) (a : Option String)
          → Stage t r k q a e
          → q ≡ true
          → t ≡ queued
      go r queued q e a st h = refl
      go r assigned q e a st h = cc (st.0)
      go r streaming q e a st h = cc (st.0)
      go r completed q e a st h = cc (st.0)
      go r timeout_completed q e a st h = cc (st.0)
      go r abandoned q e a st h = cc (st.0)
      go r RequestStatus.created q e a st h = absurd st
      go r RequestStatus.typing q e a st h = absurd st
      go r RequestStatus.requeued q e a st h = absurd st

  -- A responder that has no request has no entry.
  pub idle-none : (x : String) → at "" x active ≡ "" → lookup x active ≡ none
  idle-none x idle = elim (Option-cases (lookup x active)) [
    | inl e ↦ e
    | inr (k, e) ↦
        let h = l.held x k e in absurd ((found-Staged k h.request h.found).1 (rw e at idle))
  ]

  -- A responder holds the request that it is assigned to.
  pub live-active :
      (k : String) (r : Request)
      → lookup k requests ≡ some r
      → is_live r.status ≡ true
      → lookup r.responder_session_id active ≡ some k
  live-active k r e h = go r.status _ _ _ (found-Staged k r e).2 h
    where
      go :
          (t : RequestStatus) (q e : Bool) (a : Option String)
          → Stage t r k q a e
          → is_live t ≡ true
          → a ≡ some k
      go assigned q e a st h = st.1
      go streaming q e a st h = st.1
      go RequestStatus.created q e a st h = cc
      go queued q e a st h = cc
      go RequestStatus.typing q e a st h = cc
      go completed q e a st h = cc
      go timeout_completed q e a st h = cc
      go RequestStatus.requeued q e a st h = cc
      go abandoned q e a st h = cc

Staged-transfer :
    (queue queue' : List String) (active active' : Dict String)
    (fragments fragments' : Dict (List Fragment)) (k : String) (o : Option Request)
    → contains queue' k ≡ contains queue k
    → at [] k fragments' ≡ at [] k fragments
    → ((x : String) → lookup x active ≡ some k → lookup x active' ≡ some k)
    → Staged queue active fragments k o
    → Staged queue' active' fragments' k o
Staged-transfer queue queue' active active' fragments fragments' k none q f a s = rw (q, f) s
Staged-transfer queue queue' active active' fragments fragments' k (some r) q f a s =
    rw (q, f) (s.0, s.1, go r.status _ _ _ _ (a r.responder_session_id) s.2)
  where
    go :
        (t : RequestStatus) (c e : Bool) (o o' : Option String)
        → (o ≡ some k → o' ≡ some k)
        → Stage t r k c o e
        → Stage t r k c o' e
    go queued c e o o' h st = st
    go assigned c e o o' h st = (st.0, h st.1, st.2, st.3, st.4)
    go streaming c e o o' h st = (st.0, h st.1, st.2, st.3, st.4)
    go completed c e o o' h st = st
    go timeout_completed c e o o' h st = st
    go abandoned c e o o' h st = st
    go RequestStatus.created c e o o' h st = st
    go RequestStatus.typing c e o o' h st = st
    go RequestStatus.requeued c e o o' h st = st

-- Writing one request keeps the tables well formed, if they agree with the new record at its id and
-- change nowhere else.
module _ {requests : Dict Request} {queue : List String} {active : Dict String}
    {fragments : Dict (List Fragment)} (l : Life requests queue active fragments) (k₀ : String)
    (r : Request) (queue' : List String) (active' : Dict String)
    (fragments' : Dict (List Fragment)) where
  pub Life-put :
      IsNodup queue'
      → Staged queue' active' fragments' k₀ (some r)
      → ((k : String)
          → k₀ ≢ k
          → (contains queue' k ≡ contains queue k) × (at [] k fragments' ≡ at [] k fragments))
      → ((x k : String) → k₀ ≢ k → lookup x active ≡ some k → lookup x active' ≡ some k)
      → ((x k : String)
          → lookup x active' ≡ some k
          → ((k₀ ≢ k) × (lookup x active ≡ some k))
            ⊎ ((k₀ ≡ k) × (is_live r.status ≡ true) × (r.responder_session_id ≡ x)))
      → Life (insert k₀ r requests) queue' active' fragments'
  Life-put once here others kept back = record {
    once = once;
    staged = λ k. elim (String-cases k₀ k) [
      | inl same ↦
          subst (Staged queue' active' fragments' k)
            (sym (ap (λ j. lookup k (insert j r requests)) same ∙ lookup-insert_self k r requests))
            (subst (λ j. Staged queue' active' fragments' j (some r)) same here)
      | inr other ↦
          subst (Staged queue' active' fragments' k) (sym (lookup-insert_ne k₀ k r requests other))
            (Staged-transfer queue queue' active active' fragments fragments' k (lookup k requests)
              (others k other).0 (others k other).1 (λ x. kept x k other) (l.staged k))
    ];
    held = λ x k e. elim (back x k e) [
      | inl (other, old) ↦
          let h = l.held x k old in
          record {
            request = h.request;
            found = lookup-insert_ne k₀ k r requests other ∙ h.found;
            live = h.live;
            holder = h.holder;
          }
      | inr (same, live, holder) ↦ record {
        request = r;
        found = ap (λ j. lookup k (insert j r requests)) same ∙ lookup-insert_self k r requests;
        live = live;
        holder = holder;
      }
    ];
  }
