-- ===== src/Core/Matching/Oldest.antt =====
-- What `compatible_pair_locked` finds: the oldest request that some available responder may take.
use deeperseek.Core.Matching.{
  responder_accepts_ai_locked, takes, first_responder, is_waiting, responder_for, first_pair,
  compatible_pair_locked,
}
use deeperseek.Core.State.{
  Service, is_terminal, kind_or_human, session_by_id_locked, active_request,
}
use deeperseek.Core.Types.{Session, Request, streaming, ai_persona}
use deeperseek.Prelude.{
  ℕ, zero, suc, ◌<◌, String, true, false, Option, none, some, List, [], ◌∷◌, lookup, get_elem?, ◌≡◌,
  refl, ◌≢◌, ◌⊎◌, inl, inr, arith, eq_iff, Bool-cases, Option-cases,
}

-- The rules of the product for one request and one responder.
pub record IsCompatible (s : Service) (id responder : String) : Type 0 where
  pub request : Request
  pub found : lookup id s.requests ≡ some request
  pub unfinished : is_terminal request.status ≡ false
  pub unanswered : request.status ≢ streaming
  pub idle : active_request s responder ≡ ""
  pub connected : lookup responder s.responders ≢ none
  pub session : Session
  pub known : session_by_id_locked s responder ≡ some session
  pub reserved :
      (request.preferred_responder_session_id ≡ "")
      ⊎ (request.preferred_responder_session_id ≡ responder)
  pub ai_answers : kind_or_human session.kind ≡ ai_persona → request.allow_ai_answers ≡ true
  pub ai_questions :
      request.requester_kind ≡ ai_persona
      → (kind_or_human session.kind ≢ ai_persona) × (responder_accepts_ai_locked s responder ≡ true)

module _ (s : Service) where
  takes→IsCompatible :
      (id responder : String) (r : Request) (o : Option Session)
      → is_waiting (lookup id s.requests) ≡ some r
      → session_by_id_locked s responder ≡ o
      → takes s r responder o ≡ true
      → IsCompatible s id responder
  unfolding takes is_waiting
  takes→IsCompatible id responder r none w e h = cc
  takes→IsCompatible id responder r (some session) w e h = record {
    request = r;
    found = ground arith;
    unfinished = ground arith;
    unanswered = λ p. ground arith;
    idle = ground (arith, eq_iff (active_request s responder) "");
    connected = λ p. ground arith;
    session = session;
    known = e;
    reserved = ground (
      arith,
      eq_iff r.preferred_responder_session_id "",
      eq_iff r.preferred_responder_session_id responder,
    );
    ai_answers = λ p. ground arith;
    ai_questions = λ p. (λ q. ground arith, ground arith);
  }

  IsCompatible→takes :
      (id responder : String) (r : Request)
      → is_waiting (lookup id s.requests) ≡ some r
      → IsCompatible s id responder
      → takes s r responder (session_by_id_locked s responder) ≡ true
  unfolding takes is_waiting
  IsCompatible→takes id responder r w c =
      let same : r ≡ c.request = ground (arith, c.found) in
      rw c.known (
        ground (
          arith,
          c.idle,
          c.connected,
          c.reserved,
          c.ai_answers,
          c.ai_questions,
          eq_iff (active_request s responder) "",
          eq_iff r.preferred_responder_session_id "",
          eq_iff r.preferred_responder_session_id responder,
        ))

  IsCompatible-is_waiting :
      (id responder : String) (c : IsCompatible s id responder)
      → is_waiting (lookup id s.requests) ≡ some c.request
  unfolding is_waiting
  IsCompatible-is_waiting id responder c = rw c.found (ground (arith, c.unfinished, c.unanswered))

  abbrev Declines : Request → String → Type 0
  Declines r x = takes s r x (session_by_id_locked s x) ≡ false

  first_responder-none :
      (r : Request) (xs : List String) (l : ℕ) (x : String)
      → first_responder s r xs ≡ none
      → get_elem? xs l ≡ some x
      → Declines r x
  unfolding first_responder
  first_responder-none r [] l x e g = cc
  first_responder-none r (y ∷ xs) zero x e g = ground arith
  first_responder-none r (y ∷ xs) (suc l) x e g = ground (arith, first_responder-none r xs l x)

  first_responder-some :
      (r : Request) (xs : List String) (j : ℕ)
      → first_responder s r xs ≡ some j
      → (x : String) × (get_elem? xs j ≡ some x)
        × (takes s r x (session_by_id_locked s x) ≡ true)
        × ((l : ℕ) (y : String) → l < j → get_elem? xs l ≡ some y → Declines r y)
  unfolding first_responder
  first_responder-some r [] j e = cc
  first_responder-some r (y ∷ xs) j e = elim (Bool-cases (takes s r y (session_by_id_locked s y))) [
    | inl hit ↦
        let at_head : j ≡ 0 = ground arith in (y, rw at_head, hit, λ l z lt g. absurd (omega arith))
    | inr miss ↦ elim (Option-cases (first_responder s r xs)) [
      | inl nobody ↦ ground arith
      | inr (i, found) ↦
          let (x, g, h, before) = first_responder-some r xs i found in
          let next : j ≡ suc i = ground arith in
          (x, rw next g, h, λ l z lt gz. later i j miss next before l z lt gz)
    ]
  ]
    where
      later :
          (i j : ℕ)
          → Declines r y
          → j ≡ suc i
          → ((l : ℕ) (z : String) → l < i → get_elem? xs l ≡ some z → Declines r z)
          → (l : ℕ) (z : String) → l < j
          → get_elem? (y ∷ xs) l ≡ some z
          → Declines r z
      later i j miss next before zero z lt g = ground arith
      later i j miss next before (suc l) z lt g = before l z (omega arith) g

  -- The first position in the queue for which there is a responder, and nothing before it.
  first_pair-none :
      (q : List String) (k : ℕ) (x : String)
      → first_pair s q ≡ none
      → get_elem? q k ≡ some x
      → responder_for s x ≡ none
  unfolding first_pair
  first_pair-none [] k x e g = cc
  first_pair-none (y ∷ q) zero x e g = ground arith
  first_pair-none (y ∷ q) (suc k) x e g = ground (arith, first_pair-none q k x)

  first_pair-some :
      (q : List String) (i j : ℕ)
      → first_pair s q ≡ some (i, j)
      → (id : String) × (get_elem? q i ≡ some id)
        × (responder_for s id ≡ some j)
        × ((k : ℕ) (x : String) → k < i → get_elem? q k ≡ some x → responder_for s x ≡ none)
  unfolding first_pair
  first_pair-some [] i j e = cc
  first_pair-some (y ∷ q) i j e = elim (Option-cases (responder_for s y)) [
    | inr (m, hit) ↦
        let at_head : i ≡ 0 = ground arith in
        (y, rw at_head, ground arith, λ k z lt g. absurd (omega arith))
    | inl miss ↦ elim (Option-cases (first_pair s q)) [
      | inl nobody ↦ ground arith
      | inr ((i', j'), found) ↦
          let (x, g, h, before) = first_pair-some q i' j' found in
          let next : i ≡ suc i' = ground arith in
          let same : j ≡ j' = ground arith in
          (x, rw next g, rw same h, λ k z lt gz. later i' i miss next before k z lt gz)
    ]
  ]
    where
      later :
          (i' i : ℕ)
          → responder_for s y ≡ none
          → i ≡ suc i'
          → ((k : ℕ) (z : String) → k < i' → get_elem? q k ≡ some z → responder_for s z ≡ none)
          → (k : ℕ) (z : String) → k < i
          → get_elem? (y ∷ q) k ≡ some z
          → responder_for s z ≡ none
      later i' i miss next before zero z lt g = ground arith
      later i' i miss next before (suc k) z lt g = before k z (omega arith) g

  responder_for-none :
      (id : String) (l : ℕ) (y : String)
      → responder_for s id ≡ none
      → get_elem? s.available l ≡ some y
      → ¬ IsCompatible s id y
  unfolding responder_for
  responder_for-none id l y e g c =
      let w = IsCompatible-is_waiting id y c in
      let declined =
        first_responder-none c.request s.available l y (rw (w, responder_for) at e) g in
      cc (declined, IsCompatible→takes id y c.request w c)

  responder_for-some :
      (id : String) (j : ℕ)
      → responder_for s id ≡ some j
      → (y : String) × (get_elem? s.available j ≡ some y)
        × IsCompatible s id y
        × ((l : ℕ) (z : String) → l < j → get_elem? s.available l ≡ some z → ¬ IsCompatible s id z)
  unfolding responder_for
  responder_for-some id j e = elim (Option-cases (is_waiting (lookup id s.requests))) [
    | inl nothing ↦ cc (rw (nothing, responder_for) at e)
    | inr (r, w) ↦
        let (y, g, h, before) = first_responder-some r s.available j (rw (w, responder_for) at e) in
        (
          y,
          g,
          takes→IsCompatible id y r (session_by_id_locked s y) w refl h,
          λ l z lt gz c. cc (before l z lt gz, IsCompatible→takes id z r w c),
        )
  ]

-- The pair at positions `i` and `j` is compatible; no request before it in the queue has a
-- compatible responder, and no responder before it is compatible with this request.
pub record IsOldest (s : Service) (i j : ℕ) : Type 0 where
  pub id : String
  pub responder : String
  pub queued_at : get_elem? s.queue i ≡ some id
  pub available_at : get_elem? s.available j ≡ some responder
  pub compatible : IsCompatible s id responder
  pub older :
      (k l : ℕ) (x y : String)
      → k < i
      → get_elem? s.queue k ≡ some x
      → get_elem? s.available l ≡ some y
      → ¬ IsCompatible s x y
  pub sooner :
      (l : ℕ) (y : String) → l < j → get_elem? s.available l ≡ some y → ¬ IsCompatible s id y

-- A pair that is found is compatible by the rules of the product. Every request before it in the
-- queue is compatible with no available responder, and its request with none before its responder.
pub compatible_pair_locked-IsOldest :
    (s : Service) (i j : ℕ) → compatible_pair_locked s ≡ some (i, j) → IsOldest s i j
unfolding compatible_pair_locked
compatible_pair_locked-IsOldest s i j e =
    let (id, q, found, before) = first_pair-some s s.queue i j e in
    let (responder, a, c, sooner) = responder_for-some s id j found in
    record {
      id = id;
      responder = responder;
      queued_at = q;
      available_at = a;
      compatible = c;
      older = λ k l x y lt gx gy. responder_for-none s x l y (before k x lt gx) gy;
      sooner = sooner;
    }

-- No queued request is compatible with an available responder.
abbrev pub IsSettled : Service → Type 0
IsSettled s =
    (k l : ℕ) (x y : String)
    → get_elem? s.queue k ≡ some x
    → get_elem? s.available l ≡ some y
    → ¬ IsCompatible s x y

pub compatible_pair_locked-IsSettled : (s : Service) → compatible_pair_locked s ≡ none → IsSettled s
unfolding compatible_pair_locked
compatible_pair_locked-IsSettled s e k l x y gx gy =
    responder_for-none s x l y (first_pair-none s s.queue k x e gx) gy

-- If a pair is found, some queued request is compatible with an available responder.
pub IsSettled→compatible_pair_locked : (s : Service) → IsSettled s → compatible_pair_locked s ≡ none
IsSettled→compatible_pair_locked s h = elim (Option-cases (compatible_pair_locked s)) [
  | inl e ↦ e
  | inr ((i, j), e) ↦
      let o = compatible_pair_locked-IsOldest s i j e in
      absurd (h i j o.id o.responder o.queued_at o.available_at o.compatible)
]
