-- ===== src/Core/Valid/Submitting.antt =====
-- `SubmitFragment` keeps the invariant.
use deeperseek.Core.Lifecycle.Invariant.{Life, Stage, found-Staged, found-Stage, Life-put}
use deeperseek.Core.Lifecycle.Steps.{LifeOf}
use deeperseek.Core.Lifecycle.{publish_locked}
use deeperseek.Core.Responders.{
  charge_question, store_fragment, stream_request, complete_if_full, commit_fragment, submit_to,
  submit_fragment, fragment_event, seq_key, not_positive,
}
use deeperseek.Core.Sessions.{AreNamed}
use deeperseek.Core.State.{Service, active_request, answer_text_locked, fragments_of, is_unset}
use deeperseek.Core.Types.{Time, Request, assigned, streaming, FinishReason, Fragment}
use deeperseek.Core.Valid.{IsValid}
use deeperseek.Core.Valid.Moves.{
  held-Working, publish_locked-IsValid, publish_locked-requests, complete_locked-IsValid,
}
use deeperseek.Core.Valid.Responding.{active-some}
use deeperseek.Prelude.{
  String, ◌<>◌, count, false, Option, none, some, List, [], ◌∷◌, ◌++◌, ℤ, lookup, insert, at, ◌≡◌,
  refl, ◌≢◌, ◌⊎◌, inl, inr, is_empty, contains, arith, subst, sym, ap, ◌∙◌, eq_iff, ◌==◌,
  lookup-insert_self, lookup-insert_ne, Bool-cases, leb, get_or,
}

is_empty-append {ℓ} : {A : Type ℓ} (xs : List A) (x : A) → is_empty (xs ++ x ∷ []) ≡ false
is_empty-append [] x = refl
is_empty-append (y ∷ xs) x = refl

-- A held request that gets a fragment is streaming, under the same responder.
module _ (s : Service) (r : Request) (f : Fragment) (l : LifeOf s)
    (found : lookup r.id s.requests ≡ some r)
    (works : (r.status ≡ assigned) ⊎ (r.status ≡ streaming)) where
  abbrev HoldsIt : Type 0
  HoldsIt =
      (contains s.queue r.id ≡ false)
      × (lookup r.responder_session_id s.active_by_res ≡ some r.id)
      × (r.responder_session_id ≢ "")
      × ((j : String) → r.responder_session_id ≡ ("fallback_" <> j) → j ≡ r.id)

  holds : HoldsIt
  holds = elim works [
    | inl e ↦ let st = found-Stage l r.id r assigned found e in (st.0, st.1, st.3, st.4)
    | inr e ↦ let st = found-Stage l r.id r streaming found e in (st.0, st.1, st.3, st.4)
  ]

  stream-Life :
      (r' : Request)
      → r'.id ≡ r.id
      → r'.status ≡ streaming
      → r'.responder_session_id ≡ r.responder_session_id
      → Life
          (insert r.id r' s.requests)
          s.queue
          s.active_by_res
          (insert r.id (fragments_of s r.id ++ f ∷ []) s.fragments)
  stream-Life r' same_id now_streaming holder =
      let fragments' = insert r.id (fragments_of s r.id ++ f ∷ []) s.fragments in
      Life-put l r.id r' s.queue s.active_by_res fragments' l.once
        (
          same_id,
          (found-Staged l r.id r found).1,
          subst
              (λ t.
                Stage t r' r.id (contains s.queue r.id)
                  (lookup r'.responder_session_id s.active_by_res)
                  (is_empty (at [] r.id fragments')))
              (sym now_streaming)
              (
                holds.0,
                ap (λ x. lookup x s.active_by_res) holder ∙ holds.1,
                ap (λ (o : Option (List Fragment)). is_empty (get_or o []))
                      (lookup-insert_self r.id (fragments_of s r.id ++ f ∷ []) s.fragments)
                    ∙ is_empty-append (fragments_of s r.id) f,
                (λ e. holds.2 (sym holder ∙ e)),
                (λ j e. holds.3 j (sym holder ∙ e)),
              ),
        )
        (λ k other. (
          refl,
          ap (λ (o : Option (List Fragment)). get_or o [])
              (lookup-insert_ne r.id k (fragments_of s r.id ++ f ∷ []) s.fragments other),
        ))
        (λ x k other e. e)
        (λ x k e. elim (Bool-cases (r.id == k)) [
          | inl hit ↦
              let same = (eq_iff r.id k).0 hit in
              let h = l.held x k e in
              inr (
                same,
                rw now_streaming refl,
                holder
                    ∙ ap (λ (o : Option Request). resp o)
                        (sym found ∙ ap (λ j. lookup j s.requests) same ∙ h.found)
                    ∙ h.holder,
              )
          | inr miss ↦ inl ((λ same. cc (miss, (eq_iff r.id k).1 same)), e)
        ])
    where
      resp : Option Request → String
      resp none = ""
      resp (some q) = q.responder_session_id

-- The state once the fragment is stored.
abbrev stored : String → String → String → ℤ → String → Time → Service → Service
stored session id key seq text now s = (store_fragment session id key seq text now s).1

-- The request that is written, and the state with it.
pub record Streams (s : Service) (r : Request) (now : Time) : Type 0 where
  pub valid : IsValid (stream_request r now s).1
  pub written : lookup r.id (stream_request r now s).1.requests ≡ some (stream_request r now s).0
  pub streams : (stream_request r now s).0.status ≡ streaming

stream_request-Streams :
    (s : Service) (r : Request) (now : Time)
    → ((r' : Request)
        → r'.id ≡ r.id
        → r'.status ≡ streaming
        → r'.responder_session_id ≡ r.responder_session_id
        → Life (insert r.id r' s.requests) s.queue s.active_by_res s.fragments)
    → AreNamed s.sessions_by_tok
    → Streams s r now
unfolding stream_request
stream_request-Streams s r now l n = elim (Bool-cases r.question_charged) [
  | inl charged ↦ record {
    valid = rw (charged, charge_question) (record { tables = l _ refl refl refl; named = n });
    written = rw (charged, charge_question) (lookup-insert_self r.id _ s.requests);
    streams = refl;
  }
  | inr first ↦ elim (Bool-cases r.requester_guest) [
    | inl guest ↦ record {
      valid =
          rw (first, charge_question)
            (rw (guest, charge_question) (record { tables = l _ refl refl refl; named = n }));
      written =
          rw (first, charge_question)
            (rw (guest, charge_question) (lookup-insert_self r.id _ s.requests));
      streams = refl;
    }
    | inr member ↦ record {
      valid =
          rw (first, charge_question)
            (rw (member, charge_question) (record { tables = l _ refl refl refl; named = n }));
      written =
          rw (first, charge_question)
            (rw (member, charge_question) (lookup-insert_self r.id _ s.requests));
      streams = refl;
    }
  ]
]

complete_if_full-IsValid :
    (s : Service) (r : Request) (k id : String) (now : Time)
    → IsValid s
    → lookup k s.requests ≡ some r
    → r.status ≡ streaming
    → IsValid (complete_if_full r id now s)
unfolding complete_if_full
complete_if_full-IsValid s r k id now v found status =
    elim (Bool-cases (leb r.output_limit (count (answer_text_locked s id)))) [
      | inl full ↦ rw full (complete_locked-IsValid s v r k found now FinishReason.length status)
      | inr room ↦ rw room v
    ]

commit_fragment-IsValid :
    (session key : String) (seq : ℤ) (text : String) (r : Request) (now : Time) (s : Service)
    → IsValid s
    → lookup r.id s.requests ≡ some r
    → (r.status ≡ assigned) ⊎ (r.status ≡ streaming)
    → IsValid (commit_fragment session r.id key seq text r now s).1
unfolding commit_fragment store_fragment
commit_fragment-IsValid session key seq text r now s v found works =
    let f = (store_fragment session r.id key seq text now s).0 in
    let s₁ = (store_fragment session r.id key seq text now s).1 in
    let st = stream_request-Streams s₁ r now (stream-Life s r f v.tables found works) v.named in
    let s₂ = (stream_request r now s₁).1 in
    complete_if_full-IsValid (publish_locked (fragment_event r.id text) s₂)
      (stream_request r now s₁).0 r.id r.id now
      (publish_locked-IsValid (fragment_event r.id text) s₂ st.valid)
      (ap (λ m. lookup r.id m) (publish_locked-requests (fragment_event r.id text) s₂) ∙ st.written)
      st.streams

submit_to-IsValid :
    (session : String) (seq : ℤ) (text : String) (r : Request) (now : Time) (s : Service)
    → IsValid s
    → lookup r.id s.requests ≡ some r
    → (r.status ≡ assigned) ⊎ (r.status ≡ streaming)
    → IsValid (submit_to session r.id seq text r now s).1
unfolding submit_to
submit_to-IsValid session seq text r now s v found works =
    ground (
      arith,
      v,
      commit_fragment-IsValid session (seq_key session seq) seq text r now s v found works,
    )

pub submit_fragment-IsValid :
    (session : String) (seq : ℤ) (text : String) (now : Time) (s : Service)
    → IsValid s
    → IsValid (submit_fragment session seq text now s).1
unfolding submit_fragment
submit_fragment-IsValid session seq text now s v = elim (Bool-cases (not_positive seq)) [
  | inl bad ↦ rw bad v
  | inr positive ↦ elim (Bool-cases (is_unset text)) [
    | inl nothing ↦ rw positive (rw nothing v)
    | inr something ↦ elim (Bool-cases (is_unset (active_request s session))) [
      | inl idle ↦ rw positive (rw something (rw idle v))
      | inr busy ↦
          let k = active_request s session in
          let w = held-Working s session k v.tables (active-some s session busy) in
          let r = w.request in
          let works : (r.status ≡ assigned) ⊎ (r.status ≡ streaming) = elim w.stage [
            | inl (e, _) ↦ inl e
            | inr (e, _) ↦ inr e
          ] in
          rw positive (
            rw something (
              rw busy (
                rw (w.found, submit_fragment)
                  (subst (λ j. IsValid (submit_to session j seq text r now s).1) w.keyed
                    (submit_to-IsValid session seq text r now s v
                      (ap (λ j. lookup j s.requests) w.keyed ∙ w.found) works)))))
    ]
  ]
]
