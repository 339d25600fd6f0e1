-- ===== src/Core/Responders/Answers.antt =====
-- What `SubmitFragment` does to the text of an answer, and what it does with a fragment sent twice.
use text.Mathlib.TextLemmas.{nil-append, append_assoc, append-nil, length-append}
use deeperseek.Core.Lifecycle.{publish_locked, pay_responder, complete_locked, done_event}
use deeperseek.Core.Responders.{
  not_positive, seq_key, store_fragment, stream_request, complete_if_full, fragment_event,
  commit_fragment, submit_to, submit_fragment,
}
use deeperseek.Core.State.{
  Service, Result, ok, is_terminal, fragments_of, active_request, join_text, answer_text_locked,
  is_unset,
}
use deeperseek.Core.Types.{Time, Request, Fragment, FinishReason, StreamEvent}
use deeperseek.Core.Valid.Moves.{held-Working}
use deeperseek.Core.Valid.Responding.{active-some}
use deeperseek.Core.Valid.Submitting.{submit_fragment-IsValid}
use deeperseek.Core.Valid.{IsValid}
use deeperseek.Prelude.{
  ◌+◌, ◌≤◌, String, count, ◌<>◌, Bool, true, false, Option, some, List, [], ◌∷◌, ◌++◌, ℤ, Dict,
  lookup, at, get_or, ◌≡◌, refl, ◌≢◌, inl, inr, arith, subst, sym, ap, ◌∙◌, eq_iff, ltb,
  lookup-insert_self, lookup-insert_ne, Bool-cases, Option-cases,
}

pub join_text-append :
    (fs : List Fragment) (f : Fragment) → join_text (fs ++ f ∷ []) ≡ (join_text fs <> f.text)
join_text-append [] f = append-nil f.text ∙ sym (nil-append f.text)
join_text-append (g ∷ fs) f =
    ap (λ t. g.text <> t) (join_text-append fs f) ∙ sym (append_assoc g.text (join_text fs) f.text)

-- The two tables that a fragment is kept in.
pub record SameTexts (s s' : Service) : Type 0 where
  pub texts : s'.fragments ≡ s.fragments
  pub seen : s'.seq_seen ≡ s.seq_seen

pub publish_locked-SameTexts : (e : StreamEvent) (s : Service) → SameTexts s (publish_locked e s)
unfolding publish_locked
publish_locked-SameTexts e s = record { texts = ground arith; seen = ground arith }

pub pay_responder-SameTexts :
    (r : Request) (now : Time) (s : Service) → SameTexts s (pay_responder r now s)
unfolding pay_responder
pay_responder-SameTexts r now s = record { texts = ground arith; seen = ground arith }

pub stream_request-SameTexts :
    (r : Request) (now : Time) (s : Service) → SameTexts s (stream_request r now s).1
unfolding stream_request
stream_request-SameTexts r now s = record { texts = ground arith; seen = ground arith }

pub complete_locked-SameTexts :
    (r : Request) (reason : FinishReason) (now : Time) (s : Service)
    → SameTexts s (complete_locked r reason now s)
unfolding complete_locked
complete_locked-SameTexts r reason now s = elim (Bool-cases (is_terminal r.status)) [
  | inl over ↦ rw over (record { texts = refl; seen = refl })
  | inr open_yet ↦
      let paid = pay_responder-SameTexts r now _ in
      let told = publish_locked-SameTexts (done_event r reason) (pay_responder r now _) in
      rw open_yet (record { texts = told.texts ∙ paid.texts; seen = told.seen ∙ paid.seen })
]

complete_if_full-SameTexts :
    (r : Request) (id : String) (now : Time) (s : Service)
    → SameTexts s (complete_if_full r id now s)
unfolding complete_if_full
complete_if_full-SameTexts r id now s =
    let done = complete_locked-SameTexts r FinishReason.length now s in
    record { texts = ground (arith, done.texts); seen = ground (arith, done.seen) }

commit_fragment-SameTexts :
    (session id key : String) (seq : ℤ) (text : String) (r : Request) (now : Time) (s : Service)
    → SameTexts
        (store_fragment session id key seq text now s).1
        (commit_fragment session id key seq text r now s).1
unfolding commit_fragment
commit_fragment-SameTexts session id key seq text r now s =
    let s₁ = (store_fragment session id key seq text now s).1 in
    let s₂ = (stream_request r now s₁).1 in
    let r' = (stream_request r now s₁).0 in
    let s₃ = publish_locked (fragment_event id text) s₂ in
    let a = stream_request-SameTexts r now s₁ in
    let b = publish_locked-SameTexts (fragment_event id text) s₂ in
    let c = complete_if_full-SameTexts r' id now s₃ in
    record { texts = c.texts ∙ b.texts ∙ a.texts; seen = c.seen ∙ b.seen ∙ a.seen }

-- An accepted fragment: its request, and that the answer had room for it.
record Accepted (session : String) (seq : ℤ) (text : String) (now : Time) (s : Service)
    (f : Fragment) (s' : Service) : Type 0 where
  request : Request
  found : lookup (active_request s session) s.requests ≡ some request
  room :
      ltb request.output_limit
        (count (answer_text_locked s (active_request s session)) + count text)
      ≡ false
  busy : is_unset (active_request s session) ≡ false
  positive : not_positive seq ≡ false
  made :
      f ≡ (store_fragment session (active_request s session) (seq_key session seq) seq text now s).0
  state :
      s'
      ≡ (commit_fragment session
          (active_request s session)
          (seq_key session seq)
          seq
          text
          request
          now
          s).1

submit_fragment-Accepted :
    (session : String) (seq : ℤ) (text : String) (now : Time) (s : Service) (f : Fragment)
    (s' : Service)
    → submit_fragment session seq text now s ≡ (ok (f, false), s')
    → Accepted session seq text now s f s'
unfolding submit_fragment submit_to commit_fragment
submit_fragment-Accepted session seq text now s f s' e =
    elim (Option-cases (lookup (active_request s session) s.requests)) [
      | inl missing ↦ ground arith
      | inr (r, found) ↦ record {
        request = r;
        found = found;
        room = ground arith;
        busy = ground arith;
        positive = ground arith;
        made = ground arith;
        state = ground arith;
      }
    ]

module _ (session id key : String) (seq : ℤ) (text : String) (now : Time) (s : Service) where
  pub fragments_of-store_self :
      fragments_of (store_fragment session id key seq text now s).1 id
      ≡ fragments_of s id ++ (store_fragment session id key seq text now s).0 ∷ []
  unfolding store_fragment
  fragments_of-store_self =
      ap (λ (o : Option (List Fragment)). get_or o []) (lookup-insert_self id _ s.fragments)

  pub fragments_of-store_ne :
      (k : String)
      → id ≢ k
      → fragments_of (store_fragment session id key seq text now s).1 k ≡ fragments_of s k
  unfolding store_fragment
  fragments_of-store_ne k other =
      ap (λ (o : Option (List Fragment)). get_or o []) (lookup-insert_ne id k _ s.fragments other)

-- What an accepted fragment does to the texts: that of its request grows by it at the end and stays
-- within the request's limit, and that of any other request stays.
pub record Appends (s s' : Service) (id text : String) : Type 0 where
  pub request : Request
  pub found : lookup id s.requests ≡ some request
  pub grown : answer_text_locked s' id ≡ (answer_text_locked s id <> text)
  pub bounded : count (answer_text_locked s' id) ≤ request.output_limit
  pub others : (k : String) → id ≢ k → answer_text_locked s' k ≡ answer_text_locked s k

-- If a fragment is accepted as new, the answer of the responder's request grows by its text at the
-- end and nowhere else, and stays within the request's limit. No other answer changes.
pub submit_fragment-Appends :
    (session : String) (seq : ℤ) (text : String) (now : Time) (s s' : Service) (f : Fragment)
    → submit_fragment session seq text now s ≡ (ok (f, false), s')
    → Appends s s' (active_request s session) text
unfolding answer_text_locked
submit_fragment-Appends session seq text now s s' f e =
    let a = submit_fragment-Accepted session seq text now s f s' e in
    let id = active_request s session in
    let key = seq_key session seq in
    let r = a.request in
    let same = (commit_fragment-SameTexts session id key seq text r now s).texts in
    let stored : (k : String)
        → fragments_of s' k ≡ fragments_of (store_fragment session id key seq text now s).1 k =
      λ k. ap (λ (t : Service). fragments_of t k) a.state ∙ ap (λ m. at [] k m) same in
    let grown : join_text (fragments_of s' id) ≡ (join_text (fragments_of s id) <> text) =
      ap join_text (stored id ∙ fragments_of-store_self session id key seq text now s)
      ∙ join_text-append (fragments_of s id) (store_fragment session id key seq text now s).0
      ∙ ap (λ t. join_text (fragments_of s id) <> t) (unfold store_fragment in refl) in
    record {
      request = r;
      found = a.found;
      grown = grown;
      bounded =
          ground
            (arith, a.room, ap count grown, length-append (join_text (fragments_of s id)) text);
      others = λ k other.
          ap join_text (stored k ∙ fragments_of-store_ne session id key seq text now s k other);
    }

seen-store :
    (session id key : String) (seq : ℤ) (text : String) (now : Time) (s : Service)
    → lookup key (at [] id (store_fragment session id key seq text now s).1.seq_seen)
      ≡ some (store_fragment session id key seq text now s).0
unfolding store_fragment
seen-store session id key seq text now s =
    ap (λ (o : Option (Dict Fragment)). lookup key (get_or o []))
      (lookup-insert_self id _ s.seq_seen)
    ∙ lookup-insert_self key _ (at [] id s.seq_seen)

-- In a state that meets the invariant: a fragment that was accepted and is sent again, with the same
-- number and any text but the empty one, while its responder still holds the same request, is
-- answered with the stored fragment, marked as a duplicate, and changes nothing.
pub submit_fragment_idem :
    (session : String) (seq : ℤ) (text again : String) (now later : Time) (s s' : Service)
    (f : Fragment)
    → IsValid s
    → submit_fragment session seq text now s ≡ (ok (f, false), s')
    → active_request s' session ≡ active_request s session
    → again ≢ ""
    → submit_fragment session seq again later s' ≡ (ok (f, true), s')
unfolding submit_fragment submit_to is_terminal
submit_fragment_idem session seq text again now later s s' f v e same nonempty =
    let a = submit_fragment-Accepted session seq text now s f s' e in
    let id = active_request s session in
    let key = seq_key session seq in
    let v' : IsValid s' =
      subst IsValid (ap (λ (p : Result (Fragment × Bool) × Service). p.1) e)
        (submit_fragment-IsValid session seq text now s v) in
    let busy : is_unset (active_request s' session) ≡ false = rw same a.busy in
    let w =
      held-Working s' session (active_request s' session) v'.tables (active-some s' session busy) in
    let known : lookup key (at [] (active_request s' session) s'.seq_seen) ≡ some f = rw same (
      ap (λ (t : Service). lookup key (at [] id t.seq_seen)) a.state
      ∙ ap (λ (m : Dict (Dict Fragment)). lookup key (at [] id m))
          (commit_fragment-SameTexts session id key seq text a.request now s).seen
      ∙ seen-store session id key seq text now s
      ∙ ap some (sym a.made)) in
    ground (arith, a.positive, busy, w.found, w.stage, known, nonempty, eq_iff again "")
