-- ===== src/Core/Valid/Others.antt =====
-- The operations that leave the request tables alone, or write a field that they do not look at.
use deeperseek.Core.Accounts.{Bcrypt, add_account, register, login, guest_session, persona_session}
use deeperseek.Core.Conversations.{
  create_conversation, rename_conversation, set_conversation_archived, delete_conversation,
  append_conversation_message,
}
use deeperseek.Core.Lifecycle.Invariant.{Life, Stage, found-Staged, Life-put, is_live}
use deeperseek.Core.Lifecycle.Steps.{LifeOf}
use deeperseek.Core.Points.{create_session_locked}
use deeperseek.Core.Reactions.{react, apply_reaction, is_zero, reward_change}
use deeperseek.Core.Requests.{subscribe}
use deeperseek.Core.Responders.{register_responder, mark_responder_available, resume_responder}
use deeperseek.Core.Sessions.{insert-AreNamed}
use deeperseek.Core.State.{Service, is_unset, add_ledger_locked}
use deeperseek.Core.Types.{Time, Session, Request, RequestStatus, Reaction, Kind, human}
use deeperseek.Core.Valid.{IsValid}
use deeperseek.Core.Valid.Responding.{make_available-Searched}
use deeperseek.Prelude.{
  String, Bool, true, false, ◌||◌, trim_space, Option, none, some, lookup, insert, ◌≡◌, refl, inl,
  inr, arith, sym, ap, ◌∙◌, eq_iff, ◌==◌, Bool-cases, Option-cases,
}

-- A reaction is a field that the tables do not look at.
module _ (s : Service) (r : Request) (reaction : Reaction) (l : LifeOf s)
    (found : lookup r.id s.requests ≡ some r) where
  reacted : Request
  reacted = record r { reaction = reaction }

  reacted-Stage :
      (t : RequestStatus) (q e : Bool) (a : Option String)
      → Stage t r r.id q a e
      → Stage t reacted r.id q a e
  unfolding reacted
  reacted-Stage RequestStatus.created q e a st = st
  reacted-Stage RequestStatus.queued q e a st = st
  reacted-Stage RequestStatus.assigned q e a st = st
  reacted-Stage RequestStatus.typing q e a st = st
  reacted-Stage RequestStatus.streaming q e a st = st
  reacted-Stage RequestStatus.completed q e a st = st
  reacted-Stage RequestStatus.timeout_completed q e a st = st
  reacted-Stage RequestStatus.requeued q e a st = st
  reacted-Stage RequestStatus.abandoned q e a st = st

  reacted-Life : Life (insert r.id reacted s.requests) s.queue s.active_by_res s.fragments
  unfolding reacted
  reacted-Life =
      let st = found-Staged l r.id r found in
      Life-put l r.id reacted s.queue s.active_by_res s.fragments l.once
        (refl, st.1, reacted-Stage r.status _ _ _ st.2) (λ k other. (refl, refl)) (λ x k other e. e)
        (λ x k e. elim (Bool-cases (r.id == k)) [
          | inr miss ↦ inl ((λ same. cc (miss, (eq_iff r.id k).1 same)), e)
          | inl hit ↦
              let same = (eq_iff r.id k).0 hit in
              let h = l.held x k e in
              let one : some r ≡ some h.request =
                sym found ∙ ap (λ j. lookup j s.requests) same ∙ h.found in
              inr (
                same,
                ap (λ (o : Option Request). live o) one ∙ h.live,
                ap (λ (o : Option Request). responder o) one ∙ h.holder,
              )
        ])
    where
      live : Option Request → Bool
      live none = true
      live (some q) = is_live q.status

      responder : Option Request → String
      responder none = ""
      responder (some q) = q.responder_session_id

apply_reaction-IsValid :
    (session : Session) (r : Request) (reaction : Reaction) (now : Time) (s : Service)
    → IsValid s
    → lookup r.id s.requests ≡ some r
    → IsValid (apply_reaction session r reaction now s).1
unfolding apply_reaction reacted add_ledger_locked
apply_reaction-IsValid session r reaction now s v found =
    let l = reacted-Life s r reaction v.tables found in
    elim (Bool-cases (r.responder_guest || is_unset r.responder_user_id)) [
      | inl unpaid ↦ rw unpaid (record { tables = l; named = v.named })
      | inr paid ↦ elim (Bool-cases (is_zero (reward_change r.reaction reaction))) [
        | inl same ↦ rw paid (rw same (record { tables = l; named = v.named }))
        | inr moved ↦ rw paid (rw moved (record { tables = l; named = v.named }))
      ]
    ]

pub react-IsValid :
    (token id : String) (reaction : Reaction) (now later : Time) (s : Service)
    → IsValid s
    → IsValid (react token id reaction now later s).1
unfolding react
react-IsValid token id reaction now later s v =
    elim (Option-cases (lookup token s.sessions_by_tok)) [
      | inl unknown ↦ ground (arith, v)
      | inr (session, known) ↦ elim (Option-cases (lookup id s.requests)) [
        | inl missing ↦ ground (arith, v)
        | inr (r, found) ↦
            let keyed : r.id ≡ id = (found-Staged v.tables id r found).0 in
            let written =
              apply_reaction-IsValid session r reaction later s v
                (ap (λ j. lookup j s.requests) keyed ∙ found) in
            ground (arith, v, written)
      ]
    ]

pub register_responder-IsValid :
    (token : String) (s : Service) → IsValid s → IsValid (register_responder token s).1
unfolding register_responder
register_responder-IsValid token s v = ground (arith, v.tables, v.named)

pub subscribe-IsValid : (id : String) (s : Service) → IsValid s → IsValid (subscribe id s).1
unfolding subscribe
subscribe-IsValid id s v = ground (arith, v.tables, v.named)

pub resume_responder-IsValid :
    (session : String) (now : Time) (s : Service)
    → IsValid s
    → IsValid (resume_responder session now s).1
unfolding resume_responder
resume_responder-IsValid session now s v =
    ground (arith, v, (make_available-Searched s session now v).valid)

pub mark_responder_available-IsValid :
    (session : String) (accept : Option Bool) (now : Time) (s : Service)
    → IsValid s
    → IsValid (mark_responder_available session accept now s).1
unfolding mark_responder_available
mark_responder_available-IsValid session accept now s v =
    elim (Option-cases (lookup session s.responders)) [
      | inl unknown ↦ rw (unknown, mark_responder_available) v
      | inr (chan, known) ↦
          rw (known, mark_responder_available)
            (make_available-Searched _ session now
              (record { tables = v.tables; named = v.named })).valid
    ]

create_session_locked-IsValid :
    (user : String) (guest : Bool) (nickname : String) (kind : Kind) (now : Time) (s : Service)
    → IsValid s
    → IsValid (create_session_locked user guest nickname kind now s).1
unfolding create_session_locked
create_session_locked-IsValid user guest nickname kind now s v = record {
  tables = v.tables;
  named = insert-AreNamed _ _ s.sessions_by_tok (s.entropy s.drawn, refl) v.named;
}

pub guest_session-IsValid :
    (nickname : String) (now : Time) (s : Service)
    → IsValid s
    → IsValid (guest_session nickname now s).1
unfolding guest_session
guest_session-IsValid nickname now s v = create_session_locked-IsValid _ _ _ _ now s v

pub persona_session-IsValid :
    (nickname : String) (now : Time) (s : Service)
    → IsValid s
    → IsValid (persona_session nickname now s).1
unfolding persona_session
persona_session-IsValid nickname now s v = create_session_locked-IsValid _ _ _ _ now s v

module _ (b : Bcrypt) where
  add_account-IsValid :
      (account nickname hash : String) (now : Time) (s : Service)
      → IsValid s
      → IsValid (add_account b account nickname hash now s).1
  unfolding add_account
  add_account-IsValid account nickname hash now s v =
      elim (Option-cases (lookup account s.users_by_account)) [
        | inr (id, taken) ↦ rw (taken, add_account) v
        | inl free ↦
            rw (free, add_account)
              (record {
                tables = v.tables;
                named = insert-AreNamed _ _ s.sessions_by_tok (_, refl) v.named;
              })
      ]

  pub register-IsValid :
      (salt account nickname password repeated : String) (now : Time) (s : Service)
      → IsValid s
      → IsValid (register b salt account nickname password repeated now s).1
  unfolding register
  register-IsValid salt account nickname password repeated now s v =
      elim (Option-cases (b.generate salt password)) [
        | inl failed ↦ ground (arith, v)
        | inr (hash, made) ↦
            let added =
              add_account-IsValid (trim_space account) (trim_space nickname) hash now s v in
            ground (arith, v, added)
      ]

  pub login-IsValid :
      (account password : String) (now : Time) (s : Service)
      → IsValid s
      → IsValid (login b account password now s).1
  unfolding login
  login-IsValid account password now s v =
      elim (Option-cases (lookup (trim_space account) s.users_by_account)) [
        | inl unknown ↦ ground (arith, v)
        | inr (id, known) ↦ elim (Option-cases (lookup id s.users)) [
          | inl missing ↦ ground (arith, v)
          | inr (user, found) ↦
              let entered =
                create_session_locked-IsValid user.id false user.nickname human now s v in
              ground (arith, v, entered)
        ]
      ]

pub create_conversation-IsValid :
    (token title : String) (now : Time) (s : Service)
    → IsValid s
    → IsValid (create_conversation token title now s).1
unfolding create_conversation
create_conversation-IsValid token title now s v = ground (arith, v.tables, v.named)

module _ (token id : String) (s : Service) (v : IsValid s) where
  pub rename_conversation-IsValid :
      (title : String) (now : Time) → IsValid (rename_conversation token id title now s).1
  unfolding rename_conversation
  rename_conversation-IsValid title now = ground (arith, v.tables, v.named)

  pub set_conversation_archived-IsValid :
      (archived : Bool) (now : Time) → IsValid (set_conversation_archived token id archived now s).1
  unfolding set_conversation_archived
  set_conversation_archived-IsValid archived now = ground (arith, v.tables, v.named)

  pub delete_conversation-IsValid : IsValid (delete_conversation token id s).1
  unfolding delete_conversation
  delete_conversation-IsValid = ground (arith, v.tables, v.named)

  pub append_conversation_message-IsValid :
      (role content source_kind request_id : String) (now : Time)
      → IsValid (append_conversation_message token id role content source_kind request_id now s).1
  unfolding append_conversation_message
  append_conversation_message-IsValid role content source_kind request_id now =
      ground (arith, v.tables, v.named)
