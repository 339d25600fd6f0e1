-- ===== src/Pgredis/Conversations.antt =====
-- backend/internal/pgredis/conversations.go: the stored conversations, as statements on their two
-- tables, whose times are those that TIMESTAMPTZ keeps (`column`) and whose texts have no U+0000.
-- ListConversations, whose query leaves the order of equal times open, is not modelled.
pub mod Matches
pub mod Same
pub mod Histories
use deeperseek.Core.Conversations.{normalize_title}
use deeperseek.Core.State.{
  Result, ok, err, unauthorized, conversation_not_found, storage_failed, is_unset,
}
use deeperseek.Core.Types.{Time, Session, Conversation, ConversationMessage}
use deeperseek.Pgredis.Tables.{Db, new_id, column, has_nul}
use deeperseek.Prelude.{
  ℕ, ◌+◌, String, Bool, false, not, ◌&&◌, ◌||◌, Option, none, some, List, [], ◌∷◌, ◌++◌, Dict,
  lookup, insert, delete, keep, ◌==◌, ltb, if◌then◌else◌,
}

pub record MessageRow : Type 0 where
  pub conversation_id : String
  pub message : ConversationMessage

-- `conversations` is keyed by its primary key.
pub record Archive : Type 0 where
  pub db : Db
  pub conversations : Dict Conversation
  pub messages : List MessageRow

unfoldable pub owns_conversation : Session → Conversation → Bool
owns_conversation sess c =
    if sess.guest
    then c.guest_session_id == sess.id
    else not (is_unset c.owner_user_id) && c.owner_user_id == sess.user_id

unfoldable pub owned_conversation : Session → String → Archive → Result Conversation
owned_conversation sess id a = elim (lookup id a.conversations) [
  | none ↦ err conversation_not_found
  | some c ↦ if owns_conversation sess c then ok c else err conversation_not_found
]

-- `sessionByToken`, and `ownedConversation` for it.
unfoldable pub authorized : String → String → Archive → Result Conversation
authorized token id a = elim (lookup token a.db.sessions) [
  | none ↦ err unauthorized
  | some sess ↦ owned_conversation sess id a
]

abbrev conversation_of : Session → String → String → Time → Conversation
conversation_of sess id title t = record {
  id = id;
  owner_user_id = if sess.guest then "" else sess.user_id;
  guest_session_id = if sess.guest then sess.id else "";
  title = normalize_title title;
  archived = false;
  created_at = t;
  updated_at = t;
}

-- The row has the time that its columns keep, the reply that of the clock.
unfoldable pub create_conversation :
    String → String → Time → Archive → Result Conversation × Archive
unfolding new_id
create_conversation token title now a = elim (lookup token a.db.sessions) [
  | none ↦ (err unauthorized, a)
  | some sess ↦
      let (id, d) = new_id "cnv" a.db in
      if has_nul (normalize_title title) then (err storage_failed, record a { db = d }) else (
        ok (conversation_of sess id title now),
        record a {
          db = d;
          conversations = insert id (conversation_of sess id title (column now)) a.conversations;
        },
      )
]

-- `FROM conversation_messages WHERE conversation_id = $1`
unfoldable pub messages_of : String → List MessageRow → List ConversationMessage
messages_of id [] = []
messages_of id (row ∷ rows) =
    if row.conversation_id == id then row.message ∷ messages_of id rows else messages_of id rows

-- `ORDER BY seq`
unfoldable pub by_seq : ConversationMessage → List ConversationMessage → List ConversationMessage
by_seq m [] = m ∷ []
by_seq m (x ∷ xs) = let rest = by_seq m xs in if ltb x.seq m.seq then x ∷ rest else m ∷ x ∷ xs

unfoldable pub in_order : List ConversationMessage → List ConversationMessage
in_order [] = []
in_order (m ∷ ms) = by_seq m (in_order ms)

-- `COALESCE(MAX(seq), 0)`
unfoldable pub max_seq : List ConversationMessage → ℕ
max_seq [] = 0
max_seq (m ∷ ms) = let rest = max_seq ms in if ltb rest m.seq then m.seq else rest

unfoldable pub get_conversation :
    String → String → Archive → Result (Conversation × List ConversationMessage)
get_conversation token id a = elim (authorized token id a) [
  | err e ↦ err e
  | ok c ↦ ok (c, in_order (messages_of id a.messages))
]

-- `UPDATE conversations SET ... WHERE id = $1`
unfoldable pub update_conversation : String → (Conversation → Conversation) → Archive → Archive
update_conversation id set a = elim (lookup id a.conversations) [
  | none ↦ a
  | some c ↦ record a { conversations = insert id (set c) a.conversations }
]

unfoldable pub rename_conversation :
    String → String → String → Time → Archive → Result (Unit {0}) × Archive
rename_conversation token id title now a = elim (authorized token id a) [
  | err e ↦ (err e, a)
  | ok c ↦ if has_nul (normalize_title title) then (err storage_failed, a) else (
    ok tt,
    update_conversation id
        (λ row. record row { title = normalize_title title; updated_at = column now }) a,
  )
]

unfoldable pub set_conversation_archived :
    String → String → Bool → Time → Archive → Result (Unit {0}) × Archive
set_conversation_archived token id archived now a = elim (authorized token id a) [
  | err e ↦ (err e, a)
  | ok c ↦ (
    ok tt,
    update_conversation id (λ row. record row { archived = archived; updated_at = column now }) a,
  )
]

-- The messages go with their conversation.
unfoldable pub delete_conversation : String → String → Archive → Result (Unit {0}) × Archive
delete_conversation token id a = elim (authorized token id a) [
  | err e ↦ (err e, a)
  | ok c ↦ (
    ok tt,
    record a {
      conversations = delete id a.conversations;
      messages = keep (λ row. not (row.conversation_id == id)) a.messages;
    },
  )
]

abbrev message_of : String → ℕ → String → String → String → String → Time → ConversationMessage
message_of id seq role content source_kind request_id t = record {
  id = id;
  seq = seq;
  role = role;
  content = content;
  source_kind = source_kind;
  request_id = request_id;
  created_at = t;
}

abbrev pub any_nul : String → String → String → String → Bool
any_nul role content source_kind request_id =
    has_nul role || (has_nul content || (has_nul source_kind || has_nul request_id))

-- The two statements are a transaction.
unfoldable pub append_conversation_message :
    String
    → String
    → String
    → String
    → String
    → String
    → Time
    → Archive
    → Result ConversationMessage × Archive
unfolding new_id
append_conversation_message token id role content source_kind request_id now a =
    elim (authorized token id a) [
      | err e ↦ (err e, a)
      | ok c ↦
          let seq = max_seq (messages_of id a.messages) + 1 in
          let (msg_id, d) = new_id "msg" a.db in
          let msg = message_of msg_id seq role content source_kind request_id in
          let row : MessageRow = record { conversation_id = id; message = msg (column now) } in
          let a₁ = record a { db = d; messages = a.messages ++ row ∷ [] } in
          if any_nul role content source_kind request_id
          then (err storage_failed, record a { db = d })
          else (ok (msg now), update_conversation id (λ c. record c { updated_at = column now }) a₁)
    ]
