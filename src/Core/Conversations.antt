-- ===== src/Core/Conversations.antt =====
-- backend/internal/core/conversations.go: the stored conversations, each behind its owner.
use deeperseek.Core.State.{
  Service, Result, ok, err, unauthorized, conversation_not_found, new_id, is_unset,
}
use deeperseek.Core.Types.{Time, Session, Conversation, ConversationMessage}
use deeperseek.Prelude.{
  ◌+◌, String, count, Bool, false, not, ◌&&◌, Option, none, some, List, [], ◌∷◌, ◌++◌, Dict, lookup,
  insert, delete, at, length, ◌==◌, ltb, if◌then◌else◌, trim_space, take_runes,
}

unfoldable pub normalize_title : String → String
normalize_title title =
    let t = trim_space title in
    if is_unset t then "新对话" else if ltb 80 (count t) then take_runes 80 t else t

unfoldable pub owns_conversation_locked : Session → Option Conversation → Bool
owns_conversation_locked session none = false
owns_conversation_locked session (some c) =
    if session.guest
    then c.guest_session_id == session.id
    else not (is_unset c.owner_user_id) && c.owner_user_id == session.user_id

-- The session of the token and the conversation that it owns: the head of five operations.
unfoldable pub owned_conversation : String → String → Service → Result Conversation
owned_conversation token id s = elim (lookup token s.sessions_by_tok) [
  | none ↦ err unauthorized
  | some session ↦ elim (lookup id s.conversations) [
    | none ↦ err conversation_not_found
    | some c ↦
        if owns_conversation_locked session (some c) then ok c else err conversation_not_found
  ]
]

unfoldable pub create_conversation :
    String → String → Time → Service → Result Conversation × Service
unfolding new_id
create_conversation token title now s = elim (lookup token s.sessions_by_tok) [
  | none ↦ (err unauthorized, s)
  | some session ↦
      let (id, s₁) = new_id "cnv" s in
      let c : Conversation = record {
        id = id;
        owner_user_id = if session.guest then "" else session.user_id;
        guest_session_id = if session.guest then session.id else "";
        title = normalize_title title;
        archived = false;
        created_at = now;
        updated_at = now;
      } in
      (ok c, record s₁ { conversations = insert id c s₁.conversations })
]

unfoldable pub owned_among : Session → Dict Conversation → List Conversation
owned_among session [] = []
owned_among session ((id, c) ∷ m) =
    if owns_conversation_locked session (some c)
    then c ∷ owned_among session m
    else owned_among session m

-- `sort.Slice` by `UpdatedAt.After`.
unfoldable pub place_conversation : Conversation → List Conversation → List Conversation
place_conversation c [] = c ∷ []
place_conversation c (x ∷ xs) =
    if ltb c.updated_at x.updated_at then x ∷ place_conversation c xs else c ∷ x ∷ xs

unfoldable pub latest_first : List Conversation → List Conversation
latest_first [] = []
latest_first (c ∷ cs) = place_conversation c (latest_first cs)

unfoldable pub list_conversations : String → Service → Result (List Conversation)
list_conversations token s = elim (lookup token s.sessions_by_tok) [
  | none ↦ err unauthorized
  | some session ↦ ok (latest_first (owned_among session s.conversations))
]

unfoldable pub get_conversation :
    String → String → Service → Result (Conversation × List ConversationMessage)
get_conversation token id s = elim (owned_conversation token id s) [
  | err e ↦ err e
  | ok c ↦ ok (c, at [] id s.conv_messages)
]

-- The conversation as written through its pointer.
unfoldable pub put_conversation : String → Conversation → Service → Service
put_conversation id c s = record s { conversations = insert id c s.conversations }

unfoldable pub rename_conversation :
    String → String → String → Time → Service → Result (Unit {0}) × Service
unfolding put_conversation
rename_conversation token id title now s = elim (owned_conversation token id s) [
  | err e ↦ (err e, s)
  | ok c ↦
      (ok tt, put_conversation id (record c { title = normalize_title title; updated_at = now }) s)
]

unfoldable pub set_conversation_archived :
    String → String → Bool → Time → Service → Result (Unit {0}) × Service
unfolding put_conversation
set_conversation_archived token id archived now s = elim (owned_conversation token id s) [
  | err e ↦ (err e, s)
  | ok c ↦ (ok tt, put_conversation id (record c { archived = archived; updated_at = now }) s)
]

unfoldable pub delete_conversation : String → String → Service → Result (Unit {0}) × Service
delete_conversation token id s = elim (owned_conversation token id s) [
  | err e ↦ (err e, s)
  | ok c ↦ (
    ok tt,
    record s {
      conversations = delete id s.conversations;
      conv_messages = delete id s.conv_messages;
    },
  )
]

unfoldable pub append_conversation_message :
    String
    → String
    → String
    → String
    → String
    → String
    → Time
    → Service
    → Result ConversationMessage × Service
unfolding new_id put_conversation
append_conversation_message token id role content source_kind request_id now s =
    elim (owned_conversation token id s) [
      | err e ↦ (err e, s)
      | ok c ↦
          let (msg_id, s₁) = new_id "msg" s in
          let msg : ConversationMessage = record {
            id = msg_id;
            seq = length (at [] id s₁.conv_messages) + 1;
            role = role;
            content = content;
            source_kind = source_kind;
            request_id = request_id;
            created_at = now;
          } in
          let s₂ = record s₁ {
            conv_messages = insert id (at [] id s₁.conv_messages ++ msg ∷ []) s₁.conv_messages;
          } in
          (ok msg, put_conversation id (record c { updated_at = now }) s₂)
    ]
