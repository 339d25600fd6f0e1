-- ===== src/Pgredis/Conversations/Same.antt =====
-- Each operation on the tables does what the operation of the in-memory engine does.
use deeperseek.Core.Conversations
use deeperseek.Core.Conversations.{normalize_title}
use deeperseek.Core.State.{Service, Result, ok, err, Error}
use deeperseek.Core.Types.{Time, Conversation, ConversationMessage}
use deeperseek.Pgredis.Conversations.Matches.{
  AreNumbered, archive_of, Matches, in_order-AreNumbered, max_seq-length, AreNumbered-append,
  messages_of-append, messages_of-keep,
}
use deeperseek.Pgredis.Conversations.{
  MessageRow, Archive, owns_conversation, owned_conversation, authorized, create_conversation,
  any_nul, messages_of, max_seq, in_order, get_conversation, update_conversation,
  rename_conversation, set_conversation_archived, delete_conversation, append_conversation_message,
}
use deeperseek.Core.State
use deeperseek.Pgredis.Tables.{FragmentRow, new_id, column, has_nul}
use deeperseek.Prelude.{
  ◌+◌, String, Bool, false, some, List, [], ◌∷◌, ◌++◌, lookup, insert, at, length, ◌==◌, ◌<>◌, not,
  keep, delete, Bool-cases, ◌≡◌, ◌⊎◌, inl, inr, refl, ap, ◌∙◌, arith, eq_iff, lookup-insert,
  lookup-delete, Option-cases,
}

-- The same result, and tables that match the state of the engine.
pub record Agreed {A : Type 0} (fragments : List FragmentRow) (tx : Result A × Archive)
    (operation : Result A × Service) : Type 0 where
  pub rows : List MessageRow
  pub result : tx.0 ≡ operation.0
  pub state : tx.1 ≡ archive_of operation.1 fragments rows
  pub matches : Matches operation.1 rows

Result-cases {ℓ} :
    {A : Type ℓ} (r : Result A) → ((a : A) × (r ≡ ok a)) ⊎ ((e : Error) × (r ≡ err e))
Result-cases (ok a) = inl (a, refl)
Result-cases (err e) = inr (e, refl)

module _ (s : Service) (fragments : List FragmentRow) (rows : List MessageRow)
    (m : Matches s rows) where
  abbrev tables : Archive
  tables = archive_of s fragments rows

  authorized-owned_conversation :
      (token id : String) → authorized token id tables ≡ Conversations.owned_conversation token id s
  unfolding authorized owned_conversation owns_conversation Conversations.owned_conversation
      Conversations.owns_conversation_locked
  authorized-owned_conversation token id = refl

  owned_found :
      (token id : String) {c : Conversation}
      → Conversations.owned_conversation token id s ≡ ok c
      → lookup id s.conversations ≡ some c
  unfolding Conversations.owned_conversation
  owned_found token id {c} e = ground arith

  update-archive_of :
      (id : String) (c : Conversation) (set : Conversation → Conversation)
      → lookup id s.conversations ≡ some c
      → update_conversation id set tables
        ≡ archive_of (Conversations.put_conversation id (set c) s) fragments rows
  unfolding update_conversation Conversations.put_conversation
  update-archive_of id c set here = rw (here, update_conversation) refl

  put-Matches :
      (id : String) (c : Conversation) → Matches (Conversations.put_conversation id c s) rows
  unfolding Conversations.put_conversation
  put-Matches id c = record { kept = m.kept; numbered = m.numbered }

  -- An operation that only writes the conversation.
  pub rename_conversation-Agreed :
      (token id title : String) (now : Time)
      → column now ≡ now
      → has_nul (normalize_title title) ≡ false
      → Agreed fragments
          (rename_conversation token id title now tables)
          (Conversations.rename_conversation token id title now s)
  unfolding rename_conversation Conversations.rename_conversation
  rename_conversation-Agreed token id title now whole plain =
      elim (Result-cases (Conversations.owned_conversation token id s)) [
        | inr (e, none_owned) ↦
            rw (authorized-owned_conversation token id ∙ none_owned, rename_conversation)
              (rw (none_owned, Conversations.rename_conversation)
                (record { rows = rows; result = refl; state = refl; matches = m }))
        | inl (c, found) ↦
            rw (authorized-owned_conversation token id ∙ found, rename_conversation)
              (rw plain (
                rw whole (
                  rw (found, Conversations.rename_conversation)
                    (record {
                      rows = rows;
                      result = refl;
                      state = update-archive_of id c _ (owned_found token id found);
                      matches = put-Matches id _;
                    }))))
      ]

  pub set_conversation_archived-Agreed :
      (token id : String) (archived : Bool) (now : Time)
      → column now ≡ now
      → Agreed fragments
          (set_conversation_archived token id archived now tables)
          (Conversations.set_conversation_archived token id archived now s)
  unfolding set_conversation_archived Conversations.set_conversation_archived
  set_conversation_archived-Agreed token id archived now whole =
      elim (Result-cases (Conversations.owned_conversation token id s)) [
        | inr (e, none_owned) ↦
            rw (authorized-owned_conversation token id ∙ none_owned, set_conversation_archived)
              (rw (none_owned, Conversations.set_conversation_archived)
                (record { rows = rows; result = refl; state = refl; matches = m }))
        | inl (c, found) ↦
            rw (authorized-owned_conversation token id ∙ found, set_conversation_archived)
              (rw whole (
                rw (found, Conversations.set_conversation_archived)
                  (record {
                    rows = rows;
                    result = refl;
                    state = update-archive_of id c _ (owned_found token id found);
                    matches = put-Matches id _;
                  })))
      ]

  pub delete_conversation-Agreed :
      (token id : String)
      → Agreed fragments
          (delete_conversation token id tables)
          (Conversations.delete_conversation token id s)
  unfolding delete_conversation Conversations.delete_conversation
  delete_conversation-Agreed token id =
      elim (Result-cases (Conversations.owned_conversation token id s)) [
        | inr (e, none_owned) ↦
            rw (authorized-owned_conversation token id ∙ none_owned, delete_conversation)
              (rw (none_owned, Conversations.delete_conversation)
                (record { rows = rows; result = refl; state = refl; matches = m }))
        | inl (c, found) ↦
            rw (authorized-owned_conversation token id ∙ found, delete_conversation)
              (rw (found, Conversations.delete_conversation)
                (record {
                  rows = keep (λ row. not (row.conversation_id == id)) rows;
                  result = refl;
                  state = refl;
                  matches = record {
                    kept = λ k. ground (
                      arith,
                      messages_of-keep id k rows,
                      m.kept k,
                      lookup-delete id k s.conv_messages,
                    );
                    numbered = λ k. at_deleted id k;
                  };
                }))
      ]
    where
      at_deleted : (id k : String) → AreNumbered 1 (at [] k (delete id s.conv_messages))
      at_deleted id k =
          rw (lookup-delete id k s.conv_messages) (elim (Bool-cases (id == k)) [
            | inl hit ↦ rw hit tt
            | inr miss ↦ rw miss (m.numbered k)
          ])

  pub append_conversation_message-Agreed :
      (token id role content source_kind request_id : String) (now : Time)
      → column now ≡ now
      → any_nul role content source_kind request_id ≡ false
      → Agreed fragments
          (append_conversation_message token id role content source_kind request_id now tables)
          (Conversations.append_conversation_message token id role content source_kind request_id
            now s)
  unfolding append_conversation_message Conversations.append_conversation_message
      update_conversation Conversations.put_conversation new_id State.new_id
  append_conversation_message-Agreed token id role content source_kind request_id now whole plain =
      elim (Result-cases (Conversations.owned_conversation token id s)) [
        | inr (e, none_owned) ↦
            rw (authorized-owned_conversation token id ∙ none_owned, append_conversation_message)
              (rw (none_owned, Conversations.append_conversation_message)
                (record { rows = rows; result = refl; state = refl; matches = m }))
        | inl (c, found) ↦
            let here = owned_found token id found in
            let old = at [] id s.conv_messages in
            let msg : ConversationMessage = record {
              id = ("msg" <> "_") <> s.entropy s.drawn;
              seq = length old + 1;
              role = role;
              content = content;
              source_kind = source_kind;
              request_id = request_id;
              created_at = now;
            } in
            let next : max_seq (messages_of id rows) + 1 ≡ length old + 1 =
              ap (λ ms. max_seq ms + 1) (m.kept id)
              ∙ ap (λ n. n + 1) (max_seq-length old (m.numbered id)) in
            rw (authorized-owned_conversation token id ∙ found, append_conversation_message)
              (rw (found, Conversations.append_conversation_message)
                (rw (next, append_conversation_message)
                  (rw plain (
                    rw whole (
                      rw (here, update_conversation)
                        (record {
                          rows = rows ++ record { conversation_id = id; message = msg } ∷ [];
                          result = refl;
                          state = refl;
                          matches = record {
                            kept = λ k. ground (
                              arith,
                              messages_of-append k rows
                                  (record { conversation_id = id; message = msg }),
                              m.kept k,
                              lookup-insert id k (old ++ msg ∷ []) s.conv_messages,
                              eq_iff id k,
                            );
                            numbered = λ k. at_appended id k msg refl;
                          };
                        }))))))
      ]
    where
      at_appended :
          (id k : String) (msg : ConversationMessage)
          → msg.seq ≡ length (at [] id s.conv_messages) + 1
          → AreNumbered 1
              (at [] k (insert id (at [] id s.conv_messages ++ msg ∷ []) s.conv_messages))
      at_appended id k msg e =
          let old = at [] id s.conv_messages in
          rw (lookup-insert id k (old ++ msg ∷ []) s.conv_messages) (elim (Bool-cases (id == k)) [
            | inl hit ↦ rw hit (AreNumbered-append 1 old msg (m.numbered id) (omega (arith, e)))
            | inr miss ↦ rw miss (m.numbered k)
          ])

  pub get_conversation-archive_of :
      (token id : String)
      → get_conversation token id tables ≡ Conversations.get_conversation token id s
  unfolding get_conversation Conversations.get_conversation
  get_conversation-archive_of token id =
      elim (Result-cases (Conversations.owned_conversation token id s)) [
        | inr (e, none_owned) ↦
            rw (authorized-owned_conversation token id ∙ none_owned, get_conversation)
              (rw (none_owned, Conversations.get_conversation) refl)
        | inl (c, found) ↦
            rw (authorized-owned_conversation token id ∙ found, get_conversation)
              (rw (found, Conversations.get_conversation)
                (ap (λ ms. ok (c, in_order ms)) (m.kept id)
                  ∙ ap (λ ms. ok (c, ms)) (in_order-AreNumbered 1 _ (m.numbered id))))
      ]

  pub create_conversation-Agreed :
      (token title : String) (now : Time)
      → column now ≡ now
      → has_nul (normalize_title title) ≡ false
      → Agreed fragments
          (create_conversation token title now tables)
          (Conversations.create_conversation token title now s)
  unfolding create_conversation Conversations.create_conversation new_id State.new_id
  create_conversation-Agreed token title now whole plain =
      elim (Option-cases (lookup token s.sessions_by_tok)) [
        | inl unknown ↦
            rw (unknown, create_conversation, Conversations.create_conversation)
              (record { rows = rows; result = refl; state = refl; matches = m })
        | inr (sess, known) ↦
            rw (known, create_conversation, Conversations.create_conversation)
              (rw plain (
                rw whole (record {
                  rows = rows;
                  result = refl;
                  state = refl;
                  matches = record { kept = m.kept; numbered = m.numbered };
                })))
      ]
