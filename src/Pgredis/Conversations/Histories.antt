-- ===== src/Pgredis/Conversations/Histories.antt =====
-- Whole runs of conversation calls, against the engine and against the tables.
use deeperseek.Core.Conversations
use deeperseek.Core.Conversations.{normalize_title}
use deeperseek.Core.State.{Service, Result}
use deeperseek.Core.Types.{Time, Conversation, ConversationMessage}
use deeperseek.Pgredis.Conversations as Statements
use deeperseek.Pgredis.Conversations.Matches.{archive_of, Matches}
use deeperseek.Pgredis.Conversations.Same.{
  Agreed, create_conversation-Agreed, get_conversation-archive_of, rename_conversation-Agreed,
  set_conversation_archived-Agreed, delete_conversation-Agreed, append_conversation_message-Agreed,
}
use deeperseek.Pgredis.Conversations.{Archive, MessageRow, any_nul}
use deeperseek.Pgredis.Tables.{FragmentRow, column, has_nul}
use deeperseek.Prelude.{String, Bool, false, List, [], ◌∷◌, ◌≡◌, refl, ap, ◌∙◌}

pub data Action : Type 0 where
  creates : (token title : String) → (now : Time) → Action
  reads : (token id : String) → Action
  renames : (token id title : String) → (now : Time) → Action
  archives : (token id : String) → Bool → (now : Time) → Action
  deletes : (token id : String) → Action
  appends : (token id role content source_kind request_id : String) → (now : Time) → Action

pub data Reply : Type 0 where
  created : Result Conversation → Reply
  read : Result (Conversation × List ConversationMessage) → Reply
  wrote : Result (Unit {0}) → Reply
  appended : Result ConversationMessage → Reply

-- What a call gives, as a reply.
abbrev reply_of {ℓ ℓ'} : {A : Type ℓ} {S : Type ℓ'} → (A → Reply) → A × S → Reply × S
reply_of f (a, s) = (f a, s)

unfoldable pub act : Action → Service → Reply × Service
act (creates token title now) s =
    reply_of created (Conversations.create_conversation token title now s)
act (reads token id) s = (read (Conversations.get_conversation token id s), s)
act (renames token id title now) s =
    reply_of wrote (Conversations.rename_conversation token id title now s)
act (archives token id archived now) s =
    reply_of wrote (Conversations.set_conversation_archived token id archived now s)
act (deletes token id) s = reply_of wrote (Conversations.delete_conversation token id s)
act (appends token id role content source_kind request_id now) s =
    reply_of appended
      (Conversations.append_conversation_message token id role content source_kind request_id now s)

unfoldable pub act_tx : Action → Archive → Reply × Archive
act_tx (creates token title now) a =
    reply_of created (Statements.create_conversation token title now a)
act_tx (reads token id) a = (read (Statements.get_conversation token id a), a)
act_tx (renames token id title now) a =
    reply_of wrote (Statements.rename_conversation token id title now a)
act_tx (archives token id archived now) a =
    reply_of wrote (Statements.set_conversation_archived token id archived now a)
act_tx (deletes token id) a = reply_of wrote (Statements.delete_conversation token id a)
act_tx (appends token id role content source_kind request_id now) a =
    reply_of appended
      (Statements.append_conversation_message token id role content source_kind request_id now a)

-- The replies of a run, in order, and what it leaves.
unfoldable pub run : List Action → Service → List Reply × Service
run [] s = ([], s)
run (a ∷ actions) s =
    let first = act a s in let rest = run actions first.1 in (first.0 ∷ rest.0, rest.1)

unfoldable pub run_tx : List Action → Archive → List Reply × Archive
run_tx [] t = ([], t)
run_tx (a ∷ actions) t =
    let first = act_tx a t in let rest = run_tx actions first.1 in (first.0 ∷ rest.0, rest.1)

-- No text of the call has U+0000, and a call that writes comes at a time of whole microseconds.
abbrev pub IsPlainAction : Action → Type 0
IsPlainAction (creates token title now) =
    (has_nul token ≡ false) × (column now ≡ now) × (has_nul (normalize_title title) ≡ false)
IsPlainAction (reads token id) = (has_nul token ≡ false) × (has_nul id ≡ false)
IsPlainAction (renames token id title now) =
    (has_nul token ≡ false)
    × (has_nul id ≡ false)
    × (column now ≡ now)
    × (has_nul (normalize_title title) ≡ false)
IsPlainAction (archives token id archived now) =
    (has_nul token ≡ false) × (has_nul id ≡ false) × (column now ≡ now)
IsPlainAction (deletes token id) = (has_nul token ≡ false) × (has_nul id ≡ false)
IsPlainAction (appends token id role content source_kind request_id now) =
    (has_nul token ≡ false)
    × (has_nul id ≡ false)
    × (column now ≡ now)
    × (any_nul role content source_kind request_id ≡ false)

abbrev pub ArePlainActions : List Action → Type 0
ArePlainActions [] = Unit
ArePlainActions (a ∷ actions) = IsPlainAction a × ArePlainActions actions

-- After the same calls: the same replies, and tables that match the state.
pub record Corresponds (R : Type 0) (fragments : List FragmentRow) (tx : R × Archive)
    (engine : R × Service) : Type 0 where
  pub rows : List MessageRow
  pub replies : tx.0 ≡ engine.0
  pub state : tx.1 ≡ archive_of engine.1 fragments rows
  pub matches : Matches engine.1 rows

from_Agreed :
    {A : Type 0} {fragments : List FragmentRow} (tx : Result A × Archive)
    (operation : Result A × Service) (g : Result A → Reply)
    → Agreed fragments tx operation
    → Corresponds Reply fragments (reply_of g tx) (reply_of g operation)
from_Agreed tx operation g c = record {
  rows = c.rows;
  replies = ap g c.result;
  state = c.state;
  matches = c.matches;
}

module _ (fragments : List FragmentRow) where
  act-Corresponds :
      (a : Action) (s : Service) (rows : List MessageRow)
      → IsPlainAction a
      → Matches s rows
      → Corresponds Reply fragments (act_tx a (archive_of s fragments rows)) (act a s)
  unfolding act act_tx
  act-Corresponds (creates token title now) s rows plain m =
      from_Agreed _ _ created
        (create_conversation-Agreed s fragments rows m token title now plain.1 plain.2)
  act-Corresponds (reads token id) s rows plain m = record {
    rows = rows;
    replies = ap read (get_conversation-archive_of s fragments rows m token id);
    state = refl;
    matches = m;
  }
  act-Corresponds (renames token id title now) s rows plain m =
      from_Agreed _ _ wrote
        (rename_conversation-Agreed s fragments rows m token id title now plain.2 plain.3)
  act-Corresponds (archives token id archived now) s rows plain m =
      from_Agreed _ _ wrote
        (set_conversation_archived-Agreed s fragments rows m token id archived now plain.2)
  act-Corresponds (deletes token id) s rows plain m =
      from_Agreed _ _ wrote (delete_conversation-Agreed s fragments rows m token id)
  act-Corresponds (appends token id role content source_kind request_id now) s rows plain m =
      from_Agreed _ _ appended (
        append_conversation_message-Agreed s fragments rows m token id role content source_kind
          request_id now plain.2 plain.3)

  -- From a state that the tables match: any sequence of creating, reading, renaming, archiving and
  -- deleting conversations and of appending messages, by whatever tokens and for whatever
  -- conversations, where no text has U+0000, which the tables refuse, and the calls that write come
  -- at times of whole microseconds, which is what the columns keep, gives the same replies from the
  -- tables as from the in-memory engine, errors included, and leaves tables that match the engine's
  -- state.
  pub run-Corresponds :
      (actions : List Action) (s : Service) (rows : List MessageRow)
      → ArePlainActions actions
      → Matches s rows
      → Corresponds
          (List Reply)
          fragments
          (run_tx actions (archive_of s fragments rows))
          (run actions s)
  unfolding run run_tx
  run-Corresponds [] s rows plain m = record {
    rows = rows;
    replies = refl;
    state = refl;
    matches = m;
  }
  run-Corresponds (a ∷ actions) s rows plain m =
      let one = act-Corresponds a s rows plain.0 m in
      let rest = run-Corresponds actions (act a s).1 one.rows plain.1 one.matches in
      let onward : run_tx actions (act_tx a (archive_of s fragments rows)).1
          ≡ run_tx actions (archive_of (act a s).1 fragments one.rows) =
        ap (run_tx actions) one.state in
      record {
        rows = rest.rows;
        replies =
            ap (λ r. r ∷ (run_tx actions (act_tx a (archive_of s fragments rows)).1).0) one.replies
            ∙ ap (λ rs. (act a s).0 ∷ rs) (ap (λ t. t.0) onward ∙ rest.replies);
        state = ap (λ t. t.1) onward ∙ rest.state;
        matches = rest.matches;
      }
