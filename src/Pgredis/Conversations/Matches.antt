-- ===== src/Pgredis/Conversations/Matches.antt =====
-- How the two tables match what the in-memory engine keeps of its conversations.
use deeperseek.Core.State.{Service}
use deeperseek.Core.Types.{ConversationMessage}
use deeperseek.Pgredis.Conversations.{MessageRow, Archive, messages_of, by_seq, in_order, max_seq}
use deeperseek.Pgredis.Mirror.{db_of}
use deeperseek.Pgredis.Tables.{FragmentRow}
use deeperseek.Prelude.{
  ℕ, suc, ◌+◌, String, not, List, [], ◌∷◌, ◌++◌, at, length, keep, ◌==◌, ltb, ◌≡◌, refl, ap, ◌∙◌,
  arith, eq_iff, if◌then◌else◌,
}

-- The messages of a conversation carry the numbers from `n` on, in order.
abbrev pub AreNumbered : ℕ → List ConversationMessage → Type 0
AreNumbered n [] = Unit
AreNumbered n (m ∷ ms) = (m.seq ≡ n) × AreNumbered (suc n) ms

-- The tables with what a `Service` holds, some rows of fragments and some of messages.
abbrev pub archive_of : Service → List FragmentRow → List MessageRow → Archive
archive_of s fragments rows = record {
  db = db_of s fragments;
  conversations = s.conversations;
  messages = rows;
}

-- The rows of each conversation are its messages, which are numbered from 1.
pub record Matches (s : Service) (rows : List MessageRow) : Type 0 where
  pub kept : (id : String) → messages_of id rows ≡ at [] id s.conv_messages
  pub numbered : (id : String) → AreNumbered 1 (at [] id s.conv_messages)

pub by_seq-AreNumbered :
    (n : ℕ) (m : ConversationMessage) (ms : List ConversationMessage)
    → m.seq ≡ n
    → AreNumbered (suc n) ms
    → by_seq m ms ≡ m ∷ ms
unfolding by_seq
by_seq-AreNumbered n m [] e h = refl
by_seq-AreNumbered n m (x ∷ xs) e h = ground (arith, e, h.0)

-- Numbered messages are in order.
pub in_order-AreNumbered :
    (n : ℕ) (ms : List ConversationMessage) → AreNumbered n ms → in_order ms ≡ ms
unfolding in_order
in_order-AreNumbered n [] h = refl
in_order-AreNumbered n (m ∷ ms) h =
    ap (by_seq m) (in_order-AreNumbered (suc n) ms h.1) ∙ by_seq-AreNumbered n m ms h.0 h.1

larger : ℕ → ℕ → ℕ
larger a b = if ltb b a then a else b

larger-max_seq :
    (n : ℕ) (ms : List ConversationMessage)
    → AreNumbered (suc n) ms
    → larger n (max_seq ms) ≡ n + length ms
unfolding larger max_seq
larger-max_seq n [] h = ground arith
larger-max_seq n (m ∷ ms) h = ground (arith, larger-max_seq (suc n) ms h.1, h.0)

-- The greatest number of messages that are numbered from 1 is how many they are.
pub max_seq-length : (ms : List ConversationMessage) → AreNumbered 1 ms → max_seq ms ≡ length ms
unfolding larger
max_seq-length ms h = ground (arith, larger-max_seq 0 ms h)

pub AreNumbered-append :
    (n : ℕ) (ms : List ConversationMessage) (m : ConversationMessage)
    → AreNumbered n ms
    → m.seq ≡ n + length ms
    → AreNumbered n (ms ++ m ∷ [])
AreNumbered-append n [] m h e = (omega (arith, e), tt)
AreNumbered-append n (x ∷ ms) m h e = (h.0, AreNumbered-append (suc n) ms m h.1 (omega (arith, e)))

pub messages_of-append :
    (id : String) (rows : List MessageRow) (row : MessageRow)
    → messages_of id (rows ++ row ∷ []) ≡ (
        if row.conversation_id == id
        then messages_of id rows ++ row.message ∷ []
        else messages_of id rows)
unfolding messages_of
messages_of-append id [] row = ground arith
messages_of-append id (x ∷ rows) row = ground (arith, messages_of-append id rows row)

pub messages_of-keep :
    (gone id : String) (rows : List MessageRow)
    → messages_of id (keep (λ row. not (row.conversation_id == gone)) rows)
      ≡ (if gone == id then [] else messages_of id rows)
unfolding messages_of
messages_of-keep gone id [] = ground arith
messages_of-keep gone id (x ∷ rows) = ground (
  arith,
  messages_of-keep gone id rows,
  eq_iff x.conversation_id gone,
  eq_iff x.conversation_id id,
  eq_iff gone id,
)
