-- ===== src/Pgredis/Stream.antt =====
-- backend/internal/pgredis/lifecycle.go: the stream of an answer, from Subscribe to the channel of the
-- requester. A read of the tables is the tables that it sees, or `none` when the query fails. The
-- consumer takes `limit` events and is gone then; it may also stop between two wake-ups.
pub mod Rows
pub mod Drained
pub mod Whole
use deeperseek.Core.State.{Result, ok, err, request_not_found, is_terminal}
use deeperseek.Core.Types.{Request, StreamEvent, FinishReason, fragment, done}
use deeperseek.Core.Types
use deeperseek.Pgredis.Creation.{ordered}
use deeperseek.Pgredis.Tables.{Db, FragmentRow, rows_of}
use deeperseek.Prelude.{
  ℕ, String, Bool, true, false, Option, none, some, List, [], ◌∷◌, ◌++◌, length, keep, lookup, ltb,
}

abbrev pub fragment_event : String → String → StreamEvent
fragment_event id text = record {
  type = fragment;
  request_id = id;
  text = text;
  finish_reason = FinishReason.unset;
}

abbrev pub done_event : String → FinishReason → StreamEvent
done_event id reason = record { type = done; request_id = id; text = ""; finish_reason = reason }

-- The loop over the rows: the high-water ordinal, whether it was not cancelled, and what is sent.
unfoldable pub emit_rows :
    ℕ → String → ℕ → List FragmentRow → List StreamEvent → ℕ × Bool × List StreamEvent
emit_rows limit id last [] out = (last, true, out)
emit_rows limit id last (row ∷ rows) out = elim (ltb (length out) limit) [
  | true ↦ emit_rows limit id row.ordinal rows (out ++ fragment_event id row.fragment.text ∷ [])
  | false ↦ (last, false, out)
]

-- `WHERE request_id = $1 AND ordinal > $2 ORDER BY ordinal`
unfoldable pub rows_after : String → ℕ → Db → List FragmentRow
rows_after id after d = ordered (keep (λ row. ltb after row.ordinal) (rows_of id d.fragments))

unfoldable pub drain_fragments_after :
    ℕ → String → ℕ → Option Db → List StreamEvent → ℕ × Bool × List StreamEvent
drain_fragments_after limit id after none out = (after, true, out)
drain_fragments_after limit id after (some d) out =
    emit_rows limit id after (rows_after id after d) out

abbrev pub finish_of : Option Request → Option FinishReason
finish_of none = none
finish_of (some r) = elim (is_terminal r.status) [ true ↦ some r.finish_reason | false ↦ none ]

-- The finish reason of a request that is over.
unfoldable pub terminal_state : String → Option Db → Option FinishReason
terminal_state id none = none
terminal_state id (some d) = finish_of (lookup id d.requests)

abbrev pub emit : ℕ → StreamEvent → List StreamEvent → List StreamEvent
emit limit event out = elim (ltb (length out) limit) [ true ↦ out ++ event ∷ [] | false ↦ out ]

-- The three reads of a flush, in their order.
pub record Reads : Type 0 where
  pub first : Option Db
  pub state : Option Db
  pub second : Option Db

-- The second drain, and the end of the stream.
unfoldable pub flush_end :
    ℕ → String → FinishReason → Reads → ℕ → List StreamEvent → ℕ × Bool × List StreamEvent
flush_end limit id reason reads last out =
    let (last', going, out') = drain_fragments_after limit id last reads.second out in
    elim going [
      | false ↦ (last', false, out')
      | true ↦ (last', false, emit limit (done_event id reason) out')
    ]

-- The high-water ordinal, whether the stream goes on, and what is sent.
unfoldable pub flush : ℕ → String → Reads → ℕ → List StreamEvent → ℕ × Bool × List StreamEvent
flush limit id reads last out =
    let (last', going, out') = drain_fragments_after limit id last reads.first out in
    elim going [
      | false ↦ (last', false, out')
      | true ↦ elim (terminal_state id reads.state) [
        | none ↦ (last', true, out')
        | some reason ↦ flush_end limit id reason reads last' out'
      ]
    ]

-- What the goroutine waits for: a message or a tick wakes it, and `stops` ends it.
pub data Wake : Type 0 where
  wakes : Reads → Wake
  stops : Wake

-- The goroutine of Subscribe: a flush at once, and one at each wake-up.
unfoldable pub run_stream : ℕ → String → ℕ → List StreamEvent → List Wake → List StreamEvent
run_stream limit id last out [] = out
run_stream limit id last out (stops ∷ rest) = out
run_stream limit id last out (wakes reads ∷ rest) =
    let (last', going, out') = flush limit id reads last out in
    elim going [ true ↦ run_stream limit id last' out' rest | false ↦ out' ]

-- The events that the requester gets, for the tables when it subscribes.
unfoldable pub subscribe : ℕ → String → Db → List Wake → Result (List StreamEvent)
subscribe limit id d history = elim (lookup id d.requests) [
  | none ↦ err request_not_found
  | some _ ↦ ok (run_stream limit id 0 [] history)
]
