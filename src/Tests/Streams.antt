-- ===== src/Tests/Streams.antt =====
-- The stream of an answer in two parts: the requester is woken when one part is there, and when the
-- request is over.
use deeperseek.Core.State.{ok, is_terminal}
use deeperseek.Core.Types.{Request, Fragment, StreamEvent, FinishReason, stop, completed}
use deeperseek.Openai.Same.{subscribe-answers, received}
use deeperseek.Openai.{answers, blocking_chat_completion}
use deeperseek.Pgredis.Mirror.{numbered}
use deeperseek.Pgredis.Stream.Rows.{events}
use deeperseek.Pgredis.Stream.Drained.{Faithful}
use deeperseek.Pgredis.Stream.Whole.{
  IsTimeline, Ends, subscribe-Faithful, subscribe_whole, subscribe_lost,
}
use deeperseek.Pgredis.Stream.{Wake, wakes, done_event, terminal_state, subscribe}
use deeperseek.Pgredis.Tables.{Db, rows_of}
use deeperseek.Prelude.{
  ℕ, String, Option, none, some, List, [], ◌∷◌, ◌++◌, pos, lookup, ◌≡◌, refl, inl, inr, arith,
}
use deeperseek.Tests.Samples.{answered}
use deeperseek.Tests.Samples

abbrev part : ℕ → String → Fragment
part n text = record {
  id = Samples.numbered n;
  request_id = "req_4";
  responder_session_id = "ses_2";
  client_seq = pos n;
  text = text;
  created_at = 6;
}

abbrev answer : List Fragment
answer = part 1 "because" ∷ part 2 " so" ∷ []

abbrev tables : Request → List Fragment → Db
tables r fs = record {
  sessions = [];
  requests = ("req_4", r) ∷ [];
  fragments = numbered 1 fs;
  ledger = [];
  entropy = Samples.numbered;
  drawn = 7;
}

abbrev over : Request
over = record answered { status = completed; finish_reason = stop }

abbrev early : Option Db
early = some (tables answered (part 1 "because" ∷ []))

abbrev late : Option Db
late = some (tables over answer)

-- The first read of the second wake-up comes before the last fragment.
abbrev history : List Wake
history =
    wakes (record { first = early; state = early; second = none })
    ∷ wakes (record { first = early; state = late; second = late })
    ∷ []

history-IsTimeline : IsTimeline "req_4" answer 0 history
unfolding terminal_state lookup is_terminal rows_of
history-IsTimeline =
    (1, omega arith, refl, λ reason e. cc, (1, omega arith, refl, λ reason e. refl, tt))

history-Ends : Ends "req_4" history
unfolding terminal_state lookup is_terminal
history-Ends = inr (inl (stop, refl))

here : lookup "req_4" (tables answered []).requests ≡ some answered
unfolding lookup
here = refl

over_late : terminal_state "req_4" late ≡ some stop
unfolding terminal_state lookup is_terminal
over_late = refl

-- A consumer that leaves after one event.
subscribe-Faithful_example :
    (out : List StreamEvent) × (subscribe 1 "req_4" (tables answered []) history ≡ ok out)
    × Faithful "req_4" answer out
subscribe-Faithful_example =
    subscribe-Faithful 1 "req_4" (tables answered []) answered answer history here
      history-IsTimeline

subscribe_whole_example :
    (reason : FinishReason) × (subscribe 8 "req_4" (tables answered []) history
      ≡ ok (events "req_4" answer ++ done_event "req_4" reason ∷ []))
subscribe_whole_example =
    subscribe_whole 8 "req_4" (tables answered []) answered answer history here (omega arith)
      history-IsTimeline history-Ends

subscribe_lost_example :
    subscribe 8 "req_4"
      (tables answered [])
      (wakes (record { first = none; state = late; second = none }) ∷ history)
    ≡ ok (done_event "req_4" stop ∷ [])
subscribe_lost_example =
    subscribe_lost 8 "req_4" (tables answered []) answered stop late history here (omega arith)
      over_late

subscribe-answers_example :
    (out : List StreamEvent) × (reason : FinishReason) × (subscribe 8 "req_4"
        (tables answered [])
        history
      ≡ ok out)
    × (blocking_chat_completion answered (received [] out)
        ≡ answers "chatcmpl_req_4" "m" "because so" reason)
unfolding Samples.program
subscribe-answers_example =
    subscribe-answers 8 (tables answered []) answered answer history [] here (omega arith)
      history-IsTimeline history-Ends
