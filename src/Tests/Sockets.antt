-- ===== src/Tests/Sockets.antt =====
-- Sockets of Bob, who holds Ann's request.
use deeperseek.Core.History.{Reaches-IsValid, enters}
use deeperseek.Core.State.{is_unset, responder_unavailable}
use deeperseek.Core.Valid.{IsValid}
use deeperseek.Openai.Same.{blocking_chat_completion-assemble, assemble}
use deeperseek.Openai.{heartbeats, receives, blocking_chat_completion, stream_chat_completion}
use deeperseek.Pgredis.Stream.{fragment_event, done_event}
use deeperseek.Core.Types.{stop, human}
use deeperseek.Prelude.{String, true, false, none, some, List, [], ◌∷◌, lookup, pos, ◌≡◌, refl}
use deeperseek.Tests.Samples.{plain, numbered, ann_asks, ann_asks-Reaches, bob, answered, program}
use deeperseek.Websocket.Ended.{AllFresh, opened, handle_answer_web_socket-IsGone}
use deeperseek.Websocket.Released.{IsGone}
use deeperseek.Websocket.Stale.{ping, pings, pongs_with_error, run_socket-pings}
use deeperseek.Websocket.{
  WsInbound, Socket, Turn, arrives, elsewhere, run_socket, handle_answer_web_socket,
}

abbrev says : String → WsInbound
says text = record {
  type = "fragment";
  client_seq = pos 1;
  text = text;
  accept_ai_questions = none;
}

-- Bob answers, while a guest enters, and is gone.
abbrev bob_goes : List Turn
bob_goes = arrives (says "because") 6 6 ∷ elsewhere 7 (enters "carl") ∷ arrives ping 8 8 ∷ []

known_bob : lookup "tok_3" ann_asks.sessions_by_tok ≡ some bob
unfolding program
known_bob = refl

named_token : is_unset "tok_3" ≡ false
named_token = refl

bob_goes-AllFresh : AllFresh plain "tok_3" bob.id bob_goes (opened plain "tok_3" ann_asks)
bob_goes-AllFresh = (tt, tt)

handle_answer_web_socket-IsGone_example :
    IsValid (handle_answer_web_socket plain "tok_3" true bob_goes 9 ann_asks).1
    × IsGone "ses_2" (handle_answer_web_socket plain "tok_3" true bob_goes 9 ann_asks).1
handle_answer_web_socket-IsGone_example =
    handle_answer_web_socket-IsGone plain "tok_3" true bob_goes 9 ann_asks bob
      (Reaches-IsValid plain numbered ann_asks-Reaches) named_token known_bob bob_goes-AllFresh

abbrev failed : Socket
failed = record { last_error = some responder_unavailable; service = ann_asks }

run_socket-pings_example :
    run_socket plain "tok_3" "ses_2" (pings 3 7) failed
    ≡ (pongs_with_error 3 responder_unavailable, failed)
run_socket-pings_example =
    run_socket-pings plain "tok_3" "ses_2" 3 7 responder_unavailable failed refl

-- The requester leaves before the end.
blocking_chat_completion-assemble_example :
    blocking_chat_completion answered (
      heartbeats
      ∷ receives (fragment_event "req_4" "because") (some human)
      ∷ receives (done_event "req_4" stop) none
      ∷ [])
    ≡ assemble (
        stream_chat_completion answered (
          heartbeats
          ∷ receives (fragment_event "req_4" "because") (some human)
          ∷ receives (done_event "req_4" stop) none
          ∷ []))
blocking_chat_completion-assemble_example = blocking_chat_completion-assemble answered _
