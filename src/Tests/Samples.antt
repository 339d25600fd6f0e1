-- ===== src/Tests/Samples.antt =====
-- A short history: two guests enter, one of them waits for requests, the other asks and is answered.
use deeperseek.Core.Accounts.{Bcrypt, guest_session}
use deeperseek.Core.History.{
  enters, connects, marks_available, creates, submits, step, Reaches, start, call,
}
use deeperseek.Core.Lifecycle.{
  offer, publish_locked, requeue_locked, abandon_locked, pay_responder, complete_locked,
}
use deeperseek.Core.Matching.{
  assigned_to, takes, first_responder, is_waiting, responder_for, first_pair,
  compatible_pair_locked, hand_out, assign_pair, assign_loop, try_assign_locked,
}
use deeperseek.Core.Points.{
  balance_locked, balance_for_session_locked, auth_result_locked, create_session_locked,
}
use deeperseek.Core.Requests.{
  fresh_request, effective_limit, cannot_pay, after_assignment, enqueue_request, create_request_for,
  create_request_with, create_request,
}
use deeperseek.Core.Responders.{
  register_responder, release_on_disconnect, unregister_responder, make_available,
  mark_responder_available, not_positive, seq_key, charge_question, store_fragment, stream_request,
  complete_if_full, commit_fragment, submit_to, submit_fragment,
}
use deeperseek.Core.State.{
  Service, new_service, new_id, kind_or_human, is_terminal, put_request, active_request,
  session_among, session_by_id_locked, answer_text_locked, validate_input, add_ledger_locked,
  remove_available_locked, remove_queued_request_locked,
}
use deeperseek.Core.Types.{Message, Session, Request, human, streaming}
use deeperseek.Core.Valid.Requesting.{IsFresh}
use deeperseek.Prelude.{
  trim_space, true, ℕ, String, none, some, List, [], ◌∷◌, pos, lookup, insert, delete, decimal, ◌≡◌,
  refl, ◌==◌,
}

-- A stand-in for the hashing of passwords, which keeps the text.
abbrev pub plain : Bcrypt
plain = record {
  generate = λ salt password. some password;
  agrees = λ hash password. hash == password;
}

abbrev pub numbered : ℕ → String
numbered n = decimal (pos n)

abbrev pub question : List Message
question = record { role = "user"; content = "why?" } ∷ []

abbrev pub ann_and_bob : Service
ann_and_bob = step plain 2 (enters "bob") (step plain 1 (enters "ann") (new_service numbered))

abbrev pub bob_waits : Service
bob_waits =
    step plain 4 (marks_available "ses_2" none) (step plain 3 (connects "tok_3") ann_and_bob)

abbrev pub ann_asks : Service
ann_asks = step plain 5 (creates "tok_1" "m" question (pos 10) none) bob_waits

abbrev pub bob_answers : Service
bob_answers = step plain 6 (submits "ses_2" (pos 1) "because") ann_asks

-- Ann has asked before Bob, who now waits, came.
abbrev pub waiting : Service
waiting = record (step plain 3 (creates "tok_1" "m" question (pos 10) none) ann_and_bob) {
  available = "ses_2" ∷ [];
  responders = ("ses_2", []) ∷ [];
}

-- All that a run computes with, for the `unfolding` lines of the tests.
unfoldable pub program : Unit {0}
unfolding step new_service new_id guest_session create_session_locked auth_result_locked
    balance_for_session_locked register_responder mark_responder_available make_available
    try_assign_locked assign_loop compatible_pair_locked first_pair responder_for is_waiting
    first_responder takes session_by_id_locked session_among assign_pair hand_out requeue_locked
    create_request create_request_with create_request_for enqueue_request after_assignment
    validate_input effective_limit kind_or_human is_terminal put_request submit_fragment submit_to
    commit_fragment store_fragment stream_request charge_question complete_if_full complete_locked
    pay_responder publish_locked offer answer_text_locked seq_key not_positive decimal lookup insert
    delete add_ledger_locked balance_locked cannot_pay unregister_responder release_on_disconnect
    remove_available_locked abandon_locked remove_queued_request_locked trim_space
program = tt

-- Bob holds Ann's request and has answered a part of it.
holds-bob_answers : active_request bob_answers "ses_2" ≡ "req_4"
unfolding program
holds-bob_answers = refl

answer-bob_answers : answer_text_locked bob_answers "req_4" ≡ "because"
unfolding program
answer-bob_answers = refl

bob_waits-IsFresh : IsFresh bob_waits
unfolding program
bob_waits-IsFresh = refl

pub ann_asks-Reaches : Reaches plain numbered ann_asks
ann_asks-Reaches =
    call 5 (creates "tok_1" "m" question (pos 10) none)
      (call 4 (marks_available "ses_2" none)
        (call 3 (connects "tok_3") (call 2 (enters "bob") (call 1 (enters "ann") start tt) tt) tt)
        tt)
      bob_waits-IsFresh

pub bob_answers-Reaches : Reaches plain numbered bob_answers
bob_answers-Reaches = call 6 (submits "ses_2" (pos 1) "because") ann_asks-Reaches tt

abbrev pub ann : Session
ann = record {
  id = "ses_0";
  token = "tok_1";
  user_id = "";
  guest = true;
  kind = human;
  nickname = "ann";
  created_at = 1;
}

abbrev pub bob : Session
bob = record {
  id = "ses_2";
  token = "tok_3";
  user_id = "";
  guest = true;
  kind = human;
  nickname = "bob";
  created_at = 2;
}

-- Ann's request, assigned to Bob and then answered in part.
abbrev pub asked : Request
asked = assigned_to "ses_2" bob 5 (fresh_request "req_4" ann "m" question 10 0 true "" 5)

abbrev pub answered : Request
answered = record asked {
  status = streaming;
  question_charged = true;
  frozen_points = 0;
  updated_at = 6;
}

pub found-answered : lookup "req_4" bob_answers.requests ≡ some answered
unfolding program
found-answered = refl
