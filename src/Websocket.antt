-- ===== src/Websocket.antt =====
-- backend/internal/httpapi/websocket.go: the socket of a responder over the in-memory service. Other
-- clients act between its messages. Forwarding the assignments of its channel is left out, and so is
-- what happens to a write that fails, which the loop ignores.
pub mod Stale
pub mod Released
pub mod Ended
use deeperseek.Core.Accounts.{Bcrypt, me}
use deeperseek.Core.History.{Call, step}
use deeperseek.Core.Points.{AuthResult}
use deeperseek.Core.Responders.{
  register_responder, unregister_responder, mark_responder_available, submit_fragment, finish, skip,
}
use deeperseek.Core.State.{
  Service, Result, ok, err, Error, responder_unavailable, unauthorized, is_unset,
}
use deeperseek.Core.Types.{Time, Balance, Fragment}
use deeperseek.Prelude.{
  String, Bool, true, false, Option, none, some, List, [], ◌∷◌, ◌++◌, ℤ, ◌==◌, if◌then◌else◌,
}

pub record WsInbound : Type 0 where
  pub type : String
  pub client_seq : ℤ
  pub text : String
  pub accept_ai_questions : Option Bool

-- What the handler writes; an error goes out as its message.
pub data Frame : Type 0 where
  available_ack finish_ack skip_ack pong : Frame
  fragment_ack : (client_seq : ℤ) → (text : String) → (duplicate : Bool) → Frame
  balance : Balance → Frame
  error_frame : Error → Frame

-- The variables of the loop: the error of the last call, which a ping does not touch, and the service.
pub record Socket : Type 0 where
  pub last_error : Option Error
  pub service : Service

-- What a call leaves: the service, and its error or what is written for its result.
abbrev pub after_call {ℓ} :
    {A : Type ℓ} → (A → Service → List Frame) → Result A × Service → List Frame × Socket
after_call acks (ok a, s) = (acks a s, record { last_error = none; service = s })
after_call acks (err e, s) = ([], record { last_error = some e; service = s })

abbrev pub balance_frames : Result AuthResult → List Frame
balance_frames (ok auth) = balance auth.balance ∷ []
balance_frames (err e) = []

-- The switch over the type of a message. Skip reads the clock twice.
unfoldable pub dispatch : String → String → WsInbound → Time → Time → Socket → List Frame × Socket
dispatch token session msg now later k =
    let s = k.service in
    if msg.type == "available"
    then (let accept : Bool = elim msg.accept_ai_questions [ none ↦ true | some b ↦ b ] in
        after_call (λ _ _. available_ack ∷ [])
          (mark_responder_available session (some accept) now s))
    else if msg.type == "fragment"
    then after_call (λ r _. fragment_ack msg.client_seq (r.0).text r.1 ∷ [])
        (submit_fragment session msg.client_seq msg.text now s)
    else if msg.type == "finish"
    then after_call (λ _ s'. finish_ack ∷ balance_frames (me token s')) (finish session now s)
    else if msg.type == "skip"
    then after_call (λ _ _. skip_ack ∷ []) (skip session now later s)
    else if msg.type == "ping"
    then (pong ∷ [], k)
    else ([], record k { last_error = some responder_unavailable })

abbrev pub error_frames : Option Error → List Frame
error_frames none = []
error_frames (some e) = error_frame e ∷ []

unfoldable pub handle_message :
    String → String → WsInbound → Time → Time → Socket → List Frame × Socket
handle_message token session msg now later k =
    let (frames, k') = dispatch token session msg now later k in
    (frames ++ error_frames k'.last_error, k')

-- A message of the responder, or a call of another client.
pub data Turn : Type 0 where
  arrives : WsInbound → (now later : Time) → Turn
  elsewhere : (now : Time) → Call → Turn

module _ (b : Bcrypt) where
  unfoldable pub turn : String → String → Turn → Socket → List Frame × Socket
  turn token session (arrives msg now later) k = handle_message token session msg now later k
  turn token session (elsewhere now c) k = ([], record k { service = step b now c k.service })

  -- The read loop: what it writes, and the variables when the connection ends.
  unfoldable pub run_socket : String → String → List Turn → Socket → List Frame × Socket
  run_socket token session [] k = ([], k)
  run_socket token session (t ∷ rest) k =
      let (frames, k₁) = turn token session t k in
      let (more, k₂) = run_socket token session rest k₁ in (frames ++ more, k₂)

  -- The handler, for a connection that ends at a time: the frames or the error of the response. The
  -- upgrade to a socket may fail, and the upgrader answers then.
  unfoldable pub handle_answer_web_socket :
      String → (upgraded : Bool) → List Turn → Time → Service → Result (List Frame) × Service
  handle_answer_web_socket token upgraded turns ended s =
      if is_unset token
      then (err unauthorized, s)
      else (let (registered, s₁) = register_responder token s in
          elim registered [
            | err e ↦ (err e, s₁)
            | ok session ↦ elim upgraded [
              | false ↦ (ok [], unregister_responder session ended s₁)
              | true ↦
                  let (frames, k) =
                    run_socket token session turns (record { last_error = none; service = s₁ }) in
                  (ok frames, unregister_responder session ended k.service)
            ]
          ])
