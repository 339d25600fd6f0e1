-- ===== src/Websocket/Ended.antt =====
-- What the handler of a socket leaves behind when its connection has ended.
use deeperseek.Core.Accounts.{Bcrypt}
use deeperseek.Core.History.{DrawsFresh, step-IsValid}
use deeperseek.Core.Responders.{register_responder}
use deeperseek.Core.Sessions.{AreNamed, IsSessionId, IsSessionId-ne-nil}
use deeperseek.Core.State.{Service, Result, ok, err, is_unset}
use deeperseek.Core.Types.{Time, Session}
use deeperseek.Core.Valid.{IsValid}
use deeperseek.Core.Valid.Others.{register_responder-IsValid, mark_responder_available-IsValid}
use deeperseek.Core.Valid.Responding.{unregister_responder-IsValid, finish-IsValid, skip-IsValid}
use deeperseek.Core.Valid.Submitting.{submit_fragment-IsValid}
use deeperseek.Websocket.{
  WsInbound, Frame, Socket, after_call, dispatch, handle_message, Turn, arrives, elsewhere, turn,
  run_socket, handle_answer_web_socket,
}
use deeperseek.Websocket.Released.{IsGone, unregister_responder-IsGone}
use deeperseek.Prelude.{
  Bool, true, false, String, none, some, List, [], ◌∷◌, Dict, lookup, ◌≡◌, inl, inr, subst, arith,
  eq_iff, ◌==◌, Bool-cases,
}

lookup-IsSessionId :
    (token : String) (m : Dict Session) {x : Session}
    → AreNamed m
    → lookup token m ≡ some x
    → IsSessionId x.id
unfolding lookup
lookup-IsSessionId token [] n e = cc
lookup-IsSessionId token ((t, y) ∷ m) {x} n e = elim (Bool-cases (t == token)) [
  | inl hit ↦ let same : y ≡ x = ground arith in subst (λ (z : Session). IsSessionId z.id) same n.0
  | inr miss ↦ lookup-IsSessionId token m {x = x} n.1 (ground arith)
]

IsSessionId-named : {id : String} → IsSessionId id → is_unset id ≡ false
IsSessionId-named {id} i = ground (arith, eq_iff id "", IsSessionId-ne-nil i)

after_call-IsValid {ℓ} :
    {A : Type ℓ} (acks : A → Service → List Frame) (r : Result A × Service)
    → IsValid r.1
    → IsValid (after_call acks r).1.service
after_call-IsValid acks (ok a, s) v = v
after_call-IsValid acks (err e, s) v = v

dispatch-IsValid :
    (token session : String) (msg : WsInbound) (now later : Time) (k : Socket)
    → IsValid k.service
    → IsValid (dispatch token session msg now later k).1.service
unfolding dispatch
dispatch-IsValid token session msg now later k v = elim (Bool-cases (msg.type == "available")) [
  | inl h ↦ rw h (after_call-IsValid _ _ (mark_responder_available-IsValid session _ now _ v))
  | inr h ↦ rw h (elim (Bool-cases (msg.type == "fragment")) [
    | inl h' ↦ rw h' (after_call-IsValid _ _ (submit_fragment-IsValid session _ _ now _ v))
    | inr h' ↦ rw h' (elim (Bool-cases (msg.type == "finish")) [
      | inl i ↦ rw i (after_call-IsValid _ _ (finish-IsValid _ session now v))
      | inr i ↦ rw i (elim (Bool-cases (msg.type == "skip")) [
        | inl i' ↦ rw i' (after_call-IsValid _ _ (skip-IsValid _ session now later v))
        | inr i' ↦
            rw i' (elim (Bool-cases (msg.type == "ping")) [ inl j ↦ rw j v | inr j ↦ rw j v ])
      ])
    ])
  ])
]

module _ (b : Bcrypt) where
  -- The creations of the other clients draw ids that are not in use.
  abbrev pub AllFresh : String → String → List Turn → Socket → Type 0
  AllFresh token session [] k = Unit
  AllFresh token session (arrives msg now later ∷ rest) k =
      AllFresh token session rest (turn b token session (arrives msg now later) k).1
  AllFresh token session (elsewhere now c ∷ rest) k =
      DrawsFresh b c k.service
      × AllFresh token session rest (turn b token session (elsewhere now c) k).1

  run_socket-IsValid :
      (token session : String) (turns : List Turn) (k : Socket)
      → AllFresh token session turns k
      → IsValid k.service
      → IsValid (run_socket b token session turns k).1.service
  unfolding run_socket turn handle_message
  run_socket-IsValid token session [] k f v = v
  run_socket-IsValid token session (arrives msg now later ∷ rest) k f v =
      run_socket-IsValid token session rest _ f (dispatch-IsValid token session msg now later k v)
  run_socket-IsValid token session (elsewhere now c ∷ rest) k f v =
      run_socket-IsValid token session rest _ f.1 (step-IsValid b now c k.service f.0 v)

  -- The variables of the loop before the first message of a session's responder.
  abbrev pub opened : String → Service → Socket
  opened token s = record { last_error = none; service = (register_responder token s).1 }

  -- In a valid service, for a token that is set and stands for a session: whether or not the
  -- upgrade to a socket succeeds, however the connection went, and whatever other clients did
  -- meanwhile, provided that their creations drew fresh ids, when the handler of the socket
  -- returns, the service is valid, the session holds no request, it is not among the available
  -- responders and it has no channel.
  pub handle_answer_web_socket-IsGone :
      (token : String) (upgraded : Bool) (turns : List Turn) (ended : Time) (s : Service)
      (session : Session)
      → IsValid s
      → is_unset token ≡ false
      → lookup token s.sessions_by_tok ≡ some session
      → AllFresh token session.id turns (opened token s)
      → let s' = (handle_answer_web_socket b token upgraded turns ended s).1 in
        IsValid s' × IsGone session.id s'
  unfolding handle_answer_web_socket register_responder
  handle_answer_web_socket-IsGone token false turns ended s session v set known fresh =
      let first = register_responder-IsValid token s v in
      let named = IsSessionId-named (lookup-IsSessionId token s.sessions_by_tok v.named known) in
      rw set (
        rw (known, handle_answer_web_socket, register_responder)
          (
            unregister_responder-IsValid _ session.id ended first,
            unregister_responder-IsGone session.id ended _ first named,
          ))
  handle_answer_web_socket-IsGone token true turns ended s session v set known fresh =
      let last =
        run_socket-IsValid token session.id turns (opened token s) fresh
          (register_responder-IsValid token s v) in
      let named = IsSessionId-named (lookup-IsSessionId token s.sessions_by_tok v.named known) in
      rw set (
        rw (known, handle_answer_web_socket, register_responder)
          (
            unregister_responder-IsValid _ session.id ended last,
            unregister_responder-IsGone session.id ended _ last named,
          ))
