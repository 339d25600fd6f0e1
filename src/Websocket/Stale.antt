-- ===== src/Websocket/Stale.antt =====
-- An error is reported again with each ping that follows it.
use deeperseek.Core.State.{Error}
use deeperseek.Core.Types.{Time}
use deeperseek.Prelude.{
  ℕ, zero, suc, String, Option, some, List, [], ◌∷◌, ◌++◌, pos, none, ◌≡◌, refl, ap, ◌∙◌,
}
use deeperseek.Core.Accounts.{Bcrypt}
use deeperseek.Websocket.{
  WsInbound, Frame, pong, error_frame, error_frames, Socket, dispatch, handle_message, Turn,
  arrives, turn, run_socket,
}

abbrev pub ping : WsInbound
ping = record { type = "ping"; client_seq = pos 0; text = ""; accept_ai_questions = none }

abbrev pub pings : ℕ → Time → List Turn
pings zero now = []
pings (suc n) now = arrives ping now now ∷ pings n now

abbrev pub pongs_with_error : ℕ → Error → List Frame
pongs_with_error zero e = []
pongs_with_error (suc n) e = pong ∷ error_frame e ∷ pongs_with_error n e

-- When the last call of a socket failed, each of any number of pings that follow is answered by a
-- pong and the same error, and the service stays as it is.
pub run_socket-pings :
    (b : Bcrypt) (token session : String) (n : ℕ) (now : Time) (e : Error) (k : Socket)
    → k.last_error ≡ some e
    → run_socket b token session (pings n now) k ≡ (pongs_with_error n e, k)
unfolding run_socket turn handle_message dispatch
run_socket-pings b token session zero now e k failed = refl
run_socket-pings b token session (suc n) now e k failed =
    let rest = run_socket b token session (pings n now) k in
    ap (λ (o : Option Error). (pong ∷ (error_frames o ++ rest.0), rest.1)) failed
    ∙ ap (λ (p : List Frame × Socket). (pong ∷ error_frame e ∷ p.0, p.1))
        (run_socket-pings b token session n now e k failed)
