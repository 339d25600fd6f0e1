-- ===== src/Persona/Refused.antt =====
-- What the loop of `answer` leaves when the backend refuses the first fragment.
use deeperseek.Core.Responders.{submit_fragment, finish}
use deeperseek.Core.State.{Service, Error, err, active_request, fragments_of}
use deeperseek.Core.Types.{Time}
use deeperseek.Persona.Answering.{submit_chunks}
use deeperseek.Prelude.{
  ℕ, String, Bool, true, false, List, ◌∷◌, pos, ◌≡◌, ap, lookup, is_empty, inl, inr, arith,
  Option-cases,
}

finish-unanswered :
    (session : String) (now : Time) (s : Service)
    → is_empty (fragments_of s (active_request s session)) ≡ true
    → (finish session now s).1 ≡ s
unfolding finish
finish-unanswered session now s blank =
    elim (Option-cases (lookup (active_request s session) s.requests)) [
      | inl missing ↦ ground arith
      | inr (r, found) ↦ ground arith
    ]

-- If the context has not ended and the backend refuses the first fragment of an answer to a request
-- that has no fragment, then the Finish that follows is refused too: nothing has changed, and the
-- persona still holds the request.
pub submit_chunks_refused :
    (stops : ℕ → Bool) (clock : ℕ → Time) (session chunk : String) (chunks : List String)
    (s : Service) (e : Error)
    → stops 1 ≡ false
    → is_empty (fragments_of s (active_request s session)) ≡ true
    → submit_fragment session (pos 1) chunk (clock 1) s ≡ (err e, s)
    → submit_chunks stops clock session 1 (chunk ∷ chunks) s ≡ s
unfolding submit_chunks
submit_chunks_refused stops clock session chunk chunks s e going blank refused =
    let same : (submit_fragment session (pos 1) chunk (clock 1) s).1 ≡ s = ap (λ p. p.1) refused in
    rw going (rw refused (rw same (finish-unanswered session (clock 1) s blank)))
