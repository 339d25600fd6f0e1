-- ===== src/Core/Reactions.antt =====
-- backend/internal/core/service.go: `React`.
pub mod Rewards
use deeperseek.Core.Points.{balance_locked, zero_balance}
use deeperseek.Core.State.{
  Service, Result, ok, err, unauthorized, request_not_found, reaction_not_allowed, invalid_reaction,
  is_terminal, put_request, add_ledger_locked, is_unset,
}
use deeperseek.Core.Types.{
  Time, Session, Request, Reaction, neutral, like, dislike, other, Balance, reaction_adjustment,
  base_answer_reward, second,
}
use deeperseek.Prelude.{
  ℕ, ◌-◌, ◌*◌, String, Bool, true, false, not, ◌&&◌, ◌||◌, none, some, ℤ, pos, negsuc, ◌-ℤ◌, lookup,
  ◌==◌, nat_eq, ltb, if◌then◌else◌,
}

unfoldable pub reward_for : Reaction → ℕ
reward_for like = base_answer_reward * 2
reward_for dislike = 8
reward_for neutral = base_answer_reward
reward_for (other _) = base_answer_reward

abbrev pub is_known : Reaction → Bool
is_known neutral = true
is_known like = true
is_known dislike = true
is_known (other _) = false

unfoldable pub is_requester : Session → Request → Bool
is_requester session r =
    (not session.guest && r.requester_id == session.user_id)
    || (session.guest && r.requester_guest && r.requester_session_id == session.id)

abbrev pub day : ℕ
day = 24 * 3600 * second

-- `req.CompletedAt.IsZero() || time.Since(req.CompletedAt) > 24*time.Hour`
unfoldable pub is_too_late : Time → Request → Bool
is_too_late now r = nat_eq r.completed_at 0 || ltb day (now - r.completed_at)

abbrev pub reward_change : Reaction → Reaction → ℤ
reward_change old new = pos (reward_for new) -ℤ pos (reward_for old)

abbrev pub is_zero : ℤ → Bool
is_zero (pos n) = nat_eq n 0
is_zero (negsuc n) = false

-- The reaction is kept, and the responder's points follow it.
unfoldable pub apply_reaction : Session → Request → Reaction → Time → Service → Balance × Service
unfolding put_request
apply_reaction session r reaction now s =
    let s₁ = put_request (record r { reaction = reaction }) s in
    if r.responder_guest || is_unset r.responder_user_id
    then (if session.guest then zero_balance else balance_locked s₁ session.user_id, s₁)
    else (let delta = reward_change r.reaction reaction in
        let s₂ =
          if is_zero delta
          then s₁
          else add_ledger_locked r.responder_user_id r.id reaction_adjustment delta now s₁ in
        (if session.guest then zero_balance else balance_locked s₂ r.responder_user_id, s₂))

-- `now` is the time of the check, `later` that of the ledger entry.
unfoldable pub react : String → String → Reaction → Time → Time → Service → Result Balance × Service
react token id reaction now later s =
    if not (is_known reaction)
    then (err invalid_reaction, s)
    else elim (lookup token s.sessions_by_tok) [
      | none ↦ (err unauthorized, s)
      | some session ↦ elim (lookup id s.requests) [
        | none ↦ (err request_not_found, s)
        | some r ↦
            if not (is_requester session r) || not (is_terminal r.status)
            then (err reaction_not_allowed, s)
            else if is_too_late now r
            then (err reaction_not_allowed, s)
            else (let (balance, s') = apply_reaction session r reaction later s in (ok balance, s'))
      ]
    ]
