-- ===== src/Core/Points.antt =====
-- backend/internal/core/service.go: balances, and the sessions and results that show them.
use deeperseek.Core.State.{Service, Result, ok, err, panic, is_terminal, is_unset, new_id}
use deeperseek.Core.Types.{Time, Session, Request, PointEntry, Balance, Kind}
use deeperseek.Prelude.{
  ℕ, String, Bool, true, false, ◌&&◌, ◌||◌, none, some, List, [], ◌∷◌, ℤ, pos, ◌+ℤ◌, ◌-ℤ◌, total,
  lookup, insert, ◌==◌, ltb, if◌then◌else◌,
}

unfoldable pub ledger_total : String → List PointEntry → ℤ
ledger_total user [] = pos 0
ledger_total user (e ∷ es) =
    if e.user_id == user then e.delta +ℤ ledger_total user es else ledger_total user es

-- The points that one request holds back from a user.
unfoldable pub held_by : String → Request → ℕ
held_by user r =
    if r.requester_id == user && ltb 0 r.frozen_points
    then (if is_terminal r.status then 0 else r.frozen_points)
    else 0

unfoldable pub held_total : String → Service → ℕ
held_total user s = total (held_by user) s.requests

unfoldable pub balance_locked : Service → String → Balance
balance_locked s user =
    let points = ledger_total user s.ledger in
    let held = held_total user s in
    record { total = points; held = held; available = points -ℤ pos held }

abbrev pub zero_balance : Balance
zero_balance = record { total = pos 0; held = 0; available = pos 0 }

unfoldable pub balance_for_session_locked : Service → Session → Balance
balance_for_session_locked s session =
    if session.guest || is_unset session.user_id
    then zero_balance
    else balance_locked s session.user_id

pub record UserDto : Type 0 where
  pub id : String
  pub account_name : String
  pub nickname : String
  pub guest : Bool

pub record AuthResult : Type 0 where
  pub token : String
  pub user : UserDto
  pub balance : Balance

abbrev pub auth_of : Service → Session → UserDto → AuthResult
auth_of s session dto = record {
  token = session.token;
  user = dto;
  balance = balance_for_session_locked s session;
}

-- A session of an account that is not there is a nil dereference.
unfoldable pub auth_result_locked : Service → Session → Result AuthResult
auth_result_locked s session =
    if session.guest
    then ok (
        auth_of s session (record {
          id = session.id;
          account_name = "";
          nickname = session.nickname;
          guest = true;
        }))
    else elim (lookup session.user_id s.users) [
      | none ↦ err panic
      | some user ↦ ok (
          auth_of s session (record {
            id = user.id;
            account_name = user.account_name;
            nickname = user.nickname;
            guest = false;
          }))
    ]

unfoldable pub create_session_locked :
    String → Bool → String → Kind → Time → Service → Session × Service
unfolding new_id
create_session_locked user guest nickname kind now s =
    let (id, s₁) = new_id "ses" s in
    let (token, s₂) = new_id "tok" s₁ in
    let session =
      let x : Session = record {
        id = id;
        token = token;
        user_id = user;
        guest = guest;
        kind = kind;
        nickname = nickname;
        created_at = now;
      } in
      x in
    (session, record s₂ { sessions_by_tok = insert token session s₂.sessions_by_tok })
