-- ===== src/Core/Accounts.antt =====
-- backend/internal/core/service.go: registration, login and sessions. The hashing of passwords is
-- a third party's (golang.org/x/crypto/bcrypt): a parameter.
use deeperseek.Core.Points.{AuthResult, auth_result_locked, create_session_locked, balance_locked}
use deeperseek.Core.State.{
  Service, Result, ok, err, panic, account_exists, invalid_credentials, unauthorized,
  password_mismatch, account_fields_required, hashing_failed, new_id, add_ledger_locked, is_unset,
}
use deeperseek.Core.Types.{Time, User, human, ai_persona, signup, signup_grant, PointEntry, Balance}
use deeperseek.Prelude.{
  String, Bool, true, false, not, ◌||◌, Option, none, some, List, [], ◌∷◌, pos, lookup, insert,
  ◌==◌, if◌then◌else◌, trim_space,
}

-- `GenerateFromPassword`, which draws a salt, and whether `CompareHashAndPassword` gives no error.
pub record Bcrypt : Type 0 where
  pub generate : String → String → Option String
  pub agrees : String → String → Bool

-- The documented behaviour: a hash agrees with the password that it was made from.
pub record IsSound (b : Bcrypt) : Type 0 where
  pub agrees_generate :
      (salt password : String) {hash : String}
      → Path (Option String) (b.generate salt password) (some hash)
      → Path Bool (b.agrees hash password) true

module _ (b : Bcrypt) where
  abbrev new_user : String → String → String → String → Time → User
  new_user id account nickname hash now = record {
    id = id;
    account_name = account;
    nickname = nickname;
    password_hash = hash;
    created_at = now;
  }

  -- The part under the mutex, once the password is hashed.
  unfoldable pub add_account :
      String → String → String → Time → Service → Result AuthResult × Service
  unfolding new_id add_ledger_locked create_session_locked
  add_account account nickname hash now s = elim (lookup account s.users_by_account) [
    | some _ ↦ (err account_exists, s)
    | none ↦
        let (id, s₁) = new_id "usr" s in
        let s₂ = record s₁ {
          users = insert id (new_user id account nickname hash now) s₁.users;
          users_by_account = insert account id s₁.users_by_account;
        } in
        let s₃ = add_ledger_locked id "" signup (pos signup_grant) now s₂ in
        let (session, s₄) = create_session_locked id false nickname human now s₃ in
        (auth_result_locked s₄ session, s₄)
  ]

  unfoldable pub register :
      String → String → String → String → String → Time → Service → Result AuthResult × Service
  register salt account nickname password repeated now s =
      let account' = trim_space account in
      let nickname' = trim_space nickname in
      if is_unset account' || is_unset nickname' || is_unset password
      then (err account_fields_required, s)
      else if not (password == repeated)
      then (err password_mismatch, s)
      else elim (b.generate salt password) [
        | none ↦ (err hashing_failed, s)
        | some hash ↦ add_account account' nickname' hash now s
      ]

  unfoldable pub login : String → String → Time → Service → Result AuthResult × Service
  unfolding create_session_locked
  login account password now s = elim (lookup (trim_space account) s.users_by_account) [
    | none ↦ (err invalid_credentials, s)
    | some id ↦ elim (lookup id s.users) [
      | none ↦ (err panic, s)
      | some user ↦
          if not (b.agrees user.password_hash password)
          then (err invalid_credentials, s)
          else (let (session, s') = create_session_locked user.id false user.nickname human now s in
              (auth_result_locked s' session, s'))
    ]
  ]

abbrev or_default : String → String → String
or_default nickname name = if is_unset (trim_space nickname) then name else nickname

unfoldable pub guest_session : String → Time → Service → Result AuthResult × Service
unfolding create_session_locked
guest_session nickname now s =
    let (session, s') =
      create_session_locked "" true (or_default nickname "Guest Operator") human now s in
    (auth_result_locked s' session, s')

unfoldable pub persona_session : String → Time → Service → Result AuthResult × Service
unfolding create_session_locked
persona_session nickname now s =
    let (session, s') =
      create_session_locked "" true (or_default nickname "深思伪人") ai_persona now s in
    (auth_result_locked s' session, s')

unfoldable pub me : String → Service → Result AuthResult
me token s = elim (lookup token s.sessions_by_tok) [
  | none ↦ err unauthorized
  | some session ↦ auth_result_locked s session
]

abbrev pub entries_of : String → List PointEntry → List PointEntry
entries_of user [] = []
entries_of user (e ∷ es) = if e.user_id == user then e ∷ entries_of user es else entries_of user es

unfoldable pub ledger_for_user : String → Service → Result (List PointEntry × Balance)
ledger_for_user token s = elim (lookup token s.sessions_by_tok) [
  | none ↦ err unauthorized
  | some session ↦
      if session.guest
      then err unauthorized
      else ok (entries_of session.user_id s.ledger, balance_locked s session.user_id)
]
