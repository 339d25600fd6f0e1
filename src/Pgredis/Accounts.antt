-- ===== src/Pgredis/Accounts.antt =====
-- backend/internal/pgredis/auth.go: accounts and sessions, as statements on the tables. Of the
-- statements only an INSERT into users may fail, by its two unique keys, and the query of authResult.
-- LedgerForUser, whose order is that of the database's collation, is left out.
pub mod Entry
use deeperseek.Core.Accounts.{Bcrypt}
use deeperseek.Core.Points.{AuthResult, UserDto, zero_balance}
use deeperseek.Core.State.{
  Error, account_exists, invalid_credentials, unauthorized, password_mismatch,
  account_fields_required, hashing_failed, is_unset,
}
use deeperseek.Core.Types.{
  Time, Session, User, Kind, human, ai_persona, signup, signup_grant, Balance,
}
use deeperseek.Pgredis.Creation.{balance}
use deeperseek.Pgredis.Tables.{Db, new_id}
use deeperseek.Prelude.{
  String, Bool, true, false, not, ◌||◌, Option, none, some, List, [], ◌∷◌, ◌++◌, pos, Dict, lookup,
  insert, ◌==◌, if◌then◌else◌, trim_space,
}

-- `users` is keyed by its primary key.
pub record Accounts : Type 0 where
  pub db : Db
  pub users : Dict User

-- What a method returns: a result, one of the errors of the core, or the error of a query.
pub data Answer {ℓ} (A : Type ℓ) : Type ℓ where
  gives : A → Answer A
  refuses : Error → Answer A
  query_fails : Answer A

-- `WHERE account_name = $1`
unfoldable pub user_named : String → Dict User → Option User
user_named name [] = none
user_named name ((id, u) ∷ rows) = if u.account_name == name then some u else user_named name rows

abbrev pub is_some {ℓ} : {A : Type ℓ} → Option A → Bool
is_some none = false
is_some (some a) = true

-- `isUniqueViolation` of the INSERT: the id or the account name is taken.
unfoldable pub is_taken : String → String → Dict User → Bool
is_taken id account users = is_some (lookup id users) || is_some (user_named account users)

unfoldable pub create_session : String → Bool → String → Kind → Time → Accounts → Session × Accounts
unfolding new_id
create_session user guest nickname kind now a =
    let (id, d₁) = new_id "ses" a.db in
    let (token, d₂) = new_id "tok" d₁ in
    let sess : Session = record {
      id = id;
      token = token;
      user_id = user;
      guest = guest;
      kind = kind;
      nickname = nickname;
      created_at = now;
    } in
    (sess, record a { db = record d₂ { sessions = insert token sess d₂.sessions } })

abbrev pub answer_for : Session → UserDto → Balance → Answer AuthResult
answer_for sess dto points = gives (record { token = sess.token; user = dto; balance = points })

unfoldable pub auth_result : Session → Accounts → Answer AuthResult
auth_result sess a =
    if sess.guest
    then answer_for sess
        (record { id = sess.id; account_name = ""; nickname = sess.nickname; guest = true })
        zero_balance
    else elim (lookup sess.user_id a.users) [
      | none ↦ query_fails
      | some u ↦
          answer_for sess
            (record {
              id = sess.user_id;
              account_name = u.account_name;
              nickname = u.nickname;
              guest = false;
            })
            (balance a.db sess.user_id)
    ]

-- The INSERT of the signup grant.
unfoldable pub grant_signup : String → Time → Accounts → Accounts
unfolding new_id
grant_signup user now a =
    let (id, d) = new_id "pts" a.db in
    record a {
      db = record d {
        ledger =
            d.ledger
            ++ record {
              id = id;
              user_id = user;
              request_id = "";
              kind = signup;
              delta = pos signup_grant;
              created_at = now;
            }
              ∷ [];
      };
    }

module _ (b : Bcrypt) where
  -- The transaction, once the password is hashed. It keeps nothing when the account is taken but that
  -- an id is drawn.
  unfoldable pub add_account :
      String → String → String → Time → Accounts → Answer AuthResult × Accounts
  unfolding new_id create_session
  add_account account nickname hash now a =
      let (id, d) = new_id "usr" a.db in
      if is_taken id account a.users
      then (refuses account_exists, record a { db = d })
      else (let u : User = record {
        id = id;
        account_name = account;
        nickname = nickname;
        password_hash = hash;
        created_at = now;
      } in
          let a₁ = grant_signup id now (record { db = d; users = insert id u a.users }) in
          let (sess, a₂) = create_session id false nickname human now a₁ in
          (auth_result sess a₂, a₂))

  unfoldable pub register :
      String → String → String → String → String → Time → Accounts → Answer AuthResult × Accounts
  register salt account nickname password repeated now a =
      let account' = trim_space account in
      let nickname' = trim_space nickname in
      if is_unset account' || is_unset nickname' || is_unset password
      then (refuses account_fields_required, a)
      else if not (password == repeated)
      then (refuses password_mismatch, a)
      else elim (b.generate salt password) [
        | none ↦ (refuses hashing_failed, a)
        | some hash ↦ add_account account' nickname' hash now a
      ]

  unfoldable pub login : String → String → Time → Accounts → Answer AuthResult × Accounts
  unfolding create_session
  login account password now a = elim (user_named (trim_space account) a.users) [
    | none ↦ (refuses invalid_credentials, a)
    | some u ↦
        if not (b.agrees u.password_hash password)
        then (refuses invalid_credentials, a)
        else (let (sess, a') = create_session u.id false u.nickname human now a in
            (auth_result sess a', a'))
  ]

abbrev or_default : String → String → String
or_default nickname name = if is_unset (trim_space nickname) then name else nickname

unfoldable pub guest_session : String → Time → Accounts → Answer AuthResult × Accounts
unfolding create_session
guest_session nickname now a =
    let (sess, a') = create_session "" true (or_default nickname "Guest Operator") human now a in
    (auth_result sess a', a')

unfoldable pub persona_session : String → Time → Accounts → Answer AuthResult × Accounts
unfolding create_session
persona_session nickname now a =
    let (sess, a') = create_session "" true (or_default nickname "深思伪人") ai_persona now a in
    (auth_result sess a', a')

unfoldable pub me : String → Accounts → Answer AuthResult
me token a = elim (lookup token a.db.sessions) [
  | none ↦ refuses unauthorized
  | some sess ↦ auth_result sess a
]
