-- ===== src/Pgredis/Accounts/Entry.antt =====
-- Who has just registered can log in, and nobody else can register under the same name.
use deeperseek.Core.Accounts.{Bcrypt, IsSound}
use deeperseek.Core.Points.{AuthResult}
use deeperseek.Core.State.{Error, is_unset}
use deeperseek.Core.Types.{Time, User, human}
use deeperseek.Pgredis.Accounts.{
  Accounts, Answer, gives, refuses, user_named, is_taken, create_session, auth_result, grant_signup,
  add_account, register, login,
}
use deeperseek.Pgredis.Creation.{balance}
use deeperseek.Pgredis.Tables.{new_id}
use deeperseek.Prelude.{
  String, true, false, ◌||◌, Option, some, [], ◌∷◌, Dict, lookup, insert, ◌==◌, ◌≡◌, ◌≢◌, refl, sym,
  ap, ◌∙◌, inl, inr, subst, arith, eq_iff, trim_space, Bool-cases, Option-cases, lookup-insert_self,
}

-- A new row is found by its name.
user_named-insert :
    (id : String) (u : User) (users : Dict User)
    → is_taken id u.account_name users ≡ false
    → user_named u.account_name (insert id u users) ≡ some u
unfolding user_named insert lookup is_taken
user_named-insert id u [] h = ground (arith, eq_iff u.account_name u.account_name)
user_named-insert id u ((j, x) ∷ users) h =
    ground (arith, user_named-insert id u users, h, eq_iff j id)

-- What an accepted registration leaves: the row of the account, which the result shows.
record IsMember (b : Bcrypt) (account password : String) (a : Accounts) (r : AuthResult)
    : Type 0 where
  member : User
  by_name : user_named account a.users ≡ some member
  by_id : lookup member.id a.users ≡ some member
  accepts : b.agrees member.password_hash password ≡ true
  user : r.user ≡ record {
    id = member.id;
    account_name = member.account_name;
    nickname = member.nickname;
    guest = false;
  }
  points : r.balance ≡ balance a.db member.id

abbrev Outcome : Type 0
Outcome = Answer AuthResult × Accounts

refuses-gives :
    {x : Error} {y : Accounts} {r : AuthResult} {a : Accounts}
    → ◌≡◌ {A = Outcome} (refuses x, y) (gives r, a)
    → ⊥
refuses-gives h = let first = ap (λ (o : Outcome). o.0) h in cc

gives-injective : {r r' : AuthResult} → ◌≡◌ {A = Answer AuthResult} (gives r) (gives r') → r ≡ r'
gives-injective h = cc

module _ (b : Bcrypt) where
  add_account-IsMember :
      (account nickname hash password : String) (now : Time) (a : Accounts) (r : AuthResult)
      (a' : Accounts)
      → b.agrees hash password ≡ true
      → add_account b account nickname hash now a ≡ (gives r, a')
      → IsMember b account password a' r
  unfolding add_account create_session grant_signup auth_result new_id
  add_account-IsMember account nickname hash password now a r a' ok_hash e =
      let (id, d) = new_id "usr" a.db in
      elim (Bool-cases (is_taken id account a.users)) [
        | inl taken ↦ absurd (refuses-gives (rw (taken, add_account) at e))
        | inr free ↦
            let u : User = record {
              id = id;
              account_name = account;
              nickname = nickname;
              password_hash = hash;
              created_at = now;
            } in
            let users = insert id u a.users in
            let a₁ = grant_signup id now (record { db = d; users = users }) in
            let (sess, a₂) = create_session id false nickname human now a₁ in
            let here = lookup-insert_self id u a.users in
            let r₀ : AuthResult = record {
              token = sess.token;
              user = record { id = id; account_name = account; nickname = nickname; guest = false };
              balance = balance a₂.db id;
            } in
            let e₁ : ◌≡◌ {A = Outcome} (auth_result sess a₂, a₂) (gives r, a') =
              rw (free, add_account) at e in
            let shown : auth_result sess a₂ ≡ gives r₀ = rw (here, auth_result) refl in
            let same : r₀ ≡ r = gives-injective (sym shown ∙ ap (λ (o : Outcome). o.0) e₁) in
            subst (λ x. IsMember b account password x r) (ap (λ (o : Outcome). o.1) e₁)
              (subst (λ x. IsMember b account password a₂ x) same
                (record {
                  member = u;
                  by_name = user_named-insert id u a.users free;
                  by_id = here;
                  accepts = ok_hash;
                  user = refl;
                  points = refl;
                }))
      ]

  -- A registration that is accepted has a hash, and adds the account.
  register-add_account :
      (salt account nickname password repeated : String) (now : Time) (a : Accounts)
      (r : AuthResult) (a' : Accounts)
      → register b salt account nickname password repeated now a ≡ (gives r, a')
      → (hash : String) × Path (Option String) (b.generate salt password) (some hash)
        × (add_account b (trim_space account) (trim_space nickname) hash now a ≡ (gives r, a'))
  unfolding register
  register-add_account salt account nickname password repeated now a r a' e =
      let unset =
        is_unset (trim_space account) || is_unset (trim_space nickname) || is_unset password in
      elim (Bool-cases unset) [
        | inl missing ↦ absurd (refuses-gives (rw (missing, register) at e))
        | inr filled ↦ elim (Bool-cases (password == repeated)) [
          | inr other ↦
              absurd (refuses-gives (rw (other, register) at (rw (filled, register) at e)))
          | inl same ↦ elim (Option-cases (b.generate salt password)) [
            | inl failed ↦ absurd (
                refuses-gives
                  (rw (failed, register) at (rw (same, register) at (rw (filled, register) at e))))
            | inr (hash, hashed) ↦ (
              hash,
              hashed,
              rw (hashed, register) at (rw (same, register) at (rw (filled, register) at e)),
            )
          ]
        ]
      ]

  register-IsMember :
      (salt account nickname password repeated : String) (now : Time) (a : Accounts)
      (r : AuthResult) (a' : Accounts)
      → IsSound b
      → register b salt account nickname password repeated now a ≡ (gives r, a')
      → IsMember b (trim_space account) password a' r
  register-IsMember salt account nickname password repeated now a r a' sound e =
      let (hash, hashed, added) =
        register-add_account salt account nickname password repeated now a r a' e in
      add_account-IsMember (trim_space account) (trim_space nickname) hash password now a r a'
        (sound.agrees_generate salt password hashed) added

  -- In the tables as an accepted registration leaves them, where bcrypt accepts a password against
  -- the hash made from it: a login with the same account name and password succeeds, whatever the
  -- clock says then, and shows the same account and the same balance as the registration.
  pub register-login :
      (salt account nickname password repeated : String) (now later : Time) (a : Accounts)
      (r : AuthResult) (a' : Accounts)
      → IsSound b
      → register b salt account nickname password repeated now a ≡ (gives r, a')
      → (token : String) × ((login b account password later a').0
          ≡ gives (record r { token = token }))
  unfolding login create_session new_id auth_result balance
  register-login salt account nickname password repeated now later a r a' sound e =
      let m = register-IsMember salt account nickname password repeated now a r a' sound e in
      (
        (create_session m.member.id false m.member.nickname human later a').0.token,
        rw (m.by_name, login)
            (rw (m.accepts, login) (rw (m.by_id, auth_result) (cc (m.user, m.points)))),
      )

  -- In the tables, where bcrypt accepts a password against the hash made from it: right after a
  -- registration that was accepted, none is accepted under the same account name, with or without
  -- spaces around it, whoever tries and with whatever password.
  pub register_once :
      (salt account nickname password repeated : String) (now : Time) (a : Accounts)
      (r : AuthResult) (a' : Accounts)
      → IsSound b
      → register b salt account nickname password repeated now a ≡ (gives r, a')
      → (salt' account' nickname' password' repeated' : String) (later : Time) (r' : AuthResult)
      → trim_space account' ≡ trim_space account
      → (register b salt' account' nickname' password' repeated' later a').0 ≢ gives r'
  unfolding is_taken add_account register
  register_once salt account nickname password repeated now a r a' sound e salt' account' nickname'
        password' repeated' later r' same e' =
      let m = register-IsMember salt account nickname password repeated now a r a' sound e in
      let second = register b salt' account' nickname' password' repeated' later a' in
      let (hash, hashed, added) =
        register-add_account salt' account' nickname' password' repeated' later a' r' second.1
          (ap (λ (x : Answer AuthResult). (x, second.1)) e') in
      let found = ap (λ name. user_named name a'.users) same ∙ m.by_name in
      let taken : is_taken (new_id "usr" a'.db).0 (trim_space account') a'.users ≡ true =
        ground (arith, found) in
      refuses-gives (rw (taken, add_account) at added)
