-- ===== src/Tests/Logins.antt =====
-- Dora registers, and logs in.
use deeperseek.Core.Accounts.{IsSound}
use deeperseek.Core.Points.{AuthResult, ledger_total}
use deeperseek.Pgredis.Accounts.Entry.{register-login, register_once}
use deeperseek.Pgredis.Accounts.{
  Accounts, gives, register, login, add_account, create_session, grant_signup, auth_result,
  is_taken, user_named,
}
use deeperseek.Pgredis.Creation.{balance, held_points}
use deeperseek.Pgredis.Tables.{new_id}
use deeperseek.Prelude.{
  String, false, none, some, List, [], ◌∷◌, pos, lookup, insert, trim_space, ◌≡◌, ◌≢◌, refl, arith,
  eq_iff, eq_refl,
}
use deeperseek.Tests.Samples.{plain, numbered, program}

abbrev nobody : Accounts
nobody = record {
  db = record {
    sessions = [];
    requests = [];
    fragments = [];
    ledger = [];
    entropy = numbered;
    drawn = 0;
  };
  users = [];
}

abbrev dora : AuthResult
dora = record {
  token = "tok_3";
  user = record { id = "usr_0"; account_name = "dora"; nickname = "D"; guest = false };
  balance = record { total = pos 20; held = 0; available = pos 20 };
}

abbrev entered : Accounts
entered = (register plain "salt" " dora" "D" "secret" "secret" 1 nobody).1

plain-IsSound : IsSound plain
plain-IsSound = record {
  agrees_generate = λ salt password {hash} e. ground (arith, e, eq_iff hash password);
}

enters_dora : register plain "salt" " dora" "D" "secret" "secret" 1 nobody ≡ (gives dora, entered)
unfolding register add_account create_session grant_signup auth_result is_taken user_named balance
    held_points ledger_total new_id program deeperseek.Prelude.◌+ℤ◌ deeperseek.Prelude.◌-ℤ◌
enters_dora = refl

register-login_example :
    (token : String) × ((login plain " dora" "secret" 5 entered).0
      ≡ gives (record dora { token = token }))
register-login_example =
    register-login plain "salt" " dora" "D" "secret" "secret" 1 5 nobody dora entered plain-IsSound
      enters_dora

same_name : trim_space "dora " ≡ trim_space " dora"
unfolding program
same_name = refl

register_once_example :
    (register plain "pepper" "dora " "Eve" "other" "other" 7 entered).0 ≢ gives dora
register_once_example =
    register_once plain "salt" " dora" "D" "secret" "secret" 1 nobody dora entered plain-IsSound
      enters_dora "pepper" "dora " "Eve" "other" "other" 7 dora same_name
