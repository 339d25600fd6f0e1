-- ===== src/Pgredis/Runs.antt =====
-- Whole runs of a responder's calls, against the engine and against the tables.
use deeperseek.Core.Responders
use deeperseek.Core.State.{Service, Result}
use deeperseek.Core.Types.{Time, Fragment}
use deeperseek.Core.Valid.{IsValid}
use deeperseek.Core.Valid.Responding.{finish-IsValid}
use deeperseek.Core.Valid.Submitting.{submit_fragment-IsValid}
use deeperseek.Pgredis.Mirror.{Mirrors, db_of}
use deeperseek.Pgredis.Refines.{finish-Refines}
use deeperseek.Pgredis.Refines.Submission.{submit_fragment-Refines}
use deeperseek.Pgredis.Tables.{column, has_nul, Db, FragmentRow}
use deeperseek.Pgredis.Transactions
use deeperseek.Prelude.{String, Bool, false, List, [], ◌∷◌, ℤ, ◌≡◌, refl, ◌≢◌, ap, ◌∙◌}

pub data Action : Type 0 where
  submits : (session : String) → (seq : ℤ) → (text : String) → (now : Time) → Action
  finishes : (session : String) → (now : Time) → Action

pub data Reply : Type 0 where
  submitted : Result (Fragment × Bool) → Reply
  finished : Result (Unit {0}) → Reply

unfoldable pub act : Action → Service → Reply × Service
act (submits session seq text now) s =
    let (result, s') = Responders.submit_fragment session seq text now s in (submitted result, s')
act (finishes session now) s =
    let (result, s') = Responders.finish session now s in (finished result, s')

unfoldable pub act_tx : Action → Db → Reply × Db
act_tx (submits session seq text now) d =
    let outcome = Transactions.submit_fragment session seq text now d in
    (submitted outcome.0, outcome.1)
act_tx (finishes session now) d =
    let outcome = Transactions.finish session now d in (finished outcome.0, outcome.1)

-- The replies of a run, in order, and what it leaves.
unfoldable pub run : List Action → Service → List Reply × Service
run [] s = ([], s)
run (a ∷ actions) s =
    let first = act a s in let rest = run actions first.1 in (first.0 ∷ rest.0, rest.1)

unfoldable pub run_tx : List Action → Db → List Reply × Db
run_tx [] d = ([], d)
run_tx (a ∷ actions) d =
    let first = act_tx a d in let rest = run_tx actions first.1 in (first.0 ∷ rest.0, rest.1)

-- Each call is by a session with an id, and comes at a time of whole microseconds; the text of a
-- fragment has no U+0000.
abbrev pub IsPlainAction : Action → Type 0
IsPlainAction (submits session seq text now) =
    (session ≢ "") × (column now ≡ now) × (has_nul text ≡ false)
IsPlainAction (finishes session now) = (session ≢ "") × (column now ≡ now)

abbrev pub ArePlainActions : List Action → Type 0
ArePlainActions [] = Unit
ArePlainActions (a ∷ actions) = IsPlainAction a × ArePlainActions actions

-- After the same calls: the same replies, and tables that mirror the state.
pub record Agrees (tx : List Reply × Db) (engine : List Reply × Service) : Type 0 where
  pub rows : List FragmentRow
  pub replies : tx.0 ≡ engine.0
  pub state : tx.1 ≡ db_of engine.1 rows
  pub mirrors : Mirrors engine.1 rows

record Agreed (a : Action) (s : Service) (d : Db) : Type 0 where
  rows : List FragmentRow
  reply : (act_tx a d).0 ≡ (act a s).0
  state : (act_tx a d).1 ≡ db_of (act a s).1 rows
  mirrors : Mirrors (act a s).1 rows
  valid : IsValid (act a s).1

act-Agreed :
    (a : Action) (s : Service) (rows : List FragmentRow)
    → IsPlainAction a
    → IsValid s
    → Mirrors s rows
    → Agreed a s (db_of s rows)
unfolding act act_tx
act-Agreed (submits session seq text now) s rows named v m =
    let c = submit_fragment-Refines session seq text now s rows named.1 named.2 v m named.0 in
    record {
      rows = c.rows;
      reply = ap submitted c.result;
      state = c.state;
      mirrors = c.mirrors;
      valid = submit_fragment-IsValid session seq text now s v;
    }
act-Agreed (finishes session now) s rows named v m =
    let c = finish-Refines session now s rows v m named.0 in
    record {
      rows = c.rows;
      reply = ap finished c.result;
      state = c.state;
      mirrors = c.mirrors;
      valid = finish-IsValid s session now v;
    }

-- From a valid state that the tables mirror: any sequence of SubmitFragment and Finish by sessions
-- with an id, at times of whole microseconds, which is what the columns keep, and with texts
-- without U+0000, which they refuse, gives the same replies from the transactions as from the
-- in-memory engine, and leaves tables that mirror the engine's state.
pub run-Agrees :
    (actions : List Action) (s : Service) (rows : List FragmentRow)
    → ArePlainActions actions
    → IsValid s
    → Mirrors s rows
    → Agrees (run_tx actions (db_of s rows)) (run actions s)
unfolding run run_tx
run-Agrees [] s rows named v m = record { rows = rows; replies = refl; state = refl; mirrors = m }
run-Agrees (a ∷ actions) s rows named v m =
    let one = act-Agreed a s rows named.0 v m in
    let rest = run-Agrees actions (act a s).1 one.rows named.1 one.valid one.mirrors in
    let onward : run_tx actions (act_tx a (db_of s rows)).1
        ≡ run_tx actions (db_of (act a s).1 one.rows) =
      ap (run_tx actions) one.state in
    record {
      rows = rest.rows;
      replies =
          ap (λ r. r ∷ (run_tx actions (act_tx a (db_of s rows)).1).0) one.reply
          ∙ ap (λ rs. (act a s).0 ∷ rs) (ap (λ t. t.0) onward ∙ rest.replies);
      state = ap (λ t. t.1) onward ∙ rest.state;
      mirrors = rest.mirrors;
    }
