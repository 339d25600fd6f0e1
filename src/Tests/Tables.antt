-- ===== src/Tests/Tables.antt =====
-- The refinement by transactions, at tables that mirror a state in which Bob holds Ann's request.
use deeperseek.Core.History.{Reaches-IsValid}
use deeperseek.Core.Responders
use deeperseek.Core.Responders.Keys.{seq_key-injective}
use deeperseek.Core.Responders.{seq_key}
use deeperseek.Core.Types.{Request}
use deeperseek.Pgredis.Departures
use deeperseek.Pgredis.Mirror.{Mirrors, Billed, db_of}
use deeperseek.Pgredis.Refines.{Refines}
use deeperseek.Pgredis.Refines.Submission.{submit_fragment-Refines}
use deeperseek.Pgredis.Runs.{
  ArePlainActions, Action, submits, finishes, run, run_tx, Agrees, run-Agrees,
}
use deeperseek.Pgredis.Tables.{column, has_nul, rows_of, sent_as, has_clash}
use deeperseek.Pgredis.Transactions
use deeperseek.Prelude.{
  ℕ, String, false, Option, none, some, List, [], ◌∷◌, pos, ◌≡◌, refl, ◌≢◌, eq_iff, arith,
}
use deeperseek.Tests.Samples.{plain, numbered, ann_asks, ann_asks-Reaches, program}

Billed-empty : (id : String) (o : Option Request) → Billed [] id o
unfolding has_clash
Billed-empty id none = (λ u. refl, λ u. refl)
Billed-empty id (some r) = (λ e u. refl, λ e u. refl)

ann_asks-Mirrors : Mirrors ann_asks []
unfolding program rows_of sent_as
ann_asks-Mirrors = record {
  texts = λ id. refl;
  seen = λ id session n. refl;
  distinct = (refl, tt);
  billed = λ id. Billed-empty id _;
}

bob_named : ◌≢◌ {A = String} "ses_2" ""
bob_named = ground (arith, eq_iff "ses_2" "")

because_plain : has_nul "because" ≡ false
unfolding has_nul
because_plain = refl

submit_fragment-Refines_example :
    Refines
      (Transactions.submit_fragment "ses_2" (pos 1) "because" 6000 (db_of ann_asks []))
      (Responders.submit_fragment "ses_2" (pos 1) "because" 6000 ann_asks)
unfolding column
submit_fragment-Refines_example =
    submit_fragment-Refines "ses_2" (pos 1) "because" 6000 ann_asks [] refl because_plain
      (Reaches-IsValid plain numbered ann_asks-Reaches) ann_asks-Mirrors bob_named

-- Bob sends a fragment, sends it again, fills the answer, and has nothing to finish.
abbrev bob_works : List Action
bob_works =
    submits "ses_2" (pos 1) "because" 6000
    ∷ submits "ses_2" (pos 1) "because" 7000
    ∷ submits "ses_2" (pos 2) " so" 8000
    ∷ finishes "ses_2" 9000
    ∷ []

bob_works-ArePlainActions : ArePlainActions bob_works
unfolding column has_nul
bob_works-ArePlainActions = (
  (bob_named, refl, refl),
  ((bob_named, refl, refl), ((bob_named, refl, refl), ((bob_named, refl), tt))),
)

run-Agrees_example : Agrees (run_tx bob_works (db_of ann_asks [])) (run bob_works ann_asks)
run-Agrees_example =
    run-Agrees bob_works ann_asks [] bob_works-ArePlainActions
      (Reaches-IsValid plain numbered ann_asks-Reaches) ann_asks-Mirrors

seq_key-injective_example : ◌≡◌ {A = String} "ses_2" "ses_2" × ◌≡◌ {A = ℕ} 12 12
seq_key-injective_example = seq_key-injective "ses_2" "ses_2" 12 12 refl
