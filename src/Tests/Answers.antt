-- ===== src/Tests/Answers.antt =====
-- The theorems on fragments, at a request that Bob answers.
use deeperseek.Core.History.{Reaches-IsValid}
use deeperseek.Core.Responders.Answers.{Appends, submit_fragment-Appends, submit_fragment_idem}
use deeperseek.Core.Responders.{submit_fragment}
use deeperseek.Core.State.{active_request, ok}
use deeperseek.Core.Types.{Fragment}
use deeperseek.Prelude.{pos, true, false, ◌≡◌, refl, eq_iff, arith}
use deeperseek.Tests.Samples.{plain, numbered, ann_asks, bob_answers, ann_asks-Reaches, program}

abbrev because : Fragment
because = record {
  id = "frg_5";
  request_id = "req_4";
  responder_session_id = "ses_2";
  client_seq = pos 1;
  text = "because";
  created_at = 6;
}

because-Accepted :
    submit_fragment "ses_2" (pos 1) "because" 6 ann_asks ≡ (ok (because, false), bob_answers)
unfolding program
because-Accepted = refl

submit_fragment-Appends_example :
    Appends ann_asks bob_answers (active_request ann_asks "ses_2") "because"
submit_fragment-Appends_example =
    submit_fragment-Appends "ses_2" (pos 1) "because" 6 ann_asks bob_answers because
      because-Accepted

submit_fragment_idem_example :
    submit_fragment "ses_2" (pos 1) "again" 9 bob_answers ≡ (ok (because, true), bob_answers)
unfolding program
submit_fragment_idem_example =
    submit_fragment_idem "ses_2" (pos 1) "because" "again" 6 9 ann_asks bob_answers because
      (Reaches-IsValid plain numbered ann_asks-Reaches) because-Accepted refl
      (ground (arith, eq_iff "again" ""))
