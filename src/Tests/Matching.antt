-- ===== src/Tests/Matching.antt =====
-- The theorems on matching and on histories, at concrete states.
use deeperseek.Core.Types.{streaming, queued, assigned, abandoned, completed, timeout_completed}
use deeperseek.Core.History.{Reaches-IsValid}
use deeperseek.Core.Invariants.{Reaches-status, Reaches-queue, Reaches-one_responder}
use deeperseek.Core.Matching.Oldest.{IsOldest, compatible_pair_locked-IsOldest, IsSettled}
use deeperseek.Core.Matching.Total.{try_assign_locked-IsSettled}
use deeperseek.Core.Matching.{try_assign_locked}
use deeperseek.Core.State.{fragments_of, Service}
use deeperseek.Core.Valid.{IsValid}
use deeperseek.Prelude.{false, ◌⊎◌, ◌↔◌, true, contains, is_empty, IsNodup, String, some, ◌≡◌, refl}
use deeperseek.Tests.Samples.{
  plain, numbered, waiting, bob_answers, bob_answers-Reaches, answered, found-answered, program,
}

compatible_pair_locked-IsOldest_example : IsOldest waiting 0 0
unfolding program
compatible_pair_locked-IsOldest_example = compatible_pair_locked-IsOldest waiting 0 0 refl

try_assign_locked-IsSettled_example :
    (s' : Service) × (try_assign_locked 9 waiting ≡ some s') × IsSettled s'
try_assign_locked-IsSettled_example = try_assign_locked-IsSettled 9 waiting

Reaches-IsValid_example : IsValid bob_answers
Reaches-IsValid_example = Reaches-IsValid plain numbered bob_answers-Reaches

Reaches-one_responder_example : ◌≡◌ {A = String} "ses_2" "ses_2"
unfolding program
Reaches-one_responder_example =
    Reaches-one_responder plain numbered bob_answers-Reaches "ses_2" "ses_2" "req_4" refl refl

Reaches-queue_example :
    IsNodup bob_answers.queue × ((contains bob_answers.queue "req_4" ≡ true) ↔ (streaming ≡ queued))
unfolding program
Reaches-queue_example =
    Reaches-queue plain numbered bob_answers-Reaches "req_4" answered found-answered

Reaches-status_example :
    ((is_empty (fragments_of bob_answers "req_4") ≡ true)
      × ((streaming ≡ queued) ⊎ (streaming ≡ assigned) ⊎ (streaming ≡ abandoned)))
    ⊎ ((is_empty (fragments_of bob_answers "req_4") ≡ false)
        × ((streaming ≡ streaming) ⊎ (streaming ≡ completed) ⊎ (streaming ≡ timeout_completed)))
Reaches-status_example =
    Reaches-status plain numbered bob_answers-Reaches "req_4" answered found-answered
