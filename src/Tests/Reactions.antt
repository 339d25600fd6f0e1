-- ===== src/Tests/Reactions.antt =====
-- The theorem on reactions, at a finished request whose responder has an account.
use deeperseek.Core.Reactions.Rewards.{Reacting, react_all, react_all-Follows, Follows}
use deeperseek.Core.State.{Service}
use deeperseek.Core.Types.{Request, like, neutral, dislike, completed}
use deeperseek.Prelude.{false, List, [], ◌∷◌, refl}
use deeperseek.Tests.Samples.{bob_answers, answered, program}

abbrev finished : Request
finished = record answered {
  status = completed;
  responder_guest = false;
  responder_user_id = "usr_1";
  completed_at = 7;
}

abbrev rated : Service
rated = record bob_answers { requests = ("req_4", finished) ∷ [] }

-- Ann likes the answer, then dislikes it; Bob may not react.
abbrev opinions : List Reacting
opinions =
    record { token = "tok_1"; reaction = like; now = 8; later = 8 }
    ∷ record { token = "tok_3"; reaction = neutral; now = 9; later = 9 }
    ∷ record { token = "tok_1"; reaction = dislike; now = 10; later = 10 }
    ∷ []

react_all-Follows_example : Follows rated (react_all "req_4" opinions rated) "req_4" finished
unfolding program
react_all-Follows_example = react_all-Follows "req_4" opinions rated finished refl refl refl
