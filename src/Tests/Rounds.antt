-- ===== src/Tests/Rounds.antt =====
-- A round of the fallback, at a request that waits and a model that answers in two deltas.
use deeperseek.Core.History.{creates, enters, step}
use deeperseek.Chunks.{split_fallback_chunk, cut_from}
use deeperseek.Core.Requests.{acquire_fallback_assignment, may_fall_back}
use deeperseek.Core.Responders.{finish}
use deeperseek.Core.State.{Service, new_service, answer_text_locked}
use deeperseek.Fallback.{fallback_round, run_fallback_responder, emit, chunks_of, fallback_messages}
use deeperseek.Prelude.{false, none, [], ◌∷◌, pos, ◌≡◌, refl, take_runes, drop_runes}
use deeperseek.Tests.Samples.{plain, numbered, question, program}

-- Ann has asked, and nobody is online.
abbrev ann_alone : Service
ann_alone =
    step plain 2 (creates "tok_1" "m" question (pos 100) none)
      (step plain 1 (enters "ann") (new_service numbered))

round_answer :
    answer_text_locked
      (fallback_round
        (λ n. false)
        (λ n. 3)
        (λ ms. "because of" ∷ " physics" ∷ [])
        (pos 5)
        "req_2"
        ann_alone).1
      "req_2"
    ≡ "because of physics"
unfolding program fallback_round acquire_fallback_assignment may_fall_back run_fallback_responder
    emit chunks_of split_fallback_chunk cut_from take_runes drop_runes fallback_messages finish
round_answer = refl
