-- ===== src/Tests/Refusals.antt =====
-- The theorem on a refused first fragment, at a request whose limit is 10 characters.
use deeperseek.Core.State.{output_too_large}
use deeperseek.Persona.Answering.{submit_chunks}
use deeperseek.Persona.Refused.{submit_chunks_refused}
use deeperseek.Prelude.{false, [], ◌∷◌, ◌≡◌, refl}
use deeperseek.Tests.Samples.{ann_asks, program}

submit_chunks_refused_example :
    submit_chunks (λ n. false) (λ n. 6) "ses_2" 1 ("a long answer" ∷ []) ann_asks ≡ ann_asks
unfolding program
submit_chunks_refused_example =
    submit_chunks_refused (λ n. false) (λ n. 6) "ses_2" "a long answer" [] ann_asks output_too_large
      refl refl refl
