-- ===== src/Tests/Archives.antt =====
-- The conversations of Ann, in the tables and in the engine.
use deeperseek.Core.Conversations.{normalize_title}
use deeperseek.Pgredis.Tables.{column, has_nul}
use deeperseek.Pgredis.Conversations.Histories.{
  Action, Reply, creates, reads, renames, archives, deletes, appends, run, run_tx, ArePlainActions,
  Corresponds, run-Corresponds,
}
use deeperseek.Pgredis.Conversations.Matches.{archive_of, Matches}
use deeperseek.Pgredis.Conversations.{messages_of}
use deeperseek.Prelude.{trim_space, true, List, [], ◌∷◌, refl}
use deeperseek.Tests.Samples.{ann_asks, program}

ann_asks-Matches : Matches ann_asks []
unfolding program messages_of
ann_asks-Matches = record { kept = λ id. refl; numbered = λ id. tt }

-- Ann opens a conversation and writes in it; Bob may not read it, and it goes in the end.
abbrev ann_writes : List Action
ann_writes =
    creates "tok_1" " trip " 6000
    ∷ appends "tok_1" "cnv_5" "user" "where to?" "" "" 7000
    ∷ appends "tok_1" "cnv_5" "assistant" "north" "human" "" 8000
    ∷ renames "tok_1" "cnv_5" "north" 9000
    ∷ archives "tok_1" "cnv_5" true 10000
    ∷ reads "tok_1" "cnv_5"
    ∷ reads "tok_3" "cnv_5"
    ∷ deletes "tok_1" "cnv_5"
    ∷ []

ann_writes-ArePlainActions : ArePlainActions ann_writes
unfolding column has_nul normalize_title trim_space
ann_writes-ArePlainActions = (
  (refl, refl, refl),
  (
    (refl, refl, refl, refl),
    (
      (refl, refl, refl, refl),
      (
        (refl, refl, refl, refl),
        ((refl, refl, refl), ((refl, refl), ((refl, refl), ((refl, refl), tt)))),
      ),
    ),
  ),
)

run-Corresponds_example :
    Corresponds
      (List Reply)
      []
      (run_tx ann_writes (archive_of ann_asks [] []))
      (run ann_writes ann_asks)
run-Corresponds_example =
    run-Corresponds [] ann_writes ann_asks [] ann_writes-ArePlainActions ann_asks-Matches
