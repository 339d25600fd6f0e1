-- ===== src/Pgredis/Stream/Whole.antt =====
-- The stream of an answer is the answer: in order, with no gap and no repetition, and whole at its end.
use deeperseek.Core.State.{ok}
use deeperseek.Core.Types.{Request, StreamEvent, Fragment, FinishReason}
use deeperseek.Pgredis.Stream.{
  emit, Reads, Wake, wakes, stops, done_event, drain_fragments_after, terminal_state, flush_end,
  flush, run_stream, subscribe,
}
use deeperseek.Pgredis.Stream.Drained.{
  Shows, ShowsWhole, Streamed, drain-Streamed, drain_going, Faithful, flush_end-Faithful,
  flush_end_whole,
}
use deeperseek.Pgredis.Stream.Rows.{events}
use deeperseek.Pgredis.Tables.{Db}
use deeperseek.Prelude.{
  ℕ, ◌≤◌, ◌<◌, String, Bool, true, false, Option, none, some, List, [], ◌∷◌, ◌++◌, length, ltb,
  lookup, ◌≡◌, refl, sym, ap, ◌∙◌, subst, ◌⊎◌, inl, inr, arith, Bool-cases, Option-cases,
}

-- The reads of a history: no read sees fewer fragments than one before it, and the last read of a
-- request that is over succeeds and sees the answer whole.
abbrev pub IsTimeline : String → List Fragment → ℕ → List Wake → Type 0
IsTimeline id answer n [] = Unit {0}
IsTimeline id answer n (stops ∷ rest) = Unit {0}
IsTimeline id answer n (wakes reads ∷ rest) =
    (i : ℕ) × (n ≤ i)
    × Shows id answer reads.first i
    × ((reason : FinishReason)
        → terminal_state id reads.state ≡ some reason
        → ShowsWhole id answer reads.second)
    × IsTimeline id answer i rest

flush_end_stops :
    (limit : ℕ) (id : String) (reason : FinishReason) (reads : Reads) (last : ℕ)
    (out : List StreamEvent)
    → (flush_end limit id reason reads last out).1 ≡ false
unfolding flush_end
flush_end_stops limit id reason reads last out =
    elim (Bool-cases (drain_fragments_after limit id last reads.second out).1) [
      | inl going ↦ rw (going, flush_end) refl
      | inr cancelled ↦ rw (cancelled, flush_end) refl
    ]

-- A flush from the parts of its first drain.
module _ (limit : ℕ) (id : String) (reads : Reads) (last : ℕ) (out : List StreamEvent) where
  abbrev first_drain : ℕ × Bool × List StreamEvent
  first_drain = drain_fragments_after limit id last reads.first out

  flush_cancelled :
      first_drain.1 ≡ false → flush limit id reads last out ≡ (first_drain.0, false, first_drain.2)
  unfolding flush
  flush_cancelled cancelled = rw (cancelled, flush) refl

  flush_open :
      first_drain.1 ≡ true
      → terminal_state id reads.state ≡ none
      → flush limit id reads last out ≡ (first_drain.0, true, first_drain.2)
  unfolding flush
  flush_open going open_yet = rw (going, flush) (rw open_yet refl)

  flush_over :
      {reason : FinishReason}
      → first_drain.1 ≡ true
      → terminal_state id reads.state ≡ some reason
      → flush limit id reads last out ≡ flush_end limit id reason reads first_drain.0 first_drain.2
  unfolding flush
  flush_over going over = rw (going, flush) (rw over refl)

-- The loop, from what a flush returns.
abbrev continue_with : ℕ → String → List Wake → ℕ × Bool × List StreamEvent → List StreamEvent
continue_with limit id rest (last, going, out) = elim going [
  | true ↦ run_stream limit id last out rest
  | false ↦ out
]

continue_over :
    (limit : ℕ) (id : String) (reason : FinishReason) (reads : Reads) (last : ℕ)
    (out : List StreamEvent) (rest : List Wake)
    → continue_with limit id rest (flush_end limit id reason reads last out)
      ≡ (flush_end limit id reason reads last out).2
continue_over limit id reason reads last out rest =
    rw (flush_end_stops limit id reason reads last out, continue_with) refl

-- What is sent for any history.
run_stream-Streamed :
    (limit : ℕ) (id : String) (answer : List Fragment) (n last : ℕ) (out : List StreamEvent)
    (history : List Wake)
    → Streamed id answer n last out
    → IsTimeline id answer n history
    → Faithful id answer (run_stream limit id last out history)
unfolding run_stream
run_stream-Streamed limit id answer n last out [] s t = inl (last, s.output)
run_stream-Streamed limit id answer n last out (stops ∷ rest) s t = inl (last, s.output)
run_stream-Streamed limit id answer n last out (wakes reads ∷ rest) s (i, later, shows, whole, t) =
    let r = drain_fragments_after limit id last reads.first out in
    let s' = drain-Streamed limit id answer n last i out reads.first s later shows in
    let go = λ (f : ℕ × Bool × List StreamEvent). continue_with limit id rest f in
    elim (Bool-cases r.1) [
      | inr cancelled ↦
          subst (Faithful id answer)
            (sym (ap go (flush_cancelled limit id reads last out cancelled))) (inl (r.0, s'.output))
      | inl going ↦ elim (Option-cases (terminal_state id reads.state)) [
        | inl open_yet ↦
            subst (Faithful id answer)
              (sym (ap go (flush_open limit id reads last out going open_yet)))
              (run_stream-Streamed limit id answer i r.0 r.2 rest s' t)
        | inr (reason, over) ↦
            subst (Faithful id answer)
              (sym (
                ap go (flush_over limit id reads last out going over)
                ∙ continue_over limit id reason reads r.0 r.2 rest))
              (flush_end-Faithful limit id reason answer i r.0 reads r.2 s' (whole reason over))
      ]
    ]

-- Where no read of the tables sees less of an answer than an earlier one, and the last read for a
-- request that is over sees all of it: whatever wakes the stream, wherever the consumer leaves it,
-- and whichever other reads fail, what Subscribe sends is a first part of the answer, in order,
-- with no gap and no repetition, or the whole answer and its end.
pub subscribe-Faithful :
    (limit : ℕ) (id : String) (d : Db) (r : Request) (answer : List Fragment) (history : List Wake)
    → lookup id d.requests ≡ some r
    → IsTimeline id answer 0 history
    → (out : List StreamEvent) × (subscribe limit id d history ≡ ok out) × Faithful id answer out
unfolding subscribe
subscribe-Faithful limit id d r answer history here t = (
  run_stream limit id 0 [] history,
  rw (here, subscribe) refl,
  run_stream-Streamed limit id answer 0 0 [] history
      (record { seen = omega arith; within = omega arith; output = refl }) t,
)

-- The request is over at some wake-up, before anything stops the stream.
abbrev pub Ends : String → List Wake → Type 0
Ends id [] = ⊥
Ends id (stops ∷ rest) = ⊥
Ends id (wakes reads ∷ rest) =
    ((reason : FinishReason) × (terminal_state id reads.state ≡ some reason)) ⊎ Ends id rest

run_stream_whole :
    (limit : ℕ) (id : String) (answer : List Fragment) (n last : ℕ) (out : List StreamEvent)
    (history : List Wake)
    → length answer < limit
    → Streamed id answer n last out
    → IsTimeline id answer n history
    → Ends id history
    → (reason : FinishReason) × (run_stream limit id last out history
        ≡ events id answer ++ done_event id reason ∷ [])
unfolding run_stream
run_stream_whole limit id answer n last out [] room s t e = absurd e
run_stream_whole limit id answer n last out (stops ∷ rest) room s t e = absurd e
run_stream_whole limit id answer n last out (wakes reads ∷ rest) room s (i, later, shows, whole, t)
      e =
    let r = drain_fragments_after limit id last reads.first out in
    let s' = drain-Streamed limit id answer n last i out reads.first s later shows in
    let going = drain_going limit id answer n last i out reads.first room s later shows in
    let go = λ (f : ℕ × Bool × List StreamEvent). continue_with limit id rest f in
    elim (Option-cases (terminal_state id reads.state)) [
      | inr (reason, over) ↦ (
        reason,
        ap go (flush_over limit id reads last out going over)
            ∙ continue_over limit id reason reads r.0 r.2 rest
            ∙ flush_end_whole limit id reason answer i r.0 reads r.2 s' (whole reason over) room,
      )
      | inl open_yet ↦
          let (reason, run) =
            run_stream_whole limit id answer i r.0 r.2 rest room s' t (later_end open_yet e) in
          (reason, ap go (flush_open limit id reads last out going open_yet) ∙ run)
    ]
  where
    later_end :
        terminal_state id reads.state ≡ none
        → ((reason : FinishReason) × (terminal_state id reads.state ≡ some reason)) ⊎ Ends id rest
        → Ends id rest
    later_end open_yet (inl (reason, over)) = ground (arith, open_yet, over)
    later_end open_yet (inr e) = e

-- Where no read of the tables sees less of an answer than an earlier one, and the last read for a
-- request that is over sees all of it: when the request is over at some wake-up before the stream
-- is stopped, and the consumer has room, it gets the whole answer, in order, and then the end.
pub subscribe_whole :
    (limit : ℕ) (id : String) (d : Db) (r : Request) (answer : List Fragment) (history : List Wake)
    → lookup id d.requests ≡ some r
    → length answer < limit
    → IsTimeline id answer 0 history
    → Ends id history
    → (reason : FinishReason) × (subscribe limit id d history
        ≡ ok (events id answer ++ done_event id reason ∷ []))
unfolding subscribe
subscribe_whole limit id d r answer history here room t e =
    let (reason, run) =
      run_stream_whole limit id answer 0 0 [] history room
        (record { seen = omega arith; within = omega arith; output = refl }) t e in
    (reason, rw (here, subscribe) (ap ok run))

-- For a request that exists and is over and a consumer that has room: if at the first wake-up both
-- drains' queries fail, and only the query for the status succeeds, the consumer gets the end of
-- the stream and no fragment, whatever the answer is.
pub subscribe_lost :
    (limit : ℕ) (id : String) (d : Db) (r : Request) (reason : FinishReason) (state : Option Db)
    (rest : List Wake)
    → lookup id d.requests ≡ some r
    → 0 < limit
    → terminal_state id state ≡ some reason
    → subscribe limit id d (wakes (record { first = none; state = state; second = none }) ∷ rest)
      ≡ ok (done_event id reason ∷ [])
unfolding subscribe run_stream flush_end drain_fragments_after
subscribe_lost limit id d r reason state rest here room over =
    let reads : Reads = record { first = none; state = state; second = none } in
    let some_room : ltb 0 limit ≡ true = ground (arith, room) in
    let sent : flush_end limit id reason reads 0 [] ≡ (0, false, done_event id reason ∷ []) =
      rw (some_room, emit) refl in
    rw (here, subscribe)
      (ap (λ f. ok (continue_with limit id rest f))
        (flush_over limit id reads 0 [] refl over ∙ sent))
