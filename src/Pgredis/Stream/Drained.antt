-- ===== src/Pgredis/Stream/Drained.antt =====
-- What a drain sends of an answer, and the last drain of a request that is over.
use deeperseek.Core.Types.{StreamEvent, Fragment, FinishReason}
use deeperseek.Pgredis.Mirror.{numbered}
use deeperseek.Pgredis.Stream.{Reads, done_event, emit, emit_rows, drain_fragments_after, flush_end}
use deeperseek.Pgredis.Stream.Rows.{
  events, drop, length-events, events-append, take-drop-take, length-drop-take, rows_after-numbered,
  Sent, emit_rows-Sent,
}
use deeperseek.Pgredis.Tables.{Db, rows_of}
use deeperseek.Prelude.{
  ℕ, zero, suc, ◌+◌, ◌≤◌, ◌<◌, String, Bool, true, Option, none, some, List, [], ◌∷◌, ◌++◌, length,
  take, ltb, ◌≡◌, refl, sym, ap, ◌∙◌, subst, ◌⊎◌, inl, inr, arith, Bool-cases,
}

-- A read, if it succeeds, sees the first fragments of an answer.
abbrev pub Shows : String → List Fragment → Option Db → ℕ → Type 0
Shows id answer none n = Unit {0}
Shows id answer (some d) n = rows_of id d.fragments ≡ numbered 1 (take n answer)

-- A read succeeds, and sees all of the answer.
abbrev pub ShowsWhole : String → List Fragment → Option Db → Type 0
ShowsWhole id answer none = ⊥
ShowsWhole id answer (some d) = rows_of id d.fragments ≡ numbered 1 answer

-- What is sent: a first part of the answer.
pub record Streamed (id : String) (answer : List Fragment) (n last : ℕ) (out : List StreamEvent)
    : Type 0 where
  pub seen : last ≤ n
  pub within : last ≤ length answer
  pub output : out ≡ events id (take last answer)

take_all : {A : Type 0} (i : ℕ) (xs : List A) → length xs ≤ i → take i xs ≡ xs
take_all zero [] h = refl
take_all (suc i) [] h = refl
take_all zero (x ∷ xs) h = absurd (omega (arith, h))
take_all (suc i) (x ∷ xs) h = ap (λ l. x ∷ l) (take_all i xs (omega (arith, h)))

length-drop :
    {A : Type 0} (l : ℕ) (xs : List A) → l ≤ length xs → length (drop l xs) + l ≡ length xs
length-drop zero xs h = omega arith
length-drop (suc l) [] h = omega (arith, h)
length-drop (suc l) (x ∷ xs) h = omega (arith, length-drop l xs (omega (arith, h)))

length-take : {A : Type 0} (n : ℕ) (xs : List A) → n ≤ length xs → length (take n xs) ≡ n
length-take zero xs h = refl
length-take (suc n) [] h = absurd (omega (arith, h))
length-take (suc n) (x ∷ xs) h = ap suc (length-take n xs (omega (arith, h)))

-- A drain of rows goes on where the last one ended.
drained :
    (limit : ℕ) (id : String) (answer : List Fragment) (n last i : ℕ) (out : List StreamEvent)
    (d : Db)
    → Streamed id answer n last out
    → n ≤ i
    → rows_of id d.fragments ≡ numbered 1 (take i answer)
    → Sent limit last
        (drop last (take i answer))
        id
        out
        (drain_fragments_after limit id last (some d) out)
unfolding drain_fragments_after
drained limit id answer n last i out d s later shows =
    subst
      (λ rows.
        Sent limit last (drop last (take i answer)) id out (emit_rows limit id last rows out))
      (sym (rows_after-numbered id last d (take i answer) shows))
      (emit_rows-Sent limit id last (drop last (take i answer)) out)

Sent-Streamed :
    (limit : ℕ) (id : String) (answer : List Fragment) (n last i : ℕ) (out : List StreamEvent)
    (r : ℕ × Bool × List StreamEvent)
    → Streamed id answer n last out
    → n ≤ i
    → Sent limit last (drop last (take i answer)) id out r
    → Streamed id answer i r.0 r.2
Sent-Streamed limit id answer n last i out r s later sent =
    let bound =
      length-drop-take last sent.sent i answer (omega (arith, s.seen, later)) s.within
        sent.within in
    record {
      seen = omega (arith, sent.last, bound);
      within = omega (arith, sent.last, bound);
      output =
          sent.output
          ∙ ap (λ l. l ++ events id (take sent.sent (drop last (take i answer)))) s.output
          ∙ sym (events-append id (take last answer) (take sent.sent (drop last (take i answer))))
          ∙ ap (events id) (
              take-drop-take last sent.sent (last + sent.sent) i answer refl (omega (arith, bound)))
          ∙ ap (λ k. events id (take k answer)) (sym sent.last);
    }

pub drain-Streamed :
    (limit : ℕ) (id : String) (answer : List Fragment) (n last i : ℕ) (out : List StreamEvent)
    (o : Option Db)
    → Streamed id answer n last out
    → n ≤ i
    → Shows id answer o i
    → Streamed id answer i
        (drain_fragments_after limit id last o out).0
        (drain_fragments_after limit id last o out).2
unfolding drain_fragments_after
drain-Streamed limit id answer n last i out none s later shows = record {
  seen = omega (arith, s.seen, later);
  within = s.within;
  output = s.output;
}
drain-Streamed limit id answer n last i out (some d) s later shows =
    Sent-Streamed limit id answer n last i out (drain_fragments_after limit id last (some d) out) s
      later (drained limit id answer n last i out d s later shows)

-- With room for all of the answer, a drain is not cancelled.
pub drain_going :
    (limit : ℕ) (id : String) (answer : List Fragment) (n last i : ℕ) (out : List StreamEvent)
    (o : Option Db)
    → length answer < limit
    → Streamed id answer n last out
    → n ≤ i
    → Shows id answer o i
    → (drain_fragments_after limit id last o out).1 ≡ true
unfolding drain_fragments_after
drain_going limit id answer n last i out none room s later shows = refl
drain_going limit id answer n last i out (some d) room s later shows =
    let sent = drained limit id answer n last i out d s later shows in
    let bound =
      length-drop-take last (length (drop last (take i answer))) i answer
        (omega (arith, s.seen, later)) s.within (omega arith) in
    sent.roomy (
      omega (
        arith,
        room,
        bound,
        ap length s.output,
        length-events id (take last answer),
        length-take last answer s.within,
      ))

-- How a stream stands: it has sent a first part of the answer, or the answer and its end.
abbrev pub Faithful : String → List Fragment → List StreamEvent → Type 0
Faithful id answer out =
    ((m : ℕ) × (out ≡ events id (take m answer)))
    ⊎ ((reason : FinishReason) × (out ≡ events id answer ++ done_event id reason ∷ []))

-- A read of the whole answer: what is drained then, and that nothing is left where there is room.
record Drained (limit : ℕ) (id : String) (answer : List Fragment) (out : List StreamEvent)
    (r : ℕ × Bool × List StreamEvent) : Type 0 where
  seen : ℕ
  streamed : Streamed id answer seen r.0 r.2
  all_sent : r.1 ≡ true → r.0 ≡ length answer
  roomy : length answer ≤ limit → r.1 ≡ true

drain-Drained :
    (limit : ℕ) (id : String) (answer : List Fragment) (n last : ℕ) (out : List StreamEvent)
    (o : Option Db)
    → Streamed id answer n last out
    → ShowsWhole id answer o
    → Drained limit id answer out (drain_fragments_after limit id last o out)
drain-Drained limit id answer n last out none s whole = absurd whole
drain-Drained limit id answer n last out (some d) s whole =
    let i = n + length answer in
    let full : take i answer ≡ answer = take_all i answer (omega arith) in
    let sent =
      drained limit id answer n last i out d s (omega arith) (whole ∙ ap (numbered 1) (sym full)) in
    let size = ap (λ l. length (drop last l)) full in
    let left = length-drop last answer s.within in
    record {
      seen = i;
      streamed =
          Sent-Streamed limit id answer n last i out
            (drain_fragments_after limit id last (some d) out) s (omega arith) sent;
      all_sent = λ going. omega (arith, sent.last, sent.whole going, size, left);
      roomy = λ room. sent.roomy (
          omega (
            arith,
            room,
            size,
            left,
            ap length s.output,
            length-events id (take last answer),
            length-take last answer s.within,
          ));
    }

module _ (limit : ℕ) (id : String) (reason : FinishReason) (answer : List Fragment) (n last : ℕ)
    (reads : Reads) (out : List StreamEvent) (s : Streamed id answer n last out)
    (whole : ShowsWhole id answer reads.second) where
  complete :
      (going : (drain_fragments_after limit id last reads.second out).1 ≡ true)
      → (drain_fragments_after limit id last reads.second out).2 ≡ events id answer
  complete going =
      let d = drain-Drained limit id answer n last out reads.second s whole in
      d.streamed.output
      ∙ ap (λ k. events id (take k answer)) (d.all_sent going)
      ∙ ap (events id) (take_all (length answer) answer (omega arith))

  pub flush_end-Faithful : Faithful id answer (flush_end limit id reason reads last out).2
  unfolding flush_end
  flush_end-Faithful =
      let r = drain_fragments_after limit id last reads.second out in
      let d = drain-Drained limit id answer n last out reads.second s whole in
      elim (Bool-cases r.1) [
        | inr cancelled ↦ rw (cancelled, flush_end) (inl (r.0, d.streamed.output))
        | inl going ↦ elim (Bool-cases (ltb (length r.2) limit)) [
          | inr full ↦ rw (going, flush_end) (rw (full, emit) (inl (r.0, d.streamed.output)))
          | inl room ↦
              rw (going, flush_end)
                (rw (room, emit)
                  (inr (reason, ap (λ l. l ++ done_event id reason ∷ []) (complete going))))
        ]
      ]

  -- With room for the answer and its end, both are sent.
  pub flush_end_whole :
      length answer < limit
      → (flush_end limit id reason reads last out).2 ≡ events id answer ++ done_event id reason ∷ []
  unfolding flush_end
  flush_end_whole enough =
      let r = drain_fragments_after limit id last reads.second out in
      let d = drain-Drained limit id answer n last out reads.second s whole in
      let going = d.roomy (omega (arith, enough)) in
      let room : ltb (length r.2) limit ≡ true =
        ground (arith, ap length (complete going), length-events id answer, enough) in
      rw (going, flush_end)
        (rw (room, emit) (ap (λ l. l ++ done_event id reason ∷ []) (complete going)))
