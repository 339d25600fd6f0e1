-- ===== src/Pgredis/Refines/Submission.antt =====
-- SubmitFragment as a transaction refines that of the in-memory engine.
use text.Mathlib.TextLemmas.{length-append}
use deeperseek.Core.Lifecycle.{publish_locked, complete_locked}
use deeperseek.Core.Responders
use deeperseek.Core.Responders.Answers.{
  join_text-append, fragments_of-store_self, publish_locked-SameTexts, stream_request-SameTexts,
}
use deeperseek.Core.Responders.{
  not_positive, seq_key, store_fragment, stream_request, charge_question, complete_if_full,
  fragment_event, submit_to,
}
use deeperseek.Core.State.{
  Service, ok, err, is_terminal, answer_text_locked, fragments_of, put_request, is_unset,
  no_active_assignment, output_too_large, client_seq_not_positive, fragment_text_required,
  join_text,
}
use deeperseek.Core.Types.{Time, Request, Fragment, FinishReason}
use deeperseek.Core.Valid.{IsValid}
use deeperseek.Pgredis.Keeps.{complete-Mirrors, publish-Mirrors, bill_of}
use deeperseek.Pgredis.Keeps.Fragments.{new_row, store-Mirrors, stream-Mirrors}
use deeperseek.Pgredis.Mirror.{Mirrors, db_of, max_ordinal-numbered}
use deeperseek.Pgredis.Mirror.Rows.{sum_length-numbered}
use deeperseek.Pgredis.Refines.{Refines, Holds, held_or_idle, same_run, equal_run}
use deeperseek.Pgredis.Steps.{complete-db_of, stream-db_of, publish_locked-db_of}
use deeperseek.Pgredis.Tables.{
  column, has_nul, Db, insert_fragment, new_id, FragmentRow, rows_of, sum_length, sent_as,
  max_ordinal,
}
use deeperseek.Pgredis.Transactions.{
  Effect, Outcome, publishes_fragment, publishes_done, releases_lock, clears_routing,
}
use deeperseek.Pgredis.Transactions
use deeperseek.Prelude.{
  ℕ, suc, ◌+◌, String, count, ◌<>◌, Bool, true, false, none, some, List, [], ◌∷◌, ◌++◌, ℤ, pos,
  negsuc, lookup, at, length, leb, ltb, ◌≡◌, refl, ◌≢◌, inl, inr, sym, ap, ◌∙◌, arith, Bool-cases,
  Option-cases, lookup-insert_self, subst, if◌then◌else◌,
}

-- What streaming leaves of the request, and where it is kept.
record Streams (r : Request) (now : Time) (s : Service) : Type 0 where
  same_id : r.id ≡ (stream_request r now s).0.id
  guest : r.responder_guest ≡ (stream_request r now s).0.responder_guest
  user : r.responder_user_id ≡ (stream_request r now s).0.responder_user_id
  limit : (stream_request r now s).0.output_limit ≡ r.output_limit
  open_yet : is_terminal (stream_request r now s).0.status ≡ false
  kept :
      lookup (stream_request r now s).0.id (stream_request r now s).1.requests
      ≡ some (stream_request r now s).0

stream_request-Streams : (r : Request) (now : Time) (s : Service) → Streams r now s
unfolding stream_request charge_question put_request is_terminal
stream_request-Streams r now s = record {
  same_id = ground arith;
  guest = ground arith;
  user = ground arith;
  limit = ground arith;
  open_yet = refl;
  kept = lookup-insert_self _ _ _;
}

module _ (session text : String) (n : ℕ) (now : Time) (s : Service) (rows : List FragmentRow)
    (r : Request) (m : Mirrors s rows) (here : lookup r.id s.requests ≡ some r)
    (open_yet : is_terminal r.status ≡ false)
    (new : sent_as session (pos n) (rows_of r.id rows) ≡ none) where
  abbrev stored : Service
  stored = (store_fragment session r.id (seq_key session (pos n)) (pos n) text now s).1

  abbrev rows₁ : List FragmentRow
  rows₁ = rows ++ new_row session r.id n text now s rows ∷ []

  abbrev streamed : Service
  streamed = (stream_request r now stored).1

  abbrev told : Service
  told = publish_locked (fragment_event r.id text) streamed

  here_stored : lookup r.id stored.requests ≡ some r
  unfolding store_fragment
  here_stored = here

  told-Mirrors : Mirrors told rows₁
  told-Mirrors = publish-Mirrors (fragment_event r.id text) streamed rows₁ (
      stream-Mirrors r now stored rows₁ (store-Mirrors session r.id n text now s rows m new)
        here_stored open_yet)

  -- The answer has grown by the text.
  count-told : count (answer_text_locked told r.id) ≡ sum_length (rows_of r.id rows) + count text
  unfolding answer_text_locked
  count-told =
      let f = new_row session r.id n text now s rows in
      let same =
        (publish_locked-SameTexts (fragment_event r.id text) streamed).texts
        ∙ (stream_request-SameTexts r now stored).texts in
      let grown : join_text (fragments_of told r.id) ≡ (join_text (fragments_of s r.id) <> text) =
        ap (λ t. join_text (at [] r.id t)) same
        ∙ ap join_text
            (fragments_of-store_self session r.id (seq_key session (pos n)) (pos n) text now s)
        ∙ join_text-append (fragments_of s r.id) f.fragment
        ∙ ap (λ t. join_text (fragments_of s r.id) <> t) (unfold store_fragment in refl) in
      omega (
        arith,
        ap count grown,
        length-append (join_text (fragments_of s r.id)) text,
        ap sum_length (m.texts r.id),
        sum_length-numbered 1 (fragments_of s r.id),
      )

  abbrev accepted : Fragment × Bool
  accepted = ((new_row session r.id n text now s rows).fragment, false)

  abbrev ordinal : ℕ
  ordinal = suc (length (fragments_of s r.id))

  -- The end of the transaction, once everything but a completion is written.
  abbrev ended : Db → Outcome (Fragment × Bool)
  ended d =
      if leb r.output_limit (sum_length (rows_of r.id rows) + count text)
      then (
        ok accepted,
        Transactions.complete_request_tx r FinishReason.length now d,
        publishes_fragment r.id text ordinal
            ∷ publishes_done r.id FinishReason.length
            ∷ releases_lock r.id
            ∷ clears_routing r.id
            ∷ [],
      )
      else (ok accepted, d, publishes_fragment r.id text ordinal ∷ [])

  commit_written :
      Transactions.write_fragment session
        (pos n)
        text
        (sum_length (rows_of r.id rows))
        r
        now
        (db_of s rows)
      ≡ ended (db_of told rows₁)
  unfolding Transactions.write_fragment store_fragment insert_fragment new_id
  commit_written =
      let order : max_ordinal (rows_of r.id rows) ≡ length (fragments_of s r.id) =
        ap max_ordinal (m.texts r.id) ∙ max_ordinal-numbered (fragments_of s r.id) in
      rw order (
        ap ended (
          stream-db_of r now stored rows₁ here_stored
            (unfold store_fragment in (bill_of s rows r m here).0)
          ∙ sym (publish_locked-db_of (fragment_event r.id text) streamed rows₁)))

  commit-Refines :
      Refines
        (Transactions.write_fragment session
          (pos n)
          text
          (sum_length (rows_of r.id rows))
          r
          now
          (db_of s rows))
        (Responders.commit_fragment session r.id (seq_key session (pos n)) (pos n) text r now s)
  unfolding Responders.commit_fragment complete_if_full
  commit-Refines =
      let x = stream_request-Streams r now stored in
      let r' = (stream_request r now stored).0 in
      let full = leb r.output_limit (sum_length (rows_of r.id rows) + count text) in
      let same : leb r'.output_limit (count (answer_text_locked told r.id)) ≡ full =
        ap (λ k. leb k (count (answer_text_locked told r.id))) x.limit
        ∙ ap (leb r.output_limit) count-told in
      elim (Bool-cases full) [
        | inl done ↦
            let effects =
              publishes_fragment r.id text ordinal
              ∷ publishes_done r.id FinishReason.length
              ∷ releases_lock r.id
              ∷ clears_routing r.id
              ∷ [] in
            let kept : lookup r'.id told.requests ≡ some r' =
              ap (λ (d : Db). lookup r'.id d.requests)
                (publish_locked-db_of (fragment_event r.id text) streamed rows₁)
              ∙ x.kept in
            let completed =
              complete-db_of r r' FinishReason.length now told rows₁ x.same_id x.guest x.user kept
                x.open_yet (told-Mirrors.texts r'.id)
                ((bill_of told rows₁ r' told-Mirrors kept).1 x.open_yet) in
            same_run _ _ (ok accepted) (complete_locked r' FinishReason.length now told) rows₁
              effects (commit_written ∙ rw done (ap (λ d. (ok accepted, d, effects)) completed))
              (rw (same ∙ done) refl)
              (complete-Mirrors r' FinishReason.length now told rows₁ told-Mirrors kept x.open_yet)
        | inr more ↦
            same_run _ _ (ok accepted) told rows₁ (publishes_fragment r.id text ordinal ∷ [])
              (commit_written ∙ rw more refl) (rw (same ∙ more) refl) told-Mirrors
      ]

-- At a time of whole microseconds and for a text without U+0000, the reply shows what is written.
commit_fragment-plain :
    (session text : String) (seq : ℤ) (answer : ℕ) (r : Request) (now : Time) (d : Db)
    → column now ≡ now
    → has_nul text ≡ false
    → Transactions.commit_fragment session seq text answer r now d
      ≡ Transactions.write_fragment session seq text answer r now d
unfolding Transactions.commit_fragment Transactions.write_fragment
commit_fragment-plain session text seq answer r now d whole plain =
    rw (plain, Transactions.commit_fragment)
      (ap
          (λ t.
            Transactions.shown_at now (Transactions.write_fragment session seq text answer r t d))
          whole
        ∙ elim (Bool-cases (leb r.output_limit (answer + count text))) [
          | inl full ↦ rw (full, Transactions.write_fragment) refl
          | inr more ↦ rw (more, Transactions.write_fragment) refl
        ])

-- The tests on a request that is held.
submit_to-Refines :
    (session text : String) (n : ℕ) (now : Time) (s : Service) (rows : List FragmentRow)
    (r : Request)
    → column now ≡ now
    → has_nul text ≡ false
    → Mirrors s rows
    → Holds s rows session r
    → Refines
        (Transactions.submit_to session (pos n) text r now (db_of s rows))
        (submit_to session r.id (pos n) text r now s)
unfolding Transactions.submit_to submit_to answer_text_locked
submit_to-Refines session text n now s rows r whole plain m h =
    let sent = sent_as session (pos n) (rows_of r.id rows) in
    let known : lookup (seq_key session (pos n)) (at [] r.id s.seq_seen) ≡ sent =
      m.seen r.id session n in
    let size : sum_length (rows_of r.id rows) ≡ count (join_text (fragments_of s r.id)) =
      ap sum_length (m.texts r.id) ∙ sum_length-numbered 1 (fragments_of s r.id) in
    let over = ltb r.output_limit (sum_length (rows_of r.id rows) + count text) in
    let over' : ltb r.output_limit (count (join_text (fragments_of s r.id)) + count text) ≡ over =
      ap (λ k. ltb r.output_limit (k + count text)) (sym size) in
    elim (Option-cases sent) [
      | inl new ↦ elim (Bool-cases over) [
        | inl large ↦
            same_run _ _ (err output_too_large) s rows []
              (rw (new, Transactions.submit_to) (rw large refl))
              (rw h.open_yet (rw (known ∙ new) (rw (over' ∙ large) refl))) m
        | inr fits ↦
            equal_run _ _ _ _ (rw (new, Transactions.submit_to) (rw fits refl))
              (rw h.open_yet (rw (known ∙ new) (rw (over' ∙ fits) refl)))
              (subst
                (λ t. Refines t (
                  Responders.commit_fragment session r.id (seq_key session (pos n)) (pos n) text r
                    now s))
                (sym (
                  commit_fragment-plain session text (pos n) (sum_length (rows_of r.id rows)) r now
                    (db_of s rows) whole plain))
                (commit-Refines session text n now s rows r m h.here h.open_yet new))
      ]
      | inr (old, found) ↦
          same_run _ _ (ok (old, true)) s rows [] (rw (found, Transactions.submit_to) refl)
            (rw h.open_yet (rw (known ∙ found) refl)) m
    ]

-- At a time of whole microseconds, which is what the columns keep of a time, for a text without
-- U+0000, which they refuse, for a session with an id, and in a valid state that the tables mirror:
-- SubmitFragment as a transaction gives the result of the engine's SubmitFragment, the fragment and
-- the duplicate flag included, and the tables that it leaves mirror the state that the engine
-- leaves.
pub submit_fragment-Refines :
    (session : String) (seq : ℤ) (text : String) (now : Time) (s : Service)
    (rows : List FragmentRow)
    → column now ≡ now
    → has_nul text ≡ false
    → IsValid s
    → Mirrors s rows
    → session ≢ ""
    → Refines
        (Transactions.submit_fragment session seq text now (db_of s rows))
        (Responders.submit_fragment session seq text now s)
unfolding Transactions.submit_fragment Responders.submit_fragment not_positive
submit_fragment-Refines session (negsuc n) text now s rows whole plain v m named =
    same_run _ _ (err client_seq_not_positive) s rows [] refl refl m
submit_fragment-Refines session (pos n) text now s rows whole plain v m named =
    elim (Bool-cases (leb n 0)) [
      | inl bad ↦ same_run _ _ (err client_seq_not_positive) s rows [] (rw bad refl) (rw bad refl) m
      | inr good ↦ elim (Bool-cases (is_unset text)) [
        | inl blank ↦
            same_run _ _ (err fragment_text_required) s rows [] (rw good (rw blank refl))
              (rw good (rw blank refl)) m
        | inr some_text ↦ elim (held_or_idle s rows session v m named) [
          | inl (idle, gone) ↦
              same_run _ _ (err no_active_assignment) s rows []
                (rw good (rw some_text (rw (gone, Transactions.submit_fragment) refl)))
                (rw good (rw some_text (rw idle refl))) m
          | inr (r, h) ↦
              equal_run _ _ _ _
                (rw good (rw some_text (rw (h.row, Transactions.submit_fragment) refl)))
                (rw good (
                  rw some_text (
                    rw h.busy (
                      rw h.found
                        (ap (λ k. submit_to session k (pos n) text r now s) (sym h.keyed))))))
                (submit_to-Refines session text n now s rows r whole plain m h)
        ]
      ]
    ]
