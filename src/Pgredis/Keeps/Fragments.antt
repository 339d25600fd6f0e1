-- ===== src/Pgredis/Keeps/Fragments.antt =====
-- The writes of a new fragment leave a state that the tables, with a row more, mirror.
use deeperseek.Core.Responders.Answers.{
  stream_request-SameTexts, fragments_of-store_self, fragments_of-store_ne,
}
use deeperseek.Core.Responders.Keys.{seq_key-injective}
use deeperseek.Core.Responders.{seq_key, store_fragment, stream_request}
use deeperseek.Core.State.{Service, fragments_of, is_terminal, add_ledger_locked, put_request}
use deeperseek.Core.Types.{Time, Request, Fragment, question_charge}
use deeperseek.Pgredis.Keeps.{
  put-Mirrors, bill_of, add_ledger-Entered, Entered-Elsewhere, Entered-other_kind,
}
use deeperseek.Pgredis.Mirror.{
  Mirrors, db_of, numbered, rows_of-append_self, rows_of-append_ne, numbered-append,
}
use deeperseek.Pgredis.Mirror.Rows.{sent_as-append}
use deeperseek.Pgredis.Steps.{charge-already, charge-guest, charge-account}
use deeperseek.Pgredis.Tables.{FragmentRow, rows_of, sent_as}
use deeperseek.Pgredis.Transactions.{set_charged, set_streaming}
use deeperseek.Prelude.{
  ℕ, suc, String, false, ◌&&◌, Option, none, some, List, [], ◌∷◌, ◌++◌, pos, negsuc, Dict, lookup,
  insert, at, length, ◌==◌, nat_eq, ◌≡◌, refl, inl, inr, sym, ap, ◌∙◌, subst, arith, eq_iff,
  lookup-insert, lookup-insert_self, lookup-insert_ne, get_or, Bool-cases, String-cases,
}

-- The state in which a question is charged and its request streams.
pub stream-Mirrors :
    (r : Request) (now : Time) (s : Service) (rows : List FragmentRow)
    → Mirrors s rows
    → lookup r.id s.requests ≡ some r
    → is_terminal r.status ≡ false
    → Mirrors (stream_request r now s).1 rows
unfolding stream_request put_request is_terminal
stream-Mirrors r now s rows m found open_yet =
    let b = bill_of s rows r m found in
    let same = stream_request-SameTexts r now s in
    let d = db_of s rows in
    elim (Bool-cases r.question_charged) [
      | inl already ↦
          let c = (charge-already r now s d already).0 in
          put-Mirrors s _ rows r.id (set_streaming now r) m same (rw c refl)
            (λ kind user k ne h. rw c h)
            (λ uncharged u. absurd (cc (already, uncharged)), λ still u. rw c (b.1 open_yet u))
      | inr not_yet ↦ elim (Bool-cases r.requester_guest) [
        | inl guest ↦
            let c = (charge-guest r now s d not_yet guest).0 in
            put-Mirrors s _ rows r.id (set_streaming now (set_charged r)) m same (rw c refl)
              (λ kind user k ne h. rw c h) (λ uncharged u. cc, λ still u. rw c (b.1 open_yet u))
        | inr account ↦
            let c = (charge-account r now s d not_yet account).0 in
            let entered = add_ledger-Entered r.requester_id r.id question_charge (negsuc 4) now s in
            let after =
              (add_ledger_locked r.requester_id r.id question_charge (negsuc 4) now s).ledger in
            put-Mirrors s _ rows r.id (set_streaming now (set_charged r)) m same
              (rw c (unfold add_ledger_locked in refl))
              (rw c (Entered-Elsewhere question_charge r.id s.ledger after refl entered))
              (
                λ uncharged u. cc,
                λ still u.
                    rw c ((Entered-other_kind r.id u s.ledger after).1 entered (b.1 open_yet u)),
              )
      ]
    ]

module _ (session id : String) (n : ℕ) (text : String) (now : Time) (s : Service)
    (rows : List FragmentRow) where
  -- The row that INSERT adds.
  abbrev pub new_row : FragmentRow
  new_row = record {
    fragment = (store_fragment session id (seq_key session (pos n)) (pos n) text now s).0;
    ordinal = suc (length (fragments_of s id));
  }

  -- Looking a key up beside the new one, and the query on the rows with the new one.
  found_again :
      Mirrors s rows
      → sent_as session (pos n) (rows_of id rows) ≡ none
      → (other : String) (i : ℕ)
      → lookup
          (seq_key other (pos i))
          (insert (seq_key session (pos n)) new_row.fragment (at [] id s.seq_seen))
        ≡ sent_as other (pos i) (rows_of id rows ++ new_row ∷ [])
  unfolding store_fragment
  found_again m new other i =
      let key = seq_key session (pos n) in
      let key' = seq_key other (pos i) in
      let before = m.seen id other i in
      let mine = at [] id s.seq_seen in
      let law = lookup-insert key key' new_row.fragment mine in
      let query = sent_as-append other i (rows_of id rows) new_row in
      elim (String-cases key key') [
        | inl same ↦
            let parts = seq_key-injective session other n i same in
            ground (
              arith,
              law,
              query,
              (eq_iff key key').1 same,
              parts,
              new,
              ap (λ x. sent_as x (pos i) (rows_of id rows)) parts.0,
              ap (λ x. sent_as session (pos x) (rows_of id rows)) parts.1,
              eq_iff session other,
            )
        | inr differ ↦
            let apart : (session == other && nat_eq n i) ≡ false =
              elim (Bool-cases (session == other && nat_eq n i)) [
                | inl both ↦
                    let a : session ≡ other = (eq_iff session other).0 (ground arith) in
                    let b : n ≡ i = ground arith in
                    absurd
                      (differ (ap (λ x. seq_key x (pos n)) a ∙ ap (λ x. seq_key other (pos x)) b))
                | inr no_match ↦ no_match
              ] in
            ground (arith, law, query, eq_iff key key', before, apart)
      ]

  texts_after :
      Mirrors s rows
      → (k : String)
      → rows_of k (rows ++ new_row ∷ [])
        ≡ numbered 1 (
            fragments_of
              (store_fragment session id (seq_key session (pos n)) (pos n) text now s).1
              k)
  texts_after m k =
      let key = seq_key session (pos n) in
      let s' = (store_fragment session id key (pos n) text now s).1 in
      elim (String-cases id k) [
        | inl here ↦
            subst (λ j. rows_of j (rows ++ new_row ∷ []) ≡ numbered 1 (fragments_of s' j)) here
              (rows_of-append_self id rows new_row (unfold store_fragment in refl)
                ∙ ap (λ t. t ++ new_row ∷ []) (m.texts id)
                ∙ ap (λ i. numbered 1 (fragments_of s id) ++ record new_row { ordinal = i } ∷ [])
                    (omega arith)
                ∙ sym (numbered-append 1 (fragments_of s id) new_row.fragment)
                ∙ ap (numbered 1) (sym (fragments_of-store_self session id key (pos n) text now s)))
        | inr there ↦
            rows_of-append_ne k rows new_row (unfold store_fragment in there)
            ∙ m.texts k
            ∙ ap (numbered 1)
                (sym (fragments_of-store_ne session id key (pos n) text now s k there))
      ]

  seen_after :
      Mirrors s rows
      → sent_as session (pos n) (rows_of id rows) ≡ none
      → (k other : String) (i : ℕ)
      → lookup (seq_key other (pos i)) (
          at [] k
            (store_fragment session id (seq_key session (pos n)) (pos n) text now s).1.seq_seen)
        ≡ sent_as other (pos i) (rows_of k (rows ++ new_row ∷ []))
  unfolding store_fragment
  seen_after m new k other i = elim (String-cases id k) [
    | inl here ↦
        let key = seq_key session (pos n) in
        let mine = at [] id s.seq_seen in
        subst
          (λ j.
            lookup (seq_key other (pos i))
              (at [] j (insert id (insert key new_row.fragment mine) s.seq_seen))
            ≡ sent_as other (pos i) (rows_of j (rows ++ new_row ∷ [])))
          here
          (ap (λ (o : Option (Dict Fragment)). lookup (seq_key other (pos i)) (get_or o []))
              (lookup-insert_self id (insert key new_row.fragment mine) s.seq_seen)
            ∙ found_again m new other i
            ∙ ap (sent_as other (pos i)) (sym (rows_of-append_self id rows new_row refl)))
    | inr there ↦
        ap (λ (o : Option (Dict Fragment)). lookup (seq_key other (pos i)) (get_or o []))
          (lookup-insert_ne id k _ s.seq_seen there)
        ∙ m.seen k other i
        ∙ ap (sent_as other (pos i)) (sym (rows_of-append_ne k rows new_row there))
  ]

  pub store-Mirrors :
      Mirrors s rows
      → sent_as session (pos n) (rows_of id rows) ≡ none
      → Mirrors
          (store_fragment session id (seq_key session (pos n)) (pos n) text now s).1
          (rows ++ new_row ∷ [])
  store-Mirrors m new = record {
    texts = texts_after m;
    seen = seen_after m new;
    distinct = unfold store_fragment in m.distinct;
    billed = unfold store_fragment in m.billed;
  }
