-- ===== src/Pgredis/Tables.antt =====
-- backend/internal/pgredis: the tables of migrations/, and the SQL statements of lifecycle.go and
-- requests_read.go on them, each as a function of the tables. A row of `requests` has the columns that
-- scanRequest reads, which are the fields of core.Request. A statement that fails rolls its transaction back,
-- which leaves the tables as they were; only the refusal of a text with U+0000 is modelled.
use Prim.Native.Char.{code}
use deeperseek.Core.State.{is_terminal}
use deeperseek.Core.Types.{
  Time, Session, Request, Fragment, PointEntry, EntryKind, signup, question_charge, answer_reward,
  reaction_adjustment,
}
use deeperseek.Prelude.{
  ℕ, suc, ◌+◌, ◌*◌, ◌/◌, String, count, ◌<>◌, Bool, true, false, not, ◌&&◌, ◌||◌, Option, none,
  some, List, [], ◌∷◌, ◌++◌, ℤ, pos, negsuc, nat_eq, Dict, lookup, insert, ◌==◌, ltb, if◌then◌else◌,
}

pub record FragmentRow : Type 0 where
  pub fragment : Fragment
  pub ordinal : ℕ

-- `requests` is keyed by its primary key, `sessions` by its unique token. `entropy` and `drawn` supply
-- the random part of the ids. The times are those that the columns keep, TIMESTAMPTZ: whole microseconds;
-- SubmitFragment, whose reply shows a time, puts its clock through `column`.
pub record Db : Type 0 where
  pub sessions : Dict Session
  pub requests : Dict Request
  pub fragments : List FragmentRow
  pub ledger : List PointEntry
  pub entropy : ℕ → String
  pub drawn : ℕ

unfoldable pub new_id : String → Db → String × Db
new_id prefix d = ((prefix <> "_") <> d.entropy d.drawn, record d { drawn = suc d.drawn })

-- `responder_session_id = $1 AND status NOT IN (...)`
unfoldable pub is_active : String → Request → Bool
is_active session r = r.responder_session_id == session && not (is_terminal r.status)

-- `ORDER BY updated_at DESC LIMIT 1` of the two.
abbrev pub later_row : Request → Option Request → Option Request
later_row r none = some r
later_row r (some best) = if ltb r.updated_at best.updated_at then some best else some r

-- `SELECT ... WHERE responder_session_id = $1 AND <not terminal> ORDER BY updated_at DESC LIMIT 1`
unfoldable pub active_row : String → Dict Request → Option Request
active_row session [] = none
active_row session ((id, r) ∷ rows) =
    let rest = active_row session rows in if is_active session r then later_row r rest else rest

-- `UPDATE requests SET ... WHERE id = $1`
unfoldable pub update_row : String → (Request → Request) → Db → Db
update_row id set d = elim (lookup id d.requests) [
  | none ↦ d
  | some r ↦ record d { requests = insert id (set r) d.requests }
]

-- `UPDATE requests SET ... WHERE id = $1 AND <test>`, and whether it affected a row.
unfoldable pub update_row_if : String → (Request → Bool) → (Request → Request) → Db → Bool × Db
update_row_if id test set d = elim (lookup id d.requests) [
  | none ↦ (false, d)
  | some r ↦
      if test r then (true, record d { requests = insert id (set r) d.requests }) else (false, d)
]

abbrev pub is_open : Request → Bool
is_open r = not (is_terminal r.status)

-- `SELECT ... FROM fragments WHERE request_id = $1`
unfoldable pub rows_of : String → List FragmentRow → List FragmentRow
rows_of id [] = []
rows_of id (row ∷ rows) =
    if row.fragment.request_id == id then row ∷ rows_of id rows else rows_of id rows

-- `SUM(char_length(text))`
unfoldable pub sum_length : List FragmentRow → ℕ
sum_length [] = 0
sum_length (row ∷ rows) = count row.fragment.text + sum_length rows

-- `COALESCE(MAX(ordinal), 0)`
unfoldable pub max_ordinal : List FragmentRow → ℕ
max_ordinal [] = 0
max_ordinal (row ∷ rows) =
    let rest = max_ordinal rows in if ltb rest row.ordinal then row.ordinal else rest

abbrev pub same_seq : ℤ → ℤ → Bool
same_seq (pos m) (pos n) = nat_eq m n
same_seq (negsuc m) (negsuc n) = nat_eq m n
same_seq (pos m) (negsuc n) = false
same_seq (negsuc m) (pos n) = false

-- `responder_session_id = $2 AND client_seq = $3`
unfoldable pub sent_as : String → ℤ → List FragmentRow → Option Fragment
sent_as session seq [] = none
sent_as session seq (row ∷ rows) =
    if row.fragment.responder_session_id == session && same_seq row.fragment.client_seq seq
    then some row.fragment
    else sent_as session seq rows

-- What a TIMESTAMPTZ column keeps of a time: its microseconds.
unfoldable pub column : Time → Time
column t = t / 1000 * 1000

-- U+0000, which a TEXT column refuses.
unfoldable pub has_nul : String → Bool
has_nul String.[] = false
has_nul (String.◌∷◌ c s) = nat_eq (code c) 0 || has_nul s

unfoldable pub insert_fragment : Fragment → ℕ → Db → Db
insert_fragment f ordinal d = record d {
  fragments = d.fragments ++ record { fragment = f; ordinal = ordinal } ∷ [];
}

abbrev pub is_signup : EntryKind → Bool
is_signup signup = true
is_signup question_charge = false
is_signup answer_reward = false
is_signup reaction_adjustment = false

abbrev pub is_charge : EntryKind → Bool
is_charge question_charge = true
is_charge signup = false
is_charge answer_reward = false
is_charge reaction_adjustment = false

abbrev pub is_reward : EntryKind → Bool
is_reward answer_reward = true
is_reward signup = false
is_reward question_charge = false
is_reward reaction_adjustment = false

-- The unique indexes point_ledger_signup_once, point_ledger_charge_once, point_ledger_reward_once.
unfoldable pub clashes : EntryKind → String → String → PointEntry → Bool
clashes signup user request e = is_signup e.kind && e.user_id == user
clashes question_charge user request e = is_charge e.kind && e.request_id == request
clashes answer_reward user request e = is_reward e.kind && e.request_id == request
clashes reaction_adjustment user request e = false

unfoldable pub has_clash : EntryKind → String → String → List PointEntry → Bool
has_clash kind user request [] = false
has_clash kind user request (e ∷ es) = clashes kind user request e || has_clash kind user request es

-- `INSERT INTO point_ledger ... ON CONFLICT DO NOTHING`
unfoldable pub add_ledger_tx : String → String → EntryKind → ℤ → Time → Db → Db
unfolding new_id
add_ledger_tx user request kind delta now d =
    let (id, d') = new_id "pts" d in
    if has_clash kind user request d'.ledger then d' else record d' {
      ledger =
          d'.ledger
          ++ record {
            id = id;
            user_id = user;
            request_id = request;
            kind = kind;
            delta = delta;
            created_at = now;
          }
            ∷ [];
    }
