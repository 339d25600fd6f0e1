-- ===== src/Pgredis/Mirror.antt =====
-- How the tables mirror the record `Service` of the in-memory engine: the requests, the ledger and the
-- ids drawn are the same, and the rows of `fragments` are the fragments of each request, numbered.
pub mod Rows
use deeperseek.Core.Responders.{seq_key}
use deeperseek.Core.State.{Service, fragments_of, is_terminal}
use deeperseek.Core.Types.{Request, Fragment, PointEntry, EntryKind, question_charge, answer_reward}
use deeperseek.Pgredis.Tables.{Db, FragmentRow, rows_of, max_ordinal, sent_as, has_clash, clashes}
use deeperseek.Prelude.{
  ℕ, suc, ◌+◌, String, false, ◌||◌, Option, none, some, List, [], ◌∷◌, ◌++◌, pos, Dict, lookup, at,
  length, is_empty, ◌==◌, ◌≡◌, refl, ◌≢◌, ap, ◌∙◌, arith, eq_iff, if◌then◌else◌,
}

-- The rows of the fragments of one request, from an ordinal on.
abbrev pub numbered : ℕ → List Fragment → List FragmentRow
numbered n [] = []
numbered n (f ∷ fs) = record { fragment = f; ordinal = n } ∷ numbered (suc n) fs

-- The tables that hold what a `Service` holds, with these rows of fragments.
abbrev pub db_of : Service → List FragmentRow → Db
db_of s rows = record {
  sessions = s.sessions_by_tok;
  requests = s.requests;
  fragments = rows;
  ledger = s.ledger;
  entropy = s.entropy;
  drawn = s.drawn;
}

-- No key stands in two rows.
abbrev pub IsDistinct {ℓ} : {V : Type ℓ} → Dict V → Type ℓ
IsDistinct [] = Unit
IsDistinct ((k, v) ∷ m) = (lookup k m ≡ none) × IsDistinct m

-- A question that is not yet charged has no charge in the ledger, an answer that is not yet complete
-- no reward, and an unknown request neither.
abbrev pub NotEntered : EntryKind → List PointEntry → String → Type 0
NotEntered kind ledger id = (user : String) → has_clash kind user id ledger ≡ false

abbrev pub Billed : List PointEntry → String → Option Request → Type 0
Billed ledger id none = NotEntered question_charge ledger id × NotEntered answer_reward ledger id
Billed ledger id (some r) =
    (r.question_charged ≡ false → NotEntered question_charge ledger id)
    × (is_terminal r.status ≡ false → NotEntered answer_reward ledger id)

pub record Mirrors (s : Service) (rows : List FragmentRow) : Type 0 where
  pub texts : (id : String) → rows_of id rows ≡ numbered 1 (fragments_of s id)
  pub seen :
      (id session : String) (n : ℕ)
      → lookup (seq_key session (pos n)) (at [] id s.seq_seen)
        ≡ sent_as session (pos n) (rows_of id rows)
  pub distinct : IsDistinct s.requests
  pub billed : (id : String) → Billed s.ledger id (lookup id s.requests)

rows_of-append :
    (id : String) (rows : List FragmentRow) (row : FragmentRow)
    → rows_of id (rows ++ row ∷ [])
      ≡ (if row.fragment.request_id == id then rows_of id rows ++ row ∷ [] else rows_of id rows)
unfolding rows_of
rows_of-append id [] row = ground arith
rows_of-append id (x ∷ rows) row = ground (arith, rows_of-append id rows row)

pub rows_of-append_self :
    (id : String) (rows : List FragmentRow) (row : FragmentRow)
    → row.fragment.request_id ≡ id
    → rows_of id (rows ++ row ∷ []) ≡ rows_of id rows ++ row ∷ []
rows_of-append_self id rows row e =
    ground (arith, rows_of-append id rows row, eq_iff row.fragment.request_id id)

pub rows_of-append_ne :
    (id : String) (rows : List FragmentRow) (row : FragmentRow)
    → row.fragment.request_id ≢ id
    → rows_of id (rows ++ row ∷ []) ≡ rows_of id rows
rows_of-append_ne id rows row e =
    ground (arith, rows_of-append id rows row, eq_iff row.fragment.request_id id)

pub numbered-append :
    (n : ℕ) (fs : List Fragment) (f : Fragment)
    → numbered n (fs ++ f ∷ [])
      ≡ numbered n fs ++ record { fragment = f; ordinal = n + length fs } ∷ []
numbered-append n [] f = ap (λ k. record { fragment = f; ordinal = k } ∷ []) (omega arith)
numbered-append n (g ∷ fs) f =
    ap (λ t. record { fragment = g; ordinal = n } ∷ t)
      (numbered-append (suc n) fs f
        ∙ ap (λ k. numbered (suc n) fs ++ record { fragment = f; ordinal = k } ∷ []) (omega arith))

max_ordinal_from :
    (n : ℕ) (fs : List Fragment)
    → max_ordinal (numbered (suc n) fs) ≡ (if is_empty fs then 0 else n + length fs)
unfolding max_ordinal
max_ordinal_from n [] = refl
max_ordinal_from n (f ∷ []) = ground arith
max_ordinal_from n (f ∷ g ∷ fs) = ground (arith, max_ordinal_from (suc n) (g ∷ fs))

pub max_ordinal-numbered : (fs : List Fragment) → max_ordinal (numbered 1 fs) ≡ length fs
max_ordinal-numbered [] = max_ordinal_from 0 []
max_ordinal-numbered (f ∷ fs) = max_ordinal_from 0 (f ∷ fs) ∙ omega arith

pub is_empty-numbered : (n : ℕ) (fs : List Fragment) → is_empty (numbered n fs) ≡ is_empty fs
is_empty-numbered n [] = refl
is_empty-numbered n (f ∷ fs) = refl

pub has_clash-append :
    (kind : EntryKind) (user id : String) (es : List PointEntry) (e : PointEntry)
    → has_clash kind user id (es ++ e ∷ []) ≡ (has_clash kind user id es || clashes kind user id e)
unfolding has_clash
has_clash-append kind user id [] e = ground arith
has_clash-append kind user id (x ∷ es) e = ground (arith, has_clash-append kind user id es e)
