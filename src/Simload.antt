-- ===== src/Simload.antt =====
-- backend/cmd/simload/invariants.go: what the load simulator checks after a run. A message is what it
-- is made of; the order in which Go ranges over the map is the order of the list.
pub mod Overlaps
pub mod Fine
pub mod Passes
use deeperseek.Core.State.{is_unset}
use deeperseek.Core.Types.{Time}
use deeperseek.Prelude.{
  ℕ, zero, suc, ◌-◌, String, ◌<>◌, Bool, true, false, not, ◌&&◌, Option, none, some, List, [], ◌∷◌,
  ◌++◌, Dict, at, map, contains, ◌==◌, ltb, if◌then◌else◌,
}

pub record AckedFrag : Type 0 where
  pub session : String
  pub text : String
  pub at_time : Time

-- A time that is zero in Go is `none`.
pub record RequesterResult : Type 0 where
  pub request_id : String
  pub question : String
  pub content : String
  pub delta_runes : List ℕ
  pub done : Bool
  pub cancelled : Bool
  pub stalled : Bool
  pub err_text : String
  pub created_at : Time
  pub first_delta : Option Time
  pub max_gap : ℕ
  pub blocking : Bool

pub data Violation : Type 0 where
  transport_error : (question err_text : String) → Violation
  without_request_id : (question : String) → Violation
  fallback_empty : (question : String) → Violation
  pacing_violated : (runes : ℕ) → (request_id : String) → Violation
  content_without_fragments : (request_id : String) → Violation
  content_mismatch : (request_id expected got : String) → Violation
  stalled_question : (question : String) → Violation
  interleaved_committers : (request_id : String) → (order : List String) → Violation

pub data Probe : Type 0 where
  noted : String → Probe
  drop_reproduced : (request_id expected got : String) → Probe
  no_drops : Probe

pub record World : Type 0 where
  pub use_fallback : Bool
  pub slow_reader_mode : Bool
  pub acked : Dict (List AckedFrag)
  pub results : List RequesterResult
  pub probes : List Probe

pub record Report : Type 0 where
  pub requests : ℕ
  pub completed : ℕ
  pub cancelled : ℕ
  pub stalled : List String
  pub mismatches : List String
  pub overlaps : List String
  pub violations : List Violation
  pub probes : List Probe
  pub first_delta : List ℕ
  pub max_gap : ℕ

unfoldable pub join_acked : List AckedFrag → String
join_acked [] = ""
join_acked (f ∷ fs) = f.text <> join_acked fs

abbrev pub violate : Violation → Report → Report
violate v r = record r { violations = r.violations ++ v ∷ [] }

-- The first delta that is too long is reported.
unfoldable pub check_pacing : String → List ℕ → Report → Report
check_pacing id [] r = r
check_pacing id (runes ∷ rest) r =
    let later = check_pacing id rest r in
    if ltb 5 runes then violate (pacing_violated runes id) r else later

unfoldable pub check_fallback : RequesterResult → Report → Report
check_fallback res r =
    check_pacing res.request_id res.delta_runes
      (if is_unset res.content then violate (fallback_empty res.question) r else r)

unfoldable pub check_content : World → RequesterResult → Report → Report
check_content w res r =
    let expected = join_acked (at [] res.request_id w.acked) in
    if is_unset expected && not (is_unset res.content)
    then violate (content_without_fragments res.request_id) r
    else if not (res.content == expected)
    then (if w.slow_reader_mode
        then record r {
          probes = r.probes ++ drop_reproduced res.request_id expected res.content ∷ [];
        }
        else violate (content_mismatch res.request_id expected res.content)
            (record r { mismatches = r.mismatches ++ res.request_id ∷ [] }))
    else if w.slow_reader_mode
    then record r { probes = r.probes ++ no_drops ∷ [] }
    else r

-- `if !res.blocking && !res.firstDelta.IsZero()`; the first delta comes after the request.
abbrev pub deltas_with : RequesterResult → List ℕ → List ℕ
deltas_with res deltas = elim res.first_delta [
  | none ↦ deltas
  | some t ↦ if res.blocking then deltas else deltas ++ (t - res.created_at) ∷ []
]

-- The counts of a request that is done.
unfoldable pub completed_in : RequesterResult → Report → Report
completed_in res r = record r {
  completed = suc r.completed;
  first_delta = deltas_with res r.first_delta;
  max_gap = if ltb r.max_gap res.max_gap then res.max_gap else r.max_gap;
}

unfoldable pub check_completed : World → RequesterResult → Report → Report
unfolding completed_in
check_completed w res r =
    let r₁ = completed_in res r in
    if is_unset res.request_id
    then violate (without_request_id res.question) r₁
    else if w.use_fallback
    then check_fallback res r₁
    else check_content w res r₁

-- One round of the loop over the results.
unfoldable pub check_result : World → RequesterResult → Report → Report
check_result w res r =
    let r₁ = record r { requests = suc r.requests } in
    if res.cancelled
    then record r₁ { cancelled = suc r₁.cancelled }
    else if res.stalled
    then record r₁ { stalled = r₁.stalled ++ res.question ∷ [] }
    else if not res.done
    then (if is_unset res.err_text
        then r₁
        else violate (transport_error res.question res.err_text) r₁)
    else check_completed w res r₁

unfoldable pub check_results : World → List RequesterResult → Report → Report
check_results w [] r = r
check_results w (res ∷ rest) r = check_results w rest (check_result w res r)

-- Who commits, with one entry for fragments of the same session in a row.
unfoldable pub order_after : Option String → List AckedFrag → List String
order_after last [] = []
order_after none (f ∷ fs) = f.session ∷ order_after (some f.session) fs
order_after (some last) (f ∷ fs) =
    let onward = order_after (some last) fs in
    if last == f.session then onward else f.session ∷ order_after (some f.session) fs

abbrev pub with_last : Option String → List String → List String
with_last none seen = seen
with_last (some last) seen = last ∷ seen

-- The loop over the order, with the session of the round before.
unfoldable pub has_repeat : List String → Option String → List String → Bool
has_repeat seen last [] = false
has_repeat seen last (session ∷ rest) =
    let onward = has_repeat (with_last last seen) (some session) rest in
    if contains seen session then true else onward

unfoldable pub interleaves : List AckedFrag → Bool
interleaves frags = has_repeat [] none (order_after none frags)

unfoldable pub check_acked : Dict (List AckedFrag) → Report → Report
check_acked [] r = r
check_acked ((id, frags) ∷ rest) r = check_acked rest (
    if interleaves frags
    then violate (interleaved_committers id (order_after none frags))
        (record r { overlaps = r.overlaps ++ id ∷ [] })
    else r)

abbrev pub new_report : World → Report
new_report w = record {
  requests = 0;
  completed = 0;
  cancelled = 0;
  stalled = [];
  mismatches = [];
  overlaps = [];
  violations = [];
  probes = w.probes;
  first_delta = [];
  max_gap = 0;
}

unfoldable pub check : World → Report
check w =
    let r = check_results w w.results (new_report w) in
    check_acked w.acked (record r { violations = r.violations ++ map stalled_question r.stalled })
