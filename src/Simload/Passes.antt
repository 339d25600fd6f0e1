-- ===== src/Simload/Passes.antt =====
-- What a report without violations says of a run.
use deeperseek.Core.State.{is_unset}
use deeperseek.Simload.Fine.{
  IsFine, IsClean, append-nil_left, append-nil_right, append_one-ne-nil, check_result-IsFine,
}
use deeperseek.Simload.Overlaps.{is_interleaved, interleaves-is_interleaved}
use deeperseek.Simload.{
  AckedFrag, RequesterResult, World, Report, stalled_question, new_report, check_result,
  check_results, interleaves, check_acked, check,
}
use deeperseek.Prelude.{
  String, true, false, List, [], ◌∷◌, ◌++◌, Dict, map, ◌≡◌, refl, sym, ◌∙◌, Bool-cases, inl, inr,
}

abbrev pub AreFine : World → List RequesterResult → Type 0
AreFine w [] = Unit
AreFine w (res ∷ rest) =
    (res.cancelled ≡ false
      → (res.stalled ≡ false)
        × (res.done ≡ false → is_unset res.err_text ≡ true)
        × (res.done ≡ true → IsFine w res))
    × AreFine w rest

abbrev pub AreApart : Dict (List AckedFrag) → Type 0
AreApart [] = Unit
AreApart ((id, frags) ∷ rest) = (is_interleaved frags ≡ false) × AreApart rest

check_results-AreFine :
    (w : World) (results : List RequesterResult) (r : Report)
    → IsClean (check_results w results r)
    → IsClean r × AreFine w results
unfolding check_results
check_results-AreFine w [] r c = (c, tt)
check_results-AreFine w (res ∷ rest) r c =
    let (later, fine) = check_results-AreFine w rest (check_result w res r) c in
    let (now, one) = check_result-IsFine w res r later in (now, (one, fine))

check_acked-AreApart :
    (acked : Dict (List AckedFrag)) (r : Report)
    → (check_acked acked r).violations ≡ []
    → (r.violations ≡ []) × AreApart acked
unfolding check_acked
check_acked-AreApart [] r e = (e, tt)
check_acked-AreApart ((id, frags) ∷ rest) r e = elim (Bool-cases (interleaves frags)) [
  | inl mixed ↦ absurd (
      append_one-ne-nil r.violations _
        (check_acked-AreApart rest _ (rw (mixed, check_acked) at e)).0)
  | inr apart ↦
      let (clean, others) = check_acked-AreApart rest r (rw (apart, check_acked) at e) in
      (clean, (sym (interleaves-is_interleaved frags) ∙ apart, others))
]

map-nil : (questions : List String) → map stalled_question questions ≡ [] → questions ≡ []
map-nil [] e = refl
map-nil (q ∷ qs) e = cc

-- When the check of a run of the load simulator reports no violation: of the requests that were
-- not cancelled none has stalled, and one that is not done had no transport error; one that is
-- done has an id, and with the fallback its answer is there and paced, else, unless the reader is
-- slow, its answer is the fragments that were acknowledged, joined; and no answer has interleaved
-- committers.
pub check_passes : (w : World) → (check w).violations ≡ [] → AreFine w w.results × AreApart w.acked
unfolding check
check_passes w e =
    let r = check_results w w.results (new_report w) in
    let (clean, apart) =
      check_acked-AreApart w.acked
        (record r { violations = r.violations ++ map stalled_question r.stalled }) e in
    let (first, fine) = check_results-AreFine w w.results (new_report w) (record {
      clean = append-nil_left r.violations _ clean;
      flowing = map-nil r.stalled (append-nil_right r.violations _ clean);
    }) in
    (fine, apart)
