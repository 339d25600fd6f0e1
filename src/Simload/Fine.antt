-- ===== src/Simload/Fine.antt =====
-- What a report without violations says of one request.
use deeperseek.Core.State.{is_unset}
use deeperseek.Simload.{
  fallback_empty, content_without_fragments, content_mismatch, RequesterResult, World, Report,
  violate, join_acked, check_pacing, check_fallback, check_content, completed_in, check_completed,
  check_result,
}
use deeperseek.Prelude.{
  ℕ, suc, ◌≤◌, String, true, false, List, [], ◌∷◌, ◌++◌, at, ltb, ◌≡◌, refl, sym, ap, ◌∙◌, arith,
  eq_iff, Bool-cases, inl, inr,
}

-- No delta is longer than five runes.
abbrev pub ArePaced : List ℕ → Type 0
ArePaced [] = Unit
ArePaced (n ∷ ns) = (n ≤ 5) × ArePaced ns

-- A request that is done has an id. An answer of the fallback is there and is paced; where the
-- reader is not slow, an answer of a responder is the fragments that were acknowledged to it.
pub record IsFine (w : World) (res : RequesterResult) : Type 0 where
  pub named : is_unset res.request_id ≡ false
  pub paced : w.use_fallback ≡ true → (is_unset res.content ≡ false) × ArePaced res.delta_runes
  pub answered :
      w.use_fallback ≡ false
      → w.slow_reader_mode ≡ false
      → res.content ≡ join_acked (at [] res.request_id w.acked)

-- A report that has no violation and no stalled question.
pub record IsClean (r : Report) : Type 0 where
  pub clean : r.violations ≡ []
  pub flowing : r.stalled ≡ []

pub append-nil_left {ℓ} : {A : Type ℓ} (xs ys : List A) → xs ++ ys ≡ [] → xs ≡ []
append-nil_left [] ys e = refl
append-nil_left (x ∷ xs) ys e = cc

pub append-nil_right {ℓ} : {A : Type ℓ} (xs ys : List A) → xs ++ ys ≡ [] → ys ≡ []
append-nil_right [] ys e = e
append-nil_right (x ∷ xs) ys e = cc

pub append_one-ne-nil {ℓ} : {A : Type ℓ} (xs : List A) (x : A) → xs ++ x ∷ [] ≡ [] → ⊥
append_one-ne-nil xs x e = ground (arith, append-nil_right xs (x ∷ []) e)

check_pacing-ArePaced :
    (id : String) (ns : List ℕ) (r : Report)
    → (check_pacing id ns r).violations ≡ []
    → (r.violations ≡ []) × ArePaced ns
unfolding check_pacing
check_pacing-ArePaced id [] r e = (e, tt)
check_pacing-ArePaced id (n ∷ ns) r e = elim (Bool-cases (ltb 5 n)) [
  | inl long ↦ absurd (append_one-ne-nil r.violations _ (rw (long, check_pacing) at e))
  | inr short ↦
      let (clean, paced) = check_pacing-ArePaced id ns r (rw (short, check_pacing) at e) in
      (clean, (ground (arith, short), paced))
]

check_fallback-ArePaced :
    (res : RequesterResult) (r : Report)
    → (check_fallback res r).violations ≡ []
    → (r.violations ≡ []) × (is_unset res.content ≡ false) × ArePaced res.delta_runes
unfolding check_fallback
check_fallback-ArePaced res r e = elim (Bool-cases (is_unset res.content)) [
  | inl empty ↦ absurd (
      append_one-ne-nil r.violations _
        (check_pacing-ArePaced res.request_id res.delta_runes _
          (rw (empty, check_fallback) at e)).0)
  | inr there ↦
      let (clean, paced) =
        check_pacing-ArePaced res.request_id res.delta_runes r (rw (there, check_fallback) at e) in
      (clean, there, paced)
]

check_content-join_acked :
    (w : World) (res : RequesterResult) (r : Report)
    → (check_content w res r).violations ≡ []
    → (r.violations ≡ [])
      × (w.slow_reader_mode ≡ false → res.content ≡ join_acked (at [] res.request_id w.acked))
unfolding check_content
check_content-join_acked w res r e =
    let expected = join_acked (at [] res.request_id w.acked) in
    ground (
      arith,
      append_one-ne-nil r.violations (content_without_fragments res.request_id),
      append_one-ne-nil r.violations (content_mismatch res.request_id expected res.content),
      eq_iff res.content expected,
    )

check_completed-IsFine :
    (w : World) (res : RequesterResult) (r : Report)
    → (check_completed w res r).violations ≡ []
    → (r.violations ≡ []) × IsFine w res
unfolding check_completed completed_in check_content
check_completed-IsFine w res r e = elim (Bool-cases (is_unset res.request_id)) [
  | inl unnamed ↦ absurd (append_one-ne-nil r.violations _ (rw (unnamed, check_completed) at e))
  | inr named ↦ elim (Bool-cases w.use_fallback) [
    | inl fallback ↦
        let (clean, there, paced) =
          check_fallback-ArePaced res (completed_in res r)
            (rw (fallback, check_completed) at (rw (named, check_completed) at e)) in
        (
          clean,
          record { named = named; paced = λ h. (there, paced); answered = λ h. cc (fallback, h) },
        )
    | inr human ↦
        let (clean, same) =
          check_content-join_acked w res (completed_in res r)
            (rw (human, check_completed) at (rw (named, check_completed) at e)) in
        (
          clean,
          record { named = named; paced = λ h. cc (human, h); answered = λ h slow. same slow },
        )
  ]
]

check_pacing-stalled :
    (id : String) (ns : List ℕ) (r : Report) → (check_pacing id ns r).stalled ≡ r.stalled
unfolding check_pacing
check_pacing-stalled id [] r = refl
check_pacing-stalled id (n ∷ ns) r = ground (arith, check_pacing-stalled id ns r)

check_completed-stalled :
    (w : World) (res : RequesterResult) (r : Report) → (check_completed w res r).stalled ≡ r.stalled
unfolding check_completed check_fallback check_content completed_in
check_completed-stalled w res r = ground (
  arith,
  check_pacing-stalled res.request_id res.delta_runes (completed_in res r),
  check_pacing-stalled res.request_id res.delta_runes
      (violate (fallback_empty res.question) (completed_in res r)),
)

-- What one round of the loop leaves of a report with neither violations nor stalled questions.
pub check_result-IsFine :
    (w : World) (res : RequesterResult) (r : Report)
    → IsClean (check_result w res r)
    → IsClean r
      × (res.cancelled ≡ false
          → (res.stalled ≡ false)
            × (res.done ≡ false → is_unset res.err_text ≡ true)
            × (res.done ≡ true → IsFine w res))
unfolding check_result
check_result-IsFine w res r c = elim (Bool-cases res.cancelled) [
  | inl given_up ↦ (
    record {
      clean = rw (given_up, check_result) at c.clean;
      flowing = rw (given_up, check_result) at c.flowing;
    },
    λ h. cc (given_up, h),
  )
  | inr waited ↦ elim (Bool-cases res.stalled) [
    | inl stuck ↦ absurd (
        append_one-ne-nil r.stalled res.question
          (rw (stuck, check_result) at (rw (waited, check_result) at c.flowing)))
    | inr flows ↦ elim (Bool-cases res.done) [
      | inr unfinished ↦ elim (Bool-cases (is_unset res.err_text)) [
        | inr failed ↦ absurd (
            append_one-ne-nil r.violations _ (
              rw (failed, check_result) at
                (rw (unfinished, check_result) at
                  (rw (flows, check_result) at (rw (waited, check_result) at c.clean)))))
        | inl quiet ↦
            let same : check_result w res r ≡ record r { requests = suc r.requests } =
              rw (waited, check_result)
                (rw (flows, check_result)
                  (rw (unfinished, check_result) (rw (quiet, check_result) refl))) in
            (
              record {
                clean = ap (λ (x : Report). x.violations) (sym same) ∙ c.clean;
                flowing = ap (λ (x : Report). x.stalled) (sym same) ∙ c.flowing;
              },
              λ h. (flows, λ d. quiet, λ d. cc (unfinished, d)),
            )
      ]
      | inl over ↦
          let r₁ = record r { requests = suc r.requests } in
          let same : check_result w res r ≡ check_completed w res r₁ =
            rw (waited, check_result) (rw (flows, check_result) (rw (over, check_result) refl)) in
          let (clean, fine) =
            check_completed-IsFine w res r₁
              (ap (λ (x : Report). x.violations) (sym same) ∙ c.clean) in
          (
            record {
              clean = clean;
              flowing =
                  sym (check_completed-stalled w res r₁)
                  ∙ ap (λ (x : Report). x.stalled) (sym same)
                  ∙ c.flowing;
            },
            λ h. (flows, λ d. cc (over, d), λ d. fine),
          )
    ]
  ]
]
