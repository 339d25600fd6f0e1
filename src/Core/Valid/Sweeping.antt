-- ===== src/Core/Valid/Sweeping.antt =====
-- `SweepTimeouts` keeps the invariant, in whatever order it meets the requests, and does not panic.
use deeperseek.Core.Lifecycle.Invariant.{found-Staged}
use deeperseek.Core.State.{Service, Result, ok}
use deeperseek.Core.Timeouts.{sweep_request, sweep_id, sweep_all, sweep_timeouts}
use deeperseek.Core.Types.{Time, Request, partial}
use deeperseek.Core.Valid.{IsValid, try_assign_locked-IsValid}
use deeperseek.Core.Valid.Moves.{
  requeue_locked-IsValid, abandon_locked-IsValid, complete_locked-IsValid,
}
use deeperseek.Prelude.{
  ℕ, String, some, List, [], ◌∷◌, lookup, ◌≡◌, refl, inl, inr, ap, ◌∙◌, is_empty, arith, Bool-cases,
  Option-cases,
}

module _ (now : Time) (assigned_limit streaming_limit : ℕ) where
  sweep_request-IsValid :
      (r : Request) (s : Service)
      → IsValid s
      → lookup r.id s.requests ≡ some r
      → IsValid (sweep_request now assigned_limit streaming_limit r s).1
  unfolding sweep_request
  sweep_request-IsValid r s v found = ground (
    arith,
    v,
    requeue_locked-IsValid s v r r.id found now,
    abandon_locked-IsValid s v r r.id found now,
    complete_locked-IsValid s v r r.id found now partial,
  )

  sweep_id-IsValid :
      (id : String) (s : Service)
      → IsValid s
      → IsValid (sweep_id now assigned_limit streaming_limit id s).1
  unfolding sweep_id
  sweep_id-IsValid id s v = elim (Option-cases (lookup id s.requests)) [
    | inl unknown ↦ rw (unknown, sweep_id) v
    | inr (r, found) ↦
        let keyed : r.id ≡ id = (found-Staged v.tables id r found).0 in
        rw (found, sweep_id)
          (sweep_request-IsValid r s v (ap (λ j. lookup j s.requests) keyed ∙ found))
  ]

  sweep_all-IsValid :
      (order : List String) (s : Service)
      → IsValid s
      → IsValid (sweep_all order now assigned_limit streaming_limit s).1
  unfolding sweep_all
  sweep_all-IsValid [] s v = v
  sweep_all-IsValid (id ∷ order) s v =
      sweep_all-IsValid order (sweep_id now assigned_limit streaming_limit id s).1
        (sweep_id-IsValid id s v)

  pub record Finished (r : Result (List String) × Service) : Type 0 where
    pub lines : List String
    pub fine : r.0 ≡ ok lines
    pub valid : IsValid r.1

  pub sweep_timeouts-Finished :
      (order : List String) (s : Service)
      → IsValid s
      → Finished (sweep_timeouts order now assigned_limit streaming_limit s)
  unfolding sweep_timeouts
  sweep_timeouts-Finished order s v =
      let changed = (sweep_all order now assigned_limit streaming_limit s).0 in
      let s₁ = (sweep_all order now assigned_limit streaming_limit s).1 in
      let v₁ = sweep_all-IsValid order s v in
      elim (Bool-cases (is_empty changed)) [
        | inl same ↦ rw same (record { lines = changed; fine = refl; valid = v₁ })
        | inr moved ↦
            let (s', run, v', settled) = try_assign_locked-IsValid now s₁ v₁ in
            rw moved (rw run (record { lines = changed; fine = refl; valid = v' }))
      ]
