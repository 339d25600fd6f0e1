-- ===== src/Ratelimit/Calls.antt =====
-- What a call of `allow` costs the key that makes it, and that it costs the others nothing.
use native.Mathlib.Nat.{add-mul, mul-le-mul_right, zero-mul, one-mul, mul_assoc}
use deeperseek.Core.Types.{Time}
use deeperseek.Ratelimit.{
  TokenBucket, RateLimiter, minute, is_stale, sweep_locked, at_most, refilled, take_token,
  allow_locked,
}
use deeperseek.Prelude.{
  ℕ, ◌+◌, ◌-◌, ◌*◌, ◌≤◌, String, Bool, true, false, Option, none, some, Dict, [], ◌∷◌, lookup,
  insert, leb, ltb, if◌then◌else◌, length, ◌≡◌, ◌≢◌, ◌⊎◌, refl, ap, ◌∙◌, inl, inr, arith, eq_iff,
  Bool-cases, Option-cases, lookup-insert_self, lookup-insert_ne, sym, subst, lookup-delete,
}

-- `flow` is what flows in per nanosecond, `rounding` the most that a refill rounds up by, up to the time
-- `until`.
module _ (one : ℕ) (accrue : ℕ → Time → ℕ → ℕ) (flow rounding until : ℕ) where
  -- What a key could spend at a moment, if nothing were rounded.
  unfoldable pub level_of : RateLimiter → Time → Option TokenBucket → ℕ
  level_of rl now none = rl.burst * one
  level_of rl now (some b) = at_most (rl.burst * one) (b.tokens + (now - b.last) * flow)

  abbrev unless_stale : Time → Option TokenBucket → Option TokenBucket
  unless_stale now none = none
  unless_stale now (some b) = if is_stale now b then none else some b

  lookup-sweep_locked :
      (key : String) (now : Time) (m : Dict TokenBucket)
      → lookup key (sweep_locked now m) ≡ unless_stale now (lookup key m)
  unfolding lookup sweep_locked
  lookup-sweep_locked key now [] = refl
  lookup-sweep_locked key now ((k, b) ∷ m) =
      ground (
        arith,
        lookup-sweep_locked key now m,
        lookup-delete k key (sweep_locked now m),
        eq_iff k key,
      )

  at_most-grows : (limit x y : ℕ) → at_most limit (x + y) ≤ at_most limit x + y
  at_most-grows limit x y = ground arith

  -- Refilling over time: a window adds what flows in during it, at most.
  pub level_of-grows :
      (rl : RateLimiter) (from now : Time) (b : TokenBucket)
      → b.last ≤ from
      → from ≤ now
      → level_of rl now (some b) ≤ level_of rl from (some b) + (now - from) * flow
  unfolding level_of
  level_of-grows rl from now b past later =
      let apart : (now - b.last) * flow ≡ (from - b.last) * flow + (now - from) * flow =
        ap (λ d. d * flow) (omega (arith, past, later))
        ∙ add-mul (from - b.last) (now - from) flow in
      subst (λ x. at_most (rl.burst * one) x ≤ level_of rl from (some b) + (now - from) * flow)
        (sym (omega (arith, apart)))
        (at_most-grows (rl.burst * one) (b.tokens + (from - b.last) * flow) ((now - from) * flow))

  -- Ten minutes refill a bucket, where the burst is what ten minutes allow at most.
  stale-refilled :
      (rl : RateLimiter) (now : Time) (b : TokenBucket)
      → rl.burst ≤ 10 * rl.per_min
      → minute * flow ≡ rl.per_min * one
      → is_stale now b ≡ true
      → level_of rl now (some b) ≡ rl.burst * one
  unfolding level_of
  stale-refilled rl now b small exact stale =
      let enough : 10 * minute * flow ≤ (now - b.last) * flow =
        mul-le-mul_right flow (ground (arith, stale)) in
      let fits : rl.burst * one ≤ 10 * rl.per_min * one = mul-le-mul_right one small in
      let brought : 10 * minute * flow ≡ 10 * rl.per_min * one =
        mul_assoc 10 minute flow ∙ ap (λ x. 10 * x) exact ∙ sym (mul_assoc 10 rl.per_min one) in
      let full : rl.burst * one ≤ (now - b.last) * flow = omega (arith, enough, fits, brought) in
      ground (arith, full)

  fresh_bucket :
      (rl : RateLimiter) (now : Time) (n : ℕ)
      → level_of rl now (some (record { tokens = n; last = now })) ≤ n
  unfolding level_of
  fresh_bucket rl now n =
      let still : (now - now) * flow ≡ 0 = ap (λ d. d * flow) (omega arith) ∙ zero-mul flow in
      ground (arith, still)

  -- The settings that the bound needs: a minute brings the tokens of the limit, and a refill within the
  -- time rounds up by at most `rounding`. The bucket was not filled after a moment, nor above the burst.
  pub record Ready (rl : RateLimiter) (key : String) (now : Time) : Type 0 where
    pub positive : 1 ≤ rl.burst
    pub small : rl.burst ≤ 10 * rl.per_min
    pub exact : minute * flow ≡ rl.per_min * one
    pub rounds :
        (d n : ℕ) → d ≤ until → n ≤ rl.burst * one → accrue rl.per_min d n ≤ n + d * flow + rounding
    pub past : (b : TokenBucket) → lookup key rl.buckets ≡ some b → b.last ≤ now
    pub full : (b : TokenBucket) → lookup key rl.buckets ≡ some b → b.tokens ≤ rl.burst * one

  -- A call: the limiter that it leaves, with what the key can still spend then.
  pub record Spent (rl : RateLimiter) (key : String) (now : Time) (cost extra : ℕ)
      (rl' : RateLimiter) : Type 0 where
    pub ready : Ready rl' key now
    pub paid :
        cost + level_of rl' now (lookup key rl'.buckets)
        ≤ level_of rl now (lookup key rl.buckets) + extra

  -- A call that leaves the key a bucket filled at this moment.
  refilled_bucket :
      (rl : RateLimiter) (key : String) (now : Time) (cost extra n : ℕ)
      → Ready rl key now
      → n ≤ rl.burst * one
      → cost + n ≤ level_of rl now (lookup key rl.buckets) + extra
      → (m : Dict TokenBucket) → lookup key m ≡ some (record { tokens = n; last = now })
      → Spent rl key now cost extra (record rl { buckets = m })
  unfolding level_of
  refilled_bucket rl key now cost extra n ready most le m here =
      let rl' = record rl { buckets = m } in
      record {
        ready = record {
          positive = ready.positive;
          small = ready.small;
          exact = ready.exact;
          rounds = ready.rounds;
          past = λ b e. omega (arith, ap last_of (sym here ∙ e));
          full = λ b e. omega (arith, ap tokens_of (sym here ∙ e), most);
        };
        paid =
            subst (λ o. cost + level_of rl' now o ≤ level_of rl now (lookup key rl.buckets) + extra)
              (sym here) (omega (arith, le, fresh_bucket rl' now n));
      }
    where
      last_of : Option TokenBucket → ℕ
      last_of none = 0
      last_of (some b) = b.last

      tokens_of : Option TokenBucket → ℕ
      tokens_of none = 0
      tokens_of (some b) = b.tokens

  kept_bucket :
      (rl : RateLimiter) (key : String) (now : Time)
      → Ready rl key now
      → (m : Dict TokenBucket) → lookup key m ≡ lookup key rl.buckets
      → Spent rl key now 0 0 (record rl { buckets = m })
  unfolding level_of
  kept_bucket rl key now ready m same = record {
    ready = record {
      positive = ready.positive;
      small = ready.small;
      exact = ready.exact;
      rounds = ready.rounds;
      past = λ b e. ready.past b (sym same ∙ e);
      full = λ b e. ready.full b (sym same ∙ e);
    };
    paid =
        subst
          (λ o.
            0 + level_of (record rl { buckets = m }) now o
            ≤ level_of rl now (lookup key rl.buckets) + 0)
          (sym same) (omega arith);
  }

  -- A call that leaves the bucket of the key, or drops it when it is stale.
  spared_bucket :
      (rl : RateLimiter) (key : String) (now : Time)
      → Ready rl key now
      → (m : Dict TokenBucket)
      → (lookup key m ≡ lookup key rl.buckets)
        ⊎ (lookup key m ≡ unless_stale now (lookup key rl.buckets))
      → Spent rl key now 0 0 (record rl { buckets = m })
  unfolding level_of
  spared_bucket rl key now ready m (inl same) = kept_bucket rl key now ready m same
  spared_bucket rl key now ready m (inr swept) = elim (Option-cases (lookup key rl.buckets)) [
    | inl missing ↦
        kept_bucket rl key now ready m (swept ∙ ap (unless_stale now) missing ∙ sym missing)
    | inr (b, here) ↦ elim (Bool-cases (is_stale now b)) [
      | inr kept ↦ kept_bucket rl key now ready m (
          swept ∙ ap (unless_stale now) here ∙ ap (λ t. if t then none else some b) kept ∙ sym here)
      | inl stale ↦
          let gone : lookup key m ≡ none =
            swept ∙ ap (unless_stale now) here ∙ ap (λ t. if t then none else some b) stale in
          record {
            ready = record {
              positive = ready.positive;
              small = ready.small;
              exact = ready.exact;
              rounds = ready.rounds;
              past = λ c e. ground (arith, sym gone ∙ e);
              full = λ c e. ground (arith, sym gone ∙ e);
            };
            paid =
                subst
                  (λ o.
                    0 + level_of (record rl { buckets = m }) now o
                    ≤ level_of rl now (lookup key rl.buckets) + 0)
                  (sym gone)
                  (subst (λ o. 0 + rl.burst * one ≤ level_of rl now o + 0) (sym here)
                    (omega (arith, stale-refilled rl now b ready.small ready.exact stale)));
          }
    ]
  ]

  unfoldable pub cost_of : Bool → ℕ
  cost_of true = one
  cost_of false = 0

  level_at :
      (rl : RateLimiter) (key : String) (now : Time) (n extra : ℕ) (o : Option TokenBucket)
      → lookup key rl.buckets ≡ o
      → n ≤ level_of rl now o + extra
      → n ≤ level_of rl now (lookup key rl.buckets) + extra
  level_at rl key now n extra o e = subst (λ x. n ≤ level_of rl now x + extra) (sym e)

  own_token :
      (rl : RateLimiter) (key : String) (now : Time) (n : ℕ)
      → Ready rl key now
      → n ≤ rl.burst * one
      → n ≤ level_of rl now (lookup key rl.buckets) + rounding
      → Spent rl key now
          (cost_of (take_token one accrue rl key now n).0)
          rounding
          (take_token one accrue rl key now n).1
  unfolding take_token cost_of
  own_token rl key now n ready most le = elim (Bool-cases (leb one n)) [
    | inl enough ↦
        rw (enough, take_token)
          (refilled_bucket rl key now one rounding (n - one) ready (omega (arith, most))
            (ground (arith, le, enough)) _
            (lookup-insert_self key (record { tokens = n - one; last = now }) rl.buckets))
    | inr short ↦
        rw (short, take_token)
          (refilled_bucket rl key now 0 rounding n ready most (omega (arith, le)) _
            (lookup-insert_self key (record { tokens = n; last = now }) rl.buckets))
  ]

  other_token :
      (rl : RateLimiter) (key k : String) (now : Time) (n : ℕ)
      → k ≢ key
      → Ready rl key now
      → Spent rl key now 0 0 (take_token one accrue rl k now n).1
  unfolding take_token
  other_token rl key k now n differ ready = elim (Bool-cases (leb one n)) [
    | inl enough ↦
        rw (enough, take_token)
          (spared_bucket rl key now ready _ (inl (lookup-insert_ne k key _ rl.buckets differ)))
    | inr short ↦
        rw (short, take_token)
          (spared_bucket rl key now ready _ (inl (lookup-insert_ne k key _ rl.buckets differ)))
  ]

  swept_or_not :
      (key k : String) (now : Time) (b : TokenBucket) (m : Dict TokenBucket) (sweep : Bool)
      → k ≢ key
      → (lookup key (insert k b (if sweep then sweep_locked now m else m)) ≡ lookup key m)
        ⊎ (lookup key (insert k b (if sweep then sweep_locked now m else m))
            ≡ unless_stale now (lookup key m))
  swept_or_not key k now b m true differ =
      inr (lookup-insert_ne k key b (sweep_locked now m) differ ∙ lookup-sweep_locked key now m)
  swept_or_not key k now b m false differ = inl (lookup-insert_ne k key b m differ)

  -- The refill of a bucket is what it could spend, but for the rounding.
  refilled-level_of :
      (rl : RateLimiter) (key : String) (now : Time) (b : TokenBucket)
      → Ready rl key now
      → now ≤ until
      → lookup key rl.buckets ≡ some b
      → (refilled one accrue rl now b ≤ rl.burst * one)
        × (refilled one accrue rl now b ≤ level_of rl now (some b) + rounding)
  unfolding refilled level_of
  refilled-level_of rl key now b ready before here =
      let up = ready.rounds (now - b.last) b.tokens (omega (arith, before)) (ready.full b here) in
      (ground arith, ground (arith, up))

  -- A call for the key costs it a token when it is let through.
  pub own_call :
      (rl : RateLimiter) (key : String) (now : Time)
      → Ready rl key now
      → now ≤ until
      → Spent rl key now
          (cost_of (allow_locked one accrue rl key now).0)
          rounding
          (allow_locked one accrue rl key now).1
  unfolding allow_locked cost_of level_of
  own_call rl key now ready before = elim (Option-cases (lookup key rl.buckets)) [
    | inl missing ↦
        rw (missing, allow_locked)
          (refilled_bucket rl key now one rounding ((rl.burst - 1) * one) ready
            (omega (arith, without_one rl ready.positive))
            (level_at rl key now (one + (rl.burst - 1) * one) rounding none missing
              (omega (arith, without_one rl ready.positive)))
            _ (lookup-insert_self key (record { tokens = (rl.burst - 1) * one; last = now }) _))
    | inr (b, here) ↦
        let refill = refilled-level_of rl key now b ready before here in
        rw (here, allow_locked)
          (own_token rl key now (refilled one accrue rl now b) ready refill.0
            (level_at rl key now (refilled one accrue rl now b) rounding (some b) here refill.1))
  ]
    where
      without_one : (rl : RateLimiter) → 1 ≤ rl.burst → one + (rl.burst - 1) * one ≡ rl.burst * one
      without_one rl positive =
          sym (add-mul 1 (rl.burst - 1) one ∙ ap (λ x. x + (rl.burst - 1) * one) (one-mul one))
          ∙ ap (λ x. x * one) (omega (arith, positive))

  pub other_call :
      (rl : RateLimiter) (key k : String) (now : Time)
      → k ≢ key
      → Ready rl key now
      → Spent rl key now 0 0 (allow_locked one accrue rl k now).1
  unfolding allow_locked
  other_call rl key k now differ ready = elim (Option-cases (lookup k rl.buckets)) [
    | inl missing ↦
        rw (missing, allow_locked)
          (spared_bucket rl key now ready _
            (swept_or_not key k now _ rl.buckets (ltb 20000 (length rl.buckets)) differ))
    | inr (b, here) ↦
        rw (here, allow_locked)
          (other_token rl key k now (refilled one accrue rl now b) differ ready)
  ]
