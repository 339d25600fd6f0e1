-- ===== src/Ratelimit.antt =====
-- backend/internal/httpapi/ratelimit.go: the token bucket of a client. Tokens are float64: they are
-- counted in units so small that each float64 is a whole number of them, `one` to the token. The sum of
-- the refill, which rounds, is the parameter `accrue`; the other operations on tokens are exact.
pub mod Calls
pub mod Window
use deeperseek.Core.Types.{Time}
use deeperseek.Prelude.{
  ℕ, zero, suc, ◌+◌, ◌-◌, ◌*◌, String, Bool, true, false, Option, none, some, Dict, [], ◌∷◌, lookup,
  insert, delete, ltb, leb, ℤ, pos, negsuc, if◌then◌else◌, length,
}

-- A minute in nanoseconds.
abbrev pub minute : ℕ
minute = 60000000000

pub record TokenBucket : Type 0 where
  pub tokens : ℕ
  pub last : Time

pub record RateLimiter : Type 0 where
  pub buckets : Dict TokenBucket
  pub per_min : ℕ
  pub burst : ℕ

abbrev burst_or : ℕ → ℤ → ℕ
burst_or default (pos zero) = default
burst_or default (pos (suc n)) = suc n
burst_or default (negsuc n) = default

unfoldable pub new_rate_limiter : ℤ → ℤ → Option RateLimiter
new_rate_limiter (pos zero) burst = none
new_rate_limiter (negsuc n) burst = none
new_rate_limiter (pos (suc n)) burst =
    some (record { buckets = []; per_min = suc n; burst = burst_or (suc n) burst })

abbrev pub is_stale : Time → TokenBucket → Bool
is_stale now b = ltb (10 * minute) (now - b.last)

unfoldable pub sweep_locked : Time → Dict TokenBucket → Dict TokenBucket
sweep_locked now [] = []
sweep_locked now ((k, b) ∷ rest) =
    let kept = sweep_locked now rest in if is_stale now b then delete k kept else (k, b) ∷ kept

abbrev pub at_most : ℕ → ℕ → ℕ
at_most limit n = if ltb limit n then limit else n

-- `accrue per_min elapsed tokens`: the float64 value of the tokens with those of the time that has gone
-- by.
module _ (one : ℕ) (accrue : ℕ → Time → ℕ → ℕ) where
  -- The tokens of a bucket at a moment, before the request is counted.
  unfoldable pub refilled : RateLimiter → Time → TokenBucket → ℕ
  refilled rl now b = at_most (rl.burst * one) (accrue rl.per_min (now - b.last) b.tokens)

  unfoldable pub take_token : RateLimiter → String → Time → ℕ → Bool × RateLimiter
  take_token rl key now tokens =
      if leb one tokens
      then (
        true,
        record rl {
          buckets = insert key (record { tokens = tokens - one; last = now }) rl.buckets;
        },
      )
      else (
        false,
        record rl { buckets = insert key (record { tokens = tokens; last = now }) rl.buckets },
      )

  unfoldable pub allow_locked : RateLimiter → String → Time → Bool × RateLimiter
  allow_locked rl key now = elim (lookup key rl.buckets) [
    | some b ↦ take_token rl key now (refilled rl now b)
    | none ↦
        let kept =
          if ltb 20000 (length rl.buckets) then sweep_locked now rl.buckets else rl.buckets in
        (
          true,
          record rl {
            buckets = insert key (record { tokens = (rl.burst - 1) * one; last = now }) kept;
          },
        )
  ]

  -- A limiter that is off allows every request.
  unfoldable pub allow : Option RateLimiter → String → Time → Bool × Option RateLimiter
  allow none key now = (true, none)
  allow (some rl) key now = let (allowed, rl') = allow_locked rl key now in (allowed, some rl')
