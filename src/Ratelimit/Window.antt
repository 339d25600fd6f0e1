-- ===== src/Ratelimit/Window.antt =====
-- How many requests of a client the limiter lets through in a window of time.
use deeperseek.Core.Types.{Time}
use deeperseek.Ratelimit.{RateLimiter, allow_locked}
use deeperseek.Prelude.{ℕ, suc, ◌≤◌, String, List, [], ◌∷◌, ◌==◌, if◌then◌else◌}

-- The calls of all clients that are let through for one key.
unfoldable pub count_allowed :
    (one : ℕ) → (ℕ → Time → ℕ → ℕ) → String → RateLimiter → List (Time × String) → ℕ
count_allowed one accrue key rl [] = 0
count_allowed one accrue key rl ((now, k) ∷ rest) =
    let (allowed, rl') = allow_locked one accrue rl k now in
    let more = count_allowed one accrue key rl' rest in
    if k == key then (if allowed then suc more else more) else more

-- The calls are in the order of time, from one moment to another.
abbrev pub IsOrdered : Time → List (Time × String) → Time → Type 0
IsOrdered from [] until = from ≤ until
IsOrdered from ((now, k) ∷ rest) until = (from ≤ now) × IsOrdered now rest until

-- The calls of a client.
unfoldable pub calls_of : String → List (Time × String) → ℕ
calls_of key [] = 0
calls_of key ((now, k) ∷ rest) = let more = calls_of key rest in if k == key then suc more else more
