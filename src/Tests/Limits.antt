-- ===== src/Tests/Limits.antt =====
-- The rate limiter, for a client that calls more often than it may, beside another one.
use deeperseek.Clientip.{client_ip, split_commas, client_ip-unforged}
use deeperseek.Core.Types.{Time}
use deeperseek.Ratelimit.Window.{count_allowed}
use deeperseek.Ratelimit.{RateLimiter, minute, new_rate_limiter, allow_locked, take_token, refilled}
use deeperseek.Prelude.{
  ℕ, Option, none, ◌≢◌, ◌==◌, if◌then◌else◌, eq_iff, ◌+◌, ◌*◌, String, some, List, [], ◌∷◌, lookup,
  insert, pos, ◌≡◌, refl, arith,
}

-- Sixty requests a minute, two at once.
abbrev limiter : RateLimiter
limiter = record { buckets = []; per_min = 60; burst = 2 }

made : new_rate_limiter (pos 60) (pos 2) ≡ some limiter
unfolding new_rate_limiter
made = refl

abbrev calls : List (Time × String)
calls = (1, "ip1") ∷ (2, "ip1") ∷ (3, "ip2") ∷ (4, "ip1") ∷ (1000000005, "ip1") ∷ []

-- A refill that rounds up by one unit, where a token has as many units as a minute nanoseconds.
abbrev rounded_up : ℕ → Time → ℕ → ℕ
rounded_up per_min elapsed tokens = tokens + elapsed * per_min + 1

-- The third call of the first client is refused, the one after a second is let through.
three_of_four : count_allowed minute rounded_up "ip1" limiter calls ≡ 3
unfolding count_allowed allow_locked take_token refilled lookup insert
three_of_four = refl

abbrev one_peer : String → Option String
one_peer address = if address == "10.0.0.1:5000" then some "10.0.0.1" else none

named : ◌≢◌ {A = String} " 9.9.9.9" ""
named = ground (arith, eq_iff " 9.9.9.9" "")

client_ip-unforged_example :
    client_ip one_peer "spoofed, 9.9.9.9" "10.0.0.1:5000" 1
    ≡ client_ip one_peer " 9.9.9.9" "10.0.0.1:5000" 1
unfolding split_commas
client_ip-unforged_example =
    client_ip-unforged one_peer "spoofed" " 9.9.9.9" "10.0.0.1:5000" 1 refl named
