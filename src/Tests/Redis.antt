-- ===== src/Tests/Redis.antt =====
-- The coordination in Redis, where a request waits for a responder, and the lease of the leader.
use deeperseek.Core.Requests.{fresh_request}
use deeperseek.Core.State.{is_terminal, session_among}
use deeperseek.Core.Types.{Time, Request}
use deeperseek.Pgredis.Arrivals.{mark_responder_available, resume_responder}
use deeperseek.Pgredis.Arrivals.Served.{
  EndsServed, mark_responder_available-EndsServed, resume_responder-EndsServed,
}
use deeperseek.Pgredis.Redis.{Cluster, min_fresh, preferred_of, drain_assignments, is_present}
use deeperseek.Pgredis.Tables.{active_row, is_active}
use deeperseek.Pgredis.Redis.Drain.{IsSettled, drain_assignments-IsSettled}
use deeperseek.Pgredis.Redis.Lease.{
  KeyStore, leader_second, attempt_all, try_persona_leader, take_lease,
  try_persona_leader-one_leader, try_persona_leader-succession,
}
use deeperseek.Pgredis.Redis.Scan.{Exhausted, Pairing, assign_next-Outcome}
use deeperseek.Pgredis.Redis.Tracked.{IsTracked}
use deeperseek.Pgredis.Redis.Tracking.{IsServed, drain_assignments-IsTracked}
use deeperseek.Prelude.{
  ℕ, ◌+◌, ◌*◌, String, true, Option, none, some, List, [], ◌∷◌, Dict, lookup, insert, ltb,
  if◌then◌else◌, ◌≡◌, refl, ◌⊎◌, ◌≤◌, ◌<◌, ◌≢◌, arith, eq_iff, lookup-insert_self,
}
use deeperseek.Tests.Samples.{ann, bob, question, numbered}

abbrev pending : Request
pending = fresh_request "req_4" ann "m" question 10 0 true "" 5

-- Bob is present; another responder, before him in the list, has gone.
abbrev waits_for_bob : Cluster
waits_for_bob = record {
  db = record {
    sessions = ("tok_3", bob) ∷ [];
    requests = ("req_4", pending) ∷ [];
    fragments = [];
    ledger = [];
    entropy = numbered;
    drawn = 5;
  };
  redis = record {
    queue = "req_4" ∷ [];
    available = "ses_9" ∷ "ses_2" ∷ [];
    presence = ("ses_2", 10000) ∷ ("ses_9", 1) ∷ [];
    accept_ai = [];
    kinds = [];
    routing = [];
    locks = [];
    inbox = [];
  };
}

abbrev noon : Time
noon = 20000000000

assign_next-Outcome_example :
    Exhausted (min_fresh noon) [] ("ses_9" ∷ "ses_2" ∷ []) waits_for_bob.redis
    ⊎ ((id : String) × (sid : String) × Pairing
          (min_fresh noon)
          []
          ("ses_9" ∷ "ses_2" ∷ [])
          waits_for_bob.redis
          id
          sid)
assign_next-Outcome_example = assign_next-Outcome noon waits_for_bob.redis

drain_assignments-IsSettled_example :
    (c' : Cluster) × (drain_assignments noon waits_for_bob ≡ some c') × IsSettled noon c'.redis
drain_assignments-IsSettled_example = drain_assignments-IsSettled noon waits_for_bob

waits_for_bob-IsTracked : IsTracked waits_for_bob
unfolding lookup preferred_of
waits_for_bob-IsTracked id row here q = record {
  waits = ground (arith, here);
  routed = ground (arith, here);
}

drain_assignments-IsTracked_example :
    (c' : Cluster) × (drain_assignments noon waits_for_bob ≡ some c')
    × IsTracked c'
    × IsServed noon c'
drain_assignments-IsTracked_example =
    drain_assignments-IsTracked noon waits_for_bob waits_for_bob-IsTracked

idle-waits_for_bob : active_row "ses_2" waits_for_bob.db.requests ≡ none
unfolding active_row is_active is_terminal
idle-waits_for_bob = refl

present-waits_for_bob : is_present (min_fresh noon) waits_for_bob.redis "ses_2" ≡ true
unfolding is_present min_fresh lookup
present-waits_for_bob = refl

known-waits_for_bob : session_among "ses_2" waits_for_bob.db.sessions ≡ some bob
unfolding session_among
known-waits_for_bob = refl

mark_responder_available-EndsServed_example :
    EndsServed "ses_2" noon (mark_responder_available "ses_2" none true noon waits_for_bob)
mark_responder_available-EndsServed_example =
    mark_responder_available-EndsServed "ses_2" none noon waits_for_bob waits_for_bob-IsTracked
      known-waits_for_bob idle-waits_for_bob

resume_responder-EndsServed_example :
    EndsServed "ses_2" noon (resume_responder "ses_2" noon waits_for_bob)
resume_responder-EndsServed_example =
    resume_responder-EndsServed "ses_2" noon waits_for_bob waits_for_bob-IsTracked
      known-waits_for_bob idle-waits_for_bob present-waits_for_bob

-- A store of keys with the moments when they expire.
abbrev unexpired : Time → Option (String × Time) → Option String
unexpired now none = none
unexpired now (some (value, until)) = if ltb now until then some value else none

unexpired_before :
    (t : Time) (value : String) (until : Time) (o : Option (String × Time))
    → o ≡ some (value, until)
    → t < until
    → unexpired t o ≡ some value
unexpired_before t value until o e early = rw e (ground arith)

unexpired_after :
    (t : Time) (value : String) (until : Time) (o : Option (String × Time))
    → o ≡ some (value, until)
    → until ≤ t
    → unexpired t o ≡ none
unexpired_after t value until o e late = rw e (ground arith)

abbrev key_store : KeyStore
key_store = record {
  Store = Dict (String × Time);
  get = λ now key st. unexpired now (lookup key st);
  set_ex = λ now key value seconds st. insert key (value, now + seconds * leader_second) st;
  lasts = λ now t key value seconds st from until.
      unexpired_before t value (now + seconds * leader_second)
        (lookup key (insert key (value, now + seconds * leader_second) st))
        (lookup-insert_self key (value, now + seconds * leader_second) st) until;
  expires = λ now t key value seconds st late.
      unexpired_after t value (now + seconds * leader_second)
        (lookup key (insert key (value, now + seconds * leader_second) st))
        (lookup-insert_self key (value, now + seconds * leader_second) st) late;
}

abbrev ten_seconds : ℕ
ten_seconds = 10000000000

abbrev attempts : List (Time × String)
attempts = (1000000000, "pod_2") ∷ (5000000000, "pod_2") ∷ []

try_persona_leader-one_leader_example : ◌≡◌ {A = String} "pod_1" "pod_1"
unfolding try_persona_leader attempt_all take_lease lookup insert
try_persona_leader-one_leader_example =
    try_persona_leader-one_leader key_store "leader" "pod_1" "pod_1" ten_seconds 0 6000000000
      attempts [] refl (ground arith) (ground arith) refl

pods_differ : ◌≢◌ {A = String} "pod_2" "pod_1"
pods_differ = ground (arith, eq_iff "pod_2" "pod_1")

try_persona_leader-succession_example :
    (try_persona_leader key_store "leader" "pod_2" ten_seconds 11000000000 (
      attempt_all key_store "leader" ten_seconds attempts
        (try_persona_leader key_store "leader" "pod_1" ten_seconds 0 []).1)).0
    ≡ true
unfolding try_persona_leader attempt_all take_lease lookup insert
try_persona_leader-succession_example =
    try_persona_leader-succession key_store "leader" "pod_1" "pod_2" ten_seconds 0 11000000000
      attempts [] (ground arith) refl (ground arith) (ground (arith, pods_differ)) (ground arith)
