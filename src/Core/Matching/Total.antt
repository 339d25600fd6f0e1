-- ===== src/Core/Matching/Total.antt =====
-- The loop of `try_assign_locked` ends, without a panic, where nothing is left to assign.
use deeperseek.Core.Lifecycle.{requeue_locked}
use deeperseek.Core.Matching.{
  compatible_pair_locked, hand_out, assign_pair, assign_loop, try_assign_locked,
}
use deeperseek.Core.Matching.Oldest.{
  compatible_pair_locked-IsOldest, compatible_pair_locked-IsSettled, IsSettled,
}
use deeperseek.Core.State.{Service, session_by_id_locked, active_request}
use deeperseek.Core.Types.{Time, Session, Request, AssignedRequest}
use deeperseek.Prelude.{
  ℕ, zero, suc, ◌+◌, ◌<◌, String, some, List, lookup, length, get_elem?, remove_at,
  length-remove_at, ◌≡◌, arith, Option-cases, inl, inr,
}

-- One round, from its parts: all lookups of the body succeed at a compatible pair.
pub record Round (now : Time) (i j : ℕ) (s : Service) : Type 0 where
  pub id : String
  pub responder : String
  pub request : Request
  pub chan : List AssignedRequest
  pub session : Session
  pub queued_at : get_elem? s.queue i ≡ some id
  pub available_at : get_elem? s.available j ≡ some responder
  pub found : lookup id s.requests ≡ some request
  pub connected : lookup responder s.responders ≡ some chan
  pub known : session_by_id_locked s responder ≡ some session
  pub idle : active_request s responder ≡ ""
  pub result :
      assign_pair now i j s
      ≡ some (
          hand_out now id responder request chan session
            (record s { queue = remove_at s.queue i; available = remove_at s.available j }))

pub pair-Round :
    (now : Time) (i j : ℕ) (s : Service) → compatible_pair_locked s ≡ some (i, j) → Round now i j s
unfolding assign_pair
pair-Round now i j s e =
    let o = compatible_pair_locked-IsOldest s i j e in
    let c = o.compatible in
    elim (Option-cases (lookup o.responder s.responders)) [
      | inl gone ↦ absurd (c.connected gone)
      | inr (chan, connected) ↦ record {
        id = o.id;
        responder = o.responder;
        request = c.request;
        chan = chan;
        session = c.session;
        queued_at = o.queued_at;
        available_at = o.available_at;
        found = c.found;
        connected = connected;
        known = c.known;
        idle = c.idle;
        result =
            rw (o.queued_at, assign_pair)
              (rw (o.available_at, assign_pair)
                (rw (c.found, assign_pair)
                  (rw (connected, assign_pair) (rw (c.known, assign_pair)))));
      }
    ]

-- The state that a round leaves.
abbrev pub after_round : (now : Time) (i j : ℕ) (s : Service) → Round now i j s → Service
after_round now i j s r =
    hand_out now r.id r.responder r.request r.chan r.session
      (record s { queue = remove_at s.queue i; available = remove_at s.available j })

hand_out-available :
    (now : Time) (id responder : String) (r : Request) (chan : List AssignedRequest)
    (session : Session) (s : Service)
    → (hand_out now id responder r chan session s).available ≡ s.available
unfolding hand_out requeue_locked
hand_out-available now id responder r chan session s = ground arith

after_round-shorter :
    (now : Time) (i j : ℕ) (s : Service) (r : Round now i j s)
    → length (after_round now i j s r).available + 1 ≡ length s.available
after_round-shorter now i j s r =
    rw
      (hand_out-available now r.id r.responder r.request r.chan r.session
        (record s { queue = remove_at s.queue i; available = remove_at s.available j }))
      (length-remove_at s.available j r.available_at)

-- A rule for the loop: what each round keeps holds at the end, where nothing is compatible.
pub assign_loop-keeps {ℓ} :
    (P : Service → Type ℓ) (now : Time)
    → ((i j : ℕ) (s : Service) (r : Round now i j s) → P s → P (after_round now i j s r))
    → (fuel : ℕ) (s : Service) → length s.available < fuel
    → P s
    → (s' : Service) × (assign_loop fuel now s ≡ some s') × P s' × IsSettled s'
unfolding assign_loop
assign_loop-keeps P now keep zero s h p = elim h [ ]
assign_loop-keeps P now keep (suc fuel) s h p = elim (Option-cases (compatible_pair_locked s)) [
  | inl e ↦ (s, rw (e, assign_loop), p, compatible_pair_locked-IsSettled s e)
  | inr ((i, j), e) ↦
      let r = pair-Round now i j s e in
      let s₁ = after_round now i j s r in
      let shorter : length s₁.available < fuel = omega (arith, after_round-shorter now i j s r) in
      let (s', run, p', settled) = assign_loop-keeps P now keep fuel s₁ shorter (keep i j s r p) in
      (s', rw (e, assign_loop) (rw (r.result, assign_loop) run), p', settled)
]

-- What every round keeps, the whole search keeps. It ends without a panic.
pub try_assign_locked-keeps {ℓ} :
    (P : Service → Type ℓ) (now : Time)
    → ((i j : ℕ) (s : Service) (r : Round now i j s) → P s → P (after_round now i j s r))
    → (s : Service) → P s
    → (s' : Service) × (try_assign_locked now s ≡ some s') × P s' × IsSettled s'
unfolding try_assign_locked
try_assign_locked-keeps P now keep s p =
    assign_loop-keeps P now keep (suc (length s.available)) s (omega arith) p

-- From every state the search ends, no lookup in it panics, and it leaves no queued request that is
-- compatible with an available responder.
pub try_assign_locked-IsSettled :
    (now : Time) (s : Service) → (s' : Service) × (try_assign_locked now s ≡ some s') × IsSettled s'
try_assign_locked-IsSettled now s =
    let (s', run, _, settled) = try_assign_locked-keeps (λ _. Unit {0}) now (λ i j t r p. p) s tt in
    (s', run, settled)
