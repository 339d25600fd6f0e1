-- ===== src/Pgredis/Redis/Lease.antt =====
-- backend/internal/pgredis/persona.go: the lease of the persona leader, over a store of keys that expire.
use deeperseek.Core.Types.{Time}
use deeperseek.Prelude.{
  ℕ, ◌+◌, ◌*◌, ◌/◌, ◌≤◌, ◌<◌, String, Bool, true, false, Option, none, some, List, [], ◌∷◌, ◌==◌,
  nat_eq, if◌then◌else◌, ◌≡◌, ◌≢◌, ◌⊎◌, refl, sym, ap, ◌∙◌, inl, inr, arith, eq_iff, Bool-cases,
  String-cases, Option-cases,
}

abbrev pub leader_second : ℕ
leader_second = 1000000000

-- What the script uses of Redis: GET, and SET with EX, whose value is there until it expires.
pub record KeyStore : Type 1 where
  pub Store : Type 0
  pub get : Time → String → Store → Option String
  pub set_ex : Time → String → String → ℕ → Store → Store
  pub lasts :
      (now t : Time) (key value : String) (seconds : ℕ) (st : Store)
      → now ≤ t
      → t < now + seconds * leader_second
      → get t key (set_ex now key value seconds st) ≡ some value
  pub expires :
      (now t : Time) (key value : String) (seconds : ℕ) (st : Store)
      → now + seconds * leader_second ≤ t
      → get t key (set_ex now key value seconds st) ≡ none

module _ (k : KeyStore) (key : String) where
  -- EX 0 is an error, and then nothing is set.
  unfoldable pub take_lease : String → ℕ → Time → k.Store → Bool × k.Store
  take_lease pod seconds now st =
      if nat_eq seconds 0 then (false, st) else (true, k.set_ex now key pod seconds st)

  unfoldable pub try_persona_leader : String → ℕ → Time → k.Store → Bool × k.Store
  try_persona_leader pod ttl now st = elim (k.get now key st) [
    | none ↦ take_lease pod (ttl / leader_second) now st
    | some current ↦
        if current == pod then take_lease pod (ttl / leader_second) now st else (false, st)
  ]

  -- The attempts of all pods, one after the other.
  unfoldable pub attempt_all : ℕ → List (Time × String) → k.Store → k.Store
  attempt_all ttl [] st = st
  attempt_all ttl ((now, pod) ∷ rest) st =
      attempt_all ttl rest (try_persona_leader pod ttl now st).1

  -- The attempts are in the order of time, from one moment to another.
  abbrev pub IsOrdered : Time → List (Time × String) → Time → Type 0
  IsOrdered from [] until = from ≤ until
  IsOrdered from ((now, pod) ∷ rest) until = (from ≤ now) × IsOrdered now rest until

  -- A pod holds the key between two moments.
  abbrev Held : String → Time → Time → k.Store → Type 0
  Held pod from until st = (t : Time) → from ≤ t → t < until → k.get t key st ≡ some pod

  -- An attempt takes the key, or leaves the store as it is.
  take_lease-cases :
      (pod : String) (seconds : ℕ) (now : Time) (st : k.Store)
      → (take_lease pod seconds now st ≡ (true, k.set_ex now key pod seconds st))
        ⊎ (take_lease pod seconds now st ≡ (false, st))
  unfolding take_lease
  take_lease-cases pod seconds now st = elim (Bool-cases (nat_eq seconds 0)) [
    | inl none_left ↦ inr (rw (none_left, take_lease) refl)
    | inr some_left ↦ inl (rw (some_left, take_lease) refl)
  ]

  blocked :
      (pod other : String) (ttl : ℕ) (now : Time) (st : k.Store)
      → k.get now key st ≡ some other
      → other ≢ pod
      → try_persona_leader pod ttl now st ≡ (false, st)
  unfolding try_persona_leader
  blocked pod other ttl now st held differ =
      let unequal : (other == pod) ≡ false = ground (arith, eq_iff other pod) in
      rw (held, try_persona_leader) (rw (unequal, try_persona_leader) refl)

  try_persona_leader-cases :
      (pod : String) (ttl : ℕ) (now : Time) (st : k.Store)
      → (try_persona_leader pod ttl now st ≡ (true, k.set_ex now key pod (ttl / leader_second) st))
        ⊎ (try_persona_leader pod ttl now st ≡ (false, st))
  unfolding try_persona_leader
  try_persona_leader-cases pod ttl now st = elim (Option-cases (k.get now key st)) [
    | inl free ↦ rw (free, try_persona_leader) (take_lease-cases pod (ttl / leader_second) now st)
    | inr (current, held) ↦ elim (String-cases current pod) [
      | inr other ↦ inr (blocked pod current ttl now st held other)
      | inl same ↦
          rw (held, try_persona_leader)
            (rw ((eq_iff current pod).1 same, try_persona_leader)
              (take_lease-cases pod (ttl / leader_second) now st))
    ]
  ]

  won-Held :
      (pod : String) (ttl : ℕ) (now : Time) (st : k.Store)
      → (try_persona_leader pod ttl now st).0 ≡ true
      → Held pod now
          (now + (ttl / leader_second) * leader_second)
          (try_persona_leader pod ttl now st).1
  won-Held pod ttl now st won t from until = elim (try_persona_leader-cases pod ttl now st) [
    | inl taken ↦
        ap (λ p. k.get t key p.1) taken ∙ k.lasts now t key pod (ttl / leader_second) st from until
    | inr lost ↦ ground (arith, won, ap (λ p. p.0) lost)
  ]

  -- While a pod holds the key, the attempts of others do nothing and its own prolong it.
  attempt-Held :
      (pod other : String) (ttl : ℕ) (now until : Time) (st : k.Store)
      → until ≤ now + (ttl / leader_second) * leader_second
      → Held pod now until st
      → Held pod now until (try_persona_leader other ttl now st).1
  attempt-Held pod other ttl now until st later h t from before = elim (String-cases pod other) [
    | inr differ ↦
        ap (λ p. k.get t key p.1)
          (blocked other pod ttl now st (h now (omega arith) (omega (arith, from, before))) differ)
        ∙ h t from before
    | inl same ↦ elim (try_persona_leader-cases other ttl now st) [
      | inl taken ↦
          ap (λ p. k.get t key p.1) taken
          ∙ k.lasts now t key other (ttl / leader_second) st from (omega arith)
          ∙ ap some (sym same)
      | inr lost ↦ ap (λ p. k.get t key p.1) lost ∙ h t from before
    ]
  ]

  attempt_all-Held :
      (pod : String) (ttl : ℕ) (from until t : Time) (attempts : List (Time × String))
      (st : k.Store)
      → until ≤ from + (ttl / leader_second) * leader_second
      → Held pod from until st
      → IsOrdered from attempts t
      → Held pod t until (attempt_all ttl attempts st)
  unfolding attempt_all
  attempt_all-Held pod ttl from until t [] st later h ordered =
      λ u le lt. h u (omega (arith, ordered, le)) lt
  attempt_all-Held pod ttl from until t ((now, other) ∷ rest) st later h ordered =
      attempt_all-Held pod ttl now until t rest (try_persona_leader other ttl now st).1
        (omega (arith, ordered.0))
        (attempt-Held pod other ttl now until st (omega (arith, ordered.0))
          (λ u le lt. h u (omega (arith, ordered.0)) lt))
        ordered.1

  -- After a pod has become the leader, and whatever attempts the pods make: an attempt that succeeds
  -- before the lease has run out is the same pod's.
  pub try_persona_leader-one_leader :
      (pod other : String) (ttl : ℕ) (from t : Time) (attempts : List (Time × String))
      (st : k.Store)
      → (try_persona_leader pod ttl from st).0 ≡ true
      → IsOrdered from attempts t
      → t < from + (ttl / leader_second) * leader_second
      → (try_persona_leader other ttl t
          (attempt_all ttl attempts (try_persona_leader pod ttl from st).1)).0
        ≡ true
      → other ≡ pod
  try_persona_leader-one_leader pod other ttl from t attempts st won ordered early again =
      let until = from + (ttl / leader_second) * leader_second in
      let st' = attempt_all ttl attempts (try_persona_leader pod ttl from st).1 in
      let held =
        attempt_all-Held pod ttl from until t attempts (try_persona_leader pod ttl from st).1
          (omega arith) (won-Held pod ttl from st won) ordered t (omega arith) early in
      elim (String-cases pod other) [
        | inl same ↦ sym same
        | inr differ ↦
            ground (arith, again, ap (λ p. p.0) (blocked other pod ttl t st' held differ))
      ]

  -- Attempts of other pods, before a moment.
  abbrev pub AllOthers : String → Time → List (Time × String) → Type 0
  AllOthers pod until [] = Unit {0}
  AllOthers pod until ((now, other) ∷ rest) =
      (now < until) × (other ≢ pod) × AllOthers pod until rest

  others_lose :
      (pod : String) (ttl : ℕ) (from until t : Time) (attempts : List (Time × String))
      (st : k.Store)
      → Held pod from until st
      → IsOrdered from attempts t
      → AllOthers pod until attempts
      → attempt_all ttl attempts st ≡ st
  unfolding attempt_all
  others_lose pod ttl from until t [] st h ordered others = refl
  others_lose pod ttl from until t ((now, other) ∷ rest) st h ordered others =
      ap (λ p. attempt_all ttl rest p.1)
        (blocked other pod ttl now st (h now ordered.0 others.0) (λ e. others.1 (sym e)))
      ∙ others_lose pod ttl now until t rest st (λ u le lt. h u (omega (arith, ordered.0)) lt)
          ordered.1 others.2

  free_lease :
      (pod : String) (ttl : ℕ) (now : Time) (st : k.Store)
      → leader_second ≤ ttl
      → k.get now key st ≡ none
      → (try_persona_leader pod ttl now st).0 ≡ true
  unfolding try_persona_leader take_lease
  free_lease pod ttl now st long free =
      let some_left : nat_eq (ttl / leader_second) 0 ≡ false = ground arith in
      rw (free, try_persona_leader) (rw (some_left, take_lease) refl)

  -- When a leader stops renewing a lease of at least a second, the first attempt of any pod after the
  -- lease has run out succeeds, whatever attempts other pods made before.
  pub try_persona_leader-succession :
      (pod other : String) (ttl : ℕ) (from t : Time) (attempts : List (Time × String))
      (st : k.Store)
      → leader_second ≤ ttl
      → (try_persona_leader pod ttl from st).0 ≡ true
      → IsOrdered from attempts t
      → AllOthers pod (from + (ttl / leader_second) * leader_second) attempts
      → from + (ttl / leader_second) * leader_second ≤ t
      → (try_persona_leader other ttl t
          (attempt_all ttl attempts (try_persona_leader pod ttl from st).1)).0
        ≡ true
  try_persona_leader-succession pod other ttl from t attempts st long won ordered others late =
      let until = from + (ttl / leader_second) * leader_second in
      let st₁ = k.set_ex from key pod (ttl / leader_second) st in
      elim (try_persona_leader-cases pod ttl from st) [
        | inr lost ↦ ground (arith, won, ap (λ p. p.0) lost)
        | inl taken ↦
            let same : attempt_all ttl attempts (try_persona_leader pod ttl from st).1 ≡ st₁ =
              others_lose pod ttl from until t attempts (try_persona_leader pod ttl from st).1
                (won-Held pod ttl from st won) ordered others
              ∙ ap (λ p. p.1) taken in
            ap (λ x. (try_persona_leader other ttl t x).0) same
            ∙ free_lease other ttl t st₁ long
                (k.expires from t key pod (ttl / leader_second) st late)
      ]
