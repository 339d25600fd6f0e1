-- ===== src/Persona/Pool.antt =====
-- The size of the pool of personas, against the humans that are online and the cap.
use deeperseek.Core.Types.{AssignedRequest}
use deeperseek.Persona.{Config, Manager}
use deeperseek.Prelude.{
  Dict, without, ◌+◌, ◌≤◌, String, Bool, false, List, [], ◌∷◌, ◌++◌, length, ◌≡◌, ◌⊎◌,
}

-- The sessions that are online.
abbrev pub online : Dict (List AssignedRequest) → List String
online [] = []
online ((sid, waiting) ∷ rest) = sid ∷ online rest

-- Those of a list that are none of some others.
abbrev pub others : List String → List String → List String
others [] sids = sids
others (p ∷ ps) sids = others ps (without p sids)

-- The humans: the sessions that are online and no persona of this manager, neither of its pool nor told
-- to stop.
abbrev pub humans_of : Manager → List String
humans_of m = others (m.responders ++ m.cancelled) (online m.backend.responders)

-- What a tick leaves of the pool, when it does not stop it: no more personas than there are humans, each
-- persona that was told to stop and may still be online counted as one, and no more than the cap.
pub record IsBounded (cfg : Config) (m m' : Manager) : Type 0 where
  pub below_humans : length m'.responders ≤ length (humans_of m) + length m.cancelled
  pub below_others : length m'.responders + length m.responders ≤ length m.backend.responders
  pub below_cap : length m'.responders ≤ cfg.max_responders

-- A tick that stops the pool: every persona in it is told to stop, and no other comes. It is not of the
-- leader, or no session is online that is not of the pool.
pub record IsReaped (leader : Bool) (m m' : Manager) : Type 0 where
  pub kept : m'.responders ≡ m.responders
  pub told : m'.cancelled ≡ (m.cancelled ++ m.responders)
  pub cause : (leader ≡ false) ⊎ (length m.backend.responders ≤ length m.responders)
