-- ===== src/Persona.antt =====
-- backend/internal/persona/manager.go: the manager that keeps personas online while humans are.
pub mod Answering
pub mod Pool
pub mod Refused
use deeperseek.Chunks.{chunk_runes}
use deeperseek.Core.Accounts.{persona_session}
use deeperseek.Core.Points.{AuthResult}
use deeperseek.Core.Requests.{request_snapshot}
use deeperseek.Core.Responders.{register_responder, submit_fragment, finish, skip}
use deeperseek.Core.State.{Service, Result, ok, err, is_unset, kind_or_human}
use deeperseek.Core.Types.{second, Time, Message, Kind, human, AssignedRequest}
use deeperseek.Prelude.{
  ℕ, zero, suc, ◌+◌, ◌-◌, ◌*◌, String, ◌<>◌, Bool, true, false, not, ◌&&◌, ◌||◌, Option, none, some,
  List, [], ◌∷◌, ◌++◌, ℤ, pos, decimal, contains, without, length, trim_space, count, take_runes,
  ltb, leb, nat_eq, if◌then◌else◌,
}
use Prim.Native.Char.{Char, code}

-- Durations are in nanoseconds; of the configuration of the model it is kept whether there is one,
-- and `chunk_size` is ChunkRunes.
pub record Config : Type 0 where
  pub enabled : Bool
  pub poll_interval : ℕ
  pub lease_ttl : ℕ
  pub max_responders : ℕ
  pub target_queue : ℕ
  pub answer_runes : ℤ
  pub chunk_size : ℤ
  pub chunk_delay : ℕ
  pub skip_backoff : ℕ
  pub follow_up_queue_timeout : ℕ
  pub llm_enabled : Bool

abbrev pub default_config : Bool → Config
default_config llm_enabled = record {
  enabled = true;
  poll_interval = 5 * second;
  lease_ttl = 15 * second;
  max_responders = 2;
  target_queue = 2;
  answer_runes = pos 600;
  chunk_size = pos 6;
  chunk_delay = 90000000;
  skip_backoff = 2 * second;
  follow_up_queue_timeout = 30 * second;
  llm_enabled = llm_enabled;
}

-- The manager beside its backend. `responders` are the keys of its map; `cancelled` are the sessions
-- whose cancel function was called and whose goroutine has not yet unwound.
pub record Manager : Type 0 where
  pub backend : Service
  pub responders : List String
  pub cancelled : List String
  pub posting : Bool
  pub active_conversations : ℕ
  pub name_seq : ℕ

-- `fmt.Sprintf("%02d", n)`
abbrev two_digits : ℕ → String
two_digits n = if ltb n 10 then "0" <> decimal (pos n) else decimal (pos n)

unfoldable pub next_name : Manager → String × Manager
next_name m = ("深思伪人-" <> two_digits (suc m.name_seq), record m { name_seq = suc m.name_seq })

-- `m.responders[sid] = cancel`
unfoldable pub add_responder : String → Manager → Manager
add_responder sid m = record m {
  responders = if contains m.responders sid then m.responders else m.responders ++ sid ∷ [];
}

-- A registered persona is kept, and an error ends the start.
unfoldable pub enlist : Result String × Service → Manager → Manager
enlist (err e, s) m = record m { backend = s }
enlist (ok sid, s) m = add_responder sid (record m { backend = s })

unfoldable pub start_as : Result AuthResult × Service → Manager → Manager
start_as (err e, s) m = record m { backend = s }
start_as (ok auth, s) m = enlist (register_responder auth.token s) m

unfoldable pub start_responder : Time → Manager → Manager
start_responder now m =
    let (name, m₁) = next_name m in start_as (persona_session name now m₁.backend) m₁

-- `for have < want`
unfoldable pub start_responders : ℕ → Time → Manager → Manager
start_responders zero now m = m
start_responders (suc n) now m = start_responders n now (start_responder now m)

-- The loop over the map: the sessions that are let go, and those that are kept.
unfoldable pub trim_surplus : ℕ → ℕ → List String → List String × List String
trim_surplus have want [] = ([], [])
trim_surplus have want (sid ∷ sids) =
    let (gone, kept) = trim_surplus (have - 1) want sids in
    if leb have want then ([], sid ∷ sids) else (sid ∷ gone, kept)

unfoldable pub ensure_responders : ℕ → Time → Manager → Manager
ensure_responders want now m =
    let (gone, kept) = trim_surplus (length m.responders) want m.responders in
    let have = length m.responders - length gone in
    start_responders (want - have) now
      (record m { responders = kept; cancelled = m.cancelled ++ gone })

-- Every goroutine is told to stop; each takes itself off the map when it unwinds.
unfoldable pub reap_all : Manager → Manager
reap_all m = record m { cancelled = m.cancelled ++ m.responders }

unfoldable pub begin_posting : Config → Manager → Bool × Manager
begin_posting cfg m =
    if m.posting || leb cfg.target_queue m.active_conversations
    then (false, m)
    else (true, record m { posting = true })

abbrev pub wanted : ℕ → Config → ℕ
wanted humans cfg = if ltb cfg.max_responders humans then cfg.max_responders else humans

-- `leader` is the answer of TryPersonaLeader. The Boolean tells whether a question is to be posted.
unfoldable pub tick : Config → Bool → Time → Manager → Bool × Manager
tick cfg leader now m =
    let humans = length m.backend.responders - length m.responders in
    if not leader
    then (false, reap_all m)
    else if ltb humans 1
    then (false, reap_all m)
    else (let m₁ = ensure_responders (wanted humans cfg) now m in
        if ltb (length m₁.backend.queue) cfg.target_queue
        then begin_posting cfg m₁
        else (false, m₁))
