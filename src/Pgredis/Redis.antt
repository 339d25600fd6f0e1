-- ===== src/Pgredis/Redis.antt =====
-- backend/internal/pgredis/coordinator.go: the keys of Redis, the assignment script as a function of
-- them, and handlePair and drainAssignments of lifecycle.go over the tables and the keys. The lists and
-- hashes of Redis are lists and maps. Commands succeed. Nothing reads the time to live of a lock, which
-- is left out. The three keys of a request's routing, which are set and deleted together, are a record.
pub mod Oldest
pub mod Passing
pub mod Scan
pub mod Drain
pub mod Tracked
pub mod Tracking
pub mod Lease
use deeperseek.Core.Matching.{is_persona, assignment_of}
use deeperseek.Core.State.{session_among, is_unset, kind_or_human}
use deeperseek.Core.Types.{
  Time, Session, Request, RequestStatus, assigned, queued, Kind, human, AssignedRequest,
}
use deeperseek.Pgredis.Creation.{is_queued}
use deeperseek.Pgredis.Tables.{Db, update_row_if}
use deeperseek.Prelude.{
  ℕ, zero, suc, ◌+◌, ◌-◌, ◌/◌, String, Bool, true, false, not, ◌&&◌, ◌||◌, Option, none, some, List,
  [], ◌∷◌, ◌++◌, length, without, Dict, lookup, insert, delete, at, ◌==◌, leb, if◌then◌else◌,
}

pub record Routing : Type 0 where
  pub kind : Kind
  pub allow_ai : Bool
  pub preferred : String

-- `presence` has scores in milliseconds. `inbox` is what is published to the responders.
pub record Redis : Type 0 where
  pub queue : List String
  pub available : List String
  pub presence : Dict ℕ
  pub accept_ai : Dict Bool
  pub kinds : Dict Kind
  pub routing : Dict Routing
  pub locks : Dict String
  pub inbox : List (String × AssignedRequest)

abbrev pub presence_ttl : ℕ
presence_ttl = 15000000000

abbrev pub unix_milli : Time → ℕ
unix_milli t = t / 1000000

unfoldable pub min_fresh : Time → ℕ
min_fresh now = unix_milli (now - presence_ttl)

unfoldable pub set_request_routing : String → Kind → Bool → String → Redis → Redis
set_request_routing id kind allow preferred r = record r {
  routing = insert id (record { kind = kind; allow_ai = allow; preferred = preferred }) r.routing;
}

unfoldable pub clear_request_routing : String → Redis → Redis
clear_request_routing id r = record r { routing = delete id r.routing }

unfoldable pub enqueue_request : String → Redis → Redis
enqueue_request id r = record r { queue = r.queue ++ id ∷ [] }

unfoldable pub remove_queued : String → Redis → Redis
remove_queued id r = record r { queue = without id r.queue }

unfoldable pub heartbeat : Time → String → Redis → Redis
heartbeat now sid r = record r { presence = insert sid (unix_milli now) r.presence }

unfoldable pub drop_presence : String → Redis → Redis
drop_presence sid r = record r { presence = delete sid r.presence }

unfoldable pub add_available : String → Redis → Redis
add_available sid r = record r { available = without sid r.available ++ sid ∷ [] }

unfoldable pub remove_available : String → Redis → Redis
remove_available sid r = record r { available = without sid r.available }

unfoldable pub release_lock : String → Redis → Redis
release_lock id r = record r { locks = delete id r.locks }

abbrev pub is_fresh : ℕ → Option ℕ → Bool
is_fresh fresh none = false
is_fresh fresh (some score) = leb fresh score

unfoldable pub is_present : ℕ → Redis → String → Bool
is_present fresh r sid = is_fresh fresh (lookup sid r.presence)

abbrev pub default_routing : Routing
default_routing = record { kind = human; allow_ai = true; preferred = "" }

unfoldable pub preferred_of : Redis → String → String
preferred_of r id = (at default_routing id r.routing).preferred

-- The body of the loop over the queue.
unfoldable pub is_compatible : Redis → String → String → Bool
unfolding preferred_of
is_compatible r sid id =
    let preferred = preferred_of r id in
    let route = at default_routing id r.routing in
    let persona = is_persona (at human sid r.kinds) in
    (is_unset preferred || preferred == sid)
    && not (persona && not route.allow_ai)
    && not (is_persona route.kind && (not (at true sid r.accept_ai) || persona))

unfoldable pub first_compatible : Redis → String → List String → Option String
first_compatible r sid [] = none
first_compatible r sid (id ∷ ids) =
    if is_compatible r sid id then some id else first_compatible r sid ids

-- `LREM key 1 x`
unfoldable pub remove_first : String → List String → List String
remove_first x [] = []
remove_first x (y ∷ ys) = if y == x then ys else y ∷ remove_first x ys

unfoldable pub forget : String → Redis → Redis
forget sid r = record r { accept_ai = delete sid r.accept_ai; kinds = delete sid r.kinds }

unfoldable pub pair_up : String → String → List String → Redis → Redis
pair_up id sid available r = record r {
  available = available;
  queue = remove_first id r.queue;
  locks = insert id sid r.locks;
}

-- The loop of the script, on what is left of `avail`; restoreSkipped puts `skipped` back in front.
unfoldable pub assign_from :
    ℕ → List String → List String → Redis → Option (String × String) × Redis
assign_from fresh skipped [] r = (none, record r { available = skipped })
assign_from fresh skipped (sid ∷ rest) r = elim (is_present fresh r sid) [
  | false ↦ assign_from fresh skipped rest (forget sid r)
  | true ↦ elim (first_compatible r sid r.queue) [
    | some id ↦ (some (id, sid), pair_up id sid (skipped ++ rest) r)
    | none ↦ assign_from fresh (skipped ++ sid ∷ []) rest r
  ]
]

unfoldable pub assign_next : Time → Redis → Option (String × String) × Redis
assign_next now r = assign_from (min_fresh now) [] r.available r

pub record Cluster : Type 0 where
  pub db : Db
  pub redis : Redis

abbrev pub set_assigned : Session → Time → Request → Request
set_assigned session now r = record r {
  status = assigned;
  responder_session_id = session.id;
  responder_user_id = session.user_id;
  responder_guest = session.guest;
  responder_kind = kind_or_human session.kind;
  responder_display = session.nickname;
  updated_at = now;
}

-- `status = 'queued' AND (preferred = '' OR preferred = $1)`
unfoldable pub is_assignable : String → Request → Bool
is_assignable sid r =
    is_queued r.status
    && (is_unset r.preferred_responder_session_id || r.preferred_responder_session_id == sid)

unfoldable pub publish_assignment : String → Option Request → Redis → Redis
publish_assignment sid none r = r
publish_assignment sid (some row) r = record r { inbox = r.inbox ++ (sid, assignment_of row) ∷ [] }

unfoldable pub handle_pair : Time → String → String → Cluster → Cluster
handle_pair now id sid c = elim (session_among sid c.db.sessions) [
  | none ↦ record c { redis = enqueue_request id (release_lock id c.redis) }
  | some session ↦
      let (affected, db) = update_row_if id (is_assignable sid) (set_assigned session now) c.db in
      if affected
      then record { db = db; redis = publish_assignment sid (lookup id db.requests) c.redis }
      else record { db = db; redis = add_available sid (release_lock id c.redis) }
]

-- The loop, at one moment and on fuel; `none` when the fuel is spent.
unfoldable pub drain : ℕ → Time → Cluster → Option Cluster
drain zero now c = none
drain (suc fuel) now c =
    let (pair, redis) = assign_next now c.redis in
    elim pair [
      | none ↦ some (record c { redis = redis })
      | some (id, sid) ↦ drain fuel now (handle_pair now id sid (record c { redis = redis }))
    ]

unfoldable pub drain_assignments : Time → Cluster → Option Cluster
drain_assignments now c = drain (suc (length c.redis.available + length c.redis.queue)) now c
