-- ===== src/Pgredis/Departures/Law.antt =====
-- The departure of a responder, as a transaction and in the in-memory engine.
use deeperseek.Core.Responders
use deeperseek.Core.State.{Service, remove_available_locked}
use deeperseek.Pgredis.Departures
use deeperseek.Pgredis.Refines.{Refines}
use deeperseek.Prelude.{String, delete}

-- The state that a responder leaves who held nothing.
abbrev without_responder : String → Service → Service
without_responder session s =
    remove_available_locked session (record s {
      responders = delete session s.responders;
      accept_ai = delete session s.accept_ai;
    })
