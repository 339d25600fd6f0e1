-- ===== src/Core/History.antt =====
-- Histories of `Service`: every exported operation that writes the state, as a call. The mutex makes
-- each run of the program a sequence of calls.
use deeperseek.Core.Accounts.{Bcrypt, register, login, guest_session, persona_session}
use deeperseek.Core.Conversations.{
  create_conversation, rename_conversation, set_conversation_archived, delete_conversation,
  append_conversation_message,
}
use deeperseek.Core.Reactions.{react}
use deeperseek.Core.Requests.{
  create_request, create_targeted_request, acquire_fallback_assignment,
  cancel_before_first_fragment, subscribe,
}
use deeperseek.Core.Responders.{
  register_responder, unregister_responder, mark_responder_available, resume_responder,
  submit_fragment, finish, skip,
}
use deeperseek.Core.State.{Service, new_service}
use deeperseek.Core.Timeouts.{sweep_timeouts}
use deeperseek.Core.Types.{Time, Message, Reaction}
use deeperseek.Core.Valid.{IsValid}
use deeperseek.Core.Valid.Others.{
  register-IsValid, login-IsValid, guest_session-IsValid, persona_session-IsValid, react-IsValid,
  register_responder-IsValid, subscribe-IsValid, resume_responder-IsValid,
  mark_responder_available-IsValid, create_conversation-IsValid, rename_conversation-IsValid,
  set_conversation_archived-IsValid, delete_conversation-IsValid,
  append_conversation_message-IsValid,
}
use deeperseek.Core.Valid.Requesting.{
  IsFresh, create_request-Created, create_targeted_request-Created,
  acquire_fallback_assignment-IsValid, cancel_before_first_fragment-IsValid,
}
use deeperseek.Core.Valid.Responding.{unregister_responder-IsValid, finish-IsValid, skip-IsValid}
use deeperseek.Core.Valid.Submitting.{submit_fragment-IsValid}
use deeperseek.Core.Valid.Sweeping.{sweep_timeouts-Finished}
use deeperseek.Prelude.{ℕ, String, Bool, Option, List, ℤ, refl, lookup}

pub data Call : Type 0 where
  registers : (salt account nickname password repeated : String) → Call
  logs_in : (account password : String) → Call
  enters : (nickname : String) → Call
  enters_persona : (nickname : String) → Call
  creates : (token model : String) → List Message → (max_output : ℤ) → Option Bool → Call
  targets : (token model : String) → List Message → (max_output : ℤ) → (preferred : String) → Call
  falls_back : (id : String) → Call
  cancels : (id : String) → Call
  subscribes : (id : String) → Call
  connects : (token : String) → Call
  disconnects : (session : String) → Call
  marks_available : (session : String) → Option Bool → Call
  resumes : (session : String) → Call
  submits : (session : String) → (seq : ℤ) → (text : String) → Call
  finishes : (session : String) → Call
  skips : (session : String) → (later : Time) → Call
  sweeps : (order : List String) → (assigned_limit streaming_limit : ℕ) → Call
  reacts : (token id : String) → Reaction → (later : Time) → Call
  opens_conversation : (token title : String) → Call
  renames : (token id title : String) → Call
  archives : (token id : String) → Bool → Call
  deletes : (token id : String) → Call
  appends : (token id role content source_kind request_id : String) → Call

module _ (b : Bcrypt) where
  -- The state after a call at a time.
  unfoldable pub step : Time → Call → Service → Service
  step now (registers salt account nickname password repeated) s =
      (register b salt account nickname password repeated now s).1
  step now (logs_in account password) s = (login b account password now s).1
  step now (enters nickname) s = (guest_session nickname now s).1
  step now (enters_persona nickname) s = (persona_session nickname now s).1
  step now (creates token model messages max_output allow_ai) s =
      (create_request token model messages max_output allow_ai now s).1
  step now (targets token model messages max_output preferred) s =
      (create_targeted_request token model messages max_output preferred now s).1
  step now (falls_back id) s = (acquire_fallback_assignment id now s).1
  step now (cancels id) s = (cancel_before_first_fragment id now s).1
  step now (subscribes id) s = (subscribe id s).1
  step now (connects token) s = (register_responder token s).1
  step now (disconnects session) s = unregister_responder session now s
  step now (marks_available session accept) s = (mark_responder_available session accept now s).1
  step now (resumes session) s = (resume_responder session now s).1
  step now (submits session seq text) s = (submit_fragment session seq text now s).1
  step now (finishes session) s = (finish session now s).1
  step now (skips session later) s = (skip session now later s).1
  step now (sweeps order assigned_limit streaming_limit) s =
      (sweep_timeouts order now assigned_limit streaming_limit s).1
  step now (reacts token id reaction later) s = (react token id reaction now later s).1
  step now (opens_conversation token title) s = (create_conversation token title now s).1
  step now (renames token id title) s = (rename_conversation token id title now s).1
  step now (archives token id archived) s = (set_conversation_archived token id archived now s).1
  step now (deletes token id) s = (delete_conversation token id s).1
  step now (appends token id role content source_kind request_id) s =
      (append_conversation_message token id role content source_kind request_id now s).1

  -- What random ids give: a creation draws an id that is not in use.
  abbrev pub DrawsFresh : Call → Service → Type 0
  DrawsFresh (creates token model messages max_output allow_ai) s = IsFresh s
  DrawsFresh (targets token model messages max_output preferred) s = IsFresh s
  DrawsFresh _ s = Unit

  -- The states that a history of calls reaches from a new service.
  pub data Reaches (entropy : ℕ → String) : Service → Type 0 where
    start : Reaches entropy (new_service entropy)
    call :
        {s : Service} (now : Time) (c : Call)
        → Reaches entropy s
        → DrawsFresh c s
        → Reaches entropy (step now c s)

  pub new_service-IsValid : (entropy : ℕ → String) → IsValid (new_service entropy)
  unfolding new_service lookup
  new_service-IsValid entropy = record {
    tables = record { once = tt; staged = λ k. (refl, refl); held = λ x k e. cc };
    named = tt;
  }

  pub step-IsValid :
      (now : Time) (c : Call) (s : Service) → DrawsFresh c s → IsValid s → IsValid (step now c s)
  unfolding step
  step-IsValid now (registers salt account nickname password repeated) s f v =
      register-IsValid b salt account nickname password repeated now s v
  step-IsValid now (logs_in account password) s f v = login-IsValid b account password now s v
  step-IsValid now (enters nickname) s f v = guest_session-IsValid nickname now s v
  step-IsValid now (enters_persona nickname) s f v = persona_session-IsValid nickname now s v
  step-IsValid now (creates token model messages max_output allow_ai) s f v =
      (create_request-Created s v f token model messages max_output allow_ai now).valid
  step-IsValid now (targets token model messages max_output preferred) s f v =
      (create_targeted_request-Created s v f token model messages max_output preferred now).valid
  step-IsValid now (falls_back id) s f v = acquire_fallback_assignment-IsValid s id now v
  step-IsValid now (cancels id) s f v = cancel_before_first_fragment-IsValid s id now v
  step-IsValid now (subscribes id) s f v = subscribe-IsValid id s v
  step-IsValid now (connects token) s f v = register_responder-IsValid token s v
  step-IsValid now (disconnects session) s f v = unregister_responder-IsValid s session now v
  step-IsValid now (marks_available session accept) s f v =
      mark_responder_available-IsValid session accept now s v
  step-IsValid now (resumes session) s f v = resume_responder-IsValid session now s v
  step-IsValid now (submits session seq text) s f v =
      submit_fragment-IsValid session seq text now s v
  step-IsValid now (finishes session) s f v = finish-IsValid s session now v
  step-IsValid now (skips session later) s f v = skip-IsValid s session now later v
  step-IsValid now (sweeps order assigned_limit streaming_limit) s f v =
      (sweep_timeouts-Finished now assigned_limit streaming_limit order s v).valid
  step-IsValid now (reacts token id reaction later) s f v =
      react-IsValid token id reaction now later s v
  step-IsValid now (opens_conversation token title) s f v =
      create_conversation-IsValid token title now s v
  step-IsValid now (renames token id title) s f v =
      rename_conversation-IsValid token id s v title now
  step-IsValid now (archives token id archived) s f v =
      set_conversation_archived-IsValid token id s v archived now
  step-IsValid now (deletes token id) s f v = delete_conversation-IsValid token id s v
  step-IsValid now (appends token id role content source_kind request_id) s f v =
      append_conversation_message-IsValid token id s v role content source_kind request_id now

  -- In every state that a history reaches, each request's status agrees with the queue, with the
  -- table of assignments and with its fragments, and each assignment is of a request that is held.
  pub Reaches-IsValid : (entropy : ℕ → String) {s : Service} → Reaches entropy s → IsValid s
  Reaches-IsValid entropy start = new_service-IsValid entropy
  Reaches-IsValid entropy (call now c h fresh) =
      step-IsValid now c _ fresh (Reaches-IsValid entropy h)
