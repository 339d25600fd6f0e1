-- ===== src/Core/State.antt =====
-- backend/internal/core/service.go: the errors, the `Service` record and the helpers that read it
-- or write one field. Each operation is a function of the state, since the code runs it under one
-- mutex; it returns its result and the state that it leaves, also beside an error.
-- Random texts come from `entropy`, in the order in which the code draws them. A channel is the list
-- of the messages in its buffer.
use deeperseek.Core.Types.{
  Time, Message, User, Session, Request, Conversation, ConversationMessage, Fragment, PointEntry,
  EntryKind, StreamEvent, AssignedRequest, Kind, unset, human, RequestStatus, completed,
  timeout_completed, abandoned, input_limit_chars,
}
use deeperseek.Prelude.{
  ℕ, suc, ◌+◌, String, count, ◌<>◌, Bool, true, false, Option, none, some, List, [], ◌∷◌, ◌++◌, ℤ,
  Dict, insert, at, ◌==◌, ltb, if◌then◌else◌, without,
}

-- `panic` stands for a run-time panic of Go: a nil dereference or an index out of range.
pub data Error : Type 0 where
  account_exists invalid_credentials unauthorized password_mismatch insufficient_points
        input_too_large output_too_large no_active_assignment committed_immutable already_completed
        cannot_skip_committed reaction_not_allowed request_not_found responder_unavailable
        conversation_not_found :
      Error
  account_fields_required hashing_failed client_seq_not_positive fragment_text_required
        finish_before_fragment invalid_reaction panic :
      Error
  -- The error of a query, which the PostgreSQL backend alone returns.
  storage_failed : Error

pub data Result {ℓ} (A : Type ℓ) : Type ℓ where
  ok : A → Result A
  err : Error → Result A

-- A stream channel of a subscriber, known by `chan`.
pub record Subscriber : Type 0 where
  pub chan : ℕ
  pub buffer : List StreamEvent

pub record Service : Type 0 where
  pub users_by_account : Dict String
  pub users : Dict User
  pub sessions_by_tok : Dict Session
  pub ledger : List PointEntry
  pub requests : Dict Request
  pub fragments : Dict (List Fragment)
  pub seq_seen : Dict (Dict Fragment)
  pub queue : List String
  pub active_by_res : Dict String
  pub available : List String
  pub responders : Dict (List AssignedRequest)
  pub accept_ai : Dict Bool
  pub subscribers : Dict (List Subscriber)
  pub conversations : Dict Conversation
  pub conv_messages : Dict (List ConversationMessage)
  pub entropy : ℕ → String
  pub drawn : ℕ
  pub next_chan : ℕ

unfoldable pub new_service : (ℕ → String) → Service
new_service entropy = record {
  users_by_account = [];
  users = [];
  sessions_by_tok = [];
  ledger = [];
  requests = [];
  fragments = [];
  seq_seen = [];
  queue = [];
  active_by_res = [];
  available = [];
  responders = [];
  accept_ai = [];
  subscribers = [];
  conversations = [];
  conv_messages = [];
  entropy = entropy;
  drawn = 0;
  next_chan = 0;
}

-- `newID`, which takes the next text of `entropy` behind the prefix.
unfoldable pub new_id : String → Service → String × Service
new_id prefix s = ((prefix <> "_") <> s.entropy s.drawn, record s { drawn = suc s.drawn })

unfoldable pub kind_or_human : Kind → Kind
kind_or_human unset = human
kind_or_human Kind.human = human
kind_or_human Kind.ai_persona = Kind.ai_persona
kind_or_human Kind.fallback = Kind.fallback

unfoldable pub is_terminal : RequestStatus → Bool
is_terminal completed = true
is_terminal timeout_completed = true
is_terminal abandoned = true
is_terminal RequestStatus.created = false
is_terminal RequestStatus.queued = false
is_terminal RequestStatus.assigned = false
is_terminal RequestStatus.typing = false
is_terminal RequestStatus.streaming = false
is_terminal RequestStatus.requeued = false

-- A pointer to a request is its record: writing through it replaces the record kept at its id.
unfoldable pub put_request : Request → Service → Service
put_request r s = record s { requests = insert r.id r s.requests }

abbrev pub fragments_of : Service → String → List Fragment
fragments_of s id = at [] id s.fragments

abbrev pub active_request : Service → String → String
active_request s session = at "" session s.active_by_res

unfoldable pub session_among : String → Dict Session → Option Session
session_among id [] = none
session_among id ((token, x) ∷ m) = if x.id == id then some x else session_among id m

unfoldable pub session_by_id_locked : Service → String → Option Session
session_by_id_locked s id = session_among id s.sessions_by_tok

abbrev pub join_text : List Fragment → String
join_text [] = ""
join_text (f ∷ fs) = f.text <> join_text fs

unfoldable pub answer_text_locked : Service → String → String
answer_text_locked s id = join_text (fragments_of s id)

abbrev pub input_chars : List Message → ℕ
input_chars [] = 0
input_chars (m ∷ ms) = count m.content + input_chars ms

unfoldable pub validate_input : List Message → Option Error
validate_input messages =
    if ltb input_limit_chars (input_chars messages) then some input_too_large else none

unfoldable pub add_ledger_locked : String → String → EntryKind → ℤ → Time → Service → Service
unfolding new_id
add_ledger_locked user request kind delta now s =
    let (id, s') = new_id "pts" s in
    record s' {
      ledger =
          s'.ledger
          ++ record {
            id = id;
            user_id = user;
            request_id = request;
            kind = kind;
            delta = delta;
            created_at = now;
          }
            ∷ [];
    }

-- A channel of capacity 4 for assignments; 64 for stream events.
abbrev pub assignment_capacity : ℕ
assignment_capacity = 4

abbrev pub stream_capacity : ℕ
stream_capacity = 64

unfoldable pub remove_available_locked : String → Service → Service
remove_available_locked session s = record s { available = without session s.available }

unfoldable pub remove_queued_request_locked : String → Service → Service
remove_queued_request_locked id s = record s { queue = without id s.queue }

abbrev pub is_unset : String → Bool
is_unset id = id == ""
