-- ===== src/Core/Types.antt =====
-- backend/internal/core/types.go: the constants, the enumerations and the records. A time is a
-- number of nanoseconds, 0 for the zero time. `Kind`, `EntryKind` and `FinishReason` are the
-- string constants that the code uses, with the empty string as `unset`.
use deeperseek.Prelude.{ℕ, ◌*◌, String, Bool, List, ℤ}

abbrev pub Time : Type 0
Time = ℕ

abbrev pub signup_grant : ℕ
signup_grant = 20

abbrev pub question_cost : ℕ
question_cost = 5

abbrev pub base_answer_reward : ℕ
base_answer_reward = 10

abbrev pub input_limit_chars : ℕ
input_limit_chars = 100000

abbrev pub output_limit_chars : ℕ
output_limit_chars = 128000

abbrev pub second : ℕ
second = 1000000000

abbrev pub assigned_timeout : ℕ
assigned_timeout = 30 * second

abbrev pub streaming_inactivity_timeout : ℕ
streaming_inactivity_timeout = 60 * second

pub data RequestStatus : Type 0 where
  created queued assigned typing streaming completed timeout_completed requeued abandoned :
      RequestStatus

-- `other` is any string that is none of the three constants.
pub data Reaction : Type 0 where
  neutral like dislike : Reaction
  other : String → Reaction

pub data Kind : Type 0 where
  unset human ai_persona fallback : Kind

pub data FinishReason : Type 0 where
  unset stop length partial : FinishReason

pub record Message : Type 0 where
  pub role : String
  pub content : String

pub record User : Type 0 where
  pub id : String
  pub account_name : String
  pub nickname : String
  pub password_hash : String
  pub created_at : Time

pub record Session : Type 0 where
  pub id : String
  pub token : String
  pub user_id : String
  pub guest : Bool
  pub kind : Kind
  pub nickname : String
  pub created_at : Time

pub record Request : Type 0 where
  pub id : String
  pub requester_id : String
  pub requester_session_id : String
  pub requester_guest : Bool
  pub requester_kind : Kind
  pub allow_ai_answers : Bool
  pub messages : List Message
  pub model : String
  pub status : RequestStatus
  pub responder_session_id : String
  pub responder_user_id : String
  pub responder_guest : Bool
  pub responder_kind : Kind
  pub responder_display : String
  pub preferred_responder_session_id : String
  pub board_eligible : Bool
  pub frozen_points : ℕ
  pub question_charged : Bool
  pub output_limit : ℕ
  pub finish_reason : FinishReason
  pub reaction : Reaction
  pub created_at : Time
  pub updated_at : Time
  pub completed_at : Time

pub record Conversation : Type 0 where
  pub id : String
  pub owner_user_id : String
  pub guest_session_id : String
  pub title : String
  pub archived : Bool
  pub created_at : Time
  pub updated_at : Time

pub record ConversationMessage : Type 0 where
  pub id : String
  pub seq : ℕ
  pub role : String
  pub content : String
  pub source_kind : String
  pub request_id : String
  pub created_at : Time

pub record Fragment : Type 0 where
  pub id : String
  pub request_id : String
  pub responder_session_id : String
  pub client_seq : ℤ
  pub text : String
  pub created_at : Time

pub data EntryKind : Type 0 where
  signup question_charge answer_reward reaction_adjustment : EntryKind

pub record PointEntry : Type 0 where
  pub id : String
  pub user_id : String
  pub request_id : String
  pub kind : EntryKind
  pub delta : ℤ
  pub created_at : Time

pub record Balance : Type 0 where
  pub total : ℤ
  pub held : ℕ
  pub available : ℤ

pub data StreamEventType : Type 0 where
  fragment done : StreamEventType

pub record StreamEvent : Type 0 where
  pub type : StreamEventType
  pub request_id : String
  pub text : String
  pub finish_reason : FinishReason

pub record AssignedRequest : Type 0 where
  pub request_id : String
  pub requester_kind : Kind
  pub messages : List Message
  pub created_at : Time

pub record BoardTicket : Type 0 where
  pub request_id : String
  pub category : String
  pub status : RequestStatus
  pub responder_kind : Kind
  pub responder_display : String
  pub reaction : Reaction
  pub answer_length : ℕ
  pub created_at : Time
