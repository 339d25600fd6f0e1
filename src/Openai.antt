-- ===== src/Openai.antt =====
-- backend/internal/httpapi/openai.go: the chat endpoint. The time stamp of a response is left out, and
-- a value that goes out as JSON is its record. What select gives a loop is a list of inputs.
pub mod Same
use deeperseek.Core.Conversations.{append_conversation_message}
use deeperseek.Core.Requests.{create_request, request_snapshot}
use deeperseek.Core.State.{Service, Result, ok, err, is_unset}
use deeperseek.Core.Types.{Time, Message, Request, StreamEvent, fragment, done, FinishReason, Kind}
use deeperseek.Core.Types
use deeperseek.Prelude.{
  String, ◌<>◌, Bool, true, false, Option, none, some, List, [], ◌∷◌, ◌++◌, ◌==◌, ℤ, if◌then◌else◌,
}

pub record ChatCompletionRequest : Type 0 where
  pub model : String
  pub messages : List Message
  pub stream : Bool
  pub max_tokens : ℤ
  pub conversation_id : String
  pub allow_ai_answers : Option Bool

-- A chunk of the stream: `delta` is the content, or `none` for the empty map.
pub record Chunk : Type 0 where
  pub id : String
  pub model : String
  pub delta : Option String
  pub finish_reason : Option FinishReason
  pub responder_kind : Kind

pub data Line : Type 0 where
  waiting : Line
  chunk_line : Chunk → Line
  done_line : Line

-- An event comes with the responder's kind of the snapshot that is taken after it, if that succeeds.
-- The stream alone has heartbeats.
pub data Input : Type 0 where
  disconnects heartbeats closes : Input
  receives : StreamEvent → Option Kind → Input

-- How a loop ends: `pending` while it waits for more, `cancelled` after CancelBeforeFirstFragment,
-- `unfinished` when the channel is closed, `persisted` after persistAssistant.
pub data Ending : Type 0 where
  pending cancelled unfinished persisted : Ending

unfoldable pub stream_chunk : Request → Option String → Option FinishReason → Option Kind → Chunk
stream_chunk r delta reason kind = record {
  id = "chatcmpl_" <> r.id;
  model = r.model;
  delta = delta;
  finish_reason = reason;
  responder_kind = elim kind [ none ↦ Kind.unset | some k ↦ k ];
}

abbrev pub send : Line → List Line × Ending → List Line × Ending
send line (lines, ending) = (line ∷ lines, ending)

-- The loop of streamChatCompletion: what it writes, and how it ends.
unfoldable pub stream_chat_completion : Request → List Input → List Line × Ending
unfolding stream_chunk
stream_chat_completion r [] = ([], pending)
stream_chat_completion r (disconnects ∷ rest) = ([], cancelled)
stream_chat_completion r (closes ∷ rest) = ([], unfinished)
stream_chat_completion r (heartbeats ∷ rest) = send waiting (stream_chat_completion r rest)
stream_chat_completion r (receives event kind ∷ rest) = elim event.type [
  | fragment ↦
      send (chunk_line (stream_chunk r (some event.text) none kind)) (stream_chat_completion r rest)
  | done ↦
      (chunk_line (stream_chunk r none (some event.finish_reason) kind) ∷ done_line ∷ [], persisted)
]

-- The response of blockingChatCompletion; it does not answer a client that is gone.
pub data Reply : Type 0 where
  answers : (id model content : String) → FinishReason → Reply
  stream_unavailable nothing unanswered : Reply

-- The loop of blockingChatCompletion, with the content so far.
unfoldable pub blocking_from : Request → String → List Input → Reply
blocking_from r content [] = unanswered
blocking_from r content (disconnects ∷ rest) = nothing
blocking_from r content (closes ∷ rest) = stream_unavailable
blocking_from r content (heartbeats ∷ rest) = blocking_from r content rest
blocking_from r content (receives event kind ∷ rest) = elim event.type [
  | fragment ↦ blocking_from r (content <> event.text) rest
  | done ↦ answers ("chatcmpl_" <> r.id) r.model content event.finish_reason
]

unfoldable pub blocking_chat_completion : Request → List Input → Reply
blocking_chat_completion r inputs = blocking_from r "" inputs

abbrev last_message : List Message → Option Message
last_message [] = none
last_message (m ∷ []) = some m
last_message (m ∷ n ∷ ms) = last_message (n ∷ ms)

-- The new turn of the user is kept in the conversation that the request names, if it can be.
unfoldable pub bind_conversation :
    String → ChatCompletionRequest → String → Time → Service → Service
bind_conversation token body id now s =
    if is_unset body.conversation_id then s else elim (last_message body.messages) [
      | none ↦ s
      | some m ↦
          if m.role == "user"
          then (append_conversation_message token body.conversation_id "user" m.content "" id now
              s).1
          else s
    ]

-- handleChatCompletions up to scheduleFallback, for a body that is decoded. The clock is read twice.
unfoldable pub open_chat :
    String → ChatCompletionRequest → Time → Time → Service → Result Request × Service
open_chat token body now now' s =
    let model = if is_unset body.model then "deeperseek-human" else body.model in
    let allow : Bool = elim body.allow_ai_answers [ none ↦ true | some b ↦ b ] in
    let (result, s₁) =
      create_request token model body.messages body.max_tokens (some allow) now s in
    elim result [ err e ↦ (err e, s₁) | ok r ↦ (ok r, bind_conversation token body r.id now' s₁) ]

abbrev pub kind_text : Kind → String
kind_text Kind.unset = ""
kind_text Kind.human = "human"
kind_text Kind.ai_persona = "ai_persona"
kind_text Kind.fallback = "fallback"

unfoldable pub persist_assistant : String → String → String → Time → Service → Service
persist_assistant conversation token id now s =
    if is_unset conversation then s else elim (request_snapshot id s) [
      | err e ↦ s
      | ok (r, text) ↦
          if is_unset text
          then s
          else (append_conversation_message token conversation "assistant" text
              (kind_text r.responder_kind) id now s).1
    ]
