-- ===== src/Openai/Same.antt =====
-- The two forms of a response say the same, and what they say is the answer.
use text.Mathlib.TextLemmas.{nil-append, append_assoc, append-nil}
use deeperseek.Core.State.{ok, join_text}
use deeperseek.Core.Types.{
  Request, Fragment, StreamEvent, StreamEventType, fragment, done, FinishReason, Kind,
}
use deeperseek.Openai.{
  Chunk, Line, waiting, chunk_line, done_line, Input, disconnects, heartbeats, closes, receives,
  Ending, pending, cancelled, unfinished, persisted, stream_chunk, send, stream_chat_completion,
  Reply, answers, stream_unavailable, nothing, unanswered, blocking_from, blocking_chat_completion,
}
use deeperseek.Pgredis.Stream.{Wake, done_event, subscribe}
use deeperseek.Pgredis.Stream.Rows.{events}
use deeperseek.Pgredis.Stream.Whole.{IsTimeline, Ends, subscribe_whole}
use deeperseek.Pgredis.Tables.{Db}
use deeperseek.Prelude.{
  ℕ, ◌<◌, String, ◌<>◌, Option, none, some, List, [], ◌∷◌, ◌++◌, length, lookup, get_or, ◌≡◌, ◌⊎◌,
  inl, inr, refl, sym, ap, ◌∙◌,
}

-- What a client reads off a stream: the deltas put together, and the chunk that ends it.
abbrev pub content_of : List Line → String
content_of [] = ""
content_of (waiting ∷ lines) = content_of lines
content_of (done_line ∷ lines) = content_of lines
content_of (chunk_line c ∷ lines) = get_or c.delta "" <> content_of lines

abbrev last_chunk : Chunk → Option FinishReason → String → Option Reply → Option Reply
last_chunk c none text later = later
last_chunk c (some reason) text later = some (answers c.id c.model text reason)

abbrev pub end_of : String → List Line → Option Reply
end_of text [] = none
end_of text (waiting ∷ lines) = end_of text lines
end_of text (done_line ∷ lines) = end_of text lines
end_of text (chunk_line c ∷ lines) = last_chunk c c.finish_reason text (end_of text lines)

-- The response that the lines of a stream stand for.
abbrev pub assemble : List Line × Ending → Reply
assemble (lines, pending) = unanswered
assemble (lines, cancelled) = nothing
assemble (lines, unfinished) = stream_unavailable
assemble (lines, persisted) = get_or (end_of (content_of lines) lines) unanswered

abbrev after_text : String → Reply → Reply
after_text s (answers id model content reason) = answers id model (s <> content) reason
after_text s stream_unavailable = stream_unavailable
after_text s nothing = nothing
after_text s unanswered = unanswered

after_end : String → Option Reply → Option Reply
after_end s none = none
after_end s (some r) = some (after_text s r)

end_of-after_end :
    (s t : String) (lines : List Line) → end_of (s <> t) lines ≡ after_end s (end_of t lines)
unfolding after_end
end_of-after_end s t [] = refl
end_of-after_end s t (waiting ∷ lines) = end_of-after_end s t lines
end_of-after_end s t (done_line ∷ lines) = end_of-after_end s t lines
end_of-after_end s t (chunk_line c ∷ lines) = at_end c.finish_reason (end_of-after_end s t lines)
  where
    at_end :
        (o : Option FinishReason)
        → end_of (s <> t) lines ≡ after_end s (end_of t lines)
        → last_chunk c o (s <> t) (end_of (s <> t) lines)
          ≡ after_end s (last_chunk c o t (end_of t lines))
    at_end none ih = ih
    at_end (some reason) ih = refl

assemble-after_text :
    (r : Request) (s : String) (kind : Option Kind) (x : List Line × Ending)
    → assemble (send (chunk_line (stream_chunk r (some s) none kind)) x) ≡ after_text s (assemble x)
unfolding stream_chunk after_end
assemble-after_text r s kind (lines, pending) = refl
assemble-after_text r s kind (lines, cancelled) = refl
assemble-after_text r s kind (lines, unfinished) = refl
assemble-after_text r s kind (lines, persisted) =
    ap (λ o. get_or o unanswered) (end_of-after_end s (content_of lines) lines)
    ∙ at_end (end_of (content_of lines) lines)
  where
    at_end :
        (o : Option Reply) → get_or (after_end s o) unanswered ≡ after_text s (get_or o unanswered)
    at_end none = refl
    at_end (some x) = refl

assemble-waiting : (x : List Line × Ending) → assemble (send waiting x) ≡ assemble x
assemble-waiting (lines, pending) = refl
assemble-waiting (lines, cancelled) = refl
assemble-waiting (lines, unfinished) = refl
assemble-waiting (lines, persisted) = refl

after_text-append :
    (s t : String) (x : Reply) → after_text (s <> t) x ≡ after_text s (after_text t x)
after_text-append s t (answers id model content reason) =
    ap (λ c. answers id model c reason) (append_assoc s t content)
after_text-append s t stream_unavailable = refl
after_text-append s t nothing = refl
after_text-append s t unanswered = refl

after_text-nil : (x : Reply) → after_text "" x ≡ x
after_text-nil (answers id model content reason) =
    ap (λ c. answers id model c reason) (nil-append content)
after_text-nil stream_unavailable = refl
after_text-nil nothing = refl
after_text-nil unanswered = refl

event_cases : (t : StreamEventType) → (t ≡ fragment) ⊎ (t ≡ done)
event_cases fragment = inl refl
event_cases done = inr refl

blocking_from-assemble :
    (r : Request) (content : String) (inputs : List Input)
    → blocking_from r content inputs
      ≡ after_text content (assemble (stream_chat_completion r inputs))
unfolding blocking_from stream_chat_completion
blocking_from-assemble r content [] = refl
blocking_from-assemble r content (disconnects ∷ rest) = refl
blocking_from-assemble r content (closes ∷ rest) = refl
blocking_from-assemble r content (heartbeats ∷ rest) =
    blocking_from-assemble r content rest
    ∙ sym (ap (after_text content) (assemble-waiting (stream_chat_completion r rest)))
blocking_from-assemble r content (receives event kind ∷ rest) = elim (event_cases event.type) [
  | inl text ↦
      rw (text, blocking_from)
        ((blocking_from-assemble r (content <> event.text) rest
          ∙ after_text-append content event.text (assemble (stream_chat_completion r rest))
          ∙ sym (
              ap (after_text content)
                (assemble-after_text r event.text kind (stream_chat_completion r rest)))))
  | inr over ↦
      rw (over, blocking_from)
        ((ap (λ c. answers ("chatcmpl_" <> r.id) r.model c event.finish_reason)
          (sym (append-nil content) ∙ ap (λ t. content <> t) (sym (nil-append "")))))
]

-- Whatever the two loops of the endpoint are given: the blocking response is what a client puts
-- together from the stream. Its content is the deltas in order, its finish reason that of the last
-- chunk, and where one form gives no answer, neither does the other.
pub blocking_chat_completion-assemble :
    (r : Request) (inputs : List Input)
    → blocking_chat_completion r inputs ≡ assemble (stream_chat_completion r inputs)
unfolding blocking_chat_completion
blocking_chat_completion-assemble r inputs =
    blocking_from-assemble r "" inputs ∙ after_text-nil (assemble (stream_chat_completion r inputs))

-- What the inputs are when the loop gets all of some events before anything else.
abbrev pub received : List (Option Kind) → List StreamEvent → List Input
received kinds [] = []
received [] (e ∷ es) = receives e none ∷ received [] es
received (k ∷ kinds) (e ∷ es) = receives e k ∷ received kinds es

blocking_from-events :
    (r : Request) (id content : String) (reason : FinishReason) (kinds : List (Option Kind))
    (fs : List Fragment)
    → blocking_from r content (received kinds (events id fs ++ done_event id reason ∷ []))
      ≡ answers ("chatcmpl_" <> r.id) r.model (content <> join_text fs) reason
unfolding blocking_from
blocking_from-events r id content reason [] [] =
    ap (λ c. answers ("chatcmpl_" <> r.id) r.model c reason) (sym (append-nil content))
blocking_from-events r id content reason (k ∷ kinds) [] =
    ap (λ c. answers ("chatcmpl_" <> r.id) r.model c reason) (sym (append-nil content))
blocking_from-events r id content reason [] (f ∷ fs) =
    blocking_from-events r id (content <> f.text) reason [] fs
    ∙ ap (λ c. answers ("chatcmpl_" <> r.id) r.model c reason)
        (append_assoc content f.text (join_text fs))
blocking_from-events r id content reason (k ∷ kinds) (f ∷ fs) =
    blocking_from-events r id (content <> f.text) reason kinds fs
    ∙ ap (λ c. answers ("chatcmpl_" <> r.id) r.model c reason)
        (append_assoc content f.text (join_text fs))

-- Where no read of the tables sees less of an answer than an earlier one, and the last read for a
-- request that is over sees all of it: when the request is over at some wake-up of its stream and
-- the consumer has room for all of the answer and its end, the blocking response that is made of
-- what Subscribe sends has as its content the fragments of the answer, put together in their
-- order.
pub subscribe-answers :
    (limit : ℕ) (d : Db) (r : Request) (answer : List Fragment) (history : List Wake)
    (kinds : List (Option Kind))
    → lookup r.id d.requests ≡ some r
    → length answer < limit
    → IsTimeline r.id answer 0 history
    → Ends r.id history
    → (out : List StreamEvent) × (reason : FinishReason) × (subscribe limit r.id d history ≡ ok out)
      × (blocking_chat_completion r (received kinds out)
          ≡ answers ("chatcmpl_" <> r.id) r.model (join_text answer) reason)
unfolding blocking_chat_completion
subscribe-answers limit d r answer history kinds here room t e =
    let (reason, run) = subscribe_whole limit r.id d r answer history here room t e in
    (
      events r.id answer ++ done_event r.id reason ∷ [],
      reason,
      run,
      blocking_from-events r r.id "" reason kinds answer
          ∙ ap (λ c. answers ("chatcmpl_" <> r.id) r.model c reason)
              (nil-append (join_text answer)),
    )
