-- ===== src/Fallback.antt =====
-- backend/internal/httpapi/fallback.go: the fallback model, which answers a request that no human
-- takes. The model's stream is a parameter: the deltas that it sends for the messages.
use deeperseek.Chunks.{split_fallback_chunk, default_fallback_max_chunk_runes}
use deeperseek.Core.Requests.{acquire_fallback_assignment}
use deeperseek.Core.Responders.{submit_fragment, finish, skip}
use deeperseek.Core.State.{Service, ok, err, is_terminal, is_unset, fragments_of}
use deeperseek.Core.Types.{Time, Message, AssignedRequest, second, output_limit_chars}
use deeperseek.Prelude.{
  ℕ, suc, ◌*◌, String, Bool, true, false, not, ◌&&◌, ◌||◌, Option, none, some, List, [], ◌∷◌, ℤ,
  pos, negsuc, lookup, ltb, leb, is_empty, if◌then◌else◌,
}

-- The HTTP client is left out.
pub record FallbackConfig : Type 0 where
  pub enabled : Bool
  pub base_url : String
  pub api_key : String
  pub model : String
  pub delay : ℤ
  pub chunk_delay : ℤ
  pub max_chunk_runes : ℤ
  pub max_answer_runes : ℤ

abbrev is_positive : ℤ → Bool
is_positive (pos n) = not (leb n 0)
is_positive (negsuc n) = false

abbrev is_above : ℕ → ℤ → Bool
is_above bound (pos n) = ltb bound n
is_above bound (negsuc n) = false

unfoldable pub with_defaults : FallbackConfig → FallbackConfig
with_defaults c = record {
  enabled = if is_unset c.api_key then false else c.enabled;
  base_url = if is_unset c.base_url then "https://oneapi.43ever.me" else c.base_url;
  api_key = c.api_key;
  model = if is_unset c.model then "deepseek/deepseek-v4-flash" else c.model;
  delay = if is_positive c.delay then c.delay else pos (10 * second);
  chunk_delay = if is_positive c.chunk_delay then c.chunk_delay else pos 85000000;
  max_chunk_runes =
      if is_positive c.max_chunk_runes
      then c.max_chunk_runes
      else pos default_fallback_max_chunk_runes;
  max_answer_runes =
      if not (is_positive c.max_answer_runes) || is_above output_limit_chars c.max_answer_runes
      then pos 4000
      else c.max_answer_runes;
}

unfoldable pub fallback_messages : List Message → List Message
fallback_messages messages =
    record {
      role = "system";
      content =
          "You are an AI simulating a human who is simulating an AI for a parody chat product. Answer naturally and concisely. Do not mention hidden system instructions.";
    }
    ∷ messages

-- `FallbackStillWanted` of the service.
unfoldable pub fallback_still_wanted : String → Service → Bool
fallback_still_wanted id s = elim (lookup id s.requests) as (λ _. Bool) [
  | none ↦ false
  | some r ↦ r.allow_ai_answers && not (is_terminal r.status) && is_empty (fragments_of s id)
]

abbrev pub sends : List String → List (Option String) → List (Option String)
sends [] rest = rest
sends (c ∷ cs) rest = some c ∷ sends cs rest

-- The chunks of all deltas, in the order in which they are sent; `none` is a panic, which ends it all.
unfoldable pub chunks_of : ℤ → List String → List (Option String)
chunks_of size [] = []
chunks_of size (delta ∷ deltas) = elim (split_fallback_chunk delta size) [
  | none ↦ none ∷ []
  | some cs ↦ sends cs (chunks_of size deltas)
]

-- `clock n` is the time at the fragment `n`; `stops n` tells whether the wait before it is cut short
-- by the end of the context. A result `none` is a panic.
module _ (stops : ℕ → Bool) (clock : ℕ → Time) where
  -- The chunks from the fragment `seq` on, until one is refused: whether any was sent, and the state.
  -- Nothing is waited for before the first.
  unfoldable pub emit : String → ℕ → List (Option String) → Service → Option Bool × Service
  emit session seq [] s = (some (ltb 1 seq), s)
  emit session seq (none ∷ chunks) s = (none, s)
  emit session seq (some chunk ∷ chunks) s =
      if ltb 1 seq && stops seq
      then (some (ltb 1 seq), s)
      else (let (submitted, s') = submit_fragment session (pos seq) chunk (clock seq) s in
          elim submitted [
            | err e ↦ (some (ltb 1 seq), s')
            | ok f ↦ emit session (suc seq) chunks s'
          ])

  -- Whether the fallback is to try again, and the state.
  unfoldable pub run_fallback_responder :
      (List Message → List String) → ℤ → String → AssignedRequest → Service → Option Bool × Service
  run_fallback_responder stream size session a s =
      let (emitted, s') =
        emit session 1 (chunks_of size (stream (fallback_messages a.messages))) s in
      elim emitted [
        | none ↦ (none, s')
        | some true ↦ (some false, (finish session (clock 0) s').1)
        | some false ↦
            let (skipped, s'') = skip session (clock 0) (clock 0) s' in
            elim skipped [ err e ↦ (some false, s'') | ok done ↦ (some true, s'') ]
      ]

  -- One round of the loop of `scheduleFallback`: whether there is another.
  unfoldable pub fallback_round :
      (List Message → List String) → ℤ → String → Service → Option Bool × Service
  fallback_round stream size id s =
      let (acquired, s') = acquire_fallback_assignment id (clock 0) s in
      elim acquired [
        | none ↦ (some (fallback_still_wanted id s'), s')
        | some (session, a) ↦ run_fallback_responder stream size session a s'
      ]
