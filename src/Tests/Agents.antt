-- ===== src/Tests/Agents.antt =====
-- The theorems on chunks and on the pool of personas, at concrete inputs.
use deeperseek.Chunks.{
  joined, IsCut, positive_or, cut_from, chunk_runes, split_fallback_chunk, chunk_runes-IsCut,
  split_fallback_chunk-IsCut,
}
use deeperseek.Persona.{Manager}
use deeperseek.Prelude.{
  none, some, List, String, count, ◌+◌, ◌<◌, false, [], ◌∷◌, pos, ◌≡◌, refl, ◌⊎◌, take_runes,
  drop_runes,
}
use deeperseek.Tests.Samples.{bob_waits}

chunk_runes_sample : chunk_runes "a human answers" (pos 6) ≡ "a huma" ∷ "n answ" ∷ "ers" ∷ []
unfolding chunk_runes cut_from take_runes drop_runes
chunk_runes_sample = refl

chunk_runes-IsCut_example :
    (joined (chunk_runes "a human answers" (pos 6)) ≡ "a human answers")
    × IsCut (positive_or 6 (pos 6)) (chunk_runes "a human answers" (pos 6))
chunk_runes-IsCut_example = chunk_runes-IsCut "a human answers" (pos 6)

split_fallback_chunk-IsCut_example :
    ((9223372036854775808 < count "a model answers" + 5)
      × (split_fallback_chunk "a model answers" (pos 0) ≡ none))
    ⊎ ((cs : List String) × (split_fallback_chunk "a model answers" (pos 0) ≡ some cs)
        × (joined cs ≡ "a model answers")
        × IsCut 5 cs)
split_fallback_chunk-IsCut_example = split_fallback_chunk-IsCut "a model answers" (pos 0)

-- The largest size there is.
wrapped : split_fallback_chunk "no" (pos 9223372036854775807) ≡ none
unfolding split_fallback_chunk
wrapped = refl

-- A manager without personas, while Bob is online.
abbrev idle : Manager
idle = record {
  backend = bob_waits;
  responders = [];
  cancelled = [];
  posting = false;
  active_conversations = 0;
  name_seq = 0;
}
