-- ===== src/Chunks.antt =====
-- backend/internal/persona/manager.go: `chunkRunes`, and backend/internal/httpapi/fallback.go:
-- `splitFallbackChunk`, which cut an answer into fragments.
use text.Mathlib.TextLemmas.{nil-append, cons-append, length-cons, cons≢nil}
use deeperseek.Core.State.{is_unset}
use deeperseek.Prelude.{
  ℕ, zero, suc, ◌+◌, ◌-◌, ◌≤◌, ◌<◌, leb, Bool, ◌&&◌, Option, none, some, String, count, ◌<>◌, List,
  [], ◌∷◌, ℤ, pos, negsuc, take_runes, drop_runes, count-take_runes, ◌≡◌, refl, sym, ap, ◌⊎◌, inl,
  inr, eq_iff, Bool-cases, ◌∙◌, arith, if◌then◌else◌,
}

-- A size that is not positive stands for the default.
abbrev pub positive_or : ℕ → ℤ → ℕ
positive_or default (pos zero) = default
positive_or default (pos (suc n)) = suc n
positive_or default (negsuc n) = default

-- `for len(runes) > 0`, on fuel.
unfoldable pub cut_from : ℕ → ℕ → String → List String
cut_from zero size s = []
cut_from (suc fuel) size String.[] = []
cut_from (suc fuel) size (String.◌∷◌ c s) =
    take_runes size (String.◌∷◌ c s) ∷ cut_from fuel size (drop_runes size (String.◌∷◌ c s))

-- A round takes at least one rune, so there are no more rounds than runes.
unfoldable pub chunk_runes : String → ℤ → List String
unfolding cut_from take_runes drop_runes
chunk_runes text size = cut_from (count text) (positive_or 6 size) text

abbrev pub default_fallback_max_chunk_runes : ℕ
default_fallback_max_chunk_runes = 5

-- `(len(runes)+maxRunes-1)/maxRunes` over 64 bits, rounded to zero, is negative when the sum wraps.
abbrev pub has_negative_capacity : ℕ → ℕ → Bool
has_negative_capacity runes size =
    let sum = runes + size - 1 in
    leb 9223372036854775808 sum && leb size (18446744073709551616 - sum)

-- `none` is the panic of `make`.
unfoldable pub split_fallback_chunk : String → ℤ → Option (List String)
unfolding cut_from take_runes drop_runes
split_fallback_chunk text max_runes =
    let size = positive_or default_fallback_max_chunk_runes max_runes in
    if is_unset text
    then some []
    else if has_negative_capacity (count text) size
    then none
    else some (cut_from (count text) size text)

abbrev pub joined : List String → String
joined [] = ""
joined (c ∷ cs) = c <> joined cs

-- Every chunk but the last has `size` runes, and the last has from one to `size`.
abbrev pub IsCut : ℕ → List String → Type 0
IsCut size [] = Unit
IsCut size (c ∷ []) = (1 ≤ count c) × (count c ≤ size)
IsCut size (c ∷ d ∷ cs) = (count c ≡ size) × IsCut size (d ∷ cs)

take_drop : (n : ℕ) (s : String) → (take_runes n s <> drop_runes n s) ≡ s
unfolding take_runes drop_runes
take_drop zero s = nil-append s
take_drop (suc n) String.[] = nil-append ""
take_drop (suc n) (String.◌∷◌ c s) =
    cons-append c (take_runes n s) (drop_runes n s) ∙ ap (String.◌∷◌ c) (take_drop n s)

-- Taking and dropping `n` runes: how many are taken, and how many are left.
count_split :
    (n : ℕ) (s : String)
    → (count (take_runes n s) + count (drop_runes n s) ≡ count s)
      × ((count (take_runes n s) ≡ n) ⊎ (drop_runes n s ≡ ""))
unfolding take_runes drop_runes
count_split zero s = (omega arith, inl refl)
count_split (suc n) String.[] = (omega arith, inr refl)
count_split (suc n) (String.◌∷◌ c s) =
    let rest = count_split n s in
    let more = length-cons c (take_runes n s) in
    (
      omega (arith, rest.0, more, length-cons c s),
      elim rest.1 [ inl full ↦ inl (omega (arith, full, more)) | inr empty ↦ inr empty ],
    )

joined-cut_from :
    (fuel size : ℕ) (s : String) → count s ≤ fuel → joined (cut_from fuel (suc size) s) ≡ s
unfolding cut_from take_runes drop_runes
joined-cut_from zero size String.[] h = refl
joined-cut_from zero size (String.◌∷◌ c s) h = ground (arith, length-cons c s)
joined-cut_from (suc fuel) size String.[] h = refl
joined-cut_from (suc fuel) size (String.◌∷◌ c s) h =
    ap (λ t. take_runes (suc size) (String.◌∷◌ c s) <> t)
      (joined-cut_from fuel size (drop_runes size s)
        (omega (arith, (count_split size s).0, h, length-cons c s)))
    ∙ take_drop (suc size) (String.◌∷◌ c s)

-- What is left is cut further exactly when it is not empty.
IsCut-cut_from :
    (fuel size : ℕ) (c rest : String)
    → 1 ≤ count c
    → count c ≤ suc size
    → (count c ≡ suc size) ⊎ (rest ≡ "")
    → IsCut (suc size) (cut_from fuel (suc size) rest)
    → IsCut (suc size) (c ∷ cut_from fuel (suc size) rest)
unfolding cut_from
IsCut-cut_from zero size c rest low high either k = (low, high)
IsCut-cut_from (suc fuel) size c String.[] low high either k = (low, high)
IsCut-cut_from (suc fuel) size c (String.◌∷◌ d rest) low high (inl full) k = (full, k)
IsCut-cut_from (suc fuel) size c (String.◌∷◌ d rest) low high (inr empty) k =
    absurd (cons≢nil empty)

cut_from-IsCut :
    (fuel size : ℕ) (s : String) → count s ≤ fuel → IsCut (suc size) (cut_from fuel (suc size) s)
unfolding cut_from
cut_from-IsCut zero size s h = tt
cut_from-IsCut (suc fuel) size String.[] h = tt
cut_from-IsCut (suc fuel) size (String.◌∷◌ c s) h =
    let text = String.◌∷◌ c s in
    let rest = drop_runes (suc size) text in
    let split = count_split (suc size) text in
    let first = length-cons c (take_runes size s) in
    let fits : count rest ≤ fuel =
      unfold drop_runes in omega (arith, (count_split size s).0, h, length-cons c s) in
    IsCut-cut_from fuel size (take_runes (suc size) text) rest
      (unfold take_runes in omega (arith, first)) (count-take_runes (suc size) text) split.1
      (cut_from-IsCut fuel size rest fits)

cut_from_lem :
    (size : ℕ) (text : String)
    → (joined (cut_from (count text) (suc size) text) ≡ text)
      × IsCut (suc size) (cut_from (count text) (suc size) text)
cut_from_lem size text = (
  joined-cut_from (count text) size text (omega arith),
  cut_from-IsCut (count text) size text (omega arith),
)

-- The chunks of an answer, joined, are the answer. Each but the last has the size that is asked for,
-- or 6 runes if that is not positive; the last has at least one rune and no more than the size.
pub chunk_runes-IsCut :
    (text : String) (size : ℤ)
    → (joined (chunk_runes text size) ≡ text) × IsCut (positive_or 6 size) (chunk_runes text size)
unfolding chunk_runes
chunk_runes-IsCut text (pos zero) = cut_from_lem 5 text
chunk_runes-IsCut text (pos (suc n)) = cut_from_lem n text
chunk_runes-IsCut text (negsuc n) = cut_from_lem 5 text

split-IsCut :
    (text : String) (max_runes : ℤ) (n : ℕ)
    → positive_or 5 max_runes ≡ suc n
    → ((9223372036854775808 < count text + suc n) × (split_fallback_chunk text max_runes ≡ none))
      ⊎ ((cs : List String) × (split_fallback_chunk text max_runes ≡ some cs)
          × (joined cs ≡ text)
          × IsCut (suc n) cs)
unfolding split_fallback_chunk
split-IsCut text max_runes n size = elim (Bool-cases (is_unset text)) [
  | inl empty ↦ inr ([], rw (empty, split_fallback_chunk) refl, sym ((eq_iff text "").0 empty), tt)
  | inr some_text ↦ elim (Bool-cases (has_negative_capacity (count text) (suc n))) [
    | inl wraps ↦ inl (
      ground (arith, wraps),
      rw (some_text, split_fallback_chunk)
          (rw (size, split_fallback_chunk) (rw (wraps, split_fallback_chunk) refl)),
    )
    | inr fits ↦
        let (same, cut) = cut_from_lem n text in
        inr (
          cut_from (count text) (suc n) text,
          rw (some_text, split_fallback_chunk)
              (rw (size, split_fallback_chunk) (rw (fits, split_fallback_chunk) refl)),
          same,
          cut,
        )
  ]
]

-- Either the runes of a delta of the fallback model and the size that is asked for, or 5 if that is not
-- positive, are together above 2^63 and splitFallbackChunk panics; or its chunks, joined, are the
-- delta, each but the last has that size, and the last has at least one rune and no more than the size.
pub split_fallback_chunk-IsCut :
    (text : String) (size : ℤ)
    → ((9223372036854775808 < count text + positive_or 5 size)
        × (split_fallback_chunk text size ≡ none))
      ⊎ ((cs : List String) × (split_fallback_chunk text size ≡ some cs)
          × (joined cs ≡ text)
          × IsCut (positive_or 5 size) cs)
split_fallback_chunk-IsCut text (pos zero) = split-IsCut text (pos 0) 4 refl
split_fallback_chunk-IsCut text (pos (suc n)) = split-IsCut text (pos (suc n)) n refl
split_fallback_chunk-IsCut text (negsuc n) = split-IsCut text (negsuc n) 4 refl
