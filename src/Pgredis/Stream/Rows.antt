-- ===== src/Pgredis/Stream/Rows.antt =====
-- The rows behind an ordinal, where the rows of a request are its fragments in order, and the events
-- that a drain sends for them.
use mathlib.Core.List.{append-nil}
use deeperseek.Core.Types.{StreamEvent, Fragment}
use deeperseek.Pgredis.Creation.{by_ordinal, ordered}
use deeperseek.Pgredis.Mirror.{numbered}
use deeperseek.Pgredis.Stream.{fragment_event, emit_rows, rows_after}
use deeperseek.Pgredis.Tables.{Db, FragmentRow, rows_of}
use deeperseek.Prelude.{
  ℕ, zero, suc, ◌+◌, ◌≤◌, String, Bool, true, List, [], ◌∷◌, ◌++◌, length, take, keep, ltb, ◌≡◌,
  refl, sym, ap, ◌∙◌, arith, Bool-cases, inl, inr, length-append, append_one,
}

-- The events for some fragments, in order.
abbrev pub events : String → List Fragment → List StreamEvent
events id [] = []
events id (f ∷ fs) = fragment_event id f.text ∷ events id fs

abbrev pub drop {ℓ} : {A : Type ℓ} → ℕ → List A → List A
drop zero xs = xs
drop (suc n) [] = []
drop (suc n) (x ∷ xs) = drop n xs

pub length-events : (id : String) (fs : List Fragment) → length (events id fs) ≡ length fs
length-events id [] = refl
length-events id (f ∷ fs) = ap suc (length-events id fs)

pub events-append :
    (id : String) (xs ys : List Fragment) → events id (xs ++ ys) ≡ events id xs ++ events id ys
events-append id [] ys = refl
events-append id (x ∷ xs) ys = ap (λ l. fragment_event id x.text ∷ l) (events-append id xs ys)

take-take : {A : Type 0} (m i : ℕ) (xs : List A) → m ≤ i → take m (take i xs) ≡ take m xs
take-take zero i xs h = refl
take-take (suc m) zero xs h = absurd (omega (arith, h))
take-take (suc m) (suc i) [] h = refl
take-take (suc m) (suc i) (x ∷ xs) h = ap (λ l. x ∷ l) (take-take m i xs (omega (arith, h)))

-- What a prefix has, continued by what a later, longer prefix has behind it, is a prefix.
pub take-drop-take :
    {A : Type 0} (l m t i : ℕ) (xs : List A)
    → l + m ≡ t
    → t ≤ i
    → take l xs ++ take m (drop l (take i xs)) ≡ take t xs
take-drop-take zero m t i xs e h =
    take-take m i xs (omega (arith, e, h)) ∙ ap (λ n. take n xs) (same m t e)
  where
    same : (m t : ℕ) → 0 + m ≡ t → m ≡ t
    same m t e = omega (arith, e)
take-drop-take (suc l) m zero i xs e h = absurd (omega (arith, e))
take-drop-take (suc l) m (suc t) zero xs e h = absurd (omega (arith, h))
take-drop-take (suc l) zero (suc t) (suc i) [] e h = refl
take-drop-take (suc l) (suc m) (suc t) (suc i) [] e h = refl
take-drop-take (suc l) m (suc t) (suc i) (x ∷ xs) e h =
    ap (λ r. x ∷ r) (take-drop-take l m t i xs (omega (arith, e)) (omega (arith, h)))

-- How many there are behind a place in a prefix.
pub length-drop-take :
    {A : Type 0} (l m i : ℕ) (xs : List A)
    → l ≤ i
    → l ≤ length xs
    → m ≤ length (drop l (take i xs))
    → (l + m ≤ i) × (l + m ≤ length xs)
length-drop-take zero m i xs h k e = bounded m i xs e
  where
    bounded :
        {A : Type 0} (m i : ℕ) (xs : List A)
        → m ≤ length (take i xs)
        → (0 + m ≤ i) × (0 + m ≤ length xs)
    bounded m zero xs e = omega (arith, e)
    bounded m (suc i) [] e = omega (arith, e)
    bounded zero (suc i) (x ∷ xs) e = omega arith
    bounded (suc m) (suc i) (x ∷ xs) e =
        let b = bounded m i xs (omega (arith, e)) in omega (arith, b)
length-drop-take (suc l) m zero xs h k e = absurd (omega (arith, h))
length-drop-take (suc l) m (suc i) [] h k e = absurd (omega (arith, k))
length-drop-take (suc l) m (suc i) (x ∷ xs) h k e =
    let b = length-drop-take l m i xs (omega (arith, h)) (omega (arith, k)) e in omega (arith, b)

all_kept :
    (t n : ℕ) (fs : List Fragment)
    → t ≤ n
    → keep (λ (r : FragmentRow). ltb t r.ordinal) (numbered (suc n) fs) ≡ numbered (suc n) fs
all_kept t n [] h = refl
all_kept t n (f ∷ fs) h = ground (arith, all_kept t (suc n) fs)

keep-numbered :
    (t k n : ℕ) (fs : List Fragment)
    → n + k ≡ t
    → keep (λ (r : FragmentRow). ltb t r.ordinal) (numbered (suc n) fs)
      ≡ numbered (suc t) (drop k fs)
keep-numbered t zero n fs e =
    let same : n ≡ t = omega (arith, e) in
    all_kept t n fs (omega (arith, e)) ∙ ap (λ j. numbered (suc j) fs) same
keep-numbered t (suc k) n [] e = refl
keep-numbered t (suc k) n (f ∷ fs) e =
    ground (arith, keep-numbered t k (suc n) fs (omega (arith, e)))

ordered-numbered : (n : ℕ) (fs : List Fragment) → ordered (numbered n fs) ≡ numbered n fs
unfolding ordered by_ordinal
ordered-numbered n [] = refl
ordered-numbered n (f ∷ fs) =
    ap (by_ordinal (record { fragment = f; ordinal = n })) (ordered-numbered (suc n) fs)
    ∙ in_front fs
  where
    in_front :
        (fs : List Fragment)
        → by_ordinal (record { fragment = f; ordinal = n }) (numbered (suc n) fs)
          ≡ numbered n (f ∷ fs)
    in_front [] = refl
    in_front (g ∷ gs) = ground arith

pub rows_after-numbered :
    (id : String) (last : ℕ) (d : Db) (fs : List Fragment)
    → rows_of id d.fragments ≡ numbered 1 fs
    → rows_after id last d ≡ numbered (suc last) (drop last fs)
unfolding rows_after
rows_after-numbered id last d fs e =
    ap (λ rows. ordered (keep (λ (r : FragmentRow). ltb last r.ordinal) rows)) e
    ∙ ap ordered (keep-numbered last last 0 fs (omega arith))
    ∙ ordered-numbered (suc last) (drop last fs)

-- What a drain sends of the rows behind an ordinal: the first of them, all when it is not cancelled.
pub record Sent (limit n : ℕ) (fs : List Fragment) (id : String) (out : List StreamEvent)
    (r : ℕ × Bool × List StreamEvent) : Type 0 where
  pub sent : ℕ
  pub within : sent ≤ length fs
  pub last : r.0 ≡ n + sent
  pub whole : r.1 ≡ true → sent ≡ length fs
  pub roomy : length out + length fs ≤ limit → r.1 ≡ true
  pub output : r.2 ≡ out ++ events id (take sent fs)

pub emit_rows-Sent :
    (limit : ℕ) (id : String) (n : ℕ) (fs : List Fragment) (out : List StreamEvent)
    → Sent limit n fs id out (emit_rows limit id n (numbered (suc n) fs) out)
unfolding emit_rows
emit_rows-Sent limit id n [] out = record {
  sent = 0;
  within = omega arith;
  last = omega arith;
  whole = λ h. refl;
  roomy = λ h. refl;
  output = sym (append-nil out);
}
emit_rows-Sent limit id n (f ∷ fs) out = elim (Bool-cases (ltb (length out) limit)) [
  | inl room ↦
      let s = emit_rows-Sent limit id (suc n) fs (out ++ fragment_event id f.text ∷ []) in
      let step = fragment_event id f.text in
      rw (room, emit_rows)
        (record {
          sent = suc s.sent;
          within = omega (arith, s.within);
          last = omega (arith, s.last);
          whole = λ h. ap suc (s.whole h);
          roomy = λ h. s.roomy (omega (arith, h, length-append out (step ∷ [])));
          output = s.output ∙ append_one out step (events id (take s.sent fs));
        })
  | inr full ↦
      rw (full, emit_rows)
        (record {
          sent = 0;
          within = omega arith;
          last = omega arith;
          whole = λ h. ground (arith, h);
          roomy = λ h. ground (arith, full, h);
          output = sym (append-nil out);
        })
]
