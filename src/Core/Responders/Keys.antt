-- ===== src/Core/Responders/Keys.antt =====
-- The text `"<session>:<number>"` under which a fragment is remembered: it determines both parts.
use Prim.Native.Char.{Char, code}
use text.Mathlib.TextLemmas.{
  nil-append, cons-append, tail-eq_of_cons-eq, head-eq_of_cons-eq, append_assoc,
}
use deeperseek.Core.Responders.{seq_key}
use deeperseek.Prelude.{
  ℕ, zero, suc, ◌+◌, ◌-◌, ◌*◌, ◌/◌, ◌%◌, ◌<◌, String, ◌<>◌, Bool, true, false, ◌||◌, pos, decimal,
  digit, digits, nat_eq, ltb, ◌≡◌, refl, sym, ap, ◌∙◌, inl, inr, arith, Bool-cases,
}

has_colon : String → Bool
has_colon String.[] = false
has_colon (String.◌∷◌ c s) = nat_eq (code c) 58 || has_colon s

-- The number that digits stand for, behind those already read.
read : ℕ → String → ℕ
read acc String.[] = acc
read acc (String.◌∷◌ c s) = read (acc * 10 + (code c - 48)) s

has_colon-append : (s t : String) → has_colon (s <> t) ≡ (has_colon s || has_colon t)
unfolding has_colon
has_colon-append String.[] t = ap has_colon (nil-append t)
has_colon-append (String.◌∷◌ c s) t =
    ap has_colon (cons-append c s t) ∙ ground (arith, has_colon-append s t)

read-append : (acc : ℕ) (s t : String) → read acc (s <> t) ≡ read (read acc s) t
unfolding read
read-append acc String.[] t = ap (read acc) (nil-append t)
read-append acc (String.◌∷◌ c s) t =
    ap (read acc) (cons-append c s t) ∙ read-append (acc * 10 + (code c - 48)) s t

read-digit :
    (d : ℕ)
    → d < 10
    → (acc : ℕ) → (read acc (digit d) ≡ acc * 10 + d) × (has_colon (digit d) ≡ false)
unfolding read has_colon digit
read-digit zero h acc = (refl, refl)
read-digit (suc zero) h acc = (refl, refl)
read-digit (suc (suc zero)) h acc = (refl, refl)
read-digit (suc (suc (suc zero))) h acc = (refl, refl)
read-digit (suc (suc (suc (suc zero)))) h acc = (refl, refl)
read-digit (suc (suc (suc (suc (suc zero))))) h acc = (refl, refl)
read-digit (suc (suc (suc (suc (suc (suc zero)))))) h acc = (refl, refl)
read-digit (suc (suc (suc (suc (suc (suc (suc zero))))))) h acc = (refl, refl)
read-digit (suc (suc (suc (suc (suc (suc (suc (suc zero)))))))) h acc = (refl, refl)
read-digit (suc (suc (suc (suc (suc (suc (suc (suc (suc zero))))))))) h acc = (refl, refl)
read-digit (suc (suc (suc (suc (suc (suc (suc (suc (suc (suc d)))))))))) h acc =
    absurd (omega arith)

read-digits :
    (fuel n : ℕ) → n < fuel → (read 0 (digits fuel n) ≡ n) × (has_colon (digits fuel n) ≡ false)
unfolding digits
read-digits zero n h = absurd (omega arith)
read-digits (suc fuel) n h = elim (Bool-cases (ltb n 10)) [
  | inl small ↦ let last = read-digit n (ground arith) 0 in rw small (omega (arith, last.0), last.1)
  | inr big ↦
      let rest = read-digits fuel (n / 10) (ground arith) in
      let last = read-digit (n % 10) (omega arith) (n / 10) in
      rw big (
        read-append 0 (digits fuel (n / 10)) (digit (n % 10))
            ∙ ap (λ a. read a (digit (n % 10))) rest.0
            ∙ last.0
            ∙ omega arith,
        ground (arith, has_colon-append (digits fuel (n / 10)) (digit (n % 10)), rest.1, last.1),
      )
]

has_colon-split : (b v : String) (c : Char) → code c ≡ 58 → has_colon (b <> String.◌∷◌ c v) ≡ true
unfolding has_colon
has_colon-split b v c colon = ground (arith, has_colon-append b (String.◌∷◌ c v), colon)

-- The last colon splits a text in one way.
split_unique :
    (a b u v : String) (c : Char)
    → code c ≡ 58
    → has_colon u ≡ false
    → has_colon v ≡ false
    → ◌≡◌ {A = String} (a <> String.◌∷◌ c u) (b <> String.◌∷◌ c v)
    → (a ≡ b) × (u ≡ v)
split_unique String.[] String.[] u v c colon p q e =
    (refl, tail-eq_of_cons-eq (sym (nil-append (String.◌∷◌ c u)) ∙ e ∙ nil-append (String.◌∷◌ c v)))
split_unique String.[] (String.◌∷◌ y b) u v c colon p q e =
    let tail : u ≡ (b <> String.◌∷◌ c v) =
      tail-eq_of_cons-eq
        (sym (nil-append (String.◌∷◌ c u)) ∙ e ∙ cons-append y b (String.◌∷◌ c v)) in
    absurd (cc (p, ap has_colon tail, has_colon-split b v c colon))
split_unique (String.◌∷◌ x a) String.[] u v c colon p q e =
    let tail : v ≡ (a <> String.◌∷◌ c u) =
      tail-eq_of_cons-eq
        (sym (nil-append (String.◌∷◌ c v)) ∙ sym e ∙ cons-append x a (String.◌∷◌ c u)) in
    absurd (cc (q, ap has_colon tail, has_colon-split a u c colon))
split_unique (String.◌∷◌ x a) (String.◌∷◌ y b) u v c colon p q e =
    let whole : ◌≡◌ {A = String} (String.◌∷◌ x (a <> String.◌∷◌ c u))
        (String.◌∷◌ y (b <> String.◌∷◌ c v)) =
      sym (cons-append x a (String.◌∷◌ c u)) ∙ e ∙ cons-append y b (String.◌∷◌ c v) in
    let rest = split_unique a b u v c colon p q (tail-eq_of_cons-eq whole) in
    (ap (λ h. String.◌∷◌ h a) (head-eq_of_cons-eq whole) ∙ ap (String.◌∷◌ y) rest.0, rest.1)

colon_split : (a u : String) → ((a <> ":") <> u) ≡ (a <> String.◌∷◌ ":" u)
colon_split a u =
    append_assoc a ":" u
    ∙ ap (λ t. a <> t) (cons-append ":" "" u ∙ ap (String.◌∷◌ ":") (nil-append u))

-- Fragments of different sessions, or with different positive numbers, have different keys.
pub seq_key-injective :
    (a b : String) (m n : ℕ) → seq_key a (pos m) ≡ seq_key b (pos n) → (a ≡ b) × (m ≡ n)
unfolding seq_key decimal
seq_key-injective a b m n e =
    let left = read-digits (suc m) m (omega arith) in
    let right = read-digits (suc n) n (omega arith) in
    let halves =
      split_unique a b (digits (suc m) m) (digits (suc n) n) ":" refl left.1 right.1
        (sym (colon_split a (digits (suc m) m)) ∙ e ∙ colon_split b (digits (suc n) n)) in
    (halves.0, sym left.0 ∙ ap (read 0) halves.1 ∙ right.0)
