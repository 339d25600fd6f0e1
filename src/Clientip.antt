-- ===== src/Clientip.antt =====
-- backend/internal/httpapi/ratelimit.go: clientIP. `net.SplitHostPort` is a parameter; a negative number
-- of trusted hops counts as none.
use Prim.Native.Char.{Char, code}
use text.Mathlib.TextLemmas.{nil-append, cons-append}
use deeperseek.Prelude.{
  ℕ, suc, ◌+◌, ◌-◌, ◌≤◌, String, ◌<>◌, Bool, true, false, not, ◌&&◌, Option, get_or, List, [], ◌∷◌,
  ◌++◌, length, get_elem?, trim_space, nat_eq, ltb, ◌==◌, if◌then◌else◌, ◌≡◌, ◌≢◌, refl, ap, ◌∙◌,
  sym, arith, length-append, eq_iff, Bool-cases, inl, inr,
}

abbrev is_comma : Char → Bool
is_comma c = nat_eq (code c) b','

abbrev onto_first : Char → List String → List String
onto_first c [] = String.◌∷◌ c "" ∷ []
onto_first c (x ∷ xs) = String.◌∷◌ c x ∷ xs

-- `strings.Split(s, ",")`
unfoldable pub split_commas : String → List String
split_commas String.[] = "" ∷ []
split_commas (String.◌∷◌ c s) =
    let rest = split_commas s in if is_comma c then "" ∷ rest else onto_first c rest

-- `parts[idx]`, where an index below zero is zero.
unfoldable pub entry_from_right : List String → ℕ → String
entry_from_right parts hops = get_or (get_elem? parts (length parts - hops)) ""

abbrev pub remote_host : (String → Option String) → String → String
remote_host split_host_port remote = get_or (split_host_port remote) remote

-- `forwarded` is the header, or the empty text where there is none.
unfoldable pub client_ip : (String → Option String) → String → String → ℕ → String
client_ip split_host_port forwarded remote hops =
    if ltb 0 hops && not (forwarded == "")
    then (let ip = trim_space (entry_from_right (split_commas forwarded) hops) in
        if ip == "" then remote_host split_host_port remote else ip)
    else remote_host split_host_port remote

split_commas-some : (s : String) → (x : String) × (xs : List String) × (split_commas s ≡ x ∷ xs)
unfolding split_commas
split_commas-some String.[] = ("", [], refl)
split_commas-some (String.◌∷◌ c s) = elim (Bool-cases (is_comma c)) [
  | inl comma ↦ (
    "",
    split_commas s,
    ap (λ t. if t then "" ∷ split_commas s else onto_first c (split_commas s)) comma,
  )
  | inr other ↦
      let (x, xs, e) = split_commas-some s in
      (
        String.◌∷◌ c x,
        xs,
        ap (λ t. if t then "" ∷ split_commas s else onto_first c (split_commas s)) other
            ∙ ap (onto_first c) e,
      )
]

onto_first-append :
    (c : Char) (s : String) (ys : List String)
    → onto_first c (split_commas s ++ ys) ≡ onto_first c (split_commas s) ++ ys
onto_first-append c s ys =
    let (x, xs, e) = split_commas-some s in
    ap (λ l. onto_first c (l ++ ys)) e ∙ sym (ap (λ l. onto_first c l ++ ys) e)

first_piece :
    (comma : Bool) (c : Char) (s : String) (ys : List String)
    → (if comma then "" ∷ (split_commas s ++ ys) else onto_first c (split_commas s ++ ys))
      ≡ (if comma then "" ∷ split_commas s else onto_first c (split_commas s)) ++ ys
first_piece true c s ys = refl
first_piece false c s ys = onto_first-append c s ys

split_commas-append :
    (s t : String) → split_commas (s <> ("," <> t)) ≡ split_commas s ++ split_commas t
unfolding split_commas
split_commas-append String.[] t =
    ap split_commas (nil-append ("," <> t))
    ∙ ap split_commas (cons-append "," "" t)
    ∙ ap (λ u. "" ∷ split_commas u) (nil-append t)
split_commas-append (String.◌∷◌ c s) t =
    ap split_commas (cons-append c s ("," <> t))
    ∙ ap (λ rest. if is_comma c then "" ∷ rest else onto_first c rest) (split_commas-append s t)
    ∙ first_piece (is_comma c) c s (split_commas t)

get_elem?-append :
    (xs ys : List String) (i : ℕ) → get_elem? (xs ++ ys) (length xs + i) ≡ get_elem? ys i
get_elem?-append [] ys i = let e : 0 + i ≡ i = omega arith in ap (get_elem? ys) e
get_elem?-append (x ∷ xs) ys i =
    let e : suc (length xs) + i ≡ suc (length xs + i) = omega arith in
    ap (get_elem? (x ∷ (xs ++ ys))) e ∙ get_elem?-append xs ys i

not_empty : (s : String) → 2 ≤ length (split_commas s) → (s == "") ≡ false
unfolding split_commas
not_empty s h = elim (Bool-cases (s == "")) [
  | inr some_text ↦ some_text
  | inl empty ↦
      let one : length (split_commas s) ≡ 1 =
        ap (λ u. length (split_commas u)) ((eq_iff s "").0 empty) in
      absurd (ground (arith, h, one))
]

address :
    (split_host_port : String → Option String) (remote : String) (hops : ℕ) (s t : String)
    → ltb 0 hops ≡ true
    → (s == "") ≡ false
    → (t == "") ≡ false
    → entry_from_right (split_commas s) hops ≡ entry_from_right (split_commas t) hops
    → client_ip split_host_port s remote hops ≡ client_ip split_host_port t remote hops
unfolding client_ip
address split_host_port remote hops s t asked some_s some_t same =
    rw (asked, some_s, some_t, same) refl

-- When the trusted proxies have appended as many entries as they are, what a client puts before them
-- does not change its address.
pub client_ip-unforged :
    (split_host_port : String → Option String) (forged appended remote : String) (hops : ℕ)
    → length (split_commas appended) ≡ hops
    → appended ≢ ""
    → client_ip split_host_port (forged <> ("," <> appended)) remote hops
      ≡ client_ip split_host_port appended remote hops
unfolding client_ip entry_from_right
client_ip-unforged split_host_port forged appended remote hops all some_text =
    let parts = split_commas forged in
    let last = split_commas appended in
    let joined : split_commas (forged <> ("," <> appended)) ≡ parts ++ last =
      split_commas-append forged appended in
    let (x, xs, e) = split_commas-some forged in
    let (y, ys, e') = split_commas-some appended in
    let sizes = ap length joined ∙ length-append parts last in
    let at_start : length (split_commas (forged <> ("," <> appended))) - hops ≡ length parts + 0 =
      omega (arith, sizes, all) in
    let at_first : 0 ≡ length last - hops = omega (arith, all) in
    let same : entry_from_right (split_commas (forged <> ("," <> appended))) hops
        ≡ entry_from_right last hops =
      ap (λ i. get_or (get_elem? (split_commas (forged <> ("," <> appended))) i) "") at_start
      ∙ ap (λ l. get_or (get_elem? l (length parts + 0)) "") joined
      ∙ ap (λ o. get_or o "") (get_elem?-append parts last 0)
      ∙ ap (λ i. get_or (get_elem? last i) "") at_first in
    let present : ((forged <> ("," <> appended)) == "") ≡ false =
      not_empty (forged <> ("," <> appended)) (omega (arith, sizes, ap length e, ap length e')) in
    let asked : ltb 0 hops ≡ true = ground (arith, all, ap length e') in
    let named : (appended == "") ≡ false = ground (arith, eq_iff appended "", some_text) in
    address split_host_port remote hops (forged <> ("," <> appended)) appended asked present named
      same
