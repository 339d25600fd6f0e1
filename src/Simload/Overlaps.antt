-- ===== src/Simload/Overlaps.antt =====
-- The check for interleaved committers finds exactly the answers that are interleaved.
use deeperseek.Prelude.{
  String, Bool, true, false, not, ◌&&◌, ◌||◌, some, List, [], ◌∷◌, contains, ◌==◌, ◌≡◌, arith,
  Bool-cases, inl, inr, eq_iff, refl,
}
use deeperseek.Simload.{AckedFrag, order_after, has_repeat, interleaves}

-- A session has a fragment among these.
abbrev pub commits : String → List AckedFrag → Bool
commits a [] = false
commits a (f ∷ fs) = f.session == a || commits a fs

-- Somebody else has a fragment among these, and the session has one after it.
abbrev pub is_interrupted : String → List AckedFrag → Bool
is_interrupted a [] = false
is_interrupted a (f ∷ fs) = (not (f.session == a) && commits a fs) || is_interrupted a fs

-- Some session has a fragment, then another one has, and then the first has one again.
abbrev pub is_interleaved : List AckedFrag → Bool
is_interleaved [] = false
is_interleaved (f ∷ fs) = is_interrupted f.session fs || is_interleaved fs

any_commits : List String → List AckedFrag → Bool
any_commits seen [] = false
any_commits seen (f ∷ fs) = contains seen f.session || any_commits seen fs

any_commits-more :
    (p : String) (seen : List String) (fs : List AckedFrag)
    → any_commits (p ∷ seen) fs ≡ (any_commits seen fs || commits p fs)
unfolding any_commits
any_commits-more p seen [] = refl
any_commits-more p seen (f ∷ fs) =
    ground (arith, any_commits-more p seen fs, eq_iff p f.session, eq_iff f.session p)

any_commits-nil : (fs : List AckedFrag) → any_commits [] fs ≡ false
unfolding any_commits
any_commits-nil [] = refl
any_commits-nil (f ∷ fs) = any_commits-nil fs

is_interrupted-commits :
    (a : String) (fs : List AckedFrag) → is_interrupted a fs ≡ true → commits a fs ≡ true
is_interrupted-commits a [] h = ground arith
is_interrupted-commits a (f ∷ fs) h = ground (arith, is_interrupted-commits a fs, h)

has_repeat-any :
    (seen : List String) (p : String) (fs : List AckedFrag)
    → contains seen p ≡ false
    → has_repeat seen (some p) (order_after (some p) fs)
      ≡ (any_commits seen fs || (is_interrupted p fs || is_interleaved fs))
unfolding has_repeat order_after any_commits
has_repeat-any seen p [] h = refl
has_repeat-any seen p (f ∷ fs) h = elim (Bool-cases (p == f.session)) [
  | inl same ↦ rw same (
      ground
        (arith, has_repeat-any seen p fs h, (eq_iff p f.session).0 same, eq_iff f.session p, h))
  | inr other ↦ elim (Bool-cases (contains seen f.session)) [
    | inl again ↦ ground (arith, other, again)
    | inr fresh ↦ ground (
      arith,
      other,
      fresh,
      has_repeat-any (p ∷ seen) f.session fs,
      any_commits-more p seen fs,
      is_interrupted-commits p fs,
      eq_iff f.session p,
      eq_iff p f.session,
    )
  ]
]

-- The simulator's check reports an answer exactly when some session commits a fragment of it, then
-- another session does, and then the first one again.
pub interleaves-is_interleaved : (frags : List AckedFrag) → interleaves frags ≡ is_interleaved frags
unfolding interleaves has_repeat order_after
interleaves-is_interleaved [] = refl
interleaves-is_interleaved (f ∷ fs) =
    ground (arith, has_repeat-any [] f.session fs refl, any_commits-nil fs)
