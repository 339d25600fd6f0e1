-- ===== src/Pgredis/Mirror/Rows.antt =====
-- What the queries find in mirrored tables.
use text.Mathlib.TextLemmas.{length-append}
use deeperseek.Core.Lifecycle.Invariant.{Stage, found-Staged}
use deeperseek.Core.Lifecycle.Steps.{LifeOf}
use deeperseek.Core.State.{Service, active_request, is_terminal, join_text}
use deeperseek.Core.Types.{
  Request, RequestStatus, queued, assigned, streaming, completed, timeout_completed, abandoned,
  Fragment,
}
use deeperseek.Pgredis.Mirror.{numbered, IsDistinct}
use deeperseek.Pgredis.Tables.{FragmentRow, sum_length, sent_as, same_seq, active_row, is_active}
use deeperseek.Prelude.{
  get_or, ℕ, suc, String, count, Bool, true, false, ◌&&◌, Option, none, some, List, [], ◌∷◌, ◌++◌,
  pos, Dict, lookup, insert, ◌==◌, ◌≡◌, refl, ◌≢◌, inl, inr, sym, ap, ◌∙◌, subst, arith, eq_iff,
  lookup-insert_ne, Bool-cases, if◌then◌else◌,
}

pub insert-insert {ℓ} :
    {V : Type ℓ} (k : String) (v w : V) (m : Dict V) → insert k v (insert k w m) ≡ insert k v m
unfolding insert
insert-insert k v w [] = ground (arith, eq_iff k k)
insert-insert k v w ((j, x) ∷ m) = ground (arith, eq_iff k k, eq_iff j k, insert-insert k v w m)

pub IsDistinct-insert {ℓ} :
    {V : Type ℓ} (k : String) (v : V) (m : Dict V) → IsDistinct m → IsDistinct (insert k v m)
unfolding insert lookup
IsDistinct-insert k v [] d = (refl, tt)
IsDistinct-insert k v ((j, x) ∷ m) d = elim (Bool-cases (j == k)) [
  | inl hit ↦ rw hit (rw (← (eq_iff j k).0 hit) d.0, d.1)
  | inr miss ↦ rw miss (
    lookup-insert_ne k j v m (λ e. cc (miss, (eq_iff j k).1 (sym e))) ∙ d.0,
    IsDistinct-insert k v m d.1,
  )
]

pub sum_length-numbered :
    (n : ℕ) (fs : List Fragment) → sum_length (numbered n fs) ≡ count (join_text fs)
unfolding sum_length
sum_length-numbered n [] = refl
sum_length-numbered n (f ∷ fs) =
    omega (arith, sum_length-numbered (suc n) fs, length-append f.text (join_text fs))

-- The row that is found, or else the one that is appended.
abbrev pub or_sent : Option Fragment → String → ℕ → Fragment → Option Fragment
or_sent (some old) session n f = some old
or_sent none session n f =
    if f.responder_session_id == session && same_seq f.client_seq (pos n) then some f else none

pub sent_as-append :
    (session : String) (n : ℕ) (rows : List FragmentRow) (row : FragmentRow)
    → sent_as session (pos n) (rows ++ row ∷ [])
      ≡ or_sent (sent_as session (pos n) rows) session n row.fragment
unfolding sent_as
sent_as-append session n [] row = ground arith
sent_as-append session n (x ∷ rows) row = ground (arith, sent_as-append session n rows row)

abbrev pub if_active : String → Option Request → Option Request
if_active session none = none
if_active session (some r) = if is_active session r then some r else none

active_row_found :
    (session id : String) (m : Dict Request)
    → IsDistinct m
    → ((k : String) (r : Request) → lookup k m ≡ some r → is_active session r ≡ true → k ≡ id)
    → active_row session m ≡ if_active session (lookup id m)
unfolding active_row lookup
active_row_found session id [] d only = refl
active_row_found session id ((k, r) ∷ m) d only =
    let here : lookup k ((k, r) ∷ m) ≡ some r = ground (arith, eq_iff k k) in
    let rest = active_row_found session id m d.1 (λ j q e a.
      only j q
        (elim (Bool-cases (k == j)) [
          | inl hit ↦ cc (d.0, e, ap (λ x. lookup x m) ((eq_iff k j).0 hit))
          | inr miss ↦ rw miss e
        ])
        a) in
    elim (Bool-cases (is_active session r)) [
      | inl active ↦
          let same = only k r here active in
          let gone : lookup id m ≡ none = rw (← same) d.0 in
          rw (same, active) (ground (arith, eq_iff id id, rest, gone, active, same))
      | inr idle ↦ ground (arith, rest, idle, eq_iff k id, d.0)
    ]

-- A row that is active for a session is the one that the session holds.
holder_of_active :
    (s : Service) (session k : String) (r : Request)
    → LifeOf s
    → session ≢ ""
    → lookup k s.requests ≡ some r
    → is_active session r ≡ true
    → lookup session s.active_by_res ≡ some k
unfolding is_active is_terminal
holder_of_active s session k r l named found active =
    let holder : r.responder_session_id ≡ session =
      (eq_iff r.responder_session_id session).0 (ground arith) in
    subst (λ x. lookup x s.active_by_res ≡ some k) holder
      (go r.status _ _ _ (found-Staged l k r found).2 (ground arith) (λ e. named (sym holder ∙ e)))
  where
    go :
        (t : RequestStatus) (q e : Bool) (a : Option String)
        → Stage t r k q a e
        → is_terminal t ≡ false
        → r.responder_session_id ≢ ""
        → a ≡ some k
    go queued q e a st open_yet held = absurd (held st.1)
    go assigned q e a st open_yet held = st.1
    go streaming q e a st open_yet held = st.1
    go completed q e a st open_yet held = cc
    go timeout_completed q e a st open_yet held = cc
    go abandoned q e a st open_yet held = cc
    go RequestStatus.created q e a st open_yet held = absurd st
    go RequestStatus.typing q e a st open_yet held = absurd st
    go RequestStatus.requeued q e a st open_yet held = absurd st

-- In a valid state the query for the active row of a session finds the request that it holds.
pub active_row-active_request :
    (s : Service) (session : String)
    → LifeOf s
    → IsDistinct s.requests
    → session ≢ ""
    → active_row session s.requests
      ≡ if_active session (lookup (active_request s session) s.requests)
active_row-active_request s session l d named =
    active_row_found session (active_request s session) s.requests d (λ k r e a.
      sym (ap (λ (o : Option String). get_or o "") (holder_of_active s session k r l named e a)))
