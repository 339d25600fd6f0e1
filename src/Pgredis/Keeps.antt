-- ===== src/Pgredis/Keeps.antt =====
-- Each write of the engine leaves a state that the tables still mirror.
pub mod Fragments
use deeperseek.Core.Lifecycle.{
  publish_locked, requeue_locked, abandon_locked, complete_locked, pay_responder, done_event,
  completed_request, earns_reward,
}
use deeperseek.Core.Responders.Answers.{
  SameTexts, publish_locked-SameTexts, pay_responder-SameTexts,
}
use deeperseek.Core.Responders.{seq_key}
use deeperseek.Core.State.{Service, is_terminal, add_ledger_locked, put_request}
use deeperseek.Core.Types.{
  Time, Request, FinishReason, StreamEvent, PointEntry, EntryKind, signup, question_charge,
  answer_reward, reaction_adjustment, base_answer_reward,
}
use deeperseek.Pgredis.Mirror.{Mirrors, Billed, numbered, IsDistinct, has_clash-append}
use deeperseek.Pgredis.Mirror.Rows.{IsDistinct-insert}
use deeperseek.Pgredis.Steps.{publish_locked-db_of}
use deeperseek.Pgredis.Tables.{Db, FragmentRow, has_clash, clashes, is_signup}
use deeperseek.Prelude.{
  String, true, false, Option, none, some, List, [], ◌∷◌, ◌++◌, ◌<>◌, ℤ, pos, delete, lookup,
  insert, at, ◌≡◌, refl, ◌≢◌, ◌⊎◌, inl, inr, sym, ap, ◌∙◌, subst, arith, eq_iff, lookup-insert_self,
  lookup-insert_ne, Bool-cases, String-cases,
}

clashes_ne :
    (kind : EntryKind) (user k : String) (e : PointEntry)
    → is_signup e.kind ≡ false
    → e.request_id ≢ k
    → clashes kind user k e ≡ false
unfolding clashes
clashes_ne signup user k e other ne = ground arith
clashes_ne question_charge user k e other ne = ground (arith, eq_iff e.request_id k)
clashes_ne answer_reward user k e other ne = ground (arith, eq_iff e.request_id k)
clashes_ne reaction_adjustment user k e other ne = refl

-- The ledger has grown by entries for one request only, none of them a signup.
abbrev pub Elsewhere : String → List PointEntry → List PointEntry → Type 0
Elsewhere id ledger ledger' =
    (kind : EntryKind) (user k : String)
    → id ≢ k
    → has_clash kind user k ledger ≡ false
    → has_clash kind user k ledger' ≡ false

Elsewhere-append :
    (id : String) (ledger : List PointEntry) (e : PointEntry)
    → is_signup e.kind ≡ false
    → e.request_id ≡ id
    → Elsewhere id ledger (ledger ++ e ∷ [])
Elsewhere-append id ledger e other own kind user k ne h = ground (
  arith,
  has_clash-append kind user k ledger e,
  clashes_ne kind user k e other (λ p. ne (sym own ∙ p)),
)

Billed-Elsewhere :
    (id k : String) (ledger ledger' : List PointEntry) (o : Option Request)
    → Elsewhere id ledger ledger'
    → id ≢ k
    → Billed ledger k o
    → Billed ledger' k o
Billed-Elsewhere id k ledger ledger' none away ne b =
    (λ u. away question_charge u k ne (b.0 u), λ u. away answer_reward u k ne (b.1 u))
Billed-Elsewhere id k ledger ledger' (some r) away ne b = (
  λ open_yet u. away question_charge u k ne (b.0 open_yet u),
  λ open_yet u. away answer_reward u k ne (b.1 open_yet u),
)

-- One request is written, and the ledger grows for it.
pub put-Mirrors :
    (s s' : Service) (rows : List FragmentRow) (id : String) (r : Request)
    → Mirrors s rows
    → SameTexts s s'
    → s'.requests ≡ insert id r s.requests
    → Elsewhere id s.ledger s'.ledger
    → Billed s'.ledger id (some r)
    → Mirrors s' rows
put-Mirrors s s' rows id r m same changed away own = record {
  texts = λ k. m.texts k ∙ ap (λ t. numbered 1 (at [] k t)) (sym same.texts);
  seen = λ k session n.
      ap (λ t. lookup (seq_key session (pos n)) (at [] k t)) same.seen ∙ m.seen k session n;
  distinct = rw changed (IsDistinct-insert id r s.requests m.distinct);
  billed = λ k. rw changed (elim (String-cases id k) [
    | inl here ↦
        subst (λ j. Billed s'.ledger j (lookup j (insert id r s.requests))) here
          (rw (lookup-insert_self id r s.requests) own)
    | inr there ↦
        rw (lookup-insert_ne id k r s.requests there)
          (Billed-Elsewhere id k s.ledger s'.ledger (lookup k s.requests) away there (m.billed k))
  ]);
}

pub publish-Mirrors :
    (e : StreamEvent) (s : Service) (rows : List FragmentRow)
    → Mirrors s rows
    → Mirrors (publish_locked e s) rows
publish-Mirrors e s rows m =
    let same = publish_locked-SameTexts e s in
    let db = publish_locked-db_of e s rows in
    record {
      texts = λ k. m.texts k ∙ ap (λ t. numbered 1 (at [] k t)) (sym same.texts);
      seen = λ k session n.
          ap (λ t. lookup (seq_key session (pos n)) (at [] k t)) same.seen ∙ m.seen k session n;
      distinct = subst IsDistinct (sym (ap (λ (d : Db). d.requests) db)) m.distinct;
      billed =
          λ k. subst (λ (d : Db). Billed d.ledger k (lookup k d.requests)) (sym db) (m.billed k);
    }

pub bill_of :
    (s : Service) (rows : List FragmentRow) (r : Request)
    → Mirrors s rows
    → lookup r.id s.requests ≡ some r
    → Billed s.ledger r.id (some r)
bill_of s rows r m found = subst (Billed s.ledger r.id) found (m.billed r.id)

module _ (r : Request) (now : Time) (s : Service) (rows : List FragmentRow) (m : Mirrors s rows)
    (found : lookup r.id s.requests ≡ some r) (open_yet : is_terminal r.status ≡ false) where
  pub requeue-Mirrors : Mirrors (requeue_locked r now s) rows
  unfolding requeue_locked
  requeue-Mirrors =
      let b = bill_of s rows r m found in
      put-Mirrors s _ rows r.id _ m (record { texts = refl; seen = refl }) refl
        (λ kind user k ne h. h) (b.0, λ still. b.1 open_yet)

  pub abandon-Mirrors : Mirrors (abandon_locked r now s) rows
  unfolding abandon_locked is_terminal
  abandon-Mirrors =
      let b = bill_of s rows r m found in
      publish-Mirrors _ _ rows (
        put-Mirrors s _ rows r.id _ m (record { texts = refl; seen = refl }) refl
          (λ kind user k ne h. h) (b.0, λ still. b.1 open_yet))

-- What a state's ledger has after an entry for a request.
pub record Entered (kind : EntryKind) (id : String) (ledger ledger' : List PointEntry)
    : Type 0 where
  pub entry : PointEntry
  pub of_kind : entry.kind ≡ kind
  pub of_request : entry.request_id ≡ id
  pub grown : ledger' ≡ ledger ++ entry ∷ []

pub add_ledger-Entered :
    (user id : String) (kind : EntryKind) (delta : ℤ) (now : Time) (s : Service)
    → Entered kind id s.ledger (add_ledger_locked user id kind delta now s).ledger
unfolding add_ledger_locked
add_ledger-Entered user id kind delta now s = record {
  entry = record {
    id = ("pts" <> "_") <> s.entropy s.drawn;
    user_id = user;
    request_id = id;
    kind = kind;
    delta = delta;
    created_at = now;
  };
  of_kind = refl;
  of_request = refl;
  grown = refl;
}

pub Entered-Elsewhere :
    (kind : EntryKind) (id : String) (ledger ledger' : List PointEntry)
    → is_signup kind ≡ false
    → Entered kind id ledger ledger'
    → Elsewhere id ledger ledger'
Entered-Elsewhere kind id ledger ledger' other e =
    subst (Elsewhere id ledger) (sym e.grown)
      (Elsewhere-append id ledger e.entry (ap is_signup e.of_kind ∙ other) e.of_request)

-- An entry of one kind is none of another.
pub Entered-other_kind :
    (id user : String) (ledger ledger' : List PointEntry)
    → (Entered answer_reward id ledger ledger'
        → has_clash question_charge user id ledger ≡ false
        → has_clash question_charge user id ledger' ≡ false)
      × (Entered question_charge id ledger ledger'
          → has_clash answer_reward user id ledger ≡ false
          → has_clash answer_reward user id ledger' ≡ false)
unfolding clashes
Entered-other_kind id user ledger ledger' = (
  λ e h.
      rw e.grown
        (ground (arith, h, e.of_kind, has_clash-append question_charge user id ledger e.entry)),
  λ e h.
      rw e.grown
        (ground (arith, h, e.of_kind, has_clash-append answer_reward user id ledger e.entry)),
)

pay-requests :
    (r : Request) (now : Time) (s : Service) → (pay_responder r now s).requests ≡ s.requests
unfolding pay_responder add_ledger_locked
pay-requests r now s = ground arith

-- A payment adds nothing, or a reward for its request.
pay-Entered :
    (r : Request) (now : Time) (s : Service)
    → (pay_responder r now s ≡ s)
      ⊎ Entered answer_reward r.id s.ledger (pay_responder r now s).ledger
unfolding pay_responder
pay-Entered r now s = elim (Bool-cases (earns_reward s r)) [
  | inl earns ↦ inr (
      rw earns
        (add_ledger-Entered r.responder_user_id r.id answer_reward (pos base_answer_reward) now s))
  | inr none_due ↦ inl (rw none_due)
]

pub complete-Mirrors :
    (r : Request) (reason : FinishReason) (now : Time) (s : Service) (rows : List FragmentRow)
    → Mirrors s rows
    → lookup r.id s.requests ≡ some r
    → is_terminal r.status ≡ false
    → Mirrors (complete_locked r reason now s) rows
unfolding complete_locked put_request is_terminal
complete-Mirrors r reason now s rows m found open_yet =
    let b = bill_of s rows r m found in
    let done = completed_request reason now r in
    let s₁ : Service = record s {
      active_by_res = delete r.responder_session_id s.active_by_res;
      requests = insert r.id done s.requests;
    } in
    let s₂ = pay_responder r now s₁ in
    let same = pay_responder-SameTexts r now s₁ in
    let over : is_terminal done.status ≡ true = ground arith in
    let wrote =
      put-Mirrors s s₂ rows r.id done m (record { texts = same.texts; seen = same.seen })
        (pay-requests r now s₁) in
    rw open_yet (
      publish-Mirrors (done_event r reason) s₂ rows (elim (pay-Entered r now s₁) [
        | inl none_due ↦
            let kept : s₂.ledger ≡ s.ledger = ap (λ (t : Service). t.ledger) none_due in
            wrote (rw kept (λ kind user k ne h. h))
              (rw kept (b.0, λ still. absurd (cc (still, over))))
        | inr paid ↦ wrote (Entered-Elsewhere answer_reward r.id s.ledger s₂.ledger refl paid) (
          λ uncharged u. (Entered-other_kind r.id u s.ledger s₂.ledger).0 paid (b.0 uncharged u),
          λ still. absurd (cc (still, over)),
        )
      ]))
