-- ===== src/Core/Reactions/Rewards.antt =====
-- The responder's reward follows the reaction: the ledger always holds the difference.
use deeperseek.Core.Points.{ledger_total}
use deeperseek.Core.Reactions.{reward_for, is_zero, reward_change, apply_reaction, react}
use deeperseek.Core.State.{Service, add_ledger_locked, is_unset}
use deeperseek.Core.Types.{Time, Session, Request, Reaction, PointEntry}
use deeperseek.Prelude.{
  ℕ, String, true, false, ◌||◌, some, List, [], ◌∷◌, ◌++◌, ℤ, pos, pos_part, neg_part, ◌+ℤ◌, ◌-ℤ◌,
  int_laws, lookup, ◌≡◌, refl, ◌⊎◌, inl, inr, arith, subst, sym, ap, ◌∙◌, eq_refl, ◌==◌,
  lookup-insert_self, Bool-cases, Option-cases, if◌then◌else◌,
}

+ℤ_assoc : (a b c : ℤ) → a +ℤ (b +ℤ c) ≡ a +ℤ b +ℤ c
+ℤ_assoc a b c = omega int_laws

+ℤ-pos_zero : (a : ℤ) → a +ℤ pos 0 ≡ pos 0 +ℤ a
+ℤ-pos_zero a = omega int_laws

pos-shift : (a : ℤ) (m n : ℕ) → a +ℤ (pos m -ℤ pos n) +ℤ pos n ≡ a +ℤ pos m
pos-shift a m n = omega int_laws

pub ledger_total-append :
    (user : String) (es : List PointEntry) (e : PointEntry)
    → ledger_total user (es ++ e ∷ [])
      ≡ (if e.user_id == user then ledger_total user es +ℤ e.delta else ledger_total user es)
unfolding ledger_total
ledger_total-append user [] e = elim (Bool-cases (e.user_id == user)) [
  | inl mine ↦ rw mine (+ℤ-pos_zero e.delta)
  | inr other ↦ rw other
]
ledger_total-append user (x ∷ es) e = elim (Bool-cases (e.user_id == user)) [
  | inl mine ↦ elim (Bool-cases (x.user_id == user)) [
    | inl hit ↦ rw mine (
        rw hit (
          rw (ledger_total-append user es e)
            (rw mine (+ℤ_assoc x.delta (ledger_total user es) e.delta))))
    | inr miss ↦ rw mine (rw miss (rw (ledger_total-append user es e) (rw mine)))
  ]
  | inr other ↦ ground (arith, ledger_total-append user es e)
]

-- The request that a reaction is for has a responder with an account.
abbrev pub IsPaid : Request → Type 0
IsPaid r = (r.responder_guest || is_unset r.responder_user_id) ≡ false

-- One reaction, on any branch: the ledger of the responder and the reward of the request's reaction
-- move together.
pub record Follows (s s' : Service) (id : String) (r : Request) : Type 0 where
  pub after : Request
  pub found : lookup id s'.requests ≡ some after
  pub named : after.id ≡ r.id
  pub paid : IsPaid after
  pub responder : after.responder_user_id ≡ r.responder_user_id
  pub together :
      ledger_total r.responder_user_id s'.ledger +ℤ pos (reward_for r.reaction)
      ≡ ledger_total r.responder_user_id s.ledger +ℤ pos (reward_for after.reaction)

reward_change-zero :
    (old new : Reaction) → is_zero (reward_change old new) ≡ true → reward_for new ≡ reward_for old
unfolding ◌-ℤ◌
reward_change-zero old new h = ground arith

apply_reaction-Follows :
    (session : Session) (r : Request) (reaction : Reaction) (now : Time) (s : Service)
    → IsPaid r
    → Follows s (apply_reaction session r reaction now s).1 r.id r
unfolding apply_reaction add_ledger_locked
apply_reaction-Follows session r reaction now s paid =
    elim (Bool-cases (is_zero (reward_change r.reaction reaction))) [
      | inl same ↦ rw paid (
          rw same (record {
            after = record r { reaction = reaction };
            found = lookup-insert_self r.id _ s.requests;
            named = refl;
            paid = paid;
            responder = refl;
            together =
                ap (λ n. ledger_total r.responder_user_id s.ledger +ℤ pos n)
                  (sym (reward_change-zero r.reaction reaction same));
          }))
      | inr moved ↦ rw paid (
          rw moved (record {
            after = record r { reaction = reaction };
            found = lookup-insert_self r.id _ s.requests;
            named = refl;
            paid = paid;
            responder = refl;
            together = rw (ledger_total-append r.responder_user_id s.ledger) (
                rw (eq_refl r.responder_user_id) (
                  pos-shift (ledger_total r.responder_user_id s.ledger) (reward_for reaction)
                    (reward_for r.reaction)));
          }))
    ]

react-Follows :
    (token id : String) (reaction : Reaction) (now later : Time) (s : Service) (r : Request)
    → lookup id s.requests ≡ some r
    → r.id ≡ id
    → IsPaid r
    → Follows s (react token id reaction now later s).1 id r
unfolding react
react-Follows token id reaction now later s r found keyed paid =
    elim (Option-cases (lookup token s.sessions_by_tok)) [
      | inl unknown ↦ subst (λ t. Follows s t id r) (ground arith) stays
      | inr (session, known) ↦
          let s' = (apply_reaction session r reaction later s).1 in
          let cases : ((react token id reaction now later s).1 ≡ s)
              ⊎ ((react token id reaction now later s).1 ≡ s') =
            ground arith in
          elim cases [
            | inl same ↦ subst (λ t. Follows s t id r) (sym same) stays
            | inr moved ↦
                subst (λ t. Follows s t id r) (sym moved)
                  (subst (λ k. Follows s s' k r) keyed
                    (apply_reaction-Follows session r reaction later s paid))
          ]
    ]
  where
    stays : Follows s s id r
    stays = record {
      after = r;
      found = found;
      named = refl;
      paid = paid;
      responder = refl;
      together = refl;
    }

-- Calls of React for one request: token, reaction and the two readings of the clock.
pub record Reacting : Type 0 where
  pub token : String
  pub reaction : Reaction
  pub now : Time
  pub later : Time

unfoldable pub react_all : String → List Reacting → Service → Service
react_all id [] s = s
react_all id (c ∷ cs) s = react_all id cs (react c.token id c.reaction c.now c.later s).1

telescope :
    (a b c : ℤ) (x y z : ℕ)
    → b +ℤ pos x ≡ a +ℤ pos y
    → c +ℤ pos y ≡ b +ℤ pos z
    → c +ℤ pos x ≡ a +ℤ pos z
telescope a b c x y z h k =
    omega (int_laws, ap pos_part h, ap neg_part h, ap pos_part k, ap neg_part k)

-- For a request that stands under its own id and whose responder has an account: after any sequence
-- of reactions to it, by anybody and whether they are accepted or refused, the points of the
-- responder have changed by the reward of the reaction that the request now has, less the reward of
-- the one that it had.
pub react_all-Follows :
    (id : String) (cs : List Reacting) (s : Service) (r : Request)
    → lookup id s.requests ≡ some r
    → r.id ≡ id
    → IsPaid r
    → Follows s (react_all id cs s) id r
unfolding react_all
react_all-Follows id [] s r found keyed paid = record {
  after = r;
  found = found;
  named = refl;
  paid = paid;
  responder = refl;
  together = refl;
}
react_all-Follows id (c ∷ cs) s r found keyed paid =
    let one = react-Follows c.token id c.reaction c.now c.later s r found keyed paid in
    let s₁ = (react c.token id c.reaction c.now c.later s).1 in
    let rest = react_all-Follows id cs s₁ one.after one.found (one.named ∙ keyed) one.paid in
    let s₂ = react_all id cs s₁ in
    record {
      after = rest.after;
      found = rest.found;
      named = rest.named ∙ one.named;
      paid = rest.paid;
      responder = rest.responder ∙ one.responder;
      together =
          telescope (ledger_total r.responder_user_id s.ledger)
            (ledger_total r.responder_user_id s₁.ledger)
            (ledger_total r.responder_user_id s₂.ledger) (reward_for r.reaction)
            (reward_for one.after.reaction) (reward_for rest.after.reaction) one.together
            (subst
              (λ u.
                ledger_total u s₂.ledger +ℤ pos (reward_for one.after.reaction)
                ≡ ledger_total u s₁.ledger +ℤ pos (reward_for rest.after.reaction))
              one.responder rest.together);
    }
