-- ===== src/Core/Invariants.antt =====
-- What the invariant says to a reader: the life of a request in every state that is reached.
use deeperseek.Core.Accounts.{Bcrypt}
use deeperseek.Core.History.{Reaches, Reaches-IsValid}
use deeperseek.Core.Lifecycle.Invariant.{Stage, found-Staged}
use deeperseek.Core.State.{Service, fragments_of}
use deeperseek.Core.Types.{
  Request, RequestStatus, queued, assigned, streaming, completed, timeout_completed, abandoned,
}
use deeperseek.Prelude.{
  ℕ, String, Bool, true, false, Option, none, some, lookup, contains, IsNodup, is_empty, ◌≡◌, refl,
  ◌⊎◌, inl, inr, sym, ap, ◌∙◌, ◌↔◌,
}

module _ (b : Bcrypt) (entropy : ℕ → String) {s : Service} (reached : Reaches b entropy s) where
  -- A responder holds at most one request, by the type of the table; here, a request is held by at
  -- most one responder, which is the one that its record names.
  pub Reaches-one_responder :
      (x y k : String)
      → lookup x s.active_by_res ≡ some k
      → lookup y s.active_by_res ≡ some k
      → x ≡ y
  Reaches-one_responder x y k ex ey =
      let l = (Reaches-IsValid b entropy reached).tables in
      let hx = l.held x k ex in
      let hy = l.held y k ey in
      sym hx.holder ∙ ap (λ (o : Option Request). responder o) (sym hx.found ∙ hy.found) ∙ hy.holder
    where
      responder : Option Request → String
      responder none = ""
      responder (some r) = r.responder_session_id

  -- A request is in the queue exactly when its status is `queued`, and never twice.
  pub Reaches-queue :
      (k : String) (r : Request)
      → lookup k s.requests ≡ some r
      → IsNodup s.queue × ((contains s.queue k ≡ true) ↔ (r.status ≡ queued))
  Reaches-queue k r found =
      let l = (Reaches-IsValid b entropy reached).tables in
      (l.once, go r.status _ _ _ (found-Staged l k r found).2)
    where
      go :
          (t : RequestStatus) (q e : Bool) (a : Option String)
          → Stage t r k q a e
          → (q ≡ true) ↔ (t ≡ queued)
      go queued q e a st = (λ _. refl, λ _. st.0)
      go assigned q e a st = ((λ h. cc (st.0)), (λ h. cc))
      go streaming q e a st = ((λ h. cc (st.0)), (λ h. cc))
      go completed q e a st = ((λ h. cc (st.0)), (λ h. cc))
      go timeout_completed q e a st = ((λ h. cc (st.0)), (λ h. cc))
      go abandoned q e a st = ((λ h. cc (st.0)), (λ h. cc))
      go RequestStatus.created q e a st = absurd st
      go RequestStatus.typing q e a st = absurd st
      go RequestStatus.requeued q e a st = absurd st

  -- The states that the code uses: a request has an answer exactly in `streaming`, `completed` and
  -- `timeout_completed`, and is never in `created`, `typing` or `requeued`.
  pub Reaches-status :
      (k : String) (r : Request)
      → lookup k s.requests ≡ some r
      → ((is_empty (fragments_of s k) ≡ true)
          × ((r.status ≡ queued) ⊎ (r.status ≡ assigned) ⊎ (r.status ≡ abandoned)))
        ⊎ ((is_empty (fragments_of s k) ≡ false)
            × ((r.status ≡ streaming) ⊎ (r.status ≡ completed) ⊎ (r.status ≡ timeout_completed)))
  Reaches-status k r found =
      go r.status _ _ _ (found-Staged (Reaches-IsValid b entropy reached).tables k r found).2
    where
      go :
          (t : RequestStatus) (q e : Bool) (a : Option String)
          → Stage t r k q a e
          → ((e ≡ true) × ((t ≡ queued) ⊎ (t ≡ assigned) ⊎ (t ≡ abandoned)))
            ⊎ ((e ≡ false) × ((t ≡ streaming) ⊎ (t ≡ completed) ⊎ (t ≡ timeout_completed)))
      go queued q e a st = inl (st.2, inl refl)
      go assigned q e a st = inl (st.2, inr (inl refl))
      go abandoned q e a st = inl (st.1, inr (inr refl))
      go streaming q e a st = inr (st.2, inl refl)
      go completed q e a st = inr (st.1, inr (inl refl))
      go timeout_completed q e a st = inr (st.1, inr (inr refl))
      go RequestStatus.created q e a st = absurd st
      go RequestStatus.typing q e a st = absurd st
      go RequestStatus.requeued q e a st = absurd st
