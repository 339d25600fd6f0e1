-- ===== src/Pgredis/Redis/Tracked.antt =====
-- The requests that the tables have as queued are in the queue of Redis, after each end of a pair.
use deeperseek.Core.State.{is_unset}
use deeperseek.Core.Types.{Time, Session, Request}
use deeperseek.Pgredis.Creation.{is_queued}
use deeperseek.Pgredis.Redis.{
  default_routing, Redis, Cluster, preferred_of, is_compatible, min_fresh, enqueue_request,
  release_lock, add_available, publish_assignment, pair_up, remove_first, assign_next,
  is_assignable, set_assigned,
}
use deeperseek.Pgredis.Redis.Scan.{Exhausted, Pairing}
use deeperseek.Prelude.{
  ℕ, String, true, false, some, List, [], ◌∷◌, ◌++◌, lookup, insert, contains, ◌==◌, ◌≡◌, sym,
  subst, ap, ◌∙◌, ◌≢◌, inl, inr, arith, eq_iff, String-cases, contains-append, lookup-insert_self,
  lookup-insert_ne, at,
}

-- A request that the tables have as queued is in the queue, and is routed as its row says.
pub record Tracked (r : Redis) (id : String) (row : Request) : Type 0 where
  pub waits : contains r.queue id ≡ true
  pub routed : preferred_of r id ≡ row.preferred_responder_session_id

abbrev pub IsTracked : Cluster → Type 0
IsTracked c =
    (id : String) (row : Request)
    → lookup id c.db.requests ≡ some row
    → is_queued row.status ≡ true
    → Tracked c.redis id row

pub contains-middle :
    (xs : List String) (x : String) (ys : List String) (y : String)
    → x ≢ y
    → contains (xs ++ x ∷ ys) y ≡ contains (xs ++ ys) y
contains-middle [] x ys y other = ground (arith, eq_iff x y)
contains-middle (z ∷ xs) x ys y other = ground (arith, contains-middle xs x ys y other)

pub stop-IsTracked :
    (now : Time) (c : Cluster)
    → IsTracked c
    → Exhausted (min_fresh now) [] c.redis.available c.redis
    → IsTracked (record c { redis = (assign_next now c.redis).1 })
unfolding assign_next preferred_of
stop-IsTracked now c t o id row here q =
    let w = t id row here q in
    record {
      waits =
          ap (λ p. contains p.1.queue id) o.result
          ∙ ap (λ l. contains l id) o.alike.queue
          ∙ w.waits;
      routed =
          ap (λ p. preferred_of p.1 id) o.result
          ∙ ap (λ l. (at default_routing id l).preferred) o.alike.routing
          ∙ w.routed;
    }

-- The row of a pair that is refused is not queued.
pub refused-row :
    (r : Redis) (sid id : String) (row : Request)
    → is_compatible r sid id ≡ true
    → preferred_of r id ≡ row.preferred_responder_session_id
    → is_assignable sid row ≡ false
    → is_queued row.status ≡ false
unfolding is_compatible is_assignable
refused-row r sid id row fits routed refused =
    ground (arith, fits, refused, ap is_unset routed, ap (λ p. p == sid) routed)

-- What the pair leaves of the keys: a queue without the request, and the routing as it was.
pub record Left (r r' : Redis) (id : String) : Type 0 where
  pub others : (k : String) → id ≢ k → contains r.queue k ≡ true → contains r'.queue k ≡ true
  pub routed : (k : String) → preferred_of r' k ≡ preferred_of r k

pub pair_up-Left :
    (fresh : ℕ) (r : Redis) (id sid : String) (available : List String)
    (p : Pairing fresh [] r.available r id sid)
    → Left r (pair_up id sid available p.redis) id
unfolding pair_up preferred_of
pair_up-Left fresh r id sid available p =
    let o = p.oldest in
    record {
      others = λ k other h.
          ap (λ q. contains (remove_first id q) k) p.alike.queue
          ∙ ap (λ q. contains q k) o.left
          ∙ sym (contains-middle o.before id o.after k other)
          ∙ sym (ap (λ q. contains q k) o.split)
          ∙ h;
      routed = λ k. ap (λ l. (at default_routing k l).preferred) p.alike.routing;
    }

-- The three ends of a pair.
pub requeued-IsTracked :
    (id : String) (c : Cluster) (r' : Redis)
    → IsTracked c
    → Left c.redis r' id
    → IsTracked (record c { redis = enqueue_request id (release_lock id r') })
unfolding enqueue_request release_lock preferred_of
requeued-IsTracked id c r' t l k row here q =
    let w = t k row here q in
    record {
      waits = contains-append r'.queue id k ∙ elim (String-cases id k) [
        | inl e ↦ ground (arith, eq_iff id k)
        | inr other ↦ ground (arith, l.others k other w.waits)
      ];
      routed = l.routed k ∙ w.routed;
    }

pub refused-IsTracked :
    (id sid : String) (c : Cluster) (r' : Redis)
    → IsTracked c
    → Left c.redis r' id
    → is_compatible c.redis sid id ≡ true
    → ((row : Request) → lookup id c.db.requests ≡ some row → is_assignable sid row ≡ false)
    → IsTracked (record c { redis = add_available sid (release_lock id r') })
unfolding add_available release_lock preferred_of
refused-IsTracked id sid c r' t l fits refused k row here q =
    let w = t k row here q in
    elim (String-cases id k) [
      | inl e ↦
          let found = ap (λ x. lookup x c.db.requests) e ∙ here in
          let fitted = subst (λ x. is_compatible c.redis sid x ≡ true) e fits in
          ground (arith, q, refused-row c.redis sid k row fitted w.routed (refused row found))
      | inr other ↦ record { waits = l.others k other w.waits; routed = l.routed k ∙ w.routed }
    ]

pub assigned-IsTracked :
    (now : Time) (id sid : String) (session : Session) (row₀ : Request) (c : Cluster) (r' : Redis)
    → IsTracked c
    → Left c.redis r' id
    → IsTracked (record {
      db = record c.db { requests = insert id (set_assigned session now row₀) c.db.requests };
      redis = publish_assignment sid (some (set_assigned session now row₀)) r';
    })
unfolding publish_assignment preferred_of
assigned-IsTracked now id sid session row₀ c r' t l k row here q = elim (String-cases id k) [
  | inl e ↦
      let found =
        sym (lookup-insert_self id (set_assigned session now row₀) c.db.requests)
        ∙ ap (λ x. lookup x (insert id (set_assigned session now row₀) c.db.requests)) e
        ∙ here in
      ground (arith, found, q)
  | inr other ↦
      let before =
        sym (lookup-insert_ne id k (set_assigned session now row₀) c.db.requests other) ∙ here in
      let w = t k row before q in
      record { waits = l.others k other w.waits; routed = l.routed k ∙ w.routed }
]
