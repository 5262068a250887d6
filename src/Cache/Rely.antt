-- ===== src/Cache/Rely.antt =====
-- Pre- and postconditions of a method that runs under locks.
use fit.Common.{ℕ, inl, inr, List, [], ◌∷◌, any, Bool-cases}
use fit.Store.{FlowKey, Store}
use fit.Runtime.{Reason, Turn, M, visit, pure, ◌>>=◌}
use fit.Runtime.Rely.{
  Outcome, Stable, Goes, pure-Goes, visit-Goes, require-Goes, bind-Goes, finally-Goes,
}
use fit.Cache.Locks.{IgnoresLocks}
use fit.Cache.{is_live, is_owned, acquire_lock, release_lock, with_flow_lock, with_flow_locks}

module _ {P : Store → Type 0} (free : IgnoresLocks P) where
  acquire_lock-Outcome :
      (fail : Store → Type 0) (k : FlowKey) (ttl : ℕ) (t : Turn) (s : Store)
      → P s
      → Outcome (λ _. P) fail (acquire_lock k ttl t s).0 (acquire_lock k ttl t s).1
  unfolding acquire_lock
  acquire_lock-Outcome fail k ttl t s p = elim (Bool-cases (any (is_live k t.now) s.locks)) [
    | inl e ↦ rw e p
    | inr e ↦ rw e (free s _ p)
  ]

  release_lock-Outcome :
      (k : FlowKey) (token : ℕ) (t : Turn) (s : Store)
      → P s
      → Outcome (λ _. P) P (release_lock k token t s).0 (release_lock k token t s).1
  unfolding release_lock
  release_lock-Outcome k token t s p = elim (Bool-cases (any (is_owned k token t.now) s.locks)) [
    | inl e ↦ rw e (free s _ p)
    | inr e ↦ rw e p
  ]

module _ (turns : ℕ → Turn) where
  -- A condition that says nothing of locks and that the others keep.
  pub record Lasts (P : Store → Type 0) : Type 0 where
    pub free : IgnoresLocks P
    pub stable : Stable turns P

  release-Goes :
      {P : Store → Type 0}
      → Lasts P
      → (k : FlowKey) (token : ℕ)
      → Goes turns P {A = Unit {0}} (visit (release_lock k token) >>= λ _. pure tt) (λ _. P) P
  release-Goes {P} h k token =
      bind-Goes turns {mid = λ _. P}
        (visit-Goes turns _ h.stable (release_lock-Outcome h.free k token))
        λ _. pure-Goes turns tt λ s p. p

  module _ {ℓ} {A : Type ℓ} {pre fail : Store → Type 0} {post : A → Store → Type 0}
      (start : Lasts pre) (end : (a : A) → Lasts (post a)) (failed : Lasts fail)
      (busy : (s : Store) → pre s → fail s) where
    with_flow_lock-Goes :
        (k : FlowKey) {m : M A} (r : Reason)
        → Goes turns pre m post fail
        → Goes turns pre (with_flow_lock k m r) post fail
    unfolding with_flow_lock
    with_flow_lock-Goes k r h =
        bind-Goes turns {mid = λ _. pre}
          (visit-Goes turns _ start.stable (acquire_lock-Outcome start.free fail k _))
          λ found.
            bind-Goes turns {mid = λ _. pre} (require-Goes turns found _ busy λ a s e p. p) λ lock.
              finally-Goes turns h (λ a. release-Goes (end a) lock.key lock.token)
                (release-Goes failed lock.key lock.token)

    pub with_flow_locks-Goes :
        (ks : List FlowKey) {m : M A} (r : Reason)
        → Goes turns pre m post fail
        → Goes turns pre (with_flow_locks ks m r) post fail
    unfolding with_flow_locks
    with_flow_locks-Goes [] r h = h
    with_flow_locks-Goes (k ∷ ks) r h = with_flow_lock-Goes k r (with_flow_locks-Goes ks r h)
