-- ===== src/Cache/Locks.antt =====
-- A method that runs under locks keeps what it keeps without them.
use fit.Common.{ℕ, inl, inr, List, [], ◌∷◌, any, Bool-cases}
use fit.Store.{FlowKey, LockEntry, Store}
use fit.Runtime.{Reason, Turn, M}
use fit.Runtime.Logic.{
  Safe, SafeAt, Any, visit-Safe, require-Safe, bind-Safe, pure-Safe, finally-Safe,
}
use fit.Cache.{is_live, is_owned, acquire_lock, release_lock, with_flow_lock, with_flow_locks}

-- A property of the store that says nothing of the locks.
abbrev pub IgnoresLocks : (Store → Type 0) → Type 0
IgnoresLocks P = (s : Store) (ls : List LockEntry) → P s → P (record s { locks = ls })

module _ {P : Store → Type 0} (free : IgnoresLocks P) where
  acquire_lock-SafeAt :
      (k : FlowKey) (ttl : ℕ) (t : Turn) (s : Store) → P s → SafeAt P Any (acquire_lock k ttl t s)
  unfolding acquire_lock
  acquire_lock-SafeAt k ttl t s p = elim (Bool-cases (any (is_live k t.now) s.locks)) [
    | inl e ↦ rw e (record { keeps = p; gives = tt })
    | inr e ↦ rw e (record { keeps = free s _ p; gives = tt })
  ]

  release_lock-SafeAt :
      (k : FlowKey) (token : ℕ) (t : Turn) (s : Store)
      → P s
      → SafeAt P Any (release_lock k token t s)
  unfolding release_lock
  release_lock-SafeAt k token t s p = elim (Bool-cases (any (is_owned k token t.now) s.locks)) [
    | inl e ↦ rw e (record { keeps = free s _ p; gives = tt })
    | inr e ↦ rw e (record { keeps = p; gives = tt })
  ]

  module _ {ℓ κ} {A : Type ℓ} {Q : A → Type κ} where
    with_flow_lock-Safe :
        (k : FlowKey) {m : M A} (r : Reason) → Safe P m Q → Safe P (with_flow_lock k m r) Q
    unfolding with_flow_lock
    with_flow_lock-Safe k r h = bind-Safe (visit-Safe _ (acquire_lock-SafeAt k _)) λ found _.
        bind-Safe (require-Safe found _) λ lock _.
          finally-Safe h (bind-Safe (visit-Safe _ (release_lock-SafeAt _ _)) λ _ _. pure-Safe tt tt)

    pub with_flow_locks-Safe :
        (ks : List FlowKey) {m : M A} (r : Reason) → Safe P m Q → Safe P (with_flow_locks ks m r) Q
    unfolding with_flow_locks
    with_flow_locks-Safe [] r h = h
    with_flow_locks-Safe (k ∷ ks) r h = with_flow_lock-Safe k r (with_flow_locks-Safe ks r h)
