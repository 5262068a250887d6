-- ===== src/Cache/Exclusion.antt =====
-- What the locks guarantee between requests.
use mathlib.Core.Path.{subst}
use fit.Common.{
  ℕ, ◌+◌, ◌<◌, ◌≡◌, ◌≢◌, refl, sym, inl, inr, true, false, Option, none, some, List, [], ◌∷◌, arith,
  any, remove, Bool-cases,
}
use fit.Store.{
  FlowKey, booking_request_decision, booking_request_state, booking_request_convert,
  booking_request_cap, posting_booking_window, LockEntry, Store,
}
use fit.Runtime.{Reason, conflict, Error, ok, err, Turn, World, M, require, finally, ◌>>=◌}
use fit.Runtime.Logic.{Any}
use fit.Runtime.Outcomes.{Outcome, Ends, visit-Ends, require-Ends, bind-Ends, finally-Ends}
use fit.Cache.{
  RedisLock, same_key, is_live, is_owned, acquire_lock, release_lock, with_flow_lock,
  with_flow_locks,
}

-- A method under locks ends as it does without them, or by the conflict of a lock that is taken.
module _ {ℓ} {A : Type ℓ} {Q : A → Type 0} {E : Error → Type 0} where
  with_flow_lock-Ends :
      (k : FlowKey) {m : M A} (r : Reason)
      → E (conflict r)
      → Ends m Q E
      → Ends (with_flow_lock k m r) Q E
  unfolding with_flow_lock acquire_lock
  with_flow_lock-Ends k r busy h =
      bind-Ends {Q = Any} (visit-Ends _ λ t s. acquired k t s)
        λ found _. bind-Ends (require-Ends found _ busy) λ lock _. finally-Ends _ h
    where
      acquired :
          (k : FlowKey) (t : Turn) (s : Store)
          → Outcome {A = Option RedisLock} Any E (acquire_lock k 15_000 t s).0
      acquired k t s = elim (Bool-cases (any (is_live k t.now) s.locks)) [
        | inl e ↦ rw e tt
        | inr e ↦ rw e tt
      ]

  pub with_flow_locks-Ends :
      (ks : List FlowKey) {m : M A} (r : Reason)
      → E (conflict r)
      → Ends m Q E
      → Ends (with_flow_locks ks m r) Q E
  unfolding with_flow_locks
  with_flow_locks-Ends [] r busy h = h
  with_flow_locks-Ends (k ∷ ks) r busy h =
      with_flow_lock-Ends k r busy (with_flow_locks-Ends ks r busy h)

same_key_refl : (k : FlowKey) → same_key k k ≡ true
same_key_refl (booking_request_decision a) = ground arith
same_key_refl (booking_request_state a) = ground arith
same_key_refl (booking_request_convert a) = ground arith
same_key_refl (booking_request_cap a b) = ground arith
same_key_refl (posting_booking_window a) = ground arith

same_key-eq : (j k : FlowKey) → same_key j k ≡ true → j ≡ k
same_key-eq (booking_request_decision a) k h = ground arith
same_key-eq j k h = ground arith

-- A key that has been taken cannot be taken again within its time to live, while nobody changes it.
pub acquire_lock_excludes :
    (k : FlowKey) (ttl ttl' : ℕ) (t t' : Turn) (s s' : Store) (l : RedisLock)
    → acquire_lock k ttl t s ≡ (ok (some l), s')
    → t'.now < t.now + ttl
    → acquire_lock k ttl' t' s' ≡ (ok none, s')
unfolding acquire_lock any
acquire_lock_excludes k ttl ttl' t t' s s' l e h =
    elim (Bool-cases (any (is_live k t.now) s.locks)) [
      | inl busy ↦ ground arith
      | inr free ↦ ground (arith, same_key_refl k)
    ]

any-remove :
    (k : FlowKey) (token now : ℕ) (ls : List LockEntry)
    → any (is_owned k token now) (remove (λ e. same_key e.key k) ls) ≡ false
unfolding any remove
any-remove k token now [] = refl
any-remove k token now (e ∷ ls) = ground (arith, any-remove k token now ls)

-- A release with another token, such as that of a holder whose time ran out, leaves the key to the
-- request that has taken it since.
pub release_lock-acquire_lock :
    (k : FlowKey) (ttl token : ℕ) (t t' : Turn) (s s' : Store) (l : RedisLock)
    → acquire_lock k ttl t s ≡ (ok (some l), s')
    → token ≢ l.token
    → release_lock k token t' s' ≡ (ok false, s')
unfolding acquire_lock release_lock any
release_lock-acquire_lock k ttl token t t' s s' l e h =
    elim (Bool-cases (any (is_live k t.now) s.locks)) [
      | inl busy ↦ ground arith
      | inr free ↦ ground (arith, any-remove k token t'.now s.locks)
    ]

-- Another request holds the key at every moment at which this one visits the store.
abbrev pub HeldThroughout : FlowKey → World → Type 0
HeldThroughout k w =
    (i : ℕ) (s : Store) → any (is_live k (w.turns i).now) ((w.turns i).others s).locks ≡ true

module _ {ℓ} {A : Type ℓ} (r : Reason) where
  -- One run that is refused is the run of any other callback.
  abbrev Refused : M A → M A → World → Type ℓ
  Refused m n w = ((m w).0 ≡ err (conflict r)) × (m w ≡ n w)

  head-Refused :
      (k : FlowKey) (m n : M A) (w : World)
      → HeldThroughout k w
      → Refused (with_flow_lock k m r) (with_flow_lock k n r) w
  unfolding with_flow_lock acquire_lock ◌>>=◌ require finally
  head-Refused k m n w held = rw (held w.moment w.store) (refl, refl)

  tail-Refused :
      (k : FlowKey) (m n : M A) (w : World)
      → ((v : World) → v.turns ≡ w.turns → Refused m n v)
      → Refused (with_flow_lock k m r) (with_flow_lock k n r) w
  unfolding with_flow_lock acquire_lock ◌>>=◌ require finally
  tail-Refused k m n w h =
      elim (Bool-cases
        (any (is_live k (w.turns w.moment).now) ((w.turns w.moment).others w.store).locks)) [
          | inl e ↦ rw e (refl, refl)
          | inr e ↦ rw e (let (p, q) = h _ refl in (p, rw q refl))
        ]

  -- While another request holds one of the keys, a method that needs them is refused with the
  -- conflict, and the run is the same for every callback: the callback is not run.
  pub with_flow_locks_refused :
      (ks : List FlowKey) (k : FlowKey) (m n : M A) (w : World)
      → any (same_key k) ks ≡ true
      → HeldThroughout k w
      → ((with_flow_locks ks m r w).0 ≡ err (conflict r))
        × (with_flow_locks ks m r w ≡ with_flow_locks ks n r w)
  unfolding with_flow_locks any
  with_flow_locks_refused [] k m n w here held = cc
  with_flow_locks_refused (j ∷ ks) k m n w here held = elim (Bool-cases (same_key k j)) [
    | inl same ↦ head-Refused j _ _ w (subst (λ x. HeldThroughout x w) (same_key-eq k j same) held)
    | inr other ↦ tail-Refused j _ _ w λ v e.
        with_flow_locks_refused ks k m n v (ground arith) (λ i s.
          subst (λ t. any (is_live k (t i).now) ((t i).others s).locks ≡ true) (sym e) (held i s))
  ]
