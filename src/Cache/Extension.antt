-- ===== src/Cache/Extension.antt =====
-- A lock that its holder extends.
use fit.Common.{
  ℕ, ◌+◌, ◌<◌, ◌≡◌, inl, inr, true, none, List, [], ◌∷◌, arith, any, update, Bool-cases,
}
use fit.Store.{FlowKey, LockEntry, Store}
use fit.Runtime.{Turn, ok}
use fit.Cache.{same_key, is_live, is_owned, acquire_lock, extend_lock}

any-extended :
    (k : FlowKey) (token now now' end : ℕ) (ls : List LockEntry)
    → any (is_owned k token now) ls ≡ true
    → now' < end
    → any (is_live k now') (update (λ e. same_key e.key k) (λ e. record e { expires_at = end }) ls)
      ≡ true
unfolding any update
any-extended k token now now' end [] e h = cc
any-extended k token now now' end (x ∷ xs) e h = elim (Bool-cases (same_key x.key k)) [
  | inl hit ↦ ground arith
  | inr miss ↦ ground (arith, any-extended k token now now' end xs (rw miss at e) h)
]

-- If a holder extends its lock, nobody takes the key within the new time to live, while nobody changes
-- it.
pub extend_lock_excludes :
    (k : FlowKey) (token ttl ttl' : ℕ) (t t' : Turn) (s s' : Store)
    → extend_lock k token ttl t s ≡ (ok true, s')
    → t'.now < t.now + ttl
    → acquire_lock k ttl' t' s' ≡ (ok none, s')
unfolding acquire_lock extend_lock
extend_lock_excludes k token ttl ttl' t t' s s' e h =
    elim (Bool-cases (any (is_owned k token t.now) s.locks)) [
      | inl owned ↦ ground (arith, any-extended k token t.now t'.now (t.now + ttl) s.locks owned h)
      | inr other ↦ ground arith
    ]
