-- ===== src/Cache.antt =====
-- backend/src/app/features/cache/cache.service.ts (the locks) and cache-locks.ts. A Redis string
-- set with a time to live is there while the clock is before its end.
pub mod Locks
pub mod Rely
pub mod Exclusion
pub mod Extension
mod Tests
use fit.Common.{
  ℕ, ◌+◌, Bool, true, false, ◌&&◌, Option, none, some, List, [], ◌∷◌, ltb, ◌==◌, if◌then◌else◌, any,
  update, remove,
}
use fit.Store.{
  FlowKey, booking_request_decision, booking_request_state, booking_request_convert,
  booking_request_cap, posting_booking_window, LockEntry,
}
use fit.Runtime.{Reason, conflict, ok, M, Visit, visit, pure, require, finally, ◌>>=◌, ◌>>◌}

-- Equality of the texts that the templates of `flowLockKeys` make from UUIDs.
abbrev pub same_key : FlowKey → FlowKey → Bool
same_key (booking_request_decision a) (booking_request_decision b) = a == b
same_key (booking_request_state a) (booking_request_state b) = a == b
same_key (booking_request_convert a) (booking_request_convert b) = a == b
same_key (booking_request_cap a c) (booking_request_cap b d) = a == b && c == d
same_key (posting_booking_window a) (posting_booking_window b) = a == b
same_key _ _ = false

pub record RedisLock : Type 0 where
  pub key : FlowKey
  pub token : ℕ

-- The entry that `GET key` reads at the time `now`.
abbrev pub is_live : FlowKey → ℕ → LockEntry → Bool
is_live k now e = same_key e.key k && ltb now e.expires_at

abbrev pub is_owned : FlowKey → ℕ → ℕ → LockEntry → Bool
is_owned k token now e = is_live k now e && e.token == token

-- `SET key token NX PX ttl`
unfoldable pub acquire_lock : FlowKey → ℕ → Visit (Option RedisLock)
acquire_lock k ttl_in_ms t s = if any (is_live k t.now) s.locks then (ok none, s) else (
  ok (some (record { key = k; token = t.uuid 0 })),
  record s {
    locks =
        record { key = k; token = t.uuid 0; expires_at = t.now + ttl_in_ms }
        ∷ remove (λ e. same_key e.key k) s.locks;
  },
)

-- The script of `releaseLock`: delete the key if it still holds the token.
unfoldable pub release_lock : FlowKey → ℕ → Visit Bool
release_lock k token t s =
    if any (is_owned k token t.now) s.locks
    then (ok true, record s { locks = remove (λ e. same_key e.key k) s.locks })
    else (ok false, s)

-- The script of `extendLock`: give the key a new time to live if it still holds the token.
unfoldable pub extend_lock : FlowKey → ℕ → ℕ → Visit Bool
extend_lock k token ttl_in_ms t s =
    if any (is_owned k token t.now) s.locks
    then (
      ok true,
      record s {
        locks =
            update (λ e. same_key e.key k) (λ e. record e { expires_at = t.now + ttl_in_ms })
              s.locks;
      },
    )
    else (ok false, s)

abbrev pub flow_lock_ttl_ms : ℕ
flow_lock_ttl_ms = 15_000

module _ {ℓ} {A : Type ℓ} where
  unfoldable pub with_flow_lock : FlowKey → M A → Reason → M A
  with_flow_lock k callback conflict_message = do
    found ← visit (acquire_lock k flow_lock_ttl_ms)
    lock ← require found (conflict conflict_message)
    finally callback (visit (release_lock lock.key lock.token) >>= λ _. pure tt)

  unfoldable pub with_flow_locks : List FlowKey → M A → Reason → M A
  with_flow_locks [] callback conflict_message = callback
  with_flow_locks (k ∷ ks) callback conflict_message =
      with_flow_lock k (with_flow_locks ks callback conflict_message) conflict_message
