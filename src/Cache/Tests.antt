-- ===== src/Cache/Tests.antt =====
-- Locks on the sample store, and the theorems on them at these runs.
use fit.Common.{ℕ, ◌≡◌, refl, true, false, none, some, [], ◌∷◌, any, update, remove, arith, List}
use fit.Store.{booking_request_state, posting_booking_window, LockEntry, Store, FlowKey}
use fit.Runtime.{conflict, decision_busy, ok, err, M, World, pure}
use fit.Cache.{RedisLock, acquire_lock, release_lock, extend_lock, with_flow_locks}
use fit.Cache.Exclusion.{acquire_lock_excludes, HeldThroughout, with_flow_locks_refused}
use fit.Samples.{store, turn}

locks : Unit {0}
unfolding any update remove acquire_lock release_lock extend_lock
locks = tt

abbrev lock : RedisLock
lock = record { key = posting_booking_window 7; token = 600 }

abbrev entry : LockEntry
entry = record { key = posting_booking_window 7; token = 600; expires_at = 15_005 }

abbrev locked : Store
locked = record store { locks = entry ∷ [] }

acquired : acquire_lock (posting_booking_window 7) 15_000 (turn 5) store ≡ (ok (some lock), locked)
unfolding locks
acquired = refl

-- The holder gives the key back, or a longer time; another request does neither.
released_or_extended :
    (release_lock (posting_booking_window 7) 600 (turn 9) locked ≡ (ok true, store))
    × (release_lock (posting_booking_window 7) 601 (turn 9) locked ≡ (ok false, locked))
    × (extend_lock (posting_booking_window 7) 600 1 (turn 15_006) locked ≡ (ok false, locked))
    × (extend_lock (posting_booking_window 7) 600 20_000 (turn 9) locked
        ≡ (ok true, record store { locks = record entry { expires_at = 20_009 } ∷ [] }))
unfolding locks
released_or_extended = (refl, refl, refl, refl)

acquire_lock_excludes_example :
    acquire_lock (posting_booking_window 7) 1_000 (turn 9) locked ≡ (ok none, locked)
unfolding locks
acquire_lock_excludes_example =
    acquire_lock_excludes (posting_booking_window 7) 15_000 1_000 (turn 5) (turn 9) store locked
      lock refl (omega arith)

-- Another request holds the key of posting 7 whenever this one visits the store.
abbrev busy : World
busy = record {
  store = store;
  turns = λ i. record (turn 5) { others = λ s. record s { locks = entry ∷ [] } };
  moment = 0;
}

busy-HeldThroughout : HeldThroughout (posting_booking_window 7) busy
unfolding locks
busy-HeldThroughout i s = refl

abbrev keys : List FlowKey
keys = booking_request_state 1 ∷ posting_booking_window 7 ∷ []

-- Two callbacks.
abbrev three : M ℕ
three = pure 3

abbrev four : M ℕ
four = pure 4

with_flow_locks_refused_example :
    ((with_flow_locks keys three decision_busy busy).0 ≡ err (conflict decision_busy))
    × (with_flow_locks keys three decision_busy busy ≡ with_flow_locks keys four decision_busy busy)
unfolding locks
with_flow_locks_refused_example =
    with_flow_locks_refused decision_busy keys (posting_booking_window 7) three four busy refl
      busy-HeldThroughout
