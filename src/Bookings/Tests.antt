-- ===== src/Bookings/Tests.antt =====
-- Runs of the booking methods on the sample store, each without other requests.
use fit.Common.{◌≡◌, refl, [], ◌∷◌, map, any, count_if, find, update, remove, select}
use fit.Common.Text.{trim, to_lower_case}
use fit.Store.{BookingStatus, pending, awaiting_payment, declined, expired, paid, Booking}
use fit.Runtime.{
  bad_request, forbidden, only_pending_declined, no_booking_access, Result, ok, err, pure, throw,
  visit, catch, transaction, ◌>>=◌, finally, throw_if, require, lift,
}
use fit.Cache.{acquire_lock, release_lock, with_flow_lock, with_flow_locks}
use fit.Bookings.Overlap.{is_blocking, blocked, has_blocking_availability_overlap, has_overlap}
use fit.Bookings.Repository.{
  find_booking, find_by_id, create_if_within_active_request_limit, update_one, update_pending_row,
  update_pending, approve_found, approve, decline_found, decline,
  count_active_requests_for_renter_posting,
}
use fit.Bookings.Messages.{send, enqueue_search_sync, publish_change}
use fit.Search.Enqueue.{enqueue_outbox}
use fit.Runtime.Transaction.{write}
use fit.Bookings.Expiry.{
  sort_candidates, list_expired_candidates, expire_found, expire, expire_job, expire_jobs, run_once,
}
use fit.Bookings.Normalize.{
  duration_days_of, trimmed_or_null, quote_reasons, normalize_range,
  normalize_create_input_for_quote, normalized_update, normalize_update_range,
  normalize_create_input,
}
use fit.Bookings.Validation.{
  find_posting, require_posting, require_posting_editable_for_renter,
  require_posting_actionable_for_owner, require_owner_booking_request, throw_if_expired,
  assert_can_decide, assert_no_blocking_availability_overlap, assert_no_renting_overlap,
  conflict_reasons, validate_booking_request, assert_passed,
  assert_booking_request_validation_passed,
}
use fit.Bookings.Create.{create_locked, create}
use fit.Bookings.Change.{require_own_pending, update_own_pending_locked, update_own_pending}
use fit.Bookings.Decide.{approve_locked, approve_request, decline_locked, decline_request}
use fit.Samples.{world, day, create_input, update_input, decision}

-- The definitions that a run computes through.
unfoldable pub runs : Unit {0}
unfolding any count_if find update remove select trim to_lower_case pure throw visit transaction
    ◌>>=◌ finally throw_if require lift acquire_lock release_lock with_flow_lock with_flow_locks
    is_blocking blocked has_blocking_availability_overlap has_overlap find_booking find_by_id
    create_if_within_active_request_limit update_one update_pending_row update_pending approve_found
    approve decline_found decline count_active_requests_for_renter_posting send enqueue_search_sync
    publish_change enqueue_outbox write sort_candidates list_expired_candidates expire_found expire
    expire_job expire_jobs run_once catch duration_days_of trimmed_or_null quote_reasons
    normalize_range normalize_create_input_for_quote normalized_update normalize_update_range
    normalize_create_input find_posting require_posting require_posting_editable_for_renter
    require_posting_actionable_for_owner require_owner_booking_request throw_if_expired
    assert_can_decide assert_no_blocking_availability_overlap assert_no_renting_overlap
    conflict_reasons validate_booking_request assert_passed assert_booking_request_validation_passed
    create_locked create require_own_pending update_own_pending_locked update_own_pending
    approve_locked approve_request decline_locked decline_request
runs = tt

abbrev status_of : Result Booking → Result BookingStatus
status_of (ok b) = ok b.status
status_of (err e) = err e

create_returns : status_of (create create_input (world 5)).0 ≡ ok pending
unfolding runs
create_returns = refl

update_returns : status_of (update_own_pending update_input (world 5)).0 ≡ ok pending
unfolding runs
update_returns = refl

approve_returns : status_of (approve_request decision (world 5)).0 ≡ ok awaiting_payment
unfolding runs
approve_returns = refl

decline_returns : status_of (decline_request decision (world 5)).0 ≡ ok declined
unfolding runs
decline_returns = refl

-- After an approval a decline is refused.
decline_refused :
    status_of (decline_request decision (approve_request decision (world 5)).1).0
    ≡ err (bad_request only_pending_declined)
unfolding runs
decline_refused = refl

stranger_refused :
    status_of (approve_request (record decision { owner_id = 5 }) (world 5)).0
    ≡ err (forbidden no_booking_access)
unfolding runs
stranger_refused = refl

-- Two days later the hold of the waiting request has run out; the paid one stays.
worker_expires :
    ((run_once 10 (world (day 2))).0 ≡ ok 1)
    × (map (λ b. b.status) (run_once 10 (world (day 2))).1.store.bookings ≡ expired ∷ paid ∷ [])
unfolding runs
worker_expires = (refl, refl)
