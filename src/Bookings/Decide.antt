-- ===== src/Bookings/Decide.antt =====
-- `approve` and `decline` of `BookingsService`,
-- backend/src/app/features/bookings/bookings.service.ts.
use fit.Common.{some, [], ◌∷◌, or_else}
use fit.Store.{
  Booking, booking_request_decision, booking_request_state, posting_booking_window,
  booking_approved, booking_declined,
}
use fit.Runtime.{
  only_pending_approved, only_pending_declined, changed_before_approval, changed_before_decline,
  decision_busy, conflict, M, visit, pure, require, ◌>>=◌, ◌>>◌,
}
use fit.Cache.{with_flow_locks}
use fit.Bookings.Model.{DecideBookingRequestInput, approved_booking_hold_hours, add_hours}
use fit.Bookings.Repository.{approve, decline}
use fit.Bookings.Messages.{send, publish_change}
use fit.Bookings.Validation.{
  require_posting_actionable_for_owner, require_owner_booking_request, assert_can_decide,
  assert_no_blocking_availability_overlap, assert_no_renting_overlap,
}

unfoldable pub approve_locked : DecideBookingRequestInput → M Booking
approve_locked input = do
  locked ← require_owner_booking_request input.booking_request_id input.owner_id
  assert_can_decide locked only_pending_approved
  posting ← require_posting_actionable_for_owner locked.posting_id
  assert_no_renting_overlap locked.posting_id locked.start_at locked.end_at
  assert_no_blocking_availability_overlap locked.posting_id locked.start_at locked.end_at
      (some locked.id)
  found ← visit (λ t.
      approve locked.id input.owner_id input.note (add_hours t.now approved_booking_hold_hours) t)
  require found (conflict changed_before_approval)

-- `approve` of the service; the repository's method of that name is `approve`.
unfoldable pub approve_request : DecideBookingRequestInput → M Booking
approve_request input = do
  booking_request ← require_owner_booking_request input.booking_request_id input.owner_id
  approved ←
      with_flow_locks
        (booking_request_decision booking_request.id
          ∷ booking_request_state booking_request.id
          ∷ posting_booking_window booking_request.posting_id
          ∷ [])
        (approve_locked input) decision_busy
  send (λ t.
      booking_approved approved.posting_id approved.owner_id (or_else approved.approved_at t.now))
  publish_change approved.posting_id
  pure approved

unfoldable pub decline_locked : DecideBookingRequestInput → M Booking
decline_locked input = do
  locked ← require_owner_booking_request input.booking_request_id input.owner_id
  assert_can_decide locked only_pending_declined
  found ← visit (decline locked.id input.owner_id input.note)
  require found (conflict changed_before_decline)

-- `decline` of the service
unfoldable pub decline_request : DecideBookingRequestInput → M Booking
decline_request input = do
  booking_request ← require_owner_booking_request input.booking_request_id input.owner_id
  declined ←
      with_flow_locks
        (booking_request_decision booking_request.id
          ∷ booking_request_state booking_request.id
          ∷ [])
        (decline_locked input) decision_busy
  send (λ t.
      booking_declined declined.posting_id declined.owner_id (or_else declined.declined_at t.now))
  publish_change declined.posting_id
  pure declined
