-- ===== src/Bookings/Change.antt =====
-- `updateOwnPending` of `BookingsService`, backend/src/app/features/bookings/bookings.service.ts.
use fit.Common.{ℕ, ◌*◌, not, some, [], ◌∷◌, ◌==◌}
use fit.Store.{Posting, Terms, Booking, booking_request_state, posting_booking_window}
use fit.Runtime.{
  booking_not_found, no_booking_access, only_pending_updated, changed_before_update, update_busy,
  bad_request, conflict, forbidden, not_found, M, visit, pure, require, throw_if, lift, ◌>>=◌, ◌>>◌,
}
use fit.Cache.{with_flow_locks}
use fit.Bookings.Model.{UpdateBookingRequestInput, is_pending}
use fit.Bookings.Repository.{find_by_id, update_pending}
use fit.Bookings.Messages.{publish_change}
use fit.Bookings.Normalize.{NormalizedUpdate, normalize_create_input}
use fit.Bookings.Validation.{
  require_posting_editable_for_renter, throw_if_expired, assert_no_blocking_availability_overlap,
  assert_no_renting_overlap, max_days_of,
}

-- The checks that `updateOwnPending` makes before its locks and again under them.
unfoldable pub require_own_pending : (booking_request_id renter_id : ℕ) → M Booking
require_own_pending booking_request_id renter_id = do
  found ← visit (find_by_id booking_request_id)
  existing ← require found (not_found booking_not_found)
  throw_if (not (existing.renter_id == renter_id)) (forbidden no_booking_access)
  throw_if (not (is_pending existing.status)) (bad_request only_pending_updated)
  throw_if_expired existing
  pure existing

abbrev pub updated_terms : Posting → NormalizedUpdate → Terms
updated_terms posting n = record {
  start_at = n.start_at;
  end_at = n.end_at;
  duration_days = n.duration_days;
  guest_count = n.guest_count;
  contact_name = n.contact_name;
  contact_email = n.contact_email;
  contact_phone_number = n.contact_phone_number;
  note = n.note;
  pricing_currency = posting.pricing.currency;
  pricing_snapshot = posting.pricing;
  daily_price_amount = posting.pricing.daily;
  estimated_total = posting.pricing.daily * n.duration_days;
}

unfoldable pub update_own_pending_locked : UpdateBookingRequestInput → M Booking
update_own_pending_locked input = do
  locked ← require_own_pending input.booking_request_id input.renter_id
  posting ← require_posting_editable_for_renter locked.posting_id
  n ← lift (normalize_create_input input (max_days_of posting))
  assert_no_blocking_availability_overlap posting.id n.start_at n.end_at (some locked.id)
  assert_no_renting_overlap posting.id n.start_at n.end_at
  found ← visit (update_pending locked.id input.renter_id (updated_terms posting n))
  require found (conflict changed_before_update)

unfoldable pub update_own_pending : UpdateBookingRequestInput → M Booking
update_own_pending input = do
  existing ← require_own_pending input.booking_request_id input.renter_id
  updated ←
      with_flow_locks
        (booking_request_state existing.id ∷ posting_booking_window existing.posting_id ∷ [])
        (update_own_pending_locked input) update_busy
  publish_change updated.posting_id
  pure updated
