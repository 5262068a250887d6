-- ===== src/Bookings/Create.antt =====
-- `create` of `BookingsService`, backend/src/app/features/bookings/bookings.service.ts.
use fit.Common.{◌*◌, [], ◌∷◌}
use fit.Common.Text.{trim, to_lower_case}
use fit.Store.{Posting, Booking, booking_request_cap, posting_booking_window, booking_requested}
use fit.Runtime.{
  another_request_created, window_busy, conflict, type_error, Turn, M, visit, pure, require, ◌>>=◌,
  ◌>>◌,
}
use fit.Cache.{with_flow_locks}
use fit.Bookings.Model.{
  CreateBookingRequestInput, PersistenceInput, max_active_booking_requests_per_posting,
  pending_booking_hold_hours, add_hours,
}
use fit.Bookings.Repository.{create_if_within_active_request_limit}
use fit.Bookings.Messages.{send, publish_change}
use fit.Bookings.Normalize.{Normalized, trimmed_or_null}
use fit.Bookings.Validation.{validate_booking_request, assert_booking_request_validation_passed}

abbrev pub new_request : CreateBookingRequestInput → Posting → Normalized → Turn → PersistenceInput
new_request input posting n t = record {
  posting_id = posting.id;
  renter_id = input.renter_id;
  owner_id = posting.owner_id;
  terms = record {
    start_at = n.start_at;
    end_at = n.end_at;
    duration_days = n.duration_days;
    guest_count = n.guest_count;
    contact_name = trim input.contact_name;
    contact_email = to_lower_case (trim input.contact_email);
    contact_phone_number = trimmed_or_null input.contact_phone_number;
    note = n.note;
    pricing_currency = posting.pricing.currency;
    pricing_snapshot = posting.pricing;
    daily_price_amount = posting.pricing.daily;
    estimated_total = posting.pricing.daily * n.duration_days;
  };
  hold_expires_at = add_hours t.now pending_booking_hold_hours;
}

-- The callback of `create`, under its locks. Reading `normalized.startAt` of `null` throws.
unfoldable pub create_locked : CreateBookingRequestInput → M Booking
create_locked input = do
  validation ← validate_booking_request input.quoted
  assert_booking_request_validation_passed validation
  normalized ← require validation.normalized type_error
  found ← visit (λ t.
      create_if_within_active_request_limit (new_request input validation.posting normalized t)
        max_active_booking_requests_per_posting t)
  require found (conflict another_request_created)

unfoldable pub create : CreateBookingRequestInput → M Booking
create input = do
  validation ← validate_booking_request input.quoted
  assert_booking_request_validation_passed validation
  created ←
      with_flow_locks
        (posting_booking_window validation.posting.id
          ∷ booking_request_cap validation.posting.id input.renter_id
          ∷ [])
        (create_locked input) window_busy
  send (λ t.
      booking_requested created.posting_id created.owner_id created.created_at
        created.estimated_total)
  publish_change created.posting_id
  pure created
