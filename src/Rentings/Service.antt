-- ===== src/Rentings/Service.antt =====
-- The methods of `RentingsService`, backend/src/app/features/rentings/rentings.service.ts.
use fit.Common.{ℕ, ◌+◌, ◌*◌, not, ◌&&◌, ◌||◌, [], ◌∷◌, ◌==◌, is_some}
use fit.Store.{Renting, booking_request_convert, posting_booking_window, renting_confirmed}
use fit.Runtime.{
  booking_not_found, no_booking_access, posting_not_convertible, renting_not_found,
  no_renting_access, conversion_busy, forbidden, not_found, M, visit, pure, require, throw_if,
  on_error, ◌>>=◌, ◌>>◌,
}
use fit.Cache.{with_flow_locks}
use fit.Bookings.Model.{conversion_reservation_minutes}
use fit.Bookings.Repository.{find_by_id}
use fit.Bookings.Messages.{send, publish_change}
use fit.Bookings.Reservation.{reserve_for_conversion, release_conversion_reservation}
use fit.Bookings.Validation.{require_posting, is_actionable}
use fit.Rentings.Repository
use fit.Rentings.Repository.{convert_approved_booking_request}

unfoldable pub require_posting_actionable_for_conversion : ℕ → M (Unit {0})
require_posting_actionable_for_conversion posting_id = do
  posting ← require_posting posting_id
  throw_if (is_some posting.archived_at || not (is_actionable posting.status))
      (forbidden posting_not_convertible)

abbrev pub reservation_end : (now : ℕ) → ℕ
reservation_end now = now + conversion_reservation_minutes * 60 * 1000

-- The body of `try`, and of the callback under the locks.
unfoldable pub convert_reserved : (booking_request_id owner_id : ℕ) → M Renting
convert_reserved booking_request_id owner_id = do
  found ← visit (convert_approved_booking_request booking_request_id owner_id)
  require found (not_found booking_not_found)

unfoldable pub convert_locked : (booking_request_id owner_id posting_id : ℕ) → M Renting
convert_locked booking_request_id owner_id posting_id = do
  reservation ←
      visit (λ t. reserve_for_conversion booking_request_id owner_id (reservation_end t.now) t)
  publish_change posting_id
  on_error (convert_reserved booking_request_id owner_id) (do
    visit (release_conversion_reservation booking_request_id owner_id reservation)
    publish_change posting_id)

-- convertApprovedBookingRequest
unfoldable pub convert_request : (booking_request_id owner_id : ℕ) → M Renting
convert_request booking_request_id owner_id = do
  found ← visit (find_by_id booking_request_id)
  booking_request ← require found (not_found booking_not_found)
  throw_if (not (booking_request.owner_id == owner_id)) (forbidden no_booking_access)
  require_posting_actionable_for_conversion booking_request.posting_id
  renting ←
      with_flow_locks
        (booking_request_convert booking_request_id
          ∷ posting_booking_window booking_request.posting_id
          ∷ [])
        (convert_locked booking_request_id owner_id booking_request.posting_id) conversion_busy
  send (λ t.
      renting_confirmed renting.posting_id renting.owner_id renting.confirmed_at
        renting.estimated_total)
  publish_change renting.posting_id
  pure renting

unfoldable pub get_by_id : (id user_id : ℕ) → M Renting
get_by_id id user_id = do
  found ← visit (Repository.find_by_id id)
  renting ← require found (not_found renting_not_found)
  throw_if (not (renting.owner_id == user_id) && not (renting.renter_id == user_id))
      (forbidden no_renting_access)
  pure renting
