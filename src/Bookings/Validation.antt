-- ===== src/Bookings/Validation.antt =====
-- `validateBookingRequest` and the `require…` and `assert…` methods of
-- backend/src/app/features/bookings/bookings.service.ts.
use fit.Common.{
  ℕ, Bool, true, false, not, ◌||◌, Option, none, some, List, [], ◌∷◌, ◌++◌, leb, ◌==◌, is_some,
  or_else, find,
}
use fit.Store.{PostingStatus, published, paused, Posting, Booking}
use fit.Runtime.{
  Reason, posting_unavailable, own_posting, renting_overlap, availability_block_overlap,
  active_request_limit_exceeded, booking_not_found, posting_not_found, no_booking_access,
  posting_not_updatable, posting_not_actionable, already_expired, Error, bad_request, forbidden,
  not_found, ok, M, Visit, visit, pure, throw, require, throw_if, ◌>>=◌, ◌>>◌,
}
use fit.Bookings.Model.{
  BookingQuoteInput, max_active_booking_requests_per_posting, default_max_booking_duration_days,
  is_pending,
}
use fit.Bookings.Overlap.{has_overlap, has_blocking_availability_overlap}
use fit.Bookings.Repository.{find_by_id, count_active_requests_for_renter_posting}
use fit.Bookings.Normalize.{Normalized, reason_if, normalize_create_input_for_quote}

-- PostingsRepository.findById
unfoldable pub find_posting : ℕ → Visit (Option Posting)
find_posting id t s = (ok (find (λ p. p.id == id) s.postings), s)

abbrev pub is_published : PostingStatus → Bool
is_published published = true
is_published _ = false

-- `["published", "paused"].includes(status)`
abbrev pub is_actionable : PostingStatus → Bool
is_actionable published = true
is_actionable paused = true
is_actionable _ = false

abbrev pub max_days_of : Posting → ℕ
max_days_of p = or_else p.max_booking_duration_days default_max_booking_duration_days

unfoldable pub require_posting : ℕ → M Posting
require_posting posting_id = do
  found ← visit (find_posting posting_id)
  require found (not_found posting_not_found)

unfoldable pub require_posting_editable_for_renter : ℕ → M Posting
unfolding require_posting
require_posting_editable_for_renter posting_id = do
  posting ← require_posting posting_id
  throw_if (is_some posting.archived_at || not (is_published posting.status))
      (bad_request posting_not_updatable)
  pure posting

unfoldable pub require_posting_actionable_for_owner : ℕ → M Posting
unfolding require_posting
require_posting_actionable_for_owner posting_id = do
  posting ← require_posting posting_id
  throw_if (is_some posting.archived_at || not (is_actionable posting.status))
      (bad_request posting_not_actionable)
  pure posting

unfoldable pub require_owner_booking_request : (booking_request_id owner_id : ℕ) → M Booking
require_owner_booking_request booking_request_id owner_id = do
  found ← visit (find_by_id booking_request_id)
  booking_request ← require found (not_found booking_not_found)
  throw_if (not (booking_request.owner_id == owner_id)) (forbidden no_booking_access)
  pure booking_request

-- The checks that read the clock do so on a visit of their own.
unfoldable pub throw_if_expired : Booking → M (Unit {0})
throw_if_expired b = do
  over ← visit (λ t s. (ok (leb b.hold_expires_at t.now), s))
  throw_if over (bad_request already_expired)

-- `only_pending` is the message for the action, `approve` or `decline`.
unfoldable pub assert_can_decide : Booking → Reason → M (Unit {0})
assert_can_decide b only_pending = do
  throw_if (not (is_pending b.status)) (bad_request only_pending)
  throw_if_expired b

unfoldable pub assert_no_blocking_availability_overlap :
    (posting_id start_at end_at : ℕ) → Option ℕ → M (Unit {0})
assert_no_blocking_availability_overlap posting_id start_at end_at excluded = do
  overlap ← visit (has_blocking_availability_overlap posting_id start_at end_at excluded)
  throw_if overlap (bad_request availability_block_overlap)

unfoldable pub assert_no_renting_overlap : (posting_id start_at end_at : ℕ) → M (Unit {0})
assert_no_renting_overlap posting_id start_at end_at = do
  overlap ← visit (has_overlap posting_id start_at end_at)
  throw_if overlap (bad_request renting_overlap)

-- `BookingRequestValidationResult`
pub record ValidationResult : Type 0 where
  pub posting : Posting
  pub normalized : Option Normalized
  pub max_booking_duration_days : ℕ
  pub failure_reasons : List Reason

abbrev pub posting_reasons : Posting → ℕ → List Reason
posting_reasons posting renter_id =
    reason_if (not (is_published posting.status) || is_some posting.archived_at) posting_unavailable
    ++ reason_if (posting.owner_id == renter_id) own_posting

-- The three queries of `Promise.all`, one after the other.
unfoldable pub conflict_reasons : (posting_id renter_id : ℕ) → Option Normalized → M (List Reason)
conflict_reasons posting_id renter_id none = pure []
conflict_reasons posting_id renter_id (some n) = do
  renting ← visit (has_overlap posting_id n.start_at n.end_at)
  block ← visit (has_blocking_availability_overlap posting_id n.start_at n.end_at none)
  count ← visit (count_active_requests_for_renter_posting posting_id renter_id)
  pure (
      reason_if renting renting_overlap
      ++ (reason_if block availability_block_overlap
          ++ reason_if (leb max_active_booking_requests_per_posting count)
              (active_request_limit_exceeded count)))

unfoldable pub validate_booking_request : BookingQuoteInput → M ValidationResult
unfolding require_posting conflict_reasons
validate_booking_request input = do
  posting ← require_posting input.posting_id
  let max_days = max_days_of posting
  let (normalized, reasons) = normalize_create_input_for_quote input max_days
  conflicts ← conflict_reasons posting.id input.renter_id normalized
  pure (record {
    posting = posting;
    normalized = normalized;
    max_booking_duration_days = max_days;
    failure_reasons = posting_reasons posting input.renter_id ++ (reasons ++ conflicts);
  })

abbrev failure_error : Reason → Error
failure_error own_posting = forbidden own_posting
failure_error r = bad_request r

-- `!firstFailure || !validation.normalized` returns.
unfoldable pub assert_passed : List Reason → Option Normalized → M (Unit {0})
assert_passed [] normalized = pure tt
assert_passed (first_failure ∷ rest) none = pure tt
assert_passed (first_failure ∷ rest) (some n) = throw (failure_error first_failure)

unfoldable pub assert_booking_request_validation_passed : ValidationResult → M (Unit {0})
unfolding assert_passed
assert_booking_request_validation_passed v = assert_passed v.failure_reasons v.normalized
