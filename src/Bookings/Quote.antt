-- ===== src/Bookings/Quote.antt =====
-- `quote` and `getById` of `BookingsService`, backend/src/app/features/bookings/bookings.service.ts.
use fit.Common.{ℕ, ◌*◌, Bool, true, false, not, ◌&&◌, Option, none, some, List, [], ◌∷◌, ◌==◌}
use fit.Store.{Booking}
use fit.Runtime.{
  Reason, booking_not_found, no_booking_access, forbidden, not_found, M, visit, pure, require,
  throw_if, ◌>>=◌, ◌>>◌,
}
use fit.Bookings.Model.{BookingQuoteInput}
use fit.Bookings.Repository.{find_by_id}
use fit.Bookings.Validation.{ValidationResult, validate_booking_request}

-- `BookingQuoteResult`
pub record QuoteResult : Type 0 where
  pub posting_id : ℕ
  pub bookable : Bool
  pub duration_days : Option ℕ
  pub pricing_currency : ℕ
  pub daily_price_amount : ℕ
  pub estimated_total : Option ℕ
  pub max_booking_duration_days : ℕ
  pub failure_reasons : List Reason

abbrev no_reasons : List Reason → Bool
no_reasons [] = true
no_reasons (r ∷ rs) = false

abbrev map_option : {A B : Type 0} → (A → B) → Option A → Option B
map_option f none = none
map_option f (some a) = some (f a)

unfoldable pub quote_result : ValidationResult → QuoteResult
quote_result v = record {
  posting_id = v.posting.id;
  bookable = no_reasons v.failure_reasons;
  duration_days = map_option (λ n. n.duration_days) v.normalized;
  pricing_currency = v.posting.pricing.currency;
  daily_price_amount = v.posting.pricing.daily;
  estimated_total = map_option (λ n. v.posting.pricing.daily * n.duration_days) v.normalized;
  max_booking_duration_days = v.max_booking_duration_days;
  failure_reasons = v.failure_reasons;
}

unfoldable pub quote : BookingQuoteInput → M QuoteResult
unfolding quote_result
quote input = do validation ← validate_booking_request input; pure (quote_result validation)

unfoldable pub get_by_id : (id user_id : ℕ) → M Booking
get_by_id id user_id = do
  found ← visit (find_by_id id)
  booking_request ← require found (not_found booking_not_found)
  throw_if (not (booking_request.owner_id == user_id) && not (booking_request.renter_id == user_id))
      (forbidden no_booking_access)
  pure booking_request
