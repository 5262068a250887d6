-- ===== src/Payments/Attempts.antt =====
-- Attempts to pay, of payments.repository.ts: `createPaymentAttemptForBooking`, `attachPaymentSession` and
-- `recordAttemptFailure`.
use fit.Common.{
  ℕ, ◌+◌, ◌*◌, Bool, true, false, not, ◌&&◌, ◌||◌, Option, none, some, ◌∷◌, ltb, leb, ◌==◌, is_some,
  any, find,
}
use fit.Store.{BookingStatus, awaiting_payment, payment_failed, payment_processing, Booking, Store}
use fit.Store.Payments.{PaymentStatus, AttemptStatus, charge_created, Payment, Attempt}
use fit.Runtime.{
  bad_request, forbidden, not_found, record_missing, duplicate_key, booking_not_found,
  no_booking_access, request_finalized, not_ready_for_payment, already_expired, Turn, Visit,
  transaction,
}
use fit.Runtime.Transaction.{give, query, or_raise, raise_if, write, ◌>>=◌, ◌>>◌}
use fit.Bookings.Repository.{find_booking}
use fit.Payments.Model.{
  default_platform_fee_bps, default_booking_deposit_bps, max_retry_attempts, PaymentRecord,
  ProviderPaymentSession, ProviderErrorInfo,
}
use fit.Payments.Utils.{
  share_of, sum_of, calculate_platform_fee_amount, create_exponential_backoff_date,
}
use fit.Payments.Rows.{
  has_attempt_id, on_accounts, update_payment, update_references, update_attempt, update_booking,
  create_ledger_entry, find_payment, payment_of, attempts_of, find_payment_or_throw,
}

-- What `createPaymentAttemptForBooking` returns.
pub record PaymentAttempt : Type 0 where
  pub payment_id : ℕ
  pub attempt_id : ℕ
  pub payment : PaymentRecord
  pub amount : ℕ
  pub currency : ℕ

-- `["awaiting_payment", "payment_failed"].includes(booking.status)`
abbrev pub is_payable : BookingStatus → Bool
is_payable awaiting_payment = true
is_payable payment_failed = true
is_payable _ = false

abbrev pub has_renting_of : Store → ℕ → Bool
has_renting_of s id = any (λ r. r.booking_request_id == id) s.rentings

unfoldable pub require_payable_booking : (booking_request_id renter_id : ℕ) → Visit Booking
require_payable_booking booking_request_id renter_id = do
  found ← query λ t s. find_booking booking_request_id s
  booking ← or_raise found (not_found booking_not_found)
  raise_if (not (booking.renter_id == renter_id)) (forbidden no_booking_access)
  finalized ← query λ t s. has_renting_of s booking.id || is_some booking.converted_at
  raise_if finalized (bad_request request_finalized)
  raise_if (not (is_payable booking.status)) (bad_request not_ready_for_payment)
  over ← query λ t s. leb booking.hold_expires_at t.now
  raise_if over (bad_request already_expired)
  give booking

abbrev pub new_payment : Booking → (rental_subtotal platform_fee_amount : ℕ) → Turn → Payment
new_payment b rental_subtotal platform_fee_amount t = record {
  id = t.uuid 0;
  booking_request_id = b.id;
  posting_id = b.posting_id;
  renter_id = b.renter_id;
  owner_id = b.owner_id;
  status = PaymentStatus.awaiting_method;
  pricing_currency = b.pricing_currency;
  rental_subtotal_amount = rental_subtotal;
  platform_fee_amount = platform_fee_amount;
  total_amount = sum_of rental_subtotal platform_fee_amount;
  square_payment_id = none;
  square_order_id = none;
  square_location_id = none;
  checkout_url = none;
  last_attempted_at = none;
  succeeded_at = none;
  failed_at = none;
  created_at = t.later;
}

abbrev pub new_attempt : (payment_id idempotency_key : ℕ) → Turn → Attempt
new_attempt payment_id idempotency_key t = record {
  id = t.uuid 1;
  payment_id = payment_id;
  idempotency_key = idempotency_key;
  status = AttemptStatus.pending;
  retry_count = 0;
  failure_category = none;
  failure_code = none;
  failure_message = none;
  provider_request_id = none;
  square_payment_id = none;
  next_retry_at = none;
  created_at = t.later;
}

-- `booking.payment ?? await transaction.payment.create(…)`
unfoldable pub payment_or_new :
    Option Payment → Booking → (rental_subtotal platform_fee_amount : ℕ) → Visit Payment
payment_or_new (some p) b rental_subtotal platform_fee_amount = give p
payment_or_new none b rental_subtotal platform_fee_amount = do
  write λ t.
      on_accounts λ a. record a {
        payments = new_payment b rental_subtotal platform_fee_amount t ∷ a.payments;
      }
  query λ t s. new_payment b rental_subtotal platform_fee_amount t

unfoldable pub create_attempt :
    Booking → Option Payment → (idempotency_key : ℕ) → Visit PaymentAttempt
unfolding payment_or_new
create_attempt b existing idempotency_key = do
  let rental_subtotal = share_of b.estimated_total default_booking_deposit_bps
  let platform_fee_amount = calculate_platform_fee_amount rental_subtotal default_platform_fee_bps
  payment ← payment_or_new existing b rental_subtotal platform_fee_amount
  taken ← query λ t s. any (λ a. a.idempotency_key == idempotency_key) s.accounts.attempts
  raise_if taken duplicate_key
  attempt ← query λ t s. new_attempt payment.id idempotency_key t
  write λ t. on_accounts λ a. record a { attempts = attempt ∷ a.attempts }
  refreshed ← find_payment_or_throw payment.id
  create_ledger_entry 2 payment.id charge_created refreshed.total_amount refreshed.pricing_currency
  give (record {
    payment_id = payment.id;
    attempt_id = attempt.id;
    payment = refreshed;
    amount = sum_of rental_subtotal platform_fee_amount;
    currency = b.pricing_currency;
  })

-- The attempt of the booking request's payment that has the key already.
unfoldable pub find_attempt : Option Payment → (idempotency_key : ℕ) → Store → Option Attempt
find_attempt none idempotency_key s = none
find_attempt (some p) idempotency_key s =
    find (λ a. a.idempotency_key == idempotency_key) (attempts_of p.id s)

unfoldable pub attempt_again_or_new :
    Booking → Option Payment → (idempotency_key : ℕ) → Option Attempt → Visit PaymentAttempt
unfolding create_attempt
attempt_again_or_new b existing idempotency_key none = create_attempt b existing idempotency_key
attempt_again_or_new b existing idempotency_key (some attempt) = do
  payment ← find_payment_or_throw attempt.payment_id
  give (record {
    payment_id = payment.id;
    attempt_id = attempt.id;
    payment = payment;
    amount = payment.total_amount;
    currency = payment.pricing_currency;
  })

-- No caller gives `platformFeeBps` or `depositBps`.
unfoldable pub create_payment_attempt_for_booking :
    (booking_request_id renter_id idempotency_key : ℕ) → Visit PaymentAttempt
unfolding require_payable_booking attempt_again_or_new find_attempt
create_payment_attempt_for_booking booking_request_id renter_id idempotency_key = transaction do
  booking ← require_payable_booking booking_request_id renter_id
  existing ← query λ t s. payment_of booking.id s
  attempt ← query λ t s. find_attempt existing idempotency_key s
  attempt_again_or_new booking existing idempotency_key attempt

abbrev pub processing_booking : Turn → Booking → Booking
processing_booking t b = record b { status = payment_processing }

abbrev pub failed_booking : Turn → Booking → Booking
failed_booking t b = record b { status = payment_failed; payment_failed_at = some t.later }

unfoldable pub attach_payment_session :
    (payment_id attempt_id : ℕ) → ProviderPaymentSession → Visit PaymentRecord
attach_payment_session payment_id attempt_id session = transaction do
  update_attempt attempt_id λ t a. record a {
    status = AttemptStatus.processing;
    provider_request_id = session.provider_request_id;
    square_payment_id = session.provider_payment_id;
  }
  update_references payment_id λ t p. record p {
    status = PaymentStatus.processing;
    checkout_url = session.checkout_url;
    square_payment_id = session.provider_payment_id;
    square_order_id = session.provider_order_id;
    square_location_id = session.location_id;
    last_attempted_at = some t.later;
  }
  found ← query λ t s. find_payment payment_id s
  payment ← or_raise found record_missing
  update_booking payment.booking_request_id processing_booking
  find_payment_or_throw payment_id

abbrev pub failure_status : Bool → PaymentStatus
failure_status true = PaymentStatus.failed_retryable
failure_status false = PaymentStatus.failed_final

abbrev pub attempt_failure_status : Bool → AttemptStatus
attempt_failure_status true = AttemptStatus.failed_retryable
attempt_failure_status false = AttemptStatus.failed_final

-- `retryable ? createExponentialBackoffDate(retryCount, 2_000, 5 * 60 * 1000) : null`
abbrev pub next_retry : Bool → (retry_count : ℕ) → Turn → Option ℕ
next_retry true retry_count t =
    some (create_exponential_backoff_date t.random t.later retry_count 2_000 (5 * 60 * 1000))
next_retry false retry_count t = none

abbrev pub may_retry : ProviderErrorInfo → Attempt → Bool
may_retry info a = info.retryable && ltb (a.retry_count + 1) max_retry_attempts

unfoldable pub record_attempt_failure :
    (payment_id attempt_id : ℕ) → ProviderErrorInfo → Visit PaymentRecord
record_attempt_failure payment_id attempt_id info = transaction do
  found ← query λ t s. find (has_attempt_id attempt_id) s.accounts.attempts
  existing ← or_raise found record_missing
  let retryable = may_retry info existing
  update_attempt attempt_id λ t a. record a {
    status = attempt_failure_status retryable;
    retry_count = a.retry_count + 1;
    failure_category = some info.category;
    failure_code = info.code;
    failure_message = some info.message;
    next_retry_at = next_retry retryable (existing.retry_count + 1) t;
  }
  row ← query λ t s. find_payment payment_id s
  payment ← or_raise row record_missing
  update_payment payment_id
      λ t p. record p { status = failure_status retryable; failed_at = some t.later }
  update_booking payment.booking_request_id failed_booking
  find_payment_or_throw payment_id
