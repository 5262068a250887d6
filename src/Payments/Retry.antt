-- ===== src/Payments/Retry.antt =====
-- A failed attempt that is made again: `markAttemptForRetry` of payments.repository.ts.
use fit.Common.{ℕ, Bool, true, false, not, Option, none, some, if◌then◌else◌, find}
use fit.Store.Payments.{PaymentStatus, AttemptStatus, Attempt}
use fit.Runtime.{record_missing, Visit, transaction}
use fit.Runtime.Transaction.{give, query, or_raise, ◌>>=◌, ◌>>◌}
use fit.Payments.Rows.{has_attempt_id, update_payment, update_attempt, update_booking, find_payment}
use fit.Payments.Attempts.{processing_booking}

-- What `markAttemptForRetry` returns.
pub record RetryReady : Type 0 where
  pub payment_id : ℕ
  pub booking_request_id : ℕ
  pub idempotency_key : ℕ
  pub amount : ℕ
  pub currency : ℕ

abbrev pub is_retryable : AttemptStatus → Bool
is_retryable AttemptStatus.failed_retryable = true
is_retryable _ = false

unfoldable pub retry_found : Option Attempt → Visit (Option RetryReady)
retry_found none = give none
retry_found (some attempt) = if not (is_retryable attempt.status) then give none else do
  row ← query λ t s. find_payment attempt.payment_id s
  payment ← or_raise row record_missing
  update_attempt attempt.id
      λ t a. record a { status = AttemptStatus.processing; next_retry_at = none }
  update_payment payment.id
      λ t p. record p { status = PaymentStatus.processing; last_attempted_at = some t.later }
  update_booking payment.booking_request_id processing_booking
  give (
      some (record {
        payment_id = payment.id;
        booking_request_id = payment.booking_request_id;
        idempotency_key = attempt.idempotency_key;
        amount = payment.total_amount;
        currency = payment.pricing_currency;
      }))

unfoldable pub mark_attempt_for_retry : ℕ → Visit (Option RetryReady)
unfolding retry_found
mark_attempt_for_retry attempt_id =
    transaction do
      found ← query λ t s. find (has_attempt_id attempt_id) s.accounts.attempts
      retry_found found
