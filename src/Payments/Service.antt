-- ===== src/Payments/Service.antt =====
-- backend/src/app/features/payments/payments.service.ts. The provider is a parameter: what its methods
-- answer, at the time of the call, whatever that is. A call of it is a visit of its own. Of a webhook
-- the result of `readEventPaymentDetails` is taken, with the status in upper case.
use fit.Common.{
  ℕ, Bool, true, false, not, Option, none, some, ◌==◌, if◌then◌else◌, is_some, or_else, any,
}
use fit.Common.Text.{Text}
use fit.Store.{posting_booking_window, payment_failed_event, refund_recorded}
use fit.Store.Payments.{PaymentStatus, Attempt}
use fit.Runtime.{
  Error, bad_request, not_retryable, finalizing_busy, Result, ok, Turn, M, visit, pure, throw_if,
  catch, ◌>>=◌, ◌>>◌,
}
use fit.Cache.{with_flow_lock}
use fit.Bookings.Messages.{send, publish_change}
use fit.Payments.Model.{
  PaymentRecord, CreatePaymentSessionInput, RetryPaymentInput, CreateRefundInput,
  ProviderPaymentSession, ProviderPaymentStatus, ProviderRefundResult, ProviderErrorInfo,
}
use fit.Payments.Utils.{create_payment_idempotency_key}
use fit.Payments.Attempts.{
  PaymentAttempt, create_payment_attempt_for_booking, attach_payment_session,
  record_attempt_failure,
}
use fit.Payments.Outcome.{Marked, mark_payment_succeeded}
use fit.Payments.Refunds.{create_refund_record, complete_refund}
use fit.Payments.Queries.{find_accessible_by_id, find_by_square_references}

-- `PaymentProviderAdapter`, with the errors that its methods throw as values.
pub record PaymentProvider : Type 0 where
  pub create_payment_session :
      (idempotency_key amount currency booking_request_id payment_id : ℕ)
      → Turn
      → Result ProviderPaymentSession
  pub get_payment_status :
      (provider_payment_id provider_order_id : Option ℕ)
      → Turn
      → Result (Option ProviderPaymentStatus)
  pub create_refund :
      (idempotency_key provider_payment_id amount currency : ℕ)
      → Option Text
      → Turn
      → Result ProviderRefundResult
  pub classify_error : Error → ProviderErrorInfo

-- The upper-cased status of an event's payment.
pub data EventStatus : Type 0 where
  completed failed canceled other : EventStatus

-- `SquareWebhookVerificationResult`, with the details of its payload.
pub record WebhookDelivery : Type 0 where
  pub is_valid : Bool
  pub event_id : ℕ
  pub event_type : Text
  pub payment_id : Option ℕ
  pub order_id : Option ℕ
  pub status : EventStatus

unfoldable pub ask {ℓ} : {A : Type ℓ} → (Turn → Result A) → M A
ask f = visit λ t s. (f t, s)

-- `enqueueSearchSync` with and without a posting
unfoldable pub enqueue_search_sync : Option ℕ → M (Unit {0})
enqueue_search_sync none = pure tt
enqueue_search_sync (some posting_id) = publish_change posting_id

abbrev pub posting_of : Option PaymentRecord → Option ℕ
posting_of none = none
posting_of (some p) = some p.posting_id

unfoldable pub enqueue_payment_failed_analytics : Option PaymentRecord → M (Unit {0})
enqueue_payment_failed_analytics none = pure tt
enqueue_payment_failed_analytics (some p) =
    send λ t. payment_failed_event p.posting_id p.owner_id (or_else p.failed_at t.now)

-- `item.id === attempt.attemptId && item.providerRequestId`
abbrev pub has_request : ℕ → Attempt → Bool
has_request attempt_id a = if a.id == attempt_id then is_some a.provider_request_id else false

unfoldable pub mark_with_lock : ProviderPaymentStatus → (lock_posting_id : Option ℕ) → M Marked
mark_with_lock status none = visit (mark_payment_succeeded status)
mark_with_lock status (some posting_id) =
    with_flow_lock (posting_booking_window posting_id) (visit (mark_payment_succeeded status))
      finalizing_busy

unfoldable pub mark_completed_payment_status :
    ProviderPaymentStatus → (posting_id : Option ℕ) → M Marked
unfolding mark_with_lock
mark_completed_payment_status status (some posting_id) = mark_with_lock status (some posting_id)
mark_completed_payment_status status none = do
  existing ← visit (find_by_square_references status.provider_payment_id status.provider_order_id)
  mark_with_lock status (posting_of existing)

module _ (provider : PaymentProvider) where
  -- The body of `catch`, here and in `processRetryQueue`.
  unfoldable pub fail_attempt_with : (payment_id attempt_id : ℕ) → Error → M PaymentRecord
  fail_attempt_with payment_id attempt_id error = do
    payment ← visit (record_attempt_failure payment_id attempt_id (provider.classify_error error))
    enqueue_payment_failed_analytics (some payment)
    enqueue_search_sync (some payment.posting_id)
    pure payment

  -- The body of `try`, here and in `processRetryQueue`.
  unfoldable pub open_session :
      (idempotency_key amount currency booking_request_id payment_id attempt_id : ℕ)
      → M PaymentRecord
  open_session idempotency_key amount currency booking_request_id payment_id attempt_id = do
    session ← ask (
        provider.create_payment_session idempotency_key amount currency booking_request_id
          payment_id)
    payment ← visit (attach_payment_session payment_id attempt_id session)
    enqueue_search_sync (some payment.posting_id)
    pure payment

  unfoldable pub start_session :
      (idempotency_key booking_request_id : ℕ) → PaymentAttempt → M PaymentRecord
  unfolding open_session fail_attempt_with
  start_session idempotency_key booking_request_id attempt =
      if any (has_request attempt.attempt_id) attempt.payment.attempts
      then pure attempt.payment
      else catch
          (open_session idempotency_key attempt.amount attempt.currency booking_request_id
            attempt.payment_id attempt.attempt_id)
          (fail_attempt_with attempt.payment_id attempt.attempt_id)

  unfoldable pub create_payment_session : CreatePaymentSessionInput → M PaymentRecord
  unfolding start_session
  create_payment_session input = do
    key ← ask λ t. ok (create_payment_idempotency_key input.idempotency_key (t.uuid 0))
    attempt ←
        visit (create_payment_attempt_for_booking input.booking_request_id input.renter_id key)
    start_session key input.booking_request_id attempt

  -- `["failed_retryable", "failed_final"].includes(payment.status)`
  abbrev pub has_failed : PaymentStatus → Bool
  has_failed PaymentStatus.failed_retryable = true
  has_failed PaymentStatus.failed_final = true
  has_failed _ = false

  unfoldable pub retry_payment : RetryPaymentInput → M PaymentRecord
  unfolding create_payment_session
  retry_payment input = do
    payment ← find_accessible_by_id input.payment_id input.renter_id
    throw_if (not (has_failed payment.status)) (bad_request not_retryable)
    create_payment_session (record {
      booking_request_id = payment.booking_request_id;
      renter_id = input.renter_id;
      idempotency_key = input.idempotency_key;
    })

  unfoldable pub create_refund : CreateRefundInput → M PaymentRecord
  create_refund input = do
    find_accessible_by_id input.payment_id input.actor_user_id >>= λ _. pure tt
    key ← ask λ t. ok (create_payment_idempotency_key input.idempotency_key (t.uuid 0))
    ticket ← visit (create_refund_record input key)
    result ← ask (
        provider.create_refund key ticket.provider_payment_id input.amount ticket.pricing_currency
          input.reason)
    payment ← visit (complete_refund ticket.refund_id result)
    send λ t. refund_recorded payment.posting_id payment.owner_id t.now input.amount
    enqueue_search_sync (some payment.posting_id)
    pure payment
