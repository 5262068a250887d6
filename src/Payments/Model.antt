-- ===== src/Payments/Model.antt =====
-- backend/src/app/features/payments/payments.model.ts: the limits, the inputs, and what the provider
-- answers. Amounts are in cents.
use fit.Common.{ℕ, Bool, Option, List}
use fit.Common.Text.{Text}
use fit.Store.{Booking}
use fit.Store.Payments.{FailureCategory, Payment, Attempt, Refund, Payout}

abbrev pub default_platform_fee_bps : ℕ
default_platform_fee_bps = 1000

abbrev pub default_booking_deposit_bps : ℕ
default_booking_deposit_bps = 2500

abbrev pub max_retry_attempts : ℕ
max_retry_attempts = 5

abbrev pub payment_processing_timeout_minutes : ℕ
payment_processing_timeout_minutes = 15

-- A payment with its relations.
pub record PaymentRecord : Type 0 where
  pub payment : Payment
  pub open payment use *
  pub booking : Booking
  pub attempts : List Attempt
  pub refunds : List Refund
  pub payout : Option Payout

pub record CreatePaymentSessionInput : Type 0 where
  pub booking_request_id : ℕ
  pub renter_id : ℕ
  pub idempotency_key : Option ℕ

pub record RetryPaymentInput : Type 0 where
  pub payment_id : ℕ
  pub renter_id : ℕ
  pub idempotency_key : Option ℕ

pub record CreateRefundInput : Type 0 where
  pub payment_id : ℕ
  pub actor_user_id : ℕ
  pub amount : ℕ
  pub reason : Option Text
  pub idempotency_key : Option ℕ

pub record ProviderPaymentSession : Type 0 where
  pub checkout_url : Option ℕ
  pub provider_request_id : Option ℕ
  pub provider_payment_id : Option ℕ
  pub provider_order_id : Option ℕ
  pub location_id : Option ℕ

pub data ProviderStatus : Type 0 where
  pending completed failed canceled : ProviderStatus

pub record ProviderPaymentStatus : Type 0 where
  pub provider_payment_id : Option ℕ
  pub provider_order_id : Option ℕ
  pub status : ProviderStatus
  pub failure_code : Option Text
  pub failure_message : Option Text

pub data ProviderRefundStatus : Type 0 where
  pending completed failed : ProviderRefundStatus

pub record ProviderRefundResult : Type 0 where
  pub provider_refund_id : Option ℕ
  pub status : ProviderRefundStatus

pub record ProviderErrorInfo : Type 0 where
  pub category : FailureCategory
  pub code : Option Text
  pub message : Text
  pub retryable : Bool
