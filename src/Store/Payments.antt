-- ===== src/Store/Payments.antt =====
-- The tables of payments, of backend/prisma/schema.prisma, as rows. The ids and texts of the provider
-- and the idempotency keys are numbers, since they are only compared; an empty id is read as none. The
-- JSON payloads and `updatedAt` are left out.
use fit.Common.{ℕ, Bool, Option, List}
use fit.Common.Text.{Text}

pub data PaymentStatus : Type 0 where
  awaiting_method processing succeeded failed_retryable failed_final : PaymentStatus
  cancelled refunded partially_refunded : PaymentStatus

pub data AttemptStatus : Type 0 where
  pending processing succeeded failed_retryable failed_final : AttemptStatus

pub data FailureCategory : Type 0 where
  transient permanent unknown : FailureCategory

pub data RefundStatus : Type 0 where
  pending succeeded failed : RefundStatus

pub data PayoutStatus : Type 0 where
  scheduled released failed : PayoutStatus

pub data LedgerEntryType : Type 0 where
  charge_created charge_succeeded refund_issued payout_scheduled payout_released : LedgerEntryType

pub record Payment : Type 0 where
  pub id : ℕ
  pub booking_request_id : ℕ
  pub posting_id : ℕ
  pub renter_id : ℕ
  pub owner_id : ℕ
  pub status : PaymentStatus
  pub pricing_currency : ℕ
  pub rental_subtotal_amount : ℕ
  pub platform_fee_amount : ℕ
  pub total_amount : ℕ
  pub square_payment_id : Option ℕ
  pub square_order_id : Option ℕ
  pub square_location_id : Option ℕ
  pub checkout_url : Option ℕ
  pub last_attempted_at : Option ℕ
  pub succeeded_at : Option ℕ
  pub failed_at : Option ℕ
  pub created_at : ℕ

pub record Attempt : Type 0 where
  pub id : ℕ
  pub payment_id : ℕ
  pub idempotency_key : ℕ
  pub status : AttemptStatus
  pub retry_count : ℕ
  pub failure_category : Option FailureCategory
  pub failure_code : Option Text
  pub failure_message : Option Text
  pub provider_request_id : Option ℕ
  pub square_payment_id : Option ℕ
  pub next_retry_at : Option ℕ
  pub created_at : ℕ

pub record Refund : Type 0 where
  pub id : ℕ
  pub payment_id : ℕ
  pub issued_by_user_id : ℕ
  pub status : RefundStatus
  pub amount : ℕ
  pub reason : Option Text
  pub idempotency_key : ℕ
  pub square_refund_id : Option ℕ
  pub completed_at : Option ℕ
  pub created_at : ℕ

pub record Payout : Type 0 where
  pub id : ℕ
  pub payment_id : ℕ
  pub owner_id : ℕ
  pub status : PayoutStatus
  pub amount : ℕ
  pub due_at : ℕ
  pub released_at : Option ℕ
  pub failed_at : Option ℕ
  pub failure_message : Option Text
  pub created_at : ℕ

pub record LedgerEntry : Type 0 where
  pub id : ℕ
  pub payment_id : ℕ
  pub entry_type : LedgerEntryType
  pub amount : ℕ
  pub currency : ℕ

pub record WebhookEvent : Type 0 where
  pub id : ℕ
  pub payment_id : Option ℕ
  pub provider_event_id : ℕ
  pub event_type : Text
  pub signature_valid : Bool
  pub processed_at : Option ℕ

-- The tables together.
pub record Accounts : Type 0 where
  pub payments : List Payment
  pub attempts : List Attempt
  pub refunds : List Refund
  pub payouts : List Payout
  pub ledger : List LedgerEntry
  pub webhook_events : List WebhookEvent
