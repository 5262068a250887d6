-- ===== src/Payments/Refunds.antt =====
-- Refunds, of payments.repository.ts: `createRefundRecord` and `completeRefund`.
use fit.Common.{
  ℕ, ◌+◌, Bool, true, false, ◌&&◌, Option, none, some, List, [], ◌∷◌, ltb, leb, ◌==◌, if◌then◌else◌,
  is_some, any, find, remove,
}
use fit.Store.{BookingStatus, Booking, Store}
use fit.Store.Payments.{RefundStatus, PaymentStatus, refund_issued, Payment, Refund}
use fit.Runtime.{
  bad_request, not_found, record_missing, duplicate_key, payment_not_found, payment_not_linked,
  refund_exceeds_total, Turn, Visit, transaction,
}
use fit.Runtime.Transaction.{give, query, or_raise, raise_if, write, when, ◌>>=◌, ◌>>◌}
use fit.Bookings.Overlap.{refers_to}
use fit.Payments.Model.{
  PaymentRecord, CreateRefundInput, ProviderRefundStatus, ProviderRefundResult,
}
use fit.Payments.Rows.{
  has_refund_id, on_accounts, update_payment, update_refund, update_booking, create_ledger_entry,
  find_payment, find_payment_or_throw,
}

-- What `createRefundRecord` returns.
pub record RefundTicket : Type 0 where
  pub refund_id : ℕ
  pub payment_id : ℕ
  pub provider_payment_id : ℕ
  pub pricing_currency : ℕ

-- The refund of the payment with the key; the service always gives one.
unfoldable pub find_refund : (payment_id idempotency_key : ℕ) → Store → Option Refund
find_refund payment_id idempotency_key s =
    find (λ r. r.payment_id == payment_id && r.idempotency_key == idempotency_key)
      s.accounts.refunds

abbrev pub new_refund : CreateRefundInput → (idempotency_key : ℕ) → Turn → Refund
new_refund input idempotency_key t = record {
  id = t.uuid 0;
  payment_id = input.payment_id;
  issued_by_user_id = input.actor_user_id;
  status = RefundStatus.pending;
  amount = input.amount;
  reason = input.reason;
  idempotency_key = idempotency_key;
  square_refund_id = none;
  completed_at = none;
  created_at = t.later;
}

unfoldable pub refund_again_or_new :
    CreateRefundInput
    → (idempotency_key : ℕ) → Payment
    → (provider_payment_id : ℕ) → Option Refund
    → Visit RefundTicket
refund_again_or_new input key p provider_payment_id (some existing) = give (record {
  refund_id = existing.id;
  payment_id = p.id;
  provider_payment_id = provider_payment_id;
  pricing_currency = p.pricing_currency;
})
refund_again_or_new input key p provider_payment_id none = do
  raise_if (ltb p.total_amount input.amount) (bad_request refund_exceeds_total)
  taken ← query λ t s. any (λ r. r.idempotency_key == key) s.accounts.refunds
  raise_if taken duplicate_key
  refund ← query λ t s. new_refund input key t
  write λ t. on_accounts λ a. record a { refunds = refund ∷ a.refunds }
  give (record {
    refund_id = refund.id;
    payment_id = p.id;
    provider_payment_id = provider_payment_id;
    pricing_currency = p.pricing_currency;
  })

unfoldable pub create_refund_record : CreateRefundInput → (idempotency_key : ℕ) → Visit RefundTicket
unfolding refund_again_or_new find_refund
create_refund_record input idempotency_key = transaction do
  found ← query λ t s. find_payment input.payment_id s
  payment ← or_raise found (not_found payment_not_found)
  provider_payment_id ← or_raise payment.square_payment_id (bad_request payment_not_linked)
  existing ← query λ t s. find_refund payment.id idempotency_key s
  refund_again_or_new input idempotency_key payment provider_payment_id existing

abbrev pub refund_status : ProviderRefundStatus → RefundStatus
refund_status ProviderRefundStatus.completed = RefundStatus.succeeded
refund_status ProviderRefundStatus.failed = RefundStatus.failed
refund_status ProviderRefundStatus.pending = RefundStatus.pending

-- `result.status === "COMPLETED" ? new Date() : null`
abbrev pub completion : ProviderRefundStatus → Turn → Option ℕ
completion ProviderRefundStatus.completed t = some t.later
completion ProviderRefundStatus.failed t = none
completion ProviderRefundStatus.pending t = none

abbrev pub completed_refund : ProviderRefundResult → Turn → Refund → Refund
completed_refund result t r = record r {
  status = refund_status result.status;
  square_refund_id = result.provider_refund_id;
  completed_at = completion result.status t;
}

abbrev pub refund_succeeded : RefundStatus → Bool
refund_succeeded RefundStatus.succeeded = true
refund_succeeded _ = false

-- The sum of the payment's refunds that have succeeded.
unfoldable pub succeeded_total : (payment_id : ℕ) → List Refund → ℕ
succeeded_total payment_id [] = 0
succeeded_total payment_id (r ∷ rs) =
    (if r.payment_id == payment_id && refund_succeeded r.status then r.amount else 0)
    + succeeded_total payment_id rs

abbrev pub refunded_status : (succeeded_total payment_total : ℕ) → PaymentStatus → PaymentStatus
refunded_status succeeded_total payment_total status =
    if leb payment_total succeeded_total
    then PaymentStatus.refunded
    else if ltb 0 succeeded_total
    then PaymentStatus.partially_refunded
    else status

abbrev pub refunded_booking : Turn → Booking → Booking
refunded_booking t b = record b {
  status = BookingStatus.refunded;
  refunded_at = some t.later;
  hold_block_id = none;
}

-- `data` of the booking's update: empty unless the whole payment is refunded.
abbrev pub refund_booking : (whole : Bool) → Turn → Booking → Booking
refund_booking true t b = refunded_booking t b
refund_booking false t b = b

unfoldable pub complete_refund : (refund_id : ℕ) → ProviderRefundResult → Visit PaymentRecord
complete_refund refund_id result = transaction do
  found ← query λ t s. find (has_refund_id refund_id) s.accounts.refunds
  refund ← or_raise found record_missing
  update_refund refund_id (completed_refund result)
  row ← find_payment_or_throw refund.payment_id
  total ← query λ t s. succeeded_total refund.payment_id s.accounts.refunds
  let whole = leb row.total_amount total
  update_payment row.payment.id
      λ t p. record p { status = refunded_status total row.total_amount row.payment.status }
  update_booking row.booking_request_id (refund_booking whole)
  when (whole && is_some row.booking.hold_block_id) (
      write λ t s. record s {
        blocks = remove (λ k. refers_to row.booking.hold_block_id k.id) s.blocks;
      })
  create_ledger_entry 0 row.payment.id refund_issued refund.amount row.pricing_currency
  find_payment_or_throw row.payment.id
