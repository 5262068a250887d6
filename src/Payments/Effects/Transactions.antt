-- ===== src/Payments/Effects/Transactions.antt =====
-- What each transaction of payments.repository.ts leaves alone.
use fit.Common.{ℕ, Bool, true, false, Option, none, some, if◌then◌else◌}
use fit.Common.Text.{Text}
use fit.Store.{Booking}
use fit.Store.Payments.{FailureCategory, Payment, Attempt, Refund, Payout}
use fit.Payments.Webhooks.{create_event, mark_webhook_processed}
use fit.Runtime.{Visit}
use fit.Payments.Model.{
  ProviderPaymentSession, ProviderPaymentStatus, ProviderErrorInfo, CreateRefundInput,
  ProviderRefundResult,
}
use fit.Payments.Attempts.{
  require_payable_booking, payment_or_new, create_attempt, attempt_again_or_new,
  create_payment_attempt_for_booking, attach_payment_session, record_attempt_failure,
}
use fit.Payments.Retry.{retry_found, mark_attempt_for_retry}
use fit.Payments.Outcome.{
  succeed_attempt, pay_booking, pay_unconverted_booking, schedule_payout, succeed_found,
  mark_payment_succeeded, fail_attempt, fail_found, mark_payment_failed,
  mark_booking_reconciliation_required,
}
use fit.Payments.Refunds.{refund_again_or_new, create_refund_record, complete_refund}
use fit.Payments.Payouts.{release_found, mark_payout_released, mark_payout_failed}
use fit.Payments.Effects.{Gentle, give-Gentle, accounts-Touches}
use fit.Payments.Effects.Kept.{gentle}

if-Gentle {ℓ} :
    {A : Type ℓ} (b : Bool) (m n : Visit A) → Gentle m → Gentle n → Gentle (if b then m else n)
if-Gentle true m n h k = h
if-Gentle false m n h k = k

require_payable_booking-Gentle : (id renter_id : ℕ) → Gentle (require_payable_booking id renter_id)
unfolding require_payable_booking
require_payable_booking-Gentle id renter_id = search (gentle) depth 30

payment_or_new-Gentle :
    (o : Option Payment) (b : Booking) (subtotal fee : ℕ) → Gentle (payment_or_new o b subtotal fee)
unfolding payment_or_new
payment_or_new-Gentle (some p) b subtotal fee = give-Gentle p
payment_or_new-Gentle none b subtotal fee = search gentle depth 20

create_attempt-Gentle :
    (b : Booking) (o : Option Payment) (key : ℕ) → Gentle (create_attempt b o key)
unfolding create_attempt
create_attempt-Gentle b o key = search (gentle, payment_or_new-Gentle) depth 30

attempt_again_or_new-Gentle :
    (b : Booking) (o : Option Payment) (key : ℕ) (found : Option Attempt)
    → Gentle (attempt_again_or_new b o key found)
unfolding attempt_again_or_new
attempt_again_or_new-Gentle b o key none = create_attempt-Gentle b o key
attempt_again_or_new-Gentle b o key (some a) = search gentle depth 20

pub create_payment_attempt_for_booking-Gentle :
    (id renter_id key : ℕ) → Gentle (create_payment_attempt_for_booking id renter_id key)
unfolding create_payment_attempt_for_booking
create_payment_attempt_for_booking-Gentle id renter_id key =
    search (gentle, require_payable_booking-Gentle, attempt_again_or_new-Gentle) depth 30

pub attach_payment_session-Gentle :
    (payment_id attempt_id : ℕ) (session : ProviderPaymentSession)
    → Gentle (attach_payment_session payment_id attempt_id session)
unfolding attach_payment_session
attach_payment_session-Gentle payment_id attempt_id session = search (gentle) depth 30

pub record_attempt_failure-Gentle :
    (payment_id attempt_id : ℕ) (info : ProviderErrorInfo)
    → Gentle (record_attempt_failure payment_id attempt_id info)
unfolding record_attempt_failure
record_attempt_failure-Gentle payment_id attempt_id info = search (gentle) depth 30

retry_found-Gentle : (found : Option Attempt) → Gentle (retry_found found)
unfolding retry_found
retry_found-Gentle none = give-Gentle none
retry_found-Gentle (some a) = search (gentle, if-Gentle) depth 20

pub mark_attempt_for_retry-Gentle : (attempt_id : ℕ) → Gentle (mark_attempt_for_retry attempt_id)
unfolding mark_attempt_for_retry
mark_attempt_for_retry-Gentle attempt_id = search (gentle, retry_found-Gentle) depth 30

succeed_attempt-Gentle :
    (input : ProviderPaymentStatus) (p : Payment) (a : Attempt) → Gentle (succeed_attempt input p a)
unfolding succeed_attempt
succeed_attempt-Gentle input p a = search (gentle) depth 30

pay_booking-Gentle : (b : Booking) (block_id : Option ℕ) → Gentle (pay_booking b block_id)
unfolding pay_booking
pay_booking-Gentle b (some block_id) = search gentle depth 20
pay_booking-Gentle b none = search (gentle, if-Gentle) depth 20

pay_unconverted_booking-Gentle :
    (b : Booking) (converted : Bool) → Gentle (pay_unconverted_booking b converted)
unfolding pay_unconverted_booking
pay_unconverted_booking-Gentle b true = give-Gentle false
pay_unconverted_booking-Gentle b false = pay_booking-Gentle b b.hold_block_id

schedule_payout-Gentle :
    (p : Payment) (b : Booking) (o : Option Payout) → Gentle (schedule_payout p b o)
unfolding schedule_payout
schedule_payout-Gentle p b (some payout) = give-Gentle tt
schedule_payout-Gentle p b none = search gentle depth 20

succeed_found-Gentle :
    (input : ProviderPaymentStatus) (o : Option Payment) → Gentle (succeed_found input o)
unfolding succeed_found
succeed_found-Gentle input none = give-Gentle _
succeed_found-Gentle input (some p) =
    search (gentle, succeed_attempt-Gentle, pay_unconverted_booking-Gentle, schedule_payout-Gentle)
      depth 40

pub mark_payment_succeeded-Gentle :
    (input : ProviderPaymentStatus) → Gentle (mark_payment_succeeded input)
unfolding mark_payment_succeeded
mark_payment_succeeded-Gentle input = search (gentle, succeed_found-Gentle) depth 30

fail_attempt-Gentle :
    (input : ProviderPaymentStatus) (category : FailureCategory) (a : Attempt)
    → Gentle (fail_attempt input category a)
unfolding fail_attempt
fail_attempt-Gentle input category a = search gentle depth 20

fail_found-Gentle :
    (input : ProviderPaymentStatus) (category : FailureCategory) (o : Option Payment)
    → Gentle (fail_found input category o)
unfolding fail_found
fail_found-Gentle input category none = give-Gentle none
fail_found-Gentle input category (some p) = search gentle depth 30

pub mark_payment_failed-Gentle :
    (input : ProviderPaymentStatus) (category : FailureCategory)
    → Gentle (mark_payment_failed input category)
unfolding mark_payment_failed
mark_payment_failed-Gentle input category = search (gentle, fail_found-Gentle) depth 30

pub mark_booking_reconciliation_required-Gentle :
    (payment_id : ℕ) → Gentle (mark_booking_reconciliation_required payment_id)
unfolding mark_booking_reconciliation_required
mark_booking_reconciliation_required-Gentle payment_id = search (gentle) depth 30

refund_again_or_new-Gentle :
    (input : CreateRefundInput) (key : ℕ) (p : Payment) (id : ℕ) (o : Option Refund)
    → Gentle (refund_again_or_new input key p id o)
unfolding refund_again_or_new
refund_again_or_new-Gentle input key p id none = search gentle depth 20
refund_again_or_new-Gentle input key p id (some r) = give-Gentle _

pub create_refund_record-Gentle :
    (input : CreateRefundInput) (key : ℕ) → Gentle (create_refund_record input key)
unfolding create_refund_record
create_refund_record-Gentle input key = search (gentle, refund_again_or_new-Gentle) depth 30

pub complete_refund-Gentle :
    (refund_id : ℕ) (result : ProviderRefundResult) → Gentle (complete_refund refund_id result)
unfolding complete_refund
complete_refund-Gentle refund_id result = search (gentle) depth 30

release_found-Gentle : (payout : Payout) → Gentle (release_found payout)
unfolding release_found
release_found-Gentle payout = search (gentle, if-Gentle) depth 20

pub mark_payout_released-Gentle : (payout_id : ℕ) → Gentle (mark_payout_released payout_id)
unfolding mark_payout_released
mark_payout_released-Gentle payout_id = search (gentle, release_found-Gentle) depth 30

pub mark_payout_failed-Gentle :
    (payout_id : ℕ) (message : Text) → Gentle (mark_payout_failed payout_id message)
unfolding mark_payout_failed
mark_payout_failed-Gentle payout_id message = search (gentle) depth 30

pub create_event-Gentle :
    (id : ℕ) (event_type : Text) (valid : Bool) (payment_id : Option ℕ)
    → Gentle (create_event id event_type valid payment_id)
unfolding create_event
create_event-Gentle id event_type valid payment_id = search gentle depth 20

pub mark_webhook_processed-Gentle : (id : ℕ) → Gentle (mark_webhook_processed id)
unfolding mark_webhook_processed
mark_webhook_processed-Gentle id = record { at = λ t s. search accounts-Touches }
