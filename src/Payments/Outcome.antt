-- ===== src/Payments/Outcome.antt =====
-- How a payment ends, of payments.repository.ts: `markPaymentSucceeded`, `markPaymentFailed` and
-- `markBookingReconciliationRequired`.
use fit.Common.{
  ℕ, ◌+◌, Bool, true, false, not, ◌||◌, Option, none, some, ◌∷◌, if◌then◌else◌, is_some, or_else,
  any, head?,
}
use fit.Store.{paid, Booking, Block, booking_note, booking_hold, Store}
use fit.Store.Payments.{
  FailureCategory, transient, PaymentStatus, AttemptStatus, PayoutStatus, charge_succeeded,
  payout_scheduled, Payment, Attempt, Payout,
}
use fit.Runtime.{record_missing, Turn, Visit, transaction}
use fit.Runtime.Transaction.{give, query, or_raise, write, when, ◌>>=◌, ◌>>◌}
use fit.Bookings.Overlap.{blocked, rents}
use fit.Bookings.Repository.{find_booking}
use fit.Payments.Model.{PaymentRecord, ProviderPaymentStatus}
use fit.Payments.Rows.{
  on_accounts, update_payment, update_references, update_attempt, update_booking,
  create_ledger_entry, find_payment, attempts_of, payout_of, find_payment_or_throw,
  find_by_references,
}
use fit.Payments.Attempts.{
  has_renting_of, failure_status, attempt_failure_status, next_retry, failed_booking,
}

-- `if (condition) { … }` on an optional value
unfoldable pub when_some {ℓ} : {A : Type ℓ} → Option A → (A → Visit (Unit {0})) → Visit (Unit {0})
when_some none f = give tt
when_some (some a) f = f a

-- `first ?? second`
abbrev pub or_other : Option ℕ → Option ℕ → Option ℕ
or_other none second = second
or_other (some a) second = some a

abbrev pub is_succeeded : PaymentStatus → Bool
is_succeeded PaymentStatus.succeeded = true
is_succeeded _ = false

abbrev pub attempt_succeeded : AttemptStatus → Bool
attempt_succeeded AttemptStatus.succeeded = true
attempt_succeeded _ = false

-- The attempt of `payment.attempts[0]`.
unfoldable pub latest_attempt : (payment_id : ℕ) → Store → Option Attempt
latest_attempt payment_id s = head? (attempts_of payment_id s)

unfoldable pub succeed_attempt : ProviderPaymentStatus → Payment → Attempt → Visit (Unit {0})
succeed_attempt input p latest = when (not (attempt_succeeded latest.status)) (
    update_attempt latest.id λ t a. record a {
      status = AttemptStatus.succeeded;
      square_payment_id = or_other input.provider_payment_id p.square_payment_id;
      failure_category = none;
      failure_code = none;
      failure_message = none;
      next_retry_at = none;
    })

abbrev pub paid_block : Turn → Booking → Block
paid_block t b = record {
  id = t.uuid 0;
  posting_id = b.posting_id;
  start_at = b.start_at;
  end_at = b.end_at;
  note = booking_note b.id;
  source = booking_hold;
}

-- `availabilityConflict || rentingConflict`
abbrev pub conflicts : Booking → Store → Bool
conflicts b s =
    blocked s b.posting_id b.start_at b.end_at (some b.id)
    || any (rents b.posting_id b.start_at b.end_at) s.rentings

abbrev pub paid_booking : Option ℕ → Turn → Booking → Booking
paid_booking hold_block_id t b = record b {
  status = paid;
  hold_block_id = hold_block_id;
  conversion_reserved_at = none;
  conversion_reservation_expires_at = none;
  payment_reconciliation_required = false;
}

abbrev pub unreconciled_booking : Turn → Booking → Booking
unreconciled_booking t b = record b { payment_reconciliation_required = true }

-- A booking that has its block already becomes paid; one without gets a block, if its dates are free.
-- The result is `reconciliationRequired`.
unfoldable pub pay_booking : Booking → Option ℕ → Visit Bool
pay_booking b (some block_id) = do update_booking b.id (paid_booking (some block_id)); give false
pay_booking b none = do
  required ← query λ t s. conflicts b s
  if required then (do update_booking b.id unreconciled_booking; give true) else (do
    write λ t s. record s { blocks = paid_block t b ∷ s.blocks }
    block_id ← query λ t s. t.uuid 0
    update_booking b.id (paid_booking (some block_id))
    give false)

unfoldable pub pay_unconverted_booking : Booking → (already_converted : Bool) → Visit Bool
unfolding pay_booking
pay_unconverted_booking b true = give false
pay_unconverted_booking b false = pay_booking b b.hold_block_id

abbrev pub new_payout : Payment → Booking → Turn → Payout
new_payout p b t = record {
  id = t.uuid 2;
  payment_id = p.id;
  owner_id = p.owner_id;
  status = PayoutStatus.scheduled;
  amount = p.rental_subtotal_amount;
  due_at = b.start_at;
  released_at = none;
  failed_at = none;
  failure_message = none;
  created_at = t.later;
}

unfoldable pub schedule_payout : Payment → Booking → Option Payout → Visit (Unit {0})
schedule_payout p b (some payout) = give tt
schedule_payout p b none = do
  write λ t. on_accounts λ a. record a { payouts = new_payout p b t ∷ a.payouts }
  create_ledger_entry 3 p.id payout_scheduled p.rental_subtotal_amount p.pricing_currency

-- What `markPaymentSucceeded` returns.
pub record Marked : Type 0 where
  pub payment : Option PaymentRecord
  pub reconciliation_required : Bool

abbrev pub unmarked : Marked
unmarked = record { payment = none; reconciliation_required = false }

abbrev pub succeeded_payment : ProviderPaymentStatus → Turn → Payment → Payment
succeeded_payment input t p = record p {
  status = PaymentStatus.succeeded;
  square_payment_id = or_other input.provider_payment_id p.square_payment_id;
  square_order_id = or_other input.provider_order_id p.square_order_id;
  succeeded_at = some (or_else p.succeeded_at t.later);
  failed_at = none;
}

unfoldable pub succeed_found : ProviderPaymentStatus → Option Payment → Visit Marked
unfolding succeed_attempt pay_unconverted_booking schedule_payout when_some latest_attempt
succeed_found input none = give unmarked
succeed_found input (some p) = do
  payout ← query λ t s. payout_of p.id s
  latest ← query λ t s. latest_attempt p.id s
  update_references p.id (succeeded_payment input)
  when_some latest (succeed_attempt input p)
  found ← query λ t s. find_booking p.booking_request_id s
  booking ← or_raise found record_missing
  already_converted ← query λ t s. has_renting_of s booking.id || is_some booking.converted_at
  required ← pay_unconverted_booking booking already_converted
  when (not (is_succeeded p.status))
      (create_ledger_entry 1 p.id charge_succeeded p.total_amount p.pricing_currency)
  schedule_payout p booking payout
  refreshed ← find_payment_or_throw p.id
  give (record { payment = some refreshed; reconciliation_required = required })

-- Without an id of the provider no payment is found, as the early return has it.
unfoldable pub mark_payment_succeeded : ProviderPaymentStatus → Visit Marked
unfolding succeed_found
mark_payment_succeeded input = transaction do
  found ← query λ t s. find_by_references input.provider_payment_id input.provider_order_id s
  succeed_found input found

abbrev pub is_transient : FailureCategory → Bool
is_transient transient = true
is_transient _ = false

unfoldable pub fail_attempt : ProviderPaymentStatus → FailureCategory → Attempt → Visit (Unit {0})
fail_attempt input category latest = update_attempt latest.id λ t a. record a {
  status = attempt_failure_status (is_transient category);
  failure_category = some category;
  failure_code = input.failure_code;
  failure_message = input.failure_message;
  next_retry_at = next_retry (is_transient category) (latest.retry_count + 1) t;
}

unfoldable pub fail_found :
    ProviderPaymentStatus → FailureCategory → Option Payment → Visit (Option PaymentRecord)
unfolding fail_attempt when_some latest_attempt
fail_found input category none = give none
fail_found input category (some p) = do
  latest ← query λ t s. latest_attempt p.id s
  update_payment p.id
      λ t p. record p { status = failure_status (is_transient category); failed_at = some t.later }
  when_some latest (fail_attempt input category)
  update_booking p.booking_request_id failed_booking
  refreshed ← find_payment_or_throw p.id
  give (some refreshed)

unfoldable pub mark_payment_failed :
    ProviderPaymentStatus → FailureCategory → Visit (Option PaymentRecord)
unfolding fail_found
mark_payment_failed input category = transaction do
  found ← query λ t s. find_by_references input.provider_payment_id input.provider_order_id s
  fail_found input category found

unfoldable pub mark_booking_reconciliation_required : (payment_id : ℕ) → Visit (Unit {0})
mark_booking_reconciliation_required payment_id = transaction do
  found ← query λ t s. find_payment payment_id s
  payment ← or_raise found record_missing
  update_booking payment.booking_request_id unreconciled_booking
