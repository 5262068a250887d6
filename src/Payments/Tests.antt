-- ===== src/Payments/Tests.antt =====
-- Runs of the payment methods on a small store: one request for the dates of the sample posting, and its
-- payment.
mod Examples
use fit.Common.{
  ℕ, ◌≡◌, refl, none, some, List, [], ◌∷◌, ◌++◌, map, any, count_if, find, select, update, remove,
}
use fit.Store.{BookingStatus, awaiting_payment, paid, expired, refunded, Store}
use fit.Store.Payments.{
  PaymentStatus, AttemptStatus, permanent, charge_created, charge_succeeded, payout_scheduled,
  Payment, Attempt,
}
use fit.Runtime.{err, bad_request, duplicate_key, refund_exceeds_total, transaction}
use fit.Runtime.Transaction.{give, raise, query, or_raise, write, raise_if, when, ◌>>=◌}
use fit.Bookings.Repository.{is_active_for, find_booking}
use fit.Bookings.Overlap.{blocked, is_blocking, booking_request_hold}
use fit.Payments.Model.{
  ProviderStatus, ProviderPaymentStatus, ProviderRefundStatus, ProviderRefundResult,
  CreateRefundInput,
}
use fit.Payments.Rows.{
  update_payment, update_references, update_attempt, update_refund, update_payout, update_booking,
  create_ledger_entry, find_payment, payment_of, insert_by_newest, by_newest, attempts_of,
  refunds_of, payout_of, find_payment_or_throw, find_by_references,
}
use fit.Payments.Utils.{share_of, sum_of, calculate_platform_fee_amount}
use fit.Payments.Attempts.{
  require_payable_booking, payment_or_new, create_attempt, find_attempt, attempt_again_or_new,
  create_payment_attempt_for_booking, attach_payment_session,
}
use fit.Payments.Outcome.{
  when_some, latest_attempt, succeed_attempt, pay_booking, pay_unconverted_booking, schedule_payout,
  succeed_found, mark_payment_succeeded, fail_attempt, fail_found, mark_payment_failed,
}
use fit.Payments.Refunds.{
  find_refund, refund_again_or_new, create_refund_record, succeeded_total, complete_refund,
}
use fit.Payments.Payouts.{release_found, mark_payout_released}
use fit.Samples.{day, two_days, booking, store, turn}

-- The definitions that a run of a transaction computes through.
unfoldable pub transactions : Unit {0}
unfolding ◌>>=◌ any count_if find select update remove transaction give raise query or_raise write
    raise_if when find_booking blocked is_blocking booking_request_hold update_payment
    update_references update_attempt update_refund update_payout update_booking create_ledger_entry
    find_payment payment_of insert_by_newest by_newest attempts_of refunds_of payout_of
    find_payment_or_throw find_by_references share_of sum_of calculate_platform_fee_amount
    require_payable_booking payment_or_new create_attempt find_attempt attempt_again_or_new
    create_payment_attempt_for_booking attach_payment_session when_some latest_attempt
    succeed_attempt pay_booking pay_unconverted_booking schedule_payout succeed_found
    mark_payment_succeeded fail_attempt fail_found mark_payment_failed find_refund
    refund_again_or_new create_refund_record succeeded_total complete_refund release_found
    mark_payout_released
transactions = tt

abbrev pub payment : PaymentStatus → Payment
payment status = record {
  id = 300;
  booking_request_id = 1;
  posting_id = 7;
  renter_id = 5;
  owner_id = 70;
  status = status;
  pricing_currency = 1;
  rental_subtotal_amount = 500;
  platform_fee_amount = 50;
  total_amount = 550;
  square_payment_id = some 900;
  square_order_id = none;
  square_location_id = none;
  checkout_url = none;
  last_attempted_at = none;
  succeeded_at = none;
  failed_at = none;
  created_at = 0;
}

abbrev pub attempt : Attempt
attempt = record {
  id = 400;
  payment_id = 300;
  idempotency_key = 40;
  status = AttemptStatus.processing;
  retry_count = 0;
  failure_category = none;
  failure_code = none;
  failure_message = none;
  provider_request_id = none;
  square_payment_id = none;
  next_retry_at = none;
  created_at = 0;
}

abbrev pub charged : BookingStatus → PaymentStatus → Store
charged request_status status = record store {
  bookings = booking 1 5 request_status (two_days (day 10) (day 12)) none ∷ [];
  blocks = [];
  accounts = record {
    payments = payment status ∷ [];
    attempts = attempt ∷ [];
    refunds = [];
    payouts = [];
    ledger = [];
    webhook_events = [];
  };
}

abbrev pub completed : ProviderPaymentStatus
completed = record {
  provider_payment_id = some 900;
  provider_order_id = none;
  status = ProviderStatus.completed;
  failure_code = none;
  failure_message = none;
}

abbrev pub refund_of : (amount : ℕ) → CreateRefundInput
refund_of amount = record {
  payment_id = 300;
  actor_user_id = 70;
  amount = amount;
  reason = none;
  idempotency_key = none;
}

abbrev statuses : Store → List BookingStatus
statuses s = map (λ b. b.status) s.bookings

-- A payment that succeeds sells the dates, and schedules the owner's share.
success_sells :
    let s' =
      (mark_payment_succeeded completed
        (turn 5)
        (charged awaiting_payment PaymentStatus.processing)).1 in
    (statuses s' ≡ paid ∷ [])
    × (map (λ k. k.start_at) s'.blocks ≡ day 10 ∷ [])
    × (map (λ e. e.entry_type) s'.accounts.ledger ≡ payout_scheduled ∷ charge_succeeded ∷ [])
    × (map (λ e. e.amount) s'.accounts.ledger ≡ 500 ∷ 550 ∷ [])
unfolding transactions
success_sells = (refl, refl, refl, refl)

-- A charge that is reported again after it has been refunded sells the dates a second time.
refunded_revives :
    let s' =
      (mark_payment_succeeded completed (turn 5) (charged refunded PaymentStatus.refunded)).1 in
    (statuses s' ≡ paid ∷ [])
    × (map (λ p. p.status) s'.accounts.payments ≡ PaymentStatus.succeeded ∷ [])
unfolding transactions
refunded_revives = (refl, refl)

-- Two refunds of the whole amount, with two keys, are both taken on, and more than was paid is given back.
abbrev twice_refunded : Store
twice_refunded =
    let s =
      (create_refund_record (refund_of 550) 1 (turn 5) (charged paid PaymentStatus.succeeded)).1 in
    (create_refund_record (refund_of 550) 2 (turn 6) s).1

abbrev give_back : ProviderRefundStatus → ProviderRefundResult
give_back status = record { provider_refund_id = some 950; status = status }

refunded_twice :
    let s =
      (complete_refund 600 (give_back ProviderRefundStatus.completed) (turn 7) twice_refunded).1 in
    let s' = (complete_refund 700 (give_back ProviderRefundStatus.completed) (turn 8) s).1 in
    (succeeded_total 300 s'.accounts.refunds ≡ 1100) × (statuses s' ≡ refunded ∷ [])
unfolding transactions
refunded_twice = (refl, refl)

refund_refused :
    (create_refund_record (refund_of 551) 1 (turn 5) (charged paid PaymentStatus.succeeded)).0
    ≡ err (bad_request refund_exceeds_total)
unfolding transactions
refund_refused = refl

-- A renter with two active requests gets a third, when the payment of one that has expired fails.
abbrev crowded : Store
crowded = record (charged expired PaymentStatus.processing) {
  bookings =
      booking 1 5 expired (two_days (day 10) (day 12)) none
      ∷ booking 2 5 awaiting_payment (two_days (day 20) (day 22)) none
      ∷ booking 3 5 awaiting_payment (two_days (day 30) (day 32)) none
      ∷ [];
}

failure_exceeds_limit :
    (count_if (is_active_for 7 5) crowded.bookings ≡ 2)
    × (count_if
          (is_active_for 7 5)
          (mark_payment_failed completed permanent (turn 5) crowded).1.bookings
        ≡ 3)
unfolding transactions
failure_exceeds_limit = (refl, refl)

-- A first attempt makes the payment, of a quarter of the total and a fee of a tenth of that.
attempt_made :
    let none_yet : Store = record (charged awaiting_payment PaymentStatus.processing) {
      accounts = record {
        payments = [];
        attempts = [];
        refunds = [];
        payouts = [];
        ledger = [];
        webhook_events = [];
      };
    } in
    let s = (create_payment_attempt_for_booking 1 5 40 (turn 5) none_yet).1 in
    (map (λ p. p.rental_subtotal_amount) s.accounts.payments ≡ 500 ∷ [])
    × (map (λ p. p.total_amount) s.accounts.payments ≡ 550 ∷ [])
    × (map (λ e. e.entry_type) s.accounts.ledger ≡ charge_created ∷ [])
unfolding transactions
attempt_made = (refl, refl, refl)

-- Floating point rounds some halves of a cent down, and others up.
half_cents :
    (share_of 35 1_000 ≡ 3)
    × (share_of 58 2_500 ≡ 14)
    × (share_of 45 1_000 ≡ 5)
    × (sum_of 12345 678 ≡ 13023)
unfolding transactions
half_cents = (refl, refl, refl, refl)

abbrev two_payments : Store
two_payments =
    let s = charged awaiting_payment PaymentStatus.processing in
    let other = record (payment PaymentStatus.processing) {
      id = 301;
      booking_request_id = 2;
      square_payment_id = none;
      square_order_id = some 55;
    } in
    record s { accounts = record s.accounts { payments = s.accounts.payments ++ other ∷ [] } }

-- A report with the payment id of one payment and the order id of another meets the unique columns.
mixed_ids_refused :
    mark_payment_succeeded (record completed { provider_order_id = some 55 }) (turn 5) two_payments
    ≡ (err duplicate_key, two_payments)
unfolding transactions
mixed_ids_refused = refl
