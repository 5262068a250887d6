-- ===== src/Payments/Tests/Examples.antt =====
-- The theorems on payments, at the runs of the sample store.
use fit.Common.{◌≡◌, refl, true, none, some, [], ◌∷◌}
use fit.Store.{Booking, expired, paid, Store}
use fit.Store.Payments.{PaymentStatus, refund_issued, Payout, PayoutStatus}
use fit.Runtime.{ok, World, throw_if, ◌>>=◌}
use fit.Payments.Model.{ProviderRefundStatus, ProviderRefundResult}
use fit.Payments.Outcome.{mark_payment_succeeded}
use fit.Payments.Refunds.{RefundTicket, create_refund_record, complete_refund}
use fit.Payments.Payouts.{mark_payout_released}
use fit.Payments.Webhooks.{find_event, create_event, mark_webhook_processed}
use fit.Payments.Queries.{find_by_square_references, upsert_webhook_event}
use fit.Base.Once.{Alone}
use fit.Payments.Service.{WebhookDelivery, EventStatus}
use fit.Payments.Settlement.{process_square_webhook}
use fit.Payments.Repeats.{create_refund_record-again, mark_payout_released-again}
use fit.Payments.Replay.{process_square_webhook-again}
use fit.Payments.Ledger.{OneMore, complete_refund-OneMore}
use fit.Payments.Success.{Payable, PaidOff, mark_payment_succeeded-IsPaidOff}
use fit.Payments.Tests.{transactions, payment, charged, completed, refund_of}
use fit.Samples.{day, two_days, booking, turn, world}

abbrev late : Booking
late = booking 1 5 expired (two_days (day 10) (day 12)) none

abbrev after_expiry : Store
after_expiry = charged expired PaymentStatus.processing

after_expiry-IsPayable : Payable completed (payment PaymentStatus.processing) late after_expiry
unfolding transactions
after_expiry-IsPayable = record {
  reported = refl;
  row = refl;
  alone = ((λ shared. refl), tt);
  booking = refl;
  unconverted = refl;
  unrented = refl;
  unheld = refl;
  free = refl;
}

-- The request has expired before the payment succeeds.
mark_payment_succeeded-IsPaidOff_example :
    PaidOff late (turn 5) after_expiry (mark_payment_succeeded completed (turn 5) after_expiry)
mark_payment_succeeded-IsPaidOff_example =
    mark_payment_succeeded-IsPaidOff completed (payment PaymentStatus.processing) late (turn 5)
      after_expiry after_expiry-IsPayable

abbrev sold : Store
sold = charged paid PaymentStatus.succeeded

abbrev refunding : Store
refunding = (create_refund_record (refund_of 100) 1 (turn 5) sold).1

abbrev ticket : RefundTicket
ticket = record {
  refund_id = 600;
  payment_id = 300;
  provider_payment_id = 900;
  pricing_currency = 1;
}

first_ticket : create_refund_record (refund_of 100) 1 (turn 5) sold ≡ (ok ticket, refunding)
unfolding transactions
first_ticket = refl

create_refund_record-again_example :
    create_refund_record (refund_of 100) 1 (turn 6) refunding ≡ (ok ticket, refunding)
create_refund_record-again_example =
    create_refund_record-again (refund_of 100) 1 (turn 5) (turn 6) sold refunding ticket
      first_ticket

-- The provider has refused the refund.
abbrev refused : ProviderRefundResult
refused = record { provider_refund_id = some 950; status = ProviderRefundStatus.failed }

abbrev refund_over : Store
refund_over = (complete_refund 600 refused (turn 7) refunding).1

complete_refund-OneMore_example :
    OneMore refund_issued refunding.accounts.ledger refund_over.accounts.ledger
unfolding transactions
complete_refund-OneMore_example =
    complete_refund-OneMore 600 refused (turn 7) refunding refund_over _ refl

abbrev payout : Payout
payout = record {
  id = 800;
  payment_id = 300;
  owner_id = 70;
  status = PayoutStatus.scheduled;
  amount = 500;
  due_at = 3;
  released_at = none;
  failed_at = none;
  failure_message = none;
  created_at = 0;
}

abbrev due : Store
due = record sold { accounts = record sold.accounts { payouts = payout ∷ [] } }

abbrev released : Store
released = (mark_payout_released 800 (turn 5) due).1

released_once : mark_payout_released 800 (turn 5) due ≡ (ok tt, released)
unfolding transactions
released_once = refl

mark_payout_released-again_example : mark_payout_released 800 (turn 6) released ≡ (ok tt, released)
mark_payout_released-again_example =
    mark_payout_released-again 800 (turn 5) (turn 6) due released released_once

abbrev delivery : WebhookDelivery
delivery = record {
  is_valid = true;
  event_id = 77;
  event_type = [];
  payment_id = some 900;
  order_id = none;
  status = EventStatus.completed;
}

abbrev first : World
first = (process_square_webhook [] [] delivery (record (world 5) { store = sold })).1

first_delivery :
    process_square_webhook [] [] delivery (record (world 5) { store = sold }) ≡ (ok tt, first)
unfolding transactions process_square_webhook ◌>>=◌ find_by_square_references upsert_webhook_event
    find_event create_event throw_if mark_webhook_processed
first_delivery = refl

first-Alone : Alone first
unfolding transactions process_square_webhook ◌>>=◌ find_by_square_references upsert_webhook_event
    find_event create_event throw_if mark_webhook_processed
first-Alone i s = refl

process_square_webhook-again_example :
    ((process_square_webhook [] [] delivery first).0 ≡ ok tt)
    × ((process_square_webhook [] [] delivery first).1.store ≡ first.store)
process_square_webhook-again_example =
    process_square_webhook-again [] [] delivery _ first first_delivery first-Alone
