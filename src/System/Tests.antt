-- ===== src/System/Tests.antt =====
-- A request's way from the owner's approval to its payment, as writes one after the other.
use fit.Common.{◌≡◌, refl, none, some, List, [], ◌∷◌, map}
use fit.Store.{paid}
use fit.Runtime.{Turn}
use fit.Bookings.Machine.Invariant.{Core}
use fit.Bookings.Machine.History.{History}
use fit.Bookings.Tests.{runs}
use fit.Payments.Model.{ProviderPaymentSession, ProviderStatus, ProviderPaymentStatus}
use fit.Payments.Tests.{transactions}
use fit.System.{Write, approval, payment_attempt, session, success, perform, perform_all}
use fit.System.Invariant.{perform_all-Core, perform_all-History}
use fit.Samples.{day, store, turn}
use fit.Samples.Valid.{store-Inv}

abbrev opened : ProviderPaymentSession
opened = record {
  checkout_url = none;
  provider_request_id = some 1;
  provider_payment_id = some 900;
  provider_order_id = none;
  location_id = none;
}

abbrev completed : ProviderPaymentStatus
completed = record {
  provider_payment_id = some 900;
  provider_order_id = none;
  status = ProviderStatus.completed;
  failure_code = none;
  failure_message = none;
}

abbrev to_payment : List (Write × Turn)
to_payment =
    (approval 1 70 none (day 3), turn 5)
    ∷ (payment_attempt 1 5 40, turn 6)
    ∷ (session 700 701 opened, turn 7)
    ∷ (success completed, turn 8)
    ∷ []

to_payment_pays : map (λ b. b.status) (perform_all to_payment store).bookings ≡ paid ∷ paid ∷ []
unfolding runs transactions perform perform_all
to_payment_pays = refl

perform_all-Core_example : Core (perform_all to_payment store)
perform_all-Core_example =
    perform_all-Core to_payment store (tt, (tt, (tt, (tt, tt)))) store-Inv.core

perform_all-History_example : History store (perform_all to_payment store)
perform_all-History_example =
    perform_all-History to_payment store (tt, (tt, (tt, (tt, tt)))) store-Inv.core
