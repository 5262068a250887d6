-- ===== src/Payments/Queries.antt =====
-- What payments.repository.ts finds for the service, and `upsertWebhookEvent`.
use fit.Common.{ℕ, Bool, false, not, ◌&&◌, Option, none, some, ◌==◌}
use fit.Common.Text.{Text}
use fit.Store.Payments.{WebhookEvent}
use fit.Runtime.{
  not_found, forbidden, payment_not_found, no_payment_access, Visit, M, visit, pure, require,
  throw_if, ◌>>=◌, ◌>>◌,
}
use fit.Runtime.Transaction.{query}
use fit.Payments.Model.{PaymentRecord}
use fit.Payments.Rows.{find_payment, with_relations, find_by_references}
use fit.Payments.Webhooks.{was_processed, find_event, create_event}

unfoldable pub find_by_id : ℕ → Visit (Option PaymentRecord)
unfolding find_payment
find_by_id id = query λ t s. with_relations s (find_payment id s)

unfoldable pub find_accessible_by_id : (id user_id : ℕ) → M PaymentRecord
find_accessible_by_id id user_id = do
  found ← visit (find_by_id id)
  payment ← require found (not_found payment_not_found)
  throw_if (not (payment.renter_id == user_id) && not (payment.owner_id == user_id))
      (forbidden no_payment_access)
  pure payment

unfoldable pub find_by_square_references :
    (square_payment_id square_order_id : Option ℕ) → Visit (Option PaymentRecord)
find_by_square_references payment_id order_id =
    query λ t s. with_relations s (find_by_references payment_id order_id s)

unfoldable pub create_unless_found :
    (provider_event_id : ℕ)
    → (event_type : Text) → (signature_valid : Bool) → (payment_id : Option ℕ) → Option WebhookEvent
    → M Bool
create_unless_found id event_type signature_valid payment_id (some e) = pure (was_processed e)
create_unless_found id event_type signature_valid payment_id none = do
  visit (create_event id event_type signature_valid payment_id)
  pure false

-- `upsertWebhookEvent`, in two queries; the result is `alreadyProcessed`.
unfoldable pub upsert_webhook_event :
    (provider_event_id : ℕ)
    → (event_type : Text) → (signature_valid : Bool) → (payment_id : Option ℕ) → M Bool
unfolding create_unless_found
upsert_webhook_event id event_type signature_valid payment_id = do
  found ← visit (find_event id)
  create_unless_found id event_type signature_valid payment_id found
