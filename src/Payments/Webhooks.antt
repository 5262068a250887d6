-- ===== src/Payments/Webhooks.antt =====
-- The stored events of the webhook, of payments.repository.ts.
use fit.Common.{ℕ, Bool, Option, none, some, ◌∷◌, ◌==◌, is_some, any, find, update}
use fit.Common.Text.{Text}
use fit.Store.Payments.{WebhookEvent}
use fit.Runtime.{Visit, duplicate_key, transaction}
use fit.Runtime.Transaction.{query, write, raise_if, ◌>>=◌, ◌>>◌}
use fit.Payments.Rows.{on_accounts, update_or_throw}

abbrev pub has_event_id : ℕ → WebhookEvent → Bool
has_event_id id e = e.provider_event_id == id

abbrev pub was_processed : WebhookEvent → Bool
was_processed e = is_some e.processed_at

unfoldable pub find_event : ℕ → Visit (Option WebhookEvent)
find_event id = query λ t s. find (has_event_id id) s.accounts.webhook_events

unfoldable pub create_event :
    (provider_event_id : ℕ)
    → (event_type : Text) → (signature_valid : Bool) → (payment_id : Option ℕ) → Visit (Unit {0})
create_event id event_type signature_valid payment_id = transaction do
  taken ← query λ t s. any (has_event_id id) s.accounts.webhook_events
  raise_if taken duplicate_key
  write λ t. on_accounts λ a. record a {
    webhook_events =
        record {
          id = t.uuid 0;
          payment_id = payment_id;
          provider_event_id = id;
          event_type = event_type;
          signature_valid = signature_valid;
          processed_at = none;
        }
        ∷ a.webhook_events;
  }

unfoldable pub mark_webhook_processed : (provider_event_id : ℕ) → Visit (Unit {0})
mark_webhook_processed id t s =
    update_or_throw (any (has_event_id id) s.accounts.webhook_events)
      (λ t. on_accounts λ a. record a {
        webhook_events =
            update (has_event_id id) (λ e. record e { processed_at = some t.later })
              a.webhook_events;
      })
      t s
