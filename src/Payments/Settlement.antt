-- ===== src/Payments/Settlement.antt =====
-- What the provider reports, in payments.service.ts: the webhook, reconciliation, repair, and the
-- queues of the workers.
use fit.Common.{
  ◌&&◌, ◌==◌, ℕ, Bool, true, false, not, Option, none, some, List, [], ◌∷◌, if◌then◌else◌, length,
}
use fit.Common.Text.{Text}
use fit.Store.Payments.{FailureCategory, permanent, unknown, Payment, Attempt, Payout}
use fit.Runtime.{
  Error, bad_request, conflict, not_found, bad_signature, provider_payment_not_found,
  not_reconciled, reconciliation_needed, M, visit, pure, require, throw_if, catch, ◌>>=◌, ◌>>◌,
}
use fit.Payments.Model.{PaymentRecord, ProviderStatus, ProviderPaymentStatus}
use fit.Payments.Retry.{RetryReady, mark_attempt_for_retry}
use fit.Payments.Outcome.{mark_payment_failed}
use fit.Payments.Payouts.{list_due_payouts, mark_payout_released, mark_payout_failed}
use fit.Payments.Queues.{list_retry_candidates, list_repair_candidates}
use fit.Payments.Webhooks.{mark_webhook_processed}
use fit.Payments.Queries.{
  find_by_id, find_accessible_by_id, find_by_square_references, upsert_webhook_event,
}
use fit.Payments.Service.{
  PaymentProvider, EventStatus, WebhookDelivery, ask, enqueue_search_sync, posting_of,
  enqueue_payment_failed_analytics, mark_completed_payment_status, fail_attempt_with, open_session,
}

-- `markPaymentFailed`, and what follows it.
unfoldable pub settle_failed : ProviderPaymentStatus → FailureCategory → M (Option PaymentRecord)
settle_failed status category = do
  payment ← visit (mark_payment_failed status category)
  enqueue_payment_failed_analytics payment
  enqueue_search_sync (posting_of payment)
  pure payment

-- The text of a failure that the webhook reports is the type of the event and a fixed sentence.
abbrev pub reported : WebhookDelivery → ProviderStatus → Text → ProviderPaymentStatus
reported event status message = record {
  provider_payment_id = event.payment_id;
  provider_order_id = event.order_id;
  status = status;
  failure_code = some event.event_type;
  failure_message = some message;
}

abbrev completed_report : WebhookDelivery → ProviderPaymentStatus
completed_report event = record {
  provider_payment_id = event.payment_id;
  provider_order_id = event.order_id;
  status = ProviderStatus.completed;
  failure_code = none;
  failure_message = none;
}

unfoldable pub settle_event :
    (canceled_message failed_message : Text) → WebhookDelivery → EventStatus → M (Unit {0})
unfolding settle_failed
settle_event canceled_message failed_message event EventStatus.completed = do
  result ← mark_completed_payment_status (completed_report event) none
  enqueue_search_sync (posting_of result.payment)
settle_event canceled_message failed_message event EventStatus.failed =
    settle_failed (reported event ProviderStatus.failed failed_message) permanent >>= λ _. pure tt
settle_event canceled_message failed_message event EventStatus.canceled =
    settle_failed (reported event ProviderStatus.canceled canceled_message) unknown >>= λ _. pure tt
settle_event canceled_message failed_message event EventStatus.other = pure tt

-- `startsWith`
unfoldable pub starts_with : (prefix : Text) → Text → Bool
starts_with [] s = true
starts_with (c ∷ cs) [] = false
starts_with (c ∷ cs) (d ∷ ds) = c == d && starts_with cs ds

-- "payment."
abbrev payment_prefix : Text
payment_prefix = b'p' ∷ b'a' ∷ b'y' ∷ b'm' ∷ b'e' ∷ b'n' ∷ b't' ∷ b'.' ∷ []

abbrev pub id_of : Option PaymentRecord → Option ℕ
id_of none = none
id_of (some p) = some p.payment.id

unfoldable pub process_square_webhook :
    (canceled_message failed_message : Text) → WebhookDelivery → M (Unit {0})
unfolding settle_event starts_with
process_square_webhook canceled_message failed_message event = do
  payment ← visit (find_by_square_references event.payment_id event.order_id)
  already_processed ←
      upsert_webhook_event event.event_id event.event_type event.is_valid (id_of payment)
  throw_if (not event.is_valid) (bad_request bad_signature)
  if already_processed then pure tt else (do
    if starts_with payment_prefix event.event_type
        then settle_event canceled_message failed_message event event.status
        else pure tt
    visit (mark_webhook_processed event.event_id))

abbrev pub failed_category : ProviderStatus → Option FailureCategory
failed_category ProviderStatus.failed = some permanent
failed_category ProviderStatus.canceled = some unknown
failed_category ProviderStatus.pending = none
failed_category ProviderStatus.completed = none

abbrev pub is_completed : ProviderStatus → Bool
is_completed ProviderStatus.completed = true
is_completed _ = false

-- The end of `reconcilePayment`, unless the provider reports completion.
unfoldable pub reconcile_failed :
    PaymentRecord → ProviderPaymentStatus → Option FailureCategory → M PaymentRecord
unfolding settle_failed
reconcile_failed payment status none = pure payment
reconcile_failed payment status (some category) = do
  result ← visit (mark_payment_failed status category)
  failed ← require result (not_found not_reconciled)
  enqueue_payment_failed_analytics (some failed)
  enqueue_search_sync (some failed.posting_id)
  pure failed

unfoldable pub reconcile_completed : PaymentRecord → ProviderPaymentStatus → M PaymentRecord
reconcile_completed payment status = do
  result ← mark_completed_payment_status status (some payment.posting_id)
  settled ← require result.payment (not_found not_reconciled)
  enqueue_search_sync (some settled.posting_id)
  throw_if result.reconciliation_required (conflict reconciliation_needed)
  pure settled

module _ (provider : PaymentProvider) where
  unfoldable pub reconcile_payment : (payment_id user_id : ℕ) → M PaymentRecord
  unfolding reconcile_failed reconcile_completed
  reconcile_payment payment_id user_id = do
    payment ← find_accessible_by_id payment_id user_id
    found ← ask (provider.get_payment_status payment.square_payment_id payment.square_order_id)
    status ← require found (not_found provider_payment_not_found)
    if is_completed status.status
        then reconcile_completed payment status
        else reconcile_failed payment status (failed_category status.status)

  unfoldable pub repair_reported : PaymentRecord → Option ProviderPaymentStatus → M (Unit {0})
  unfolding settle_failed
  repair_reported payment none = pure tt
  repair_reported payment (some status) =
      if is_completed status.status
      then (do
        result ← mark_completed_payment_status status (some payment.posting_id)
        enqueue_search_sync (posting_of result.payment))
      else elim (failed_category status.status) [
        | none ↦ pure tt
        | some category ↦ settle_failed status category >>= λ _. pure tt
      ]

  unfoldable pub repair_found : Option PaymentRecord → M (Unit {0})
  unfolding repair_reported
  repair_found none = pure tt
  repair_found (some payment) = do
    status ← ask (provider.get_payment_status payment.square_payment_id payment.square_order_id)
    repair_reported payment status

  unfoldable pub repair_payment : (payment_id : ℕ) → M (Unit {0})
  unfolding repair_found
  repair_payment payment_id = do payment ← visit (find_by_id payment_id); repair_found payment

  unfoldable pub retry_ready : (attempt_id : ℕ) → Option RetryReady → M (Unit {0})
  retry_ready attempt_id none = pure tt
  retry_ready attempt_id (some ready) =
      catch
        (open_session provider ready.idempotency_key ready.amount ready.currency
          ready.booking_request_id ready.payment_id attempt_id)
        (fail_attempt_with provider ready.payment_id attempt_id)
      >>= λ _. pure tt

  unfoldable pub retry_each : List Attempt → M (Unit {0})
  unfolding retry_ready
  retry_each [] = pure tt
  retry_each (a ∷ rest) = do
    ready ← visit (mark_attempt_for_retry a.id)
    retry_ready a.id ready
    retry_each rest

  unfoldable pub process_retry_queue : (limit : ℕ) → M ℕ
  unfolding retry_each
  process_retry_queue limit = do
    candidates ← visit (list_retry_candidates limit)
    retry_each candidates
    pure (length candidates)

  unfoldable pub repair_each : List ℕ → M (Unit {0})
  unfolding repair_payment
  repair_each [] = pure tt
  repair_each (id ∷ rest) = do repair_payment id; repair_each rest

  -- `by_updated_at` is the order of the query, by a column that is left out.
  unfoldable pub process_repair_queue :
      (by_updated_at : List Payment → List Payment) → (limit : ℕ) → M ℕ
  unfolding repair_each
  process_repair_queue by_updated_at limit = do
    candidates ← visit (list_repair_candidates by_updated_at limit)
    repair_each candidates
    pure (length candidates)

-- `error.message`, a text for each error.
module _ (message_of : Error → Text) where
  unfoldable pub release_each : List Payout → M (Unit {0})
  release_each [] = pure tt
  release_each (p ∷ rest) = do
    catch (visit (mark_payout_released p.id)) (λ e. visit (mark_payout_failed p.id (message_of e)))
    release_each rest

  unfoldable pub process_due_payouts : (limit : ℕ) → M ℕ
  unfolding release_each
  process_due_payouts limit = do
    payouts ← visit (list_due_payouts limit)
    release_each payouts
    pure (length payouts)
