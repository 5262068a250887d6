-- ===== src/System.antt =====
-- Everything that writes rows of booking requests, rentings and payments, and what changes the status of
-- a posting or its blocks: each method of the repositories bookings.repository.ts, rentings.repository.ts
-- and payments.repository.ts, and those of postings.repository.ts on statuses and blocks, as a step that the
-- requests of the application, the worker and the webhooks take in any order. The creation and the
-- duplication of a posting, which insert blocks of a draft, are not among them; they touch no request.
pub mod Invariant
pub mod Aside
mod Tests
use fit.Common.{ℕ, Bool, Option, List, [], ◌∷◌}
use fit.Common.Text.{Text}
use fit.Store.{Terms, Store}
use fit.Store.Payments.{FailureCategory}
use fit.Runtime.{Turn}
use fit.Bookings.Model.{PersistenceInput, max_active_booking_requests_per_posting}
use fit.Bookings.Repository.{
  create_if_within_active_request_limit, update_pending, approve, decline,
}
use fit.Bookings.Expiry.{expire}
use fit.Bookings.Reservation.{Reservation, reserve_for_conversion, release_conversion_reservation}
use fit.Rentings.Repository.{convert_approved_booking_request}
use fit.Payments.Model.{
  ProviderPaymentSession, ProviderPaymentStatus, ProviderErrorInfo, CreateRefundInput,
  ProviderRefundResult,
}
use fit.Payments.Attempts.{
  create_payment_attempt_for_booking, attach_payment_session, record_attempt_failure,
}
use fit.Payments.Retry.{mark_attempt_for_retry}
use fit.Payments.Outcome.{
  mark_payment_succeeded, mark_payment_failed, mark_booking_reconciliation_required,
}
use fit.Payments.Refunds.{create_refund_record, complete_refund}
use fit.Payments.Payouts.{mark_payout_released, mark_payout_failed}
use fit.Payments.Webhooks.{create_event, mark_webhook_processed}
use fit.Postings.Dates.{BlockDates}
use fit.Postings.Repository.{publish, archive, pause, unpause}
use fit.Postings.Blocks.{
  create_owner_availability_block, update_owner_availability_block, delete_owner_availability_block,
}

-- A call of a method that writes.
pub data Write : Type 0 where
  creation : PersistenceInput → Write
  change : (id renter_id : ℕ) → Terms → Write
  approval : (id owner_id : ℕ) → Option Text → (hold_expires_at : ℕ) → Write
  refusal : (id owner_id : ℕ) → Option Text → Write
  expiry : (id : ℕ) → Write
  reservation : (id owner_id reservation_expires_at : ℕ) → Write
  return_of : (id owner_id : ℕ) → Reservation → Write
  conversion : (id owner_id : ℕ) → Write
  payment_attempt : (id renter_id idempotency_key : ℕ) → Write
  session : (payment_id attempt_id : ℕ) → ProviderPaymentSession → Write
  attempt_failure : (payment_id attempt_id : ℕ) → ProviderErrorInfo → Write
  retry : (attempt_id : ℕ) → Write
  success : ProviderPaymentStatus → Write
  failure : ProviderPaymentStatus → FailureCategory → Write
  reconciliation : (payment_id : ℕ) → Write
  refund_record : CreateRefundInput → (idempotency_key : ℕ) → Write
  refund_result : (refund_id : ℕ) → ProviderRefundResult → Write
  payout_release : (payout_id : ℕ) → Write
  payout_failure : (payout_id : ℕ) → Text → Write
  event :
      (provider_event_id : ℕ) → Text → (signature_valid : Bool) → (payment_id : Option ℕ) → Write
  event_done : (provider_event_id : ℕ) → Write
  publication archival suspension resumption : (id owner_id : ℕ) → Write
  block_creation : (posting_id : ℕ) → BlockDates → Write
  block_change : (posting_id block_id : ℕ) → BlockDates → Write
  block_removal : (posting_id block_id : ℕ) → Write

unfoldable pub perform : Write → Turn → Store → Store
perform (creation input) t s =
    (create_if_within_active_request_limit input max_active_booking_requests_per_posting t s).1
perform (change id renter_id terms) t s = (update_pending id renter_id terms t s).1
perform (approval id owner_id decision hold_expires_at) t s =
    (approve id owner_id decision hold_expires_at t s).1
perform (refusal id owner_id decision) t s = (decline id owner_id decision t s).1
perform (expiry id) t s = (expire id t s).1
perform (reservation id owner_id until) t s = (reserve_for_conversion id owner_id until t s).1
perform (return_of id owner_id r) t s = (release_conversion_reservation id owner_id r t s).1
perform (conversion id owner_id) t s = (convert_approved_booking_request id owner_id t s).1
perform (payment_attempt id renter_id key) t s =
    (create_payment_attempt_for_booking id renter_id key t s).1
perform (session payment_id attempt_id opened) t s =
    (attach_payment_session payment_id attempt_id opened t s).1
perform (attempt_failure payment_id attempt_id info) t s =
    (record_attempt_failure payment_id attempt_id info t s).1
perform (retry attempt_id) t s = (mark_attempt_for_retry attempt_id t s).1
perform (success input) t s = (mark_payment_succeeded input t s).1
perform (failure input category) t s = (mark_payment_failed input category t s).1
perform (reconciliation payment_id) t s = (mark_booking_reconciliation_required payment_id t s).1
perform (refund_record input key) t s = (create_refund_record input key t s).1
perform (refund_result refund_id result) t s = (complete_refund refund_id result t s).1
perform (payout_release payout_id) t s = (mark_payout_released payout_id t s).1
perform (payout_failure payout_id message) t s = (mark_payout_failed payout_id message t s).1
perform (event id event_type valid payment_id) t s =
    (create_event id event_type valid payment_id t s).1
perform (event_done id) t s = (mark_webhook_processed id t s).1
perform (publication id owner_id) t s = (publish id owner_id t s).1
perform (archival id owner_id) t s = (archive id owner_id t s).1
perform (suspension id owner_id) t s = (pause id owner_id t s).1
perform (resumption id owner_id) t s = (unpause id owner_id t s).1
perform (block_creation posting_id input) t s =
    (create_owner_availability_block posting_id input t s).1
perform (block_change posting_id block_id input) t s =
    (update_owner_availability_block posting_id block_id input t s).1
perform (block_removal posting_id block_id) t s =
    (delete_owner_availability_block posting_id block_id t s).1

-- The calls in their order, each with the clock and the random values that it meets.
unfoldable pub perform_all : List (Write × Turn) → Store → Store
perform_all [] s = s
perform_all ((w, t) ∷ ws) s = perform_all ws (perform w t s)
