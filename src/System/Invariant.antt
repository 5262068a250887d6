-- ===== src/System/Invariant.antt =====
-- What every sequence of writes keeps.
use fit.Common.{◌⊎◌, inl, inr, List, [], ◌∷◌, All}
use fit.Store.{Store}
use fit.Runtime.{Turn}
use fit.Bookings.Machine.{IsSound, Step}
use fit.Bookings.Machine.Invariant.{Core, Step-Core}
use fit.Bookings.Machine.History.{History, History-refl, History-trans, Step-History}
use fit.Bookings.Refinement.{update_pending-Step, approve-Step, decline-Step, create-Step}
use fit.Bookings.Refinement.Hold.{expire-Step, reserve-Step, release-Step}
use fit.Rentings.Refinement.{convert-Step}
use fit.Payments.Effects.{Touches}
use fit.Payments.Effects.Invariant.{Touches-Core, Touches-History}
use fit.Payments.Effects.Transactions.{
  create_payment_attempt_for_booking-Gentle, attach_payment_session-Gentle,
  record_attempt_failure-Gentle, mark_attempt_for_retry-Gentle, mark_payment_succeeded-Gentle,
  mark_payment_failed-Gentle, mark_booking_reconciliation_required-Gentle,
  create_refund_record-Gentle, complete_refund-Gentle, mark_payout_released-Gentle,
  mark_payout_failed-Gentle, create_event-Gentle, mark_webhook_processed-Gentle,
}
use fit.Postings.Repository.{publish, archive, pause, unpause}
use fit.System.Aside.{create-Touches, update-Touches, delete-Touches, change_posting-Touches}
use fit.System.{
  Write, creation, change, approval, refusal, expiry, reservation, return_of, conversion,
  payment_attempt, session, attempt_failure, retry, success, failure, reconciliation, refund_record,
  refund_result, payout_release, payout_failure, event, event_done, publication, archival,
  suspension, resumption, block_creation, block_change, block_removal, perform, perform_all,
}

-- What the services check before they call: the terms of a create and of an update are sound.
abbrev pub Permitted : Write → Type 0
Permitted (creation input) = IsSound input.terms
Permitted (change id renter_id terms) = IsSound terms
Permitted _ = Unit

-- A write is a step of the machine of booking requests, or one that touches neither rentings nor what a
-- transaction of payments leaves of a request.
perform-Effect :
    (w : Write) (t : Turn) (s : Store)
    → Permitted w
    → Core s
    → Step s (perform w t s) ⊎ Touches s (perform w t s)
unfolding perform publish archive pause unpause
perform-Effect (creation input) t s ok v = inl (create-Step input t s ok)
perform-Effect (change id renter_id terms) t s ok v =
    inl (update_pending-Step id renter_id terms t s ok)
perform-Effect (approval id owner_id decision hold_expires_at) t s ok v =
    inl (approve-Step id owner_id decision hold_expires_at t s)
perform-Effect (refusal id owner_id decision) t s ok v = inl (decline-Step id owner_id decision t s)
perform-Effect (expiry id) t s ok v = inl (expire-Step id t s)
perform-Effect (reservation id owner_id until) t s ok v = inl (reserve-Step id owner_id until t s)
perform-Effect (return_of id owner_id r) t s ok v = inl (release-Step id owner_id r t s)
perform-Effect (conversion id owner_id) t s ok v = inl (convert-Step id owner_id t s v)
perform-Effect (payment_attempt id renter_id key) t s ok v =
    inr ((create_payment_attempt_for_booking-Gentle id renter_id key).at t s)
perform-Effect (session payment_id attempt_id opened) t s ok v =
    inr ((attach_payment_session-Gentle payment_id attempt_id opened).at t s)
perform-Effect (attempt_failure payment_id attempt_id info) t s ok v =
    inr ((record_attempt_failure-Gentle payment_id attempt_id info).at t s)
perform-Effect (retry attempt_id) t s ok v = inr ((mark_attempt_for_retry-Gentle attempt_id).at t s)
perform-Effect (success input) t s ok v = inr ((mark_payment_succeeded-Gentle input).at t s)
perform-Effect (failure input category) t s ok v =
    inr ((mark_payment_failed-Gentle input category).at t s)
perform-Effect (reconciliation payment_id) t s ok v =
    inr ((mark_booking_reconciliation_required-Gentle payment_id).at t s)
perform-Effect (refund_record input key) t s ok v =
    inr ((create_refund_record-Gentle input key).at t s)
perform-Effect (refund_result refund_id result) t s ok v =
    inr ((complete_refund-Gentle refund_id result).at t s)
perform-Effect (payout_release payout_id) t s ok v =
    inr ((mark_payout_released-Gentle payout_id).at t s)
perform-Effect (payout_failure payout_id message) t s ok v =
    inr ((mark_payout_failed-Gentle payout_id message).at t s)
perform-Effect (event id event_type valid payment_id) t s ok v =
    inr ((create_event-Gentle id event_type valid payment_id).at t s)
perform-Effect (event_done id) t s ok v = inr ((mark_webhook_processed-Gentle id).at t s)
perform-Effect (publication id owner_id) t s ok v = inr (change_posting-Touches id owner_id _ _ t s)
perform-Effect (archival id owner_id) t s ok v = inr (change_posting-Touches id owner_id _ _ t s)
perform-Effect (suspension id owner_id) t s ok v = inr (change_posting-Touches id owner_id _ _ t s)
perform-Effect (resumption id owner_id) t s ok v = inr (change_posting-Touches id owner_id _ _ t s)
perform-Effect (block_creation posting_id input) t s ok v =
    inr (create-Touches posting_id input t s)
perform-Effect (block_change posting_id block_id input) t s ok v =
    inr (update-Touches posting_id block_id input t s)
perform-Effect (block_removal posting_id block_id) t s ok v =
    inr (delete-Touches posting_id block_id t s)

perform-Core : (w : Write) (t : Turn) (s : Store) → Permitted w → Core s → Core (perform w t s)
perform-Core w t s ok v = elim (perform-Effect w t s ok v) [
  | inl step ↦ Step-Core s (perform w t s) step v
  | inr touches ↦ Touches-Core s (perform w t s) touches v
]

perform-History :
    (w : Write) (t : Turn) (s : Store) → Permitted w → Core s → History s (perform w t s)
perform-History w t s ok v = elim (perform-Effect w t s ok v) [
  | inl step ↦ Step-History s (perform w t s) step
  | inr touches ↦ Touches-History s (perform w t s) touches
]

-- From a store with the core of the invariant, every sequence of calls of the repository
-- methods by which the services and the workers write booking requests, rentings, payments, the
-- statuses of postings and the blocks of owners, in any order and with any clock, leads to a
-- store with it: keys are unique, terms are sound, rentings of one posting do not overlap, and
-- no two come from one request. The terms of each create and update are sound.
pub perform_all-Core :
    (ws : List (Write × Turn)) (s : Store)
    → All (λ w. Permitted w.0) ws
    → Core s
    → Core (perform_all ws s)
unfolding perform_all
perform_all-Core [] s ok v = v
perform_all-Core ((w, t) ∷ ws) s (ok, oks) v =
    perform_all-Core ws (perform w t s) oks (perform-Core w t s ok v)

-- After every sequence of calls of the repository methods by which the services and the workers
-- write booking requests, rentings, payments, the statuses of postings and the blocks of
-- owners, in any order and with any clock, from a store with the core of the invariant, and
-- with sound terms in each create and update: each booking request of the first store is found
-- under its id, with its posting and its parties. If it had left `pending`, it is not pending
-- and has its terms. If it was converted, it is converted at the same time. All rentings are
-- there still.
pub perform_all-History :
    (ws : List (Write × Turn)) (s : Store)
    → All (λ w. Permitted w.0) ws
    → Core s
    → History s (perform_all ws s)
unfolding perform_all
perform_all-History [] s ok v = History-refl s
perform_all-History ((w, t) ∷ ws) s (ok, oks) v =
    History-trans s (perform w t s) _ (perform-History w t s ok v)
      (perform_all-History ws (perform w t s) oks (perform-Core w t s ok v))
