-- ===== src/Payments/Queues.antt =====
-- The queues of the payment workers: `listRetryCandidates` and `listRepairCandidates` of
-- payments.repository.ts.
use fit.Common.{
  ℕ, ◌+◌, ◌*◌, Bool, true, false, not, ◌&&◌, ◌||◌, Option, none, some, List, [], ◌∷◌, map, ltb, leb,
  ◌==◌, if◌then◌else◌, or_else, select, take,
}
use fit.Store.{Booking, Store}
use fit.Store.Payments.{PaymentStatus, Payment, Attempt}
use fit.Runtime.{Turn, Visit}
use fit.Runtime.Transaction.{query}
use fit.Bookings.Model.{is_paid}
use fit.Bookings.Repository.{find_booking}
use fit.Payments.Model.{max_retry_attempts, payment_processing_timeout_minutes}
use fit.Payments.Attempts.{has_renting_of}
use fit.Payments.Retry.{is_retryable}
use fit.Payments.Outcome.{is_succeeded}

abbrev pub is_over : Option ℕ → (now : ℕ) → Bool
is_over none now = false
is_over (some at) now = leb at now

abbrev pub is_retry_candidate : (now : ℕ) → Attempt → Bool
is_retry_candidate now a =
    is_retryable a.status && is_over a.next_retry_at now && ltb a.retry_count max_retry_attempts

abbrev pub is_earlier : Attempt → Attempt → Bool
is_earlier a b =
    let at : ℕ = or_else a.next_retry_at 0 in
    let bt : ℕ = or_else b.next_retry_at 0 in
    ltb at bt || (at == bt && leb a.created_at b.created_at)

insert_retry : Attempt → List Attempt → List Attempt
insert_retry a [] = a ∷ []
insert_retry a (b ∷ bs) = if is_earlier a b then a ∷ b ∷ bs else b ∷ insert_retry a bs

-- `orderBy: [{ nextRetryAt: "asc" }, { createdAt: "asc" }]`; every row here has a `nextRetryAt`.
unfoldable pub earliest_retry : List Attempt → List Attempt
unfolding insert_retry
earliest_retry [] = []
earliest_retry (a ∷ rest) = insert_retry a (earliest_retry rest)

unfoldable pub list_retry_candidates : (limit : ℕ) → Visit (List Attempt)
list_retry_candidates limit =
    query λ t s. take limit (earliest_retry (select (is_retry_candidate t.now) s.accounts.attempts))

abbrev pub booking_needs_repair : Store → Option Booking → Bool
booking_needs_repair s none = false
booking_needs_repair s (some b) =
    b.payment_reconciliation_required || (is_paid b.status && not (has_renting_of s b.id))

abbrev pub is_processing : PaymentStatus → Bool
is_processing PaymentStatus.processing = true
is_processing _ = false

-- `lastAttemptedAt: { lte: staleProcessingThreshold }`
abbrev pub is_stale : Option ℕ → (now : ℕ) → Bool
is_stale none now = false
is_stale (some at) now = leb (at + payment_processing_timeout_minutes * 60 * 1000) now

abbrev pub is_repair_candidate : Turn → Store → Payment → Bool
is_repair_candidate t s p =
    (is_succeeded p.status && booking_needs_repair s (find_booking p.booking_request_id s))
    || (is_processing p.status && is_stale p.last_attempted_at t.now)

-- The ids of the candidates. The order is by `updatedAt`, which is left out: any order of the rows.
module _ (by_updated_at : List Payment → List Payment) where
  unfoldable pub list_repair_candidates : (limit : ℕ) → Visit (List ℕ)
  list_repair_candidates limit = query λ t s.
      map (λ p. p.id)
        (take limit (by_updated_at (select (is_repair_candidate t s) s.accounts.payments)))
