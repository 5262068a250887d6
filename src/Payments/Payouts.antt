-- ===== src/Payments/Payouts.antt =====
-- Payouts, of payments.repository.ts: `listDuePayouts`, `markPayoutReleased` and `markPayoutFailed`.
use fit.Common.{
  ℕ, Bool, true, false, not, ◌&&◌, none, some, List, [], ◌∷◌, leb, if◌then◌else◌, find, select,
  take,
}
use fit.Common.Text.{Text}
use fit.Store.Payments.{PayoutStatus, payout_released, Payout}
use fit.Runtime.{Turn, Visit, record_missing, transaction}
use fit.Runtime.Transaction.{give, query, or_raise, ◌>>=◌, ◌>>◌}
use fit.Payments.Rows.{has_payout_id, update_payout, create_ledger_entry, find_payment}

abbrev pub is_scheduled : PayoutStatus → Bool
is_scheduled PayoutStatus.scheduled = true
is_scheduled _ = false

abbrev pub is_due : (now : ℕ) → Payout → Bool
is_due now p = is_scheduled p.status && leb p.due_at now

insert_due : Payout → List Payout → List Payout
insert_due p [] = p ∷ []
insert_due p (q ∷ qs) = if leb p.due_at q.due_at then p ∷ q ∷ qs else q ∷ insert_due p qs

-- `orderBy: [{ dueAt: "asc" }]`; of payouts with one time the first of the table comes first.
unfoldable pub earliest_due : List Payout → List Payout
unfolding insert_due
earliest_due [] = []
earliest_due (p ∷ ps) = insert_due p (earliest_due ps)

unfoldable pub list_due_payouts : (limit : ℕ) → Visit (List Payout)
list_due_payouts limit =
    query λ t s. take limit (earliest_due (select (is_due t.now) s.accounts.payouts))

abbrev pub released_payout : Turn → Payout → Payout
released_payout t p = record p {
  status = PayoutStatus.released;
  released_at = some t.later;
  failed_at = none;
  failure_message = none;
}

unfoldable pub release_found : Payout → Visit (Unit {0})
release_found payout = if not (is_scheduled payout.status) then give tt else do
  update_payout payout.id released_payout
  row ← query λ t s. find_payment payout.payment_id s
  payment ← or_raise row record_missing
  create_ledger_entry 0 payment.id payout_released payout.amount payment.pricing_currency

unfoldable pub mark_payout_released : (payout_id : ℕ) → Visit (Unit {0})
unfolding release_found
mark_payout_released payout_id = transaction do
  found ← query λ t s. find (has_payout_id payout_id) s.accounts.payouts
  payout ← or_raise found record_missing
  release_found payout

unfoldable pub mark_payout_failed : (payout_id : ℕ) → Text → Visit (Unit {0})
mark_payout_failed payout_id message = update_payout payout_id λ t p. record p {
  status = PayoutStatus.failed;
  failed_at = some t.later;
  failure_message = some (take 2048 message);
}
