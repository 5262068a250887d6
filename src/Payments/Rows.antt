-- ===== src/Payments/Rows.antt =====
-- Reading and writing rows of payments.repository.ts inside a transaction: `update` of one row, which
-- throws where there is none, `create`, and the `include` of a payment's relations.
use fit.Common.{
  ℕ, Bool, true, false, not, ◌&&◌, ◌||◌, Option, none, some, List, [], ◌∷◌, leb, ◌==◌,
  if◌then◌else◌, any, find, select, update,
}
use fit.Store.{Booking, Store}
use fit.Store.Payments.{Payment, Attempt, Refund, Payout, LedgerEntryType, Accounts}
use fit.Runtime.{ok, err, Turn, Visit, record_missing, duplicate_key}
use fit.Runtime.Transaction.{query, or_raise, ◌>>=◌}
use fit.Bookings.Overlap.{refers_to}
use fit.Bookings.Repository.{has_id, find_booking}
use fit.Payments.Model.{PaymentRecord}

abbrev pub has_payment_id : ℕ → Payment → Bool
has_payment_id id p = p.id == id

abbrev pub has_attempt_id : ℕ → Attempt → Bool
has_attempt_id id a = a.id == id

abbrev pub has_refund_id : ℕ → Refund → Bool
has_refund_id id r = r.id == id

abbrev pub has_payout_id : ℕ → Payout → Bool
has_payout_id id p = p.id == id

-- A write of the tables of payments, and of those tables alone.
abbrev pub on_accounts : (Accounts → Accounts) → Store → Store
on_accounts f s = record s { accounts = f s.accounts }

-- `update({ where: { id }, data })`
abbrev pub update_or_throw : Bool → (Turn → Store → Store) → Visit (Unit {0})
update_or_throw true f t s = (ok tt, f t s)
update_or_throw false f t s = (err record_missing, s)

-- `update` of a payment without `squarePaymentId` and `squareOrderId` in its data
unfoldable pub update_payment : ℕ → (Turn → Payment → Payment) → Visit (Unit {0})
update_payment id f t s =
    update_or_throw (any (has_payment_id id) s.accounts.payments)
      (λ t. on_accounts λ a. record a { payments = update (has_payment_id id) (f t) a.payments }) t
      s

-- `OR: [{ squarePaymentId }, { squareOrderId }]`, of the ids that are given.
abbrev pub has_reference : (provider_payment_id provider_order_id : Option ℕ) → Payment → Bool
has_reference payment_id order_id p =
    same_reference payment_id p.square_payment_id || same_reference order_id p.square_order_id
  where
    same_reference : Option ℕ → Option ℕ → Bool
    same_reference none o = false
    same_reference (some id) o = refers_to o id

-- `squarePaymentId` and `squareOrderId` are unique: another row has one of those that `p` has now.
abbrev pub reference_taken : (id : ℕ) → (Payment → Payment) → Option Payment → List Payment → Bool
reference_taken id f none payments = false
reference_taken id f (some p) payments =
    any
      (λ q.
        not (has_payment_id id q) && has_reference (f p).square_payment_id (f p).square_order_id q)
      payments

-- `update` with one of the two ids in its data
unfoldable pub update_references : ℕ → (Turn → Payment → Payment) → Visit (Unit {0})
unfolding update_payment
update_references id f t s =
    if reference_taken id (f t) (find (has_payment_id id) s.accounts.payments) s.accounts.payments
    then (err duplicate_key, s)
    else update_payment id f t s

unfoldable pub update_attempt : ℕ → (Turn → Attempt → Attempt) → Visit (Unit {0})
update_attempt id f t s =
    update_or_throw (any (has_attempt_id id) s.accounts.attempts)
      (λ t. on_accounts λ a. record a { attempts = update (has_attempt_id id) (f t) a.attempts }) t
      s

unfoldable pub update_refund : ℕ → (Turn → Refund → Refund) → Visit (Unit {0})
update_refund id f t s =
    update_or_throw (any (has_refund_id id) s.accounts.refunds)
      (λ t. on_accounts λ a. record a { refunds = update (has_refund_id id) (f t) a.refunds }) t s

unfoldable pub update_payout : ℕ → (Turn → Payout → Payout) → Visit (Unit {0})
update_payout id f t s =
    update_or_throw (any (has_payout_id id) s.accounts.payouts)
      (λ t. on_accounts λ a. record a { payouts = update (has_payout_id id) (f t) a.payouts }) t s

unfoldable pub update_booking : ℕ → (Turn → Booking → Booking) → Visit (Unit {0})
update_booking id f t s =
    update_or_throw (any (has_id id) s.bookings)
      (λ t s. record s { bookings = update (has_id id) (f t) s.bookings }) t s

-- `paymentLedgerEntry.create`; `k` counts the UUIDs of the transaction.
unfoldable pub create_ledger_entry :
    (k payment_id : ℕ) → LedgerEntryType → (amount currency : ℕ) → Visit (Unit {0})
create_ledger_entry k payment_id entry_type amount currency t s = (
  ok tt,
  on_accounts
      (λ a. record a {
        ledger =
            record {
              id = t.uuid k;
              payment_id = payment_id;
              entry_type = entry_type;
              amount = amount;
              currency = currency;
            }
            ∷ a.ledger;
      })
      s,
)

unfoldable pub find_payment : ℕ → Store → Option Payment
find_payment id s = find (has_payment_id id) s.accounts.payments

-- The relation `payment` of a booking request; `bookingRequestId` is unique.
unfoldable pub payment_of : (booking_request_id : ℕ) → Store → Option Payment
payment_of id s = find (λ p. p.booking_request_id == id) s.accounts.payments

module _ {A : Type 0} (created_at : A → ℕ) where
  unfoldable pub insert_by_newest : A → List A → List A
  insert_by_newest x [] = x ∷ []
  insert_by_newest x (y ∷ ys) =
      if leb (created_at y) (created_at x) then x ∷ y ∷ ys else y ∷ insert_by_newest x ys

  -- `orderBy: { createdAt: "desc" }`; of rows with one time the first of the table comes first.
  unfoldable pub by_newest : List A → List A
  unfolding insert_by_newest
  by_newest [] = []
  by_newest (x ∷ xs) = insert_by_newest x (by_newest xs)

unfoldable pub attempts_of : ℕ → Store → List Attempt
unfolding by_newest
attempts_of id s =
    by_newest (λ a. a.created_at) (select (λ a. a.payment_id == id) s.accounts.attempts)

unfoldable pub refunds_of : ℕ → Store → List Refund
unfolding by_newest
refunds_of id s =
    by_newest (λ r. r.created_at) (select (λ r. r.payment_id == id) s.accounts.refunds)

-- The relation `payout` of a payment; `paymentId` is unique.
unfoldable pub payout_of : ℕ → Store → Option Payout
payout_of id s = find (λ p. p.payment_id == id) s.accounts.payouts

abbrev pub with_booking : Store → Payment → Option Booking → Option PaymentRecord
with_booking s p none = none
with_booking s p (some b) = some (record {
  payment = p;
  booking = b;
  attempts = attempts_of p.id s;
  refunds = refunds_of p.id s;
  payout = payout_of p.id s;
})

abbrev pub with_relations : Store → Option Payment → Option PaymentRecord
with_relations s none = none
with_relations s (some p) = with_booking s p (find_booking p.booking_request_id s)

-- `findUniqueOrThrow` with the relations that `mapPayment` respells.
unfoldable pub find_payment_or_throw : ℕ → Visit PaymentRecord
unfolding find_payment
find_payment_or_throw id = do
  found ← query λ t s. with_relations s (find_payment id s)
  or_raise found record_missing

unfoldable pub find_by_references :
    (provider_payment_id provider_order_id : Option ℕ) → Store → Option Payment
find_by_references payment_id order_id s =
    find (has_reference payment_id order_id) s.accounts.payments
