-- ===== src/Payments/Effects/Kept.antt =====
-- Every transaction of payments.repository.ts, statement by statement.
use fit.Common.{
  arith, ◌∷◌, remove, ℕ, refl, Bool, true, false, Option, none, some, inl, inr, find, Bool-cases,
}
use fit.Store.{Booking, Block}
use fit.Store.Payments.{Accounts, LedgerEntryType, Payment, Attempt, Refund, Payout}
use fit.Runtime.{Turn, Visit}
use fit.Runtime.Transaction.{write}
use fit.Payments.Rows.{
  on_accounts, has_payment_id, reference_taken, update_payment, update_references, update_attempt,
  update_refund, update_payout, update_booking, create_ledger_entry, find_payment_or_throw,
}
use fit.Payments.Attempts.{processing_booking, failed_booking}
use fit.Payments.Outcome.{when_some, paid_booking, unreconciled_booking}
use fit.Payments.Refunds.{refund_booking}
use fit.Payments.Effects.{
  Touch, Gentle, give-Gentle, query-Gentle, or_raise-Gentle, transaction-Gentle, bind-Gentle,
  raise_if-Gentle, when-Gentle, write-Gentle, aside, accounts-Touches, booking-Touches,
}

pub update_payment-Gentle : (id : ℕ) (f : Turn → Payment → Payment) → Gentle (update_payment id f)
unfolding update_payment
update_payment-Gentle id f = record { at = λ t s. search accounts-Touches }

pub update_references-Gentle :
    (id : ℕ) (f : Turn → Payment → Payment) → Gentle (update_references id f)
unfolding update_references update_payment
update_references-Gentle id f = record {
  at = λ t s.
      elim (Bool-cases (
        reference_taken id (f t) (find (has_payment_id id) s.accounts.payments)
          s.accounts.payments)) [
            | inl taken ↦ rw taken (aside s s refl refl)
            | inr free ↦ rw free (search accounts-Touches)
          ];
}

pub update_attempt-Gentle : (id : ℕ) (f : Turn → Attempt → Attempt) → Gentle (update_attempt id f)
unfolding update_attempt
update_attempt-Gentle id f = record { at = λ t s. search accounts-Touches }

pub update_refund-Gentle : (id : ℕ) (f : Turn → Refund → Refund) → Gentle (update_refund id f)
unfolding update_refund
update_refund-Gentle id f = record { at = λ t s. search accounts-Touches }

pub update_payout-Gentle : (id : ℕ) (f : Turn → Payout → Payout) → Gentle (update_payout id f)
unfolding update_payout
update_payout-Gentle id f = record { at = λ t s. search accounts-Touches }

update_booking-Gentle :
    (id : ℕ) (f : Turn → Booking → Booking)
    → ((t : Turn) (b : Booking) → Touch b (f t b))
    → Gentle (update_booking id f)
unfolding update_booking
update_booking-Gentle id f h = record { at = λ t s. booking-Touches _ id f t s h }

pub create_ledger_entry-Gentle :
    (k id : ℕ) (e : LedgerEntryType) (amount currency : ℕ)
    → Gentle (create_ledger_entry k id e amount currency)
unfolding create_ledger_entry
create_ledger_entry-Gentle k id e amount currency = record {
  at = λ t s. aside s (create_ledger_entry k id e amount currency t s).1 refl refl;
}

pub find_payment_or_throw-Gentle : (id : ℕ) → Gentle (find_payment_or_throw id)
unfolding find_payment_or_throw
find_payment_or_throw-Gentle id = bind-Gentle (query-Gentle _) λ found. or_raise-Gentle found _

pub processing-Gentle : (id : ℕ) → Gentle (update_booking id processing_booking)
processing-Gentle id = update_booking-Gentle id processing_booking λ t b. record {
  id = refl;
  posting = refl;
  renter = refl;
  owner = refl;
  terms = refl;
  conversion = refl;
  waits = λ e. ground arith;
}

pub failed-Gentle : (id : ℕ) → Gentle (update_booking id failed_booking)
failed-Gentle id = update_booking-Gentle id failed_booking λ t b. record {
  id = refl;
  posting = refl;
  renter = refl;
  owner = refl;
  terms = refl;
  conversion = refl;
  waits = λ e. ground arith;
}

pub paid-Gentle :
    (id : ℕ) (block_id : Option ℕ) → Gentle (update_booking id (paid_booking block_id))
paid-Gentle id block_id = update_booking-Gentle id (paid_booking block_id) λ t b. record {
  id = refl;
  posting = refl;
  renter = refl;
  owner = refl;
  terms = refl;
  conversion = refl;
  waits = λ e. ground arith;
}

pub unreconciled-Gentle : (id : ℕ) → Gentle (update_booking id unreconciled_booking)
unreconciled-Gentle id = update_booking-Gentle id unreconciled_booking λ t b. record {
  id = refl;
  posting = refl;
  renter = refl;
  owner = refl;
  terms = refl;
  conversion = refl;
  waits = λ e. ground arith;
}

refund_booking-Touch : (whole : Bool) (t : Turn) (b : Booking) → Touch b (refund_booking whole t b)
refund_booking-Touch true t b = record {
  id = refl;
  posting = refl;
  renter = refl;
  owner = refl;
  terms = refl;
  conversion = refl;
  waits = λ e. ground arith;
}
refund_booking-Touch false t b = record {
  id = refl;
  posting = refl;
  renter = refl;
  owner = refl;
  terms = refl;
  conversion = refl;
  waits = λ e. ground arith;
}

pub refund-Gentle : (id : ℕ) (whole : Bool) → Gentle (update_booking id (refund_booking whole))
refund-Gentle id whole =
    update_booking-Gentle id (refund_booking whole) (refund_booking-Touch whole)

pub new_row-Gentle : (f : Turn → Accounts → Accounts) → Gentle (write λ t. on_accounts (f t))
new_row-Gentle f =
    write-Gentle (λ t. on_accounts (f t)) λ t s. aside s (on_accounts (f t) s) refl refl

-- A transaction adds a block, or deletes one.
pub block_added-Gentle :
    (f : Turn → Block) → Gentle (write λ t s. record s { blocks = f t ∷ s.blocks })
block_added-Gentle f =
    write-Gentle (λ t s. record s { blocks = f t ∷ s.blocks })
      λ t s. aside s (record s { blocks = f t ∷ s.blocks }) refl refl

pub block_deleted-Gentle :
    (gone : Block → Bool) → Gentle (write λ t s. record s { blocks = remove gone s.blocks })
block_deleted-Gentle gone =
    write-Gentle (λ t s. record s { blocks = remove gone s.blocks })
      λ t s. aside s (record s { blocks = remove gone s.blocks }) refl refl

pub when_some-Gentle {ℓ} :
    {A : Type ℓ} (o : Option A) (f : A → Visit (Unit {0}))
    → ((a : A) → Gentle (f a))
    → Gentle (when_some o f)
unfolding when_some
when_some-Gentle none f h = give-Gentle tt
when_some-Gentle (some a) f h = h a

pub ruleset gentle = (
  bind-Gentle, give-Gentle, query-Gentle, or_raise-Gentle, raise_if-Gentle, update_payment-Gentle,
  update_references-Gentle, update_attempt-Gentle, update_refund-Gentle, update_payout-Gentle,
  create_ledger_entry-Gentle, find_payment_or_throw-Gentle, transaction-Gentle, when-Gentle,
  processing-Gentle, failed-Gentle, paid-Gentle, unreconciled-Gentle, refund-Gentle, new_row-Gentle,
  block_added-Gentle, block_deleted-Gentle, when_some-Gentle,
)
