-- ===== src/Payments/Ledger.antt =====
-- What the transactions of refunds enter in the ledger.
use fit.Common.{
  ℕ, ◌≡◌, refl, ◌∙◌, ap, Bool, true, false, Option, none, some, List, ◌∷◌, any, update,
}
use mathlib.Core.Path.{subst}
use fit.Store.{Booking, Store}
use fit.Store.Payments.{LedgerEntryType, refund_issued, LedgerEntry, Payment, Refund}
use fit.Runtime.{Error, Result, ok, err, Turn, Visit, transaction, roll_back}
use fit.Runtime.Transaction.{query, or_raise, write, when, resume, ◌>>=◌}
use fit.Payments.Model.{ProviderRefundResult, PaymentRecord}
use fit.Bookings.Repository.{has_id}
use fit.Payments.Rows.{
  has_payment_id, has_refund_id, on_accounts, update_or_throw, update_payment, update_refund,
  update_booking, create_ledger_entry, find_payment_or_throw,
}
use fit.Payments.Refunds.{complete_refund}

abbrev ledger_of : Store → List LedgerEntry
ledger_of s = s.accounts.ledger

-- No entry is made, also where the visit ends in an error.
record Silent {A : Type 0} (m : Visit A) : Type 0 where
  at : (t : Turn) (s : Store) → ledger_of (m t s).1 ≡ ledger_of s

-- One more entry, of the kind.
abbrev pub OneMore : LedgerEntryType → (before after : List LedgerEntry) → Type 0
OneMore kind before after = (e : LedgerEntry) × (after ≡ e ∷ before) × (e.entry_type ≡ kind)

abbrev EntersOn : {A : Type 0} → LedgerEntryType → Store → Result A × Store → Type 0
EntersOn kind s (ok a, s') = OneMore kind (ledger_of s) (ledger_of s')
EntersOn kind s (err e, s') = Unit

-- A visit that returns has made one entry of the kind.
record Enters {A : Type 0} (kind : LedgerEntryType) (m : Visit A) : Type 0 where
  at : (t : Turn) (s : Store) → EntersOn kind s (m t s)

module _ {A : Type 0} where
  query-Silent : (f : Turn → Store → A) → Silent (query f)
  unfolding query
  query-Silent f = record { at = λ t s. refl }

  or_raise-Silent : (o : Option A) (e : Error) → Silent (or_raise o e)
  unfolding or_raise
  or_raise-Silent none e = record { at = λ t s. refl }
  or_raise-Silent (some a) e = record { at = λ t s. refl }

  rolled_back :
      (kind : LedgerEntryType) (s : Store) (r : Result A × Store)
      → EntersOn kind s r
      → EntersOn kind s (roll_back s r)
  rolled_back kind s (ok a, s') h = h
  rolled_back kind s (err e, s') h = tt

  transaction-Enters :
      {kind : LedgerEntryType} {m : Visit A} → Enters kind m → Enters kind (transaction m)
  unfolding transaction
  transaction-Enters {kind} {m} h = record { at = λ t s. rolled_back kind s (m t s) (h.at t s) }

module _ {A B : Type 0} where
  resume-Silent :
      (r : Result A) (f : A → Visit B) (t : Turn) (s : Store)
      → ((a : A) → Silent (f a))
      → ledger_of (resume r f t s).1 ≡ ledger_of s
  resume-Silent (ok a) f t s h = (h a).at t s
  resume-Silent (err e) f t s h = refl

  bind-Silent :
      {m : Visit A} {f : A → Visit B} → Silent m → ((a : A) → Silent (f a)) → Silent (m >>= f)
  unfolding ◌>>=◌
  bind-Silent {m} {f} hm hf = record {
    at = λ t s. resume-Silent (m t s).0 f t (m t s).1 hf ∙ hm.at t s;
  }

  resume_after :
      (kind : LedgerEntryType) (s : Store) (r : Result A × Store) (f : A → Visit B) (t : Turn)
      → ((a : A) → Silent (f a))
      → EntersOn kind s r
      → EntersOn kind s (resume r.0 f t r.1)
  resume_after kind s (ok a, s') f t h (e, more, is) = go (f a t s') ((h a).at t s')
    where
      go : (r : Result B × Store) → ledger_of r.1 ≡ ledger_of s' → EntersOn kind s r
      go (ok b, s'') same = (e, same ∙ more, is)
      go (err x, s'') same = tt
  resume_after kind s (err x, s') f t h made = tt

  resume_before :
      (kind : LedgerEntryType) (s : Store) (r : Result A × Store) (f : A → Visit B) (t : Turn)
      → ((a : A) → Enters kind (f a))
      → ledger_of r.1 ≡ ledger_of s
      → EntersOn kind s (resume r.0 f t r.1)
  resume_before kind s (ok a, s') f t h same = go (f a t s') ((h a).at t s')
    where
      go : (r : Result B × Store) → EntersOn kind s' r → EntersOn kind s r
      go (ok b, s'') (e, more, is) = (e, more ∙ ap (λ es. e ∷ es) same, is)
      go (err x, s'') made = tt
  resume_before kind s (err x, s') f t h same = tt

  -- Silence before the entry, and after it.
  before-Enters :
      {kind : LedgerEntryType} {m : Visit A} {f : A → Visit B}
      → Silent m
      → ((a : A) → Enters kind (f a))
      → Enters kind (m >>= f)
  unfolding ◌>>=◌
  before-Enters {kind} {m} {f} hm hf = record {
    at = λ t s. resume_before kind s (m t s) f t hf (hm.at t s);
  }

  after-Enters :
      {kind : LedgerEntryType} {m : Visit A} {f : A → Visit B}
      → Enters kind m
      → ((a : A) → Silent (f a))
      → Enters kind (m >>= f)
  unfolding ◌>>=◌
  after-Enters {kind} {m} {f} hm hf = record {
    at = λ t s. resume_after kind s (m t s) f t hf (hm.at t s);
  }

update_silent :
    (test : Bool) (f : Turn → Store → Store) (t : Turn) (s : Store)
    → ledger_of (f t s) ≡ ledger_of s
    → ledger_of (update_or_throw test f t s).1 ≡ ledger_of s
update_silent true f t s h = h
update_silent false f t s h = refl

update_payment-Silent : (id : ℕ) (f : Turn → Payment → Payment) → Silent (update_payment id f)
unfolding update_payment
update_payment-Silent id f = record {
  at = λ t s.
      update_silent (any (has_payment_id id) s.accounts.payments)
        (λ t. on_accounts λ a. record a { payments = update (has_payment_id id) (f t) a.payments })
        t s refl;
}

update_refund-Silent : (id : ℕ) (f : Turn → Refund → Refund) → Silent (update_refund id f)
unfolding update_refund
update_refund-Silent id f = record {
  at = λ t s.
      update_silent (any (has_refund_id id) s.accounts.refunds)
        (λ t. on_accounts λ a. record a { refunds = update (has_refund_id id) (f t) a.refunds }) t s
        refl;
}

update_booking-Silent : (id : ℕ) (f : Turn → Booking → Booking) → Silent (update_booking id f)
unfolding update_booking
update_booking-Silent id f = record {
  at = λ t s.
      update_silent (any (has_id id) s.bookings)
        (λ t s. record s { bookings = update (has_id id) (f t) s.bookings }) t s refl;
}

find_payment_or_throw-Silent : (id : ℕ) → Silent (find_payment_or_throw id)
unfolding find_payment_or_throw
find_payment_or_throw-Silent id = bind-Silent (query-Silent _) λ found. or_raise-Silent found _

when-write-Silent :
    (test : Bool) (f : Turn → Store → Store)
    → ((t : Turn) (s : Store) → ledger_of (f t s) ≡ ledger_of s)
    → Silent (when test (write f))
unfolding when write
when-write-Silent true f h = record { at = h }
when-write-Silent false f h = record { at = λ t s. refl }

create_ledger_entry-Enters :
    (k id : ℕ) (kind : LedgerEntryType) (amount currency : ℕ)
    → Enters kind (create_ledger_entry k id kind amount currency)
unfolding create_ledger_entry
create_ledger_entry-Enters k id kind amount currency = record { at = λ t s. (_, refl, refl) }

complete_refund-Enters :
    (refund_id : ℕ) (result : ProviderRefundResult)
    → Enters refund_issued (complete_refund refund_id result)
unfolding complete_refund
complete_refund-Enters refund_id result = transaction-Enters (
    before-Enters (query-Silent _) λ found. before-Enters (or_raise-Silent found _) λ refund.
      before-Enters (update_refund-Silent _ _) λ u1.
        before-Enters (find_payment_or_throw-Silent _) λ row.
          before-Enters (query-Silent _) λ total. before-Enters (update_payment-Silent _ _) λ u2.
            before-Enters (update_booking-Silent _ _) λ u3.
              before-Enters (when-write-Silent _ _ (λ t s. refl)) λ u4.
                after-Enters (create_ledger_entry-Enters _ _ _ _ _)
                  λ u5. find_payment_or_throw-Silent _)

-- Each completion of a refund that returns, whatever status the provider reports, makes exactly
-- one new entry in the ledger, of the type `refund_issued`.
pub complete_refund-OneMore :
    (refund_id : ℕ) (result : ProviderRefundResult) (t : Turn) (s s' : Store) (r : PaymentRecord)
    → complete_refund refund_id result t s ≡ (ok r, s')
    → OneMore refund_issued s.accounts.ledger s'.accounts.ledger
complete_refund-OneMore refund_id result t s s' r done =
    subst (EntersOn refund_issued s) done ((complete_refund-Enters refund_id result).at t s)
