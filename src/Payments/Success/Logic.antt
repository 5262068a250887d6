-- ===== src/Payments/Success/Logic.antt =====
-- A logic for transactions that do not fail: `Runs t P m Q` says that from each store with `P` the
-- visit `m` returns, with `Q`.
use fit.Common.{ℕ, ◌≡◌, refl, Bool, true, false, Option, none, some, List, find}
use fit.Store.{Booking, Block, Store}
use fit.Store.Payments.{Payment, Payout, LedgerEntryType}
use fit.Runtime.{Result, ok, err, Turn, Visit}
use fit.Runtime.Transaction.{query, or_raise, write, when, give, resume, ◌>>=◌}
use fit.Bookings.Repository.{has_id, find_booking}
use fit.Payments.Rows.{create_ledger_entry, find_payment, find_payment_or_throw}
use fit.Payments.Outcome.{schedule_payout}

abbrev pub Returned {ℓ} : {A : Type ℓ} → (A → Store → Type 0) → Result A × Store → Type 0
Returned Q (ok a, s) = Q a s
Returned Q (err e, s) = ⊥

-- From a store with `P` the visit returns, with `Q`.
pub record Runs {ℓ} {A : Type ℓ} (t : Turn) (P : Store → Type 0) (m : Visit A)
    (Q : A → Store → Type 0) : Type ℓ where
  pub at : (s : Store) → P s → Returned Q (m t s)

module _ {ℓ κ} {A : Type ℓ} {B : Type κ} {t : Turn} where
  resumed :
      {Q : A → Store → Type 0} {R : B → Store → Type 0} (r : Result A × Store) (f : A → Visit B)
      → ((a : A) → Runs t (Q a) (f a) R)
      → Returned Q r
      → Returned R (resume r.0 f t r.1)
  resumed (ok a, s) f h q = (h a).at s q
  resumed (err e, s) f h q = absurd q

  pub bind-Runs :
      {P : Store → Type 0} {Q : A → Store → Type 0} {R : B → Store → Type 0} {m : Visit A}
      {f : A → Visit B}
      → Runs t P m Q
      → ((a : A) → Runs t (Q a) (f a) R)
      → Runs t P (m >>= f) R
  unfolding ◌>>=◌
  bind-Runs {m} {f} hm hf = record { at = λ s p. resumed (m t s) f hf (hm.at s p) }

-- A fact that the store has no part in, and a weaker one of the store.
pub known-Runs {ℓ} :
    {A : Type ℓ} {F : Type 0} {t : Turn} {P : Store → Type 0} {m : Visit A} {Q : A → Store → Type 0}
    → (F → Runs t P m Q)
    → Runs t (λ s. F × P s) m Q
known-Runs h = record { at = λ s p. (h p.0).at s p.1 }

pub weaker-Runs {ℓ} :
    {A : Type ℓ} {t : Turn} {P P' : Store → Type 0} {m : Visit A} {Q : A → Store → Type 0}
    → ((s : Store) → P s → P' s)
    → Runs t P' m Q
    → Runs t P m Q
weaker-Runs f h = record { at = λ s p. h.at s (f s p) }

pub query-Runs :
    {A : Type 0} {t : Turn} {P : Store → Type 0} (f : Turn → Store → A)
    → Runs t P (query f) (λ a s. (a ≡ f t s) × P s)
unfolding query
query-Runs f = record { at = λ s p. (refl, p) }

-- What is so before and after the writes: the booking requests, the blocks, the rentings, and a payment
-- of the request.
pub record At (rs : Store) (payment_id booking_id : ℕ) (bs : List Booking) (ks : List Block)
    (s : Store) : Type 0 where
  pub bookings : s.bookings ≡ bs
  pub blocks : s.blocks ≡ ks
  pub rentings : s.rentings ≡ rs.rentings
  pub payment :
      (q : Payment) × (find_payment payment_id s ≡ some q) × (q.booking_request_id ≡ booking_id)

module _ {t : Turn} {rs : Store} {payment_id booking_id : ℕ} {bs : List Booking}
    {ks : List Block} where
  pub create_ledger_entry-Runs :
      (k id : ℕ) (kind : LedgerEntryType) (amount currency : ℕ)
      → Runs t
          (At rs payment_id booking_id bs ks)
          (create_ledger_entry k id kind amount currency)
          (λ u. At rs payment_id booking_id bs ks)
  unfolding create_ledger_entry find_payment
  create_ledger_entry-Runs k id kind amount currency = record {
    at = λ s h. record {
      bookings = h.bookings;
      blocks = h.blocks;
      rentings = h.rentings;
      payment = h.payment;
    };
  }

  pub when-Runs :
      (test : Bool) {m : Visit (Unit {0})}
      → Runs t (At rs payment_id booking_id bs ks) m (λ u. At rs payment_id booking_id bs ks)
      → Runs t
          (At rs payment_id booking_id bs ks)
          (when test m)
          (λ u. At rs payment_id booking_id bs ks)
  unfolding when
  when-Runs true h = record { at = h.at }
  when-Runs false h = record { at = λ s p. p }

  pub schedule_payout-Runs :
      (p : Payment) (b : Booking) (o : Option Payout)
      → Runs t
          (At rs payment_id booking_id bs ks)
          (schedule_payout p b o)
          (λ u. At rs payment_id booking_id bs ks)
  unfolding schedule_payout create_ledger_entry find_payment give write ◌>>=◌
  schedule_payout-Runs p b (some payout) = record { at = λ s h. h }
  schedule_payout-Runs p b none = record {
    at = λ s h. record {
      bookings = h.bookings;
      blocks = h.blocks;
      rentings = h.rentings;
      payment = h.payment;
    };
  }

  -- The payment and its request are found again.
  pub find_payment_or_throw-Runs :
      (c : Booking)
      → find (has_id booking_id) bs ≡ some c
      → Runs t
          (At rs payment_id booking_id bs ks)
          (find_payment_or_throw payment_id)
          (λ r. At rs payment_id booking_id bs ks)
  unfolding find_payment_or_throw find_booking query or_raise ◌>>=◌
  find_payment_or_throw-Runs c there = record {
    at = λ s h.
        let (q, found, same) = h.payment in
        let row : find (has_id q.booking_request_id) s.bookings ≡ some c =
          rw (same, h.bookings) there in
        rw (found, row) h;
  }
