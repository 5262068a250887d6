-- ===== src/Payments/Success.antt =====
-- A payment that has succeeded, on dates that are free: `markPaymentSucceeded` from beginning to end.
pub mod Rows
pub mod Logic
use fit.Common.{
  ◌≡◌, refl, sym, ◌∙◌, ap, Bool, true, false, not, ◌||◌, Option, none, some, ◌∷◌, arith, is_some,
  any, find, update, All, Bool-cases, inl, inr,
}
use fit.Common.Rows.{find-true, find-update}
use mathlib.Core.Path.{subst}
use fit.Store.{Booking, Store}
use fit.Store.Payments.{Payment, Attempt, Payout, charge_succeeded}
use fit.Runtime.{Error, Result, ok, err, Turn, Visit, transaction, roll_back}
use fit.Runtime.Transaction.{query, or_raise, write, when, give, ◌>>=◌}
use fit.Bookings.Overlap.{blocked}
use fit.Bookings.Repository.{has_id, find_booking}
use fit.Payments.Model.{ProviderPaymentStatus}
use fit.Payments.Rows.{
  has_payment_id, has_attempt_id, has_reference, reference_taken, update_payment, update_references,
  update_attempt, update_booking, create_ledger_entry, find_payment, find_payment_or_throw,
  find_by_references,
}
use fit.Payments.Attempts.{has_renting_of}
use fit.Payments.Outcome.{
  or_other, when_some, latest_attempt, succeed_attempt, paid_block, conflicts, paid_booking,
  pay_booking, pay_unconverted_booking, schedule_payout, Marked, succeeded_payment, succeed_found,
  mark_payment_succeeded, is_succeeded, attempt_succeeded,
}
use fit.Payments.Success.Rows.{any-find, reference_free, latest_attempt-any}
use fit.Payments.Success.Logic.{
  Returned, Runs, bind-Runs, known-Runs, weaker-Runs, query-Runs, At, create_ledger_entry-Runs,
  when-Runs, schedule_payout-Runs, find_payment_or_throw-Runs,
}

-- The payment, its row, and the request that it is for, whose dates are free.
pub record Payable (input : ProviderPaymentStatus) (p : Payment) (b : Booking) (s : Store)
    : Type 0 where
  pub reported : find_by_references input.provider_payment_id input.provider_order_id s ≡ some p
  pub row : find_payment p.id s ≡ some p
  pub alone :
      All
        (λ q.
          has_reference
              (or_other input.provider_payment_id p.square_payment_id)
              (or_other input.provider_order_id p.square_order_id)
              q
            ≡ true
          → q.id ≡ p.id)
        s.accounts.payments
  pub booking : find_booking p.booking_request_id s ≡ some b
  pub unconverted : b.converted_at ≡ none
  pub unrented : has_renting_of s b.id ≡ false
  pub unheld : b.hold_block_id ≡ none
  pub free : conflicts b s ≡ false

module _ (input : ProviderPaymentStatus) (p : Payment) (b : Booking) (t : Turn) (s0 : Store)
    (pay : Payable input p b s0) where
  abbrev Before : Store → Type 0
  Before = At s0 p.id p.booking_request_id s0.bookings s0.blocks

  abbrev After : Store → Type 0
  After =
      At s0 p.id p.booking_request_id
        (update (has_id b.id) (paid_booking (some (t.uuid 0)) t) s0.bookings)
        (paid_block t b ∷ s0.blocks)

  same_id : b.id ≡ p.booking_request_id
  unfolding find_booking
  same_id = ground (arith, find-true (has_id p.booking_request_id) s0.bookings b pay.booking)

  pay_booking-Runs :
      Runs t Before (pay_unconverted_booking b false) (λ required s. (required ≡ false) × After s)
  unfolding pay_unconverted_booking pay_booking update_booking find_payment find_booking query write
      give blocked ◌>>=◌
  pay_booking-Runs = record {
    at = λ s h.
        let free : conflicts b s ≡ false = rw (h.bookings, h.blocks, h.rentings) pay.free in
        let there : any (has_id b.id) s.bookings ≡ true =
          rw (h.bookings, same_id)
            (any-find (has_id p.booking_request_id) s0.bookings b pay.booking) in
        rw (pay.unheld, free, there)
          (
            refl,
            record {
              bookings = ap (update (has_id b.id) (paid_booking (some (t.uuid 0)) t)) h.bookings;
              blocks = ap (λ ks. paid_block t b ∷ ks) h.blocks;
              rentings = h.rentings;
              payment = h.payment;
            },
          );
  }

  abbrev Began : Option Attempt → Store → Type 0
  Began latest s = (latest ≡ latest_attempt p.id s) × (s ≡ s0)

  abbrev Marking : Option Attempt → Store → Type 0
  Marking latest s =
      (latest ≡ latest_attempt p.id s0) × (s.accounts.attempts ≡ s0.accounts.attempts) × Before s

  update_references-Runs :
      (latest : Option Attempt)
      → Runs t
          (Began latest)
          (update_references p.id (succeeded_payment input))
          (λ u. Marking latest)
  unfolding update_references update_payment find_payment
  update_references-Runs latest = record {
    at = λ s (e, same).
        let there : any (has_payment_id p.id) s.accounts.payments ≡ true =
          rw same (any-find (has_payment_id p.id) s0.accounts.payments p pay.row) in
        let unshared : reference_taken p.id (succeeded_payment input t)
              (find (has_payment_id p.id) s.accounts.payments) s.accounts.payments
            ≡ false =
          rw (same, pay.row)
            (reference_free p.id (succeeded_payment input t) p s0.accounts.payments pay.alone) in
        rw (unshared, there)
          (
            subst (λ z. latest ≡ latest_attempt p.id z) same e,
            ap (λ z. z.accounts.attempts) same,
            record {
              bookings = ap (λ z. z.bookings) same;
              blocks = ap (λ z. z.blocks) same;
              rentings = ap (λ z. z.rentings) same;
              payment = (
                succeeded_payment input t p,
                rw same (
                    find-update (has_payment_id p.id) (succeeded_payment input t) (λ x hit. hit)
                      s0.accounts.payments p pay.row),
                refl,
              );
            },
          );
  }

  succeed_attempt-Runs :
      (latest : Option Attempt)
      → Runs t (Marking latest) (when_some latest (succeed_attempt input p)) (λ u. Before)
  unfolding when_some succeed_attempt update_attempt when give find_payment
  succeed_attempt-Runs none = record { at = λ s (e, same, h). h }
  succeed_attempt-Runs (some a) = record {
    at = λ s (e, same, h).
        let there : any (has_attempt_id a.id) s.accounts.attempts ≡ true =
          rw same (latest_attempt-any p.id s0 a (sym e)) in
        elim (Bool-cases (attempt_succeeded a.status)) [
          | inl over ↦ rw over h
          | inr open_still ↦
              rw (open_still, there)
                (record {
                  bookings = h.bookings;
                  blocks = h.blocks;
                  rentings = h.rentings;
                  payment = h.payment;
                })
        ];
  }

  or_raise-Runs :
      (found : Option Booking) (e : Error)
      → Runs t
          (λ s. (found ≡ find_booking p.booking_request_id s) × Before s)
          (or_raise found e)
          (λ c s. (c ≡ b) × Before s)
  unfolding or_raise find_booking
  or_raise-Runs found e = record {
    at = λ s (same, h).
        let there : found ≡ some b = same ∙ rw h.bookings pay.booking in rw there (refl, h);
  }

  abbrev Settled : Marked → Store → Type 0
  Settled m s = (is_some m.payment ≡ true) × (m.reconciliation_required ≡ false) × After s

  paid_row :
      find
        (has_id p.booking_request_id)
        (update (has_id b.id) (paid_booking (some (t.uuid 0)) t) s0.bookings)
      ≡ some (paid_booking (some (t.uuid 0)) t b)
  unfolding find_booking
  paid_row =
      subst
        (λ n.
          find (has_id p.booking_request_id)
            (update (has_id n) (paid_booking (some (t.uuid 0)) t) s0.bookings)
          ≡ some (paid_booking (some (t.uuid 0)) t b))
        (sym same_id)
        (find-update (has_id p.booking_request_id) (paid_booking (some (t.uuid 0)) t) (λ x hit. hit)
          s0.bookings b pay.booking)

  converted-Runs :
      (s : Store) (converted : Bool)
      → (converted ≡ (has_renting_of s b.id || is_some b.converted_at)) × Before s
      → (converted ≡ false) × Before s
  converted-Runs s converted (e, h) = (e ∙ rw (h.rentings, pay.unrented, pay.unconverted) refl, h)

  -- `markPaymentSucceeded` from the query of the renting on, for the request `c`.
  abbrev paying : Option Payout → Booking → (converted : Bool) → Visit Marked
  paying payout c converted = pay_unconverted_booking c converted >>= λ required.
      when (not (is_succeeded p.status))
        (create_ledger_entry 1 p.id charge_succeeded p.total_amount p.pricing_currency)
      >>= λ u. schedule_payout p c payout >>= λ u. find_payment_or_throw p.id >>= λ refreshed.
          give (record { payment = some refreshed; reconciliation_required = required })

  abbrev settling : Option Payout → Booking → Visit Marked
  settling payout c =
      query (λ t s. has_renting_of s c.id || is_some c.converted_at) >>= λ converted.
      paying payout c converted

  paying-Runs :
      (payout : Option Payout) (converted : Bool)
      → converted ≡ false
      → Runs t Before (paying payout b converted) Settled
  unfolding give
  paying-Runs payout converted e = rw e (
      bind-Runs pay_booking-Runs λ required. known-Runs λ fine.
        bind-Runs (when-Runs _ (create_ledger_entry-Runs _ _ _ _ _)) λ u.
          bind-Runs (schedule_payout-Runs p b payout) λ u.
            bind-Runs (find_payment_or_throw-Runs _ paid_row)
              λ refreshed. record { at = λ s h. (refl, fine, h) })

  settling-Runs :
      (payout : Option Payout) (c : Booking) → c ≡ b → Runs t Before (settling payout c) Settled
  settling-Runs payout c same =
      subst (λ x. Runs t Before (settling payout x) Settled) (sym same)
        (bind-Runs (query-Runs _) λ converted.
          weaker-Runs (λ s h. converted-Runs s converted h)
            (known-Runs λ e. paying-Runs payout converted e))

  succeed_found-Runs : Runs t (λ s. s ≡ s0) (succeed_found input (some p)) Settled
  unfolding succeed_found
  succeed_found-Runs = bind-Runs (query-Runs _) λ payout.
      weaker-Runs (λ s h. h.1)
        (bind-Runs (query-Runs _) λ latest.
          weaker-Runs (λ s h. h)
            (bind-Runs (update_references-Runs latest) λ u.
              bind-Runs (succeed_attempt-Runs latest) λ u. bind-Runs (query-Runs _) λ found.
                bind-Runs (or_raise-Runs found _)
                  λ booking. known-Runs λ same. settling-Runs payout booking same))

  returned : (r : Result Marked × Store) → Returned Settled r → Returned Settled (roll_back s0 r)
  returned (ok m, s) h = h
  returned (err e, s) h = absurd h

  mark_payment_succeeded-Runs : Returned Settled (mark_payment_succeeded input t s0)
  unfolding mark_payment_succeeded transaction query find_by_references ◌>>=◌
  mark_payment_succeeded-Runs =
      rw pay.reported (returned (succeed_found input (some p) t s0) (succeed_found-Runs.at s0 refl))

-- The call returns, the request is paid and refers to a block of its dates, and that block is new.
pub record PaidOff (b : Booking) (t : Turn) (s : Store) (r : Result Marked × Store) : Type 0 where
  pub marked : Marked
  pub result : r.0 ≡ ok marked
  pub given : is_some marked.payment ≡ true
  pub reconciled : marked.reconciliation_required ≡ false
  pub bought : find_booking b.id r.1 ≡ some (paid_booking (some (t.uuid 0)) t b)
  pub blocks : r.1.blocks ≡ paid_block t b ∷ s.blocks

-- If a reported success refers to a payment whose request is neither converted nor rented, has
-- no block, and has its dates free, and no other payment has one of the ids of the provider
-- that this one has then, then, whatever the status of the request, the call returns a payment
-- with no reconciliation required, the request is found paid and refers to a block of its
-- dates, and that block is the only new one.
pub mark_payment_succeeded-IsPaidOff :
    (input : ProviderPaymentStatus) (p : Payment) (b : Booking) (t : Turn) (s : Store)
    → Payable input p b s
    → PaidOff b t s (mark_payment_succeeded input t s)
unfolding find_booking
mark_payment_succeeded-IsPaidOff input p b t s pay =
    go (mark_payment_succeeded input t s) (mark_payment_succeeded-Runs input p b t s pay)
  where
    go : (r : Result Marked × Store) → Returned (Settled input p b t s pay) r → PaidOff b t s r
    go (err e, s') h = absurd h
    go (ok m, s') (given, reconciled, after) = record {
      marked = m;
      result = refl;
      given = given;
      reconciled = reconciled;
      bought =
          subst (λ n. find (has_id n) s'.bookings ≡ some (paid_booking (some (t.uuid 0)) t b))
            (sym (same_id input p b t s pay)) (rw after.bookings (paid_row input p b t s pay));
      blocks = after.blocks;
    }
