-- ===== src/Bookings/Safety/Decide.antt =====
-- `approve` and `decline`: the invariant, and what is known of the row that they return.
use mathlib.Core.Path.{subst}
use fit.Common.{ℕ, ◌≡◌, refl, ◌∙◌, Option, none, some}
use fit.Store.{awaiting_payment, declined, Booking, Store}
use fit.Runtime.{World, Turn, Result, ok, err}
use fit.Runtime.Logic.{Steady, safely, Safe, Holds, pure-Safe, require-Safe, bind-Safe, weaken}
use fit.Cache.Locks.{with_flow_locks-Safe}
use fit.Bookings.Model.{DecideBookingRequestInput, add_hours, approved_booking_hold_hours}
use fit.Bookings.Repository.{find_booking, approve, decline}
use fit.Bookings.Decide.{approve_locked, approve_request, decline_locked, decline_request}
use fit.Bookings.Machine.Invariant.{Inv}
use fit.Bookings.Refinement.{approve-Step, decline-Step}
use fit.Bookings.Results.{approve-Approved, decline-Decided}
use fit.Bookings.Safety.{
  FoundBooking, find_booking-id, Inv-IgnoresLocks, send-Safe, publish_change-Safe, step-Safe,
  require_owner_booking_request-Safe, assert_can_decide-Safe,
  require_posting_actionable_for_owner-Safe, assert_no_blocking_availability_overlap-Safe,
  assert_no_renting_overlap-Safe,
}

-- The row that an approval returns.
pub record ApprovedRow (input : DecideBookingRequestInput) (c : Booking) : Type 0 where
  pub id : c.id ≡ input.booking_request_id
  pub owner : c.owner_id ≡ input.owner_id
  pub status : c.status ≡ awaiting_payment
  pub note : c.decision_note ≡ input.note
  pub unheld : c.hold_block_id ≡ none

abbrev FoundApproved : DecideBookingRequestInput → Option Booking → Type 0
FoundApproved input none = Unit
FoundApproved input (some b) = ApprovedRow input b

find_booking-is : (id : ℕ) (s : Store) (b : Booking) → find_booking id s ≡ some b → b.id ≡ id
find_booking-is id s b f = subst (FoundBooking id) f (find_booking-id id s)

approve-Holds :
    (input : DecideBookingRequestInput) (id : ℕ) (t : Turn) (s : Store)
    → Inv s
    → id ≡ input.booking_request_id
    → Holds
        (FoundApproved input)
        (approve id input.owner_id input.note (add_hours t.now approved_booking_hold_hours) t s).0
approve-Holds input id t s v same =
    go (approve id input.owner_id input.note (add_hours t.now approved_booking_hold_hours) t s).0
      refl
  where
    go :
        (r : Result (Option Booking))
        → (approve id input.owner_id input.note (add_hours t.now approved_booking_hold_hours) t s).0
          ≡ r
        → Holds (FoundApproved input) r
    go (err x) e = tt
    go (ok none) e = tt
    go (ok (some c)) e =
        let a = approve-Approved id input.owner_id input.note _ t s c v.unique e in
        record {
          id = rw a.after (find_booking-is id s a.before a.found ∙ same);
          owner = rw a.after a.owned;
          status = rw a.after refl;
          note = rw a.after refl;
          unheld = rw a.after refl;
        }

approve_locked-Safe :
    (input : DecideBookingRequestInput) → Safe Inv (approve_locked input) (ApprovedRow input)
unfolding approve_locked
approve_locked-Safe input = bind-Safe (require_owner_booking_request-Safe _ _) λ b known.
    bind-Safe (assert_can_decide-Safe b _) λ _ _.
      bind-Safe (require_posting_actionable_for_owner-Safe _) λ p _.
        bind-Safe (assert_no_renting_overlap-Safe _ _ _) λ _ _.
          bind-Safe (assert_no_blocking_availability_overlap-Safe _ _ _ _) λ _ _.
            bind-Safe
              (step-Safe _ (λ t s v. approve-Step b.id input.owner_id input.note _ t s)
                (λ t s v. approve-Holds input b.id t s v known.0))
              λ found h. weaken (require-Safe found _) λ c q. subst (FoundApproved input) q h

approve_request-Safe :
    (input : DecideBookingRequestInput) → Safe Inv (approve_request input) (ApprovedRow input)
unfolding approve_request
approve_request-Safe input = bind-Safe (require_owner_booking_request-Safe _ _) λ b _.
    bind-Safe (with_flow_locks-Safe Inv-IgnoresLocks _ _ (approve_locked-Safe input)) λ c h.
      bind-Safe (send-Safe _)
        λ _ _. bind-Safe (publish_change-Safe c.posting_id) λ _ _. pure-Safe c h

-- The row that a decline returns.
pub record DeclinedRow (input : DecideBookingRequestInput) (c : Booking) : Type 0 where
  pub id : c.id ≡ input.booking_request_id
  pub owner : c.owner_id ≡ input.owner_id
  pub status : c.status ≡ declined
  pub note : c.decision_note ≡ input.note

abbrev FoundDeclined : DecideBookingRequestInput → Option Booking → Type 0
FoundDeclined input none = Unit
FoundDeclined input (some b) = DeclinedRow input b

decline-Holds :
    (input : DecideBookingRequestInput) (id : ℕ) (t : Turn) (s : Store)
    → Inv s
    → id ≡ input.booking_request_id
    → Holds (FoundDeclined input) (decline id input.owner_id input.note t s).0
decline-Holds input id t s v same = go (decline id input.owner_id input.note t s).0 refl
  where
    go :
        (r : Result (Option Booking))
        → (decline id input.owner_id input.note t s).0 ≡ r
        → Holds (FoundDeclined input) r
    go (err x) e = tt
    go (ok none) e = tt
    go (ok (some c)) e =
        let d = decline-Decided id input.owner_id input.note t s c v.unique e in
        record {
          id = rw d.after (find_booking-is id s d.before d.found ∙ same);
          owner = rw d.after d.owned;
          status = rw d.after refl;
          note = rw d.after refl;
        }

decline_locked-Safe :
    (input : DecideBookingRequestInput) → Safe Inv (decline_locked input) (DeclinedRow input)
unfolding decline_locked
decline_locked-Safe input = bind-Safe (require_owner_booking_request-Safe _ _) λ b known.
    bind-Safe (assert_can_decide-Safe b _) λ _ _.
      bind-Safe
        (step-Safe _ (λ t s v. decline-Step b.id input.owner_id input.note t s)
          (λ t s v. decline-Holds input b.id t s v known.0))
        λ found h. weaken (require-Safe found _) λ c q. subst (FoundDeclined input) q h

decline_request-Safe :
    (input : DecideBookingRequestInput) → Safe Inv (decline_request input) (DeclinedRow input)
unfolding decline_request
decline_request-Safe input = bind-Safe (require_owner_booking_request-Safe _ _) λ b _.
    bind-Safe (with_flow_locks-Safe Inv-IgnoresLocks _ _ (decline_locked-Safe input)) λ c h.
      bind-Safe (send-Safe _)
        λ _ _. bind-Safe (publish_change-Safe c.posting_id) λ _ _. pure-Safe c h

-- If the store satisfies the invariant and other requests keep it, then the store at the end of
-- `approve` satisfies it, whether it returns or throws, and a row that it
-- returns is the request of the owner, approved, with the note of the decision and without a block.
pub approve_request-Inv :
    (input : DecideBookingRequestInput) (w : World)
    → Steady Inv w
    → Inv (approve_request input w).1.store × Holds (ApprovedRow input) (approve_request input w).0
approve_request-Inv input w h = safely (approve_request-Safe input) w h

-- If the store satisfies the invariant and other requests keep it, then the store at the end of
-- `decline` satisfies it, whether it returns or throws, and a row that it
-- returns is the request of the owner, declined, with the note of the decision.
pub decline_request-Inv :
    (input : DecideBookingRequestInput) (w : World)
    → Steady Inv w
    → Inv (decline_request input w).1.store × Holds (DeclinedRow input) (decline_request input w).0
decline_request-Inv input w h = safely (decline_request-Safe input) w h
