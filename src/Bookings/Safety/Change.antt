-- ===== src/Bookings/Safety/Change.antt =====
-- `updateOwnPending`: the invariant, and what is known of the row that it returns.
use mathlib.Core.Path.{subst}
use fit.Common.{ℕ, ◌≡◌, ◌∙◌, refl, Option, none, some}
use fit.Store.{pending, Posting, Terms, Booking, Store}
use fit.Runtime.{World, Turn, Result, ok, err, lift}
use fit.Runtime.Logic.{
  Steady, safely, Safe, Holds, pure-Safe, throw-Safe, throw_if-Safe, require-Safe, bind-Safe,
  weaken,
}
use fit.Cache.Locks.{with_flow_locks-Safe}
use fit.Bookings.Model.{UpdateBookingRequestInput}
use fit.Bookings.Repository.{update_pending}
use fit.Bookings.Normalize.{NormalizedUpdate, normalize_create_input}
use fit.Bookings.Validation.{max_days_of}
use fit.Bookings.Change.{
  require_own_pending, updated_terms, update_own_pending_locked, update_own_pending,
}
use fit.Bookings.Passing.{InOrder}
use fit.Bookings.Agreement.{update-InOrder}
use fit.Bookings.Machine.{IsSound}
use fit.Bookings.Machine.Invariant.{Inv}
use fit.Bookings.Refinement.{update_pending-Step}
use fit.Bookings.Results.{update_pending-Updated}
use fit.Bookings.Safety.{
  Inv-IgnoresLocks, publish_change-Safe, step-Safe, FoundBooking, find_booking-id, find_by_id-Safe,
  throw_if_expired-Safe, require_posting_editable_for_renter-Safe,
  assert_no_blocking_availability_overlap-Safe, assert_no_renting_overlap-Safe,
}

require_own_pending-Safe :
    (id renter_id : ℕ) → Safe Inv (require_own_pending id renter_id) (λ b. b.id ≡ id)
unfolding require_own_pending
require_own_pending-Safe id renter_id = bind-Safe (find_by_id-Safe id) λ found h.
    bind-Safe (require-Safe found _) λ b e. bind-Safe (throw_if-Safe _ _) λ _ _.
      bind-Safe (throw_if-Safe _ _)
        λ _ _. bind-Safe (throw_if_expired-Safe b) λ _ _. pure-Safe b (subst (FoundBooking id) e h)

lift-Safe {ℓ} : {A : Type ℓ} (r : Result A) → Safe Inv (lift r) (λ a. r ≡ ok a)
unfolding lift
lift-Safe (ok a) = pure-Safe a refl
lift-Safe (err e) = throw-Safe e

updated_terms-IsSound :
    (p : Posting) (n : NormalizedUpdate)
    → InOrder (max_days_of p) n.normalized
    → IsSound (updated_terms p n)
updated_terms-IsSound p n h = record {
  range = h.range;
  duration = h.duration;
  whole_days = h.whole_days;
  guests = h.guests;
  short_note = h.short_note;
  daily = refl;
  total = refl;
}

-- What an updated row satisfies.
pub record Changed (input : UpdateBookingRequestInput) (b : Booking) : Type 0 where
  pub id : b.id ≡ input.booking_request_id
  pub renter : b.renter_id ≡ input.renter_id
  pub waits : b.status ≡ pending
  pub sound : IsSound b.terms

abbrev FoundChanged : UpdateBookingRequestInput → Option Booking → Type 0
FoundChanged input none = Unit
FoundChanged input (some b) = Changed input b

update_pending-Holds :
    (input : UpdateBookingRequestInput) (terms : Terms) (id : ℕ) (t : Turn) (s : Store)
    → Inv s
    → IsSound terms
    → id ≡ input.booking_request_id
    → Holds (FoundChanged input) (update_pending id input.renter_id terms t s).0
update_pending-Holds input terms id t s v sound same =
    go (update_pending id input.renter_id terms t s).0 refl
  where
    go :
        (r : Result (Option Booking))
        → (update_pending id input.renter_id terms t s).0 ≡ r
        → Holds (FoundChanged input) r
    go (err x) e = tt
    go (ok none) e = tt
    go (ok (some c)) e =
        let u = update_pending-Updated id input.renter_id terms t s c v.unique e in
        record {
          id = rw u.after (subst (FoundBooking id) u.found (find_booking-id id s) ∙ same);
          renter = rw u.after u.owned;
          waits = rw u.after u.waiting;
          sound = rw u.after sound;
        }

update_own_pending_locked-Safe :
    (input : UpdateBookingRequestInput) → Safe Inv (update_own_pending_locked input) (Changed input)
unfolding update_own_pending_locked
update_own_pending_locked-Safe input = bind-Safe (require_own_pending-Safe _ _) λ locked same.
    bind-Safe (require_posting_editable_for_renter-Safe locked.posting_id) λ p _.
      bind-Safe (lift-Safe (normalize_create_input input (max_days_of p))) λ n e.
        bind-Safe (assert_no_blocking_availability_overlap-Safe _ _ _ _) λ _ _.
          bind-Safe (assert_no_renting_overlap-Safe _ _ _) λ _ _.
            let sound = updated_terms-IsSound p n (update-InOrder input 0 (max_days_of p) n e) in
            bind-Safe
              (step-Safe _ (λ t s v. update_pending-Step locked.id input.renter_id _ t s sound)
                (λ t s v. update_pending-Holds input _ locked.id t s v sound same))
              λ found h. weaken (require-Safe found _) λ b q. subst (FoundChanged input) q h

update_own_pending-Safe :
    (input : UpdateBookingRequestInput) → Safe Inv (update_own_pending input) (Changed input)
unfolding update_own_pending
update_own_pending-Safe input = bind-Safe (require_own_pending-Safe _ _) λ existing _.
    bind-Safe (with_flow_locks-Safe Inv-IgnoresLocks _ _ (update_own_pending_locked-Safe input))
      λ b h. bind-Safe (publish_change-Safe b.posting_id) λ _ _. pure-Safe b h

-- If the store satisfies the invariant and other requests keep it, then the store at the end of
-- `updateOwnPending` satisfies it, whether it returns or throws, and a row that it returns is the one
-- asked for, pending, sound and the renter's.
pub update_own_pending-Inv :
    (input : UpdateBookingRequestInput) (w : World)
    → Steady Inv w
    → Inv (update_own_pending input w).1.store
      × Holds (Changed input) (update_own_pending input w).0
update_own_pending-Inv input w h = safely (update_own_pending-Safe input) w h
