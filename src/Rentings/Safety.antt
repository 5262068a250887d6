-- ===== src/Rentings/Safety.antt =====
-- `convertApprovedBookingRequest` of the service: the invariant, and what is known of its renting.
use mathlib.Core.Path.{subst}
use fit.Common.{ℕ, ◌≡◌, refl, Option, none, some, arith}
use fit.Store.{confirmed, Renting, Store}
use fit.Runtime.{World, Turn, Result, ok, err}
use fit.Runtime.Logic.{
  Steady, safely, Safe, Holds, Any, Any-Holds, pure-Safe, throw_if-Safe, require-Safe, bind-Safe,
  on_error-Safe, weaken,
}
use fit.Cache.Locks.{with_flow_locks-Safe}
use fit.Bookings.Machine.Invariant.{Inv}
use fit.Bookings.Refinement.Hold.{reserve-Step, release-Step}
use fit.Bookings.Safety.{
  FoundBooking, find_booking-id, Inv-IgnoresLocks, send-Safe, publish_change-Safe, step-Safe,
  find_by_id-Safe, require_posting-Safe,
}
use fit.Rentings.Repository.{new_renting, convert_approved_booking_request}
use fit.Rentings.Refinement.{convert-Step}
use fit.Rentings.Exact.{Converts, rented, refused, convert-Converts}
use fit.Rentings.Service.{
  require_posting_actionable_for_conversion, convert_reserved, convert_locked, convert_request,
}

-- The renting that a conversion returns.
pub record RentingOf (id owner_id : ℕ) (r : Renting) : Type 0 where
  pub request : r.booking_request_id ≡ id
  pub owner : r.owner_id ≡ owner_id
  pub status : r.status ≡ confirmed

made :
    (id owner_id : ℕ) (t : Turn) (s : Store) (r : Renting) (x : Result (Option Renting) × Store)
    → Converts id owner_id t s x
    → x.0 ≡ ok (some r)
    → RentingOf id owner_id r
made id owner_id t s r x (rented b ready given added there) e =
    let same : new_renting t b ≡ r = ground (arith, given) in
    subst (RentingOf id owner_id) same (record {
      request = subst (FoundBooking id) ready.found (find_booking-id id s);
      owner = ready.owned;
      status = refl;
    })
made id owner_id t s r x (refused unfit none_given kept) e = absurd (none_given r e)

abbrev FoundConverted : (id owner_id : ℕ) → Option Renting → Type 0
FoundConverted id owner_id none = Unit
FoundConverted id owner_id (some r) = RentingOf id owner_id r

convert-Holds :
    (id owner_id : ℕ) (t : Turn) (s : Store)
    → Inv s
    → Holds (FoundConverted id owner_id) (convert_approved_booking_request id owner_id t s).0
convert-Holds id owner_id t s v = go (convert_approved_booking_request id owner_id t s).0 refl
  where
    go :
        (r : Result (Option Renting))
        → (convert_approved_booking_request id owner_id t s).0 ≡ r
        → Holds (FoundConverted id owner_id) r
    go (err x) e = tt
    go (ok none) e = tt
    go (ok (some r)) e = made id owner_id t s r _ (convert-Converts id owner_id t s v.core).0 e

convert_reserved-Safe :
    (id owner_id : ℕ) → Safe Inv (convert_reserved id owner_id) (RentingOf id owner_id)
unfolding convert_reserved
convert_reserved-Safe id owner_id =
    bind-Safe
      (step-Safe _ (λ t s v. convert-Step id owner_id t s v.core) (convert-Holds id owner_id))
      λ found h. weaken (require-Safe found _) λ r q. subst (FoundConverted id owner_id) q h

convert_locked-Safe :
    (id owner_id posting_id : ℕ)
    → Safe Inv (convert_locked id owner_id posting_id) (RentingOf id owner_id)
unfolding convert_locked
convert_locked-Safe id owner_id posting_id =
    bind-Safe {Q = Any}
      (step-Safe _ (λ t s v. reserve-Step id owner_id _ t s) (λ t s v. Any-Holds _))
      λ reservation _. bind-Safe (publish_change-Safe posting_id) λ _ _.
        on_error-Safe (convert_reserved-Safe id owner_id) (
          bind-Safe {Q = Any}
            (step-Safe _ (λ t s v. release-Step id owner_id reservation t s) (λ t s v. Any-Holds _))
            λ _ _. publish_change-Safe posting_id)

convert_request-Safe :
    (id owner_id : ℕ) → Safe Inv (convert_request id owner_id) (RentingOf id owner_id)
unfolding convert_request require_posting_actionable_for_conversion
convert_request-Safe id owner_id = bind-Safe (find_by_id-Safe id) λ found h.
    bind-Safe (require-Safe found _) λ b e. bind-Safe (throw_if-Safe _ _) λ _ _.
      bind-Safe
        (bind-Safe (require_posting-Safe b.posting_id)
          λ p _. weaken {R = Any} (throw_if-Safe _ _) λ _ _. tt)
        λ _ _.
          bind-Safe
            (with_flow_locks-Safe Inv-IgnoresLocks _ _
              (convert_locked-Safe id owner_id b.posting_id))
            λ r q.
              bind-Safe (send-Safe _)
                λ _ _. bind-Safe (publish_change-Safe r.posting_id) λ _ _. pure-Safe r q

-- If the store satisfies the invariant and other requests keep it, then the store at the end of
-- a conversion satisfies it, whether it returns or throws, and a renting that it returns is
-- confirmed, the owner's, and the one of the request.
pub convert_request-Inv :
    (id owner_id : ℕ) (w : World)
    → Steady Inv w
    → Inv (convert_request id owner_id w).1.store
      × Holds (RentingOf id owner_id) (convert_request id owner_id w).0
convert_request-Inv id owner_id w h = safely (convert_request-Safe id owner_id) w h
