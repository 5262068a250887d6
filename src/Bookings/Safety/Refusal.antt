-- ===== src/Bookings/Safety/Refusal.antt =====
-- When `approve` and `decline` of bookings.service.ts refuse, whatever else goes on meanwhile.
use mathlib.Core.Path.{subst}
use fit.Common.{ℕ, ◌≡◌, refl, sym, Bool, true, false, some, arith, ◌==◌, any}
use fit.Store.{Booking, Store}
use fit.Runtime.{Reason, World}
use fit.Runtime.Logic.{
  Steady, safely, Safe, Holds, Any, visit-Safe, pure-Safe, throw_if-Safe, require-Safe, bind-Safe,
  weaken,
}
use fit.Cache.Locks.{IgnoresLocks, with_flow_locks-Safe}
use fit.Bookings.Model.{DecideBookingRequestInput, is_pending}
use fit.Bookings.Overlap.{blocked, rents, has_overlap, has_blocking_availability_overlap}
use fit.Bookings.Repository.{find_booking, find_by_id}
use fit.Bookings.Validation.{
  find_posting, require_posting, require_owner_booking_request, throw_if_expired, assert_can_decide,
  assert_no_blocking_availability_overlap, assert_no_renting_overlap,
  require_posting_actionable_for_owner,
}
use fit.Bookings.Decide.{approve_locked, approve_request, decline_locked, decline_request}

-- What may stand against a decision.
pub data Obstacle : Type 0 where
  decided foreign rented held : Obstacle

abbrev pub Stands : Obstacle → (owner_id : ℕ) → Booking → Store → Type 0
Stands decided owner_id b s = is_pending b.status ≡ false
Stands foreign owner_id b s = (b.owner_id == owner_id) ≡ false
Stands rented owner_id b s = any (rents b.posting_id b.start_at b.end_at) s.rentings ≡ true
Stands held owner_id b s = blocked s b.posting_id b.start_at b.end_at (some b.id) ≡ true

-- The request is found as this row, and the obstacle stands.
abbrev pub Obstructed : Obstacle → DecideBookingRequestInput → Booking → Store → Type 0
Obstructed k input b s =
    (find_booking input.booking_request_id s ≡ some b) × Stands k input.owner_id b s

never : (c : Bool) → c ≡ true → c ≡ false → ⊥
never c h e = ground arith

module _ (k : Obstacle) (input : DecideBookingRequestInput) (b : Booking) where
  abbrev P : Store → Type 0
  P = Obstructed k input b

  -- If the obstacle is `o`, then `X`.
  abbrev If : Obstacle → Type 0 → Type 0
  If o X = k ≡ o → X

  stands : (o : Obstacle) (s : Store) → P s → If o (Stands o input.owner_id b s)
  stands o s p e = subst (λ x. Stands x input.owner_id b s) e p.1

  P-IgnoresLocks : IgnoresLocks P
  unfolding find_booking blocked
  P-IgnoresLocks s ls (f, h) = (f, go k h)
    where
      go :
          (o : Obstacle)
          → Stands o input.owner_id b s
          → Stands o input.owner_id b (record s { locks = ls })
      go decided h = h
      go foreign h = h
      go rented h = h
      go held h = h

  require_owner-Safe :
      Safe P
        (require_owner_booking_request input.booking_request_id input.owner_id)
        (λ c. (c ≡ b) × If foreign ⊥ × If decided (is_pending c.status ≡ false))
  unfolding require_owner_booking_request find_by_id
  require_owner-Safe =
      bind-Safe
        {Q = λ o.
          (o ≡ some b)
          × If foreign ((b.owner_id == input.owner_id) ≡ false)
          × If decided (is_pending b.status ≡ false)}
        (visit-Safe _
          λ t s p. record { keeps = p; gives = (p.0, stands foreign s p, stands decided s p) })
        λ found (f, not_owned, over). bind-Safe (require-Safe found _) λ c e.
          let same : c ≡ b = ground arith in
          bind-Safe (throw_if-Safe _ _)
            λ _ owned. pure-Safe c (same, (λ x. ground (arith, not_owned x)), rw same over)

  assert_can_decide-Safe :
      (c : Booking) (r : Reason)
      → If decided (is_pending c.status ≡ false)
      → Safe P (assert_can_decide c r) (λ _. If decided ⊥)
  unfolding assert_can_decide throw_if_expired
  assert_can_decide-Safe c r over = bind-Safe (throw_if-Safe _ _) λ _ open_still.
      bind-Safe {Q = Any} (visit-Safe _ λ t s p. record { keeps = p; gives = tt })
        λ late _. weaken (throw_if-Safe late _) λ _ _ x. ground (arith, over x)

  decline_locked-Safe : (If foreign ⊥ → If decided ⊥ → ⊥) → Safe P (decline_locked input) (λ c. ⊥)
  unfolding decline_locked
  decline_locked-Safe end = bind-Safe require_owner-Safe λ c (same, own, over).
      bind-Safe (assert_can_decide-Safe c _ over) λ _ open_still. absurd (end own open_still)

  posting-Safe : (id : ℕ) → Safe P (require_posting_actionable_for_owner id) Any
  unfolding require_posting_actionable_for_owner require_posting find_posting
  posting-Safe id =
      bind-Safe {Q = Any}
        (bind-Safe {Q = Any} (visit-Safe _ λ t s p. record { keeps = p; gives = tt })
          λ found _. weaken (require-Safe found _) λ _ _. tt)
        λ p _. bind-Safe (throw_if-Safe _ _) λ _ _. pure-Safe p tt

  rented-Safe :
      Safe P (assert_no_renting_overlap b.posting_id b.start_at b.end_at) (λ _. If rented ⊥)
  unfolding assert_no_renting_overlap has_overlap
  rented-Safe =
      bind-Safe {Q = λ o. If rented (o ≡ true)}
        (visit-Safe _ λ t s p. record { keeps = p; gives = stands rented s p })
        λ o h. weaken (throw_if-Safe o _) λ _ e x. never o (h x) e

  held-Safe :
      Safe P
        (assert_no_blocking_availability_overlap b.posting_id b.start_at b.end_at (some b.id))
        (λ _. If held ⊥)
  unfolding assert_no_blocking_availability_overlap has_blocking_availability_overlap
  held-Safe =
      bind-Safe {Q = λ o. If held (o ≡ true)}
        (visit-Safe _ λ t s p. record { keeps = p; gives = stands held s p })
        λ o h. weaken (throw_if-Safe o _) λ _ e x. never o (h x) e

  approve_locked-Safe :
      (If foreign ⊥ → If decided ⊥ → If rented ⊥ → If held ⊥ → ⊥)
      → Safe P (approve_locked input) (λ c. ⊥)
  unfolding approve_locked
  approve_locked-Safe end = bind-Safe require_owner-Safe λ c (same, own, over).
      bind-Safe (assert_can_decide-Safe c _ over) λ _ open_still.
        bind-Safe (posting-Safe c.posting_id) λ p _.
          bind-Safe
            (subst
              (λ x.
                Safe P (assert_no_renting_overlap x.posting_id x.start_at x.end_at)
                  (λ _. If rented ⊥))
              (sym same) rented-Safe)
            λ _ unrented.
              bind-Safe
                (subst
                  (λ x.
                    Safe P
                      (assert_no_blocking_availability_overlap x.posting_id x.start_at x.end_at
                        (some x.id))
                      (λ _. If held ⊥))
                  (sym same) held-Safe)
                λ _ unheld. absurd (end own open_still unrented unheld)

one_obstacle :
    (k : Obstacle) → (k ≡ foreign → ⊥) → (k ≡ decided → ⊥) → (k ≡ rented → ⊥) → (k ≡ held → ⊥) → ⊥
one_obstacle decided a b c d = b refl
one_obstacle foreign a b c d = a refl
one_obstacle rented a b c d = c refl
one_obstacle held a b c d = d refl

approve_request-Safe :
    (k : Obstacle) (input : DecideBookingRequestInput) (b : Booking)
    → Safe (Obstructed k input b) (approve_request input) (λ c. ⊥)
unfolding approve_request
approve_request-Safe k input b = bind-Safe (require_owner-Safe k input b) λ c _.
    bind-Safe
      (with_flow_locks-Safe (P-IgnoresLocks k input b) _ _
        (approve_locked-Safe k input b (one_obstacle k)))
      λ d never_given. absurd never_given

-- If a request is found as one row all the time, and all the time it is not pending, or not of
-- the owner who approves, or a renting is on its dates, or a block that counts is on them, then
-- whatever else others do, `approve` throws, and at the end the request is found as that row,
-- with the obstacle there.
pub approve_request_refused :
    (k : Obstacle) (input : DecideBookingRequestInput) (b : Booking) (w : World)
    → Steady (Obstructed k input b) w
    → Obstructed k input b (approve_request input w).1.store
      × Holds (λ c. ⊥) (approve_request input w).0
approve_request_refused k input b w h = safely (approve_request-Safe k input b) w h

-- The obstacles of a decline: the dates do not matter.
pub data AgainstDecline : Obstacle → Type 0 where
  over : AgainstDecline decided
  other_owner : AgainstDecline foreign

decline_request-Safe :
    (k : Obstacle) (input : DecideBookingRequestInput) (b : Booking)
    → AgainstDecline k
    → Safe (Obstructed k input b) (decline_request input) (λ c. ⊥)
unfolding decline_request
decline_request-Safe k input b against = bind-Safe (require_owner-Safe k input b) λ c _.
    bind-Safe
      (with_flow_locks-Safe (P-IgnoresLocks k input b) _ _
        (decline_locked-Safe k input b (end k against)))
      λ d never_given. absurd never_given
  where
    end : (o : Obstacle) → AgainstDecline o → (o ≡ foreign → ⊥) → (o ≡ decided → ⊥) → ⊥
    end decided over f d = d refl
    end foreign other_owner f d = f refl
    end rented x f d = elim x [ ]
    end held x f d = elim x [ ]

-- If a request is found as one row all the time, and all the time it is not pending, or not of
-- the owner who declines, then whatever else others do, `decline` throws, and at the end the
-- request is found as that row.
pub decline_request_refused :
    (k : Obstacle) (input : DecideBookingRequestInput) (b : Booking) (w : World)
    → AgainstDecline k
    → Steady (Obstructed k input b) w
    → Obstructed k input b (decline_request input w).1.store
      × Holds (λ c. ⊥) (decline_request input w).0
decline_request_refused k input b w against h = safely (decline_request-Safe k input b against) w h
