-- ===== src/Bookings/Refinement.antt =====
-- Every write of bookings.repository.ts is a step of the machine of Machine.antt.
pub mod Hold
pub mod Creation
use fit.Common.{
  ℕ, ◌≡◌, refl, inl, inr, Bool, true, false, not, ◌||◌, Option, none, some, List, arith, leb, ◌==◌,
  if◌then◌else◌, any, count_if, update, Bool-cases, Pointwise,
}
use fit.Common.Rows.{update-Pointwise, Pointwise-refl, All-intro}
use fit.Common.Text.{Text}
use fit.Store.{BookingStatus, pending, Terms, Booking, Store}
use fit.Runtime.{Turn, Visit, Result, ok, err, roll_back, transaction}
use fit.Bookings.Model.{PersistenceInput, is_pending, max_active_booking_requests_per_posting}
use fit.Bookings.Overlap.{blocked}
use fit.Bookings.Repository.{
  has_id, find_booking, is_active_for, update_pending_row, new_booking,
  create_if_within_active_request_limit, update_one, update_pending, approve_found, approve,
  decline_found, decline,
}
use fit.Bookings.Machine.{IsSound, Move, stays, edits, approves, declines, Step, moves, creates}

pub stays_refl : (b : Booking) → Move b b
stays_refl b = stays refl

pub Step-refl : (s : Store) → Step s s
Step-refl s = moves (Pointwise-refl Move stays_refl s.bookings) refl

-- A change of rows that moves each of them.
pub update-Move :
    (row : Booking → Bool) (change : Booking → Booking) (bs : List Booking)
    → ((b : Booking) → row b ≡ true → Move b (change b))
    → Pointwise Move bs (update row change bs)
update-Move row change bs h = update-Pointwise Move row change stays_refl bs (All-intro h bs)

is_pending-eq : (b : BookingStatus) → is_pending b ≡ true → b ≡ pending
is_pending-eq b h = ground arith

pub if-Step {ℓ} :
    {A : Type ℓ} {s : Store} (b : Bool) (x y : A × Store)
    → Step s x.1
    → Step s y.1
    → Step s (if b then x else y).1
if-Step true x y h k = h
if-Step false x y h k = k

pub transaction-Step {ℓ} :
    {A : Type ℓ} (f : Visit A) (t : Turn) (s : Store)
    → Step s (f t s).1
    → Step s (transaction f t s).1
unfolding transaction
transaction-Step {A} f t s h = go (f t s) h
  where
    go : (r : Result A × Store) → Step s r.1 → Step s (roll_back s r).1
    go (ok a, s') h = h
    go (err e, s') h = Step-refl s

update_one-Step :
    (id : ℕ) (row : Booking → Bool) (change : Booking → Booking) (s : Store)
    → ((b : Booking) → row b ≡ true → Move b (change b))
    → Step s (update_one id row change s).1
unfolding update_one
update_one-Step id row change s h = moves (update-Move row change s.bookings h) refl

-- With sound terms, what the repository's update of a pending request does to the tables is one step
-- of the machine, on every branch.
pub update_pending-Step :
    (id renter_id : ℕ) (terms : Terms) (t : Turn) (s : Store)
    → IsSound terms
    → Step s (update_pending id renter_id terms t s).1
unfolding update_pending
update_pending-Step id renter_id terms t s sound = go (find_booking id s)
  where
    go : (o : Option Booking) → Step s (update_pending_row id renter_id terms t s o).1
    go none = Step-refl s
    go (some existing) = if-Step (not (existing.renter_id == renter_id)) _ _ (Step-refl s) (
        if-Step (not (is_pending existing.status) || leb existing.hold_expires_at t.now) _ _
          (Step-refl s)
          (update_one-Step id _ _ s
            (λ b h. edits terms (ground (arith, is_pending-eq b.status)) sound refl)))

-- What the repository's approval does to the tables is one step of the machine, on every branch.
pub approve-Step :
    (id owner_id : ℕ) (note : Option Text) (hold_expires_at : ℕ) (t : Turn) (s : Store)
    → Step s (approve id owner_id note hold_expires_at t s).1
unfolding approve
approve-Step id owner_id note hold_expires_at t s = transaction-Step _ t s (go (find_booking id s))
  where
    go : (o : Option Booking) → Step s (approve_found id owner_id note hold_expires_at t s o).1
    go none = Step-refl s
    go (some existing) = if-Step (not (existing.owner_id == owner_id)) _ _ (Step-refl s) (
        if-Step (not (is_pending existing.status) || leb existing.hold_expires_at t.now) _ _
          (Step-refl s)
          (if-Step
            (blocked s existing.posting_id existing.start_at existing.end_at (some existing.id)) _ _
            (Step-refl s)
            (update_one-Step existing.id _ _ s (λ b h.
              approves note hold_expires_at t.later (ground (arith, is_pending-eq b.status))
                refl))))

-- What the repository's decline does to the tables is one step of the machine, on every branch.
pub decline-Step :
    (id owner_id : ℕ) (note : Option Text) (t : Turn) (s : Store)
    → Step s (decline id owner_id note t s).1
unfolding decline
decline-Step id owner_id note t s = go (find_booking id s)
  where
    go : (o : Option Booking) → Step s (decline_found id owner_id note t s o).1
    go none = Step-refl s
    go (some existing) = if-Step (not (existing.owner_id == owner_id)) _ _ (Step-refl s) (
        if-Step (not (is_pending existing.status)) _ _ (Step-refl s) (
          update_one-Step id _ _ s
            (λ b h. declines note t.later (ground (arith, is_pending-eq b.status)) refl)))

-- With sound terms and the limit of active requests, what the repository's create does to the tables
-- is one step of the machine: nothing where the limit is reached or the key is taken, else one more
-- request, which is new and within the limit.
pub create-Step :
    (input : PersistenceInput) (t : Turn) (s : Store)
    → IsSound input.terms
    → Step s
        (create_if_within_active_request_limit input max_active_booking_requests_per_posting t s).1
unfolding create_if_within_active_request_limit
create-Step input t s sound =
    elim (Bool-cases
      (leb 2 (count_if (is_active_for input.posting_id input.renter_id) s.bookings))) [
        | inl full ↦ rw full (Step-refl s)
        | inr below ↦ elim (Bool-cases (any (has_id (t.uuid 0)) s.bookings)) [
          | inl taken ↦ rw (below, taken) (Step-refl s)
          | inr fresh ↦
              rw (below, fresh)
                (creates (new_booking t input)
                  (record { waits = refl; sound = sound; unconverted = refl }) fresh (ground arith)
                  refl refl)
        ]
      ]
