-- ===== src/Bookings/Machine.antt =====
-- The life of a booking request as a state machine: what one atomic step of the program may do to
-- the rows of booking requests and rentings. It says nothing of how the methods test and write.
pub mod Invariant
pub mod History
use fit.Common.{
  ℕ, ◌≤◌, ◌<◌, ◌≡◌, ◌≢◌, ◌⊎◌, true, false, Option, none, some, ◌∷◌, ◌*◌, any, count_if, All,
  Pointwise, length,
}
use fit.Common.Text.{Text}
use fit.Store.{
  pending, awaiting_payment, paid, declined, expired, whole, Terms, Booking, Renting, Store,
}
use fit.Bookings.Model.{
  max_booking_guest_count, max_booking_note_length, max_active_booking_requests_per_posting,
  can_expire,
}
use fit.Bookings.Repository.{has_id, is_active_for}
use fit.Bookings.Normalize.{duration_days_of}

abbrev pub IsShort : Option Text → Type 0
IsShort none = Unit
IsShort (some s) = length s ≤ max_booking_note_length

-- What the checks of a create and of an update promise of the columns that they write.
pub record IsSound (t : Terms) : Type 0 where
  pub range : t.start_at < t.end_at
  pub duration : t.duration_days ≡ duration_days_of t.start_at t.end_at
  pub whole_days : 1 ≤ t.duration_days
  pub guests : (n : ℕ) × (t.guest_count ≡ whole n) × (1 ≤ n) × (n ≤ max_booking_guest_count)
  pub short_note : IsShort t.note
  pub daily : t.daily_price_amount ≡ t.pricing_snapshot.daily
  pub total : t.estimated_total ≡ t.daily_price_amount * t.duration_days

-- What one step does to one row.
pub data Move (b c : Booking) : Type 0 where
  stays : c ≡ b → Move b c
  edits : (t : Terms) → b.status ≡ pending → IsSound t → c ≡ record b { terms = t } → Move b c
  approves :
      (note : Option Text) (hold_expires_at at : ℕ)
      → b.status ≡ pending
      → c ≡ record b {
        status = awaiting_payment;
        payment_required_at = some at;
        payment_failed_at = none;
        approved_at = some at;
        decision_note = note;
        hold_expires_at = hold_expires_at;
        hold_block_id = none;
      }
      → Move b c
  declines :
      (note : Option Text) (at : ℕ)
      → b.status ≡ pending
      → c ≡ record b { status = declined; declined_at = some at; decision_note = note }
      → Move b c
  expires :
      (at : ℕ)
      → can_expire b.status ≡ true
      → b.hold_expires_at ≤ at
      → c ≡ record b {
        status = expired;
        expired_at = some at;
        hold_block_id = none;
        conversion_reserved_at = none;
        conversion_reservation_expires_at = none;
      }
      → Move b c
  reserves :
      (reserved_at expires_at : ℕ)
      → b.status ≡ paid
      → b.converted_at ≡ none
      → c ≡ record b {
        conversion_reserved_at = some reserved_at;
        conversion_reservation_expires_at = some expires_at;
      }
      → Move b c
  releases :
      c ≡ record b { conversion_reserved_at = none; conversion_reservation_expires_at = none }
      → Move b c
  converts :
      (at : ℕ)
      → b.status ≡ paid
      → b.converted_at ≡ none
      → c ≡ record b {
        converted_at = some at;
        conversion_reserved_at = none;
        conversion_reservation_expires_at = none;
        hold_block_id = none;
      }
      → Move b c

pub record IsNew (b : Booking) : Type 0 where
  pub waits : b.status ≡ pending
  pub sound : IsSound b.terms
  pub unconverted : b.converted_at ≡ none

-- Two rentings that do not share a moment of one posting.
abbrev pub Apart : Renting → Renting → Type 0
Apart r e = (r.posting_id ≢ e.posting_id) ⊎ (e.end_at ≤ r.start_at) ⊎ (r.end_at ≤ e.start_at)

-- What one step does to the tables.
pub data Step (s s' : Store) : Type 0 where
  moves : Pointwise Move s.bookings s'.bookings → s'.rentings ≡ s.rentings → Step s s'
  creates :
      (b : Booking)
      → IsNew b
      → any (has_id b.id) s.bookings ≡ false
      → count_if (is_active_for b.posting_id b.renter_id) s.bookings
        < max_active_booking_requests_per_posting
      → s'.bookings ≡ b ∷ s.bookings
      → s'.rentings ≡ s.rentings
      → Step s s'
  rents :
      (r : Renting)
      → Pointwise Move s.bookings s'.bookings
      → All (Apart r) s.rentings
      → All (λ e. e.booking_request_id ≢ r.booking_request_id) s.rentings
      → s'.rentings ≡ r ∷ s.rentings
      → Step s s'
