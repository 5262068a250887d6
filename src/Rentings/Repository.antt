-- ===== src/Rentings/Repository.antt =====
-- backend/src/app/features/rentings/rentings.repository.ts: how a paid booking request becomes a
-- renting.
use fit.Common.{
  ℕ, Bool, not, ◌&&◌, ◌||◌, Option, none, some, ◌∷◌, leb, ◌==◌, if◌then◌else◌, is_some, any, find,
  update, remove,
}
use fit.Store.{Booking, Block, booking_note, renting, Renting, confirmed, Store}
use fit.Runtime.{
  Result, ok, err, Turn, Visit, bad_request, conflict, only_paid_converted, already_converted,
  not_reserved, no_longer_available, transaction,
}
use fit.Bookings.Model.{is_paid}
use fit.Bookings.Overlap.{refers_to, rents}
use fit.Bookings.Repository.{has_id, find_booking}
use fit.Bookings.Expiry.{reservation_over}

-- The relation `renting` of a booking request.
abbrev pub has_renting : Store → ℕ → Bool
has_renting s booking_request_id = any (λ r. r.booking_request_id == booking_request_id) s.rentings

abbrev pub renting_block : Turn → Booking → Block
renting_block t b = record {
  id = t.uuid 0;
  posting_id = b.posting_id;
  start_at = b.start_at;
  end_at = b.end_at;
  note = booking_note b.id;
  source = renting;
}

abbrev pub new_renting : Turn → Booking → Renting
new_renting t b = record {
  id = t.uuid 1;
  posting_id = b.posting_id;
  booking_request_id = b.id;
  renter_id = b.renter_id;
  owner_id = b.owner_id;
  status = confirmed;
  start_at = b.start_at;
  end_at = b.end_at;
  duration_days = b.duration_days;
  guest_count = b.guest_count;
  pricing_currency = b.pricing_currency;
  pricing_snapshot = b.pricing_snapshot;
  daily_price_amount = b.daily_price_amount;
  estimated_total = b.estimated_total;
  confirmed_at = t.now;
}

abbrev pub convert_row : (now : ℕ) → Booking → Booking
convert_row now b = record b {
  converted_at = some now;
  conversion_reserved_at = none;
  conversion_reservation_expires_at = none;
  hold_block_id = none;
}

-- The writes of the transaction; without a hold block no block is deleted.
abbrev pub converted : Turn → Booking → Store → Store
converted t b s = record s {
  bookings = update (has_id b.id) (convert_row t.now) s.bookings;
  blocks = renting_block t b ∷ remove (λ k. refers_to b.hold_block_id k.id) s.blocks;
  rentings = new_renting t b ∷ s.rentings;
}

-- The error P2002, which the method reports as a conflict: one of the keys is there already.
abbrev pub has_duplicate_key : Turn → Store → Booking → Bool
has_duplicate_key t s b =
    any (λ k. k.id == t.uuid 0) (remove (λ k. refers_to b.hold_block_id k.id) s.blocks)
    || any (λ r. r.id == t.uuid 1) s.rentings
    || has_renting s b.id

unfoldable pub convert_found :
    (owner_id : ℕ) → Turn → Store → Option Booking → Result (Option Renting) × Store
convert_found owner_id t s none = (ok none, s)
convert_found owner_id t s (some b) =
    if not (b.owner_id == owner_id)
    then (ok none, s)
    else if not (is_paid b.status)
    then (err (bad_request only_paid_converted), s)
    else if is_some b.converted_at || has_renting s b.id
    then (err (bad_request already_converted), s)
    else if reservation_over b.conversion_reservation_expires_at t.now
    then (err (bad_request not_reserved), s)
    else if any (rents b.posting_id b.start_at b.end_at) s.rentings
    then (err (bad_request no_longer_available), s)
    else if has_duplicate_key t s b
    then (err (conflict already_converted), s)
    else (ok (some (new_renting t b)), converted t b s)

-- convertApprovedBookingRequest
unfoldable pub convert_approved_booking_request : (id owner_id : ℕ) → Visit (Option Renting)
unfolding convert_found
convert_approved_booking_request id owner_id =
    transaction λ t s. convert_found owner_id t s (find_booking id s)

-- findById
unfoldable pub find_by_id : ℕ → Visit (Option Renting)
find_by_id id t s = (ok (find (λ r. r.id == id) s.rentings), s)

-- hasEligibleReviewRenting; `confirmed` is the only status.
unfoldable pub has_eligible_review_renting : (posting_id renter_id now : ℕ) → Visit Bool
has_eligible_review_renting posting_id renter_id now t s = (
  ok (
      any (λ r. r.posting_id == posting_id && r.renter_id == renter_id && leb r.end_at now)
        s.rentings),
  s,
)
