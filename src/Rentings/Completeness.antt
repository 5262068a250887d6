-- ===== src/Rentings/Completeness.antt =====
-- When a paid booking request becomes a renting: a reservation followed by a conversion.
use fit.Common.{
  ℕ, ◌<◌, ◌≡◌, refl, ap, true, false, ◌||◌, none, some, arith, leb, ◌==◌, is_some, any,
}
use fit.Store.{paid, Booking, Store}
use fit.Runtime.{Turn, ok, transaction}
use fit.Bookings.Model.{is_paid}
use fit.Bookings.Overlap.{rents}
use fit.Bookings.Repository.{has_id, find_booking}
use fit.Bookings.Expiry.{reservation_over}
use fit.Bookings.Reservation.{Reservation, is_reservable, reserve_row, reserve_for_conversion}
use fit.Bookings.Machine.Invariant.{UniqueIds}
use fit.Bookings.Completeness.{one_row, found_id}
use fit.Rentings.Repository.{
  has_renting, new_renting, has_duplicate_key, convert_found, convert_approved_booking_request,
}

-- A paid request that may be reserved, and whose dates no renting takes.
pub record IsConvertible (id owner_id : ℕ) (t : Turn) (s : Store) (b : Booking) : Type 0 where
  pub unique : UniqueIds s.bookings
  pub found : find_booking id s ≡ some b
  pub owned : b.owner_id ≡ owner_id
  pub was_paid : b.status ≡ paid
  pub unconverted : b.converted_at ≡ none
  pub unreserved : reservation_over b.conversion_reservation_expires_at t.now ≡ true
  pub first : has_renting s b.id ≡ false
  pub free : any (rents b.posting_id b.start_at b.end_at) s.rentings ≡ false

is_reservable_row :
    (id owner_id : ℕ) (t : Turn) (s : Store) (b : Booking)
    → IsConvertible id owner_id t s b
    → is_reservable id owner_id t.now b ≡ true
is_reservable_row id owner_id t s b c =
    let mine : has_id id b ≡ true = ground (arith, found_id id s b c.found) in
    let own : (b.owner_id == owner_id) ≡ true = ground (arith, c.owned) in
    rw (mine, own, c.was_paid, c.unconverted, c.unreserved) refl

-- The row that a reservation leaves is converted while the reservation lasts.
convert_reserved_row :
    (id owner_id : ℕ) (t : Turn) (s : Store) (b : Booking)
    → find_booking id s ≡ some b
    → b.owner_id ≡ owner_id
    → is_paid b.status ≡ true
    → b.converted_at ≡ none
    → has_renting s b.id ≡ false
    → reservation_over b.conversion_reservation_expires_at t.now ≡ false
    → any (rents b.posting_id b.start_at b.end_at) s.rentings ≡ false
    → has_duplicate_key t s b ≡ false
    → (convert_approved_booking_request id owner_id t s).0 ≡ ok (some (new_renting t b))
unfolding convert_approved_booking_request convert_found transaction
convert_reserved_row id owner_id t s b f owned p none_converted first reserved free fresh =
    let own : (b.owner_id == owner_id) ≡ true = ground arith in
    let again : (is_some b.converted_at || has_renting s b.id) ≡ false =
      rw (none_converted, first) refl in
    rw (f, own, p, again, reserved, free, fresh) refl

-- If a request is convertible, and its reservation until `expires_at` is followed, before that time, by
-- a conversion with fresh keys, then the conversion returns the renting of the request.
pub convert-reserve :
    (id owner_id expires_at : ℕ) (t t' : Turn) (s : Store) (b : Booking)
    → IsConvertible id owner_id t s b
    → t'.now < expires_at
    → has_duplicate_key t' s b ≡ false
    → (convert_approved_booking_request id owner_id t'
        (reserve_for_conversion id owner_id expires_at t s).1).0
      ≡ ok (some (new_renting t' b))
unfolding reserve_for_conversion find_booking
convert-reserve id owner_id expires_at t t' s b c soon fresh =
    let r : Reservation = record { reserved_at = t.now; reservation_expires_at = expires_at } in
    let (one, found) =
      one_row id (is_reservable id owner_id t.now) (reserve_row r) (λ x. refl) (λ x h. ground arith)
        s.bookings b c.unique c.found (is_reservable_row id owner_id t s b c) in
    let lasts : leb expires_at t'.now ≡ false = ground arith in
    rw one (
      convert_reserved_row id owner_id t' _ (reserve_row r b) found c.owned (ap is_paid c.was_paid)
        c.unconverted c.first lasts c.free fresh)
