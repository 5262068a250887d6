-- ===== src/Bookings/Reservation.antt =====
-- The reservation that guards a conversion: `reserveForConversion` and
-- `releaseConversionReservation` of bookings.repository.ts.
use fit.Common.{ℕ, Bool, ◌&&◌, none, some, ◌==◌, if◌then◌else◌, is_none, count_if, update}
use fit.Store.{Booking, Store}
use fit.Runtime.{ok, err, Visit, conflict, already_reserved}
use fit.Bookings.Model.{is_paid}
use fit.Bookings.Overlap.{refers_to}
use fit.Bookings.Repository.{has_id}
use fit.Bookings.Expiry.{reservation_over}

pub record Reservation : Type 0 where
  pub reserved_at : ℕ
  pub reservation_expires_at : ℕ

abbrev pub is_reservable : (id owner_id now : ℕ) → Booking → Bool
is_reservable id owner_id now b =
    has_id id b
    && b.owner_id == owner_id
    && is_paid b.status
    && is_none b.converted_at
    && reservation_over b.conversion_reservation_expires_at now

abbrev pub reserve_row : Reservation → Booking → Booking
reserve_row r b = record b {
  conversion_reserved_at = some r.reserved_at;
  conversion_reservation_expires_at = some r.reservation_expires_at;
}

-- The end of the reservation is `minutes` after the caller's clock.
unfoldable pub reserve_for_conversion : (id owner_id reservation_expires_at : ℕ) → Visit Reservation
reserve_for_conversion id owner_id reservation_expires_at t s =
    let r : Reservation = record {
      reserved_at = t.now;
      reservation_expires_at = reservation_expires_at;
    } in
    let s' : Store = record s {
      bookings = update (is_reservable id owner_id t.now) (reserve_row r) s.bookings;
    } in
    if count_if (is_reservable id owner_id t.now) s.bookings == 1
    then (ok r, s')
    else (err (conflict already_reserved), s')

abbrev pub is_reserved_as : (id owner_id : ℕ) → Reservation → Booking → Bool
is_reserved_as id owner_id r b =
    has_id id b
    && b.owner_id == owner_id
    && refers_to b.conversion_reserved_at r.reserved_at
    && refers_to b.conversion_reservation_expires_at r.reservation_expires_at

abbrev pub release_row : Booking → Booking
release_row b = record b { conversion_reserved_at = none; conversion_reservation_expires_at = none }

unfoldable pub release_conversion_reservation : (id owner_id : ℕ) → Reservation → Visit (Unit {0})
release_conversion_reservation id owner_id r t s =
    (ok tt, record s { bookings = update (is_reserved_as id owner_id r) release_row s.bookings })
