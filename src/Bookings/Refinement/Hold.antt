-- ===== src/Bookings/Refinement/Hold.antt =====
-- Expiry and reservation are steps of the machine too: `expire`, `reserveForConversion` and
-- `releaseConversionReservation` of bookings.repository.ts.
use fit.Common.{
  ℕ, ◌≡◌, refl, inl, inr, true, not, Option, none, some, arith, ◌==◌, count_if, update, Bool-cases,
  is_none, Pointwise,
}
use fit.Store.{BookingStatus, paid, Booking, Store}
use fit.Runtime.{Turn}
use fit.Bookings.Model.{is_paid, can_expire, same_status}
use fit.Bookings.Repository.{find_booking}
use fit.Bookings.Expiry.{is_candidate, is_expirable, expire_row, expire_found, expire}
use fit.Bookings.Reservation.{
  Reservation, is_reservable, reserve_row, reserve_for_conversion, is_reserved_as, release_row,
  release_conversion_reservation,
}
use fit.Bookings.Machine.{Move, expires, reserves, releases, Step, moves}
use fit.Bookings.Refinement.{Step-refl, update-Move, if-Step}

same_status-eq : (a b : BookingStatus) → same_status a b ≡ true → can_expire a ≡ can_expire b
same_status-eq a b h = ground arith

-- A row that `expire` changes has the status that was read, and a hold that has run out.
expire-Move :
    (existing : Booking) (now later : ℕ) (b : Booking)
    → is_candidate now existing ≡ true
    → is_expirable existing later b ≡ true
    → Move b (expire_row later b)
expire-Move existing now later b read h =
    expires later (ground (arith, same_status-eq b.status existing.status)) (ground arith) refl

-- What the expiry of one request does to the tables is one step of the machine, on every branch: only
-- a request in a status that can expire, with its hold over, becomes expired.
pub expire-Step : (id : ℕ) (t : Turn) (s : Store) → Step s (expire id t s).1
unfolding expire
expire-Step id t s = go (find_booking id s)
  where
    go : (o : Option Booking) → Step s (expire_found t s o).1
    go none = Step-refl s
    go (some existing) = elim (Bool-cases (is_candidate t.now existing)) [
      | inr e ↦ rw e (Step-refl s)
      | inl e ↦
          let moved : Pointwise Move s.bookings
              (update (is_expirable existing t.later) (expire_row t.later) s.bookings) =
            update-Move _ _ s.bookings (λ b h. expire-Move existing t.now t.later b e h) in
          rw e (
            if-Step (not (count_if (is_expirable existing t.later) s.bookings == 1)) _ _
              (moves moved refl) (moves moved refl))
    ]

is_paid-eq : (b : BookingStatus) → is_paid b ≡ true → b ≡ paid
is_paid-eq b h = ground arith

is_none-eq : (o : Option ℕ) → is_none o ≡ true → o ≡ none
is_none-eq o h = ground arith

-- What a reservation for conversion does to the tables is one step of the machine, on every branch:
-- only a paid, unconverted request is reserved.
pub reserve-Step :
    (id owner_id reservation_expires_at : ℕ) (t : Turn) (s : Store)
    → Step s (reserve_for_conversion id owner_id reservation_expires_at t s).1
unfolding reserve_for_conversion
reserve-Step id owner_id reservation_expires_at t s =
    let moved : Pointwise Move s.bookings (
        update (is_reservable id owner_id t.now)
          (reserve_row
            (record { reserved_at = t.now; reservation_expires_at = reservation_expires_at }))
          s.bookings) =
      update-Move _ _ s.bookings (λ b h.
        reserves t.now reservation_expires_at (ground (arith, is_paid-eq b.status))
          (ground (arith, is_none-eq b.converted_at)) refl) in
    if-Step (count_if (is_reservable id owner_id t.now) s.bookings == 1) _ _ (moves moved refl)
      (moves moved refl)

-- What the release of a reservation does to the tables is one step of the machine.
pub release-Step :
    (id owner_id : ℕ) (r : Reservation) (t : Turn) (s : Store)
    → Step s (release_conversion_reservation id owner_id r t s).1
unfolding release_conversion_reservation
release-Step id owner_id r t s =
    moves (update-Move (is_reserved_as id owner_id r) release_row s.bookings (λ b h. releases refl))
      refl
