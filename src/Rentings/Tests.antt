-- ===== src/Rentings/Tests.antt =====
-- Conversions on the sample store, and the theorems on them at these runs.
use fit.Common.{ℕ, ◌≡◌, refl, arith, none, some, [], ◌∷◌, map}
use fit.Store.{Renting, Store, booking_note}
use fit.Runtime.{
  forbidden, no_booking_access, conflict, already_reserved, Result, ok, err, on_error,
}
use fit.Runtime.Logic.{Holds}
use fit.Bookings.Machine.{Step}
use fit.Bookings.Machine.Invariant.{Inv}
use fit.Bookings.Reservation.{reserve_for_conversion, release_conversion_reservation}
use fit.Bookings.Tests.{runs}
use fit.Bookings.Refinement.Hold.{reserve-Step}
use fit.Bookings.Machine.Invariant.{Step-Inv}
use fit.Rentings.Repository.{new_renting, convert_found, convert_approved_booking_request}
use fit.Rentings.Service.{
  require_posting_actionable_for_conversion, convert_reserved, convert_locked, convert_request,
}
use fit.Rentings.Completeness.{IsConvertible, convert-reserve}
use fit.Rentings.Safety.{RentingOf, convert_request-Inv}
use fit.Rentings.Exact.{Converts, convert-Converts}
use fit.Samples.{day, bought, store, turn, world}
use fit.Samples.Valid.{store-Inv, world-Steady}

conversions : Unit {0}
unfolding runs on_error reserve_for_conversion release_conversion_reservation convert_found
    convert_approved_booking_request require_posting_actionable_for_conversion convert_reserved
    convert_locked convert_request
conversions = tt

abbrev dates_of : Result Renting → Result (ℕ × ℕ)
dates_of (ok r) = ok (r.start_at, r.end_at)
dates_of (err e) = err e

convert_returns :
    let (r, w) = convert_request 2 70 (world 5) in
    (dates_of r ≡ ok (day 20, day 22))
    × (map (λ b. b.hold_block_id) w.store.bookings ≡ none ∷ none ∷ [])
    × (map (λ b. b.note) w.store.blocks ≡ booking_note 2 ∷ [])
    × (w.store.locks ≡ [])
unfolding conversions
convert_returns = (refl, refl, refl, refl)

-- A request that is not paid cannot be reserved.
unpaid_refused : dates_of (convert_request 1 70 (world 5)).0 ≡ err (conflict already_reserved)
unfolding conversions
unpaid_refused = refl

stranger_refused : dates_of (convert_request 2 6 (world 5)).0 ≡ err (forbidden no_booking_access)
unfolding conversions
stranger_refused = refl

convert_request-Inv_example :
    Inv (convert_request 2 70 (world 5)).1.store
    × Holds (RentingOf 2 70) (convert_request 2 70 (world 5)).0
convert_request-Inv_example = convert_request-Inv 2 70 (world 5) (world-Steady 5)

abbrev reserved : Store
reserved = (reserve_for_conversion 2 70 (day 1) (turn 5) store).1

reserved-Inv : Inv reserved
reserved-Inv = Step-Inv store reserved (reserve-Step 2 70 (day 1) (turn 5) store) store-Inv

convert-Converts_example :
    let r = convert_approved_booking_request 2 70 (turn 6) reserved in
    Converts 2 70 (turn 6) reserved r × Step reserved r.1
convert-Converts_example = convert-Converts 2 70 (turn 6) reserved reserved-Inv.core

bought-IsConvertible : IsConvertible 2 70 (turn 5) store bought
unfolding conversions
bought-IsConvertible = record {
  unique = store-Inv.unique;
  found = refl;
  owned = refl;
  was_paid = refl;
  unconverted = refl;
  unreserved = refl;
  first = refl;
  free = refl;
}

convert-reserve_example :
    (convert_approved_booking_request 2 70
      (turn 6)
      (reserve_for_conversion 2 70 (day 1) (turn 5) store).1).0
    ≡ ok (some (new_renting (turn 6) bought))
unfolding conversions
convert-reserve_example =
    convert-reserve 2 70 (day 1) (turn 5) (turn 6) store bought bought-IsConvertible (omega arith)
      refl
