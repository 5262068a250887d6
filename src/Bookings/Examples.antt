-- ===== src/Bookings/Examples.antt =====
-- The theorems on booking requests, at the runs of the sample store.
mod Success
use fit.Common.{refl, none, some}
use fit.Store.{Booking}
use fit.Runtime.Logic.{Steady, Holds}
use fit.Runtime.Outcomes.{Outcome}
use fit.Bookings.Model.{DecideBookingRequestInput, max_active_booking_requests_per_posting}
use fit.Bookings.Repository.{create_if_within_active_request_limit, approve_row, decline_row}
use fit.Bookings.Expiry.{expire, run_once}
use fit.Bookings.Normalize.{normalize_create_input, normalize_create_input_for_quote}
use fit.Bookings.Create.{create}
use fit.Bookings.Change.{update_own_pending}
use fit.Bookings.Decide.{approve_request, decline_request}
use fit.Bookings.Machine.{Step}
use fit.Bookings.Machine.Invariant.{Inv}
use fit.Bookings.Refinement.Creation.{Creates, create-Creates}
use fit.Bookings.Refinement.Hold.{expire-Step}
use fit.Bookings.Agreement.{Agrees, as_quote, normalize-Agrees}
use fit.Bookings.Results.{Approved, approve-Approved, Decided, decline-Decided}
use fit.Bookings.Safety.Create.{Created, create-Inv}
use fit.Bookings.Safety.Change.{Changed, update_own_pending-Inv}
use fit.Bookings.Safety.Refusal.{
  decided, Obstructed, over, approve_request_refused, decline_request_refused,
}
use fit.Bookings.Safety.Expiry.{kept, OnlyEndings, run_once-OnlyEndings}
use fit.Bookings.InvalidDates.{Unvalidated, create_invalid_dates}
use fit.Bookings.Tests.{runs}
use fit.Samples.{
  day, waiting, bought, store, turn, world, quote_input, create_input, update_input, decision,
  row_input,
}
use fit.Samples.Valid.{two_days-IsSound, store-Inv, world-Steady}

create-Inv_example :
    Inv (create create_input (world 5)).1.store
    × Holds (Created create_input) (create create_input (world 5)).0
create-Inv_example = create-Inv create_input (world 5) (world-Steady 5)

update_own_pending-Inv_example :
    Inv (update_own_pending update_input (world 5)).1.store
    × Holds (Changed update_input) (update_own_pending update_input (world 5)).0
update_own_pending-Inv_example = update_own_pending-Inv update_input (world 5) (world-Steady 5)

-- The request that is paid already.
abbrev second : DecideBookingRequestInput
second = record decision { booking_request_id = 2 }

bought-Obstructed : Steady (Obstructed decided second bought) (world 5)
unfolding runs
bought-Obstructed = record { here = (refl, refl); others = λ i s h. h }

approve_request_refused_example :
    Obstructed decided second bought (approve_request second (world 5)).1.store
    × Holds (λ c. ⊥) (approve_request second (world 5)).0
approve_request_refused_example =
    approve_request_refused decided second bought (world 5) bought-Obstructed

decline_request_refused_example :
    Obstructed decided second bought (decline_request second (world 5)).1.store
    × Holds (λ c. ⊥) (decline_request second (world 5)).0
decline_request_refused_example =
    decline_request_refused decided second bought (world 5) over bought-Obstructed

-- The hold of the waiting request has run out.
run_once-OnlyEndings_example :
    OnlyEndings store.bookings store.rentings (run_once 10 (world (day 2))).1.store
run_once-OnlyEndings_example =
    run_once-OnlyEndings 10 store.bookings store.rentings (world (day 2))
      (record { here = ((kept refl, (kept refl, tt)), refl); others = λ i s h. h })

create-Creates_example :
    let r =
      create_if_within_active_request_limit row_input max_active_booking_requests_per_posting
        (turn 5)
        store in
    Creates row_input (turn 5) store r × Step store r.1
create-Creates_example = create-Creates row_input (turn 5) store (two_days-IsSound 14)

expire-Step_example : Step store (expire 1 (turn (day 2)) store).1
expire-Step_example = expire-Step 1 (turn (day 2)) store

abbrev approved : Booking
approved = approve_row none (day 3) 5 waiting

approve-Approved_example : Approved (approve_row none (day 3) 5) (turn 5) store 1 70 approved
unfolding runs
approve-Approved_example =
    approve-Approved 1 70 none (day 3) (turn 5) store approved store-Inv.unique refl

decline-Decided_example :
    Decided (decline_row none 5) (turn 5) store 1 70 (decline_row none 5 waiting)
unfolding runs
decline-Decided_example =
    decline-Decided 1 70 none (turn 5) store (decline_row none 5 waiting) store-Inv.unique refl

normalize-Agrees_example :
    Agrees
      (normalize_create_input_for_quote (as_quote 7 update_input) 1).1
      (normalize_create_input_for_quote (as_quote 7 update_input) 1).0
      (normalize_create_input update_input 1)
normalize-Agrees_example = normalize-Agrees update_input 7 1

-- The dates of the request, the wrong way round.
create_invalid_dates_example :
    Outcome
      (λ b. ⊥)
      Unvalidated
      (create
        (record create_input { quoted = record quote_input { start_at = some (day 20) } })
        (world 5)).0
create_invalid_dates_example =
    create_invalid_dates
      (record create_input { quoted = record quote_input { start_at = some (day 20) } }) (world 5)
      refl
