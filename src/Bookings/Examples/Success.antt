-- ===== src/Bookings/Examples/Success.antt =====
-- The theorems on successful writes and on reads, at the runs of the sample store.
use fit.Common.{◌≡◌, refl, none, some, arith}
use fit.Runtime.{ok}
use fit.Bookings.Repository.{approve, approve_row}
use fit.Bookings.Completeness.{approve_completes}
use fit.Runtime.Outcomes.{Outcome}
use fit.Bookings.Quote.{get_by_id}
use fit.Bookings.Access.{IsReadable, NotReadable, get_by_id_access}
use fit.Bookings.Tests.{runs}
use fit.Samples.{day, waiting, store, turn, world}
use fit.Samples.Valid.{store-Inv}

approve_completes_example :
    (approve 1 70 none (day 3) (turn 5) store).0 ≡ ok (some (approve_row none (day 3) 5 waiting))
unfolding runs
approve_completes_example =
    approve_completes 1 70 none (day 3) (turn 5) store waiting store-Inv.unique refl refl refl
      (omega arith) (omega arith) refl

get_by_id_access_example : Outcome (IsReadable 1 5) NotReadable (get_by_id 1 5 (world 5)).0
get_by_id_access_example = get_by_id_access 1 5 (world 5)
