-- ===== src/Bookings/Listing/Tests.antt =====
-- Pages of the sample store, and the theorems on them at these runs.
use fit.Common.{
  ℕ, ◌≡◌, refl, true, none, some, [], ◌∷◌, map, arith, count_if, select, find, List, Bool, false,
}
use fit.Store.{pending, Booking, Store}
use fit.Runtime.{
  forbidden, no_posting_access, Result, ok, err, pure, throw, visit, ◌>>=◌, require, throw_if,
}
use fit.Bookings.Validation.{find_posting}
use fit.Bookings.Listing.{
  ListOwnerBookingRequestsInput, ListResult, create_pagination, newest_first, page_of, find_page,
  count_rows, list_by_renter, list_mine, list_by_owner_and_posting, list_for_owner_posting,
}
use fit.Bookings.Listing.Pages.{IsNewestFirst, all_pages_once}
use mathlib.Core.List.{Perm}
use fit.Samples.{waiting, bought, store, turn, world}

lists : Unit {0}
unfolding count_if select pure throw visit ◌>>=◌ require throw_if find_posting create_pagination
    newest_first page_of find_page count_rows list_by_renter list_mine list_by_owner_and_posting
    list_for_owner_posting find
lists = tt

-- The second page of the owner's requests, one to a page.
abbrev second : ListOwnerBookingRequestsInput
second = record { owner_id = 70; posting_id = 7; page = 2; page_size = 1; status = none }

abbrev shown : Result ListResult → Result (List ℕ × (ℕ × Bool))
shown (ok r) =
    ok (map (λ b. b.id) r.booking_requests, (r.pagination.total_pages, r.pagination.has_next_page))
shown (err e) = err e

second_page :
    (shown (list_for_owner_posting second (world 5)).0 ≡ ok (2 ∷ [], (2, false)))
    × (shown (list_for_owner_posting (record second { owner_id = 5 }) (world 5)).0
        ≡ err (forbidden no_posting_access))
unfolding lists
second_page = (refl, refl)

-- The request of renter 5 that waits.
renters_pending :
    shown
      (list_mine
        (record { renter_id = 5; page = 1; page_size = 20; status = some pending })
        (world 5)).0
    ≡ ok (1 ∷ [], (1, false))
unfolding lists
renters_pending = refl

abbrev everyone : Booking → Bool
everyone b = true

-- The two requests of the sample store, one of them created later.
abbrev dated : Store
dated = record store { bookings = record waiting { created_at = 3 } ∷ bought ∷ [] }

all_pages_once_example :
    IsNewestFirst (record waiting { created_at = 3 } ∷ bought ∷ [])
    × Perm (record waiting { created_at = 3 } ∷ bought ∷ []) (select everyone dated.bookings)
unfolding lists
all_pages_once_example =
    all_pages_once everyone (λ n. turn n) 1 1 dated (omega arith)
      (((λ e. ground arith), tt), (tt, tt))
