-- ===== src/Bookings/Listing.antt =====
-- The pages of booking requests: `listByRenter`, `listByOwnerAndPosting` and `createPagination` of
-- bookings.repository.ts, `listMine` and `listForOwnerPosting` of bookings.service.ts. The schema of
-- the query, in bookings.model.ts, has pages and sizes from 1.
pub mod Pages
pub mod Access
mod Tests
use fit.Common.{
  ℕ, ◌+◌, ◌-◌, ◌*◌, ◌/◌, Bool, true, not, ◌&&◌, ◌||◌, Option, none, some, List, [], ◌∷◌, ltb, leb,
  ◌==◌, if◌then◌else◌, count_if, select, take, drop,
}
use fit.Store.{BookingStatus, Booking}
use fit.Runtime.{
  posting_not_found, no_posting_access, forbidden, not_found, ok, M, Visit, visit, pure, require,
  throw_if, ◌>>=◌, ◌>>◌,
}
use fit.Bookings.Model.{same_status}
use fit.Bookings.Validation.{find_posting}

pub record ListRenterBookingRequestsInput : Type 0 where
  pub renter_id : ℕ
  pub page : ℕ
  pub page_size : ℕ
  pub status : Option BookingStatus

pub record ListOwnerBookingRequestsInput : Type 0 where
  pub owner_id : ℕ
  pub posting_id : ℕ
  pub page : ℕ
  pub page_size : ℕ
  pub status : Option BookingStatus

pub record Pagination : Type 0 where
  pub page : ℕ
  pub page_size : ℕ
  pub total : ℕ
  pub total_pages : ℕ
  pub has_next_page : Bool
  pub has_previous_page : Bool

-- `BookingRequestsListResult`
pub record ListResult : Type 0 where
  pub booking_requests : List Booking
  pub pagination : Pagination
  pub status : Option BookingStatus

-- `Math.max(1, Math.ceil(total / pageSize))`
abbrev pub total_pages_of : (total page_size : ℕ) → ℕ
total_pages_of total page_size =
    let pages : ℕ = (total + (page_size - 1)) / page_size in if leb pages 1 then 1 else pages

unfoldable pub create_pagination : (page page_size total : ℕ) → Pagination
create_pagination page page_size total = record {
  page = page;
  page_size = page_size;
  total = total;
  total_pages = total_pages_of total page_size;
  has_next_page = ltb page (total_pages_of total page_size);
  has_previous_page = ltb 1 page;
}

-- `...(input.status ? { status: input.status } : {})`
abbrev pub has_status : Option BookingStatus → Booking → Bool
has_status none b = true
has_status (some status) b = same_status b.status status

abbrev pub is_renters : ListRenterBookingRequestsInput → Booking → Bool
is_renters input b = b.renter_id == input.renter_id && has_status input.status b

abbrev pub is_owners : ListOwnerBookingRequestsInput → Booking → Bool
is_owners input b =
    b.owner_id == input.owner_id && b.posting_id == input.posting_id && has_status input.status b

-- `orderBy: [{ createdAt: "desc" }]`; the database leaves open the order of rows with one time, and
-- gives each of them a rank, at each query anew.
abbrev pub is_newer : (rank : ℕ → ℕ) → Booking → Booking → Bool
is_newer rank b c =
    ltb c.created_at b.created_at || (c.created_at == b.created_at && leb (rank b.id) (rank c.id))

insert_newest : (rank : ℕ → ℕ) → Booking → List Booking → List Booking
insert_newest rank b [] = b ∷ []
insert_newest rank b (c ∷ cs) =
    if is_newer rank b c then b ∷ c ∷ cs else c ∷ insert_newest rank b cs

unfoldable pub newest_first : (rank : ℕ → ℕ) → List Booking → List Booking
unfolding insert_newest
newest_first rank [] = []
newest_first rank (b ∷ bs) = insert_newest rank b (newest_first rank bs)

-- `skip: (page - 1) * pageSize, take: pageSize`
unfoldable pub page_of {ℓ} : {A : Type ℓ} → (page page_size : ℕ) → List A → List A
page_of page page_size rows = take page_size (drop ((page - 1) * page_size) rows)

unfoldable pub find_page : (Booking → Bool) → (page page_size : ℕ) → Visit (List Booking)
find_page row page page_size t s =
    (ok (page_of page page_size (newest_first t.rank (select row s.bookings))), s)

unfoldable pub count_rows : (Booking → Bool) → Visit ℕ
count_rows row t s = (ok (count_if row s.bookings), s)

-- The two queries of `Promise.all`, one after the other.
unfoldable pub list_by_renter : ListRenterBookingRequestsInput → M ListResult
list_by_renter input = do
  rows ← visit (find_page (is_renters input) input.page input.page_size)
  total ← visit (count_rows (is_renters input))
  pure (record {
    booking_requests = rows;
    pagination = create_pagination input.page input.page_size total;
    status = input.status;
  })

unfoldable pub list_by_owner_and_posting : ListOwnerBookingRequestsInput → M ListResult
list_by_owner_and_posting input = do
  rows ← visit (find_page (is_owners input) input.page input.page_size)
  total ← visit (count_rows (is_owners input))
  pure (record {
    booking_requests = rows;
    pagination = create_pagination input.page input.page_size total;
    status = input.status;
  })

unfoldable pub list_mine : ListRenterBookingRequestsInput → M ListResult
list_mine input = list_by_renter input

unfoldable pub list_for_owner_posting : ListOwnerBookingRequestsInput → M ListResult
list_for_owner_posting input = do
  found ← visit (find_posting input.posting_id)
  posting ← require found (not_found posting_not_found)
  throw_if (not (posting.owner_id == input.owner_id)) (forbidden no_posting_access)
  list_by_owner_and_posting input
