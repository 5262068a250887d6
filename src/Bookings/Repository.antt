-- ===== src/Bookings/Repository.antt =====
-- backend/src/app/features/bookings/bookings.repository.ts: what each method does to the tables.
use fit.Common.{
  ℕ, Bool, false, not, ◌&&◌, ◌||◌, Option, none, some, ◌∷◌, ltb, leb, ◌==◌, if◌then◌else◌, is_none,
  any, count_if, find, update,
}
use fit.Common.Text.{Text}
use fit.Store.{pending, awaiting_payment, declined, Terms, Booking, Store}
use fit.Runtime.{
  Result, ok, err, Turn, Visit, bad_request, duplicate_key, no_longer_available, transaction,
}
use fit.Bookings.Model.{PersistenceInput, is_pending, is_active}
use fit.Bookings.Overlap.{blocked}

abbrev pub has_id : ℕ → Booking → Bool
has_id id b = b.id == id

unfoldable pub find_booking : ℕ → Store → Option Booking
find_booking id s = find (has_id id) s.bookings

-- findById; `mapBookingRequest` respells the columns.
unfoldable pub find_by_id : ℕ → Visit (Option Booking)
unfolding find_booking
find_by_id id t s = (ok (find_booking id s), s)

-- The row of a new request, with the columns that a create leaves to their defaults.
abbrev pub new_booking : Turn → PersistenceInput → Booking
new_booking t input = record {
  id = t.uuid 0;
  posting_id = input.posting_id;
  renter_id = input.renter_id;
  owner_id = input.owner_id;
  status = pending;
  terms = input.terms;
  decision_note = none;
  approved_at = none;
  payment_required_at = none;
  payment_failed_at = none;
  cancelled_at = none;
  refunded_at = none;
  declined_at = none;
  expired_at = none;
  converted_at = none;
  conversion_reserved_at = none;
  conversion_reservation_expires_at = none;
  hold_expires_at = input.hold_expires_at;
  hold_block_id = none;
  payment_reconciliation_required = false;
  created_at = t.later;
}

abbrev pub is_active_for : (posting_id renter_id : ℕ) → Booking → Bool
is_active_for posting_id renter_id b =
    b.posting_id == posting_id
    && b.renter_id == renter_id
    && is_active b.status
    && is_none b.converted_at

-- countActiveRequestsForRenterPosting, without the optional id that no caller gives.
unfoldable pub count_active_requests_for_renter_posting : (posting_id renter_id : ℕ) → Visit ℕ
count_active_requests_for_renter_posting posting_id renter_id t s =
    (ok (count_if (is_active_for posting_id renter_id) s.bookings), s)

unfoldable pub create_if_within_active_request_limit : PersistenceInput → ℕ → Visit (Option Booking)
create_if_within_active_request_limit input max_active_requests t s =
    if leb max_active_requests
      (count_if (is_active_for input.posting_id input.renter_id) s.bookings)
    then (ok none, s)
    else if any (has_id (t.uuid 0)) s.bookings
    then (err duplicate_key, s)
    else (ok (some (new_booking t input)), record s { bookings = new_booking t input ∷ s.bookings })

-- `updateMany` on the rows that pass the test, and the row that is read again if one has changed.
unfoldable pub update_one :
    ℕ → (Booking → Bool) → (Booking → Booking) → Store → Option Booking × Store
unfolding find_booking
update_one id row change s =
    let s' : Store = record s { bookings = update row change s.bookings } in
    (if count_if row s.bookings == 1 then find_booking id s' else none, s')

abbrev pub returning : Option Booking × Store → Result (Option Booking) × Store
returning (found, s) = (ok found, s)

-- The `where` of updatePending, and with the owner's column those of approve and decline.
abbrev pub is_renters_pending : (id renter_id later : ℕ) → Booking → Bool
is_renters_pending id renter_id later b =
    has_id id b && b.renter_id == renter_id && is_pending b.status && ltb later b.hold_expires_at

abbrev pub is_owners_pending : (id owner_id later : ℕ) → Booking → Bool
is_owners_pending id owner_id later b =
    has_id id b && b.owner_id == owner_id && is_pending b.status && ltb later b.hold_expires_at

unfoldable pub update_pending_row :
    (id renter_id : ℕ) → Terms → Turn → Store → Option Booking → Option Booking × Store
update_pending_row id renter_id terms t s none = (none, s)
update_pending_row id renter_id terms t s (some existing) =
    if not (existing.renter_id == renter_id)
    then (none, s)
    else if not (is_pending existing.status) || leb existing.hold_expires_at t.now
    then (none, s)
    else update_one id (is_renters_pending id renter_id t.later) (λ b. record b { terms = terms }) s

unfoldable pub update_pending : (id renter_id : ℕ) → Terms → Visit (Option Booking)
unfolding update_pending_row
update_pending id renter_id terms t s =
    returning (update_pending_row id renter_id terms t s (find_booking id s))

-- The columns that an approval writes.
abbrev pub approve_row : Option Text → (hold_expires_at later : ℕ) → Booking → Booking
approve_row note hold_expires_at later b = record b {
  status = awaiting_payment;
  payment_required_at = some later;
  payment_failed_at = none;
  approved_at = some later;
  decision_note = note;
  hold_expires_at = hold_expires_at;
  hold_block_id = none;
}

unfoldable pub approve_found :
    (id owner_id : ℕ)
    → Option Text
    → (hold_expires_at : ℕ) → Turn
    → Store
    → Option Booking
    → Result (Option Booking) × Store
approve_found id owner_id decision hold_expires_at t s none = (ok none, s)
approve_found id owner_id decision hold_expires_at t s (some existing) =
    if not (existing.owner_id == owner_id)
    then (ok none, s)
    else if not (is_pending existing.status) || leb existing.hold_expires_at t.now
    then (ok none, s)
    else if blocked s existing.posting_id existing.start_at existing.end_at (some existing.id)
    then (err (bad_request no_longer_available), s)
    else returning (
        update_one existing.id (is_owners_pending existing.id owner_id t.later)
          (approve_row decision hold_expires_at t.later) s)

unfoldable pub approve :
    (id owner_id : ℕ) → Option Text → (hold_expires_at : ℕ) → Visit (Option Booking)
unfolding approve_found
approve id owner_id note hold_expires_at =
    transaction λ t s. approve_found id owner_id note hold_expires_at t s (find_booking id s)

abbrev pub decline_row : Option Text → (later : ℕ) → Booking → Booking
decline_row note later b = record b {
  status = declined;
  declined_at = some later;
  decision_note = note;
}

unfoldable pub decline_found :
    (id owner_id : ℕ) → Option Text → Turn → Store → Option Booking → Option Booking × Store
decline_found id owner_id decision t s none = (none, s)
decline_found id owner_id decision t s (some existing) =
    if not (existing.owner_id == owner_id)
    then (none, s)
    else if not (is_pending existing.status)
    then (none, s)
    else update_one id (is_owners_pending id owner_id t.later) (decline_row decision t.later) s

unfoldable pub decline : (id owner_id : ℕ) → Option Text → Visit (Option Booking)
unfolding decline_found
decline id owner_id note t s = returning (decline_found id owner_id note t s (find_booking id s))
