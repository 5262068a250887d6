-- ===== src/Bookings/Overlap.antt =====
-- The overlap queries of bookings.repository.ts and rentings.repository.ts: what makes a posting's
-- dates taken.
use fit.Common.{
  ℕ, Bool, true, false, not, ◌&&◌, Option, none, some, List, ltb, ◌==◌, is_none, any, find,
}
use fit.Store.{Booking, Block, Renting, Store}
use fit.Runtime.{Visit, ok}
use fit.Bookings.Model.{is_paid}

-- `startAt: { lt: endAt }, endAt: { gt: startAt }`
abbrev pub overlaps : (row_start row_end start_at end_at : ℕ) → Bool
overlaps row_start row_end start_at end_at = ltb row_start end_at && ltb start_at row_end

abbrev pub refers_to : Option ℕ → ℕ → Bool
refers_to none id = false
refers_to (some a) id = a == id

-- The relation `bookingRequestHold` of a block; `holdBlockId` is unique.
unfoldable pub booking_request_hold : List Booking → Block → Option Booking
booking_request_hold bookings block = find (λ b. refers_to b.hold_block_id block.id) bookings

-- `OR: [{ bookingRequestHold: null }, { bookingRequestHold: { status: "paid", … } }]`; the
-- excluded id is optional.
abbrev pub takes_dates : Option ℕ → Option Booking → Bool
takes_dates excluded none = true
takes_dates excluded (some b) =
    is_paid b.status && is_none b.converted_at && not (refers_to excluded b.id)

unfoldable pub is_blocking :
    List Booking → (posting_id start_at end_at : ℕ) → Option ℕ → Block → Bool
unfolding booking_request_hold
is_blocking bookings posting_id start_at end_at excluded block =
    block.posting_id == posting_id
    && overlaps block.start_at block.end_at start_at end_at
    && takes_dates excluded (booking_request_hold bookings block)

unfoldable pub blocked : Store → (posting_id start_at end_at : ℕ) → Option ℕ → Bool
unfolding is_blocking
blocked s posting_id start_at end_at excluded =
    any (is_blocking s.bookings posting_id start_at end_at excluded) s.blocks

-- BookingsRepository.hasBlockingAvailabilityOverlap
unfoldable pub has_blocking_availability_overlap :
    (posting_id start_at end_at : ℕ) → Option ℕ → Visit Bool
has_blocking_availability_overlap posting_id start_at end_at excluded t s =
    (ok (blocked s posting_id start_at end_at excluded), s)

-- RentingsRepository.hasOverlap, without the optional id that no caller gives.
abbrev pub rents : (posting_id start_at end_at : ℕ) → Renting → Bool
rents posting_id start_at end_at r =
    r.posting_id == posting_id && overlaps r.start_at r.end_at start_at end_at

unfoldable pub has_overlap : (posting_id start_at end_at : ℕ) → Visit Bool
has_overlap posting_id start_at end_at t s =
    (ok (any (rents posting_id start_at end_at) s.rentings), s)
