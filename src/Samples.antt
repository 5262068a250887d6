-- ===== src/Samples.antt =====
-- A small store with one posting, a request that waits and a request that is paid, and requests of
-- the service on it: the inputs of the tests.
pub mod Valid
use fit.Common.{ℕ, ◌+◌, ◌*◌, true, false, none, some, [], ◌∷◌, Option}
use fit.Store.{
  BookingStatus, pending, paid, whole, Pricing, published, Posting, Terms, Booking, booking_hold,
  booking_note, Block, Store, no_rows,
}
use fit.Store.Postings.{available, degrees}
use fit.Runtime.{Turn, World}
use fit.Bookings.Model.{
  milliseconds_per_day, BookingQuoteInput, CreateBookingRequestInput, UpdateBookingRequestInput,
  DecideBookingRequestInput, PersistenceInput,
}

abbrev pub day : ℕ → ℕ
day n = n * milliseconds_per_day

abbrev pub pricing : Pricing
pricing = record { currency = 1; daily = 1000; hourly = none; weekly = none; monthly = none }

abbrev pub posting : Posting
posting = record {
  id = 7;
  owner_id = 70;
  status = published;
  published_at = some 0;
  paused_at = none;
  archived_at = none;
  availability_status = available;
  max_booking_duration_days = none;
  pricing = pricing;
  photos = 2;
  latitude = degrees false 90 false;
  longitude = degrees true 122 true;
}

-- Two days for two guests.
abbrev pub two_days : (start_at end_at : ℕ) → Terms
two_days start_at end_at = record {
  start_at = start_at;
  end_at = end_at;
  duration_days = 2;
  guest_count = whole 2;
  contact_name = 65 ∷ [];
  contact_email = 66 ∷ [];
  contact_phone_number = none;
  note = none;
  pricing_currency = 1;
  pricing_snapshot = pricing;
  daily_price_amount = 1000;
  estimated_total = 2000;
}

abbrev pub booking :
    (id renter_id : ℕ) → BookingStatus → Terms → (hold_block_id : Option ℕ) → Booking
booking id renter_id status terms hold_block_id = record {
  id = id;
  posting_id = 7;
  renter_id = renter_id;
  owner_id = 70;
  status = status;
  terms = terms;
  decision_note = none;
  approved_at = none;
  payment_required_at = none;
  payment_failed_at = none;
  cancelled_at = none;
  refunded_at = none;
  declined_at = none;
  expired_at = none;
  converted_at = none;
  conversion_reserved_at = none;
  conversion_reservation_expires_at = none;
  hold_expires_at = day 1;
  hold_block_id = hold_block_id;
  payment_reconciliation_required = false;
  created_at = 0;
}

abbrev pub waiting : Booking
waiting = booking 1 5 pending (two_days (day 10) (day 12)) none

abbrev pub bought : Booking
bought = booking 2 6 paid (two_days (day 20) (day 22)) (some 90)

abbrev pub hold : Block
hold = record {
  id = 90;
  posting_id = 7;
  start_at = day 20;
  end_at = day 22;
  note = booking_note 2;
  source = booking_hold;
}

abbrev pub store : Store
store = record no_rows {
  bookings = waiting ∷ bought ∷ [];
  blocks = hold ∷ [];
  postings = posting ∷ [];
}

-- A visit at the time `now` that nothing came before.
abbrev pub turn : ℕ → Turn
turn now = record {
  now = now;
  later = now;
  uuid = λ n. 100 * (now + 1) + n;
  random = λ n. 0;
  rank = λ id. id;
  others = λ s. s;
}

-- A request whose visits nobody interrupts, the first of them at the time `start`.
abbrev pub world : (start : ℕ) → World
world start = record { store = store; turns = λ i. turn (start + i); moment = 0 }

abbrev pub quote_input : BookingQuoteInput
quote_input = record {
  posting_id = 7;
  renter_id = 8;
  start_at = some (day 14);
  end_at = some (day 16);
  guest_count = whole 2;
  note = none;
}

abbrev pub create_input : CreateBookingRequestInput
create_input = record {
  quoted = quote_input;
  contact_name = 65 ∷ [];
  contact_email = 66 ∷ [];
  contact_phone_number = none;
}

abbrev pub update_input : UpdateBookingRequestInput
update_input = record {
  booking_request_id = 1;
  renter_id = 5;
  start_at = some (day 14);
  end_at = some (day 16);
  guest_count = whole 2;
  note = none;
  contact_name = 65 ∷ [];
  contact_email = 66 ∷ [];
  contact_phone_number = none;
}

abbrev pub decision : DecideBookingRequestInput
decision = record { booking_request_id = 1; owner_id = 70; note = none }

abbrev pub row_input : PersistenceInput
row_input = record {
  posting_id = 7;
  renter_id = 8;
  owner_id = 70;
  terms = two_days (day 14) (day 16);
  hold_expires_at = day 1;
}
