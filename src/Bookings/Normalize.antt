-- ===== src/Bookings/Normalize.antt =====
-- `normalizeCreateInput` and `normalizeCreateInputForQuote` of
-- backend/src/app/features/bookings/bookings.service.ts: the checks on the dates, the number of
-- guests and the note of a request.
use fit.Common.{
  ℕ, ◌+◌, ◌-◌, ◌/◌, Bool, true, false, Option, none, some, List, [], ◌∷◌, ◌++◌, ltb, leb,
  if◌then◌else◌, length,
}
use fit.Common.Text.{Text, trim, to_lower_case}
use fit.Store.{JsNumber, whole, negative, fractional}
use fit.Runtime.{
  Reason, invalid_range, shorter_than_a_day, max_duration_exceeded, invalid_guest_count,
  guest_count_exceeded, note_too_long, bad_request, Result, ok, err,
}
use fit.Bookings.Model.{
  max_booking_note_length, max_booking_guest_count, milliseconds_per_day, JsDate, BookingQuoteInput,
  UpdateBookingRequestInput,
}

-- `NormalizedBookingRequestInput`
pub record Normalized : Type 0 where
  pub start_at : ℕ
  pub end_at : ℕ
  pub duration_days : ℕ
  pub guest_count : JsNumber
  pub note : Option Text

-- The instants of two dates that make a valid, non-empty range.
abbrev pub valid_range : JsDate → JsDate → Option (ℕ × ℕ)
valid_range none end_at = none
valid_range (some a) none = none
valid_range (some a) (some b) = if leb b a then none else some (a, b)

-- `Math.ceil((endAt - startAt) / MILLISECONDS_PER_DAY)`
unfoldable pub duration_days_of : ℕ → ℕ → ℕ
duration_days_of start_at end_at =
    (end_at - start_at + (milliseconds_per_day - 1)) / milliseconds_per_day

abbrev pub or_null : Text → Option Text
or_null [] = none
or_null (c ∷ s) = some (c ∷ s)

-- `text?.trim() || null`
unfoldable pub trimmed_or_null : Option Text → Option Text
trimmed_or_null none = none
trimmed_or_null (some s) = or_null (trim s)

abbrev pub is_too_long : Option Text → Bool
is_too_long none = false
is_too_long (some s) = ltb max_booking_note_length (length s)

-- `!Number.isInteger(guestCount) || guestCount < 1`
abbrev pub is_invalid_count : JsNumber → Bool
is_invalid_count (whole n) = ltb n 1
is_invalid_count (negative n) = true
is_invalid_count fractional = true

abbrev pub exceeds_guests : JsNumber → Bool
exceeds_guests (whole n) = ltb max_booking_guest_count n
exceeds_guests (negative n) = false
exceeds_guests fractional = false

-- `if (test) { failureReasons.push(reason) }`
abbrev pub reason_if : Bool → Reason → List Reason
reason_if true r = r ∷ []
reason_if false r = []

abbrev pub guest_reasons : JsNumber → List Reason
guest_reasons n =
    if is_invalid_count n
    then invalid_guest_count ∷ []
    else reason_if (exceeds_guests n) guest_count_exceeded

unfoldable pub quote_reasons : (duration max_days : ℕ) → JsNumber → Option Text → List Reason
quote_reasons duration max_days guests note =
    reason_if (ltb duration 1) shorter_than_a_day
    ++ (reason_if (ltb max_days duration) (max_duration_exceeded duration max_days)
        ++ (guest_reasons guests ++ reason_if (is_too_long note) note_too_long))

unfoldable pub normalize_range :
    BookingQuoteInput → ℕ → Option (ℕ × ℕ) → Option Normalized × List Reason
normalize_range input max_days none = (none, invalid_range ∷ [])
normalize_range input max_days (some (a, b)) = (
  some (record {
    start_at = a;
    end_at = b;
    duration_days = duration_days_of a b;
    guest_count = input.guest_count;
    note = trimmed_or_null input.note;
  }),
  quote_reasons (duration_days_of a b) max_days input.guest_count (trimmed_or_null input.note),
)

unfoldable pub normalize_create_input_for_quote :
    BookingQuoteInput → ℕ → Option Normalized × List Reason
unfolding normalize_range
normalize_create_input_for_quote input max_days =
    normalize_range input max_days (valid_range input.start_at input.end_at)

-- `NormalizedCreateBookingRequestInput`
pub record NormalizedUpdate : Type 0 where
  pub normalized : Normalized
  pub open normalized use *
  pub contact_name : Text
  pub contact_email : Text
  pub contact_phone_number : Option Text

unfoldable pub normalized_update :
    UpdateBookingRequestInput → (start_at end_at : ℕ) → NormalizedUpdate
normalized_update input a b = record {
  normalized = record {
    start_at = a;
    end_at = b;
    duration_days = duration_days_of a b;
    guest_count = input.guest_count;
    note = trimmed_or_null input.note;
  };
  contact_name = trim input.contact_name;
  contact_email = to_lower_case (trim input.contact_email);
  contact_phone_number = trimmed_or_null input.contact_phone_number;
}

unfoldable pub normalize_update_range :
    UpdateBookingRequestInput → ℕ → Option (ℕ × ℕ) → Result NormalizedUpdate
unfolding normalized_update
normalize_update_range input max_days none = err (bad_request invalid_range)
normalize_update_range input max_days (some (a, b)) =
    if ltb (duration_days_of a b) 1
    then err (bad_request shorter_than_a_day)
    else if ltb max_days (duration_days_of a b)
    then err (bad_request (max_duration_exceeded (duration_days_of a b) max_days))
    else if is_invalid_count input.guest_count
    then err (bad_request invalid_guest_count)
    else if exceeds_guests input.guest_count
    then err (bad_request guest_count_exceeded)
    else if is_too_long (trimmed_or_null input.note)
    then err (bad_request note_too_long)
    else ok (normalized_update input a b)

-- normalizeCreateInput; its second argument is the posting's limit or the default.
unfoldable pub normalize_create_input : UpdateBookingRequestInput → ℕ → Result NormalizedUpdate
unfolding normalize_update_range
normalize_create_input input max_days =
    normalize_update_range input max_days (valid_range input.start_at input.end_at)
