-- ===== src/Bookings/Model.antt =====
-- backend/src/app/features/bookings/bookings.model.ts: the limits, the inputs of the service, and
-- the sets of statuses that the repository names.
use fit.Common.{ℕ, ◌+◌, ◌*◌, Bool, true, false, Option, ◌==◌}
use fit.Common.Text.{Text}
use fit.Store.{
  BookingStatus, pending, approved, awaiting_payment, payment_processing, paid, payment_failed,
  declined, expired, cancelled, refunded, JsNumber, Terms,
}

abbrev pub max_booking_note_length : ℕ
max_booking_note_length = 1000

abbrev pub max_booking_guest_count : ℕ
max_booking_guest_count = 20

abbrev pub max_active_booking_requests_per_posting : ℕ
max_active_booking_requests_per_posting = 2

abbrev pub pending_booking_hold_hours : ℕ
pending_booking_hold_hours = 24

abbrev pub approved_booking_hold_hours : ℕ
approved_booking_hold_hours = 72

abbrev pub conversion_reservation_minutes : ℕ
conversion_reservation_minutes = 5

abbrev pub default_max_booking_duration_days : ℕ
default_max_booking_duration_days = 30

abbrev pub milliseconds_per_day : ℕ
milliseconds_per_day = 24 * 60 * 60 * 1000

-- `new Date(text)`, an instant or `Invalid Date`.
abbrev pub JsDate : Type 0
JsDate = Option ℕ

pub record BookingQuoteInput : Type 0 where
  pub posting_id : ℕ
  pub renter_id : ℕ
  pub start_at : JsDate
  pub end_at : JsDate
  pub guest_count : JsNumber
  pub note : Option Text

pub record CreateBookingRequestInput : Type 0 where
  pub quoted : BookingQuoteInput
  pub open quoted use *
  pub contact_name : Text
  pub contact_email : Text
  pub contact_phone_number : Option Text

pub record UpdateBookingRequestInput : Type 0 where
  pub booking_request_id : ℕ
  pub renter_id : ℕ
  pub start_at : JsDate
  pub end_at : JsDate
  pub guest_count : JsNumber
  pub note : Option Text
  pub contact_name : Text
  pub contact_email : Text
  pub contact_phone_number : Option Text

pub record DecideBookingRequestInput : Type 0 where
  pub booking_request_id : ℕ
  pub owner_id : ℕ
  pub note : Option Text

-- `CreateBookingRequestPersistenceInput`
pub record PersistenceInput : Type 0 where
  pub posting_id : ℕ
  pub renter_id : ℕ
  pub owner_id : ℕ
  pub terms : Terms
  pub hold_expires_at : ℕ

-- `===` on statuses
abbrev pub is_pending : BookingStatus → Bool
is_pending pending = true
is_pending _ = false

abbrev pub is_paid : BookingStatus → Bool
is_paid paid = true
is_paid _ = false

-- `activeBookingStatuses`
abbrev pub is_active : BookingStatus → Bool
is_active pending = true
is_active awaiting_payment = true
is_active payment_processing = true
is_active payment_failed = true
is_active paid = true
is_active _ = false

-- The statuses whose hold can run out, as `listExpiredCandidates` and `expire` name them.
abbrev pub can_expire : BookingStatus → Bool
can_expire pending = true
can_expire awaiting_payment = true
can_expire payment_processing = true
can_expire payment_failed = true
can_expire _ = false

-- The statuses whose block `expire` deletes.
abbrev pub releases_block : BookingStatus → Bool
releases_block awaiting_payment = true
releases_block payment_processing = true
releases_block payment_failed = true
releases_block approved = true
releases_block _ = false

abbrev status_code : BookingStatus → ℕ
status_code pending = 0
status_code approved = 1
status_code awaiting_payment = 2
status_code payment_processing = 3
status_code paid = 4
status_code payment_failed = 5
status_code declined = 6
status_code expired = 7
status_code cancelled = 8
status_code refunded = 9

abbrev pub same_status : BookingStatus → BookingStatus → Bool
same_status a b = status_code a == status_code b

-- addHours
abbrev pub add_hours : (date hours : ℕ) → ℕ
add_hours date hours = date + hours * 60 * 60 * 1000
