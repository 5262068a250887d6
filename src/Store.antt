-- ===== src/Store.antt =====
-- The tables of backend/prisma/schema.prisma that the booking and renting code reads and writes, as
-- lists of rows, with the lock keys of Redis and the messages left for other parts.
-- UUIDs are numbers: they are only compared. A time is a count of milliseconds from the earliest
-- date that a `Date` can hold. Money is a number of cents. Left out, since no code below reads them:
-- `updatedAt`, the `createdAt` of a renting and of a block, the name and the other texts of a
-- posting, whose photos are counted. The relations of a row, such as the renting of a booking request, are searches.
pub mod Payments
pub mod Postings
pub mod Search
use fit.Common.{ℕ, Bool, Option, List, []}
use fit.Common.Text.{Text}
use fit.Store.Payments.{Accounts}
use fit.Store.Postings.{AvailabilityStatus, Coordinate, Profile}
use fit.Store.Search.{SearchOutbox, ReindexRun}

pub data BookingStatus : Type 0 where
  pending approved awaiting_payment payment_processing paid : BookingStatus
  payment_failed declined expired cancelled refunded : BookingStatus

-- A number of the language, as far as `Number.isInteger` and comparisons tell.
-- `negative n` is -(n + 1).
pub data JsNumber : Type 0 where
  whole : ℕ → JsNumber
  negative : ℕ → JsNumber
  fractional : JsNumber

pub record Pricing : Type 0 where
  pub currency : ℕ
  pub daily : ℕ
  pub hourly : Option ℕ
  pub weekly : Option ℕ
  pub monthly : Option ℕ

pub data PostingStatus : Type 0 where
  draft published paused archived : PostingStatus

pub record Posting : Type 0 where
  pub id : ℕ
  pub owner_id : ℕ
  pub status : PostingStatus
  pub published_at : Option ℕ
  pub paused_at : Option ℕ
  pub archived_at : Option ℕ
  pub availability_status : AvailabilityStatus
  pub max_booking_duration_days : Option ℕ
  pub pricing : Pricing
  pub photos : ℕ
  pub latitude : Coordinate
  pub longitude : Coordinate

-- The columns that a create and an update of a booking request write together.
pub record Terms : Type 0 where
  pub start_at : ℕ
  pub end_at : ℕ
  pub duration_days : ℕ
  pub guest_count : JsNumber
  pub contact_name : Text
  pub contact_email : Text
  pub contact_phone_number : Option Text
  pub note : Option Text
  pub pricing_currency : ℕ
  pub pricing_snapshot : Pricing
  pub daily_price_amount : ℕ
  pub estimated_total : ℕ

pub record Booking : Type 0 where
  pub id : ℕ
  pub posting_id : ℕ
  pub renter_id : ℕ
  pub owner_id : ℕ
  pub status : BookingStatus
  pub terms : Terms
  pub open terms use *
  pub decision_note : Option Text
  pub approved_at : Option ℕ
  pub payment_required_at : Option ℕ
  pub payment_failed_at : Option ℕ
  pub cancelled_at : Option ℕ
  pub refunded_at : Option ℕ
  pub declined_at : Option ℕ
  pub expired_at : Option ℕ
  pub converted_at : Option ℕ
  pub conversion_reserved_at : Option ℕ
  pub conversion_reservation_expires_at : Option ℕ
  pub hold_expires_at : ℕ
  pub hold_block_id : Option ℕ
  pub payment_reconciliation_required : Bool
  pub created_at : ℕ

pub data BlockSource : Type 0 where
  owner booking_hold renting : BlockSource

-- `booking_note` is the note "Renting confirmed from booking request: …" or "Booking paid
-- reservation: …" with the id that it names; `owner_note` is any other text.
pub data BlockNote : Type 0 where
  booking_note : ℕ → BlockNote
  owner_note : Option Text → BlockNote

pub record Block : Type 0 where
  pub id : ℕ
  pub posting_id : ℕ
  pub start_at : ℕ
  pub end_at : ℕ
  pub note : BlockNote
  pub source : BlockSource

pub data RentingStatus : Type 0 where
  confirmed : RentingStatus

pub record Renting : Type 0 where
  pub id : ℕ
  pub posting_id : ℕ
  pub booking_request_id : ℕ
  pub renter_id : ℕ
  pub owner_id : ℕ
  pub status : RentingStatus
  pub start_at : ℕ
  pub end_at : ℕ
  pub duration_days : ℕ
  pub guest_count : JsNumber
  pub pricing_currency : ℕ
  pub pricing_snapshot : Pricing
  pub daily_price_amount : ℕ
  pub estimated_total : ℕ
  pub confirmed_at : ℕ

-- The keys of `flowLockKeys`, a constructor for each template.
pub data FlowKey : Type 0 where
  booking_request_decision : ℕ → FlowKey
  booking_request_state : ℕ → FlowKey
  booking_request_convert : ℕ → FlowKey
  booking_request_cap : ℕ → ℕ → FlowKey
  posting_booking_window : ℕ → FlowKey

-- A Redis string under `lock:…` with its time to live.
pub record LockEntry : Type 0 where
  pub key : FlowKey
  pub token : ℕ
  pub expires_at : ℕ

-- A one-time code under `auth:otp:…` with its time to live, and the pause before the next. The purpose
-- and the subject in lower case are one number: they are only compared.
pub record CodeEntry : Type 0 where
  pub key : ℕ
  pub code : Text
  pub attempts_remaining : ℕ
  pub expires_at : ℕ

pub record CooldownEntry : Type 0 where
  pub key : ℕ
  pub expires_at : ℕ

-- What the code leaves for the analytics, the public cache and the thumbnails.
pub data Message : Type 0 where
  booking_requested : (posting_id owner_id occurred_at estimated_total : ℕ) → Message
  booking_approved booking_declined booking_expired payment_failed_event :
      (posting_id owner_id occurred_at : ℕ) → Message
  refund_recorded : (posting_id owner_id occurred_at refunded_amount : ℕ) → Message
  renting_confirmed : (posting_id owner_id occurred_at estimated_total : ℕ) → Message
  projection_invalidated thumbnails_wanted : (posting_id : ℕ) → Message

pub record Store : Type 0 where
  pub bookings : List Booking
  pub blocks : List Block
  pub rentings : List Renting
  pub postings : List Posting
  pub locks : List LockEntry
  pub sent : List Message
  pub accounts : Accounts
  pub codes : List CodeEntry
  pub cooldowns : List CooldownEntry
  pub profiles : List Profile
  pub outbox : List SearchOutbox
  pub reindex_runs : List ReindexRun

abbrev no_accounts : Accounts
no_accounts = record {
  payments = [];
  attempts = [];
  refunds = [];
  payouts = [];
  ledger = [];
  webhook_events = [];
}

abbrev pub no_rows : Store
no_rows = record {
  bookings = [];
  blocks = [];
  rentings = [];
  postings = [];
  locks = [];
  sent = [];
  accounts = no_accounts;
  codes = [];
  cooldowns = [];
  profiles = [];
  outbox = [];
  reindex_runs = [];
}
