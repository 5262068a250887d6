-- ===== src/Postings/Blocks.antt =====
-- backend/src/app/features/postings/postings.repository.ts: the blocks that an owner writes, and what
-- takes the dates of a posting from the owner's side.
use fit.Common.{
  ℕ, Bool, true, false, not, ◌&&◌, Option, none, some, ◌∷◌, ltb, leb, ◌==◌, is_none, if◌then◌else◌,
  any, count_if, find, update, remove,
}
use fit.Store.{
  BookingStatus, pending, awaiting_payment, payment_processing, paid, Booking, BlockSource, owner,
  owner_note, Block,
}
use fit.Store.Search.{upsert}
use fit.Runtime.{record_missing, ok, Turn, Visit, transaction}
use fit.Runtime.Transaction.{write, query, give, or_raise, ◌>>=◌, ◌>>◌}
use fit.Bookings.Overlap.{overlaps, refers_to, rents}
use fit.Search.Enqueue.{enqueue_outbox}
use fit.Postings.Dates.{BlockDates}

abbrev pub is_owner : BlockSource → Bool
is_owner owner = true
is_owner _ = false

-- `where: { id: blockId, postingId, source: "owner" }`
abbrev pub is_owner_block : (posting_id block_id : ℕ) → Block → Bool
is_owner_block posting_id block_id b =
    b.id == block_id && b.posting_id == posting_id && is_owner b.source

unfoldable pub find_owner_availability_block : (posting_id block_id : ℕ) → Visit (Option Block)
find_owner_availability_block posting_id block_id t s =
    (ok (find (is_owner_block posting_id block_id) s.blocks), s)

abbrev pub new_block : (posting_id : ℕ) → BlockDates → Turn → Block
new_block posting_id input t = record {
  id = t.uuid 0;
  posting_id = posting_id;
  start_at = input.start_at;
  end_at = input.end_at;
  note = owner_note input.note;
  source = owner;
}

unfoldable pub create_owner_availability_block : (posting_id : ℕ) → BlockDates → Visit Block
unfolding enqueue_outbox
create_owner_availability_block posting_id input = transaction (do
  write (λ t s. record s { blocks = new_block posting_id input t ∷ s.blocks })
  enqueue_outbox 1 posting_id upsert
  (λ t. give (new_block posting_id input t) t))

abbrev pub changed_block : BlockDates → Block → Block
changed_block input b = record b {
  start_at = input.start_at;
  end_at = input.end_at;
  note = owner_note input.note;
}

-- The row is read again, by its id alone.
abbrev pub read_back : (block_id : ℕ) → Visit (Option Block)
read_back block_id = query λ t s. find (λ b. b.id == block_id) s.blocks

-- `result.count !== 1` gives `null`.
unfoldable pub update_owner_availability_block :
    (posting_id block_id : ℕ) → BlockDates → Visit (Option Block)
unfolding enqueue_outbox
update_owner_availability_block posting_id block_id input = transaction (do
  count ← query λ t s. count_if (is_owner_block posting_id block_id) s.blocks
  write λ t s. record s {
    blocks = update (is_owner_block posting_id block_id) (changed_block input) s.blocks;
  }
  if count == 1
      then (do
        found ← read_back block_id
        updated ← or_raise found record_missing
        enqueue_outbox 0 posting_id upsert
        give (some updated))
      else give none)

-- `result.count !== 1` gives `false`.
unfoldable pub delete_owner_availability_block : (posting_id block_id : ℕ) → Visit Bool
unfolding enqueue_outbox
delete_owner_availability_block posting_id block_id = transaction (do
  count ← query λ t s. count_if (is_owner_block posting_id block_id) s.blocks
  write λ t s. record s { blocks = remove (is_owner_block posting_id block_id) s.blocks }
  if count == 1 then (do enqueue_outbox 0 posting_id upsert; give true) else give false)

-- `where` of hasOwnerAvailabilityBlockOverlap; the excluded id is optional.
abbrev pub is_in_the_way : (posting_id start_at end_at : ℕ) → Option ℕ → Block → Bool
is_in_the_way posting_id start_at end_at excluded b =
    b.posting_id == posting_id
    && is_owner b.source
    && not (refers_to excluded b.id)
    && overlaps b.start_at b.end_at start_at end_at

unfoldable pub has_owner_availability_block_overlap :
    (posting_id start_at end_at : ℕ) → Option ℕ → Visit Bool
has_owner_availability_block_overlap posting_id start_at end_at excluded t s =
    (ok (any (is_in_the_way posting_id start_at end_at excluded) s.blocks), s)

-- `status: { in: ["pending", "awaiting_payment", "payment_processing", "paid"] }`
abbrev pub holds_dates : BookingStatus → Bool
holds_dates pending = true
holds_dates awaiting_payment = true
holds_dates payment_processing = true
holds_dates paid = true
holds_dates _ = false

-- `OR: [{ conversionReservationExpiresAt: null }, { … lte: now }]`
abbrev pub is_unreserved : (now : ℕ) → Option ℕ → Bool
is_unreserved now none = true
is_unreserved now (some reserved_until) = leb reserved_until now

abbrev pub is_active_hold : (posting_id start_at end_at now : ℕ) → Booking → Bool
is_active_hold posting_id start_at end_at now b =
    b.posting_id == posting_id
    && holds_dates b.status
    && is_none b.converted_at
    && ltb now b.hold_expires_at
    && is_unreserved now b.conversion_reservation_expires_at
    && overlaps b.start_at b.end_at start_at end_at

unfoldable pub has_active_booking_availability_conflict :
    (posting_id start_at end_at : ℕ) → Visit Bool
has_active_booking_availability_conflict posting_id start_at end_at t s =
    (ok (any (is_active_hold posting_id start_at end_at t.now) s.bookings), s)

unfoldable pub has_renting_availability_conflict : (posting_id start_at end_at : ℕ) → Visit Bool
has_renting_availability_conflict posting_id start_at end_at t s =
    (ok (any (rents posting_id start_at end_at) s.rentings), s)
