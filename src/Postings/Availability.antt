-- ===== src/Postings/Availability.antt =====
-- backend/src/app/features/postings/postings.service.ts: how an owner blocks dates of a posting. What the
-- content check says of a text is a parameter.
use fit.Common.{ℕ, Bool, false, not, Option, none, some, [], ◌∷◌, ◌==◌, if◌then◌else◌}
use fit.Common.Text.{Text}
use fit.Store.{Posting, Block, projection_invalidated, posting_booking_window}
use fit.Runtime.{
  Error, posting_not_found, blocks_overlap, block_conflicts_with_request,
  block_conflicts_with_renting, block_not_found, block_changed, unsafe_text, availability_busy,
  bad_request, conflict, not_found, M, Visit, visit, pure, require, throw_if, lift, ◌>>=◌, ◌>>◌,
}
use fit.Cache.{with_flow_locks}
use fit.Bookings.Messages.{send}
use fit.Bookings.Validation.{find_posting}
use fit.Postings.Dates.{BlockInput, BlockDates, normalize_single_availability_block}
use fit.Postings.Blocks.{
  find_owner_availability_block, create_owner_availability_block, update_owner_availability_block,
  delete_owner_availability_block, has_owner_availability_block_overlap,
  has_active_booking_availability_conflict, has_renting_availability_conflict,
}

abbrev is_of : (owner_id : ℕ) → Option Posting → Option Posting
is_of owner_id none = none
is_of owner_id (some p) = if p.owner_id == owner_id then some p else none

-- `!posting || posting.ownerId !== ownerId` throws.
unfoldable pub require_owner_posting_for_availability : (id owner_id : ℕ) → M Posting
require_owner_posting_for_availability id owner_id = do
  found ← visit (find_posting id)
  require (is_of owner_id found) (not_found posting_not_found)

unfoldable pub assert_existing_owner_availability_block : (posting_id block_id : ℕ) → M (Unit {0})
assert_existing_owner_availability_block posting_id block_id = do
  found ← visit (find_owner_availability_block posting_id block_id)
  block ← require found (not_found block_not_found)
  pure tt

unfoldable pub assert_no : Visit Bool → Error → M (Unit {0})
assert_no query e = do found ← visit query; throw_if found e

unfoldable pub assert_availability_block_can_be_written :
    (posting_id : ℕ) → BlockDates → Option ℕ → M (Unit {0})
unfolding assert_no
assert_availability_block_can_be_written posting_id block excluded = do
  assert_no (has_owner_availability_block_overlap posting_id block.start_at block.end_at excluded)
      (bad_request blocks_overlap)
  assert_no (has_active_booking_availability_conflict posting_id block.start_at block.end_at)
      (conflict block_conflicts_with_request)
  assert_no (has_renting_availability_conflict posting_id block.start_at block.end_at)
      (conflict block_conflicts_with_renting)

-- The callbacks under the window's lock.
unfoldable pub create_block_locked : (posting_id : ℕ) → BlockDates → M Block
unfolding assert_availability_block_can_be_written
create_block_locked posting_id block = do
  assert_availability_block_can_be_written posting_id block none
  created ← visit (create_owner_availability_block posting_id block)
  send (λ t. projection_invalidated posting_id)
  pure created

unfoldable pub update_block_locked : (posting_id block_id : ℕ) → BlockDates → M Block
unfolding assert_existing_owner_availability_block assert_availability_block_can_be_written
update_block_locked posting_id block_id block = do
  assert_existing_owner_availability_block posting_id block_id
  assert_availability_block_can_be_written posting_id block (some block_id)
  found ← visit (update_owner_availability_block posting_id block_id block)
  updated ← require found (conflict block_changed)
  send (λ t. projection_invalidated posting_id)
  pure updated

unfoldable pub delete_block_locked : (posting_id block_id : ℕ) → M (Unit {0})
delete_block_locked posting_id block_id = do
  deleted ← visit (delete_owner_availability_block posting_id block_id)
  throw_if (not deleted) (not_found block_not_found)
  send (λ t. projection_invalidated posting_id)

unfoldable pub delete_block : (id owner_id block_id : ℕ) → M (Unit {0})
unfolding require_owner_posting_for_availability delete_block_locked
delete_block id owner_id block_id = do
  posting ← require_owner_posting_for_availability id owner_id
  with_flow_locks (posting_booking_window posting.id ∷ []) (delete_block_locked posting.id block_id)
      availability_busy

module _ (is_unsafe : Text → Bool) where
  -- assertSafeAvailabilityBlockContent
  abbrev note_is_unsafe : Option Text → Bool
  note_is_unsafe none = false
  note_is_unsafe (some note) = is_unsafe note

  unfoldable pub create_block : (id owner_id : ℕ) → BlockInput → M Block
  unfolding require_owner_posting_for_availability create_block_locked
  create_block id owner_id input = do
    posting ← require_owner_posting_for_availability id owner_id
    block ← lift (normalize_single_availability_block input)
    throw_if (note_is_unsafe block.note) (bad_request unsafe_text)
    with_flow_locks (posting_booking_window posting.id ∷ []) (create_block_locked posting.id block)
        availability_busy

  unfoldable pub update_block : (id owner_id block_id : ℕ) → BlockInput → M Block
  unfolding require_owner_posting_for_availability update_block_locked
  update_block id owner_id block_id input = do
    posting ← require_owner_posting_for_availability id owner_id
    block ← lift (normalize_single_availability_block input)
    throw_if (note_is_unsafe block.note) (bad_request unsafe_text)
    with_flow_locks (posting_booking_window posting.id ∷ [])
        (update_block_locked posting.id block_id block) availability_busy
