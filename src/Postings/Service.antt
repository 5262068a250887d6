-- ===== src/Postings/Service.antt =====
-- backend/src/app/features/postings/postings.service.ts: publish, pause, unpause and archive.
use fit.Common.{ℕ, Bool, true, false, not, ◌&&◌, ◌||◌, Option, [], ◌∷◌, ltb, ◌==◌}
use fit.Store.{
  PostingStatus, draft, paused, archived, Posting, projection_invalidated, thumbnails_wanted,
  posting_booking_window,
}
use fit.Store.Postings.{Coordinate, degrees, not_finite}
use fit.Runtime.{
  no_posting_access, posting_not_found, only_draft_published, only_published_paused,
  only_paused_unpaused, already_archived, photo_count_invalid, daily_price_invalid,
  latitude_invalid, longitude_invalid, booking_availability_busy, bad_request, forbidden, not_found,
  M, Visit, visit, pure, require, throw_if, ◌>>=◌, ◌>>◌,
}
use fit.Cache.{with_flow_locks}
use fit.Bookings.Messages.{send}
use fit.Bookings.Validation.{find_posting, is_published}
use fit.Postings.Repository.{publish, archive, pause, unpause}

abbrev max_posting_photos : ℕ
max_posting_photos = 10

-- isValidCoordinate with the bounds `-limit` and `limit`.
abbrev pub is_valid_coordinate : Coordinate → (limit : ℕ) → Bool
is_valid_coordinate not_finite limit = false
is_valid_coordinate (degrees negative whole fraction) limit =
    ltb whole limit || (whole == limit && not fraction)

unfoldable pub require_owner_posting : (id owner_id : ℕ) → M Posting
require_owner_posting id owner_id = do
  found ← visit (find_posting id)
  posting ← require found (not_found posting_not_found)
  throw_if (not (posting.owner_id == owner_id)) (forbidden no_posting_access)
  pure posting

abbrev pub is_draft : PostingStatus → Bool
is_draft draft = true
is_draft _ = false

abbrev pub is_paused : PostingStatus → Bool
is_paused paused = true
is_paused _ = false

abbrev pub is_archived : PostingStatus → Bool
is_archived archived = true
is_archived _ = false

unfoldable pub assert_can_publish : Posting → M (Unit {0})
assert_can_publish posting = do
  throw_if (not (is_draft posting.status)) (bad_request only_draft_published)
  throw_if (ltb posting.photos 1 || ltb max_posting_photos posting.photos)
      (bad_request photo_count_invalid)
  throw_if (posting.pricing.daily == 0) (bad_request daily_price_invalid)
  throw_if (not (is_valid_coordinate posting.latitude 90)) (bad_request latitude_invalid)
  throw_if (not (is_valid_coordinate posting.longitude 180)) (bad_request longitude_invalid)

unfoldable pub assert_can_pause : Posting → M (Unit {0})
assert_can_pause posting =
    throw_if (not (is_published posting.status)) (bad_request only_published_paused)

unfoldable pub assert_can_unpause : Posting → M (Unit {0})
assert_can_unpause posting =
    throw_if (not (is_paused posting.status)) (bad_request only_paused_unpaused)

unfoldable pub assert_can_archive : Posting → M (Unit {0})
assert_can_archive posting = throw_if (is_archived posting.status) (bad_request already_archived)

-- The write with what follows it: `null` is an error, and the public page of the posting is rebuilt.
unfoldable pub write_and_announce : Visit (Option Posting) → M Posting
write_and_announce method = do
  found ← visit method
  changed ← require found (not_found posting_not_found)
  send (λ t. projection_invalidated changed.id)
  pure changed

-- enqueueThumbnailGeneration swallows the errors of the queue.
unfoldable pub with_thumbnails : Posting → M Posting
with_thumbnails posting = do send (λ t. thumbnails_wanted posting.id); pure posting

unfoldable pub publish_posting : (id owner_id : ℕ) → M Posting
publish_posting id owner_id = do
  posting ← require_owner_posting id owner_id
  assert_can_publish posting
  published_one ← write_and_announce (publish id owner_id)
  with_thumbnails published_one

unfoldable pub pause_locked : (id owner_id : ℕ) → M Posting
pause_locked id owner_id = do
  locked_posting ← require_owner_posting id owner_id
  assert_can_pause locked_posting
  write_and_announce (pause id owner_id)

unfoldable pub pause_posting : (id owner_id : ℕ) → M Posting
unfolding pause_locked
pause_posting id owner_id = do
  posting ← require_owner_posting id owner_id
  assert_can_pause posting
  with_flow_locks (posting_booking_window posting.id ∷ []) (pause_locked id owner_id)
      booking_availability_busy

unfoldable pub unpause_locked : (id owner_id : ℕ) → M Posting
unpause_locked id owner_id = do
  locked_posting ← require_owner_posting id owner_id
  assert_can_unpause locked_posting
  unpaused_one ← write_and_announce (unpause id owner_id)
  with_thumbnails unpaused_one

unfoldable pub unpause_posting : (id owner_id : ℕ) → M Posting
unfolding unpause_locked
unpause_posting id owner_id = do
  posting ← require_owner_posting id owner_id
  assert_can_unpause posting
  with_flow_locks (posting_booking_window posting.id ∷ []) (unpause_locked id owner_id)
      booking_availability_busy

unfoldable pub archive_posting : (id owner_id : ℕ) → M Posting
archive_posting id owner_id = do
  posting ← require_owner_posting id owner_id
  assert_can_archive posting
  write_and_announce (archive id owner_id)
