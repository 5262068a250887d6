-- ===== src/Bookings/Expiry.antt =====
-- Holds that run out: `listExpiredCandidates` and `expire` of bookings.repository.ts, and the worker
-- backend/src/app/workers/bookings/booking-expiry.worker.ts.
use fit.Common.{
  ℕ, Bool, true, false, not, ◌&&◌, ◌||◌, Option, none, some, List, [], ◌∷◌, ltb, leb, ◌==◌,
  if◌then◌else◌, is_some, is_none, count_if, update, remove, select, take, length,
}
use fit.Store.{expired, Booking, Block, Store, booking_expired, projection_invalidated}
use fit.Runtime.{ok, Turn, M, Visit, visit, pure, catch, ◌>>=◌, ◌>>◌}
use fit.Bookings.Model.{can_expire, releases_block, same_status}
use fit.Bookings.Overlap.{refers_to}
use fit.Bookings.Repository.{has_id, find_booking}
use fit.Bookings.Messages.{send, enqueue_search_sync}

-- `OR: [{ conversionReservationExpiresAt: null }, { conversionReservationExpiresAt: { lte: now } }]`
abbrev pub reservation_over : Option ℕ → ℕ → Bool
reservation_over none now = true
reservation_over (some expires_at) now = leb expires_at now

abbrev pub is_candidate : ℕ → Booking → Bool
is_candidate now b =
    can_expire b.status
    && is_none b.converted_at
    && reservation_over b.conversion_reservation_expires_at now
    && leb b.hold_expires_at now

-- `orderBy: [{ holdExpiresAt: "asc" }, { createdAt: "asc" }]`; of rows with the same times, whose order
-- the database leaves open, the first of the table comes first.
is_before : Booking → Booking → Bool
is_before a b =
    ltb a.hold_expires_at b.hold_expires_at
    || (a.hold_expires_at == b.hold_expires_at && leb a.created_at b.created_at)

insert_candidate : Booking → List Booking → List Booking
unfolding is_before
insert_candidate b [] = b ∷ []
insert_candidate b (c ∷ cs) = if is_before b c then b ∷ c ∷ cs else c ∷ insert_candidate b cs

unfoldable pub sort_candidates : List Booking → List Booking
unfolding insert_candidate
sort_candidates [] = []
sort_candidates (b ∷ bs) = insert_candidate b (sort_candidates bs)

unfoldable pub list_expired_candidates : ℕ → Visit (List Booking)
list_expired_candidates limit t s =
    (ok (take limit (sort_candidates (select (is_candidate t.now) s.bookings))), s)

-- The `where` of `updateMany` in `expire`.
abbrev pub is_expirable : Booking → (later : ℕ) → Booking → Bool
is_expirable existing later b =
    has_id existing.id b
    && same_status b.status existing.status
    && leb b.hold_expires_at later
    && reservation_over b.conversion_reservation_expires_at later

abbrev pub expire_row : (later : ℕ) → Booking → Booking
expire_row later b = record b {
  status = expired;
  expired_at = some later;
  hold_block_id = none;
  conversion_reserved_at = none;
  conversion_reservation_expires_at = none;
}

abbrev pub blocks_after : Booking → List Block → List Block
blocks_after existing blocks =
    if releases_block existing.status && is_some existing.hold_block_id
    then remove (λ k. refers_to existing.hold_block_id k.id) blocks
    else blocks

unfoldable pub expire_found : Turn → Store → Option Booking → Bool × Store
expire_found t s none = (false, s)
expire_found t s (some existing) =
    if not (is_candidate t.now existing)
    then (false, s)
    else if not (count_if (is_expirable existing t.later) s.bookings == 1)
    then (
      false,
      record s {
        bookings = update (is_expirable existing t.later) (expire_row t.later) s.bookings;
      },
    )
    else (
      true,
      record s {
        bookings = update (is_expirable existing t.later) (expire_row t.later) s.bookings;
        blocks = blocks_after existing s.blocks;
      },
    )

unfoldable pub expire : ℕ → Visit Bool
unfolding expire_found
expire id t s = let (done, s') = expire_found t s (find_booking id s) in (ok done, s')

-- The round of the worker for one candidate.
unfoldable pub expire_job : Booking → M (Unit {0})
expire_job job = do
  done ← visit (expire job.id)
  if done
      then (do
        send (λ t. booking_expired job.posting_id job.owner_id t.now)
        send (λ t. projection_invalidated job.posting_id)
        enqueue_search_sync job.posting_id)
      else pure tt

-- A job that throws is logged, and the others follow.
unfoldable pub expire_jobs : List Booking → M (Unit {0})
expire_jobs [] = pure tt
expire_jobs (job ∷ jobs) = do catch (expire_job job) (λ error. pure tt); expire_jobs jobs

unfoldable pub run_once : ℕ → M ℕ
run_once batch_size = do
  jobs ← visit (list_expired_candidates batch_size)
  expire_jobs jobs
  pure (length jobs)
