-- ===== src/Postings/Tests.antt =====
-- Calls of an owner on the sample store, and the theorems on them at these runs.
use fit.Common.{
  ℕ, ◌+◌, ◌==◌, if◌then◌else◌, ◌≡◌, refl, Bool, false, none, some, List, [], ◌∷◌, ◌⊎◌, count_if,
  find, map,
}
use fit.Common.Text.{Text}
use mathlib.Core.List.{Perm}
use fit.Store.{PostingStatus, draft, published, paused, owner, Store}
use fit.Runtime.{
  ok, err, bad_request, conflict, only_draft_published, blocks_overlap,
  block_conflicts_with_request, World, lift,
}
use fit.Runtime.Transaction.{query, or_raise, give}
use fit.Runtime.Transaction as Body
use fit.Runtime.Logic.{Steady}
use fit.Runtime.Rely.{Outcome}
use fit.Bookings.Machine.Invariant.{Inv}
use fit.Bookings.Normalize.{trimmed_or_null}
use fit.Bookings.Tests.{runs}
use fit.Postings.Repository.{
  find_posting_row, sync_owner_posting_counts, change_found, change_posting, publish, archive,
  pause, unpause,
}
use fit.Postings.Service.{
  require_owner_posting, assert_can_publish, assert_can_pause, assert_can_unpause,
  assert_can_archive, write_and_announce, with_thumbnails, publish_posting, pause_locked,
  pause_posting, unpause_locked, unpause_posting, archive_posting,
}
use fit.Postings.Dates.{
  BlockInput, BlockDates, valid_blocks, sort_blocks, normalize_availability_blocks,
  normalize_single_availability_block,
}
use fit.Postings.Dates.Apart.{AllApart, normalize_availability_blocks_exact}
use fit.Postings.Blocks.{
  find_owner_availability_block, create_owner_availability_block, update_owner_availability_block,
  delete_owner_availability_block, has_owner_availability_block_overlap,
  has_active_booking_availability_conflict, has_renting_availability_conflict,
}
use fit.Postings.Availability.{
  require_owner_posting_for_availability, assert_existing_owner_availability_block, assert_no,
  assert_availability_block_can_be_written, create_block_locked, update_block_locked,
  delete_block_locked, create_block, update_block, delete_block,
}
use fit.Postings.Frame.Holds.{KeepsHold, creates, call, call_keeps_holds}
use fit.Postings.Counts.{Counted}
use fit.Postings.Counts.Methods.{pauses, perform, perform-Counted}
use fit.Postings.Lifecycle.{HasStatus, Transition}
use fit.Postings.Lifecycle.Methods.{perform-Transition}
use fit.Postings.Window.{Disjoint, Unrented, Respects, create_block_locked-Disjoint}
use fit.Samples.{day, store, posting, hold, turn, world}
use fit.Samples.Valid.{store-Inv}

unfoldable owner_runs : Unit {0}
unfolding runs lift query or_raise give Body.◌>>=◌ find_posting_row sync_owner_posting_counts
    change_found change_posting publish archive pause unpause require_owner_posting
    assert_can_publish assert_can_pause assert_can_unpause assert_can_archive write_and_announce
    with_thumbnails publish_posting pause_locked pause_posting unpause_locked unpause_posting
    archive_posting trimmed_or_null valid_blocks sort_blocks normalize_availability_blocks
    normalize_single_availability_block find_owner_availability_block
    create_owner_availability_block update_owner_availability_block delete_owner_availability_block
    has_owner_availability_block_overlap has_active_booking_availability_conflict
    has_renting_availability_conflict require_owner_posting_for_availability
    assert_existing_owner_availability_block assert_no assert_availability_block_can_be_written
    create_block_locked update_block_locked delete_block_locked create_block update_block
    delete_block
owner_runs = tt

abbrev statuses : Store → List PostingStatus
statuses s = map (λ p. p.status) s.postings

abbrev safe_text : Text → Bool
safe_text note = false

-- Two days from the day `n`.
abbrev input : (n : ℕ) → BlockInput
input n = record { start_at = some (day n); end_at = some (day (n + 2)); note = none }

abbrev dates : (n : ℕ) → BlockDates
dates n = record { start_at = day n; end_at = day (n + 2); note = none }

pauses_and_resumes :
    (statuses (pause_posting 7 70 (world 5)).1.store ≡ paused ∷ [])
    × (statuses (unpause_posting 7 70 (pause_posting 7 70 (world 5)).1).1.store ≡ published ∷ [])
unfolding owner_runs
pauses_and_resumes = (refl, refl)

publish_refused : (publish_posting 7 70 (world 5)).0 ≡ err (bad_request only_draft_published)
unfolding owner_runs
publish_refused = refl

-- The dates of a request that waits cannot be blocked.
block_refused :
    (create_block safe_text 7 70 (input 11) (world 5)).0
    ≡ err (conflict block_conflicts_with_request)
unfolding owner_runs
block_refused = refl

block_created :
    (map (λ b. b.start_at) (create_block safe_text 7 70 (input 14) (world 5)).1.store.blocks
      ≡ day 14 ∷ day 20 ∷ [])
    × (map (λ b. b.source) (create_block safe_text 7 70 (input 14) (world 5)).1.store.blocks
        ≡ owner ∷ hold.source ∷ [])
unfolding owner_runs
block_created = (refl, refl)

-- Someone archives the posting of a draft between the check of `publish` and its write.
abbrev archived_meanwhile : World
archived_meanwhile = record {
  store = record store { postings = record posting { status = draft } ∷ [] };
  turns =
      λ i. if i == 1 then record (turn 6) { others = λ s. (archive 7 70 (turn 6) s).1 } else turn 5;
  moment = 0;
}

-- The archived posting is published.
publish_revives : statuses (publish_posting 7 70 archived_meanwhile).1.store ≡ published ∷ []
unfolding owner_runs
publish_revives = refl

normalize_availability_blocks_exact_example :
    let bs = dates 14 ∷ dates 11 ∷ [] in
    Perm (sort_blocks bs) bs
    × (((normalize_availability_blocks (input 14 ∷ input 11 ∷ []) ≡ ok (sort_blocks bs))
          × AllApart (sort_blocks bs))
        ⊎ ((normalize_availability_blocks (input 14 ∷ input 11 ∷ [])
              ≡ err (bad_request blocks_overlap))
            × ¬ (AllApart (sort_blocks bs))))
unfolding owner_runs
normalize_availability_blocks_exact_example =
    normalize_availability_blocks_exact (input 14 ∷ input 11 ∷ []) (dates 14 ∷ dates 11 ∷ []) refl

hold-Steady : Steady (λ s. KeepsHold hold s × Inv s) (world 5)
unfolding KeepsHold find
hold-Steady = record { here = (refl, store-Inv); others = λ i s h. h }

call_keeps_holds_example :
    let after = (call safe_text (creates 7 70 (input 14)) (world 5)).1.store in
    KeepsHold hold after × Inv after
call_keeps_holds_example =
    call_keeps_holds safe_text (creates 7 70 (input 14)) hold (world 5) hold-Steady

-- The one posting of the owner is published and available.
abbrev counted_world : World
counted_world = record (world 5) {
  store = record store {
    profiles =
        record { user_id = 70; rent_postings_count = 1; available_rent_postings_count = 1 } ∷ [];
  };
}

counted_world-Steady : Steady (Counted (λ id. 70)) counted_world
unfolding Counted count_if
counted_world-Steady = record { here = (((refl, refl), tt), (refl, tt)); others = λ i s h. h }

perform-Counted_example : Counted (λ id. 70) (perform pauses 7 70 counted_world).1.store
perform-Counted_example = perform-Counted (λ id. 70) pauses 7 70 counted_world counted_world-Steady

is_published_now : HasStatus 7 published store
unfolding HasStatus find
is_published_now = refl

perform-Transition_example :
    Outcome
      (λ p s. (b : PostingStatus) × (Transition pauses published b × HasStatus 7 b s))
      (HasStatus 7 published)
      (perform pauses 7 70 (world 5)).0
      (perform pauses 7 70 (world 5)).1.store
perform-Transition_example =
    perform-Transition pauses 7 70 published (world 5) (λ a i s h. h) is_published_now

window_respected : Respects 7 (day 14) (day 16) (world 5).turns
window_respected = record { disjoint = λ i s h. h; clear = λ i s h. h; unrented = λ i s h. h }

store-Disjoint : Disjoint store
unfolding Disjoint
store-Disjoint = (tt, tt)

create_block_locked-Disjoint_example :
    Outcome
      (λ b s.
        (Disjoint s × Unrented 7 (day 14) (day 16) s)
        × ((b.start_at ≡ day 14) × (b.end_at ≡ day 16)))
      Disjoint
      (create_block_locked 7 (dates 14) (world 5)).0
      (create_block_locked 7 (dates 14) (world 5)).1.store
create_block_locked-Disjoint_example =
    create_block_locked-Disjoint 7 (dates 14) (world 5) window_respected store-Disjoint
