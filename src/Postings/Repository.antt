-- ===== src/Postings/Repository.antt =====
-- backend/src/app/features/postings/postings.repository.ts: the changes of a posting's status, each with
-- the rows of the search outbox and the counts of the owner's profile in one transaction.
use fit.Common.{
  ℕ, Bool, true, false, ◌&&◌, Option, none, some, ◌==◌, is_none, count_if, find, update,
}
use fit.Store.{PostingStatus, published, paused, archived, Posting, Store}
use fit.Store.Postings.{AvailabilityStatus, available, limited, unavailable, Profile}
use fit.Store.Search.{OutboxOperation, upsert, delete}
use fit.Runtime.{Result, ok, Turn, Visit, transaction}
use fit.Runtime.Transaction.{write, give, ◌>>◌}
use fit.Bookings.Validation.{is_published}
use fit.Search.Enqueue.{enqueue_outbox}

abbrev pub has_posting_id : ℕ → Posting → Bool
has_posting_id id p = p.id == id

-- `status: { in: ["draft", "published", "paused"] }`
abbrev pub is_kept : PostingStatus → Bool
is_kept archived = false
is_kept _ = true

abbrev pub is_open : AvailabilityStatus → Bool
is_open available = true
is_open limited = true
is_open unavailable = false

-- The two counts of syncOwnerPostingCounts.
abbrev pub counts_in_total : (owner_id : ℕ) → Posting → Bool
counts_in_total owner_id p = p.owner_id == owner_id && is_kept p.status

abbrev pub counts_as_available : (owner_id : ℕ) → Posting → Bool
counts_as_available owner_id p =
    p.owner_id == owner_id
    && is_published p.status
    && is_open p.availability_status
    && is_none p.archived_at

abbrev pub is_profile_of : (owner_id : ℕ) → Profile → Bool
is_profile_of owner_id q = q.user_id == owner_id

abbrev pub counted_row : (owner_id : ℕ) → Store → Profile → Profile
counted_row owner_id s q = record q {
  rent_postings_count = count_if (counts_in_total owner_id) s.postings;
  available_rent_postings_count = count_if (counts_as_available owner_id) s.postings;
}

unfoldable pub sync_owner_posting_counts : (owner_id : ℕ) → Visit (Unit {0})
sync_owner_posting_counts owner_id = write λ t s. record s {
  profiles = update (is_profile_of owner_id) (counted_row owner_id s) s.profiles;
}

unfoldable pub find_posting_row : ℕ → Store → Option Posting
find_posting_row id s = find (has_posting_id id) s.postings

abbrev pub write_posting : ℕ → (Turn → Posting → Posting) → Visit (Unit {0})
write_posting id f =
    write λ t s. record s { postings = update (has_posting_id id) (f t) s.postings }

-- The transaction of the methods below on the row that they find.
unfoldable pub change_found :
    (id owner_id : ℕ)
    → OutboxOperation
    → (Turn → Posting → Posting)
    → Posting
    → Visit (Option Posting)
unfolding enqueue_outbox sync_owner_posting_counts
change_found id owner_id operation f existing = transaction (do
  write_posting id f
  enqueue_outbox 0 id operation
  sync_owner_posting_counts owner_id
  (λ t. give (some (f t existing)) t))

-- Where there is no row, the update throws P2025, which is caught: the result is `null`.
unfoldable pub change_posting :
    (id owner_id : ℕ) → OutboxOperation → (Turn → Posting → Posting) → Visit (Option Posting)
unfolding find_posting_row change_found
change_posting id owner_id operation f t s = changed (find_posting_row id s)
  where
    changed : Option Posting → Result (Option Posting) × Store
    changed none = (ok none, s)
    changed (some existing) = change_found id owner_id operation f existing t s

abbrev pub published_row : Turn → Posting → Posting
published_row t p = record p {
  status = published;
  published_at = some t.later;
  paused_at = none;
  archived_at = none;
}

abbrev pub archived_row : Turn → Posting → Posting
archived_row t p = record p { status = archived; paused_at = none; archived_at = some t.later }

abbrev pub paused_row : Turn → Posting → Posting
paused_row t p = record p { status = paused; paused_at = some t.later; archived_at = none }

abbrev pub unpaused_row : Turn → Posting → Posting
unpaused_row t p = record p { status = published; paused_at = none; archived_at = none }

unfoldable pub publish : (id owner_id : ℕ) → Visit (Option Posting)
unfolding change_posting
publish id owner_id = change_posting id owner_id upsert published_row

unfoldable pub archive : (id owner_id : ℕ) → Visit (Option Posting)
unfolding change_posting
archive id owner_id = change_posting id owner_id delete archived_row

unfoldable pub pause : (id owner_id : ℕ) → Visit (Option Posting)
unfolding change_posting
pause id owner_id = change_posting id owner_id delete paused_row

unfoldable pub unpause : (id owner_id : ℕ) → Visit (Option Posting)
unfolding change_posting
unpause id owner_id = change_posting id owner_id upsert unpaused_row
