-- ===== src/Search/Outbox.antt =====
-- The methods of backend/src/app/features/postings/postings.repository.ts on the search outbox. A claim is
-- `processing_at`: it is given up after five minutes.
use fit.Common.{
  ℕ, ◌+◌, ◌*◌, Bool, true, false, not, ◌&&◌, ◌||◌, Option, none, some, List, [], ◌∷◌, ltb, leb,
  ◌==◌, is_none, if◌then◌else◌, take, any, count_if, find, select, update, map,
}
use Prim.Native.Nat.{◌^◌}
use fit.Common.Text.{Text}
use fit.Store.{Store}
use fit.Store.Search.{SearchOutbox}
use fit.Runtime.{Result, ok, err, Turn, Visit, record_missing}
use fit.Runtime.Transaction.{write}

abbrev pub same : Option ℕ → Option ℕ → Bool
same none none = true
same none (some b) = false
same (some a) none = false
same (some a) (some b) = a == b

abbrev pub has_entry_id : ℕ → SearchOutbox → Bool
has_entry_id id e = e.id == id

-- `id: { in: ids }`
abbrev pub is_among : List ℕ → SearchOutbox → Bool
is_among ids e = any (λ id. id == e.id) ids

-- `update({ where: { id }, data })`
unfoldable pub update_entry : ℕ → (Turn → SearchOutbox → SearchOutbox) → Visit (Unit {0})
update_entry id f t s =
    if any (has_entry_id id) s.outbox
    then (ok tt, record s { outbox = update (has_entry_id id) (f t) s.outbox })
    else (err record_missing, s)

-- `updateMany({ where, data })`
unfoldable pub update_entries :
    (SearchOutbox → Bool) → (Turn → SearchOutbox → SearchOutbox) → Visit (Unit {0})
update_entries p f = write λ t s. record s { outbox = update p (f t) s.outbox }

abbrev pub claim_milliseconds : ℕ
claim_milliseconds = 5 * 60 * 1000

-- `processing_at IS NULL OR processing_at < now - 5 minutes`
abbrev pub is_claimable : (now : ℕ) → Option ℕ → Bool
is_claimable now none = true
is_claimable now (some since) = ltb (since + claim_milliseconds) now

abbrev pub is_ready : (now : ℕ) → SearchOutbox → Bool
is_ready now e =
    is_none e.processed_at
    && is_none e.dead_lettered_at
    && leb e.available_at now
    && is_claimable now e.processing_at

-- `ORDER BY available_at ASC, created_at ASC`
abbrev pub comes_before : SearchOutbox → SearchOutbox → Bool
comes_before d e =
    ltb d.available_at e.available_at
    || (d.available_at == e.available_at && leb d.created_at e.created_at)

abbrev pub insert_entry : SearchOutbox → List SearchOutbox → List SearchOutbox
insert_entry e [] = e ∷ []
insert_entry e (d ∷ ds) =
    let rest = insert_entry e ds in if comes_before e d then e ∷ d ∷ ds else d ∷ rest

unfoldable pub sort_entries : List SearchOutbox → List SearchOutbox
sort_entries [] = []
sort_entries (e ∷ es) = insert_entry e (sort_entries es)

abbrev pub if_found : Option SearchOutbox → List SearchOutbox → List SearchOutbox
if_found none rest = rest
if_found (some e) rest = e ∷ rest

-- The rows of the ids, in their order.
unfoldable pub rows_of : List ℕ → List SearchOutbox → List SearchOutbox
rows_of [] rows = []
rows_of (id ∷ ids) rows = if_found (find (has_entry_id id) rows) (rows_of ids rows)

abbrev pub ids_of : List SearchOutbox → List ℕ
ids_of = map λ e. e.id

unfoldable pub ready_ids : (limit : ℕ) → (now : ℕ) → List SearchOutbox → List ℕ
unfolding sort_entries
ready_ids limit now rows = ids_of (take limit (sort_entries (select (is_ready now) rows)))

abbrev pub claim_row : (now : ℕ) → SearchOutbox → SearchOutbox
claim_row now e = record e { processing_at = some now }

-- claimSearchOutboxBatch. Nothing is locked by others within a visit, so that nothing is skipped.
unfoldable pub claim_search_outbox_batch : (limit : ℕ) → Visit (List SearchOutbox)
unfolding ready_ids rows_of
claim_search_outbox_batch limit t s =
    let ids = ready_ids limit t.now s.outbox in
    let rows = update (is_among ids) (claim_row t.now) s.outbox in
    (ok (rows_of ids rows), record s { outbox = rows })

-- `Math.min(300, 2 ** Math.min(attempts, 8))`
abbrev pub backoff_seconds : (attempts : ℕ) → ℕ
backoff_seconds attempts =
    let waited = 2 ^ (if leb attempts 8 then attempts else 8) in
    if leb waited 300 then waited else 300

abbrev pub retry_row : (attempts : ℕ) → Text → Turn → SearchOutbox → SearchOutbox
retry_row attempts message t e = record e {
  publish_attempts = e.publish_attempts + 1;
  processing_at = none;
  available_at = t.later + backoff_seconds attempts * 1000;
  last_error = some (take 2048 message);
}

unfoldable pub mark_search_outbox_publish_retry : (id attempts : ℕ) → Text → Visit (Unit {0})
unfolding update_entry
mark_search_outbox_publish_retry id attempts message = update_entry id (retry_row attempts message)

abbrev pub index_row : Turn → SearchOutbox → SearchOutbox
index_row t e = record e { indexed_at = some t.later; last_error = none }

unfoldable pub mark_search_outbox_indexed : (id : ℕ) → Visit (Unit {0})
unfolding update_entry
mark_search_outbox_indexed id = update_entry id index_row

unfoldable pub mark_search_outboxes_indexed : (ids : List ℕ) → Visit (Unit {0})
unfolding update_entries
mark_search_outboxes_indexed ids = update_entries (is_among ids) index_row

abbrev pub failed_row : Text → Turn → SearchOutbox → SearchOutbox
failed_row message t e = record e {
  attempts = e.attempts + 1;
  last_error = some (take 2048 message);
}

-- The attempts of the row after the update.
unfoldable pub increment_search_outbox_attempt : (id : ℕ) → Text → Visit ℕ
increment_search_outbox_attempt id message t s = counted (find (has_entry_id id) s.outbox)
  where
    counted : Option SearchOutbox → Result ℕ × Store
    counted none = (err record_missing, s)
    counted (some e) = (
      ok (e.attempts + 1),
      record s { outbox = update (has_entry_id id) (failed_row message t) s.outbox },
    )

abbrev pub dead_row : Text → Turn → SearchOutbox → SearchOutbox
dead_row message t e = record e {
  dead_lettered_at = some t.later;
  processing_at = none;
  last_error = some (take 2048 message);
}

unfoldable pub mark_search_outbox_dead_lettered : (id : ℕ) → Text → Visit (Unit {0})
unfolding update_entry
mark_search_outbox_dead_lettered id message = update_entry id (dead_row message)

unfoldable pub get_search_outbox_by_id : (id : ℕ) → Visit (Option SearchOutbox)
get_search_outbox_by_id id t s = (ok (find (has_entry_id id) s.outbox), s)

-- `where` of hasNewerSearchOutboxJob, for a job of a posting.
abbrev pub is_newer : (posting_id : ℕ) → SearchOutbox → SearchOutbox → Bool
is_newer posting_id job e =
    same e.posting_id (some posting_id)
    && same e.reindex_run_id job.reindex_run_id
    && same e.target_index_name job.target_index_name
    && is_none e.dead_lettered_at
    && not (e.id == job.id)
    && ltb job.created_at e.created_at

abbrev pub newer_count : Option ℕ → SearchOutbox → List SearchOutbox → ℕ
newer_count none job rows = 0
newer_count (some posting_id) job rows = count_if (is_newer posting_id job) rows

unfoldable pub has_newer_search_outbox_job : SearchOutbox → Visit Bool
has_newer_search_outbox_job job t s = (ok (ltb 0 (newer_count job.posting_id job s.outbox)), s)

unfoldable pub get_pending_search_outbox_count : Visit ℕ
get_pending_search_outbox_count t s =
    (ok (count_if (λ e. is_none e.indexed_at && is_none e.dead_lettered_at) s.outbox), s)
