-- ===== src/Search/Enqueue.antt =====
-- `enqueueOutbox` of backend/src/app/features/postings/postings.repository.ts: the rows that a change
-- of a posting leaves for the search index, written in the transaction of the change.
use fit.Common.{
  ℕ, ◌+◌, Bool, true, false, Option, none, some, List, [], ◌∷◌, ◌++◌, ltb, if◌then◌else◌, select,
}
use fit.Store.{Store}
use fit.Store.Search.{
  OutboxOperation, SearchOutbox, ReindexStatus, pending, running, waiting_for_catchup, ReindexRun,
}
use fit.Runtime.{Turn, Visit}
use fit.Runtime.Transaction.{write}

abbrev pub is_under_way : ReindexStatus → Bool
is_under_way pending = true
is_under_way running = true
is_under_way waiting_for_catchup = true
is_under_way _ = false

-- `orderBy: [{ createdAt: "desc" }]` and the first of them.
unfoldable pub newest : List ReindexRun → Option ReindexRun
newest [] = none
newest (r ∷ rs) = later_of (newest rs)
  where
    later_of : Option ReindexRun → Option ReindexRun
    later_of none = some r
    later_of (some s) = if ltb r.created_at s.created_at then some s else some r

unfoldable pub active_run : Store → Option ReindexRun
unfolding newest
active_run s = newest (select (λ r. is_under_way r.status) s.reindex_runs)

-- A row with the columns that a create leaves to their defaults.
abbrev pub new_entry : Turn → (id posting_id : ℕ) → OutboxOperation → SearchOutbox
new_entry t id posting_id operation = record {
  id = id;
  posting_id = some posting_id;
  reindex_run_id = none;
  operation = operation;
  dedupe_key = id;
  target_index_name = none;
  attempts = 0;
  publish_attempts = 0;
  available_at = t.later;
  processing_at = none;
  processed_at = none;
  indexed_at = none;
  dead_lettered_at = none;
  broker_message_id = none;
  last_error = none;
  created_at = t.later;
}

-- A run that is under way has a row of its own.
abbrev pub run_entries :
    Turn → (id posting_id : ℕ) → OutboxOperation → Option ReindexRun → List SearchOutbox
run_entries t id posting_id operation none = []
run_entries t id posting_id operation (some run) =
    record (new_entry t id posting_id operation) {
      reindex_run_id = some run.id;
      target_index_name = some run.target_index_name;
    }
    ∷ []

unfoldable pub entries : Turn → (drawn posting_id : ℕ) → OutboxOperation → Store → List SearchOutbox
unfolding active_run
entries t drawn posting_id operation s =
    new_entry t (t.uuid drawn) posting_id operation
    ∷ run_entries t (t.uuid (drawn + 1)) posting_id operation (active_run s)

-- `drawn` is how often the transaction has called `randomUUID()` before.
unfoldable pub enqueue_outbox : (drawn posting_id : ℕ) → OutboxOperation → Visit (Unit {0})
unfolding entries
enqueue_outbox drawn posting_id operation =
    write λ t s. record s { outbox = s.outbox ++ entries t drawn posting_id operation s }
