-- ===== src/Search/Tests.antt =====
-- Runs of the search outbox, and the theorems on it at these runs.
use fit.Common.{
  ◌≡◌, refl, true, false, none, some, [], ◌∷◌, arith, any, find, select, update, All, count_if,
}
use fit.Common.Rows.{All-intro}
use fit.Store.{Store}
use fit.Store.Search.{upsert, delete, SearchOutbox}
use fit.Runtime.{provider_error, ok, World, visit, pure, throw, catch, transaction, ◌>>=◌}
use fit.Runtime.Transaction.{write}
use fit.Runtime.Transaction as Body
use fit.Search.Enqueue.{new_entry}
use fit.Search.Outbox.{
  is_among, sort_entries, rows_of, ready_ids, claim_search_outbox_batch, update_entry,
  update_entries, has_newer_search_outbox_job, mark_search_outbox_publish_retry,
  mark_search_outbox_dead_lettered,
}
use fit.Search.Relayed.{mark_search_outbox_relayed, release_search_outbox_claims}
use fit.Search.Relay.{
  Broker, IndexJob, of_posting, place, coalesce_from, coalesce_relay_jobs, publish_from,
  record_failure, record_success, relay, relay_all,
}
use fit.Search.Relay.Coalescing.{is_under, group_of, find-coalesce_relay_jobs}
use fit.Search.Relay.Settled.{SettledRow, Settled, Calm, Ends}
use fit.Search.Relay.Batch.{relay_all-Settled}
use fit.Search.Claims.{claim_search_outbox_batch_excludes}
use fit.Samples.{store, turn, world}

-- The first row waits since a failure; the second is of the same posting and newer.
abbrev older : SearchOutbox
older = record (new_entry (turn 0) 1 7 delete) { publish_attempts = 1; available_at = 4 }

abbrev newer : SearchOutbox
newer = new_entry (turn 2) 2 7 upsert

abbrev other : SearchOutbox
other = new_entry (turn 3) 3 8 upsert

abbrev outbox_store : Store
outbox_store = record store { outbox = older ∷ newer ∷ other ∷ [] }

abbrev claimed : SearchOutbox → SearchOutbox
claimed e = record e { processing_at = some 5 }

unfoldable relays : Unit {0}
unfolding any find select update count_if pure throw visit catch transaction ◌>>=◌ Body.◌>>=◌ write
    sort_entries rows_of ready_ids claim_search_outbox_batch update_entry update_entries
    has_newer_search_outbox_job mark_search_outbox_publish_retry mark_search_outbox_dead_lettered
    mark_search_outbox_relayed release_search_outbox_claims place coalesce_from coalesce_relay_jobs
    publish_from record_failure record_success relay relay_all group_of
relays = tt

-- A claim takes the newer row first.
claim_in_order :
    (claim_search_outbox_batch 2 (turn 5) outbox_store).0 ≡ ok (claimed newer ∷ claimed other ∷ [])
unfolding relays
claim_in_order = refl

-- The row that waited for its retry comes last, so that it supersedes the newer one,
retry_supersedes_newer :
    coalesce_relay_jobs (newer ∷ older ∷ [])
    ≡ record { key = of_posting 7 none none; primary = older; superseded_ids = 2 ∷ [] } ∷ []
unfolding relays
retry_supersedes_newer = refl

-- and then is passed over as stale itself: neither is indexed.
retry_is_stale :
    (has_newer_search_outbox_job older
      (turn 9)
      (mark_search_outbox_relayed 1 (2 ∷ []) none (turn 8) outbox_store).1).0
    ≡ ok true
unfolding relays
retry_is_stale = refl

find-coalesce_relay_jobs_example :
    find (is_under (of_posting 7 none none)) (coalesce_relay_jobs (newer ∷ other ∷ older ∷ []))
    ≡ some (record { key = of_posting 7 none none; primary = older; superseded_ids = 2 ∷ [] })
unfolding relays
find-coalesce_relay_jobs_example = find-coalesce_relay_jobs (newer ∷ other ∷ older ∷ []) 7 none none

claim_search_outbox_batch_excludes_example :
    All (λ e. is_among (2 ∷ 3 ∷ []) e ≡ false) (record older { processing_at = some 6 } ∷ [])
unfolding relays
claim_search_outbox_batch_excludes_example =
    claim_search_outbox_batch_excludes 2 5 (turn 5) (turn 6) outbox_store
      (claim_search_outbox_batch 2 (turn 5) outbox_store).1 (claimed newer ∷ claimed other ∷ [])
      (record older { processing_at = some 6 } ∷ []) refl (λ ids h. h) (omega arith) refl

-- A broker that is never there.
abbrev down : Broker
down = record {
  ensure_live_index = pure tt;
  ensure_topology = pure tt;
  publish_index_job = λ job. throw provider_error;
  publish_dead_letter_job = λ job. throw provider_error;
  publish_retry_job = λ job attempt. throw provider_error;
  message_of = λ e. [];
}

abbrev outbox_world : World
outbox_world = record (world 5) { store = outbox_store }

outbox_world-Calm : Calm [] outbox_world
unfolding Settled any
outbox_world-Calm = record {
  here = All-intro {P = SettledRow []} (λ e h. cc) outbox_store.outbox;
  others = λ i s ids h. h;
}

down-Ends : (job : IndexJob) → Ends [] (down.publish_index_job job)
unfolding throw
down-Ends job = record { at = λ ids w h. h }

relay_all-Settled_example :
    let after = relay_all down 3 (coalesce_relay_jobs (newer ∷ other ∷ older ∷ [])) outbox_world in
    (after.0 ≡ ok tt) × Settled (2 ∷ 3 ∷ 1 ∷ []) after.1.store
relay_all-Settled_example =
    relay_all-Settled down down-Ends 3 (newer ∷ other ∷ older ∷ []) outbox_world outbox_world-Calm
