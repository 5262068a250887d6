-- ===== src/Search/Relay.antt =====
-- processOutboxRelayBatch of backend/src/app/features/search/search.service.ts: claimed rows of one
-- posting, run and index are relayed as one job, the last of them in the order of the claim.
pub mod Coalescing
pub mod Cover
pub mod Settled
pub mod Batch
use fit.Common.{
  ℕ, zero, suc, ◌+◌, Bool, false, ◌&&◌, Option, none, some, List, [], ◌∷◌, ◌++◌, leb, ◌==◌,
  if◌then◌else◌, length, is_some,
}
use fit.Common.Text.{Text}
use fit.Store.Search.{OutboxOperation, barrier, SearchOutbox}
use fit.Runtime.{Error, M, visit, pure, catch, ◌>>=◌, ◌>>◌}
use fit.Search.Outbox.{
  same, claim_search_outbox_batch, mark_search_outbox_publish_retry,
  mark_search_outbox_dead_lettered,
}
use fit.Search.Relayed.{mark_search_outbox_relayed, release_search_outbox_claims}

pub data TargetIndexScope : Type 0 where
  live reindex : TargetIndexScope

-- `SearchIndexJobPayload`
pub record IndexJob : Type 0 where
  pub outbox_id : ℕ
  pub event_id : ℕ
  pub dedupe_key : ℕ
  pub operation : OutboxOperation
  pub job_type : OutboxOperation
  pub posting_id : Option ℕ
  pub reindex_run_id : Option ℕ
  pub target_index_scope : TargetIndexScope
  pub target_index_name : Option ℕ
  pub occurred_at : ℕ
  pub attempt : ℕ

abbrev pub to_index_job : SearchOutbox → IndexJob
to_index_job job = record {
  outbox_id = job.id;
  event_id = job.id;
  dedupe_key = job.dedupe_key;
  operation = job.operation;
  job_type = job.operation;
  posting_id = job.posting_id;
  reindex_run_id = job.reindex_run_id;
  target_index_scope = if is_some job.reindex_run_id then reindex else live;
  target_index_name = job.target_index_name;
  occurred_at = job.created_at;
  attempt = job.attempts;
}

-- What the queue service does with the broker, and the text of an error.
pub record Broker : Type 1 where
  pub ensure_live_index : M (Unit {0})
  pub ensure_topology : M (Unit {0})
  pub publish_index_job : IndexJob → M (Unit {0})
  pub publish_dead_letter_job : IndexJob → M (Unit {0})
  pub publish_retry_job : IndexJob → (attempt : ℕ) → M (Unit {0})
  pub message_of : Error → Text

-- The keys of the map in `coalesceRelayJobs`: `outbox:…`, or the posting, the run and the index, each of
-- which may be missing (`live`).
pub data CoalescingKey : Type 0 where
  of_outbox : ℕ → CoalescingKey
  of_posting : ℕ → (run index : Option ℕ) → CoalescingKey

abbrev pub keys_equal : CoalescingKey → CoalescingKey → Bool
keys_equal (of_outbox a) (of_outbox b) = a == b
keys_equal (of_outbox a) (of_posting q run' index') = false
keys_equal (of_posting p run index) (of_outbox b) = false
keys_equal (of_posting p run index) (of_posting q run' index') =
    p == q && same run run' && same index index'

-- createRelayCoalescingKey, with the key that stands in for `null`.
abbrev pub posting_key : SearchOutbox → Option ℕ → CoalescingKey
posting_key job none = of_outbox job.id
posting_key job (some posting_id) = of_posting posting_id job.reindex_run_id job.target_index_name

abbrev pub key_for : SearchOutbox → OutboxOperation → CoalescingKey
key_for job barrier = of_outbox job.id
key_for job operation = posting_key job job.posting_id

abbrev pub key_of : SearchOutbox → CoalescingKey
key_of job = key_for job job.operation

pub record RelayJob : Type 0 where
  pub key : CoalescingKey
  pub primary : SearchOutbox
  pub superseded_ids : List ℕ

abbrev pub new_group : SearchOutbox → RelayJob
new_group job = record { key = key_of job; primary = job; superseded_ids = [] }

-- What happens to the group that is already under the key.
abbrev pub into_group : CoalescingKey → SearchOutbox → RelayJob → RelayJob
into_group (of_outbox id) job g = new_group job
into_group (of_posting p run index) job g = record g {
  primary = job;
  superseded_ids = g.superseded_ids ++ g.primary.id ∷ [];
}

-- `groups.set`: a new key comes last.
unfoldable pub place : SearchOutbox → List RelayJob → List RelayJob
place job [] = new_group job ∷ []
place job (g ∷ gs) =
    let rest = place job gs in
    if keys_equal g.key (key_of job) then into_group (key_of job) job g ∷ gs else g ∷ rest

unfoldable pub coalesce_from : List RelayJob → List SearchOutbox → List RelayJob
unfolding place
coalesce_from groups [] = groups
coalesce_from groups (job ∷ jobs) = coalesce_from (place job groups) jobs

unfoldable pub coalesce_relay_jobs : List SearchOutbox → List RelayJob
unfolding coalesce_from
coalesce_relay_jobs = coalesce_from []

-- "Unknown relay error."
abbrev pub unknown_relay_error : Text
unknown_relay_error =
    85 ∷ 110 ∷ 107 ∷ 110 ∷ 111 ∷ 119 ∷ 110 ∷ 32 ∷ 114 ∷ 101 ∷ 108 ∷ 97 ∷ 121 ∷ 32 ∷ 101 ∷ 114 ∷ 114
    ∷ 111 ∷ 114 ∷ 46 ∷ []

module _ (broker : Broker) where
  -- The rounds of the loop that are left: the message of the last error, or none once it is published.
  unfoldable pub publish_from : (rounds : ℕ) → Text → SearchOutbox → M (Option Text)
  publish_from zero error job = pure (some error)
  publish_from (suc rounds) error job =
      catch (do broker.publish_index_job (to_index_job job); pure none)
        (λ e. publish_from rounds (broker.message_of e) job)

  unfoldable pub record_failure : (max_publish_attempts : ℕ) → RelayJob → Text → M (Unit {0})
  record_failure max_publish_attempts relay_job message =
      let job = relay_job.primary in
      catch
        (do
          visit (release_search_outbox_claims relay_job.superseded_ids message)
          if leb max_publish_attempts (job.publish_attempts + 1)
              then visit (mark_search_outbox_dead_lettered job.id message)
              else visit
                  (mark_search_outbox_publish_retry job.id (job.publish_attempts + 1) message))
        (λ e. pure tt)

  unfoldable pub record_success : RelayJob → M (Unit {0})
  record_success relay_job =
      let job = relay_job.primary in
      catch (visit (mark_search_outbox_relayed job.id relay_job.superseded_ids (some job.id))) (λ e.
        visit
          (release_search_outbox_claims (job.id ∷ relay_job.superseded_ids) (broker.message_of e)))

  abbrev pub record_outcome : (max_publish_attempts : ℕ) → RelayJob → Option Text → M (Unit {0})
  record_outcome max_publish_attempts relay_job none = record_success relay_job
  record_outcome max_publish_attempts relay_job (some message) =
      record_failure max_publish_attempts relay_job message

  unfoldable pub relay : (max_publish_attempts : ℕ) → RelayJob → M (Unit {0})
  unfolding publish_from record_failure record_success
  relay max_publish_attempts relay_job = do
    failure ← publish_from 3 unknown_relay_error relay_job.primary
    record_outcome max_publish_attempts relay_job failure

  unfoldable pub relay_all : (max_publish_attempts : ℕ) → List RelayJob → M (Unit {0})
  unfolding relay
  relay_all max_publish_attempts [] = pure tt
  relay_all max_publish_attempts (g ∷ gs) = do
    relay max_publish_attempts g
    relay_all max_publish_attempts gs

  unfoldable pub process_outbox_relay_batch : (limit max_publish_attempts : ℕ) → M ℕ
  unfolding coalesce_relay_jobs relay_all
  process_outbox_relay_batch limit max_publish_attempts = do
    broker.ensure_live_index
    broker.ensure_topology
    jobs ← visit (claim_search_outbox_batch limit)
    relay_all max_publish_attempts (coalesce_relay_jobs jobs)
    pure (length jobs)
