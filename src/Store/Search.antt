-- ===== src/Store/Search.antt =====
-- The tables posting_search_outbox and search_reindex_runs of backend/prisma/schema.prisma. The name of
-- an index and the id of a message of the broker are numbers: they are only compared. Of a run stand
-- the columns that the code below reads.
use fit.Common.{ℕ, Option}
use fit.Common.Text.{Text}

pub data OutboxOperation : Type 0 where
  upsert delete barrier : OutboxOperation

pub record SearchOutbox : Type 0 where
  pub id : ℕ
  pub posting_id : Option ℕ
  pub reindex_run_id : Option ℕ
  pub operation : OutboxOperation
  pub dedupe_key : ℕ
  pub target_index_name : Option ℕ
  pub attempts : ℕ
  pub publish_attempts : ℕ
  pub available_at : ℕ
  pub processing_at : Option ℕ
  pub processed_at : Option ℕ
  pub indexed_at : Option ℕ
  pub dead_lettered_at : Option ℕ
  pub broker_message_id : Option ℕ
  pub last_error : Option Text
  pub created_at : ℕ

pub data ReindexStatus : Type 0 where
  pending running waiting_for_catchup completed failed : ReindexStatus

pub record ReindexRun : Type 0 where
  pub id : ℕ
  pub status : ReindexStatus
  pub target_index_name : ℕ
  pub created_at : ℕ
