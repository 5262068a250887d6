-- ===== src/Payments.antt =====
-- Payments: backend/src/app/features/payments.
pub mod Model
pub mod Utils
pub mod Rows
pub mod Attempts
pub mod Retry
pub mod Outcome
pub mod Refunds
pub mod Payouts
pub mod Webhooks
pub mod Queues
pub mod Queries
pub mod Service
pub mod Settlement
pub mod Effects
pub mod Bounds
pub mod Repeats
pub mod Replay
pub mod Ledger
pub mod Success
pub mod Tests
