-- ===== src/Search.antt =====
-- The search outbox: backend/src/app/features/postings/postings.repository.ts, where the outbox is
-- written, and backend/src/app/features/search/search.service.ts, which relays it to the broker and indexes.
pub mod Enqueue
pub mod Outbox
pub mod Relayed
pub mod Relay
pub mod Claims
mod Tests
