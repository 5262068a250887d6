-- ===== src/Postings.antt =====
-- backend/src/app/features/postings: the states of a posting, its counts in the owner's profile and the
-- dates that its owner blocks.
pub mod Repository
pub mod Service
pub mod Blocks
pub mod Dates
pub mod Availability
pub mod Frame
pub mod Counts
pub mod Lifecycle
pub mod Window
mod Tests
