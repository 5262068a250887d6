-- ===== src/Rentings.antt =====
-- Rentings: backend/src/app/features/rentings.
pub mod Repository
pub mod Service
pub mod Refinement
pub mod Exact
pub mod Safety
pub mod Completeness
mod Tests
