-- ===== src/Bookings.antt =====
-- Booking requests: backend/src/app/features/bookings.
pub mod Model
pub mod Overlap
pub mod Repository
pub mod Messages
pub mod Expiry
pub mod Reservation
pub mod Normalize
pub mod Validation
pub mod Create
pub mod Quote
pub mod Listing
pub mod Access
pub mod Change
pub mod Decide
pub mod Machine
pub mod Refinement
pub mod Passing
pub mod Agreement
pub mod Results
pub mod Completeness
pub mod Safety
pub mod InvalidDates
pub mod Tests
mod Examples
