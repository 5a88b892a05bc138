-- ===== src/Reservation.antt =====
-- src/privacy/reservation.js: the life of a note reservation and the store that keeps it.
pub mod Status
pub mod Record
pub mod Platform
pub mod Normalize
pub mod Lease
pub mod Evidence
pub mod Managed
pub mod Patching
pub mod Store
pub mod Step
pub mod Scenario
pub mod Runs
mod Witnesses
