-- ===== src/Reservation/Step.antt =====
-- src/privacy/reservation.js: what one transition of the store may do to a record.
pub mod Prepared
pub mod Identity
pub mod Guards
pub mod Keeps
pub mod Classified
pub mod Legal
pub mod Fence
pub mod Shown
pub mod Inactive
pub mod Attempt
pub mod Clears
pub mod Counts
