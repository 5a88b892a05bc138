-- ===== src/Reservation/Patching.antt =====
-- src/privacy/reservation.js: what a mutation's patch may hold, and how it becomes the next record.
pub mod Fields
pub mod Guards
pub mod Apply
