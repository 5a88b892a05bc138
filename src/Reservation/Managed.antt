-- ===== src/Reservation/Managed.antt =====
-- src/privacy/reservation.js: the mutations that only the reservation manager may make, each marked
-- by a symbol on its patch.
pub mod Broadcast
pub mod Expired
pub mod Relay
pub mod Outcome
