-- ===== src/Reservation/Store.antt =====
-- src/privacy/reservation.js, `MemoryReservationStore`: its state is the list of records, and each
-- call returns the next list with its result, or throws and leaves the list as it was.
pub mod Conflict
pub mod Create
pub mod Operation
pub mod Update
pub mod Release
pub mod WellFormed
pub mod Replace
pub mod Unique
pub mod Fresh
pub mod Spent
pub mod Exact
pub mod LookedUp
pub mod Written
pub mod Together
pub mod Free
pub mod Freed
pub mod Reload
pub mod Reach
