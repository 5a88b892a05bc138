-- ===== src/Notes.antt =====
-- src/core/note.js, src/privacy/payload.js and src/privacy/planner.js: the notes that a wallet found,
-- the choice of those that a transfer spends, and the plan that tells what can be built.
pub mod Found
pub mod Order
pub mod Pairs
pub mod Selection
pub mod Batch
pub mod Drawn
pub mod Coin
pub mod Planner
mod Witnesses
