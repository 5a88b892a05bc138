-- ===== src/Wire.antt =====
-- src/privacy/protocol-v1.js: the fixed binary formats of notes, disclosures and encrypted envelopes,
-- and the hashes that name them.
pub mod Bytes
pub mod Domain
pub mod Note
pub mod Envelope
pub mod Disclosure
pub mod Encryption
pub mod Intent
mod Witnesses
