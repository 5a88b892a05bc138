-- ===== src/Crypto.antt =====
-- src/core/crypto.js and src/core/browser-crypto.js, and what they call of other packages.
pub mod Primitives
pub mod Field
pub mod Bytes
pub mod Curve
pub mod Mimc
mod Witnesses
