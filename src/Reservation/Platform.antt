-- ===== src/Reservation/Platform.antt =====
-- What src/privacy/reservation.js takes from its platform: `Date.parse` (`none` is NaN, and a date
-- before the epoch counts as 0), `toISOString` of a time in milliseconds, and the hex digest of
-- @noble/hashes' SHA-256 of a text.
use clairveiljs.Prelude.{ℕ, Option, List}

pub record Platform : Type 0 where
  pub parse_date : List ℕ → Option ℕ
  pub iso_date : ℕ → List ℕ
  pub sha256_hex : List ℕ → List ℕ
