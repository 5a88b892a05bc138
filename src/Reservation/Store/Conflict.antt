-- ===== src/Reservation/Store/Conflict.antt =====
-- src/privacy/reservation.js: which records stand in the way of another on the same note.

use clairveiljs.Prelude.{
  ℕ, Bool, not, ◌&&◌, List, [], ◌∷◌, ◌++◌, any, if◌then◌else◌, Result, ok, ◌>>◌, reject,
}
use clairveiljs.Text.{codes_eq}
use clairveiljs.Reservation.Status.{confirmed_spent, same_status}
use clairveiljs.Reservation.Record.{Reservation}
use clairveiljs.Reservation.Status.{is_active_reservation_status}

unfoldable pub active_key : Reservation → List ℕ
active_key r = r.owner_key_id ++ 0 ∷ r.nullifier_lookup_key

abbrev pub same_key : Reservation → Reservation → Bool
same_key r s = codes_eq (active_key r) (active_key s)

abbrev pub is_active : Reservation → Bool
is_active r = is_active_reservation_status r.status

abbrev pub is_spent : Reservation → Bool
is_spent r = same_status r.status confirmed_spent

abbrev pub has_id : List ℕ → Reservation → Bool
has_id id r = codes_eq r.reservation_id id

unfoldable pub active_conflict : List Reservation → Reservation → List ℕ → Bool
active_conflict reservations candidate excluded =
    is_active candidate
    && any (λ r. not (has_id excluded r) && is_active r && same_key r candidate) reservations

unfoldable pub confirmed_spent_conflict : List Reservation → Reservation → List ℕ → Bool
confirmed_spent_conflict reservations candidate excluded =
    is_active candidate
    && any (λ r. not (has_id excluded r) && is_spent r && same_key r candidate) reservations

-- The scan of `normalizeState` over a stored list.
unfoldable pub assert_state_from :
    List (List ℕ) → List (List ℕ) → List (List ℕ) → List Reservation → Result (Unit {0})
assert_state_from ids active_keys spent_keys [] = ok tt
assert_state_from ids active_keys spent_keys (r ∷ rest) = do
  let key = active_key r
  let spent = not (is_active r) && is_spent r
  reject (any (codes_eq r.reservation_id) ids) "duplicate reservation_id in reservation state"
  reject (is_active r && any (codes_eq key) active_keys)
      "duplicate active reservation in reservation state"
  reject (is_active r && any (codes_eq key) spent_keys)
      "confirmed spent reservation conflicts with an active reservation in reservation state"
  reject (spent && any (codes_eq key) active_keys)
      "confirmed spent reservation conflicts with an active reservation in reservation state"
  assert_state_from (r.reservation_id ∷ ids)
      (if is_active r then key ∷ active_keys else active_keys)
      (if spent then key ∷ spent_keys else spent_keys) rest
