-- ===== src/Reservation/Store/Release.antt =====
-- src/privacy/reservation.js, `releaseReservationBatch`: records that nobody has begun to prove.

use clairveiljs.Prelude.{
  ℕ, Bool, true, false, not, none, List, [], ◌∷◌, if◌then◌else◌, Result, ok, ◌>>=◌, ◌>>◌, assert,
  reject, map, keep, find,
}
use clairveiljs.Text.{codes, codes_eq}
use clairveiljs.Json.{str, put}
use clairveiljs.Reservation.Status.{reserved, released, same_status}
use clairveiljs.Reservation.Record.{Reservation, Patch}
use clairveiljs.Reservation.Lease.{is_empty}
use clairveiljs.Reservation.Platform.{Platform}
use clairveiljs.Reservation.Record.{to_fields}
use clairveiljs.Reservation.Status.{status_text}
use clairveiljs.Reservation.Normalize.{normalize_reservation}
use clairveiljs.Reservation.Evidence.Identity.{distinct_texts}
use clairveiljs.Reservation.Store.Conflict.{has_id}
use clairveiljs.Reservation.Store.Operation.{
  Found, assert_exact_operation_lifecycle_transition_sets,
}
use clairveiljs.Reservation.Store.Update.{replace_all, found_or_err}
use clairveiljs.Json.{end}

abbrev pub plain_patch : Patch
plain_patch = record {
  fields = end;
  reconciled_spent = false;
  evidence_mutation = none;
  operation_reconciliation = false;
  authoritative_broadcast_failure = false;
  expired_proof_ready_broadcast_failure = false;
  relay_transaction_evidence = false;
}

unfoldable pub released_record : Platform → ℕ → Reservation → Result Reservation
released_record p now current = normalize_reservation (p.iso_date now) (
    put "updated_at" (str (p.iso_date now)) (
      put "last_heartbeat_at" (str []) (
        put "lease_until" (str []) (
          put "lease_token" (str []) (
            put "lease_owner" (str [])
              (put "status" (str (codes (status_text released))) (to_fields current)))))))

unfoldable pub release_each :
    Platform → ℕ → List ℕ → List Reservation → List (List ℕ) → Result (List (Found × Reservation))
unfolding released_record
release_each p now owner_key_id stored [] = ok []
release_each p now owner_key_id stored (id ∷ ids) = do
  f ←
      found_or_err (find (has_id id) stored)
        (record { reservation_id = id; from = reserved; to = released; patch = plain_patch })
  assert (codes_eq f.current.owner_key_id owner_key_id) "reservation owner mismatch"
  assert (same_status f.current.status reserved) "reservation release requires Reserved status"
  r ← released_record p now f.current
  rest ← release_each p now owner_key_id stored ids
  ok ((f, r) ∷ rest)

abbrev pub is_empty_list {ℓ} : {A : Type ℓ} → List A → Bool
is_empty_list [] = true
is_empty_list (x ∷ xs) = false

-- The release of the named records, at least one.
unfoldable pub release_names :
    Platform
    → ℕ
    → List Reservation
    → List ℕ
    → List (List ℕ)
    → Result (List Reservation × List Reservation)
unfolding release_each
release_names p now stored owner_key_id ids = do
  reject (is_empty owner_key_id) "reservation owner key id is required"
  pairs ← release_each p now owner_key_id stored ids
  let updated = map (λ fr. fr.1) pairs
  assert_exact_operation_lifecycle_transition_sets stored (map (λ fr. fr.0) pairs)
  ok (replace_all updated stored, updated)

unfoldable pub release_reservation_batch :
    Platform
    → ℕ
    → List Reservation
    → List (List ℕ)
    → List ℕ
    → Result (List Reservation × List Reservation)
unfolding release_names
release_reservation_batch p now stored reservation_ids owner_key_id =
    let ids = distinct_texts (keep (λ id. not (is_empty id)) reservation_ids) in
    if is_empty_list ids then ok (stored, []) else release_names p now stored owner_key_id ids
