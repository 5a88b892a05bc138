-- ===== src/Reservation/Managed/Expired.antt =====
-- src/privacy/reservation.js: recovery of a broadcast whose worker lease has run out.

use clairveiljs.Prelude.{
  ℕ, String, Bool, false, not, ◌&&◌, Option, some, List, leb, ltb, Result, ◌>>=◌, ◌>>◌, assert,
}
use clairveiljs.Text.{codes, codes_eq}
use clairveiljs.Json.{Value, str, num, get, is_true, is_false, text_if_truthy}
use clairveiljs.Reservation.Status.{Status, proof_ready, replan_required, same_status}
use clairveiljs.Reservation.Record.{Reservation, Patch}
use clairveiljs.Reservation.Lease.{is_empty, lease_expiration_ms}
use clairveiljs.Reservation.Platform.{Platform}
use clairveiljs.Reservation.Evidence.{
  normalized_tx_identity, has_exact_post_broadcast_failure_evidence,
}
use clairveiljs.Reservation.Managed.Broadcast.{when_managed, patch_metadata, keeps_attempt_count}

-- The complete transaction identity of the record, repeated by the patch.
unfoldable pub repeats_transaction_identity : Reservation → Patch → Bool
repeats_transaction_identity current patch =
    let submitted_id = normalized_tx_identity current.submitted_tx_hash in
    let bytes_id = normalized_tx_identity current.tx_bytes_hash in
    let sign_id = normalized_tx_identity current.sign_doc_hash in
    let patch_identity =
      λ (k : String). normalized_tx_identity (text_if_truthy (get patch.fields k)) in
    not (is_empty submitted_id)
    && not (is_empty bytes_id)
    && not (is_empty sign_id)
    && codes_eq (patch_identity "submitted_tx_hash") submitted_id
    && codes_eq (patch_identity "tx_bytes_hash") bytes_id
    && codes_eq (patch_identity "sign_doc_hash") sign_id
    && codes_eq
        (normalized_tx_identity (text_if_truthy (get (patch_metadata patch) "tx_hash_checked")))
        submitted_id

-- `Number.isSafeInteger(value) && value >= 1`
unfoldable pub is_positive_number : Option Value → Bool
is_positive_number (some (num n)) = leb 1 n
is_positive_number _ = false

abbrev is_text : Option Value → List ℕ → Bool
is_text (some (str s)) t = codes_eq s t
is_text _ t = false

unfoldable pub complete_failure_evidence : Patch → Bool
unfolding is_positive_number
complete_failure_evidence patch =
    let metadata = patch_metadata patch in
    is_true (get metadata "proof_discarded")
    && is_true (get metadata "authoritative_execution_failure")
    && is_true (get metadata "execution_failed_confirmed")
    && is_text (get metadata "reconcile_reason")
        (codes "expired_proof_ready_authoritative_exact_broadcast_failure")
    && is_positive_number (get metadata "input_nullifier_count")
    && is_false (get patch.fields "broadcast_in_flight")

unfoldable pub has_expired_worker_lease : Platform → Reservation → ℕ → Bool
has_expired_worker_lease p current now =
    not (is_empty current.lease_owner)
    && not (is_empty current.lease_token)
    && ltb 0 (lease_expiration_ms p current)
    && leb (lease_expiration_ms p current) now

unfoldable pub assert_managed_expired_proof_ready_broadcast_failure_mutation :
    Platform → Reservation → Status → Patch → ℕ → Result Bool
unfolding repeats_transaction_identity complete_failure_evidence has_expired_worker_lease
assert_managed_expired_proof_ready_broadcast_failure_mutation p current to patch now =
    when_managed patch.expired_proof_ready_broadcast_failure do
      assert (same_status current.status proof_ready && same_status to replan_required)
          "expired ProofReady recovery requires ProofReady -> ReplanRequired"
      assert (has_expired_worker_lease p current now)
          "expired ProofReady recovery requires an expired worker lease"
      assert (current.broadcast_in_flight && leb 1 current.broadcast_attempt_count)
          "expired ProofReady recovery requires a durable in-flight broadcast attempt"
      assert (repeats_transaction_identity current patch)
          "expired ProofReady recovery requires the complete exact stored transaction identity"
      shown ← has_exact_post_broadcast_failure_evidence current patch.fields
      assert shown
          "expired ProofReady recovery requires exact failed transaction and nullifier-unspent evidence"
      assert (complete_failure_evidence patch)
          "expired ProofReady recovery requires complete authoritative failure evidence"
      assert (keeps_attempt_count current patch)
          "expired ProofReady recovery cannot rewrite broadcast attempt count"
