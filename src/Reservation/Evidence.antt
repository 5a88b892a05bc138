-- ===== src/Reservation/Evidence.antt =====
-- src/privacy/reservation.js: the chain and operator evidence that a transition has to show.
pub mod Identity
pub mod Failure
unfoldable pub use Identity.{
  normalized_tx_identity, canonical_relay_transaction_hash,
  reservation_network_transaction_identities, has_stored_broadcast_evidence,
}
unfoldable pub use Failure.{
  consistent_metadata_alias_value, has_exact_post_broadcast_failure_evidence,
  positive_checked_height,
}
use clairveiljs.Prelude.{
  ℕ, String, Bool, true, false, not, ◌&&◌, ◌||◌, Option, none, some, List, [], ◌∷◌, ◌++◌, any, all,
  leb, ltb, if◌then◌else◌, Result, ok, err, ◌>>=◌, ◌>>◌, assert, reject, map,
}
use clairveiljs.Text.{trim}
use clairveiljs.Json.{
  Value, Fields, get, fields_of, is_defined, is_true, first_defined, text_if_truthy, text_or_empty,
  number_of,
}
use clairveiljs.Reservation.Status.{
  Status, proof_ready, submitted, unknown, confirmed_spent, replan_required, failed, manual_review,
  released, same_status, one_of,
}
use clairveiljs.Reservation.Record.{Reservation, Patch}
use clairveiljs.Reservation.Normalize.{text_from}
use clairveiljs.Reservation.Lease.{is_empty}

abbrev pub is_positive : Option ℕ → Bool
is_positive none = false
is_positive (some n) = ltb 0 n

-- `hasStoredBroadcastEvidence` of a patch.
unfoldable pub patch_has_stored_broadcast_evidence : Fields → Bool
patch_has_stored_broadcast_evidence patch =
    not (
      is_empty (
        trim (
          text_if_truthy (
            first_defined (get patch "submitted_tx_hash") (
              first_defined (get patch "submittedTxHash")
                (first_defined (get patch "tx_hash") (get patch "txHash")))))))
    || is_positive (number_of (get patch "broadcast_attempt_count"))
    || is_true (first_defined (get patch "broadcast_in_flight") (get patch "broadcastInFlight"))
    || is_true (get (fields_of (get patch "metadata")) "relay_handed_off")
    || is_true (get (fields_of (get patch "metadata")) "relayHandedOff")

-- `a && b`, where `b` may throw and is read only if `a` holds.
abbrev pub if_shown : Bool → Result (Option Value) → Result (Option Value)
if_shown true m = m
if_shown false m = ok none

unfoldable pub has_proof_discard_evidence : Reservation → Fields → Result Bool
has_proof_discard_evidence current patch = do
  no_attempt ←
      consistent_metadata_alias_value patch ("no_broadcast_attempt" ∷ "noBroadcastAttempt" ∷ [])
        true
  shown_discarded ←
      if_shown (is_true no_attempt)
        (consistent_metadata_alias_value patch ("proof_discarded" ∷ "proofDiscarded" ∷ []) true)
  ok (
      is_true shown_discarded
      && not (has_stored_broadcast_evidence current)
      && not (patch_has_stored_broadcast_evidence patch))

-- `firstDefined` of each key in the patch and then in its `metadata`.
unfoldable pub metadata_evidence_value : Fields → List String → Option Value
metadata_evidence_value patch [] = none
metadata_evidence_value patch (k ∷ ks) =
    first_defined (get patch k)
      (first_defined (get (fields_of (get patch "metadata")) k) (metadata_evidence_value patch ks))

unfoldable pub has_manual_review_approval_evidence : Fields → Bool
unfolding metadata_evidence_value
has_manual_review_approval_evidence patch =
    is_true (
      metadata_evidence_value patch (
        "operator_approved" ∷ "operatorApproved" ∷ "manual_review_approved" ∷ "manualReviewApproved"
        ∷ []))
    && not (
        is_empty (
          trim (
            text_if_truthy
              (metadata_evidence_value patch ("operator_id" ∷ "operatorId" ∷ "operatorID" ∷ [])))))
    && not (
        is_empty (
          trim (
            text_if_truthy (
              metadata_evidence_value patch (
                "operator_approval_reference" ∷ "operatorApprovalReference"
                ∷ "manual_review_resolution" ∷ "manualReviewResolution" ∷ [])))))

abbrev when : Bool → Result (Unit {0}) → Result (Unit {0})
when true m = m
when false m = ok tt

-- `ProofReady -> ReplanRequired`, by whether the record shows a broadcast.
unfoldable pub assert_proof_ready_replan : Bool → Reservation → Fields → Result (Unit {0})
assert_proof_ready_replan true current patch = do
  shown ← has_exact_post_broadcast_failure_evidence current patch
  assert shown
      "ProofReady -> ReplanRequired after broadcast requires exact failed transaction and nullifier-unspent evidence"
assert_proof_ready_replan false current patch = do
  shown ← has_proof_discard_evidence current patch
  assert shown
      "ProofReady -> ReplanRequired requires no_broadcast_attempt and proof_discarded evidence"

-- What leaves the active states has to be shown not to be in flight.
unfoldable pub assert_inactive_transition_evidence :
    Reservation → Status → Fields → Result (Unit {0})
assert_inactive_transition_evidence current to patch = do
  let from = current.status
  when (one_of from (submitted ∷ unknown ∷ []) && one_of to (replan_required ∷ failed ∷ [])) (do
    shown ← has_exact_post_broadcast_failure_evidence current patch
    assert shown "requires exact reconcile evidence")
  when (same_status from proof_ready && same_status to replan_required)
      (assert_proof_ready_replan (has_stored_broadcast_evidence current) current patch)
  reject
      (same_status from manual_review
        && one_of to (released ∷ replan_required ∷ failed ∷ [])
        && not (has_manual_review_approval_evidence patch))
      "requires operator approval evidence"

-- A network hash or a hash of the transaction's bytes.
unfoldable pub has_broadcast_attempt_metadata : Fields → Bool
has_broadcast_attempt_metadata patch =
    not (
      is_empty (
        text_from patch (
          "txHash" ∷ "tx_hash" ∷ "submitted_tx_hash" ∷ "submittedTxHash" ∷ "txHashSubmitted" ∷ [])))
    || not (is_empty (text_from patch ("txBytesHash" ∷ "tx_bytes_hash" ∷ [])))

unfoldable pub assert_core_transition_evidence : Status → Status → Patch → Result (Unit {0})
assert_core_transition_evidence from to patch =
    if same_status to confirmed_spent
    then assert patch.reconciled_spent
        "ConfirmedSpent transitions require reconcileSpentNotes chain spent evidence"
    else reject
        (same_status from proof_ready
          && one_of to (submitted ∷ unknown ∷ [])
          && not (has_broadcast_attempt_metadata patch.fields))
        "requires broadcast attempt metadata"

unfoldable pub assert_store_transition_evidence : Reservation → Status → Patch → Result (Unit {0})
assert_store_transition_evidence current to patch = do
  reject
      (same_status current.status proof_ready
        && one_of to (submitted ∷ unknown ∷ [])
        && (not current.broadcast_in_flight || ltb current.broadcast_attempt_count 1))
      "durable broadcast attempt is required before terminal bookkeeping"
  assert_core_transition_evidence current.status to patch
  assert_inactive_transition_evidence current to patch.fields
