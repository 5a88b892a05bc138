-- ===== src/Reservation/Patching/Guards.antt =====
-- src/privacy/reservation.js: the guards on the fields of a mutation's patch.
use clairveiljs.Prelude.{
  ℕ, String, Bool, true, false, not, ◌&&◌, ◌||◌, Option, none, some, List, [], ◌∷◌, ◌++◌, any, all,
  leb, if◌then◌else◌, Result, ok, ◌>>=◌, ◌>>◌, assert, reject, ◌==◌,
}
use clairveiljs.Text.{codes_eq}
use clairveiljs.Json.{
  Value, str, num, obj, Fields, get, has, keys, fields_of, is_true, is_object, text_if_truthy,
  number_of, same_json?, first_defined,
}
use clairveiljs.Reservation.Status.{
  Status, proving, proof_ready, submitted, unknown, replan_required, failed, manual_review,
  released, same_status, one_of,
}
use clairveiljs.Reservation.Record.{Reservation}
use clairveiljs.Reservation.Lease.{is_empty, name_in}
use clairveiljs.Reservation.Evidence.{normalized_tx_identity}
use clairveiljs.Reservation.Normalize.{operation_success_evidence_required_metadata_state}
use clairveiljs.Reservation.Managed.Outcome.{operation_outcome_metadata_fields}
use clairveiljs.Reservation.Patching.Fields.{
  immutable_reservation_patch_fields, common_reservation_patch_fields,
  broadcast_reservation_patch_fields, reconciliation_reservation_patch_fields,
  operation_success_predicate_texts, protected_metadata_evidence_fields,
  managed_lifecycle_metadata_aliases, managed_lifecycle_metadata_fields,
}

-- Which managed mutation the guards have found a patch to be.
pub record Managed : Type 0 where
  pub relay_handoff : Bool
  pub relay_evidence : Bool
  pub broadcast_attempt : Bool
  pub broadcast_rejection : Bool
  pub broadcast_failure : Bool
  pub expired_failure : Bool
  pub operation_reconcile : Bool

unfoldable pub assert_patch_keeps_reservation_identity : Fields → Result (Unit {0})
assert_patch_keeps_reservation_identity patch =
    reject (any (has patch) immutable_reservation_patch_fields)
      "reservation identity field cannot be changed through mutation"

abbrev names_if : Bool → List String → List String
names_if true names = names
names_if false names = []

unfoldable pub allowed_reservation_patch_fields : Reservation → Status → Managed → List String
allowed_reservation_patch_fields current to managed =
    if managed.relay_evidence
    then "updated_at" ∷ "updatedAt" ∷ "metadata" ∷ "payload_hash" ∷ "payloadHash"
      ∷ "submitted_tx_hash" ∷ "submittedTxHash" ∷ "txHashSubmitted" ∷ "broadcast_attempt_count"
      ∷ "broadcastAttemptCount" ∷ "broadcast_in_flight" ∷ "broadcastInFlight" ∷ []
    else if managed.operation_reconcile
    then "updated_at" ∷ "updatedAt" ∷ "metadata" ∷ []
    else common_reservation_patch_fields
      ++ (names_if (same_status to proof_ready && same_status current.status proving) (
            operation_success_predicate_texts
            ++ "payload_hash" ∷ "payloadHash" ∷ "sign_doc_hash" ∷ "signDocHash" ∷ "tx_bytes_hash"
              ∷ "txBytesHash" ∷ [])
          ++ (names_if managed.relay_handoff (
                "payload_hash" ∷ "payloadHash" ∷ "tx_bytes_hash" ∷ "txBytesHash" ∷ "sign_doc_hash"
                ∷ "signDocHash" ∷ [])
              ++ (names_if managed.broadcast_attempt broadcast_reservation_patch_fields
                  ++ names_if
                      (one_of to
                        (submitted ∷ unknown ∷ replan_required ∷ failed ∷ manual_review ∷ []))
                      (broadcast_reservation_patch_fields
                        ++ reconciliation_reservation_patch_fields))))

unfoldable pub assert_reservation_transition_patch_fields :
    Reservation → Status → Fields → Managed → Result (Unit {0})
unfolding allowed_reservation_patch_fields
assert_reservation_transition_patch_fields current to patch managed =
    assert (all (name_in (allowed_reservation_patch_fields current to managed)) (keys patch))
      "reservation patch field is not allowed"

unfoldable pub patch_has_any_own_property : Fields → List String → Bool
patch_has_any_own_property patch ks = any (has patch) ks

-- `firstDefined` of the patch's values of the keys.
unfoldable pub patch_value_for_aliases : Fields → List String → Option Value
patch_value_for_aliases patch [] = none
patch_value_for_aliases patch (k ∷ ks) =
    first_defined (get patch k) (patch_value_for_aliases patch ks)

-- A text of the record that is set once. Identities are compared in normal form.
unfoldable pub assert_write_once :
    (List ℕ → List ℕ) → List ℕ → Fields → List String → Result (Unit {0})
unfolding patch_has_any_own_property patch_value_for_aliases
assert_write_once comparable existing patch aliases =
    let incoming = text_if_truthy (patch_value_for_aliases patch aliases) in
    if not (patch_has_any_own_property patch aliases)
    then ok tt
    else if is_empty incoming
    then assert (is_empty existing) "cannot be cleared through reservation mutation"
    else assert (is_empty existing || codes_eq (comparable incoming) (comparable existing))
        "is write-once once broadcast evidence is recorded"

abbrev pub submitted_tx_hash_aliases : List String
submitted_tx_hash_aliases = "submitted_tx_hash" ∷ "submittedTxHash" ∷ "txHashSubmitted" ∷ []

abbrev at_least : Option ℕ → ℕ → Bool
at_least none n = false
at_least (some m) n = leb n m

unfoldable pub assert_attempt_count_monotonic : Reservation → Fields → Result (Unit {0})
assert_attempt_count_monotonic current patch =
    assert
      (not (has patch "broadcast_attempt_count" || has patch "broadcastAttemptCount")
        || at_least
            (number_of (
              first_defined (get patch "broadcast_attempt_count")
                (get patch "broadcastAttemptCount")))
            current.broadcast_attempt_count)
      "broadcast_attempt_count cannot decrease through reservation mutation"

-- `undefined`, `null` and the empty text are no evidence.
unfoldable pub holds_evidence : Option Value → Bool
holds_evidence none = false
holds_evidence (some Value.null) = false
holds_evidence (some (str [])) = false
holds_evidence (some v) = true

unfoldable pub keeps_protected : Bool → Fields → Fields → String → Bool
unfolding holds_evidence
keeps_protected outcome_allowed current next k =
    (outcome_allowed && name_in operation_outcome_metadata_fields k)
    || not (holds_evidence (get current k))
    || same_json? (get next k) (get current k)

unfoldable pub assert_metadata_monotonic : Bool → Fields → Option Value → Result (Unit {0})
unfolding keeps_protected
assert_metadata_monotonic outcome_allowed current none = ok tt
assert_metadata_monotonic outcome_allowed current (some v) = do
  assert (is_object (some v)) "reservation metadata evidence cannot be cleared through mutation"
  let next = fields_of (some v)
  assert
      (outcome_allowed
        || all (λ k. not (has next k) || same_json? (get next k) (get current k))
            operation_outcome_metadata_fields)
      "metadata may only be set by operation reconciliation"
  assert (all (keeps_protected outcome_allowed current next) protected_metadata_evidence_fields)
      "metadata evidence cannot be replaced or cleared through reservation mutation"

unfoldable pub assert_reservation_evidence_patch_monotonic :
    Reservation → Fields → Bool → Result (Unit {0})
unfolding assert_write_once
assert_reservation_evidence_patch_monotonic current patch outcome_allowed = do
  assert_write_once (λ t. t) current.payload_hash patch ("payload_hash" ∷ "payloadHash" ∷ [])
  assert_write_once normalized_tx_identity current.submitted_tx_hash patch submitted_tx_hash_aliases
  assert_write_once normalized_tx_identity current.tx_bytes_hash patch
      ("tx_bytes_hash" ∷ "txBytesHash" ∷ [])
  assert_write_once normalized_tx_identity current.sign_doc_hash patch
      ("sign_doc_hash" ∷ "signDocHash" ∷ [])
  assert_attempt_count_monotonic current patch
  assert_metadata_monotonic outcome_allowed current.metadata (get patch "metadata")

unfoldable pub predicate_texts : Reservation → List (List ℕ × List String)
predicate_texts r =
    (
      r.expected_operation_evidence_hash,
      "expected_operation_evidence_hash" ∷ "expectedOperationEvidenceHash" ∷ [],
    )
    ∷ (r.expected_output_commitment, "expected_output_commitment" ∷ "expectedOutputCommitment" ∷ [])
    ∷ (r.expected_disclosure_digest, "expected_disclosure_digest" ∷ "expectedDisclosureDigest" ∷ [])
    ∷ (r.expected_recipient_hash, "expected_recipient_hash" ∷ "expectedRecipientHash" ∷ [])
    ∷ (r.expected_amount, "expected_amount" ∷ "expectedAmount" ∷ [])
    ∷ (r.expected_amount_hash, "expected_amount_hash" ∷ "expectedAmountHash" ∷ [])
    ∷ (r.expected_denom, "expected_denom" ∷ "expectedDenom" ∷ [])
    ∷ []

abbrev keeps_text : Fields → List ℕ × List String → Bool
keeps_text patch (existing, aliases) =
    not (patch_has_any_own_property patch aliases)
    || codes_eq (text_if_truthy (patch_value_for_aliases patch aliases)) existing

abbrev at_exactly : Option ℕ → ℕ → Bool
at_exactly none n = false
at_exactly (some m) n = m == n

-- `Number(value || 0)`
abbrev or_zero : Option Value → Option Value
or_zero v = if is_empty (text_if_truthy v) then some (num 0) else v

unfoldable pub keeps_batch_item : Reservation → Fields → Bool
keeps_batch_item current patch =
    let index_aliases : List String = "batch_item_index" ∷ "batchItemIndex" ∷ [] in
    let known_aliases : List String = "batch_item_index_known" ∷ "batchItemIndexKnown" ∷ [] in
    (not (patch_has_any_own_property patch index_aliases)
      || at_exactly (number_of (or_zero (patch_value_for_aliases patch index_aliases)))
          current.batch_item_index)
    && (not (patch_has_any_own_property patch known_aliases)
        || (if is_true (patch_value_for_aliases patch known_aliases)
            then current.batch_item_index_known
            else not current.batch_item_index_known))

-- `operationSuccessEvidenceRequired` of a record, whose metadata alone can hold it.
unfoldable pub operation_success_evidence_required : Reservation → Bool
operation_success_evidence_required r = is_true (
    first_defined (get r.metadata "operation_success_evidence_required")
      (get r.metadata "operationSuccessEvidenceRequired"))

unfoldable pub assert_evidence_required_immutable :
    Bool → Reservation → Option Value → Result (Unit {0})
unfolding operation_success_evidence_required
assert_evidence_required_immutable initializing current (some (obj metadata)) = do
  incoming ← operation_success_evidence_required_metadata_state metadata
  reject
      (incoming.present
        && not initializing
        && not (
            if incoming.value
            then operation_success_evidence_required current
            else not (operation_success_evidence_required current)))
      "operation_success_evidence_required is write-once after ProofReady success evidence is established"
assert_evidence_required_immutable initializing current _ = ok tt

-- What an operation has to show to have succeeded is fixed at `ProofReady`.
unfoldable pub assert_operation_success_predicate_immutable :
    Reservation → Status → Fields → Result (Unit {0})
unfolding assert_evidence_required_immutable predicate_texts keeps_batch_item
assert_operation_success_predicate_immutable current to patch = do
  let initializing = same_status current.status proving && same_status to proof_ready
  assert
      (initializing
        || (all (keeps_text patch) (predicate_texts current) && keeps_batch_item current patch))
      "is write-once after ProofReady success evidence is established"
  assert_evidence_required_immutable initializing current (get patch "metadata")

unfoldable pub metadata_field_changed : Fields → Fields → String → Bool
metadata_field_changed current next k = has next k && not (same_json? (get next k) (get current k))

unfoldable pub allowed_lifecycle_metadata : Reservation → Status → Managed → List String
allowed_lifecycle_metadata current to managed =
    names_if (same_status current.status proving && same_status to proof_ready)
      ("no_broadcast_attempt" ∷ "operation_success_evidence_required" ∷ "execution_transport" ∷ [])
    ++ (names_if managed.relay_handoff
          ("relay_handed_off" ∷ "relay_handed_off_at" ∷ "no_broadcast_attempt" ∷ [])
        ++ (names_if managed.relay_evidence (
              "transaction_included_confirmed" ∷ "payload_hash_matched"
              ∷ "relay_evidence_checked_height" ∷ "relay_evidence_tx_hash" ∷ "no_broadcast_attempt"
              ∷ [])
            ++ (names_if managed.broadcast_attempt (
                  "broadcast_attempt_started_at" ∷ "broadcast_attempt_reason"
                  ∷ "no_broadcast_attempt" ∷ [])
                ++ (names_if managed.broadcast_rejection (
                      "wallet_rejected_before_broadcast" ∷ "provider_rejection_code"
                      ∷ "provider_rejection_codespace" ∷ "provider_rejection_log" ∷ "rpc_invoked"
                      ∷ "check_tx_rejected" ∷ "broadcast_aborted_before_rpc"
                      ∷ "no_broadcast_attempt" ∷ "proof_discarded" ∷ [])
                    ++ (names_if managed.expired_failure (
                          "authoritative_execution_failure" ∷ "execution_failed_confirmed"
                          ∷ "input_nullifier_count" ∷ "proof_discarded" ∷ "no_broadcast_attempt"
                          ∷ [])
                        ++ (names_if managed.operation_reconcile operation_outcome_metadata_fields
                            ++ (names_if
                                  (one_of to (
                                    submitted ∷ unknown ∷ replan_required ∷ manual_review ∷ failed
                                    ∷ []))
                                  ("no_broadcast_attempt" ∷ [])
                                ++ (names_if
                                      (one_of to (replan_required ∷ manual_review ∷ failed ∷ []))
                                      ("proof_discarded" ∷ [])
                                    ++ names_if
                                        (same_status current.status manual_review
                                          && one_of to (released ∷ replan_required ∷ failed ∷ []))
                                        ("operator_approved" ∷ "operator_id"
                                          ∷ "operator_approval_reference"
                                          ∷ "manual_review_resolution_reason" ∷ [])))))))))

unfoldable pub assert_managed_lifecycle_metadata_mutation :
    Reservation → Status → Fields → Managed → Result (Unit {0})
unfolding metadata_field_changed allowed_lifecycle_metadata
assert_managed_lifecycle_metadata_mutation current to patch managed =
    let next = fields_of (get patch "metadata") in
    let changed = metadata_field_changed current.metadata next in
    let allowed = allowed_lifecycle_metadata current to managed in
    do
      reject (any changed managed_lifecycle_metadata_aliases)
          "lifecycle metadata alias cannot be introduced"
      reject (any (λ k. changed k && not (name_in allowed k)) managed_lifecycle_metadata_fields)
          "lifecycle metadata may only be set by its managed reservation transition"
