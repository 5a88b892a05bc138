-- ===== src/Reservation/Patching/Fields.antt =====
-- src/privacy/reservation.js: the tables of field names by which a mutation's patch is judged.
use clairveiljs.Prelude.{String, List, [], ◌∷◌, not, keep}
use clairveiljs.Reservation.Lease.{reservation_claim_token_hash_field, name_in}

-- What the metadata of a new record may not hold.
abbrev pub initial_lifecycle_metadata_fields : List String
initial_lifecycle_metadata_fields =
    "relay_handed_off" ∷ "relayHandedOff" ∷ "relay_handed_off_at" ∷ "relayHandedOffAt"
    ∷ "transaction_included_confirmed" ∷ "transactionIncludedConfirmed" ∷ "payload_hash_matched"
    ∷ "payloadHashMatched" ∷ "relay_evidence_checked_height" ∷ "relayEvidenceCheckedHeight"
    ∷ "relay_evidence_tx_hash" ∷ "relayEvidenceTxHash" ∷ "broadcast_attempt_started_at"
    ∷ "broadcastAttemptStartedAt" ∷ "broadcast_attempt_reason" ∷ "broadcastAttemptReason"
    ∷ "no_broadcast_attempt" ∷ "noBroadcastAttempt" ∷ "proof_discarded" ∷ "proofDiscarded"
    ∷ "operator_approved" ∷ "operatorApproved" ∷ "operator_id" ∷ "operatorId"
    ∷ "operator_approval_reference" ∷ "operatorApprovalReference" ∷ "operation_status"
    ∷ "operationStatus" ∷ "operation_success_evidence_matches" ∷ "operationSuccessEvidenceMatches"
    ∷ "operation_success_evidence_errors" ∷ "operationSuccessEvidenceErrors"
    ∷ "operation_success_evidence_conflicts" ∷ "operationSuccessEvidenceConflicts"
    ∷ "operation_success_evidence_required" ∷ "operationSuccessEvidenceRequired"
    ∷ "execution_transport" ∷ "executionTransport" ∷ "manual_review_resolution_reason"
    ∷ "manualReviewResolutionReason" ∷ "wallet_rejected_before_broadcast"
    ∷ "walletRejectedBeforeBroadcast" ∷ "provider_rejection_code" ∷ "providerRejectionCode"
    ∷ "provider_rejection_codespace" ∷ "provider_rejection_log" ∷ "rpc_invoked"
    ∷ "check_tx_rejected" ∷ "broadcast_aborted_before_rpc" ∷ "authoritative_execution_failure"
    ∷ "execution_failed_confirmed" ∷ "input_nullifier_count" ∷ []

-- Evidence that, once in the metadata, stays as it is.
abbrev pub protected_metadata_evidence_fields : List String
protected_metadata_evidence_fields =
    "relay_handed_off" ∷ "relayHandedOff" ∷ "relay_handed_off_at" ∷ "relayHandedOffAt"
    ∷ "transaction_included_confirmed" ∷ "transactionIncludedConfirmed" ∷ "payload_hash_matched"
    ∷ "payloadHashMatched" ∷ "relay_evidence_checked_height" ∷ "relayEvidenceCheckedHeight"
    ∷ "relay_evidence_tx_hash" ∷ "relayEvidenceTxHash" ∷ "broadcast_attempt_started_at"
    ∷ "broadcastAttemptStartedAt" ∷ "broadcast_attempt_reason" ∷ "broadcastAttemptReason"
    ∷ "operation_status" ∷ "operationStatus" ∷ "operation_success_evidence_matches"
    ∷ "operationSuccessEvidenceMatches" ∷ "operation_success_evidence_errors"
    ∷ "operationSuccessEvidenceErrors" ∷ "operation_success_evidence_conflicts"
    ∷ "operationSuccessEvidenceConflicts" ∷ "operation_success_evidence_required"
    ∷ "operationSuccessEvidenceRequired" ∷ "execution_transport" ∷ "executionTransport"
    ∷ "operator_approved" ∷ "operatorApproved" ∷ "operator_id" ∷ "operatorId"
    ∷ "operator_approval_reference" ∷ "operatorApprovalReference"
    ∷ "manual_review_resolution_reason" ∷ "manualReviewResolutionReason"
    ∷ "authoritative_execution_failure" ∷ "execution_failed_confirmed" ∷ "input_nullifier_count"
    ∷ []

-- The second spellings of lifecycle fields.
abbrev pub managed_lifecycle_metadata_aliases : List String
managed_lifecycle_metadata_aliases =
    "relayHandedOff" ∷ "relayHandedOffAt" ∷ "transactionIncludedConfirmed" ∷ "payloadHashMatched"
    ∷ "relayEvidenceCheckedHeight" ∷ "relayEvidenceTxHash" ∷ "broadcastAttemptStartedAt"
    ∷ "broadcastAttemptReason" ∷ "noBroadcastAttempt" ∷ "proofDiscarded" ∷ "operatorApproved"
    ∷ "operatorId" ∷ "operatorApprovalReference" ∷ "operationStatus"
    ∷ "operationSuccessEvidenceMatches" ∷ "operationSuccessEvidenceErrors"
    ∷ "operationSuccessEvidenceConflicts" ∷ "operationSuccessEvidenceRequired"
    ∷ "executionTransport" ∷ "manualReviewResolutionReason" ∷ "walletRejectedBeforeBroadcast"
    ∷ "providerRejectionCode" ∷ "providerRejectionCodespace" ∷ []

-- Fields that only their managed transition may set.
abbrev pub managed_lifecycle_metadata_fields : List String
managed_lifecycle_metadata_fields =
    keep (λ k. not (name_in managed_lifecycle_metadata_aliases k))
      (reservation_claim_token_hash_field ∷ initial_lifecycle_metadata_fields)

abbrev pub immutable_reservation_patch_fields : List String
immutable_reservation_patch_fields =
    "reservation_id" ∷ "reservationID" ∷ "reservationId" ∷ "operation_id" ∷ "operationID"
    ∷ "operationId" ∷ "owner_key_id" ∷ "ownerKeyId" ∷ "owner_keyID" ∷ "ownerKeyID"
    ∷ "nullifier_lookup_key" ∷ "nullifierLookupKey" ∷ "nullifier_lookup_key_id"
    ∷ "nullifierLookupKeyId" ∷ "nullifierLookupKeyID" ∷ "note_id" ∷ "noteId" ∷ "noteID" ∷ "kind"
    ∷ "operation_kind" ∷ "operationKind" ∷ "amount" ∷ "tx_hash" ∷ "txHash" ∷ "height" ∷ "sequence"
    ∷ "created_at" ∷ "createdAt" ∷ []

abbrev pub common_reservation_patch_fields : List String
common_reservation_patch_fields =
    "updated_at" ∷ "updatedAt" ∷ "metadata" ∷ "lease_owner" ∷ "leaseOwner" ∷ "lease_token"
    ∷ "leaseToken" ∷ "lease_until" ∷ "leaseUntil" ∷ "last_heartbeat_at" ∷ "lastHeartbeatAt" ∷ []

abbrev pub broadcast_reservation_patch_fields : List String
broadcast_reservation_patch_fields =
    "submitted_tx_hash" ∷ "submittedTxHash" ∷ "txHashSubmitted" ∷ "tx_bytes_hash" ∷ "txBytesHash"
    ∷ "sign_doc_hash" ∷ "signDocHash" ∷ "broadcast_attempt_count" ∷ "broadcastAttemptCount"
    ∷ "broadcast_in_flight" ∷ "broadcastInFlight" ∷ "last_broadcast_error" ∷ "lastBroadcastError"
    ∷ []

abbrev pub reconciliation_reservation_patch_fields : List String
reconciliation_reservation_patch_fields =
    "nullifier_unspent_confirmed" ∷ "nullifierUnspentConfirmed" ∷ "checked_height" ∷ "checkedHeight"
    ∷ "tx_hash_checked" ∷ "txHashChecked" ∷ "tx_absent_or_failed_confirmed"
    ∷ "txAbsentOrFailedConfirmed" ∷ "proof_discarded" ∷ "proofDiscarded"
    ∷ "authoritative_expiry_confirmed" ∷ "authoritativeExpiryConfirmed" ∷ []

abbrev pub operation_success_predicate_texts : List String
operation_success_predicate_texts =
    "expected_operation_evidence_hash" ∷ "expectedOperationEvidenceHash"
    ∷ "expected_output_commitment" ∷ "expectedOutputCommitment" ∷ "expected_disclosure_digest"
    ∷ "expectedDisclosureDigest" ∷ "expected_recipient_hash" ∷ "expectedRecipientHash"
    ∷ "expected_amount" ∷ "expectedAmount" ∷ "expected_amount_hash" ∷ "expectedAmountHash"
    ∷ "expected_denom" ∷ "expectedDenom" ∷ "batch_item_index" ∷ "batchItemIndex"
    ∷ "batch_item_index_known" ∷ "batchItemIndexKnown" ∷ []
