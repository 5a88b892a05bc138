-- ===== src/Reservation/Normalize.antt =====
-- src/privacy/reservation.js, `normalizeReservation`: a record from an object, or a thrown error.
pub mod Laws
mod Parts
mod Metadata
unfoldable pub use Parts.{
  parse_safe_integer, text_from, first_truthy, normalized_batch_item_index,
  normalized_boolean_alias, normalized_non_negative_safe_integer_alias, normalized_uint64_value,
  normalize_status,
}
pub use Metadata.{State}
unfoldable pub use Metadata.{
  normalize_reservation_metadata, execution_transport_metadata_state,
  operation_success_evidence_required_metadata_state,
}
use clairveiljs.Prelude.{
  ℕ, String, Bool, true, false, not, ◌&&◌, ◌||◌, Option, none, some, List, [], ◌∷◌, ◌++◌, any,
  if◌then◌else◌, Result, ok, err, ◌>>=◌, ◌>>◌, assert, reject, map,
}
use clairveiljs.Text.{codes, codes_eq, to_upper_case}
use clairveiljs.Json.{Value, str, Fields, get, first_defined, text_if_truthy, text_or_empty}
use clairveiljs.Reservation.Record.{Reservation}

unfoldable pub normalize_reservation : List ℕ → Fields → Result Reservation
unfolding text_from
normalize_reservation now input = do
  status ← normalize_status (get input "status")
  let reservation_id = text_from input ("reservation_id" ∷ "reservationID" ∷ "reservationId" ∷ [])
  let owner_key_id = text_from input ("owner_key_id" ∷ "ownerKeyID" ∷ "ownerKeyId" ∷ [])
  let lookup_key = text_from input ("nullifier_lookup_key" ∷ "nullifierLookupKey" ∷ [])
  let created = text_from input ("created_at" ∷ "createdAt" ∷ [])
  let created_at = if codes_eq created [] then now else created
  let updated = text_from input ("updated_at" ∷ "updatedAt" ∷ [])
  let index = normalized_batch_item_index (
      first_defined (get input "batch_item_index")
        (first_defined (get input "batchItemIndex") (some (str []))))
  index_known ← normalized_boolean_alias input "batch_item_index_known" "batchItemIndexKnown" false
  attempt_count ←
      normalized_non_negative_safe_integer_alias input "broadcast_attempt_count"
        "broadcastAttemptCount" 0
  in_flight ← normalized_boolean_alias input "broadcast_in_flight" "broadcastInFlight" false
  reject (codes_eq reservation_id []) "reservation_id is required"
  reject (codes_eq owner_key_id []) "owner_key_id is required"
  reject (codes_eq lookup_key []) "nullifier_lookup_key is required"
  reject (index_known && (not index.valid || not index.provided))
      "batch_item_index must be a non-negative safe integer when known"
  height ← normalized_uint64_value (get input "height")
  sequence ← normalized_uint64_value (get input "sequence")
  metadata ← normalize_reservation_metadata (get input "metadata")
  ok (record {
    reservation_id = reservation_id;
    operation_id = text_from input ("operation_id" ∷ "operationID" ∷ "operationId" ∷ []);
    owner_key_id = owner_key_id;
    nullifier_lookup_key = lookup_key;
    nullifier_lookup_key_id =
        text_from input
          ("nullifier_lookup_key_id" ∷ "nullifierLookupKeyID" ∷ "nullifierLookupKeyId" ∷ []);
    status = status;
    lease_owner = text_from input ("lease_owner" ∷ "leaseOwner" ∷ []);
    lease_token = text_from input ("lease_token" ∷ "leaseToken" ∷ []);
    lease_until = text_from input ("lease_until" ∷ "leaseUntil" ∷ []);
    last_heartbeat_at = text_from input ("last_heartbeat_at" ∷ "lastHeartbeatAt" ∷ []);
    kind = text_from input ("kind" ∷ "operation_kind" ∷ "operationKind" ∷ []);
    note_id = text_from input ("note_id" ∷ "noteID" ∷ "noteId" ∷ []);
    amount = text_from input ("amount" ∷ []);
    tx_hash = to_upper_case (text_from input ("tx_hash" ∷ "txHash" ∷ []));
    height = height;
    sequence = sequence;
    payload_hash = text_from input ("payload_hash" ∷ "payloadHash" ∷ []);
    expected_operation_evidence_hash =
        text_from input ("expected_operation_evidence_hash" ∷ "expectedOperationEvidenceHash" ∷ []);
    expected_output_commitment =
        text_from input ("expected_output_commitment" ∷ "expectedOutputCommitment" ∷ []);
    expected_disclosure_digest =
        text_from input ("expected_disclosure_digest" ∷ "expectedDisclosureDigest" ∷ []);
    expected_recipient_hash =
        text_from input ("expected_recipient_hash" ∷ "expectedRecipientHash" ∷ []);
    expected_amount =
        text_or_empty (first_defined (get input "expected_amount") (get input "expectedAmount"));
    expected_amount_hash = text_from input ("expected_amount_hash" ∷ "expectedAmountHash" ∷ []);
    expected_denom = text_from input ("expected_denom" ∷ "expectedDenom" ∷ []);
    batch_item_index = index.value;
    batch_item_index_known = index_known;
    sign_doc_hash = text_from input ("sign_doc_hash" ∷ "signDocHash" ∷ []);
    tx_bytes_hash = text_from input ("tx_bytes_hash" ∷ "txBytesHash" ∷ []);
    submitted_tx_hash =
        text_from input ("submitted_tx_hash" ∷ "submittedTxHash" ∷ "txHashSubmitted" ∷ []);
    broadcast_attempt_count = attempt_count;
    broadcast_in_flight = in_flight;
    last_broadcast_error = text_from input ("last_broadcast_error" ∷ "lastBroadcastError" ∷ []);
    created_at = created_at;
    updated_at = if codes_eq updated [] then created_at else updated;
    metadata = metadata;
  })
