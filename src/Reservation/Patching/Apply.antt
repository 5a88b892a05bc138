-- ===== src/Reservation/Patching/Apply.antt =====
-- src/privacy/reservation.js: how a mutation's patch is prepared before the record is rebuilt.
use clairveiljs.Prelude.{
  ℕ, String, Bool, true, false, not, ◌||◌, none, some, List, [], ◌∷◌, if◌then◌else◌, Result,
}
use clairveiljs.Text.{codes, codes_eq}
use clairveiljs.Json.{
  bool, str, obj, Fields, get, fields_of, is_true, is_object, text_if_truthy, put, merge, delete,
}
use clairveiljs.Reservation.Status.{Status}
use clairveiljs.Reservation.Record.{Reservation}
use clairveiljs.Reservation.Lease.{
  is_empty, reservation_claim_token_hash_field, clears_lease_for_status_transition,
}
use clairveiljs.Reservation.Platform.{Platform}
use clairveiljs.Reservation.Record.{to_fields}
use clairveiljs.Reservation.Evidence.{normalized_tx_identity}
use clairveiljs.Reservation.Normalize.{normalize_reservation}
use clairveiljs.Reservation.Patching.Guards.{
  patch_has_any_own_property, patch_value_for_aliases, submitted_tx_hash_aliases,
}
use clairveiljs.Reservation.Status.{status_text}

-- The claim hash of the record outlives a patch of its metadata.
unfoldable pub patch_with_preserved_reservation_claim_hash : Reservation → Fields → Fields
patch_with_preserved_reservation_claim_hash current patch =
    let claim_hash = text_if_truthy (get current.metadata reservation_claim_token_hash_field) in
    if is_empty claim_hash || not (is_object (get patch "metadata"))
    then patch
    else put "metadata"
        (obj (
          put reservation_claim_token_hash_field (str claim_hash)
            (fields_of (get patch "metadata"))))
        patch

abbrev pub delete_all : List String → Fields → Fields
delete_all [] fs = fs
delete_all (k ∷ ks) fs = delete_all ks (delete k fs)

-- An identity that says the same as the stored one keeps the stored spelling.
unfoldable pub with_stored_identity : List ℕ → String → List String → Fields → Fields
with_stored_identity existing canonical aliases patch =
    let incoming = text_if_truthy (patch_value_for_aliases patch aliases) in
    if not (patch_has_any_own_property patch aliases)
      || is_empty existing
      || not (codes_eq (normalized_tx_identity existing) (normalized_tx_identity incoming))
    then patch
    else put canonical (str existing) (delete_all aliases patch)

unfoldable pub patch_with_stable_write_once_identity_representation : Reservation → Fields → Fields
unfolding with_stored_identity
patch_with_stable_write_once_identity_representation current patch =
    with_stored_identity current.sign_doc_hash "sign_doc_hash"
      ("sign_doc_hash" ∷ "signDocHash" ∷ [])
      (with_stored_identity current.tx_bytes_hash "tx_bytes_hash"
        ("tx_bytes_hash" ∷ "txBytesHash" ∷ [])
        (with_stored_identity current.submitted_tx_hash "submitted_tx_hash"
          submitted_tx_hash_aliases patch))

-- `metadata[field] = isBoolean ? booleanEvidence(value) : value`; `undefined` is not stored.
abbrev pub copy_evidence : Fields → String → String → Bool → Fields → Fields
copy_evidence patch canonical alias true metadata =
    if patch_has_any_own_property patch (canonical ∷ alias ∷ [])
    then put canonical (bool (is_true (patch_value_for_aliases patch (canonical ∷ alias ∷ []))))
        metadata
    else metadata
copy_evidence patch canonical alias false metadata =
    elim (patch_value_for_aliases patch (canonical ∷ alias ∷ [])) [
      | none ↦ metadata
      | some v ↦ put canonical v metadata
    ]

abbrev pub reconciliation_metadata_fields : List String
reconciliation_metadata_fields =
    "nullifier_unspent_confirmed" ∷ "nullifierUnspentConfirmed" ∷ "checked_height" ∷ "checkedHeight"
    ∷ "tx_hash_checked" ∷ "txHashChecked" ∷ "tx_absent_or_failed_confirmed"
    ∷ "txAbsentOrFailedConfirmed" ∷ "proof_discarded" ∷ "proofDiscarded"
    ∷ "authoritative_expiry_confirmed" ∷ "authoritativeExpiryConfirmed" ∷ []

-- Evidence given beside the metadata is stored in it.
unfoldable pub patch_with_persisted_reconciliation_evidence : Fields → Fields
patch_with_persisted_reconciliation_evidence patch =
    if not (patch_has_any_own_property patch reconciliation_metadata_fields)
    then patch
    else put "metadata"
        (obj (
          copy_evidence patch "authoritative_expiry_confirmed" "authoritativeExpiryConfirmed" true (
            copy_evidence patch "proof_discarded" "proofDiscarded" true (
              copy_evidence patch "tx_absent_or_failed_confirmed" "txAbsentOrFailedConfirmed" true (
                copy_evidence patch "tx_hash_checked" "txHashChecked" false (
                  copy_evidence patch "checked_height" "checkedHeight" false (
                    copy_evidence patch "nullifier_unspent_confirmed" "nullifierUnspentConfirmed"
                      true (fields_of (get patch "metadata")))))))))
        patch

unfoldable pub patch_with_cleared_lease : Status → Fields → Fields
patch_with_cleared_lease to patch =
    if clears_lease_for_status_transition to
    then put "broadcast_in_flight" (bool false) (
        put "last_heartbeat_at" (str []) (
          put "lease_until" (str [])
            (put "lease_token" (str []) (put "lease_owner" (str []) patch))))
    else patch

-- `normalizeReservation({ ...current, ...patch, status: to, updated_at: nowIso(now) })`
unfoldable pub apply_patch : Platform → Reservation → Status → Fields → ℕ → Result Reservation
apply_patch p current to patch now = normalize_reservation (p.iso_date now) (
    put "updated_at" (str (p.iso_date now))
      (put "status" (str (codes (status_text to))) (merge (to_fields current) patch)))
