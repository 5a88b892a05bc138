-- ===== src/Reservation/Managed/Relay.antt =====
-- src/privacy/reservation.js: the hand-over of a payload to a relayer, and the evidence that the
-- relayed transaction was included.

use clairveiljs.Prelude.{
  ℕ, String, Bool, false, not, ◌&&◌, ◌||◌, Option, some, List, [], ◌∷◌, any, all, leb, ltb,
  if◌then◌else◌, Result, err, ◌>>=◌, ◌>>◌, assert, reject, keep, str_eq,
}
use clairveiljs.Text.{codes, codes_eq, trim}
use clairveiljs.Json.{
  Value, str, obj, Fields, get, has, keys, is_true, is_false, is_object, text_or_empty,
  text_if_truthy, same_json?,
}
use clairveiljs.Reservation.Status.{Status, proof_ready, submitted, same_status}
use clairveiljs.Reservation.Record.{Reservation, Patch, relay_handoff}
use clairveiljs.Reservation.Normalize.{text_from}
use clairveiljs.Reservation.Lease.{
  is_empty, name_in, assert_current_lease_token, patch_lease_token, patch_lease_owner,
}
use clairveiljs.Reservation.Platform.{Platform}
use clairveiljs.Reservation.Evidence.{
  normalized_tx_identity, canonical_relay_transaction_hash,
  reservation_network_transaction_identities, positive_checked_height,
}
use clairveiljs.Reservation.Managed.Broadcast.{
  when_managed, patch_metadata, is_managed_mutation, number_is,
}

unfoldable pub assert_managed_relay_handoff_mutation :
    Platform → Reservation → Status → Patch → ℕ → Result Bool
unfolding is_managed_mutation
assert_managed_relay_handoff_mutation p current to patch now =
    when_managed (is_managed_mutation relay_handoff proof_ready proof_ready current to patch) do
      reject (current.broadcast_in_flight || ltb 0 current.broadcast_attempt_count)
          "broadcast attempt already started; reconcile before relay handoff"
      assert (is_true (get (patch_metadata patch) "relay_handed_off"))
          "relay handoff evidence requires relay_handed_off metadata"
      let payload_hash = text_from patch.fields ("payload_hash" ∷ "payloadHash" ∷ [])
      reject
          (is_empty payload_hash
            || is_empty current.payload_hash
            || not (codes_eq payload_hash current.payload_hash))
          "relay handoff payload hash must match the ProofReady reservation"
      assert_current_lease_token p current (patch_lease_token patch.fields)
          (patch_lease_owner patch.fields) now

-- The two metadata fields that mark the attempt of a relayer of the same origin.
unfoldable pub is_persisted_same_origin_local_relay_evidence : Reservation → Bool
is_persisted_same_origin_local_relay_evidence r =
    not (is_true (get r.metadata "relay_handed_off"))
    && codes_eq (text_if_truthy (get r.metadata "broadcast_attempt_reason"))
        (codes "same_origin_local_relayer_submit")
    && not (is_empty (trim (text_if_truthy (get r.metadata "local_relayer"))))

unfoldable pub is_durable_same_origin_local_relay_attempt : Reservation → Bool
unfolding is_persisted_same_origin_local_relay_evidence
is_durable_same_origin_local_relay_attempt r =
    is_persisted_same_origin_local_relay_evidence r
    && r.broadcast_in_flight
    && leb 1 r.broadcast_attempt_count

abbrev is_text : Option Value → List ℕ → Bool
is_text (some (str s)) t = codes_eq s t
is_text _ t = false

-- The metadata of an included relay transaction, with its height and its hash.
unfoldable pub binds_inclusion : Fields → List ℕ → List ℕ → Bool
binds_inclusion metadata height tx_hash =
    is_true (get metadata "transaction_included_confirmed")
    && is_true (get metadata "payload_hash_matched")
    && codes_eq (text_or_empty (get metadata "relay_evidence_checked_height")) height
    && is_text (get metadata "relay_evidence_tx_hash") tx_hash
    && codes_eq (text_or_empty (get metadata "checked_height")) height
    && is_text (get metadata "tx_hash_checked") tx_hash

unfoldable pub has_other_identity : List (List ℕ) → List ℕ → Bool
has_other_identity identities tx_hash =
    any (λ identity. not (codes_eq identity (normalized_tx_identity tx_hash))) identities

unfoldable pub assert_persisted_relay_transaction_evidence :
    Reservation → List ℕ → List ℕ → List ℕ → Result (Unit {0})
unfolding binds_inclusion has_other_identity is_persisted_same_origin_local_relay_evidence
assert_persisted_relay_transaction_evidence r payload_hash tx_hash checked_height = do
  let source_recorded =
      is_true (get r.metadata "relay_handed_off") || is_persisted_same_origin_local_relay_evidence r
  assert
      (same_status r.status submitted
        && source_recorded
        && codes_eq r.payload_hash payload_hash
        && codes_eq r.submitted_tx_hash tx_hash
        && not r.broadcast_in_flight
        && leb 1 r.broadcast_attempt_count
        && is_empty r.lease_owner
        && is_empty r.lease_token
        && is_empty r.lease_until
        && is_empty r.last_heartbeat_at)
      "relay transaction evidence conflicts with the persisted Submitted operation"
  identities ← reservation_network_transaction_identities r
  assert
      (not (has_other_identity identities tx_hash)
        && binds_inclusion r.metadata checked_height tx_hash)
      "relay transaction evidence conflicts with the persisted inclusion evidence"

abbrev relay_evidence_fields : List String
relay_evidence_fields =
    "transaction_included_confirmed" ∷ "payload_hash_matched" ∷ "relay_evidence_checked_height"
    ∷ "relay_evidence_tx_hash" ∷ "checked_height" ∷ "tx_hash_checked" ∷ []

-- Metadata besides the evidence neither changes nor comes or goes.
unfoldable pub keeps_other_metadata : List String → Fields → Fields → Bool
keeps_other_metadata free current next =
    all (λ k. name_in free k || same_json? (get next k) (get current k)) (keys current)
    && all (λ k. has current k || name_in free k) (keys next)

unfoldable pub patch_tx_hash : Fields → List ℕ
patch_tx_hash patch =
    text_from patch ("submitted_tx_hash" ∷ "submittedTxHash" ∷ "txHashSubmitted" ∷ [])

unfoldable pub assert_relay_evidence_again : Reservation → Patch → Result (Unit {0})
unfolding assert_persisted_relay_transaction_evidence patch_tx_hash number_is
assert_relay_evidence_again current patch = do
  tx_hash ← canonical_relay_transaction_hash (patch_tx_hash patch.fields)
  assert_persisted_relay_transaction_evidence current
      (text_from patch.fields ("payload_hash" ∷ "payloadHash" ∷ [])) tx_hash
      (text_or_empty (get (patch_metadata patch) "relay_evidence_checked_height"))
  assert
      (number_is (get patch.fields "broadcast_attempt_count") current.broadcast_attempt_count
        && is_false (get patch.fields "broadcast_in_flight")
        && same_json? (get patch.fields "metadata") (some (obj current.metadata)))
      "idempotent relay transaction evidence cannot mutate the Submitted operation"

unfoldable pub assert_first_relay_evidence : Reservation → Patch → Result (Unit {0})
unfolding binds_inclusion has_other_identity keeps_other_metadata patch_tx_hash
    is_durable_same_origin_local_relay_attempt number_is
assert_first_relay_evidence current patch = do
  let external_handoff = is_true (get current.metadata "relay_handed_off")
  let local_attempt = is_durable_same_origin_local_relay_attempt current
  assert (external_handoff || local_attempt)
      "relay transaction evidence requires a recorded relay handoff or durable local relay attempt"
  reject
      (external_handoff && (current.broadcast_in_flight || ltb 0 current.broadcast_attempt_count))
      "external relay transaction evidence requires an unattempted handed-off ProofReady reservation"
  assert
      (is_false (get patch.fields "broadcast_in_flight")
        && number_is (get patch.fields "broadcast_attempt_count")
            (if local_attempt then current.broadcast_attempt_count else 1))
      (if local_attempt
        then "local relay transaction evidence must preserve the durable broadcast attempt count"
        else "external relay transaction evidence must record exactly one durable broadcast attempt")
  let payload_hash = text_from patch.fields ("payload_hash" ∷ "payloadHash" ∷ [])
  assert (not (is_empty payload_hash) && codes_eq payload_hash current.payload_hash)
      "relay transaction evidence payload hash does not match the ProofReady payload"
  tx_hash ← canonical_relay_transaction_hash (patch_tx_hash patch.fields)
  assert
      (is_empty current.submitted_tx_hash
        || codes_eq (normalized_tx_identity current.submitted_tx_hash)
            (normalized_tx_identity tx_hash))
      "relay transaction evidence conflicts with the submitted transaction hash"
  identities ← reservation_network_transaction_identities current
  reject (has_other_identity identities tx_hash)
      "relay transaction evidence conflicts with persisted transaction identity"
  assert (is_object (get patch.fields "metadata"))
      "relay transaction evidence requires durable metadata"
  let metadata = patch_metadata patch
  assert
      (is_true (get metadata "transaction_included_confirmed")
        && is_true (get metadata "payload_hash_matched"))
      "relay transaction evidence requires literal inclusion and payload-match evidence"
  let checked_height = text_or_empty (get metadata "relay_evidence_checked_height")
  assert (positive_checked_height (some (str checked_height)))
      "relay transaction evidence requires a positive checked height"
  assert (binds_inclusion metadata checked_height tx_hash)
      "relay transaction evidence must bind the checked height and exact transaction hash"
  assert (is_false (get metadata "no_broadcast_attempt"))
      "relay transaction evidence must clear no-broadcast evidence"
  let old_evidence =
      keep (λ k. not (local_attempt && str_eq k "checked_height")) relay_evidence_fields
  reject (any (has current.metadata) old_evidence)
      "relay transaction evidence is already present on a ProofReady reservation"
  assert (keeps_other_metadata relay_evidence_fields current.metadata metadata)
      "metadata cannot change while recording external relay transaction evidence"

unfoldable pub assert_managed_relay_transaction_evidence_mutation :
    Reservation → Status → Patch → Result Bool
unfolding assert_relay_evidence_again assert_first_relay_evidence
assert_managed_relay_transaction_evidence_mutation current to patch =
    when_managed patch.relay_transaction_evidence (
      if same_status current.status submitted && same_status to submitted
      then assert_relay_evidence_again current patch
      else if same_status current.status proof_ready && same_status to submitted
      then assert_first_relay_evidence current patch
      else err "managed relay transaction evidence requires ProofReady -> Submitted")
