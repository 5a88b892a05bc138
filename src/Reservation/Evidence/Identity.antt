-- ===== src/Reservation/Evidence/Identity.antt =====
-- src/privacy/reservation.js: transaction identities, and what a record says of past broadcasts.
use clairveiljs.Prelude.{
  ℕ, Bool, not, ◌&&◌, ◌||◌, List, [], ◌∷◌, all, ltb, if◌then◌else◌, Result, ok, ◌>>=◌, ◌>>◌, assert,
  map, length, ◌==◌, keep,
}
use clairveiljs.Text.{codes, codes_eq, trim, to_lower_case, strip_0x, is_hex}
use clairveiljs.Json.{get, is_true}
use clairveiljs.Reservation.Record.{Reservation}
use clairveiljs.Reservation.Normalize.{execution_transport_metadata_state}
use clairveiljs.Reservation.Lease.{is_empty}

-- `String(value || "").trim().toLowerCase().replace(/^0x/, "")`
unfoldable pub normalized_tx_identity : List ℕ → List ℕ
normalized_tx_identity value = strip_0x (to_lower_case (trim value))

-- `/^(?:0x)?[0-9a-fA-F]{64}$/`, then the normalized identity.
unfoldable pub canonical_relay_transaction_hash : List ℕ → Result (List ℕ)
unfolding normalized_tx_identity
canonical_relay_transaction_hash value = do
  let tx_hash = trim value
  assert (all is_hex (strip_0x tx_hash) && length (strip_0x tx_hash) == 64)
      "external relay transaction hash must be canonical 32-byte Cosmos or EVM hex"
  ok (normalized_tx_identity tx_hash)

unfoldable pub distinct_texts : List (List ℕ) → List (List ℕ)
distinct_texts [] = []
distinct_texts (t ∷ ts) = t ∷ keep (λ u. not (codes_eq t u)) (distinct_texts ts)

-- `[...new Set(values.map(normalizedTxIdentity).filter(Boolean))]`
unfoldable pub normalized_identity_values : List (List ℕ) → List (List ℕ)
unfolding distinct_texts
normalized_identity_values values =
    distinct_texts (keep (λ t. not (is_empty t)) (map normalized_tx_identity values))

-- An EVM execution is identified by its network hash alone.
unfoldable pub reservation_network_transaction_identities : Reservation → Result (List (List ℕ))
unfolding normalized_identity_values
reservation_network_transaction_identities r = do
  transport ← execution_transport_metadata_state r.metadata
  ok (
      normalized_identity_values (
        if codes_eq transport.value (codes "evm")
        then r.submitted_tx_hash ∷ []
        else r.submitted_tx_hash ∷ r.tx_bytes_hash ∷ []))

-- `hasStoredBroadcastEvidence` of a record, whose `submitted_tx_hash` is always defined.
unfoldable pub has_stored_broadcast_evidence : Reservation → Bool
has_stored_broadcast_evidence r =
    not (is_empty (trim r.submitted_tx_hash))
    || ltb 0 r.broadcast_attempt_count
    || r.broadcast_in_flight
    || is_true (get r.metadata "relay_handed_off")
    || is_true (get r.metadata "relayHandedOff")
