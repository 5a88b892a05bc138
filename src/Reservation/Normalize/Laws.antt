-- ===== src/Reservation/Normalize/Laws.antt =====
-- What a successful normalization has read of its input.
use clairveiljs.Text.{codes_eq}
use clairveiljs.Prelude.{ℕ, ok, List, [], ◌∷◌, ◌≡◌, arith, false}
use clairveiljs.Json.{Fields, get}
use clairveiljs.Reservation.Record.{Reservation}
use clairveiljs.Reservation.Normalize.{normalize_reservation}
use clairveiljs.Reservation.Normalize.Parts.{
  text_from, normalize_status, normalized_boolean_alias, normalized_non_negative_safe_integer_alias,
}

module _ (now : List ℕ) (input : Fields) {r : Reservation}
    (h : normalize_reservation now input ≡ ok r) where
  pub read-reservation_id :
      r.reservation_id ≡ text_from input ("reservation_id" ∷ "reservationID" ∷ "reservationId" ∷ [])
  unfolding normalize_reservation
  read-reservation_id = ground arith

  pub read-operation_id :
      r.operation_id ≡ text_from input ("operation_id" ∷ "operationID" ∷ "operationId" ∷ [])
  unfolding normalize_reservation
  read-operation_id = ground arith

  pub read-owner_key_id :
      r.owner_key_id ≡ text_from input ("owner_key_id" ∷ "ownerKeyID" ∷ "ownerKeyId" ∷ [])
  unfolding normalize_reservation
  read-owner_key_id = ground arith

  pub read-nullifier_lookup_key :
      r.nullifier_lookup_key ≡ text_from input ("nullifier_lookup_key" ∷ "nullifierLookupKey" ∷ [])
  unfolding normalize_reservation
  read-nullifier_lookup_key = ground arith

  pub read-status : normalize_status (get input "status") ≡ ok r.status
  unfolding normalize_reservation
  read-status = ground arith

  pub read-lease_token : r.lease_token ≡ text_from input ("lease_token" ∷ "leaseToken" ∷ [])
  unfolding normalize_reservation
  read-lease_token = ground arith

  pub read-lease_owner : r.lease_owner ≡ text_from input ("lease_owner" ∷ "leaseOwner" ∷ [])
  unfolding normalize_reservation
  read-lease_owner = ground arith

  pub read-submitted_tx_hash :
      r.submitted_tx_hash
      ≡ text_from input ("submitted_tx_hash" ∷ "submittedTxHash" ∷ "txHashSubmitted" ∷ [])
  unfolding normalize_reservation
  read-submitted_tx_hash = ground arith

  pub read-broadcast_attempt_count :
      normalized_non_negative_safe_integer_alias input "broadcast_attempt_count"
        "broadcastAttemptCount" 0
      ≡ ok r.broadcast_attempt_count
  unfolding normalize_reservation
  read-broadcast_attempt_count = ground arith

  pub read-broadcast_in_flight :
      normalized_boolean_alias input "broadcast_in_flight" "broadcastInFlight" false
      ≡ ok r.broadcast_in_flight
  unfolding normalize_reservation
  read-broadcast_in_flight = ground arith

  pub read-named : codes_eq r.reservation_id [] ≡ false
  unfolding normalize_reservation
  read-named = ground arith
