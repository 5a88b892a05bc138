-- ===== src/Reservation/Store/Create.antt =====
-- src/privacy/reservation.js, `createReservationBatch`: new records, all of them or none.

use clairveiljs.Prelude.{
  ℕ, Bool, not, ◌&&◌, ◌||◌, List, [], ◌∷◌, ◌++◌, any, all, Result, ok, ◌>>=◌, ◌>>◌, assert, reject,
  ◌==◌,
}
use clairveiljs.Text.{codes_eq}
use clairveiljs.Json.{Fields, has, keys}
use clairveiljs.Reservation.Status.{reserved, same_status}
use clairveiljs.Reservation.Record.{Reservation}
use clairveiljs.Reservation.Lease.{is_empty, name_in, reservation_claim_token_hash_field}
use clairveiljs.Reservation.Normalize.{normalize_reservation}
use clairveiljs.Reservation.Patching.Fields.{initial_lifecycle_metadata_fields}
use clairveiljs.Reservation.Store.Conflict.{active_conflict, confirmed_spent_conflict, has_id}
use clairveiljs.Prelude.{map_ok}

-- Nothing of a new record speaks of a lease, a proof or a broadcast.
unfoldable pub has_lifecycle_evidence : Reservation → Bool
has_lifecycle_evidence r =
    not (
      all is_empty (
        r.lease_owner ∷ r.lease_token ∷ r.lease_until ∷ r.last_heartbeat_at ∷ r.payload_hash
        ∷ r.expected_operation_evidence_hash ∷ r.expected_output_commitment
        ∷ r.expected_disclosure_digest ∷ r.expected_recipient_hash ∷ r.expected_amount
        ∷ r.expected_amount_hash ∷ r.expected_denom ∷ r.sign_doc_hash ∷ r.tx_bytes_hash
        ∷ r.submitted_tx_hash ∷ r.last_broadcast_error ∷ []))
    || r.batch_item_index_known
    || not (r.batch_item_index == 0)
    || not (r.broadcast_attempt_count == 0)
    || r.broadcast_in_flight

unfoldable pub assert_initial_reservation_record : Reservation → Bool → Result (Unit {0})
unfolding has_lifecycle_evidence
assert_initial_reservation_record r allow_managed_claim_token_hash = do
  assert (same_status r.status reserved) "new reservations must start as Reserved"
  reject (has_lifecycle_evidence r)
      "new reservations cannot include lifecycle, broadcast, or relay evidence"
  assert (allow_managed_claim_token_hash || not (has r.metadata reservation_claim_token_hash_field))
      "new reservations cannot include manager claim-token metadata"
  reject (any (name_in initial_lifecycle_metadata_fields) (keys r.metadata))
      "new reservations cannot include lifecycle evidence metadata"

unfoldable pub operation_reservation_group_key : Reservation → List ℕ
operation_reservation_group_key r = r.owner_key_id ++ 0 ∷ r.operation_id

abbrev pub same_operation : Reservation → Reservation → Bool
same_operation r s =
    codes_eq (operation_reservation_group_key r) (operation_reservation_group_key s)

-- An operation of the stored records has the name of the record's operation.
unfoldable pub operation_id_used : List Reservation → Reservation → Bool
operation_id_used stored r =
    not (is_empty r.operation_id)
    && any (λ s. not (is_empty s.operation_id) && same_operation s r) stored

unfoldable pub assert_can_create :
    Bool → List Reservation → List Reservation → Reservation → Result (Unit {0})
unfolding operation_id_used
assert_can_create allow stored combined r = do
  assert_initial_reservation_record r allow
  reject (operation_id_used stored r) "operation_id has already been used"
  reject (any (has_id r.reservation_id) combined) "active reservation already exists"
  reject (active_conflict combined r []) "active reservation already exists"
  reject (confirmed_spent_conflict combined r []) "confirmed spent reservation prevents note reuse"

-- The loop over the new records: `combined` holds the stored ones and those before.
unfoldable pub create_from :
    Bool → List Reservation → List Reservation → List Reservation → Result (List Reservation)
create_from allow stored combined [] = ok combined
create_from allow stored combined (r ∷ rest) = assert_can_create allow stored combined r >>= λ _.
    create_from allow stored (combined ++ r ∷ []) rest

-- The next state of the store, and the new records.
unfoldable pub create_reservation_batch :
    List ℕ → Bool → List Reservation → List Fields → Result (List Reservation × List Reservation)
unfolding create_from
create_reservation_batch now allow stored inputs = do
  normalized ← map_ok (normalize_reservation now) inputs
  combined ← create_from allow stored stored normalized
  ok (combined, normalized)
