-- ===== src/Reservation/Scenario.antt =====
-- A platform, records and transitions for the tests and witnesses of the reservation store.

use clairveiljs.Prelude.{String, true, false, none, some, List, [], ◌∷◌, ◌++◌, if◌then◌else◌}
use clairveiljs.Text.{codes}
use clairveiljs.Json.{Value, bool, str, num, obj, Fields}
use clairveiljs.Reservation.Status.{Status, reserved, proving, proof_ready, submitted}
use clairveiljs.Reservation.Record.{Reservation, Patch, broadcast_attempt}
use clairveiljs.Reservation.Lease.{reservation_claim_token_hash_field}
use clairveiljs.Reservation.Platform.{Platform}
use clairveiljs.Text.{decimal_text, decimal_value, is_decimal}
use clairveiljs.Reservation.Record.{object}
use clairveiljs.Reservation.Store.Operation.{Transition}
use clairveiljs.Reservation.Store.Release.{plain_patch}

-- Dates are decimal milliseconds, and the digest is the text itself.
abbrev pub test_platform : Platform
test_platform = record {
  parse_date = λ t. if is_decimal t then some (decimal_value t) else none;
  iso_date = decimal_text;
  sha256_hex = λ t. t;
}

abbrev pub new_reservation : String → String → String → Fields
new_reservation id operation lookup = object (
    ("reservation_id", str (codes id))
    ∷ ("operation_id", str (codes operation))
    ∷ ("owner_key_id", str (codes "owner"))
    ∷ ("nullifier_lookup_key", str (codes lookup))
    ∷ (
      "metadata",
      obj (
          object (
            (
              reservation_claim_token_hash_field,
              str (codes "clairveil-reservation-claim-v1" ++ 0 ∷ codes "token"),
            )
            ∷ [])),
    )
    ∷ [])

abbrev pub fields_patch : Fields → Patch
fields_patch fs = record plain_patch { fields = fs }

abbrev pub step_of : String → Status → Status → Fields → Transition
step_of id from to fs = record {
  reservation_id = codes id;
  from = from;
  to = to;
  patch = fields_patch fs;
}

abbrev pub lease_fields : List (String × Value)
lease_fields =
    ("lease_owner", str (codes "worker"))
    ∷ ("lease_token", str (codes "token"))
    ∷ ("lease_until", str (codes "900"))
    ∷ []

abbrev pub to_proving : String → Transition
to_proving id = step_of id reserved proving (object lease_fields)

abbrev pub to_proof_ready : String → Transition
to_proof_ready id =
    step_of id proving proof_ready (object (("payload_hash", str (codes "payload")) ∷ lease_fields))

abbrev pub attempt_metadata : Fields
attempt_metadata = object (("no_broadcast_attempt", bool false) ∷ [])

abbrev pub to_attempted : String → Transition
to_attempted id = record {
  reservation_id = codes id;
  from = proof_ready;
  to = proof_ready;
  patch = record plain_patch {
    fields = object (
        ("broadcast_in_flight", bool true)
        ∷ ("broadcast_attempt_count", num 1)
        ∷ ("metadata", obj attempt_metadata)
        ∷ lease_fields);
    evidence_mutation = some broadcast_attempt;
  };
}

abbrev pub to_submitted : String → Transition
to_submitted id =
    step_of id proof_ready submitted
      (object (("submitted_tx_hash", str (codes "0xAB")) ∷ lease_fields))

abbrev pub to_submitted_by_alias : String → Transition
to_submitted_by_alias id = step_of id proof_ready submitted (
    object (
      ("submitted_tx_hash", str (codes "0xAB"))
      ∷ ("leaseOwner", str (codes "worker"))
      ∷ ("leaseToken", str (codes "token"))
      ∷ []))

-- A record for where a test has none.
abbrev pub blank : Reservation
blank = record {
  reservation_id = [];
  operation_id = [];
  owner_key_id = [];
  nullifier_lookup_key = [];
  nullifier_lookup_key_id = [];
  status = reserved;
  lease_owner = [];
  lease_token = [];
  lease_until = [];
  last_heartbeat_at = [];
  kind = [];
  note_id = [];
  amount = [];
  tx_hash = [];
  height = 0;
  sequence = 0;
  payload_hash = [];
  expected_operation_evidence_hash = [];
  expected_output_commitment = [];
  expected_disclosure_digest = [];
  expected_recipient_hash = [];
  expected_amount = [];
  expected_amount_hash = [];
  expected_denom = [];
  batch_item_index = 0;
  batch_item_index_known = false;
  sign_doc_hash = [];
  tx_bytes_hash = [];
  submitted_tx_hash = [];
  broadcast_attempt_count = 0;
  broadcast_in_flight = false;
  last_broadcast_error = [];
  created_at = [];
  updated_at = [];
  metadata = object [];
}
