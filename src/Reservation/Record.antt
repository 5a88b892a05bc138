-- ===== src/Reservation/Record.antt =====
-- src/privacy/reservation.js: a reservation record as `normalizeReservation` builds it, the same
-- record as a JavaScript object, and a patch with the symbols that mark a managed mutation.
use clairveiljs.Prelude.{ℕ, String, Bool, Option, List, [], ◌∷◌, leb, if◌then◌else◌}
use clairveiljs.Text.{codes, decimal_text}
use clairveiljs.Json.{Value, bool, num, str, obj, Fields, end, field}
use clairveiljs.Reservation.Status.{Status, status_text}

pub record Reservation : Type 0 where
  pub reservation_id : List ℕ
  pub operation_id : List ℕ
  pub owner_key_id : List ℕ
  pub nullifier_lookup_key : List ℕ
  pub nullifier_lookup_key_id : List ℕ
  pub status : Status
  pub lease_owner : List ℕ
  pub lease_token : List ℕ
  pub lease_until : List ℕ
  pub last_heartbeat_at : List ℕ
  pub kind : List ℕ
  pub note_id : List ℕ
  pub amount : List ℕ
  pub tx_hash : List ℕ
  pub height : ℕ
  pub sequence : ℕ
  pub payload_hash : List ℕ
  pub expected_operation_evidence_hash : List ℕ
  pub expected_output_commitment : List ℕ
  pub expected_disclosure_digest : List ℕ
  pub expected_recipient_hash : List ℕ
  pub expected_amount : List ℕ
  pub expected_amount_hash : List ℕ
  pub expected_denom : List ℕ
  pub batch_item_index : ℕ
  pub batch_item_index_known : Bool
  pub sign_doc_hash : List ℕ
  pub tx_bytes_hash : List ℕ
  pub submitted_tx_hash : List ℕ
  pub broadcast_attempt_count : ℕ
  pub broadcast_in_flight : Bool
  pub last_broadcast_error : List ℕ
  pub created_at : List ℕ
  pub updated_at : List ℕ
  pub metadata : Fields

abbrev pub max_safe_integer : ℕ
max_safe_integer = 9007199254740991

-- A `uint64` is a number up to `Number.MAX_SAFE_INTEGER` and decimal text above.
unfoldable pub uint64_value : ℕ → Value
uint64_value n = if leb n max_safe_integer then num n else str (decimal_text n)

-- An object literal, from its entries.
abbrev pub object : List (String × Value) → Fields
object [] = end
object ((k, v) ∷ rest) = field k v (object rest)

-- The object's own properties.
unfoldable pub to_fields : Reservation → Fields
unfolding uint64_value
to_fields r = object (
    ("reservation_id", str r.reservation_id)
    ∷ ("operation_id", str r.operation_id)
    ∷ ("owner_key_id", str r.owner_key_id)
    ∷ ("nullifier_lookup_key", str r.nullifier_lookup_key)
    ∷ ("nullifier_lookup_key_id", str r.nullifier_lookup_key_id)
    ∷ ("status", str (codes (status_text r.status)))
    ∷ ("lease_owner", str r.lease_owner)
    ∷ ("lease_token", str r.lease_token)
    ∷ ("lease_until", str r.lease_until)
    ∷ ("last_heartbeat_at", str r.last_heartbeat_at)
    ∷ ("kind", str r.kind)
    ∷ ("note_id", str r.note_id)
    ∷ ("amount", str r.amount)
    ∷ ("tx_hash", str r.tx_hash)
    ∷ ("height", uint64_value r.height)
    ∷ ("sequence", uint64_value r.sequence)
    ∷ ("payload_hash", str r.payload_hash)
    ∷ ("expected_operation_evidence_hash", str r.expected_operation_evidence_hash)
    ∷ ("expected_output_commitment", str r.expected_output_commitment)
    ∷ ("expected_disclosure_digest", str r.expected_disclosure_digest)
    ∷ ("expected_recipient_hash", str r.expected_recipient_hash)
    ∷ ("expected_amount", str r.expected_amount)
    ∷ ("expected_amount_hash", str r.expected_amount_hash)
    ∷ ("expected_denom", str r.expected_denom)
    ∷ ("batch_item_index", num r.batch_item_index)
    ∷ ("batch_item_index_known", bool r.batch_item_index_known)
    ∷ ("sign_doc_hash", str r.sign_doc_hash)
    ∷ ("tx_bytes_hash", str r.tx_bytes_hash)
    ∷ ("submitted_tx_hash", str r.submitted_tx_hash)
    ∷ ("broadcast_attempt_count", num r.broadcast_attempt_count)
    ∷ ("broadcast_in_flight", bool r.broadcast_in_flight)
    ∷ ("last_broadcast_error", str r.last_broadcast_error)
    ∷ ("created_at", str r.created_at)
    ∷ ("updated_at", str r.updated_at)
    ∷ ("metadata", obj r.metadata)
    ∷ [])

-- What a symbol on a patch claims of the mutation.
pub data EvidenceMutation : Type 0 where
  relay_handoff broadcast_attempt broadcast_rejected : EvidenceMutation

pub record Patch : Type 0 where
  pub fields : Fields
  pub reconciled_spent : Bool
  pub evidence_mutation : Option EvidenceMutation
  pub operation_reconciliation : Bool
  pub authoritative_broadcast_failure : Bool
  pub expired_proof_ready_broadcast_failure : Bool
  pub relay_transaction_evidence : Bool
