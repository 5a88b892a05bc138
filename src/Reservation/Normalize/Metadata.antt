-- ===== src/Reservation/Normalize/Metadata.antt =====
-- src/privacy/reservation.js: what `normalizeReservation` does to a record's metadata.
use clairveiljs.Prelude.{
  ℕ, Bool, true, false, not, ◌&&◌, ◌||◌, Option, List, [], ◌∷◌, any, if◌then◌else◌, Result, ok,
  ◌>>=◌, ◌>>◌, assert, reject,
}
use clairveiljs.Text.{codes, codes_eq, trim, to_lower_case}
use clairveiljs.Json.{
  Value, bool, str, Fields, get, has, put, delete, is_defined, is_object, fields_of, is_boolean,
  is_true, text_or_empty,
}

-- `{ present, value }`
pub record State {ℓ} (A : Type ℓ) : Type ℓ where
  pub present : Bool
  pub value : A

abbrev same_bool : Bool → Bool → Bool
same_bool true b = b
same_bool false b = not b

unfoldable pub operation_success_evidence_required_metadata_state : Fields → Result (State Bool)
operation_success_evidence_required_metadata_state metadata = do
  let has_canonical = has metadata "operation_success_evidence_required"
  let has_alias = has metadata "operationSuccessEvidenceRequired"
  let canonical_value = get metadata "operation_success_evidence_required"
  let alias_value = get metadata "operationSuccessEvidenceRequired"
  reject (has_canonical && not (is_boolean canonical_value))
      "operation_success_evidence_required metadata must be a boolean"
  reject (has_alias && not (is_boolean alias_value))
      "operationSuccessEvidenceRequired metadata must be a boolean"
  reject
      (has_canonical
        && has_alias
        && not (same_bool (is_true canonical_value) (is_true alias_value)))
      "operation_success_evidence_required metadata aliases conflict"
  ok (record {
    present = has_canonical || has_alias;
    value = if has_canonical then is_true canonical_value else is_true alias_value;
  })

abbrev reservation_execution_transports : List (List ℕ)
reservation_execution_transports = codes "cosmos" ∷ codes "evm" ∷ codes "external" ∷ []

unfoldable pub normalize_transport : Bool → Option Value → Result (List ℕ)
normalize_transport false v = ok []
normalize_transport true v = do
  let transport = to_lower_case (trim (text_or_empty v))
  assert (any (codes_eq transport) reservation_execution_transports)
      "must be cosmos, evm, or external"
  ok transport

unfoldable pub execution_transport_metadata_state : Fields → Result (State (List ℕ))
unfolding normalize_transport
execution_transport_metadata_state metadata = do
  let has_canonical = has metadata "execution_transport"
  let has_alias = has metadata "executionTransport"
  canonical ← normalize_transport has_canonical (get metadata "execution_transport")
  alias ← normalize_transport has_alias (get metadata "executionTransport")
  reject (has_canonical && has_alias && not (codes_eq canonical alias))
      "execution transport metadata aliases conflict"
  ok (record {
    present = has_canonical || has_alias;
    value = if has_canonical then canonical else alias;
  })

-- `(value ?? {})`, which must be a plain object.
unfoldable pub clone_reservation_metadata : Option Value → Result Fields
clone_reservation_metadata v = do
  assert (not (is_defined v) || is_object v) "reservation metadata must be a plain JSON object"
  ok (fields_of v)

abbrev drop_provider_logs : Fields → Fields
drop_provider_logs metadata = delete "rawLog" (
    delete "raw_log" (
      delete "providerLog" (
        delete "provider_log"
          (delete "providerRejectionLog" (delete "provider_rejection_log" metadata)))))

abbrev with_evidence_required : State Bool → Fields → Fields
with_evidence_required s metadata =
    if s.present
    then delete "operationSuccessEvidenceRequired"
        (put "operation_success_evidence_required" (bool s.value) metadata)
    else metadata

abbrev with_execution_transport : State (List ℕ) → Fields → Fields
with_execution_transport s metadata =
    if s.present
    then delete "executionTransport" (put "execution_transport" (str s.value) metadata)
    else metadata

unfoldable pub normalize_reservation_metadata : Option Value → Result Fields
unfolding clone_reservation_metadata operation_success_evidence_required_metadata_state
    execution_transport_metadata_state
normalize_reservation_metadata v = do
  cloned ← clone_reservation_metadata v
  let metadata = drop_provider_logs cloned
  evidence_required ← operation_success_evidence_required_metadata_state metadata
  let with_required = with_evidence_required evidence_required metadata
  execution_transport ← execution_transport_metadata_state with_required
  ok (with_execution_transport execution_transport with_required)
