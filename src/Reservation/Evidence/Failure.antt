-- ===== src/Reservation/Evidence/Failure.antt =====
-- src/privacy/reservation.js: evidence that a broadcast transaction failed or is absent, and that
-- its inputs are unspent.
use clairveiljs.Prelude.{
  String, Bool, true, false, not, ◌&&◌, Option, none, some, List, [], ◌∷◌, ◌++◌, any, all,
  if◌then◌else◌, Result, ok, ◌>>=◌, ◌>>◌, assert, reject,
}
use clairveiljs.Text.{codes_eq, trim, is_positive_decimal}
use clairveiljs.Json.{
  Value, Fields, get, fields_of, is_true, is_boolean, is_defined, text_of, text_or_empty,
  text_if_truthy,
}
use clairveiljs.Reservation.Record.{Reservation}
use clairveiljs.Reservation.Lease.{is_empty}
use clairveiljs.Reservation.Evidence.Identity.{
  normalized_tx_identity, reservation_network_transaction_identities,
}

-- The defined values of the keys in one object.
unfoldable pub defined_values : Fields → List String → List Value
defined_values source [] = []
defined_values source (k ∷ ks) = elim (get source k) [
  | none ↦ defined_values source ks
  | some v ↦ if is_defined (some v) then v ∷ defined_values source ks else defined_values source ks
]

abbrev head_option {ℓ} : {A : Type ℓ} → List A → Option A
head_option [] = none
head_option (x ∷ xs) = some x

abbrev agree : List Value → Bool
agree [] = true
agree (v ∷ vs) = all (λ w. codes_eq (text_of w) (text_of v)) vs

-- The value of a key under its spellings, in the object and in its own `metadata`. All that are
-- defined must agree, and be booleans where a boolean is wanted.
unfoldable pub consistent_metadata_alias_value : Fields → List String → Bool → Result (Option Value)
unfolding defined_values
consistent_metadata_alias_value metadata ks boolean = do
  let values = defined_values metadata ks ++ defined_values (fields_of (get metadata "metadata")) ks
  reject (boolean && any (λ v. not (is_boolean (some v))) values) "must be a boolean"
  assert (agree values) "aliases conflict"
  ok (head_option values)

pub record ReplanEvidence : Type 0 where
  pub nullifier_unspent_confirmed : Option Value
  pub checked_height : Option Value
  pub tx_hash_checked : Option Value
  pub tx_absent_or_failed_confirmed : Option Value

unfoldable pub post_broadcast_replan_evidence : Fields → Result ReplanEvidence
post_broadcast_replan_evidence metadata = do
  unspent ←
      consistent_metadata_alias_value metadata
        ("nullifierUnspentConfirmed" ∷ "nullifier_unspent_confirmed" ∷ []) true
  height ← consistent_metadata_alias_value metadata ("checkedHeight" ∷ "checked_height" ∷ []) false
  hash ← consistent_metadata_alias_value metadata ("txHashChecked" ∷ "tx_hash_checked" ∷ []) false
  absent ←
      consistent_metadata_alias_value metadata
        ("txAbsentOrFailedConfirmed" ∷ "tx_absent_or_failed_confirmed" ∷ []) true
  ok (record {
    nullifier_unspent_confirmed = unspent;
    checked_height = height;
    tx_hash_checked = hash;
    tx_absent_or_failed_confirmed = absent;
  })

unfoldable pub positive_checked_height : Option Value → Bool
positive_checked_height v = is_positive_decimal (trim (text_or_empty v))

-- The evidence shows a positive height, and a hash that the record has stored.
unfoldable pub names_stored_transaction : Reservation → ReplanEvidence → Result Bool
names_stored_transaction r evidence =
    if not (
      is_true evidence.nullifier_unspent_confirmed
      && is_true evidence.tx_absent_or_failed_confirmed)
    then ok false
    else if not (positive_checked_height evidence.checked_height)
    then ok false
    else do
      stored ← reservation_network_transaction_identities r
      let checked = normalized_tx_identity (text_if_truthy evidence.tx_hash_checked)
      ok (not (is_empty checked) && any (codes_eq checked) stored)

unfoldable pub has_exact_post_broadcast_failure_evidence : Reservation → Fields → Result Bool
unfolding post_broadcast_replan_evidence names_stored_transaction
has_exact_post_broadcast_failure_evidence r metadata = do
  evidence ← post_broadcast_replan_evidence metadata
  names_stored_transaction r evidence
