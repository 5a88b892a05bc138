-- ===== src/Reservation/Runs.antt =====
-- Runs of the reservation store on two records of one operation.
use clairveiljs.Json.{
  get, has, put, merge, keys, delete, same_json?, truthy, or_else, is_defined, first_defined,
  is_true, is_false, is_boolean, is_object, fields_of, element_text, text_or_empty, text_if_truthy,
  number_of, same_json, same_items, same_fields, text_of, text_of_items, Fields,
}
use clairveiljs.Reservation.Evidence.{
  patch_has_stored_broadcast_evidence, has_proof_discard_evidence, metadata_evidence_value,
  has_manual_review_approval_evidence, assert_proof_ready_replan,
  assert_inactive_transition_evidence, has_broadcast_attempt_metadata,
  assert_core_transition_evidence, assert_store_transition_evidence,
}
use clairveiljs.Reservation.Evidence.Failure.{
  defined_values, consistent_metadata_alias_value, post_broadcast_replan_evidence,
  positive_checked_height, names_stored_transaction, has_exact_post_broadcast_failure_evidence,
}
use clairveiljs.Reservation.Evidence.Identity.{
  normalized_tx_identity, canonical_relay_transaction_hash, distinct_texts,
  normalized_identity_values, reservation_network_transaction_identities,
  has_stored_broadcast_evidence,
}
use clairveiljs.Reservation.Lease.{
  patch_lease_token, patch_lease_owner, patch_lease_until, lease_expiration_ms,
  reservation_claim_token_hash, assert_current_lease_token, assert_claim,
  can_apply_expired_lease_recovery, assert_lease_transition_allowed, is_lease_renewal_patch,
  assert_store_lease_mutation_allowed, assert_same_status_lease_renewal_patch,
  clears_lease_for_status_transition,
}
use clairveiljs.Reservation.Managed.Broadcast.{
  number_is, is_managed_mutation, is_relay_handed_off, assert_managed_broadcast_attempt_mutation,
  durable_broadcast_rejection, prepared_signing_rejection, wallet_rejection_evidence,
  abort_evidence, check_tx_evidence, assert_managed_broadcast_rejection_mutation,
  keeps_attempt_count, assert_managed_authoritative_broadcast_failure_mutation,
}
use clairveiljs.Reservation.Managed.Expired.{
  repeats_transaction_identity, is_positive_number, complete_failure_evidence,
  has_expired_worker_lease, assert_managed_expired_proof_ready_broadcast_failure_mutation,
}
use clairveiljs.Reservation.Managed.Outcome.{assert_managed_operation_reconciliation}
use clairveiljs.Reservation.Managed.Relay.{
  assert_managed_relay_handoff_mutation, is_persisted_same_origin_local_relay_evidence,
  is_durable_same_origin_local_relay_attempt, binds_inclusion, has_other_identity,
  assert_persisted_relay_transaction_evidence, keeps_other_metadata, patch_tx_hash,
  assert_relay_evidence_again, assert_first_relay_evidence,
  assert_managed_relay_transaction_evidence_mutation,
}
use clairveiljs.Reservation.Normalize.{
  normalize_reservation, first_truthy, text_from, normalized_batch_item_index,
  normalized_boolean_alias, normalized_non_negative_safe_integer_alias, normalized_uint64_value,
  normalize_status, operation_success_evidence_required_metadata_state,
  execution_transport_metadata_state, normalize_reservation_metadata,
}
use clairveiljs.Reservation.Patching.Apply.{
  patch_with_preserved_reservation_claim_hash, with_stored_identity,
  patch_with_stable_write_once_identity_representation,
  patch_with_persisted_reconciliation_evidence, patch_with_cleared_lease, apply_patch,
}
use clairveiljs.Reservation.Patching.Guards.{
  assert_patch_keeps_reservation_identity, allowed_reservation_patch_fields,
  assert_reservation_transition_patch_fields, patch_has_any_own_property, patch_value_for_aliases,
  assert_write_once, assert_attempt_count_monotonic, holds_evidence, keeps_protected,
  assert_metadata_monotonic, assert_reservation_evidence_patch_monotonic, predicate_texts,
  keeps_batch_item, operation_success_evidence_required, assert_evidence_required_immutable,
  assert_operation_success_predicate_immutable, metadata_field_changed, allowed_lifecycle_metadata,
  assert_managed_lifecycle_metadata_mutation,
}
use clairveiljs.Reservation.Record.{uint64_value, to_fields, Reservation}
use clairveiljs.Reservation.Status.{
  is_active_reservation_status, can_transition_reservation,
  can_recover_reservation_after_lease_expiry, requires_reservation_lease_token, Status, submitted,
}
use clairveiljs.Reservation.Store.Conflict.{
  active_key, active_conflict, confirmed_spent_conflict, assert_state_from,
}
use clairveiljs.Reservation.Store.Create.{
  has_lifecycle_evidence, assert_initial_reservation_record, operation_reservation_group_key,
  operation_id_used, assert_can_create, create_from, create_reservation_batch,
}
use clairveiljs.Reservation.Store.Operation.{
  states_mixed, selects_operation, one_target, selects_linked,
  assert_exact_operation_lifecycle_transition_sets, Transition,
}
use clairveiljs.Reservation.Store.Release.{
  released_record, release_each, release_names, release_reservation_batch,
}
use clairveiljs.Reservation.Store.Update.{
  classify, assert_step, assert_patch, needs_lease_check, prepared_patch, next_record, look_up,
  next_records, replace, replace_all, has_conflict, compare_and_set_batch,
}
use clairveiljs.Text.{
  codes_eq, is_space, trim_start, trim, lower, to_lower_case, upper, to_upper_case, strip_0x,
  strip_0x_any_case, is_digit, is_lower_hex, is_hex, is_decimal, is_positive_decimal,
  is_lower_hex_of, decimal_from, decimal_value, decimal_digits, decimal_text,
}
use clairveiljs.Text.{codes}
use clairveiljs.Prelude.{
  ℕ, String, Bool, true, List, [], ◌∷◌, Result, ok, err, is_ok, ◌≡◌, refl, map,
}
use clairveiljs.Reservation.Scenario.{
  test_platform, new_reservation, to_proving, to_proof_ready, to_attempted, to_submitted,
  to_submitted_by_alias,
}

abbrev pub from_ok {ℓ} : {A : Type ℓ} → A → Result A → A
from_ok d (ok a) = a
from_ok d (err e) = d

pub ok_from {ℓ} : {A : Type ℓ} (d : A) (m : Result A) → is_ok m ≡ true → m ≡ ok (from_ok d m)
ok_from d (ok a) h = refl
ok_from d (err e) h = cc

-- What a run of the store computes with.
unfoldable pub store_code : Bool
unfolding get has put merge keys delete same_json? truthy or_else is_defined first_defined is_true
    is_false is_boolean is_object fields_of element_text text_or_empty text_if_truthy number_of
    same_json same_items same_fields text_of text_of_items patch_has_stored_broadcast_evidence
    has_proof_discard_evidence metadata_evidence_value has_manual_review_approval_evidence
    assert_proof_ready_replan assert_inactive_transition_evidence has_broadcast_attempt_metadata
    assert_core_transition_evidence assert_store_transition_evidence defined_values
    consistent_metadata_alias_value post_broadcast_replan_evidence positive_checked_height
    names_stored_transaction has_exact_post_broadcast_failure_evidence normalized_tx_identity
    canonical_relay_transaction_hash distinct_texts normalized_identity_values
    reservation_network_transaction_identities has_stored_broadcast_evidence patch_lease_token
    patch_lease_owner patch_lease_until lease_expiration_ms reservation_claim_token_hash
    assert_current_lease_token assert_claim can_apply_expired_lease_recovery
    assert_lease_transition_allowed is_lease_renewal_patch assert_store_lease_mutation_allowed
    assert_same_status_lease_renewal_patch clears_lease_for_status_transition number_is
    is_managed_mutation is_relay_handed_off assert_managed_broadcast_attempt_mutation
    durable_broadcast_rejection prepared_signing_rejection wallet_rejection_evidence abort_evidence
    check_tx_evidence assert_managed_broadcast_rejection_mutation keeps_attempt_count
    assert_managed_authoritative_broadcast_failure_mutation repeats_transaction_identity
    is_positive_number complete_failure_evidence has_expired_worker_lease
    assert_managed_expired_proof_ready_broadcast_failure_mutation
    assert_managed_operation_reconciliation assert_managed_relay_handoff_mutation
    is_persisted_same_origin_local_relay_evidence is_durable_same_origin_local_relay_attempt
    binds_inclusion has_other_identity assert_persisted_relay_transaction_evidence
    keeps_other_metadata patch_tx_hash assert_relay_evidence_again assert_first_relay_evidence
    assert_managed_relay_transaction_evidence_mutation normalize_reservation first_truthy text_from
    normalized_batch_item_index normalized_boolean_alias normalized_non_negative_safe_integer_alias
    normalized_uint64_value normalize_status operation_success_evidence_required_metadata_state
    execution_transport_metadata_state normalize_reservation_metadata
    patch_with_preserved_reservation_claim_hash with_stored_identity
    patch_with_stable_write_once_identity_representation
    patch_with_persisted_reconciliation_evidence patch_with_cleared_lease apply_patch
    assert_patch_keeps_reservation_identity allowed_reservation_patch_fields
    assert_reservation_transition_patch_fields patch_has_any_own_property patch_value_for_aliases
    assert_write_once assert_attempt_count_monotonic holds_evidence keeps_protected
    assert_metadata_monotonic assert_reservation_evidence_patch_monotonic predicate_texts
    keeps_batch_item operation_success_evidence_required assert_evidence_required_immutable
    assert_operation_success_predicate_immutable metadata_field_changed allowed_lifecycle_metadata
    assert_managed_lifecycle_metadata_mutation uint64_value to_fields is_active_reservation_status
    can_transition_reservation can_recover_reservation_after_lease_expiry
    requires_reservation_lease_token active_key active_conflict confirmed_spent_conflict
    assert_state_from has_lifecycle_evidence assert_initial_reservation_record
    operation_reservation_group_key operation_id_used assert_can_create create_from
    create_reservation_batch states_mixed selects_operation one_target selects_linked
    assert_exact_operation_lifecycle_transition_sets released_record release_each release_names
    release_reservation_batch classify assert_step assert_patch needs_lease_check prepared_patch
    next_record look_up next_records replace replace_all has_conflict compare_and_set_batch codes_eq
    is_space trim_start trim lower to_lower_case upper to_upper_case strip_0x strip_0x_any_case
    is_digit is_lower_hex is_hex is_decimal is_positive_decimal is_lower_hex_of decimal_from
    decimal_value decimal_digits decimal_text
store_code = true

abbrev pub State : Type 0
State = List Reservation × List Reservation

abbrev pub both : (String → Transition) → List Transition
both f = f "r1" ∷ f "r2" ∷ []

abbrev pub two_inputs : List Fields
two_inputs = new_reservation "r1" "op" "k1" ∷ new_reservation "r2" "op" "k2" ∷ []

unfoldable pub created : State
created = from_ok ([], []) (create_reservation_batch (codes "1") true [] two_inputs)

abbrev pub step_all : State → ℕ → List Transition → State
step_all s now ts = from_ok ([], []) (compare_and_set_batch test_platform now s.0 ts)

unfoldable pub claimed : State
claimed = step_all created 10 (both to_proving)

unfoldable pub proved : State
proved = step_all claimed 20 (both to_proof_ready)

unfoldable pub attempted : State
attempted = step_all proved 30 (both to_attempted)

unfoldable pub sent : State
sent = step_all attempted 40 (both to_submitted)

-- The statuses of the stored records.
abbrev statuses : State → List Status
statuses s = map (λ r. r.status) s.0

created_batch : create_reservation_batch (codes "1") true [] two_inputs ≡ ok created
unfolding store_code created
created_batch = ok_from ([], []) (create_reservation_batch (codes "1") true [] two_inputs) refl

statuses-sent : statuses sent ≡ submitted ∷ submitted ∷ []
unfolding store_code sent attempted proved claimed created
statuses-sent = refl

-- One record of an operation is not moved without the other.
lone_claim :
    compare_and_set_batch test_platform 10 created.0 (to_proving "r1" ∷ [])
    ≡ err "operation lifecycle transition requires the exact linked reservation set"
unfolding store_code created
lone_claim = refl

-- With the second spelling of the lease in the patch, the record leaves `ProofReady` with its lease.
alias_keeps_lease :
    map (λ r. r.lease_token) (step_all attempted 40 (both to_submitted_by_alias)).0
    ≡ codes "token" ∷ codes "token" ∷ []
unfolding store_code attempted proved claimed created
alias_keeps_lease = refl
