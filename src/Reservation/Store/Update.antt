-- ===== src/Reservation/Store/Update.antt =====
-- src/privacy/reservation.js, `compareAndSetReservationStatusBatch`: a batch of transitions, all of
-- them or none.

use clairveiljs.Prelude.{
  ℕ, Bool, true, false, not, ◌&&◌, ◌||◌, Option, none, some, List, [], ◌∷◌, any, if◌then◌else◌,
  Result, ok, err, ◌>>=◌, ◌>>◌, assert, reject, map, keep, find,
}
use clairveiljs.Text.{codes_eq}
use clairveiljs.Json.{Fields}
use clairveiljs.Reservation.Status.{Status, proof_ready, confirmed_spent, same_status}
use clairveiljs.Reservation.Record.{Reservation, Patch}
use clairveiljs.Reservation.Lease.{is_empty}
use clairveiljs.Reservation.Platform.{Platform}
use clairveiljs.Reservation.Status.{can_transition_reservation}
use clairveiljs.Reservation.Evidence.{assert_store_transition_evidence}
use clairveiljs.Reservation.Lease.{
  assert_same_status_lease_renewal_patch, assert_store_lease_mutation_allowed,
}
use clairveiljs.Reservation.Managed.Broadcast.{
  assert_managed_broadcast_attempt_mutation, assert_managed_broadcast_rejection_mutation,
  assert_managed_authoritative_broadcast_failure_mutation,
}
use clairveiljs.Reservation.Managed.Expired.{
  assert_managed_expired_proof_ready_broadcast_failure_mutation,
}
use clairveiljs.Reservation.Managed.Relay.{
  assert_managed_relay_handoff_mutation, assert_managed_relay_transaction_evidence_mutation,
}
use clairveiljs.Reservation.Managed.Outcome.{assert_managed_operation_reconciliation}
use clairveiljs.Reservation.Patching.Guards.{
  Managed, assert_patch_keeps_reservation_identity, assert_reservation_transition_patch_fields,
  assert_operation_success_predicate_immutable, assert_reservation_evidence_patch_monotonic,
  assert_managed_lifecycle_metadata_mutation,
}
use clairveiljs.Reservation.Patching.Apply.{
  patch_with_stable_write_once_identity_representation, patch_with_preserved_reservation_claim_hash,
  patch_with_persisted_reconciliation_evidence, patch_with_cleared_lease, apply_patch,
}
use clairveiljs.Reservation.Store.Conflict.{active_conflict, confirmed_spent_conflict, has_id}
use clairveiljs.Reservation.Store.Operation.{
  Transition, Found, states_mixed, assert_exact_operation_lifecycle_transition_sets,
}

abbrev pub when : Bool → Result (Unit {0}) → Result (Unit {0})
when true m = m
when false m = ok tt

unfoldable pub classify : Platform → Reservation → Status → Patch → ℕ → Result Managed
classify p current to patch now = do
  is_relay_handoff ← assert_managed_relay_handoff_mutation p current to patch now
  is_broadcast_attempt ← assert_managed_broadcast_attempt_mutation p current to patch now
  is_broadcast_rejection ← assert_managed_broadcast_rejection_mutation p current to patch now
  is_broadcast_failure ← assert_managed_authoritative_broadcast_failure_mutation current to patch
  is_expired_failure ←
      assert_managed_expired_proof_ready_broadcast_failure_mutation p current to patch now
  is_relay_evidence ← assert_managed_relay_transaction_evidence_mutation current to patch
  is_operation_reconcile ← assert_managed_operation_reconciliation current to patch
  ok (record {
    relay_handoff = is_relay_handoff;
    relay_evidence = is_relay_evidence;
    broadcast_attempt = is_broadcast_attempt;
    broadcast_rejection = is_broadcast_rejection;
    broadcast_failure = is_broadcast_failure;
    expired_failure = is_expired_failure;
    operation_reconcile = is_operation_reconcile;
  })

-- The step is a lease renewal, a managed mutation in place, a quarantine of a spent note, or an
-- entry of the transition table.
unfoldable pub assert_step : Platform → Reservation → Transition → Managed → ℕ → Result (Unit {0})
assert_step p current t m now = do
  let same = same_status t.from t.to
  when
      (same
        && not m.relay_handoff
        && not m.relay_evidence
        && not m.broadcast_attempt
        && not m.operation_reconcile)
      (assert_same_status_lease_renewal_patch p current t.patch.fields now)
  assert
      (same
        || (same_status t.to confirmed_spent && t.patch.reconciled_spent)
        || can_transition_reservation t.from t.to)
      "invalid reservation transition"

unfoldable pub assert_patch : Reservation → Transition → Managed → Result (Unit {0})
assert_patch current t m = do
  assert_patch_keeps_reservation_identity t.patch.fields
  assert_reservation_transition_patch_fields current t.to t.patch.fields m
  when (not m.broadcast_rejection && not m.relay_evidence)
      (assert_store_transition_evidence current t.to t.patch)
  assert_operation_success_predicate_immutable current t.to t.patch.fields
  assert_reservation_evidence_patch_monotonic current t.patch.fields m.operation_reconcile
  assert_managed_lifecycle_metadata_mutation current t.to t.patch.fields m

-- Only chain evidence about a record that no worker owns goes without the lease.
unfoldable pub needs_lease_check : Reservation → Managed → Bool
needs_lease_check current m =
    (not m.broadcast_failure || same_status current.status proof_ready)
    && not m.expired_failure
    && not m.relay_evidence

unfoldable pub prepared_patch : Reservation → Transition → Managed → Fields
prepared_patch current t m =
    let stable =
      if m.relay_evidence
      then t.patch.fields
      else patch_with_stable_write_once_identity_representation current t.patch.fields in
    patch_with_cleared_lease t.to (
      patch_with_persisted_reconciliation_evidence
        (patch_with_preserved_reservation_claim_hash current stable))

-- One transition of the batch: the guards, and the next record.
unfoldable pub next_record : Platform → ℕ → Reservation → Transition → Result Reservation
next_record p now current t = do
  assert (same_status current.status t.from) "reservation compare-and-set failed"
  m ← classify p current t.to t.patch now
  assert_step p current t m now
  assert_patch current t m
  when (needs_lease_check current m)
      (assert_store_lease_mutation_allowed p current t.to t.patch.fields now)
  apply_patch p current t.to (prepared_patch current t m) now

abbrev pub found_or_err : Option Reservation → Transition → Result Found
found_or_err none t = err "reservation not found"
found_or_err (some r) t = ok (record { current = r; transition = t })

-- The checks before any transition is made: each names one record of the store, and only once.
unfoldable pub look_up : List (List ℕ) → List Reservation → List Transition → Result (List Found)
look_up seen stored [] = ok []
look_up seen stored (t ∷ ts) = do
  reject (is_empty t.reservation_id) "reservationID is required"
  reject (any (codes_eq t.reservation_id) seen) "duplicate reservation transition"
  f ← found_or_err (find (has_id t.reservation_id) stored) t
  rest ← look_up (t.reservation_id ∷ seen) stored ts
  ok (f ∷ rest)

unfoldable pub next_records : Platform → ℕ → List Found → Result (List Reservation)
next_records p now [] = ok []
next_records p now (f ∷ fs) = do
  r ← next_record p now f.current f.transition
  rest ← next_records p now fs
  ok (r ∷ rest)

-- The write at the index of the record with that identity, which a transition keeps.
unfoldable pub replace : Reservation → List Reservation → List Reservation
replace r [] = []
replace r (s ∷ rest) = if has_id r.reservation_id s then r ∷ rest else s ∷ replace r rest

unfoldable pub replace_all : List Reservation → List Reservation → List Reservation
unfolding replace
replace_all [] stored = stored
replace_all (r ∷ rs) stored = replace_all rs (replace r stored)

unfoldable pub has_conflict : List Reservation → Reservation → Bool
has_conflict reservations r =
    active_conflict reservations r r.reservation_id
    || confirmed_spent_conflict reservations r r.reservation_id

-- The next state of the store, and the updated records.
unfoldable pub compare_and_set_batch :
    Platform → ℕ → List Reservation → List Transition → Result (List Reservation × List Reservation)
unfolding replace_all
compare_and_set_batch p now stored transitions = do
  found ← look_up [] stored transitions
  reject
      (states_mixed
        (map (λ f. f.current) (keep (λ f. not f.transition.patch.operation_reconciliation) found)))
      "operation reservations have mixed states"
  updated ← next_records p now found
  assert_exact_operation_lifecycle_transition_sets stored found
  let next = replace_all updated stored
  reject (any (has_conflict next) updated) "active reservation already exists"
  ok (next, updated)
