-- ===== src/Reservation/Store/Operation.antt =====
-- src/privacy/reservation.js: the records of one operation move together.

use clairveiljs.Prelude.{
  ℕ, Bool, not, ◌&&◌, ◌||◌, List, [], ◌∷◌, any, all, Result, ◌>>◌, assert, length, ◌==◌, keep,
}
use clairveiljs.Reservation.Status.{
  Status, reserved, proving, proof_ready, submitted, unknown, replan_required, failed,
  manual_review, released, same_status, one_of,
}
use clairveiljs.Reservation.Record.{Reservation, Patch}
use clairveiljs.Reservation.Lease.{is_empty}
use clairveiljs.Reservation.Store.Conflict.{has_id, is_spent}
use clairveiljs.Reservation.Store.Create.{same_operation}

pub record Transition : Type 0 where
  pub reservation_id : List ℕ
  pub from : Status
  pub to : Status
  pub patch : Patch

-- A transition with the record that it found.
pub record Found : Type 0 where
  pub current : Reservation
  pub transition : Transition

-- Records of one named operation that are not in one state.
unfoldable pub states_mixed : List Reservation → Bool
states_mixed reservations =
    any
      (λ r.
        not (is_empty r.operation_id)
        && any
            (λ s.
              not (is_empty s.operation_id)
              && same_operation r s
              && not (same_status r.status s.status))
            reservations)
      reservations

abbrev pub exact_operation_lifecycle_statuses : List Status
exact_operation_lifecycle_statuses =
    reserved ∷ proving ∷ proof_ready ∷ submitted ∷ unknown ∷ manual_review ∷ replan_required
    ∷ released ∷ failed ∷ []

-- The transition has to take its whole operation along.
unfoldable pub selects_operation : Found → Bool
selects_operation f =
    not (is_spent f.current)
    && not (is_empty f.current.operation_id)
    && (one_of f.transition.to exact_operation_lifecycle_statuses
        || f.transition.patch.operation_reconciliation)

-- Two transitions of one operation have one target.
unfoldable pub one_target : List Found → Found → Bool
unfolding selects_operation
one_target found f =
    all
      (λ g.
        not (selects_operation g)
        || not (same_operation f.current g.current)
        || f.transition.patch.operation_reconciliation
        || g.transition.patch.operation_reconciliation
        || same_status f.transition.to g.transition.to)
      found

-- Each record linked to the operation is selected. Spent ones count only for relay evidence.
unfoldable pub selects_linked : List Reservation → List Found → Found → Bool
unfolding selects_operation
selects_linked reservations found f =
    let selected = keep (λ g. selects_operation g && same_operation f.current g.current) found in
    let include_terminal = any (λ g. g.transition.patch.relay_transaction_evidence) selected in
    let linked =
      keep (λ r. same_operation r f.current && (include_terminal || not (is_spent r)))
        reservations in
    length linked == length selected
    && all (λ r. any (λ g. has_id r.reservation_id g.current) selected) linked

unfoldable pub assert_exact_operation_lifecycle_transition_sets :
    List Reservation → List Found → Result (Unit {0})
unfolding one_target selects_linked
assert_exact_operation_lifecycle_transition_sets reservations found = do
  let selected = keep selects_operation found
  assert (all (one_target found) selected)
      "operation lifecycle transition requires one target status for the linked reservation set"
  assert (all (selects_linked reservations found) selected)
      "operation lifecycle transition requires the exact linked reservation set"
