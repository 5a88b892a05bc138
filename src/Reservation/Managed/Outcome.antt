-- ===== src/Reservation/Managed/Outcome.antt =====
-- src/privacy/reservation.js: the outcome that reconciliation writes into a record.

use clairveiljs.Prelude.{String, Bool, ◌||◌, List, [], ◌∷◌, Result, ◌>>◌, assert}
use clairveiljs.Json.{get, is_object}
use clairveiljs.Reservation.Status.{Status, confirmed_spent, same_status}
use clairveiljs.Reservation.Record.{Reservation, Patch}
use clairveiljs.Reservation.Managed.Broadcast.{when_managed, patch_metadata}
use clairveiljs.Reservation.Managed.Relay.{keeps_other_metadata}

abbrev pub operation_outcome_metadata_fields : List String
operation_outcome_metadata_fields =
    "operation_status" ∷ "operation_success_evidence_matches" ∷ "operation_success_evidence_errors"
    ∷ "operation_success_evidence_conflicts" ∷ []

unfoldable pub assert_managed_operation_reconciliation : Reservation → Status → Patch → Result Bool
unfolding keeps_other_metadata
assert_managed_operation_reconciliation current to patch =
    when_managed patch.operation_reconciliation do
      assert (same_status to current.status || same_status to confirmed_spent)
          "managed operation reconciliation may only retain status or quarantine a spent note"
      assert (is_object (get patch.fields "metadata"))
          "managed operation reconciliation requires operation outcome metadata"
      assert
          (keeps_other_metadata operation_outcome_metadata_fields current.metadata
            (patch_metadata patch))
          "metadata cannot change during operation reconciliation"
