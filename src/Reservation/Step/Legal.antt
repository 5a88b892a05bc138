-- ===== src/Reservation/Step/Legal.antt =====
-- src/privacy/reservation.js: the steps between statuses that a transition can make.
use clairveiljs.Prelude.{ℕ, true, false, not, ◌&&◌, ok, >>=-eq-ok, ◌≡◌, arith, ◌⊎◌}
use clairveiljs.Reservation.Status.{
  Status, confirmed_spent, same_status_iff, can_transition_reservation,
}
use clairveiljs.Reservation.Record.{Reservation}
use clairveiljs.Reservation.Platform.{Platform}
use clairveiljs.Reservation.Evidence.{
  assert_store_transition_evidence, assert_core_transition_evidence,
}
use clairveiljs.Reservation.Patching.Guards.{
  assert_patch_keeps_reservation_identity, assert_reservation_transition_patch_fields,
}
use clairveiljs.Reservation.Store.Operation.{Transition}
use clairveiljs.Reservation.Store.Update.{next_record, assert_step, assert_patch, when}
use clairveiljs.Reservation.Step.Guards.{Passed, next_record-Passed}
use clairveiljs.Reservation.Step.Keeps.{next_record-status}
use clairveiljs.Reservation.Step.Classified.{classify-Classified, relay_evidence-to, rejection-to}

-- The steps of the source's table, those that stay, and the quarantine of a spent note.
abbrev pub IsLegalStep : Transition → Status → Status → Type 0
IsLegalStep t from to =
    (from ≡ to)
    ⊎ (can_transition_reservation from to ≡ true)
    ⊎ ((to ≡ confirmed_spent) × (t.patch.reconciled_spent ≡ true))

module _ (p : Platform) (now : ℕ) (current : Reservation) (t : Transition) {r : Reservation}
    (passed : Passed p now current t r) where
  legal : IsLegalStep t t.from t.to
  unfolding assert_step
  legal =
      ground
        (arith, passed.stepped, same_status_iff t.from t.to, same_status_iff t.to confirmed_spent)

  -- The evidence guard of the store, for what is neither a broadcast rejection nor relay evidence.
  pub evidence_guard :
      passed.managed.broadcast_rejection ≡ false
      → passed.managed.relay_evidence ≡ false
      → assert_store_transition_evidence current t.to t.patch ≡ ok tt
  unfolding assert_patch
  evidence_guard b e =
      let (u0, e0, h0) =
        >>=-eq-ok (assert_patch_keeps_reservation_identity t.patch.fields) _ passed.patched in
      let (u1, e1, h1) =
        >>=-eq-ok
          (assert_reservation_transition_patch_fields current t.to t.patch.fields passed.managed) _
          h0 in
      let (u2, e2, h2) =
        >>=-eq-ok
          (when (not passed.managed.broadcast_rejection && not passed.managed.relay_evidence)
            (assert_store_transition_evidence current t.to t.patch))
          _ h1 in
      let k : when (not passed.managed.broadcast_rejection && not passed.managed.relay_evidence)
            (assert_store_transition_evidence current t.to t.patch)
          ≡ ok tt =
        e2 in
      rw (b, e) at k

-- A transition that the store makes is a step of the table, stays in its status, or quarantines a
-- note that the chain reports as spent.
pub next_record-IsLegalStep :
    (p : Platform) (now : ℕ) (current : Reservation) (t : Transition) {r : Reservation}
    → next_record p now current t ≡ ok r
    → IsLegalStep t current.status r.status
next_record-IsLegalStep p now current t h =
    let s = next_record-status p now current t h in
    rw (s.0, s.1) (legal p now current t (next_record-Passed p now current t h))

-- Nothing leaves `ConfirmedSpent`: the next record of a spent record is spent.
pub next_record-stays_spent :
    (p : Platform) (now : ℕ) (current : Reservation) (t : Transition) {r : Reservation}
    → next_record p now current t ≡ ok r
    → current.status ≡ confirmed_spent
    → r.status ≡ confirmed_spent
unfolding can_transition_reservation
next_record-stays_spent p now current t h s =
    ground (arith, next_record-IsLegalStep p now current t h)

-- A record becomes `ConfirmedSpent` only by a patch with the mark of the chain reconciliation.
pub next_record-spent_reconciled :
    (p : Platform) (now : ℕ) (current : Reservation) (t : Transition) {r : Reservation}
    → next_record p now current t ≡ ok r
    → r.status ≡ confirmed_spent
    → t.patch.reconciled_spent ≡ true
unfolding assert_store_transition_evidence assert_core_transition_evidence
next_record-spent_reconciled p now current t h s =
    let passed = next_record-Passed p now current t h in
    let c = classify-Classified p current t.to t.patch now passed.managed passed.classified in
    ground (
      arith,
      evidence_guard p now current t passed,
      next_record-status p now current t h,
      relay_evidence-to p current t.to t.patch now passed.managed c,
      rejection-to p current t.to t.patch now passed.managed c,
      same_status_iff t.to confirmed_spent,
    )
