-- ===== src/Reservation/Step/Classified.antt =====
-- Which guard has found a patch to be of which managed kind.
use clairveiljs.Prelude.{ℕ, some, Bool, true, Result, ok, >>=-eq-ok, ◌≡◌, arith, [], ◌∷◌}
use clairveiljs.Reservation.Status.{
  Status, proof_ready, replan_required, submitted, unknown, same_status_iff, one_of,
}
use clairveiljs.Reservation.Record.{Reservation, Patch, broadcast_rejected}
use clairveiljs.Reservation.Platform.{Platform}
use clairveiljs.Reservation.Managed.Broadcast.{
  when_managed, is_managed_mutation, assert_managed_broadcast_attempt_mutation,
  assert_managed_broadcast_rejection_mutation,
  assert_managed_authoritative_broadcast_failure_mutation,
}
use clairveiljs.Reservation.Managed.Expired.{
  assert_managed_expired_proof_ready_broadcast_failure_mutation,
}
use clairveiljs.Reservation.Managed.Relay.{
  assert_managed_relay_handoff_mutation, assert_managed_relay_transaction_evidence_mutation,
}
use clairveiljs.Reservation.Managed.Outcome.{assert_managed_operation_reconciliation}
use clairveiljs.Reservation.Patching.Guards.{Managed}
use clairveiljs.Reservation.Store.Update.{classify}

pub when_managed-body :
    (b : Bool) (m : Result (Unit {0})) {k : Bool} → when_managed b m ≡ ok k → b ≡ true → m ≡ ok tt
when_managed-body b m h e = ground arith

pub record Classified (p : Platform) (current : Reservation) (to : Status) (patch : Patch) (now : ℕ)
    (m : Managed) : Type 0 where
  pub attempt :
      assert_managed_broadcast_attempt_mutation p current to patch now ≡ ok m.broadcast_attempt
  pub rejection :
      assert_managed_broadcast_rejection_mutation p current to patch now ≡ ok m.broadcast_rejection
  pub failure :
      assert_managed_authoritative_broadcast_failure_mutation current to patch
      ≡ ok m.broadcast_failure
  pub expired :
      assert_managed_expired_proof_ready_broadcast_failure_mutation p current to patch now
      ≡ ok m.expired_failure
  pub evidence :
      assert_managed_relay_transaction_evidence_mutation current to patch ≡ ok m.relay_evidence

module _ (p : Platform) (current : Reservation) (to : Status) (patch : Patch) (now : ℕ)
    (m : Managed) where
  pub classify-Classified :
      classify p current to patch now ≡ ok m → Classified p current to patch now m
  unfolding classify
  classify-Classified h =
      let (a, ea, h1) =
        >>=-eq-ok (assert_managed_relay_handoff_mutation p current to patch now) _ h in
      let (b, eb, h2) =
        >>=-eq-ok (assert_managed_broadcast_attempt_mutation p current to patch now) _ h1 in
      let (c, ec, h3) =
        >>=-eq-ok (assert_managed_broadcast_rejection_mutation p current to patch now) _ h2 in
      let (d, ed, h4) =
        >>=-eq-ok (assert_managed_authoritative_broadcast_failure_mutation current to patch) _ h3 in
      let (e, ee, h5) =
        >>=-eq-ok
          (assert_managed_expired_proof_ready_broadcast_failure_mutation p current to patch now) _
          h4 in
      let (f, ef, h6) =
        >>=-eq-ok (assert_managed_relay_transaction_evidence_mutation current to patch) _ h5 in
      let (g, eg, h7) = >>=-eq-ok (assert_managed_operation_reconciliation current to patch) _ h6 in
      record {
        attempt = ground (arith, eb, h7);
        rejection = ground (arith, ec, h7);
        failure = ground (arith, ed, h7);
        expired = ground (arith, ee, h7);
        evidence = ground (arith, ef, h7);
      }

  pub relay_evidence-to :
      Classified p current to patch now m
      → m.relay_evidence ≡ true
      → (to ≡ submitted) × (patch.relay_transaction_evidence ≡ true)
  unfolding assert_managed_relay_transaction_evidence_mutation
  relay_evidence-to c h = ground (arith, c.evidence, same_status_iff to submitted)

  pub expired_failure-to :
      Classified p current to patch now m
      → m.expired_failure ≡ true
      → (to ≡ replan_required)
        × (current.status ≡ proof_ready)
        × (patch.expired_proof_ready_broadcast_failure ≡ true)
  unfolding assert_managed_expired_proof_ready_broadcast_failure_mutation
  expired_failure-to c h = ground (
    arith,
    c.expired,
    same_status_iff to replan_required,
    same_status_iff current.status proof_ready,
  )

  pub rejection-to :
      Classified p current to patch now m
      → m.broadcast_rejection ≡ true
      → (to ≡ replan_required)
        × (current.status ≡ proof_ready)
        × (patch.evidence_mutation ≡ some broadcast_rejected)
  unfolding assert_managed_broadcast_rejection_mutation is_managed_mutation
  rejection-to c h = ground (
    arith,
    c.rejection,
    same_status_iff to replan_required,
    same_status_iff current.status proof_ready,
  )

  pub broadcast_failure-to :
      Classified p current to patch now m
      → m.broadcast_failure ≡ true
      → (to ≡ replan_required)
        × (one_of current.status (proof_ready ∷ submitted ∷ unknown ∷ []) ≡ true)
  unfolding assert_managed_authoritative_broadcast_failure_mutation
  broadcast_failure-to c h = ground (arith, c.failure, same_status_iff to replan_required)
