-- ===== src/Reservation/Step/Keeps.antt =====
-- src/privacy/reservation.js: a transition changes neither the identity of a record, nor the note and
-- the operation that it stands for.
use clairveiljs.Prelude.{ℕ, ◌≡◌, ok}
use clairveiljs.Reservation.Record.{Reservation}
use clairveiljs.Reservation.Platform.{Platform}
use clairveiljs.Reservation.Store.Operation.{Transition}
use clairveiljs.Reservation.Store.Update.{next_record, prepared_patch}
use clairveiljs.Reservation.Step.Identity.{
  apply_patch-status, apply_patch-reservation_id, apply_patch-owner_key_id,
  apply_patch-nullifier_lookup_key, apply_patch-operation_id,
}
use clairveiljs.Reservation.Step.Guards.{next_record-Passed, identity_absent}

pub record KeepsIdentity (current next : Reservation) : Type 0 where
  pub reservation_id : next.reservation_id ≡ current.reservation_id
  pub owner_key_id : next.owner_key_id ≡ current.owner_key_id
  pub nullifier_lookup_key : next.nullifier_lookup_key ≡ current.nullifier_lookup_key
  pub operation_id : next.operation_id ≡ current.operation_id

module _ (p : Platform) (now : ℕ) (current : Reservation) (t : Transition) {r : Reservation}
    (h : next_record p now current t ≡ ok r) where
  -- A transition keeps the identity of the record, its owner, the key of its note and its operation.
  pub next_record-KeepsIdentity : KeepsIdentity current r
  next_record-KeepsIdentity =
      let passed = next_record-Passed p now current t h in
      let patch = prepared_patch current t passed.managed in
      let absent = identity_absent passed in
      record {
        reservation_id = apply_patch-reservation_id p current t.to patch now passed.applied absent;
        owner_key_id = apply_patch-owner_key_id p current t.to patch now passed.applied absent;
        nullifier_lookup_key =
            apply_patch-nullifier_lookup_key p current t.to patch now passed.applied absent;
        operation_id = apply_patch-operation_id p current t.to patch now passed.applied absent;
      }

  -- A transition starts at the status of the record and ends in the status it asks for.
  pub next_record-status : (current.status ≡ t.from) × (r.status ≡ t.to)
  next_record-status =
      let passed = next_record-Passed p now current t h in
      (passed.compared, apply_patch-status p current t.to _ now passed.applied)
