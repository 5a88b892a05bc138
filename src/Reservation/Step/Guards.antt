-- ===== src/Reservation/Step/Guards.antt =====
-- What a transition that the store accepts has passed.
use clairveiljs.Prelude.{
  ℕ, String, true, false, List, [], ◌∷◌, Result, ok, >>=-eq-ok, ◌≡◌, refl, arith, ◌∙◌, any, str_eq,
  str_eq_iff, assert, All,
}
use clairveiljs.Json.{Fields, has}
use clairveiljs.Reservation.Status.{same_status, same_status_iff}
use clairveiljs.Reservation.Record.{Reservation}
use clairveiljs.Reservation.Platform.{Platform}
use clairveiljs.Reservation.Lease.{assert_store_lease_mutation_allowed}
use clairveiljs.Reservation.Patching.Fields.{immutable_reservation_patch_fields}
use clairveiljs.Reservation.Patching.Guards.{Managed, assert_patch_keeps_reservation_identity}
use clairveiljs.Reservation.Patching.Apply.{apply_patch}
use clairveiljs.Reservation.Store.Operation.{Transition}
use clairveiljs.Reservation.Store.Update.{
  next_record, classify, assert_step, assert_patch, needs_lease_check, prepared_patch, when,
}
use clairveiljs.Reservation.Step.Prepared.{Agree-prepared, Untouched}
use clairveiljs.Reservation.Step.Identity.{identity_keys}

-- The managed kind that the guards found, and each guard's success.
pub record Passed (p : Platform) (now : ℕ) (current : Reservation) (t : Transition)
    (r : Reservation) : Type 0 where
  pub managed : Managed
  pub compared : current.status ≡ t.from
  pub classified : classify p current t.to t.patch now ≡ ok managed
  pub stepped : assert_step p current t managed now ≡ ok tt
  pub patched : assert_patch current t managed ≡ ok tt
  pub leased :
      when
        (needs_lease_check current managed)
        (assert_store_lease_mutation_allowed p current t.to t.patch.fields now)
      ≡ ok tt
  pub applied : apply_patch p current t.to (prepared_patch current t managed) now ≡ ok r

unit_ok : (m : Result (Unit {0})) {u : Unit {0}} → m ≡ ok u → m ≡ ok tt
unit_ok m h = h

pub next_record-Passed :
    (p : Platform) (now : ℕ) (current : Reservation) (t : Transition) {r : Reservation}
    → next_record p now current t ≡ ok r
    → Passed p now current t r
unfolding next_record
next_record-Passed p now current t h =
    let (u0, e0, h0) = >>=-eq-ok (assert (same_status current.status t.from) _) _ h in
    let (m, e1, h1) = >>=-eq-ok (classify p current t.to t.patch now) _ h0 in
    let (u2, e2, h2) = >>=-eq-ok (assert_step p current t m now) _ h1 in
    let (u3, e3, h3) = >>=-eq-ok (assert_patch current t m) _ h2 in
    let (u4, e4, h4) = >>=-eq-ok (when (needs_lease_check current m) _) _ h3 in
    record {
      managed = m;
      compared = ground (arith, same_status_iff current.status t.from);
      classified = e1;
      stepped = e2;
      patched = e3;
      leased = e4;
      applied = h4;
    }

absent_at :
    (ks : List String) (fs : Fields) (k : String)
    → any (str_eq k) ks ≡ true
    → any (has fs) ks ≡ false
    → has fs k ≡ false
absent_at [] fs k m h = cc
absent_at (x ∷ ks) fs k m h = ground (arith, str_eq_iff k x, absent_at ks fs k)

module _ {p : Platform} {now : ℕ} {current : Reservation} {t : Transition} {r : Reservation}
    (passed : Passed p now current t r) where
  open passed use {managed, patched, stepped, applied, compared}

  identity_guard : assert_patch_keeps_reservation_identity t.patch.fields ≡ ok tt
  unfolding assert_patch
  identity_guard =
      unit_ok _ (>>=-eq-ok (assert_patch_keeps_reservation_identity t.patch.fields) _ patched).1

  lacks_identity :
      (k : String)
      → any (str_eq k) immutable_reservation_patch_fields ≡ true
      → has t.patch.fields k ≡ false
  unfolding assert_patch_keeps_reservation_identity
  lacks_identity k m =
      absent_at immutable_reservation_patch_fields t.patch.fields k m
        (ground (arith, identity_guard))

  prepared_lacks :
      (k : String)
      → Untouched k
      → any (str_eq k) immutable_reservation_patch_fields ≡ true
      → has (prepared_patch current t managed) k ≡ false
  prepared_lacks k u m = (Agree-prepared current t managed k u).0 ∙ lacks_identity k m

  pub identity_absent : All (λ k. has (prepared_patch current t managed) k ≡ false) identity_keys
  identity_absent = (
    prepared_lacks "reservation_id" refl refl,
    (
      prepared_lacks "reservationID" refl refl,
      (
        prepared_lacks "reservationId" refl refl,
        (
          prepared_lacks "owner_key_id" refl refl,
          (
            prepared_lacks "ownerKeyID" refl refl,
            (
              prepared_lacks "ownerKeyId" refl refl,
              (
                prepared_lacks "nullifier_lookup_key" refl refl,
                (
                  prepared_lacks "nullifierLookupKey" refl refl,
                  (
                    prepared_lacks "operation_id" refl refl,
                    (
                      prepared_lacks "operationID" refl refl,
                      (prepared_lacks "operationId" refl refl, tt),
                    ),
                  ),
                ),
              ),
            ),
          ),
        ),
      ),
    ),
  )
