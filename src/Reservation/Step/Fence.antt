-- ===== src/Reservation/Step/Fence.antt =====
-- src/privacy/reservation.js: a worker's transition is fenced by the lease that the record stores.
use clairveiljs.Prelude.{
  ℕ, true, false, ◌&&◌, List, [], ok, ◌≡◌, ◌≢◌, ◌<◌, arith, inl, inr, Bool-cases,
}
use clairveiljs.Text.{codes_eq_iff}
use clairveiljs.Json.{Fields, get, text_if_truthy}
use clairveiljs.Reservation.Status.{
  reserved, proving, submitted, replan_required, same_status, same_status_iff,
  requires_reservation_lease_token,
}
use clairveiljs.Reservation.Record.{Reservation}
use clairveiljs.Reservation.Platform.{Platform}
use clairveiljs.Reservation.Lease.{
  is_empty, ms_or_zero, patch_lease_token, patch_lease_owner, patch_lease_until,
  lease_expiration_ms, reservation_claim_token_hash, reservation_claim_token_hash_field,
  assert_claim, assert_current_lease_token, assert_lease_transition_allowed,
  assert_store_lease_mutation_allowed, can_apply_expired_lease_recovery,
}
use clairveiljs.Reservation.Store.Operation.{Transition}
use clairveiljs.Reservation.Store.Update.{next_record, needs_lease_check}
use clairveiljs.Reservation.Step.Guards.{next_record-Passed}
use clairveiljs.Reservation.Step.Keeps.{next_record-status}
use clairveiljs.Reservation.Step.Classified.{
  classify-Classified, relay_evidence-to, expired_failure-to, broadcast_failure-to,
}

-- The patch shows the token and the owner of the stored lease, which has not expired.
pub record HoldsLease (p : Platform) (current : Reservation) (patch : Fields) (now : ℕ)
    : Type 0 where
  pub token : patch_lease_token patch ≡ current.lease_token
  pub token_given : current.lease_token ≢ []
  pub owner : patch_lease_owner patch ≡ current.lease_owner
  pub owner_given : current.lease_owner ≢ []
  pub unexpired : now < lease_expiration_ms p current

-- A worker claims a record with the token whose hash was bound when the note was reserved, and with
-- a lease that ends later.
pub record ClaimsRecord (p : Platform) (current : Reservation) (patch : Fields) (now : ℕ)
    : Type 0 where
  pub unclaimed : current.lease_token ≡ []
  pub bound :
      text_if_truthy (get current.metadata reservation_claim_token_hash_field)
      ≡ reservation_claim_token_hash p (patch_lease_token patch)
  pub future : now < ms_or_zero (p.parse_date (patch_lease_until patch))

is_empty_iff : (t : List ℕ) → is_empty t ≡ true → t ≡ []
is_empty_iff t h = ground arith

nonempty : (t : List ℕ) → is_empty t ≡ false → t ≢ []
nonempty t h = ground arith

pub assert_current_lease_token-HoldsLease :
    (p : Platform) (current : Reservation) (patch : Fields) (now : ℕ)
    → assert_current_lease_token p current (patch_lease_token patch) (patch_lease_owner patch) now
      ≡ ok tt
    → HoldsLease p current patch now
unfolding assert_current_lease_token
assert_current_lease_token-HoldsLease p current patch now h = record {
  token = ground (arith, codes_eq_iff (patch_lease_token patch) current.lease_token);
  token_given = nonempty current.lease_token (ground arith);
  owner = ground (arith, codes_eq_iff (patch_lease_owner patch) current.lease_owner);
  owner_given = nonempty current.lease_owner (ground arith);
  unexpired = ground arith;
}

assert_claim-ClaimsRecord :
    (p : Platform) (current : Reservation) (patch : Fields) (now : ℕ)
    → current.lease_token ≡ []
    → assert_claim p current patch now ≡ ok tt
    → ClaimsRecord p current patch now
unfolding assert_claim
assert_claim-ClaimsRecord p current patch now e h = record {
  unclaimed = e;
  bound = ground (
    arith,
    codes_eq_iff (reservation_claim_token_hash p (patch_lease_token patch))
        (text_if_truthy (get current.metadata reservation_claim_token_hash_field)),
  );
  future = ground arith;
}

-- Why a transition that needs the lease is let through.
pub data IsFenced (p : Platform) (now : ℕ) (current : Reservation) (t : Transition) : Type 0 where
  holds : HoldsLease p current t.patch.fields now → IsFenced p now current t
  claims :
      current.status ≡ reserved
      → t.to ≡ proving
      → ClaimsRecord p current t.patch.fields now
      → IsFenced p now current t
  recovers : can_apply_expired_lease_recovery p current t.to now ≡ true → IsFenced p now current t
  relayed : t.to ≡ submitted → t.patch.relay_transaction_evidence ≡ true → IsFenced p now current t
  expired :
      t.to ≡ replan_required
      → t.patch.expired_proof_ready_broadcast_failure ≡ true
      → IsFenced p now current t

lease_guard :
    (p : Platform) (now : ℕ) (current : Reservation) (t : Transition)
    → requires_reservation_lease_token current.status t.to ≡ true
    → assert_store_lease_mutation_allowed p current t.to t.patch.fields now ≡ ok tt
    → IsFenced p now current t
unfolding assert_store_lease_mutation_allowed assert_lease_transition_allowed
lease_guard p now current t q h =
    elim (Bool-cases (can_apply_expired_lease_recovery p current t.to now)) [
      | inl recovery ↦ recovers recovery
      | inr unrecovered ↦
          elim (Bool-cases (
            same_status current.status reserved
            && same_status t.to proving
            && is_empty current.lease_token)) [
              | inl claim ↦
                  claims (ground (arith, same_status_iff current.status reserved))
                    (ground (arith, same_status_iff t.to proving))
                    (assert_claim-ClaimsRecord p current t.patch.fields now
                      (is_empty_iff current.lease_token (ground arith)) (ground arith))
              | inr held ↦ holds (
                  assert_current_lease_token-HoldsLease p current t.patch.fields now (ground arith))
            ]
    ]

-- A transition of the table of transitions that require a lease token has shown the current lease or
-- claimed an unclaimed record, or the lease has expired and the target is a recovery, or it
-- carries managed relay evidence or managed evidence of a failed broadcast.
pub next_record-IsFenced :
    (p : Platform) (now : ℕ) (current : Reservation) (t : Transition) {r : Reservation}
    → next_record p now current t ≡ ok r
    → requires_reservation_lease_token current.status r.status ≡ true
    → IsFenced p now current t
unfolding needs_lease_check requires_reservation_lease_token
next_record-IsFenced p now current t h q =
    let passed = next_record-Passed p now current t h in
    let c = classify-Classified p current t.to t.patch now passed.managed passed.classified in
    let required : requires_reservation_lease_token current.status t.to ≡ true =
      rw (← (next_record-status p now current t h).1) q in
    elim (Bool-cases passed.managed.relay_evidence) [
      | inl e ↦
          let k = relay_evidence-to p current t.to t.patch now passed.managed c e in relayed k.0 k.1
      | inr n ↦ elim (Bool-cases passed.managed.expired_failure) [
        | inl e ↦
            let k = expired_failure-to p current t.to t.patch now passed.managed c e in
            expired k.0 k.2
        | inr m ↦ lease_guard p now current t required (
            ground (
              arith,
              passed.leased,
              required,
              broadcast_failure-to p current t.to t.patch now passed.managed c,
            ))
      ]
    ]
