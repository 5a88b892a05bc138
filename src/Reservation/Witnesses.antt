-- ===== src/Reservation/Witnesses.antt =====
-- Each theorem about the reservation store at a run of the store.
use clairveiljs.Prelude.{ℕ, true, List, [], ◌∷◌, some, ok, ◌≡◌, ◌≤◌, refl, All, any, ◌&&◌}
use clairveiljs.Text.{codes}
use clairveiljs.Json.{str, num, bool, obj, put}
use clairveiljs.Reservation.Status.{
  reserved, proving, proof_ready, submitted, replan_required, confirmed_spent, manual_review,
  released, same_status,
}
use clairveiljs.Reservation.Record.{Reservation, object, broadcast_attempt}
use clairveiljs.Reservation.Evidence.{has_broadcast_attempt_metadata}
use clairveiljs.Reservation.Store.Operation.{Transition}
use clairveiljs.Reservation.Store.Create.{create_reservation_batch}
use clairveiljs.Reservation.Store.Update.{next_record, compare_and_set_batch}
use clairveiljs.Reservation.Store.Release.{plain_patch, release_reservation_batch, release_names}
use clairveiljs.Reservation.Store.WellFormed.{IsWellFormed, HasUniqueLocks}
use clairveiljs.Reservation.Store.Conflict.{assert_state_from}
use clairveiljs.Reservation.Step.Counts.{next_record-attempts_grow}
use clairveiljs.Reservation.Store.Reach
use clairveiljs.Reservation.Store.Reach.{IsReached, empty, changed, IsReached-reloads}
use clairveiljs.Reservation.Store.Reload.{assert_state_from-IsWellFormed}
use clairveiljs.Prelude.{◌↔◌}
use clairveiljs.Reservation.Store.Unique.{compare_and_set_batch-HasUniqueLocks}
use clairveiljs.Reservation.Store.Spent.{compare_and_set_batch-IsWellFormed}
use clairveiljs.Reservation.Store.Fresh.{create_reservation_batch-IsWellFormed}
use clairveiljs.Reservation.Store.Free.{release_reservation_batch-IsWellFormed}
use clairveiljs.Reservation.Store.Freed.{BecomesEach, release_names-BecomesEach}
use clairveiljs.Reservation.Store.Together.{compare_and_set_batch-moves_together}
use clairveiljs.Reservation.Store.Conflict.{has_id}
use clairveiljs.Reservation.Step.Keeps.{next_record-KeepsIdentity, KeepsIdentity}
use clairveiljs.Reservation.Step.Legal.{
  next_record-IsLegalStep, IsLegalStep, next_record-stays_spent, next_record-spent_reconciled,
}
use clairveiljs.Reservation.Step.Fence.{next_record-IsFenced, IsFenced}
use clairveiljs.Reservation.Step.Shown.{ShowsFailure, ShowsApproval}
use clairveiljs.Reservation.Step.Inactive.{
  next_record-ShowsFailure, next_record-approved, next_record-attempted,
}
use clairveiljs.Reservation.Step.Attempt.{next_record-BeginsBroadcast, BeginsBroadcast}
use clairveiljs.Reservation.Step.Clears.{next_record-clears_lease}
use clairveiljs.Reservation.Scenario.{
  test_platform, step_of, lease_fields, to_proving, to_attempted, to_submitted, blank,
}
use clairveiljs.Reservation.Runs.{
  from_ok, ok_from, store_code, State, both, two_inputs, created, claimed, proved, attempted, sent,
}

abbrev first : State → Reservation
first (r ∷ rs, us) = r
first ([], us) = blank

abbrev second : State → Reservation
second (r ∷ s ∷ rs, us) = s
second (r ∷ [], us) = blank
second ([], us) = blank

abbrev after : Reservation → ℕ → Transition → Reservation
after r now t = from_ok blank (next_record test_platform now r t)

empty_IsWellFormed : IsWellFormed []
empty_IsWellFormed = record {
  unique = record { distinct = tt; locked_once = tt };
  unspent = tt;
  named = tt;
}

create_reservation_batch-IsWellFormed_example : IsWellFormed (created.0)
unfolding store_code created
create_reservation_batch-IsWellFormed_example =
    create_reservation_batch-IsWellFormed (codes "1") true [] two_inputs {next = created.0}
      {created = created.1} empty_IsWellFormed
      (ok_from ([], []) (create_reservation_batch (codes "1") true [] two_inputs) refl)

compare_and_set_batch-HasUniqueLocks_example : HasUniqueLocks (claimed.0)
unfolding store_code claimed created
compare_and_set_batch-HasUniqueLocks_example =
    compare_and_set_batch-HasUniqueLocks test_platform 10 created.0 (both to_proving)
      {next = claimed.0} {updated = claimed.1} create_reservation_batch-IsWellFormed_example.unique
      (ok_from ([], []) (compare_and_set_batch test_platform 10 created.0 (both to_proving)) refl)

compare_and_set_batch-IsWellFormed_example : IsWellFormed (claimed.0)
unfolding store_code claimed created
compare_and_set_batch-IsWellFormed_example =
    compare_and_set_batch-IsWellFormed test_platform 10 created.0 (both to_proving)
      {next = claimed.0} {updated = claimed.1} create_reservation_batch-IsWellFormed_example
      (refl, (refl, tt))
      (ok_from ([], []) (compare_and_set_batch test_platform 10 created.0 (both to_proving)) refl)

abbrev ids : List (List ℕ)
ids = codes "r1" ∷ codes "r2" ∷ []

unfoldable freed : State
freed = from_ok ([], []) (release_reservation_batch test_platform 5 created.0 ids (codes "owner"))

release_reservation_batch-IsWellFormed_example :
    IsWellFormed freed.0 × All (λ u. u.status ≡ released) freed.1
unfolding store_code freed created
release_reservation_batch-IsWellFormed_example =
    release_reservation_batch-IsWellFormed test_platform 5 created.0 ids (codes "owner")
      {next = freed.0} {updated = freed.1} create_reservation_batch-IsWellFormed_example
      (ok_from ([], []) (release_reservation_batch test_platform 5 created.0 ids (codes "owner"))
        refl)

unfoldable freed_names : State
freed_names = from_ok ([], []) (release_names test_platform 5 created.0 (codes "owner") ids)

release_names-BecomesEach_example :
    BecomesEach (codes "owner") (λ s. any (λ id. has_id id s) ids) created.0 freed_names.0
unfolding store_code freed_names created
release_names-BecomesEach_example =
    release_names-BecomesEach test_platform 5 created.0 (codes "owner") ids {next = freed_names.0}
      {updated = freed_names.1} create_reservation_batch-IsWellFormed_example
      (ok_from ([], []) (release_names test_platform 5 created.0 (codes "owner") ids) refl)

compare_and_set_batch-moves_together_example :
    any (λ u. has_id (second created).reservation_id u && same_status u.status proving) claimed.0
    ≡ true
unfolding store_code claimed created
compare_and_set_batch-moves_together_example =
    compare_and_set_batch-moves_together test_platform 10 created.0 (both to_proving)
      {next = claimed.0} {updated = claimed.1} 0 1 {c = first created} {r = second created}
      (ok_from ([], []) (compare_and_set_batch test_platform 10 created.0 (both to_proving)) refl)
      refl refl refl refl refl refl refl refl refl

next_record-KeepsIdentity_example :
    KeepsIdentity (first created) (after (first created) 10 (to_proving "r1"))
unfolding store_code created
next_record-KeepsIdentity_example =
    next_record-KeepsIdentity test_platform 10 (first created) (to_proving "r1")
      (ok_from blank (next_record test_platform 10 (first created) (to_proving "r1")) refl)

next_record-IsLegalStep_example : IsLegalStep (to_proving "r1") reserved proving
unfolding store_code created
next_record-IsLegalStep_example =
    next_record-IsLegalStep test_platform 10 (first created) (to_proving "r1")
      {r = after (first created) 10 (to_proving "r1")}
      (ok_from blank (next_record test_platform 10 (first created) (to_proving "r1")) refl)

next_record-IsFenced_example : IsFenced test_platform 10 (first created) (to_proving "r1")
unfolding store_code created
next_record-IsFenced_example =
    next_record-IsFenced test_platform 10 (first created) (to_proving "r1")
      {r = after (first created) 10 (to_proving "r1")}
      (ok_from blank (next_record test_platform 10 (first created) (to_proving "r1")) refl) refl

next_record-BeginsBroadcast_example :
    ((to_attempted "r1").patch.evidence_mutation ≡ some broadcast_attempt)
    × ((after (first proved) 30 (to_attempted "r1")).broadcast_attempt_count ≡ 1)
    × ((after (first proved) 30 (to_attempted "r1")).broadcast_in_flight ≡ true)
    × BeginsBroadcast test_platform 30 (first proved) (to_attempted "r1")
unfolding store_code proved claimed created
next_record-BeginsBroadcast_example =
    next_record-BeginsBroadcast test_platform 30 (first proved) (to_attempted "r1")
      {r = after (first proved) 30 (to_attempted "r1")}
      (ok_from blank (next_record test_platform 30 (first proved) (to_attempted "r1")) refl) refl
      refl (λ e. cc)

next_record-attempted_example :
    ((first attempted).broadcast_in_flight ≡ true)
    × (1 ≤ (first attempted).broadcast_attempt_count)
    × (has_broadcast_attempt_metadata (to_submitted "r1").patch.fields ≡ true)
unfolding store_code attempted proved claimed created
next_record-attempted_example =
    next_record-attempted test_platform 40 (first attempted) (to_submitted "r1")
      {r = after (first attempted) 40 (to_submitted "r1")}
      (ok_from blank (next_record test_platform 40 (first attempted) (to_submitted "r1")) refl) refl
      refl refl

next_record-clears_lease_example :
    ((after (first attempted) 40 (to_submitted "r1")).lease_token ≡ [])
    × ((after (first attempted) 40 (to_submitted "r1")).lease_owner ≡ [])
unfolding store_code attempted proved claimed created
next_record-clears_lease_example =
    next_record-clears_lease test_platform 40 (first attempted) (to_submitted "r1")
      {r = after (first attempted) 40 (to_submitted "r1")}
      (ok_from blank (next_record test_platform 40 (first attempted) (to_submitted "r1")) refl) refl
      refl refl

abbrev failed_tx : Transition
failed_tx = step_of "r1" submitted replan_required (
    object (
      ("nullifier_unspent_confirmed", bool true)
      ∷ ("tx_absent_or_failed_confirmed", bool true)
      ∷ ("checked_height", num 7)
      ∷ ("tx_hash_checked", str (codes "ab"))
      ∷ []))

next_record-ShowsFailure_example : ShowsFailure (first sent) failed_tx.patch.fields
unfolding store_code sent attempted proved claimed created
next_record-ShowsFailure_example =
    next_record-ShowsFailure test_platform 50 (first sent) failed_tx
      {r = after (first sent) 50 failed_tx}
      (ok_from blank (next_record test_platform 50 (first sent) failed_tx) refl) refl refl

abbrev discarded : Transition
discarded = step_of "r1" proof_ready replan_required (
    object (
      (
        "metadata",
        obj (object (("no_broadcast_attempt", bool true) ∷ ("proof_discarded", bool true) ∷ [])),
      )
      ∷ lease_fields))

abbrev to_review : Transition
to_review = step_of "r1" reserved manual_review (object [])

abbrev approved : Transition
approved = step_of "r1" manual_review released (
    object (
      (
        "metadata",
        obj (
            object (
              ("operator_approved", bool true)
              ∷ ("operator_id", str (codes "op1"))
              ∷ ("operator_approval_reference", str (codes "ticket"))
              ∷ [])),
      )
      ∷ []))

next_record-approved_example : ShowsApproval approved.patch.fields
unfolding store_code created
next_record-approved_example =
    next_record-approved test_platform 30 (after (first created) 20 to_review) approved
      {r = after (after (first created) 20 to_review) 30 approved}
      (ok_from blank (next_record test_platform 30 (after (first created) 20 to_review) approved)
        refl)
      refl refl

abbrev to_spent : Transition
to_spent = record {
  reservation_id = codes "r1";
  from = submitted;
  to = confirmed_spent;
  patch = record plain_patch { reconciled_spent = true };
}

next_record-spent_reconciled_example : to_spent.patch.reconciled_spent ≡ true
unfolding store_code sent attempted proved claimed created
next_record-spent_reconciled_example =
    next_record-spent_reconciled test_platform 50 (first sent) to_spent
      {r = after (first sent) 50 to_spent}
      (ok_from blank (next_record test_platform 50 (first sent) to_spent) refl) refl

unfoldable spent : Reservation
spent = after (first sent) 50 to_spent

abbrev outcome_again : Transition
outcome_again = record {
  reservation_id = codes "r1";
  from = confirmed_spent;
  to = confirmed_spent;
  patch = record plain_patch {
    fields =
        object (
          ("metadata", obj (put "operation_status" (str (codes "Succeeded")) spent.metadata)) ∷ []);
    reconciled_spent = true;
    operation_reconciliation = true;
  };
}

next_record-stays_spent_example : (after spent 60 outcome_again).status ≡ confirmed_spent
unfolding store_code sent attempted proved claimed created spent
next_record-stays_spent_example =
    next_record-stays_spent test_platform 60 spent outcome_again {r = after spent 60 outcome_again}
      (ok_from blank (next_record test_platform 60 spent outcome_again) refl) refl

assert_state_from-IsWellFormed_example :
    (assert_state_from [] [] [] created.0 ≡ ok tt) ↔ IsWellFormed created.0
unfolding store_code created
assert_state_from-IsWellFormed_example =
    assert_state_from-IsWellFormed created.0 create_reservation_batch-IsWellFormed_example.named

claimed_IsReached : IsReached (claimed.0)
unfolding store_code claimed created
claimed_IsReached =
    changed {stored = created.0} {next = claimed.0} {updated = claimed.1} test_platform 10
      (both to_proving)
      (Reach.created {next = created.0} {new = created.1} (codes "1") true two_inputs empty
        (ok_from ([], []) (create_reservation_batch (codes "1") true [] two_inputs) refl))
      (refl, (refl, tt))
      (ok_from ([], []) (compare_and_set_batch test_platform 10 created.0 (both to_proving)) refl)

IsReached-reloads_example : IsWellFormed claimed.0 × (assert_state_from [] [] [] claimed.0 ≡ ok tt)
unfolding store_code claimed created
IsReached-reloads_example = IsReached-reloads claimed.0 claimed_IsReached

next_record-attempts_grow_example :
    (first proved).broadcast_attempt_count
    ≤ (after (first proved) 30 (to_attempted "r1")).broadcast_attempt_count
unfolding store_code proved claimed created
next_record-attempts_grow_example =
    next_record-attempts_grow test_platform 30 (first proved) (to_attempted "r1")
      {r = after (first proved) 30 (to_attempted "r1")}
      (ok_from blank (next_record test_platform 30 (first proved) (to_attempted "r1")) refl)
