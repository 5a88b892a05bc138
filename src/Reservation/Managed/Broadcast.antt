-- ===== src/Reservation/Managed/Broadcast.antt =====
-- src/privacy/reservation.js: the broadcast of a proof by its worker, and what may undo it.

use clairveiljs.Prelude.{
  ℕ, Bool, true, false, not, ◌&&◌, ◌||◌, Option, none, some, [], ◌∷◌, leb, ltb, if◌then◌else◌,
  Result, ok, ◌>>=◌, ◌>>◌, assert, reject, ◌==◌, ◌+◌,
}
use clairveiljs.Text.{codes, codes_eq, trim}
use clairveiljs.Json.{
  Value, Fields, get, fields_of, is_true, is_false, text_or_empty, text_if_truthy, number_of,
}
use clairveiljs.Reservation.Status.{
  Status, proof_ready, submitted, unknown, replan_required, same_status, one_of,
}
use clairveiljs.Reservation.Record.{
  Reservation, Patch, EvidenceMutation, relay_handoff, broadcast_attempt, broadcast_rejected,
}
use clairveiljs.Reservation.Lease.{
  is_empty, assert_current_lease_token, patch_lease_token, patch_lease_owner,
}
use clairveiljs.Reservation.Platform.{Platform}
use clairveiljs.Reservation.Evidence.{has_exact_post_broadcast_failure_evidence}

-- `Number(value) === n`
unfoldable pub number_is : Option Value → ℕ → Bool
number_is v n = elim (number_of v) [ none ↦ false | some m ↦ m == n ]

abbrev pub patch_metadata : Patch → Fields
patch_metadata patch = fields_of (get patch.fields "metadata")

abbrev pub is_mutation : Option EvidenceMutation → EvidenceMutation → Bool
is_mutation (some relay_handoff) relay_handoff = true
is_mutation (some broadcast_attempt) broadcast_attempt = true
is_mutation (some broadcast_rejected) broadcast_rejected = true
is_mutation _ _ = false

-- `patch[symbol] === mutation && current.status === from && to === target`
unfoldable pub is_managed_mutation :
    EvidenceMutation → Status → Status → Reservation → Status → Patch → Bool
is_managed_mutation mutation from target current to patch =
    is_mutation patch.evidence_mutation mutation
    && same_status current.status from
    && same_status to target

unfoldable pub is_relay_handed_off : Reservation → Bool
is_relay_handed_off current =
    is_true (get current.metadata "relay_handed_off")
    || is_true (get current.metadata "relayHandedOff")

-- A guard that holds for its own kind of patch alone: `false` says that the patch is of another.
abbrev pub when_managed : Bool → Result (Unit {0}) → Result Bool
when_managed false m = ok false
when_managed true m = m >>= λ _. ok true

unfoldable pub assert_managed_broadcast_attempt_mutation :
    Platform → Reservation → Status → Patch → ℕ → Result Bool
unfolding is_managed_mutation is_relay_handed_off number_is
assert_managed_broadcast_attempt_mutation p current to patch now =
    when_managed (is_managed_mutation broadcast_attempt proof_ready proof_ready current to patch) do
      reject (is_relay_handed_off current) "relay payload was handed off"
      reject (current.broadcast_in_flight || ltb 0 current.broadcast_attempt_count)
          "broadcast attempt already started; reconcile before retry"
      assert (is_true (get patch.fields "broadcast_in_flight"))
          "broadcast attempt must set broadcast_in_flight"
      assert
          (number_is (get patch.fields "broadcast_attempt_count")
            (current.broadcast_attempt_count + 1))
          "broadcast attempt count must increase exactly once"
      assert (is_false (get (patch_metadata patch) "no_broadcast_attempt"))
          "broadcast attempt must clear no_broadcast_attempt evidence"
      assert_current_lease_token p current (patch_lease_token patch.fields)
          (patch_lease_owner patch.fields) now

-- A broadcast whose durable marker was written.
unfoldable pub durable_broadcast_rejection : Reservation → Bool
durable_broadcast_rejection current =
    current.broadcast_in_flight && leb 1 current.broadcast_attempt_count

-- A sign doc that was prepared and never broadcast.
unfoldable pub prepared_signing_rejection : Reservation → Bool
prepared_signing_rejection current =
    not current.broadcast_in_flight
    && current.broadcast_attempt_count == 0
    && not (is_empty current.sign_doc_hash)
    && is_empty current.tx_bytes_hash
    && is_empty current.submitted_tx_hash

abbrev count_true : Bool → ℕ
count_true true = 1
count_true false = 0

unfoldable pub wallet_rejection_evidence : Reservation → Fields → Bool
unfolding durable_broadcast_rejection prepared_signing_rejection
wallet_rejection_evidence current metadata =
    (prepared_signing_rejection current || durable_broadcast_rejection current)
    && codes_eq (text_if_truthy (get metadata "provider_rejection_code")) (codes "4001")
    && is_false (get metadata "rpc_invoked")
    && is_true (get metadata "no_broadcast_attempt")

unfoldable pub abort_evidence : Reservation → Fields → Bool
unfolding durable_broadcast_rejection
abort_evidence current metadata =
    durable_broadcast_rejection current
    && is_false (get metadata "rpc_invoked")
    && is_true (get metadata "no_broadcast_attempt")

unfoldable pub check_tx_evidence : Reservation → Fields → Bool
unfolding durable_broadcast_rejection
check_tx_evidence current metadata =
    durable_broadcast_rejection current
    && is_true (get metadata "rpc_invoked")
    && is_false (get metadata "no_broadcast_attempt")
    && not (is_empty (trim (text_or_empty (get metadata "provider_rejection_code"))))

unfoldable pub assert_managed_broadcast_rejection_mutation :
    Platform → Reservation → Status → Patch → ℕ → Result Bool
unfolding is_managed_mutation is_relay_handed_off durable_broadcast_rejection
    prepared_signing_rejection wallet_rejection_evidence
assert_managed_broadcast_rejection_mutation p current to patch now =
    when_managed
      (is_managed_mutation broadcast_rejected proof_ready replan_required current to patch)
      do
        let metadata = patch_metadata patch
        let wallet_rejected = is_true (get metadata "wallet_rejected_before_broadcast")
        let aborted_before_rpc = is_true (get metadata "broadcast_aborted_before_rpc")
        let check_tx_rejected = is_true (get metadata "check_tx_rejected")
        reject (is_relay_handed_off current) "relay payload was handed off"
        assert (durable_broadcast_rejection current || prepared_signing_rejection current)
            "broadcast rejection resolution requires a prepared sign-doc or durable in-flight broadcast attempt"
        assert
            (count_true wallet_rejected
                + count_true aborted_before_rpc
                + count_true check_tx_rejected
              == 1)
            "broadcast rejection resolution requires exactly one definitive rejection kind"
        assert (is_true (get metadata "proof_discarded"))
            "broadcast rejection resolution requires proof-discard evidence"
        assert
            (if wallet_rejected
              then wallet_rejection_evidence current metadata
              else if aborted_before_rpc
              then abort_evidence current metadata
              else check_tx_evidence current metadata)
            (if wallet_rejected
              then "wallet rejection resolution requires definitive no-broadcast evidence"
              else if aborted_before_rpc
              then "pre-RPC broadcast abort requires a durable marker and definitive no-RPC evidence"
              else "CheckTx rejection resolution requires a durable marker and explicit provider rejection evidence")
        assert_current_lease_token p current (patch_lease_token patch.fields)
            (patch_lease_owner patch.fields) now

-- `patch.broadcast_attempt_count` repeats the count of the record.
unfoldable pub keeps_attempt_count : Reservation → Patch → Bool
unfolding number_is
keeps_attempt_count current patch =
    number_is (get patch.fields "broadcast_attempt_count") current.broadcast_attempt_count

unfoldable pub assert_managed_authoritative_broadcast_failure_mutation :
    Reservation → Status → Patch → Result Bool
unfolding keeps_attempt_count
assert_managed_authoritative_broadcast_failure_mutation current to patch =
    when_managed patch.authoritative_broadcast_failure do
      assert
          (one_of current.status (proof_ready ∷ submitted ∷ unknown ∷ [])
            && same_status to replan_required)
          "authoritative broadcast failure recovery requires ProofReady, Submitted, or Unknown -> ReplanRequired"
      shown ← has_exact_post_broadcast_failure_evidence current patch.fields
      assert shown
          "authoritative broadcast failure recovery requires exact failed transaction and nullifier-unspent evidence"
      assert
          (is_true (get (patch_metadata patch) "proof_discarded")
            && is_false (get patch.fields "broadcast_in_flight"))
          "authoritative broadcast failure recovery must discard the proof and clear its in-flight marker"
      assert (keeps_attempt_count current patch)
          "authoritative broadcast failure recovery cannot rewrite broadcast attempt count"
