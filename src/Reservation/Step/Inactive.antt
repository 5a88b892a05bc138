-- ===== src/Reservation/Step/Inactive.antt =====
-- src/privacy/reservation.js: what a transition has to show before a note counts as free again, and before
-- a broadcast counts as made.
use clairveiljs.Prelude.{ℕ, true, false, [], ◌∷◌, ok, ◌≡◌, ◌≤◌, arith, inl, inr}
use clairveiljs.Reservation.Status.{
  released, failed, manual_review, proof_ready, submitted, unknown, replan_required, one_of,
}
use clairveiljs.Reservation.Record.{Reservation}
use clairveiljs.Reservation.Platform.{Platform}
use clairveiljs.Reservation.Evidence.{
  assert_core_transition_evidence, assert_inactive_transition_evidence,
  has_broadcast_attempt_metadata, has_manual_review_approval_evidence,
  has_exact_post_broadcast_failure_evidence,
}
use clairveiljs.Reservation.Store.Operation.{Transition}
use clairveiljs.Reservation.Store.Update.{next_record}
use clairveiljs.Reservation.Step.Keeps.{next_record-status}
use clairveiljs.Reservation.Step.Shown.{
  ShownEvidence, shown, ShowsFailure, ShowsApproval,
  has_manual_review_approval_evidence-ShowsApproval,
  has_exact_post_broadcast_failure_evidence-ShowsFailure,
}

module _ (current : Reservation) (t : Transition) (s : ShownEvidence current t) where
  failure_shown :
      one_of current.status (submitted ∷ unknown ∷ []) ≡ true
      → one_of t.to (replan_required ∷ failed ∷ []) ≡ true
      → has_exact_post_broadcast_failure_evidence current t.patch.fields ≡ ok true
  unfolding assert_inactive_transition_evidence
  failure_shown f g = ground (arith, s.inactive)

  approval_shown :
      current.status ≡ manual_review
      → one_of t.to (released ∷ replan_required ∷ failed ∷ []) ≡ true
      → has_manual_review_approval_evidence t.patch.fields ≡ true
  unfolding assert_inactive_transition_evidence
  approval_shown f g = ground (arith, s.inactive)

-- From `Submitted` or `Unknown` a record goes to `ReplanRequired` or `Failed` only by a patch that shows
-- that one of its stored transactions is absent or failed, and its note unspent.
pub next_record-ShowsFailure :
    (p : Platform) (now : ℕ) (current : Reservation) (t : Transition) {r : Reservation}
    → next_record p now current t ≡ ok r
    → one_of current.status (submitted ∷ unknown ∷ []) ≡ true
    → one_of r.status (replan_required ∷ failed ∷ []) ≡ true
    → ShowsFailure current t.patch.fields
next_record-ShowsFailure p now current t h f g =
    let k = next_record-status p now current t h in
    has_exact_post_broadcast_failure_evidence-ShowsFailure current t.patch.fields (
      failure_shown current t
        (shown p now current t h (inr (ground arith)) (inr (inr (ground arith)))) f
        (ground (arith, k)))

-- From `ManualReview` a record goes to `Released`, `ReplanRequired` or `Failed` only by a patch that says
-- that it is approved, and names the operator and the reference of the approval.
pub next_record-approved :
    (p : Platform) (now : ℕ) (current : Reservation) (t : Transition) {r : Reservation}
    → next_record p now current t ≡ ok r
    → current.status ≡ manual_review
    → one_of r.status (released ∷ replan_required ∷ failed ∷ []) ≡ true
    → ShowsApproval t.patch.fields
next_record-approved p now current t h f g =
    let k = next_record-status p now current t h in
    has_manual_review_approval_evidence-ShowsApproval t.patch.fields (
      approval_shown current t
        (shown p now current t h (inr (ground arith)) (inr (inr (ground arith)))) f
        (ground (arith, k)))

-- From `ProofReady` a record goes to `Submitted` or `Unknown`, without managed relay evidence, only if its
-- broadcast attempt was made durable before, and by a patch that names the transaction.
pub next_record-attempted :
    (p : Platform) (now : ℕ) (current : Reservation) (t : Transition) {r : Reservation}
    → next_record p now current t ≡ ok r
    → current.status ≡ proof_ready
    → one_of r.status (submitted ∷ unknown ∷ []) ≡ true
    → t.patch.relay_transaction_evidence ≡ false
    → (current.broadcast_in_flight ≡ true)
      × (1 ≤ current.broadcast_attempt_count)
      × (has_broadcast_attempt_metadata t.patch.fields ≡ true)
unfolding assert_core_transition_evidence
next_record-attempted p now current t h f g n =
    let k = next_record-status p now current t h in
    let s = shown p now current t h (inl n) (inr (inl (ground arith))) in
    ground (arith, k, s.durable, s.core)
