-- ===== src/Reservation/Step/Shown.antt =====
-- src/privacy/reservation.js: the evidence that a transition has shown.
use clairveiljs.Prelude.{
  ℕ, true, false, not, ◌&&◌, ◌||◌, some, List, [], ◌∷◌, ok, ◌>>=◌, >>=-eq-ok, ◌≡◌, ◌≢◌, arith, ◌⊎◌,
  ltb, reject, any, Bool, Option, Result, refl, ok-eq,
}
use clairveiljs.Text.{codes_eq, trim}
use clairveiljs.Json.{Value, Fields, get, is_true, text_if_truthy, number_of, first_defined}
use clairveiljs.Reservation.Status.{
  proof_ready, submitted, unknown, replan_required, same_status, one_of,
}
use clairveiljs.Reservation.Record.{Reservation, broadcast_rejected}
use clairveiljs.Reservation.Platform.{Platform}
use clairveiljs.Reservation.Lease.{is_empty}
use clairveiljs.Reservation.Evidence.{
  assert_store_transition_evidence, assert_core_transition_evidence,
  assert_inactive_transition_evidence, has_exact_post_broadcast_failure_evidence,
  has_manual_review_approval_evidence, metadata_evidence_value, has_proof_discard_evidence,
  if_shown, consistent_metadata_alias_value, is_positive, patch_has_stored_broadcast_evidence,
  has_stored_broadcast_evidence,
}
use clairveiljs.Reservation.Evidence.Identity.{
  normalized_tx_identity, reservation_network_transaction_identities,
}
use clairveiljs.Reservation.Evidence.Failure.{
  ReplanEvidence, post_broadcast_replan_evidence, names_stored_transaction, positive_checked_height,
}
use clairveiljs.Reservation.Store.Operation.{Transition}
use clairveiljs.Reservation.Store.Update.{next_record}
use clairveiljs.Reservation.Step.Guards.{next_record-Passed}
use clairveiljs.Reservation.Step.Keeps.{next_record-status}
use clairveiljs.Reservation.Step.Classified.{classify-Classified, relay_evidence-to, rejection-to}
use clairveiljs.Reservation.Step.Legal.{evidence_guard}

-- The patch shows that a stored transaction of the record is absent or failed at a positive height, and
-- the note unspent.
pub record ShowsFailure (r : Reservation) (patch : Fields) : Type 0 where
  pub evidence : ReplanEvidence
  pub read : post_broadcast_replan_evidence patch ≡ ok evidence
  pub unspent : is_true evidence.nullifier_unspent_confirmed ≡ true
  pub absent : is_true evidence.tx_absent_or_failed_confirmed ≡ true
  pub height : positive_checked_height evidence.checked_height ≡ true
  pub stored : List (List ℕ)
  pub identities : reservation_network_transaction_identities r ≡ ok stored
  pub named :
      any (codes_eq (normalized_tx_identity (text_if_truthy evidence.tx_hash_checked))) stored
      ≡ true

pub has_exact_post_broadcast_failure_evidence-ShowsFailure :
    (r : Reservation) (patch : Fields)
    → has_exact_post_broadcast_failure_evidence r patch ≡ ok true
    → ShowsFailure r patch
unfolding has_exact_post_broadcast_failure_evidence names_stored_transaction
has_exact_post_broadcast_failure_evidence-ShowsFailure r patch h =
    let (e, read, h1) = >>=-eq-ok (post_broadcast_replan_evidence patch) _ h in
    let shown : (is_true e.nullifier_unspent_confirmed && is_true e.tx_absent_or_failed_confirmed)
        ≡ true =
      ground (arith, h1) in
    let height : positive_checked_height e.checked_height ≡ true = ground (arith, h1) in
    let k : (reservation_network_transaction_identities r >>= λ stored. ok (
          not (is_empty (normalized_tx_identity (text_if_truthy e.tx_hash_checked)))
          && any (codes_eq (normalized_tx_identity (text_if_truthy e.tx_hash_checked))) stored))
        ≡ ok true =
      ground (arith, h1) in
    let (stored, ids, named) = >>=-eq-ok (reservation_network_transaction_identities r) _ k in
    record {
      evidence = e;
      read = read;
      unspent = ground (arith, shown);
      absent = ground (arith, shown);
      height = height;
      stored = stored;
      identities = ids;
      named = ground (arith, named);
    }

-- A text that is not empty.
not_empty : (text : List ℕ) → not (is_empty text) ≡ true → text ≢ []
not_empty [] h = cc
not_empty (c ∷ cs) h = λ e. cc

empty_eq : (text : List ℕ) → is_empty text ≡ true → text ≡ []
empty_eq [] h = refl
empty_eq (c ∷ cs) h = cc

-- The patch names an operator, who approves, and the reference of the approval.
pub record ShowsApproval (patch : Fields) : Type 0 where
  pub approved :
      is_true (
        metadata_evidence_value patch (
          "operator_approved" ∷ "operatorApproved" ∷ "manual_review_approved"
          ∷ "manualReviewApproved" ∷ []))
      ≡ true
  pub operator :
      trim (
        text_if_truthy
          (metadata_evidence_value patch ("operator_id" ∷ "operatorId" ∷ "operatorID" ∷ [])))
      ≢ []
  pub reference :
      trim (
        text_if_truthy (
          metadata_evidence_value patch (
            "operator_approval_reference" ∷ "operatorApprovalReference" ∷ "manual_review_resolution"
            ∷ "manualReviewResolution" ∷ [])))
      ≢ []

pub has_manual_review_approval_evidence-ShowsApproval :
    (patch : Fields) → has_manual_review_approval_evidence patch ≡ true → ShowsApproval patch
unfolding has_manual_review_approval_evidence
has_manual_review_approval_evidence-ShowsApproval patch h = record {
  approved = ground (arith, h);
  operator = not_empty _ (ground (arith, h));
  reference = not_empty _ (ground (arith, h));
}

-- Neither the record nor the patch tells of a broadcast, and the patch says that none was tried and
-- that the proof is discarded.
pub record ShowsDiscard (current : Reservation) (patch : Fields) : Type 0 where
  pub idle : current.broadcast_in_flight ≡ false
  pub uncounted : current.broadcast_attempt_count ≡ 0
  pub unnamed : trim current.submitted_tx_hash ≡ []
  pub kept : is_true (get current.metadata "relay_handed_off") ≡ false
  pub kept_alias : is_true (get current.metadata "relayHandedOff") ≡ false
  pub attempt_value : Option Value
  pub attempt_read :
      consistent_metadata_alias_value patch
        ("no_broadcast_attempt" ∷ "noBroadcastAttempt" ∷ [])
        true
      ≡ ok attempt_value
  pub no_attempt : is_true attempt_value ≡ true
  pub discarded_value : Option Value
  pub discarded_read :
      consistent_metadata_alias_value patch ("proof_discarded" ∷ "proofDiscarded" ∷ []) true
      ≡ ok discarded_value
  pub discarded : is_true discarded_value ≡ true
  pub patch_uncounted : is_positive (number_of (get patch "broadcast_attempt_count")) ≡ false
  pub patch_idle :
      is_true (first_defined (get patch "broadcast_in_flight") (get patch "broadcastInFlight"))
      ≡ false

if_shown-true :
    (b : Bool) (m : Result (Option Value)) {v : Option Value}
    → if_shown b m ≡ ok v
    → is_true v ≡ true
    → (b ≡ true) × (m ≡ ok v)
unfolding is_true
if_shown-true true m h k = (refl, h)
if_shown-true false m h k = ground (arith, h, k)

no_broadcast :
    (current : Reservation)
    → not (has_stored_broadcast_evidence current) ≡ true
    → (trim current.submitted_tx_hash ≡ [])
      × (current.broadcast_attempt_count ≡ 0)
      × (current.broadcast_in_flight ≡ false)
      × (is_true (get current.metadata "relay_handed_off") ≡ false)
      × (is_true (get current.metadata "relayHandedOff") ≡ false)
unfolding has_stored_broadcast_evidence
no_broadcast current h = (
  empty_eq _ (ground (arith, h)),
  ground (arith, h),
  ground (arith, h),
  ground (arith, h),
  ground (arith, h),
)

no_patch_broadcast :
    (patch : Fields)
    → not (patch_has_stored_broadcast_evidence patch) ≡ true
    → (is_positive (number_of (get patch "broadcast_attempt_count")) ≡ false)
      × (is_true (first_defined (get patch "broadcast_in_flight") (get patch "broadcastInFlight"))
          ≡ false)
unfolding patch_has_stored_broadcast_evidence
no_patch_broadcast patch h = (ground (arith, h), ground (arith, h))

all_three : (a b c : Bool) → (a && b && c) ≡ true → (a ≡ true) × (b ≡ true) × (c ≡ true)
all_three a b c h = ground arith

pub has_proof_discard_evidence-ShowsDiscard :
    (current : Reservation) (patch : Fields)
    → has_proof_discard_evidence current patch ≡ ok true
    → ShowsDiscard current patch
unfolding has_proof_discard_evidence
has_proof_discard_evidence-ShowsDiscard current patch h =
    let (attempt, e0, h0) =
      >>=-eq-ok
        (consistent_metadata_alias_value patch ("no_broadcast_attempt" ∷ "noBroadcastAttempt" ∷ [])
          true)
        _ h in
    let (discarded, e1, h1) =
      >>=-eq-ok
        (if_shown (is_true attempt)
          (consistent_metadata_alias_value patch ("proof_discarded" ∷ "proofDiscarded" ∷ []) true))
        _ h0 in
    let all_shown = ok-eq h1 in
    let (shown, stored, in_patch) =
      all_three (is_true discarded) (not (has_stored_broadcast_evidence current)) _ all_shown in
    let (no_attempt, read) = if_shown-true (is_true attempt) _ e1 shown in
    let (unnamed, uncounted, idle, kept, kept_alias) = no_broadcast current stored in
    let (patch_uncounted, patch_idle) = no_patch_broadcast patch in_patch in
    record {
      idle = idle;
      uncounted = uncounted;
      unnamed = unnamed;
      kept = kept;
      kept_alias = kept_alias;
      attempt_value = attempt;
      attempt_read = e0;
      no_attempt = no_attempt;
      discarded_value = discarded;
      discarded_read = read;
      discarded = shown;
      patch_uncounted = patch_uncounted;
      patch_idle = patch_idle;
    }

-- The guards of the evidence by status, as the store runs them one after another.
pub record ShownEvidence (current : Reservation) (t : Transition) : Type 0 where
  pub durable :
      (same_status current.status proof_ready
        && one_of t.to (submitted ∷ unknown ∷ [])
        && (not current.broadcast_in_flight || ltb current.broadcast_attempt_count 1))
      ≡ false
  pub core : assert_core_transition_evidence current.status t.to t.patch ≡ ok tt
  pub inactive : assert_inactive_transition_evidence current t.to t.patch.fields ≡ ok tt

assert_store_transition_evidence-ShownEvidence :
    (current : Reservation) (t : Transition)
    → assert_store_transition_evidence current t.to t.patch ≡ ok tt
    → ShownEvidence current t
unfolding assert_store_transition_evidence
assert_store_transition_evidence-ShownEvidence current t h =
    let (u0, e0, h0) =
      >>=-eq-ok
        (reject
          (same_status current.status proof_ready
            && one_of t.to (submitted ∷ unknown ∷ [])
            && (not current.broadcast_in_flight || ltb current.broadcast_attempt_count 1))
          _)
        _ h in
    let (u1, e1, h1) =
      >>=-eq-ok (assert_core_transition_evidence current.status t.to t.patch) _ h0 in
    record { durable = ground (arith, e0); core = e1; inactive = h1 }

module _ (p : Platform) (now : ℕ) (current : Reservation) (t : Transition) {r : Reservation}
    (h : next_record p now current t ≡ ok r) where
  pub shown :
      t.patch.relay_transaction_evidence ≡ false ⊎ (r.status ≢ submitted)
      → (t.patch.evidence_mutation ≢ some broadcast_rejected)
        ⊎ (r.status ≢ replan_required)
        ⊎ (current.status ≢ proof_ready)
      → ShownEvidence current t
  shown n m =
      let passed = next_record-Passed p now current t h in
      let c = classify-Classified p current t.to t.patch now passed.managed passed.classified in
      let s = next_record-status p now current t h in
      assert_store_transition_evidence-ShownEvidence current t (
        evidence_guard p now current t passed
          (ground (arith, rejection-to p current t.to t.patch now passed.managed c, s))
          (ground (arith, relay_evidence-to p current t.to t.patch now passed.managed c, s)))
