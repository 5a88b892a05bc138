-- ===== src/Reservation/Step/Counts.antt =====
-- src/privacy/reservation.js: the number of broadcast attempts of a record only grows.
use clairveiljs.Prelude.{
  ℕ, String, true, not, ◌&&◌, Option, none, some, [], ◌∷◌, ok, >>=-eq-ok, ◌≡◌, ◌≤◌, refl, arith,
  ◌∙◌, if◌then◌else◌, Bool-cases, inl, inr,
}
use clairveiljs.Text.{codes, is_decimal}
use clairveiljs.Text.Laws.{trim-is_decimal}
use clairveiljs.Json.{
  Value, null, bool, num, str, arr, obj, Fields, get, has, put, merge, number_of, first_defined,
  is_defined,
}
use clairveiljs.Json.Laws.{get-put, has-put, get-merge, has-merge}
use clairveiljs.Reservation.Status.{Status, status_text}
use clairveiljs.Reservation.Record.{Reservation, to_fields}
use clairveiljs.Reservation.Platform.{Platform}
use clairveiljs.Reservation.Normalize.{
  normalized_non_negative_safe_integer_alias, parse_safe_integer,
}
use clairveiljs.Reservation.Normalize.Laws.{read-broadcast_attempt_count}
use clairveiljs.Reservation.Patching.Guards.{
  assert_attempt_count_monotonic, assert_patch_keeps_reservation_identity,
  assert_reservation_transition_patch_fields, assert_operation_success_predicate_immutable,
  assert_reservation_evidence_patch_monotonic, assert_write_once, submitted_tx_hash_aliases,
}
use clairveiljs.Reservation.Evidence.{assert_store_transition_evidence, normalized_tx_identity}
use clairveiljs.Reservation.Store.Operation.{Transition}
use clairveiljs.Reservation.Store.Update.{next_record, assert_patch, prepared_patch, when}
use clairveiljs.Reservation.Step.Guards.{Passed, next_record-Passed}
use clairveiljs.Reservation.Step.Prepared.{Agree-prepared}
use clairveiljs.Reservation.Patching.Apply.{apply_patch}

parse_safe_integer-number_of :
    (v w : Option Value) (n : ℕ)
    → parse_safe_integer v ≡ ok n
    → number_of (first_defined v w) ≡ some n
unfolding parse_safe_integer number_of first_defined is_defined
parse_safe_integer-number_of none w n h = cc
parse_safe_integer-number_of (some null) w n h = cc
parse_safe_integer-number_of (some (bool b)) w n h = cc
parse_safe_integer-number_of (some (num m)) w n h = ground (arith, h)
parse_safe_integer-number_of (some (str s)) w n h =
    let d : is_decimal s ≡ true = ground (arith, h) in
    rw (trim-is_decimal s d, d) (ground (arith, h))
parse_safe_integer-number_of (some (arr xs)) w n h = cc
parse_safe_integer-number_of (some (obj fs)) w n h = cc

canonical-alias :
    (input : Fields) (c a : String) (n : ℕ)
    → has input c ≡ true
    → normalized_non_negative_safe_integer_alias input c a 0 ≡ ok n
    → parse_safe_integer (get input c) ≡ ok n
unfolding normalized_non_negative_safe_integer_alias
canonical-alias input c a n e h = ground (arith, e, h)

-- The fields that a patched record is read from.
module _ (p : Platform) (now : ℕ) (current : Reservation) (to : Status) (over : Fields) where
  input : Fields
  input =
      put "updated_at" (str (p.iso_date now))
        (put "status" (str (codes (status_text to))) (merge (to_fields current) over))

  has_count : has input "broadcast_attempt_count" ≡ true
  unfolding input to_fields has
  has_count = ground (
    arith,
    has-put "updated_at" "broadcast_attempt_count" (str (p.iso_date now))
        (put "status" (str (codes (status_text to))) (merge (to_fields current) over)),
    has-put "status" "broadcast_attempt_count" (str (codes (status_text to)))
        (merge (to_fields current) over),
    has-merge (to_fields current) over "broadcast_attempt_count",
  )

  get_count : get input "broadcast_attempt_count" ≡ (
      if has over "broadcast_attempt_count"
      then get over "broadcast_attempt_count"
      else some (num current.broadcast_attempt_count))
  unfolding input to_fields get
  get_count =
      get-put "updated_at" "broadcast_attempt_count" (str (p.iso_date now)) _
      ∙ get-put "status" "broadcast_attempt_count" (str (codes (status_text to))) _
      ∙ get-merge (to_fields current) over "broadcast_attempt_count"

  pub apply_patch-count :
      {r : Reservation}
      → apply_patch p current to over now ≡ ok r
      → parse_safe_integer (
          if has over "broadcast_attempt_count"
          then get over "broadcast_attempt_count"
          else some (num current.broadcast_attempt_count))
        ≡ ok r.broadcast_attempt_count
  unfolding input apply_patch
  apply_patch-count {r} h = rw (← get_count) (
      canonical-alias input "broadcast_attempt_count" "broadcastAttemptCount"
        r.broadcast_attempt_count has_count (read-broadcast_attempt_count (p.iso_date now) input h))

count_guard :
    (p : Platform) (now : ℕ) (current : Reservation) (t : Transition) {r : Reservation}
    → (passed : Passed p now current t r)
    → assert_attempt_count_monotonic current t.patch.fields ≡ ok tt
unfolding assert_patch assert_reservation_evidence_patch_monotonic
count_guard p now current t passed =
    let m = passed.managed in
    let (u0, e0, h0) =
      >>=-eq-ok (assert_patch_keeps_reservation_identity t.patch.fields) _ passed.patched in
    let (u1, e1, h1) =
      >>=-eq-ok (assert_reservation_transition_patch_fields current t.to t.patch.fields m) _ h0 in
    let (u2, e2, h2) =
      >>=-eq-ok
        (when (not m.broadcast_rejection && not m.relay_evidence)
          (assert_store_transition_evidence current t.to t.patch))
        _ h1 in
    let (u3, e3, h3) =
      >>=-eq-ok (assert_operation_success_predicate_immutable current t.to t.patch.fields) _ h2 in
    let (u4, e4, h4) =
      >>=-eq-ok
        (assert_reservation_evidence_patch_monotonic current t.patch.fields m.operation_reconcile) _
        h3 in
    let (u5, e5, h5) =
      >>=-eq-ok
        (assert_write_once (λ t. t) current.payload_hash t.patch.fields
          ("payload_hash" ∷ "payloadHash" ∷ []))
        _ e4 in
    let (u6, e6, h6) =
      >>=-eq-ok
        (assert_write_once normalized_tx_identity current.submitted_tx_hash t.patch.fields
          submitted_tx_hash_aliases)
        _ h5 in
    let (u7, e7, h7) =
      >>=-eq-ok
        (assert_write_once normalized_tx_identity current.tx_bytes_hash t.patch.fields
          ("tx_bytes_hash" ∷ "txBytesHash" ∷ []))
        _ h6 in
    let (u8, e8, h8) =
      >>=-eq-ok
        (assert_write_once normalized_tx_identity current.sign_doc_hash t.patch.fields
          ("sign_doc_hash" ∷ "signDocHash" ∷ []))
        _ h7 in
    let (u9, e9, h9) = >>=-eq-ok (assert_attempt_count_monotonic current t.patch.fields) _ h8 in e9

grown :
    (current : Reservation) (patch : Fields) (n : ℕ)
    → assert_attempt_count_monotonic current patch ≡ ok tt
    → parse_safe_integer (
        if has patch "broadcast_attempt_count"
        then get patch "broadcast_attempt_count"
        else some (num current.broadcast_attempt_count))
      ≡ ok n
    → current.broadcast_attempt_count ≤ n
unfolding assert_attempt_count_monotonic parse_safe_integer
grown current patch n a h = elim (Bool-cases (has patch "broadcast_attempt_count")) [
  | inl given ↦
      let k : parse_safe_integer (get patch "broadcast_attempt_count") ≡ ok n = rw given at h in
      ground (
        arith,
        a,
        given,
        parse_safe_integer-number_of (get patch "broadcast_attempt_count")
            (get patch "broadcastAttemptCount") n k,
      )
  | inr kept ↦
      let k : parse_safe_integer (some (num current.broadcast_attempt_count)) ≡ ok n =
        rw kept at h in
      ground (arith, k)
]

-- The number of broadcast attempts of a record never decreases by a transition.
pub next_record-attempts_grow :
    (p : Platform) (now : ℕ) (current : Reservation) (t : Transition) {r : Reservation}
    → next_record p now current t ≡ ok r
    → current.broadcast_attempt_count ≤ r.broadcast_attempt_count
next_record-attempts_grow p now current t {r} h =
    let passed = next_record-Passed p now current t h in
    let agree = Agree-prepared current t passed.managed "broadcast_attempt_count" refl in
    let c =
      apply_patch-count p now current t.to (prepared_patch current t passed.managed)
        passed.applied in
    grown current t.patch.fields r.broadcast_attempt_count (count_guard p now current t passed)
      (rw (agree.0, agree.1) at c)
