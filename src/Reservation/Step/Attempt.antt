-- ===== src/Reservation/Step/Attempt.antt =====
-- src/privacy/reservation.js: a record that waits for its broadcast is counted as attempted once.
use clairveiljs.Prelude.{
  ℕ, Bool, true, false, ◌||◌, some, ok, >>=-eq-ok, ◌≡◌, arith, ltb, reject, assert, ◌+◌, String,
  List, all, str_eq, str_eq_iff, refl, Option, none, Result, ok-eq, sym, ap, ◌&&◌, if◌then◌else◌,
  ◌≢◌, ◌∙◌, Bool-cases, inl, inr,
}
use clairveiljs.Json.{
  put, merge, Value, null, bool, num, str, arr, obj, number_of, Fields, end, field, keys, has, get,
  is_true, is_false,
}
use clairveiljs.Text.{codes, is_decimal}
use clairveiljs.Text.Laws.{trim-is_decimal}
use clairveiljs.Reservation.Lease.{name_in}
use clairveiljs.Reservation.Normalize.{parse_safe_integer, normalized_boolean_alias}
use clairveiljs.Reservation.Normalize.Laws.{read-broadcast_in_flight}
use clairveiljs.Json.Laws.{get-put, has-put, get-merge, has-merge}
use clairveiljs.Reservation.Patching.Apply.{apply_patch}
use clairveiljs.Reservation.Step.Counts.{apply_patch-count}
use clairveiljs.Reservation.Step.Prepared.{Agree-prepared, Agree-in_place}
use clairveiljs.Reservation.Store.Update.{assert_patch}
use clairveiljs.Reservation.Patching.Guards.{
  Managed, assert_patch_keeps_reservation_identity, assert_reservation_transition_patch_fields,
  allowed_reservation_patch_fields,
}
use clairveiljs.Reservation.Status.{Status, status_text, proof_ready, submitted}
use clairveiljs.Reservation.Record.{
  to_fields, Reservation, EvidenceMutation, relay_handoff, broadcast_attempt, broadcast_rejected,
}
use clairveiljs.Reservation.Platform.{Platform}
use clairveiljs.Reservation.Managed.Broadcast.{
  is_managed_mutation, is_mutation, when_managed, is_relay_handed_off, number_is, patch_metadata,
  assert_managed_broadcast_attempt_mutation,
}
use clairveiljs.Reservation.Store.Operation.{Transition}
use clairveiljs.Reservation.Store.Update.{next_record}
use clairveiljs.Reservation.Step.Guards.{Passed, next_record-Passed}
use clairveiljs.Reservation.Step.Keeps.{next_record-status}
use clairveiljs.Reservation.Step.Classified.{
  classify-Classified, when_managed-body, relay_evidence-to,
}
use clairveiljs.Reservation.Step.Fence.{HoldsLease, assert_current_lease_token-HoldsLease}

-- What the store has checked before it marks a broadcast as begun, by the mark of the patch.
pub record BeginsBroadcast (p : Platform) (now : ℕ) (current : Reservation) (t : Transition)
    : Type 0 where
  pub kept_payload : is_relay_handed_off current ≡ false
  pub first : current.broadcast_attempt_count ≡ 0
  pub idle : current.broadcast_in_flight ≡ false
  pub marked : is_true (get t.patch.fields "broadcast_in_flight") ≡ true
  pub counted : number_is (get t.patch.fields "broadcast_attempt_count") 1 ≡ true
  pub withdrawn : is_false (get (patch_metadata t.patch) "no_broadcast_attempt") ≡ true
  pub lease : HoldsLease p current t.patch.fields now

attempt_guard :
    (p : Platform) (now : ℕ) (current : Reservation) (t : Transition) {b : Bool}
    → assert_managed_broadcast_attempt_mutation p current t.to t.patch now ≡ ok b
    → is_managed_mutation broadcast_attempt proof_ready proof_ready current t.to t.patch ≡ true
    → BeginsBroadcast p now current t
unfolding assert_managed_broadcast_attempt_mutation
attempt_guard p now current t h m =
    let (u0, e0, h0) =
      >>=-eq-ok (reject (is_relay_handed_off current) "relay payload was handed off") _
        (when_managed-body _ _ h m) in
    let (u1, e1, h1) =
      >>=-eq-ok (reject (current.broadcast_in_flight || ltb 0 current.broadcast_attempt_count) _) _
        h0 in
    let (u2, e2, h2) =
      >>=-eq-ok (assert (is_true (get t.patch.fields "broadcast_in_flight")) _) _ h1 in
    let (u3, e3, h3) =
      >>=-eq-ok
        (assert
          (number_is (get t.patch.fields "broadcast_attempt_count")
            (current.broadcast_attempt_count + 1))
          _)
        _ h2 in
    let (u4, e4, h4) =
      >>=-eq-ok (assert (is_false (get (patch_metadata t.patch) "no_broadcast_attempt")) _) _ h3 in
    let zero_count : current.broadcast_attempt_count ≡ 0 = ground (arith, e1) in
    let count : number_is (get t.patch.fields "broadcast_attempt_count")
          (current.broadcast_attempt_count + 1)
        ≡ true =
      ground (arith, e3) in
    record {
      kept_payload = ground (arith, e0);
      first = zero_count;
      idle = ground (arith, e1);
      marked = ground (arith, e2);
      counted = rw zero_count at count;
      withdrawn = ground (arith, e4);
      lease = assert_current_lease_token-HoldsLease p current t.patch.fields now h4;
    }

-- A field that no allowed name is, is not in the patch.
lacks :
    (allowed : List String) (patch : Fields) (k : String)
    → all (name_in allowed) (keys patch) ≡ true
    → name_in allowed k ≡ false
    → has patch k ≡ false
unfolding keys has
lacks allowed end k h n = refl
lacks allowed (field j v fs) k h n =
    ground (arith, str_eq_iff j k, lacks allowed fs k (ground (arith, h)) n)

-- In place, the number of attempts may only be written by the mark of an attempt.
left_out :
    (current : Reservation) (m : Managed)
    → current.status ≡ proof_ready
    → m.relay_evidence ≡ false
    → m.broadcast_attempt ≡ false
    → name_in (allowed_reservation_patch_fields current proof_ready m) "broadcast_attempt_count"
      ≡ false
unfolding allowed_reservation_patch_fields
left_out current m f e a = elim (Bool-cases m.operation_reconcile) [
  | inl reconciled ↦ rw (e, reconciled) refl
  | inr other ↦ elim (Bool-cases m.relay_handoff) [
    | inl handoff ↦ rw (e, other, handoff, a, f) refl
    | inr kept ↦ rw (e, other, kept, a, f) refl
  ]
]

count_kept :
    (current : Reservation) (patch : Fields) (m : Managed)
    → current.status ≡ proof_ready
    → m.relay_evidence ≡ false
    → m.broadcast_attempt ≡ false
    → assert_reservation_transition_patch_fields current proof_ready patch m ≡ ok tt
    → has patch "broadcast_attempt_count" ≡ false
unfolding assert_reservation_transition_patch_fields
count_kept current patch m f e a h =
    let allowed = allowed_reservation_patch_fields current proof_ready m in
    lacks allowed patch "broadcast_attempt_count" (ground (arith, h)) (left_out current m f e a)

when_managed-shown :
    (b : Bool) (m : Result (Unit {0})) {k : Bool} → when_managed b m ≡ ok k → k ≡ true → b ≡ true
when_managed-shown true m h e = refl
when_managed-shown false m h e = ground (arith, h, e)

mutation_eq :
    (m : Option EvidenceMutation) (b d : Bool)
    → (is_mutation m broadcast_attempt && b && d) ≡ true
    → m ≡ some broadcast_attempt
mutation_eq none b d h = cc
mutation_eq (some relay_handoff) b d h = cc
mutation_eq (some broadcast_attempt) b d h = refl
mutation_eq (some broadcast_rejected) b d h = cc

-- The number that is read is the one that is compared.
number_is-read :
    (v : Option Value) (k n : ℕ) → number_is v k ≡ true → parse_safe_integer v ≡ ok n → n ≡ k
unfolding number_is parse_safe_integer number_of
number_is-read none k n h e = cc
number_is-read (some null) k n h e = cc
number_is-read (some (bool b)) k n h e = cc
number_is-read (some (num m)) k n h e = ground (arith, h, e)
number_is-read (some (str s)) k n h e =
    let d : is_decimal s ≡ true = ground (arith, e) in ground (arith, h, e, d, trim-is_decimal s d)
number_is-read (some (arr xs)) k n h e = cc
number_is-read (some (obj fs)) k n h e = cc

is_true-has : (fs : Fields) (k : String) → is_true (get fs k) ≡ true → has fs k ≡ true
unfolding is_true get has
is_true-has end k e = cc
is_true-has (field j v fs) k e = elim (Bool-cases (str_eq j k)) [
  | inl same ↦ rw same refl
  | inr other ↦ rw other (is_true-has fs k (rw other at e))
]

canonical_flag :
    (input : Fields) (flag : Bool)
    → normalized_boolean_alias input "broadcast_in_flight" "broadcastInFlight" false ≡ ok flag
    → has input "broadcast_in_flight" ≡ true
    → flag ≡ is_true (get input "broadcast_in_flight")
unfolding normalized_boolean_alias
canonical_flag input flag h given = ground (arith, h, given)

-- A field of the patch is the one that the next record is read from.
in_flight_read :
    (p : Platform) (now : ℕ) (current : Reservation) (to : Status) (over : Fields) {r : Reservation}
    → apply_patch p current to over now ≡ ok r
    → is_true (get over "broadcast_in_flight") ≡ true
    → r.broadcast_in_flight ≡ true
unfolding apply_patch
in_flight_read p now current to over h marked =
    let given = has_marked over marked in
    let merged = merge (to_fields current) over in
    let input =
      put "updated_at" (str (p.iso_date now))
        (put "status" (str (codes (status_text to))) merged) in
    let read_has : has input "broadcast_in_flight" ≡ true = ground (
      arith,
      has-put "updated_at" "broadcast_in_flight" (str (p.iso_date now))
          (put "status" (str (codes (status_text to))) merged),
      has-put "status" "broadcast_in_flight" (str (codes (status_text to))) merged,
      has-merge (to_fields current) over "broadcast_in_flight",
      given,
    ) in
    let merged_get : get merged "broadcast_in_flight" ≡ get over "broadcast_in_flight" =
      ground (arith, get-merge (to_fields current) over "broadcast_in_flight", given) in
    let read_get : get input "broadcast_in_flight" ≡ get over "broadcast_in_flight" =
      get-put "updated_at" "broadcast_in_flight" (str (p.iso_date now)) _
      ∙ get-put "status" "broadcast_in_flight" (str (codes (status_text to))) merged
      ∙ merged_get in
    canonical_flag input _ (read-broadcast_in_flight (p.iso_date now) input h) read_has
    ∙ ap is_true read_get
    ∙ marked
  where
    has_marked :
        (fs : Fields)
        → is_true (get fs "broadcast_in_flight") ≡ true
        → has fs "broadcast_in_flight" ≡ true
    has_marked fs e = is_true-has fs "broadcast_in_flight" e

module _ (p : Platform) (now : ℕ) (current : Reservation) (t : Transition) {r : Reservation}
    (h : next_record p now current t ≡ ok r) where
  -- The number that the next record counts, by the patch.
  count_of :
      parse_safe_integer (
        if has t.patch.fields "broadcast_attempt_count"
        then get t.patch.fields "broadcast_attempt_count"
        else some (num current.broadcast_attempt_count))
      ≡ ok r.broadcast_attempt_count
  count_of =
      let passed = next_record-Passed p now current t h in
      let (has_eq, get_eq) =
        Agree-prepared current t passed.managed "broadcast_attempt_count" refl in
      let counted = apply_patch-count p now current t.to _ passed.applied in
      rw (has_eq, get_eq) at counted

  fields_guard :
      (passed : Passed p now current t r)
      → assert_reservation_transition_patch_fields current t.to t.patch.fields passed.managed
        ≡ ok tt
  unfolding assert_patch
  fields_guard passed =
      let (u0, e0, h0) =
        >>=-eq-ok (assert_patch_keeps_reservation_identity t.patch.fields) _ passed.patched in
      let (u1, e1, h1) =
        >>=-eq-ok
          (assert_reservation_transition_patch_fields current t.to t.patch.fields passed.managed) _
          h0 in
      e1

  in_place-attempt :
      (passed : Passed p now current t r)
      → current.status ≡ proof_ready
      → t.to ≡ proof_ready
      → r.broadcast_attempt_count ≢ current.broadcast_attempt_count
      → passed.managed.relay_evidence ≡ false
      → passed.managed.broadcast_attempt ≡ true
  unfolding parse_safe_integer
  in_place-attempt passed f to other unrelayed =
      elim (Bool-cases passed.managed.broadcast_attempt) [
        | inl attempt ↦ attempt
        | inr unmarked ↦
            let guard = fields_guard passed in
            let kept =
              count_kept current t.patch.fields passed.managed f unrelayed unmarked
                (rw to at guard) in
            let read = count_of in
            let same : parse_safe_integer (some (num current.broadcast_attempt_count))
                ≡ ok r.broadcast_attempt_count =
              rw kept at read in
            absurd (other (sym (ok-eq same)))
      ]

  counts_one :
      number_is (get t.patch.fields "broadcast_attempt_count") 1 ≡ true
      → r.broadcast_attempt_count ≢ current.broadcast_attempt_count
      → r.broadcast_attempt_count ≡ 1
  unfolding parse_safe_integer
  counts_one one other = elim (Bool-cases (has t.patch.fields "broadcast_attempt_count")) [
    | inl given ↦
        let read = count_of in
        number_is-read (get t.patch.fields "broadcast_attempt_count") 1 r.broadcast_attempt_count
          one (rw given at read)
    | inr kept ↦
        let read = count_of in
        let same : parse_safe_integer (some (num current.broadcast_attempt_count))
            ≡ ok r.broadcast_attempt_count =
          rw kept at read in
        absurd (other (sym (ok-eq same)))
  ]

  -- While a record stays `ProofReady`, its number of broadcast attempts changes only by the mark of an
  -- attempt, from 0 to 1, and only if it is not in flight, was not handed to a relayer and its lease is
  -- shown. It is in flight then, and the patch withdraws the evidence that no broadcast was tried.
  pub next_record-BeginsBroadcast :
      current.status ≡ proof_ready
      → r.status ≡ proof_ready
      → r.broadcast_attempt_count ≢ current.broadcast_attempt_count
      → (t.patch.evidence_mutation ≡ some broadcast_attempt)
        × (r.broadcast_attempt_count ≡ 1)
        × (r.broadcast_in_flight ≡ true)
        × BeginsBroadcast p now current t
  unfolding is_managed_mutation assert_managed_broadcast_attempt_mutation
  next_record-BeginsBroadcast f g other =
      let passed = next_record-Passed p now current t h in
      let c = classify-Classified p current t.to t.patch now passed.managed passed.classified in
      let k = next_record-status p now current t h in
      let to : t.to ≡ proof_ready = sym k.1 ∙ g in
      let unrelayed : passed.managed.relay_evidence ≡ false =
        not_relayed passed.managed.relay_evidence
          (relay_evidence-to p current t.to t.patch now passed.managed c) to in
      let marked = in_place-attempt passed f to other unrelayed in
      let managed =
        when_managed-shown
          (is_managed_mutation broadcast_attempt proof_ready proof_ready current t.to t.patch) _
          c.attempt marked in
      let begins = attempt_guard p now current t c.attempt managed in
      let agree = Agree-in_place current t passed.managed to in
      (
        attempt_marked managed,
        counts_one begins.counted other,
        in_flight_read p now current t.to _ passed.applied (ap is_true agree.1 ∙ begins.marked),
        begins,
      )
    where
      not_relayed :
          (b : Bool) {to : Status} {e : Type 0}
          → (b ≡ true → (to ≡ submitted) × e)
          → to ≡ proof_ready
          → b ≡ false
      not_relayed false h e = refl
      not_relayed true h e = absurd (distinct (sym (h refl).0 ∙ e))
        where
          distinct : submitted ≡ proof_ready → ⊥
          distinct e = cc

      attempt_marked :
          is_managed_mutation broadcast_attempt proof_ready proof_ready current t.to t.patch ≡ true
          → t.patch.evidence_mutation ≡ some broadcast_attempt
      attempt_marked h = mutation_eq t.patch.evidence_mutation _ _ h
