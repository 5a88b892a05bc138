-- ===== src/Reservation/Step/Clears.antt =====
-- src/privacy/reservation.js: a worker's lease ends when a record leaves `Proving` and `ProofReady`.
use clairveiljs.Prelude.{
  ℕ, String, true, false, none, some, [], ◌∷◌, ok, ◌≡◌, refl, arith, ◌∙◌, str_eq,
}
use clairveiljs.Text.{codes}
use clairveiljs.Json.{
  str, bool, Fields, get, has, put, merge, text_if_truthy, or_else, truthy, text_of,
}
use clairveiljs.Json.Laws.{get-put, get-merge, get-merge_lacks, has-put}
use clairveiljs.Reservation.Status.{Status, status_text}
use clairveiljs.Reservation.Record.{Reservation, to_fields}
use clairveiljs.Reservation.Platform.{Platform}
use clairveiljs.Reservation.Lease.{clears_lease_for_status_transition}
use clairveiljs.Reservation.Normalize.{normalize_reservation, text_from}
use clairveiljs.Reservation.Normalize.Laws.{read-lease_token, read-lease_owner}
use clairveiljs.Reservation.Patching.Apply.{apply_patch, patch_with_cleared_lease}
use clairveiljs.Reservation.Store.Operation.{Transition}
use clairveiljs.Reservation.Store.Update.{next_record, prepared_patch}
use clairveiljs.Reservation.Step.Guards.{next_record-Passed}
use clairveiljs.Reservation.Step.Keeps.{next_record-status}
use clairveiljs.Reservation.Step.Prepared.{Agree-prepared}

module _ (p : Platform) (now : ℕ) (current : Reservation) (to : Status) (over : Fields) where
  input : Fields
  input =
      put "updated_at" (str (p.iso_date now))
        (put "status" (str (codes (status_text to))) (merge (to_fields current) over))

  get_over :
      (k : String)
      → str_eq "updated_at" k ≡ false
      → str_eq "status" k ≡ false
      → has over k ≡ true
      → get input k ≡ get over k
  unfolding input
  get_over k u s h = ground (
    arith,
    get-put "updated_at" k (str (p.iso_date now))
        (put "status" (str (codes (status_text to))) (merge (to_fields current) over)),
    get-put "status" k (str (codes (status_text to))) (merge (to_fields current) over),
    get-merge (to_fields current) over k,
  )

  get_under :
      (k : String)
      → str_eq "updated_at" k ≡ false
      → str_eq "status" k ≡ false
      → has over k ≡ false
      → get input k ≡ get (to_fields current) k
  unfolding input
  get_under k u s h = ground (
    arith,
    get-put "updated_at" k (str (p.iso_date now))
        (put "status" (str (codes (status_text to))) (merge (to_fields current) over)),
    get-put "status" k (str (codes (status_text to))) (merge (to_fields current) over),
    get-merge_lacks (to_fields current) over k h,
  )

  -- A text that the patch empties and whose second spelling nobody gives is empty.
  emptied :
      (k j : String)
      → get input k ≡ some (str [])
      → get input j ≡ none
      → text_from input (k ∷ j ∷ []) ≡ []
  unfolding text_from text_if_truthy or_else truthy text_of
  emptied k j e f = rw (e, f) refl

  module _ {r : Reservation} (h : apply_patch p current to over now ≡ ok r) where
    normalized : normalize_reservation (p.iso_date now) input ≡ ok r
    unfolding input apply_patch
    normalized = h

    pub lease_emptied :
        (has over "lease_token" ≡ true) × (get over "lease_token" ≡ some (str []))
        → (has over "lease_owner" ≡ true) × (get over "lease_owner" ≡ some (str []))
        → has over "leaseToken" ≡ false
        → has over "leaseOwner" ≡ false
        → (r.lease_token ≡ []) × (r.lease_owner ≡ [])
    unfolding to_fields get
    lease_emptied t o a b = (
      read-lease_token (p.iso_date now) input normalized
          ∙ emptied "lease_token" "leaseToken" (get_over "lease_token" refl refl t.0 ∙ t.1)
              (get_under "leaseToken" refl refl a),
      read-lease_owner (p.iso_date now) input normalized
          ∙ emptied "lease_owner" "leaseOwner" (get_over "lease_owner" refl refl o.0 ∙ o.1)
              (get_under "leaseOwner" refl refl b),
    )

cleared :
    (to : Status) (fs : Fields)
    → clears_lease_for_status_transition to ≡ true
    → ((has (patch_with_cleared_lease to fs) "lease_token" ≡ true)
        × (get (patch_with_cleared_lease to fs) "lease_token" ≡ some (str [])))
      × ((has (patch_with_cleared_lease to fs) "lease_owner" ≡ true)
          × (get (patch_with_cleared_lease to fs) "lease_owner" ≡ some (str [])))
unfolding patch_with_cleared_lease
cleared to fs h = rw h (
  (
    has-put "broadcast_in_flight" "lease_token" (bool false) _
        ∙ has-put "last_heartbeat_at" "lease_token" (str []) _
        ∙ has-put "lease_until" "lease_token" (str []) _
        ∙ has-put "lease_token" "lease_token" (str []) (put "lease_owner" (str []) fs),
    get-put "broadcast_in_flight" "lease_token" (bool false) _
        ∙ get-put "last_heartbeat_at" "lease_token" (str []) _
        ∙ get-put "lease_until" "lease_token" (str []) _
        ∙ get-put "lease_token" "lease_token" (str []) (put "lease_owner" (str []) fs),
  ),
  (
    has-put "broadcast_in_flight" "lease_owner" (bool false) _
        ∙ has-put "last_heartbeat_at" "lease_owner" (str []) _
        ∙ has-put "lease_until" "lease_owner" (str []) _
        ∙ has-put "lease_token" "lease_owner" (str []) _
        ∙ has-put "lease_owner" "lease_owner" (str []) fs,
    get-put "broadcast_in_flight" "lease_owner" (bool false) _
        ∙ get-put "last_heartbeat_at" "lease_owner" (str []) _
        ∙ get-put "lease_until" "lease_owner" (str []) _
        ∙ get-put "lease_token" "lease_owner" (str []) _
        ∙ get-put "lease_owner" "lease_owner" (str []) fs,
  ),
)

-- A record that a transition takes out of `Proving` and `ProofReady` has neither a lease token nor a lease
-- owner, if the patch does not use their second spellings.
pub next_record-clears_lease :
    (p : Platform) (now : ℕ) (current : Reservation) (t : Transition) {r : Reservation}
    → next_record p now current t ≡ ok r
    → clears_lease_for_status_transition r.status ≡ true
    → has t.patch.fields "leaseToken" ≡ false
    → has t.patch.fields "leaseOwner" ≡ false
    → (r.lease_token ≡ []) × (r.lease_owner ≡ [])
unfolding prepared_patch
next_record-clears_lease p now current t h c a b =
    let passed = next_record-Passed p now current t h in
    let k = cleared t.to _ (rw (← (next_record-status p now current t h).1) c) in
    lease_emptied p now current t.to (prepared_patch current t passed.managed) passed.applied k.0
      k.1 ((Agree-prepared current t passed.managed "leaseToken" refl).0 ∙ a)
      ((Agree-prepared current t passed.managed "leaseOwner" refl).0 ∙ b)
