-- ===== src/Reservation/Store/Free.antt =====
-- src/privacy/reservation.js, `releaseReservationBatch`: only untouched records of the owner are released.
use clairveiljs.Prelude.{
  ℕ, false, not, List, [], ◌∷◌, ok, >>=-eq-ok, All, keep, find, map, assert, reject, ◌≡◌, arith,
  ◌∙◌, sym, ap, if◌then◌else◌,
}
use clairveiljs.Text.{codes, codes_eq, codes_eq_iff}
use clairveiljs.Json.{str, put}
use clairveiljs.Json.Laws.{get-put}
use clairveiljs.Reservation.Status.{
  Status, reserved, released, status_text, same_status, same_status_iff,
  is_active_reservation_status,
}
use clairveiljs.Reservation.Record.{Reservation, to_fields}
use clairveiljs.Reservation.Platform.{Platform}
use clairveiljs.Reservation.Lease.{is_empty}
use clairveiljs.Reservation.Normalize.{normalize_status}
use clairveiljs.Reservation.Normalize.Laws.{read-named, read-status}
use clairveiljs.Reservation.Evidence.Identity.{distinct_texts}
use clairveiljs.Reservation.Store.Conflict.{has_id}
use clairveiljs.Reservation.Store.Operation.{
  Found, assert_exact_operation_lifecycle_transition_sets,
}
use clairveiljs.Reservation.Store.Update.{replace_all, found_or_err}
use clairveiljs.Reservation.Store.Release.{
  release_reservation_batch, release_each, released_record, plain_patch, is_empty_list,
  release_names,
}
use clairveiljs.Reservation.Store.WellFormed.{IsWellFormed, locks_twice, locks_spent, All-map}
use clairveiljs.Reservation.Store.Replace.{is_updated, All-replace_all, distinct_replace_all}
use clairveiljs.Reservation.Store.Unique.{Apart, BetweenAll-replace_all}
use clairveiljs.Reservation.Step.Identity.{normalize_status-text}

-- A released record with the record it was.
pub record IsRelease (owner_key_id : List ℕ) (fr : Found × Reservation) : Type 0 where
  pub owned : fr.0.current.owner_key_id ≡ owner_key_id
  pub untouched : fr.0.current.status ≡ reserved
  pub freed : fr.1.status ≡ released
  pub named : codes_eq fr.1.reservation_id [] ≡ false

ok_inj : {s t : Status} → ok s ≡ ok t → s ≡ t
ok_inj e = ground (arith, e)

pub released_status :
    (p : Platform) (now : ℕ) (c : Reservation) {r : Reservation}
    → released_record p now c ≡ ok r
    → r.status ≡ released
unfolding released_record
released_status p now c {r} h =
    let start = put "status" (str (codes (status_text released))) (to_fields c) in
    let e =
      get-put "updated_at" "status" (str (p.iso_date now)) _
      ∙ get-put "last_heartbeat_at" "status" (str []) _
      ∙ get-put "lease_until" "status" (str []) _
      ∙ get-put "lease_token" "status" (str []) _
      ∙ get-put "lease_owner" "status" (str []) start
      ∙ get-put "status" "status" (str (codes (status_text released))) (to_fields c) in
    ok_inj (
      sym (sym (ap normalize_status e) ∙ read-status (p.iso_date now) _ h)
      ∙ normalize_status-text released)

released_named :
    (p : Platform) (now : ℕ) (c : Reservation) {r : Reservation}
    → released_record p now c ≡ ok r
    → codes_eq r.reservation_id [] ≡ false
unfolding released_record
released_named p now c h = read-named (p.iso_date now) _ h

release_each-IsRelease :
    (p : Platform) (now : ℕ) (owner : List ℕ) (stored : List Reservation) (ids : List (List ℕ))
    {pairs : List (Found × Reservation)}
    → release_each p now owner stored ids ≡ ok pairs
    → All (IsRelease owner) pairs
unfolding release_each
release_each-IsRelease p now owner stored [] {pairs} h =
    let e : pairs ≡ [] = ground (arith, h) in rw e tt
release_each-IsRelease p now owner stored (id ∷ ids) {pairs} h =
    let (f, e0, h0) =
      >>=-eq-ok
        (found_or_err (find (has_id id) stored)
          (record { reservation_id = id; from = reserved; to = released; patch = plain_patch }))
        _ h in
    let (u1, e1, h1) = >>=-eq-ok (assert (codes_eq f.current.owner_key_id owner) _) _ h0 in
    let (u2, e2, h2) = >>=-eq-ok (assert (same_status f.current.status reserved) _) _ h1 in
    let (r, e3, h3) = >>=-eq-ok (released_record p now f.current) _ h2 in
    let (rest, e4, h4) = >>=-eq-ok (release_each p now owner stored ids) _ h3 in
    let e : pairs ≡ (f, r) ∷ rest = ground (arith, h4) in
    rw e (
      record {
        owned = ground (arith, e1, codes_eq_iff f.current.owner_key_id owner);
        untouched = ground (arith, e2, same_status_iff f.current.status reserved);
        freed = released_status p now f.current e3;
        named = released_named p now f.current e3;
      },
      release_each-IsRelease p now owner stored ids e4,
    )

All-of_map {ℓ κ μ} :
    {A : Type ℓ} {B : Type κ} (Q : B → Type μ) (f : A → B) (xs : List A)
    → All (λ a. Q (f a)) xs
    → All Q (map f xs)
All-of_map Q f [] h = tt
All-of_map Q f (x ∷ xs) h = (h.0, All-of_map Q f xs h.1)

every : (Q : Reservation → Type 0) → ((b : Reservation) → Q b) → (rs : List Reservation) → All Q rs
every Q f [] = tt
every Q f (b ∷ rs) = (f b, every Q f rs)

-- Released records lock nothing, so that they stand apart from all.
write_released :
    (updated stored : List Reservation)
    → IsWellFormed stored
    → All (λ u. (u.status ≡ released) × (codes_eq u.reservation_id [] ≡ false)) updated
    → IsWellFormed (replace_all updated stored)
unfolding is_active_reservation_status
write_released updated stored w h = record {
  unique = record {
    distinct = distinct_replace_all updated stored w.unique.distinct;
    locked_once =
        BetweenAll-replace_all locks_twice updated stored w.unique.distinct w.unique.locked_once
          (All-map
            (λ u k.
              every (λ b. Apart locks_twice u b) (λ b d. ground (arith, k))
                (replace_all updated stored))
            updated h)
          (All-map
            (λ u k.
              every (λ s. is_updated updated s ≡ false → Apart locks_twice s u)
                (λ s e d. ground (arith, k)) stored)
            updated h);
  };
  unspent =
      BetweenAll-replace_all locks_spent updated stored w.unique.distinct w.unspent
        (All-map
          (λ u k.
            every (λ b. Apart locks_spent u b) (λ b d. ground (arith, k))
              (replace_all updated stored))
          updated h)
        (All-map
          (λ u k.
            every (λ s. is_updated updated s ≡ false → Apart locks_spent s u)
              (λ s e d. ground (arith, k)) stored)
          updated h);
  named =
      All-replace_all (λ r. codes_eq r.reservation_id [] ≡ false) updated stored w.unique.distinct
        (All-map (λ s e f. e) stored w.named) (All-map (λ u k. k.1) updated h);
}

release_names-IsWellFormed :
    (p : Platform) (now : ℕ) (stored : List Reservation) (owner : List ℕ) (ids : List (List ℕ))
    {next updated : List Reservation}
    → IsWellFormed stored
    → release_names p now stored owner ids ≡ ok (next, updated)
    → IsWellFormed next × All (λ u. u.status ≡ released) updated
unfolding release_names
release_names-IsWellFormed p now stored owner ids {next} {updated} w h =
    let (u0, e0, h0) = >>=-eq-ok (reject (is_empty owner) _) _ h in
    let (pairs, e1, h1) = >>=-eq-ok (release_each p now owner stored ids) _ h0 in
    let us = map (λ (fr : Found × Reservation). fr.1) pairs in
    let (u2, e2, h2) =
      >>=-eq-ok (assert_exact_operation_lifecycle_transition_sets stored (map (λ fr. fr.0) pairs)) _
        h1 in
    let e : replace_all us stored ≡ next = ground (arith, h2) in
    let same : us ≡ updated = ground (arith, h2) in
    let freed =
      All-of_map (λ u. (u.status ≡ released) × (codes_eq u.reservation_id [] ≡ false))
        (λ (fr : Found × Reservation). fr.1) pairs
        (All-map (λ fr k. (IsRelease.freed k, IsRelease.named k)) pairs
          (release_each-IsRelease p now owner stored ids e1)) in
    (rw (← e) (write_released us stored w freed), rw (← same) (All-map (λ u k. k.0) us freed))

-- A release that the store accepts leaves it well-formed, and its records are `Released`.
pub release_reservation_batch-IsWellFormed :
    (p : Platform) (now : ℕ) (stored : List Reservation) (ids : List (List ℕ)) (owner : List ℕ)
    {next updated : List Reservation}
    → IsWellFormed stored
    → release_reservation_batch p now stored ids owner ≡ ok (next, updated)
    → IsWellFormed next × All (λ u. u.status ≡ released) updated
unfolding release_reservation_batch
release_reservation_batch-IsWellFormed p now stored ids owner {next} {updated} w h =
    go (distinct_texts (keep (λ id. not (is_empty id)) ids)) h
  where
    go :
        (names : List (List ℕ))
        → (if is_empty_list names then ok (stored, []) else release_names p now stored owner names)
          ≡ ok (next, updated)
        → IsWellFormed next × All (λ u. u.status ≡ released) updated
    go [] k =
        let e : stored ≡ next = ground (arith, k) in
        let same : [] ≡ updated = ground (arith, k) in (rw (← e) w, rw (← same) tt)
    go (n ∷ names) k = release_names-IsWellFormed p now stored owner (n ∷ names) w k
