-- ===== src/Reservation/Store/Freed.antt =====
-- src/privacy/reservation.js, `releaseReservationBatch`: what a release does to each stored record.
use clairveiljs.Prelude.{
  ℕ, String, Bool, true, false, ◌||◌, none, some, List, [], ◌∷◌, ok, >>=-eq-ok, ok-eq, All, find,
  map, any, assert, reject, ◌≡◌, ◌⊎◌, inl, inr, refl, arith, ◌∙◌, sym, ap, subst, str_eq, Option,
  Bool-cases,
}
use clairveiljs.Text.{codes, codes_eq, codes_eq_iff}
use clairveiljs.Json.{Fields, str, get, put, text_if_truthy, text_of, truthy, or_else}
use clairveiljs.Json.Laws.{get-put}
use clairveiljs.Reservation.Status.{reserved, released, status_text, same_status, same_status_iff}
use clairveiljs.Reservation.Record.{Reservation, to_fields}
use clairveiljs.Reservation.Platform.{Platform}
use clairveiljs.Reservation.Lease.{is_empty}
use clairveiljs.Reservation.Normalize.{text_from}
use clairveiljs.Reservation.Normalize.Laws.{
  read-reservation_id, read-operation_id, read-owner_key_id, read-nullifier_lookup_key,
}
use clairveiljs.Reservation.Store.Conflict.{has_id}
use clairveiljs.Reservation.Store.Operation.{
  Transition, Found, assert_exact_operation_lifecycle_transition_sets,
}
use clairveiljs.Reservation.Store.Update.{replace, replace_all, found_or_err}
use clairveiljs.Reservation.Store.Release.{
  release_each, released_record, plain_patch, release_names,
}
use clairveiljs.Reservation.Store.WellFormed.{IsWellFormed, HasFreshId, HasDistinctIds}
use clairveiljs.Reservation.Store.Free.{released_status}
use clairveiljs.Reservation.Step.Identity.{text_from-agree, text_of_first}
use clairveiljs.Reservation.Step.Keeps.{KeepsIdentity}

-- A record that was `Reserved` by the owner, and is `Released` then with the same identity.
pub record Frees (owner_key_id : List ℕ) (before after : Reservation) : Type 0 where
  pub owned : before.owner_key_id ≡ owner_key_id
  pub untouched : before.status ≡ reserved
  pub freed : after.status ≡ released
  pub kept : KeepsIdentity before after

-- The keys that a release writes.
abbrev released_keys : List String
released_keys =
    "updated_at" ∷ "last_heartbeat_at" ∷ "lease_until" ∷ "lease_token" ∷ "lease_owner" ∷ "status"
    ∷ []

module _ (p : Platform) (now : ℕ) (c : Reservation) where
  released_input : Fields
  released_input = put "updated_at" (str (p.iso_date now)) (
      put "last_heartbeat_at" (str []) (
        put "lease_until" (str []) (
          put "lease_token" (str []) (
            put "lease_owner" (str [])
              (put "status" (str (codes (status_text released))) (to_fields c))))))

  get-released_input :
      (j : String)
      → any (λ k. str_eq k j) released_keys ≡ false
      → get released_input j ≡ get (to_fields c) j
  unfolding released_input
  get-released_input j h =
      let s5 = put "status" (str (codes (status_text released))) (to_fields c) in
      let s4 = put "lease_owner" (str []) s5 in
      let s3 = put "lease_token" (str []) s4 in
      let s2 = put "lease_until" (str []) s3 in
      let s1 = put "last_heartbeat_at" (str []) s2 in
      ground (
        arith,
        h,
        get-put "updated_at" j (str (p.iso_date now)) s1,
        get-put "last_heartbeat_at" j (str []) s2,
        get-put "lease_until" j (str []) s3,
        get-put "lease_token" j (str []) s4,
        get-put "lease_owner" j (str []) s5,
        get-put "status" j (str (codes (status_text released))) (to_fields c),
      )

  text_kept :
      (ks : List String)
      → All (λ k. any (λ x. str_eq x k) released_keys ≡ false) ks
      → text_from released_input ks ≡ text_from (to_fields c) ks
  text_kept ks h = text_from-agree released_input (to_fields c) ks (each ks h)
    where
      each :
          (ks : List String)
          → All (λ k. any (λ x. str_eq x k) released_keys ≡ false) ks
          → All (λ k. get released_input k ≡ get (to_fields c) k) ks
      each [] h = tt
      each (k ∷ ks) h = (get-released_input k h.0, each ks h.1)

  released_record-KeepsIdentity :
      {r : Reservation} → released_record p now c ≡ ok r → KeepsIdentity c r
  unfolding released_record released_input to_fields get text_from text_if_truthy text_of truthy
      or_else
  released_record-KeepsIdentity h = record {
    reservation_id =
        read-reservation_id (p.iso_date now) released_input h
        ∙ text_kept ("reservation_id" ∷ "reservationID" ∷ "reservationId" ∷ [])
            (refl, (refl, (refl, tt)))
        ∙ text_of_first c.reservation_id _ refl;
    owner_key_id =
        read-owner_key_id (p.iso_date now) released_input h
        ∙ text_kept ("owner_key_id" ∷ "ownerKeyID" ∷ "ownerKeyId" ∷ []) (refl, (refl, (refl, tt)))
        ∙ text_of_first c.owner_key_id _ refl;
    nullifier_lookup_key =
        read-nullifier_lookup_key (p.iso_date now) released_input h
        ∙ text_kept ("nullifier_lookup_key" ∷ "nullifierLookupKey" ∷ []) (refl, (refl, tt))
        ∙ text_of_first c.nullifier_lookup_key _ refl;
    operation_id =
        read-operation_id (p.iso_date now) released_input h
        ∙ text_kept ("operation_id" ∷ "operationID" ∷ "operationId" ∷ []) (refl, (refl, (refl, tt)))
        ∙ text_of_first c.operation_id _ refl;
  }

-- A record and what became of it, when a test says which are freed.
abbrev pub Becomes : List ℕ → Bool → Reservation → Reservation → Type 0
Becomes owner freed before after =
    ((freed ≡ true) × Frees owner before after) ⊎ ((freed ≡ false) × (after ≡ before))

-- Two states of the store, record by record.
abbrev pub BecomesEach :
    List ℕ → (Reservation → Bool) → List Reservation → List Reservation → Type 0
BecomesEach owner freed [] [] = Unit {0}
BecomesEach owner freed [] (after ∷ next) = ⊥
BecomesEach owner freed (before ∷ stored) [] = ⊥
BecomesEach owner freed (before ∷ stored) (after ∷ next) =
    Becomes owner (freed before) before after × BecomesEach owner freed stored next

BecomesEach-refl :
    (owner : List ℕ) (stored : List Reservation) → BecomesEach owner (λ s. false) stored stored
BecomesEach-refl owner [] = tt
BecomesEach-refl owner (s ∷ stored) = (inr (refl, refl), BecomesEach-refl owner stored)

-- Tests that agree on the records say the same.
BecomesEach-agree :
    (owner : List ℕ) (p q : Reservation → Bool) (stored next : List Reservation)
    → All (λ s. p s ≡ q s) stored
    → BecomesEach owner p stored next
    → BecomesEach owner q stored next
BecomesEach-agree owner p q [] [] h k = tt
BecomesEach-agree owner p q [] (n ∷ next) h k = absurd k
BecomesEach-agree owner p q (s ∷ stored) [] h k = absurd k
BecomesEach-agree owner p q (s ∷ stored) (n ∷ next) h k = (
  subst (λ (b : Bool). Becomes owner b s n) h.0 k.0,
  BecomesEach-agree owner p q stored next h.1 k.1,
)

same_id :
    (owner : List ℕ) (freed : Bool) (s n : Reservation)
    → Becomes owner freed s n
    → n.reservation_id ≡ s.reservation_id
same_id owner freed s n (inl (_, frees)) = frees.kept.reservation_id
same_id owner freed s n (inr (_, same)) = ap (λ (r : Reservation). r.reservation_id) same

every : (Q : Reservation → Type 0) → ((s : Reservation) → Q s) → (rs : List Reservation) → All Q rs
every Q f [] = tt
every Q f (s ∷ rs) = (f s, every Q f rs)

-- Behind a record with the identity, no record has it.
fresh_unfreed :
    (q : Reservation → Bool) (id : List ℕ) (stored : List Reservation)
    → HasFreshId id stored
    → All (λ s. q s ≡ (q s || has_id id s)) stored
fresh_unfreed q id [] h = tt
fresh_unfreed q id (s ∷ stored) h = (ground (arith, h.0), fresh_unfreed q id stored h.1)

found_here :
    (id : List ℕ) {s c : Reservation} (stored : List Reservation)
    → has_id id s ≡ true
    → find (has_id id) (s ∷ stored) ≡ some c
    → s ≡ c
found_here id stored here f = some_eq (rw here at f)
  where
    some_eq : {a b : Reservation} → some a ≡ some b → a ≡ b
    some_eq e = cc

pub find_id :
    (id : List ℕ) {c : Reservation} (stored : List Reservation)
    → find (has_id id) stored ≡ some c
    → c.reservation_id ≡ id
find_id id [] f = absurd (cc)
find_id id (s ∷ stored) f = elim (Bool-cases (has_id id s)) [
  | inl here ↦
      ap (λ (r : Reservation). r.reservation_id) (sym (found_here id stored here f))
      ∙ (codes_eq_iff s.reservation_id id).0 here
  | inr there ↦ find_id id stored (rw there at f)
]

other_id : (n s r id : List ℕ) → n ≡ s → r ≡ id → codes_eq s id ≡ false → codes_eq n r ≡ false
other_id n s r id e g h = rw (e, g) h

-- The write of one released record.
replace-Becomes :
    (owner : List ℕ) (q : Reservation → Bool) (id : List ℕ) (c r : Reservation)
    (stored next : List Reservation)
    → HasDistinctIds stored
    → find (has_id id) stored ≡ some c
    → Frees owner c r
    → BecomesEach owner q stored next
    → BecomesEach owner (λ s. q s || has_id id s) stored (replace r next)
unfolding replace
replace-Becomes owner q id c r [] [] d f frees k = tt
replace-Becomes owner q id c r [] (n ∷ next) d f frees k = absurd k
replace-Becomes owner q id c r (s ∷ stored) [] d f frees k = absurd k
replace-Becomes owner q id c r (s ∷ stored) (n ∷ next) d f frees k =
    elim (Bool-cases (has_id id s)) [
      | inl here ↦
          let same : s ≡ c = found_here id stored here f in
          let s_id = (codes_eq_iff s.reservation_id id).0 here in
          let written : has_id r.reservation_id n ≡ true =
            (codes_eq_iff n.reservation_id r.reservation_id).1 (
              same_id owner (q s) s n k.0
              ∙ ap (λ (x : Reservation). x.reservation_id) same
              ∙ sym frees.kept.reservation_id) in
          rw written (
            inl (
              ground (arith, here),
              subst (λ (x : Reservation). Frees owner x r) (sym same) frees,
            ),
            BecomesEach-agree owner q (λ x. q x || has_id id x) stored next
                (fresh_unfreed q id stored (subst (λ (i : List ℕ). HasFreshId i stored) s_id d.0))
                k.1,
          )
      | inr there ↦
          let behind : find (has_id id) stored ≡ some c = rw there at f in
          let c_id = find_id id stored behind in
          let unwritten : has_id r.reservation_id n ≡ false =
            other_id n.reservation_id s.reservation_id r.reservation_id id
              (same_id owner (q s) s n k.0) (frees.kept.reservation_id ∙ c_id) there in
          rw unwritten (
            subst (λ (b : Bool). Becomes owner b s n) (ground (arith, there)) k.0,
            replace-Becomes owner q id c r stored next d.1 behind frees k.1,
          )
    ]

-- The writes of all released records, one after another.
release_each-Becomes :
    (p : Platform) (now : ℕ) (owner : List ℕ) (stored : List Reservation) (ids : List (List ℕ))
    (q : Reservation → Bool) (next : List Reservation) {pairs : List (Found × Reservation)}
    → HasDistinctIds stored
    → release_each p now owner stored ids ≡ ok pairs
    → BecomesEach owner q stored next
    → BecomesEach owner
        (λ s. q s || any (λ id. has_id id s) ids)
        stored
        (replace_all (map (λ fr. fr.1) pairs) next)
unfolding release_each replace_all
release_each-Becomes p now owner stored [] q next {pairs} d h k =
    subst
      (λ (fs : List (Found × Reservation)).
        BecomesEach owner (λ s. q s || false) stored (replace_all (map (λ fr. fr.1) fs) next))
      (ok-eq h)
      (BecomesEach-agree owner q (λ s. q s || false) stored next
        (every (λ s. q s ≡ (q s || false)) (λ s. ground arith) stored) k)
release_each-Becomes p now owner stored (id ∷ ids) q next {pairs} d h k =
    let t : Transition = record {
      reservation_id = id;
      from = reserved;
      to = released;
      patch = plain_patch;
    } in
    let (f, e0, h0) = >>=-eq-ok (found_or_err (find (has_id id) stored) t) _ h in
    let (u1, e1, h1) = >>=-eq-ok (assert (codes_eq f.current.owner_key_id owner) _) _ h0 in
    let (u2, e2, h2) = >>=-eq-ok (assert (same_status f.current.status reserved) _) _ h1 in
    let (r, e3, h3) = >>=-eq-ok (released_record p now f.current) _ h2 in
    let (rest, e4, h4) = >>=-eq-ok (release_each p now owner stored ids) _ h3 in
    let frees : Frees owner f.current r = record {
      owned = ground (arith, e1, codes_eq_iff f.current.owner_key_id owner);
      untouched = ground (arith, e2, same_status_iff f.current.status reserved);
      freed = released_status p now f.current e3;
      kept = released_record-KeepsIdentity p now f.current e3;
    } in
    let one =
      replace-Becomes owner q id f.current r stored next d
        (found-find (find (has_id id) stored) t e0) frees k in
    let all_written =
      release_each-Becomes p now owner stored ids (λ s. q s || has_id id s) (replace r next) d e4
        one in
    subst
      (λ (fs : List (Found × Reservation)).
        BecomesEach owner (λ s. q s || any (λ i. has_id i s) (id ∷ ids)) stored
          (replace_all (map (λ fr. fr.1) fs) next))
      (ok-eq h4)
      (BecomesEach-agree owner (λ s. (q s || has_id id s) || any (λ i. has_id i s) ids)
        (λ s. q s || any (λ i. has_id i s) (id ∷ ids)) stored
        (replace_all (r ∷ map (λ fr. fr.1) rest) next)
        (every
          (λ s.
            ((q s || has_id id s) || any (λ i. has_id i s) ids)
            ≡ (q s || any (λ i. has_id i s) (id ∷ ids)))
          (λ s. ground arith) stored)
        all_written)
  where
    found-find :
        (found : Option Reservation) (t : Transition) {f : Found}
        → found_or_err found t ≡ ok f
        → found ≡ some f.current
    found-find none t e = absurd (cc)
    found-find (some c) t e = ap some (ap (λ (f : Found). f.current) (ok-eq e))

-- A release that the store accepts, for a well-formed list, frees each stored record with one of the
-- named identities, which was `Reserved` by the owner that asks, and keeps its identity, its note and
-- its operation; it leaves every other record as it was.
pub release_names-BecomesEach :
    (p : Platform) (now : ℕ) (stored : List Reservation) (owner : List ℕ) (ids : List (List ℕ))
    {next updated : List Reservation}
    → IsWellFormed stored
    → release_names p now stored owner ids ≡ ok (next, updated)
    → BecomesEach owner (λ s. any (λ id. has_id id s) ids) stored next
unfolding release_names
release_names-BecomesEach p now stored owner ids {next} {updated} w h =
    let (u0, e0, h0) = >>=-eq-ok (reject (is_empty owner) _) _ h in
    let (pairs, e1, h1) = >>=-eq-ok (release_each p now owner stored ids) _ h0 in
    let (u2, e2, h2) =
      >>=-eq-ok (assert_exact_operation_lifecycle_transition_sets stored (map (λ fr. fr.0) pairs)) _
        h1 in
    subst (BecomesEach owner (λ s. any (λ id. has_id id s) ids) stored)
      (ap (λ (s : List Reservation × List Reservation). s.0) (ok-eq h2))
      (release_each-Becomes p now owner stored ids (λ s. false) stored w.unique.distinct e1
        (BecomesEach-refl owner stored))
