-- ===== src/Reservation/Store/Fresh.antt =====
-- src/privacy/reservation.js, `createReservationBatch`: a new record locks a note that is free.
use clairveiljs.Prelude.{
  ℕ, Bool, true, false, not, ◌&&◌, List, [], ◌∷◌, ◌++◌, ok, >>=-eq-ok, map_ok, All, any, reject,
  assert, ◌≡◌, refl, arith, ◌∙◌,
}
use clairveiljs.Text.{codes_eq, codes_eq_iff}
use clairveiljs.Json.{Fields}
use clairveiljs.Reservation.Status.{
  reserved, same_status, same_status_iff, is_active_reservation_status,
}
use clairveiljs.Reservation.Record.{Reservation}
use clairveiljs.Reservation.Normalize.{normalize_reservation}
use clairveiljs.Reservation.Normalize.Laws.{read-named}
use clairveiljs.Reservation.Store.Conflict.{
  same_key, is_active, is_spent, has_id, active_conflict, confirmed_spent_conflict,
}
use clairveiljs.Reservation.Store.Create.{
  assert_initial_reservation_record, assert_can_create, create_from, create_reservation_batch,
  operation_id_used,
}
use clairveiljs.Reservation.Store.WellFormed.{
  HasFreshId, HasDistinctIds, IsWellFormed, BetweenAll, locks_twice, locks_spent, All-map,
  All-append, All_of_any, has_id_sym,
}
use clairveiljs.Reservation.Store.Unique.{Apart, locks_twice_sym}

both_all {ℓ κ μ} :
    {A : Type ℓ} (P : A → Type κ) (Q : A → Type μ) (xs : List A)
    → All P xs
    → All Q xs
    → All (λ a. P a × Q a) xs
both_all P Q [] h k = tt
both_all P Q (x ∷ xs) h k = ((h.0, k.0), both_all P Q xs h.1 k.1)

distinct_append :
    (rs : List Reservation) (r : Reservation)
    → HasDistinctIds rs
    → HasFreshId r.reservation_id rs
    → HasDistinctIds (rs ++ r ∷ [])
distinct_append [] r d f = (tt, tt)
distinct_append (s ∷ rs) r d f = (
  All-append (λ b. has_id s.reservation_id b ≡ false) rs (r ∷ []) d.0 (has_id_sym s r ∙ f.0, tt),
  distinct_append rs r d.1 f.1,
)

same_id : (r : Reservation) → has_id r.reservation_id r ≡ true
same_id r = (codes_eq_iff r.reservation_id r.reservation_id).1 refl

-- A record after a list that stands apart from it both ways.
between_append :
    (clash : Reservation → Reservation → Bool) (rs : List Reservation) (r : Reservation)
    → BetweenAll clash rs rs
    → All (λ b. Apart clash r b) rs
    → All (λ a. Apart clash a r) rs
    → BetweenAll clash (rs ++ r ∷ []) (rs ++ r ∷ [])
between_append clash rs r old ahead behind =
    All-append (λ a. All (λ b. Apart clash a b) (rs ++ r ∷ [])) rs (r ∷ [])
      (All-map (λ a k. All-append (λ b. Apart clash a b) rs (r ∷ []) k.0 (k.1, tt)) rs
        (both_all (λ a. All (λ b. Apart clash a b) rs) (λ a. Apart clash a r) rs old behind))
      (
        All-append (λ b. Apart clash r b) rs (r ∷ []) ahead
            ((λ d. ground (arith, d, same_id r)), tt),
        tt,
      )

-- What the checks of a new record have found.
record IsAdmissible (combined : List Reservation) (r : Reservation) : Type 0 where
  fresh : HasFreshId r.reservation_id combined
  starts : r.status ≡ reserved
  alone : active_conflict combined r [] ≡ false
  unspent : confirmed_spent_conflict combined r [] ≡ false

can_create :
    (allow : Bool) (stored combined : List Reservation) (r : Reservation)
    → assert_can_create allow stored combined r ≡ ok tt
    → IsAdmissible combined r
unfolding assert_can_create assert_initial_reservation_record
can_create allow stored combined r h =
    let (u0, e0, h0) = >>=-eq-ok (assert_initial_reservation_record r allow) _ h in
    let (u1, e1, h1) = >>=-eq-ok (reject (operation_id_used stored r) _) _ h0 in
    let (u2, e2, h2) = >>=-eq-ok (reject (any (has_id r.reservation_id) combined) _) _ h1 in
    let (u3, e3, h3) = >>=-eq-ok (reject (active_conflict combined r []) _) _ h2 in
    let (u4, e4, h4) = >>=-eq-ok (assert (same_status r.status reserved) _) _ e0 in
    record {
      fresh = All_of_any (has_id r.reservation_id) combined (ground (arith, e2));
      starts = ground (arith, e4, same_status_iff r.status reserved);
      alone = ground (arith, e3);
      unspent = ground (arith, h3);
    }

append_well :
    (rs : List Reservation) (r : Reservation)
    → IsWellFormed rs
    → codes_eq r.reservation_id [] ≡ false
    → IsAdmissible rs r
    → IsWellFormed (rs ++ r ∷ [])
unfolding active_conflict confirmed_spent_conflict is_active_reservation_status
append_well rs r w n a =
    let unlocked =
      All_of_any (λ s. not (has_id [] s) && is_active s && same_key s r) rs
        (ground (arith, a.alone, a.starts)) in
    let unspent =
      All_of_any (λ s. not (has_id [] s) && is_spent s && same_key s r) rs
        (ground (arith, a.unspent, a.starts)) in
    let alone : All (λ b. Apart locks_twice r b) rs =
      All-map (λ b k d. ground (arith, k)) rs
        (both_all (λ s. (not (has_id [] s) && is_active s && same_key s r) ≡ false)
          (λ s. codes_eq s.reservation_id [] ≡ false) rs unlocked w.named) in
    record {
      unique = record {
        distinct = distinct_append rs r w.unique.distinct a.fresh;
        locked_once =
            between_append locks_twice rs r w.unique.locked_once alone
              (All-map (λ b k d. locks_twice_sym b r ∙ k (has_id_sym r b ∙ d)) rs alone);
      };
      unspent =
          between_append locks_spent rs r w.unspent
            (All-map (λ b k d. ground (arith, k)) rs
              (both_all (λ s. (not (has_id [] s) && is_spent s && same_key s r) ≡ false)
                (λ s. codes_eq s.reservation_id [] ≡ false) rs unspent w.named))
            (All-map (λ b k d. ground (arith, a.starts)) rs unspent);
      named = All-append (λ s. codes_eq s.reservation_id [] ≡ false) rs (r ∷ []) w.named (n, tt);
    }

create_from-IsWellFormed :
    (allow : Bool) (stored combined rs : List Reservation) {out : List Reservation}
    → IsWellFormed combined
    → All (λ r. codes_eq r.reservation_id [] ≡ false) rs
    → create_from allow stored combined rs ≡ ok out
    → IsWellFormed out
unfolding create_from
create_from-IsWellFormed allow stored combined [] {out} w n h =
    let e : combined ≡ out = ground (arith, h) in rw (← e) w
create_from-IsWellFormed allow stored combined (r ∷ rs) w n h =
    let (u, e, k) = >>=-eq-ok (assert_can_create allow stored combined r) _ h in
    create_from-IsWellFormed allow stored (combined ++ r ∷ []) rs
      (append_well combined r w n.0 (can_create allow stored combined r e)) n.1 k

normalized_named :
    (now : List ℕ) (inputs : List Fields) {rs : List Reservation}
    → map_ok (normalize_reservation now) inputs ≡ ok rs
    → All (λ r. codes_eq r.reservation_id [] ≡ false) rs
normalized_named now [] {rs} h = let e : [] ≡ rs = ground (arith, h) in rw (← e) tt
normalized_named now (i ∷ inputs) {rs} h =
    let (r, e, h1) = >>=-eq-ok (normalize_reservation now i) _ h in
    let (ys, e1, h2) = >>=-eq-ok (map_ok (normalize_reservation now) inputs) _ h1 in
    let out : (r ∷ ys) ≡ rs = ground (arith, h2) in
    rw (← out) (read-named now i e, normalized_named now inputs e1)

-- A batch of new records that the store accepts leaves it well-formed: all records have distinct
-- identities that are not empty, no two lock one note, and none locks a note that is spent.
pub create_reservation_batch-IsWellFormed :
    (now : List ℕ) (allow : Bool) (stored : List Reservation) (inputs : List Fields)
    {next created : List Reservation}
    → IsWellFormed stored
    → create_reservation_batch now allow stored inputs ≡ ok (next, created)
    → IsWellFormed next
unfolding create_reservation_batch
create_reservation_batch-IsWellFormed now allow stored inputs {next} {created} w h =
    let (rs, e, h1) = >>=-eq-ok (map_ok (normalize_reservation now) inputs) _ h in
    let (out, e1, h2) = >>=-eq-ok (create_from allow stored stored rs) _ h1 in
    let same : out ≡ next = ground (arith, h2) in
    rw (← same)
      (create_from-IsWellFormed allow stored stored rs w (normalized_named now inputs e) e1)
