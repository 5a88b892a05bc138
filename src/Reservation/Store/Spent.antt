-- ===== src/Reservation/Store/Spent.antt =====
-- src/privacy/reservation.js: a batch of transitions leaves the store well-formed.
use clairveiljs.Prelude.{
  ℕ, Bool, true, false, not, ◌||◌, some, List, [], ◌∷◌, ok, >>=-eq-ok, All, any, find, reject, ◌≡◌,
  refl, arith, Bool-cases, inl, inr,
}
use clairveiljs.Text.{codes_eq}
use clairveiljs.Reservation.Status.{
  confirmed_spent, same_status, same_status_iff, is_active_reservation_status,
}
use clairveiljs.Reservation.Record.{Reservation}
use clairveiljs.Reservation.Lease.{is_empty}
use clairveiljs.Reservation.Platform.{Platform}
use clairveiljs.Reservation.Store.Conflict.{active_key, same_key, has_id}
use clairveiljs.Reservation.Store.Operation.{Transition, Found}
use clairveiljs.Reservation.Store.Update.{
  next_record, next_records, look_up, found_or_err, replace_all, has_conflict,
  compare_and_set_batch,
}
use clairveiljs.Reservation.Store.WellFormed.{
  IsWellFormed, BetweenAll, locks_twice, locks_spent, All-map, All_of_any,
}
use clairveiljs.Reservation.Store.Replace.{All-replace_all}
use clairveiljs.Reservation.Store.Unique.{
  Apart, transposed, BetweenAll-replace_all, has_conflict-IsFree, IsFree,
  compare_and_set_batch-Accepted, compare_and_set_batch-HasUniqueLocks,
}
use clairveiljs.Reservation.Step.Keeps.{
  KeepsIdentity, next_record-KeepsIdentity, next_record-status,
}

-- The transition does not quarantine a note that the store counts as free.
abbrev pub spends_locked : Transition → Bool
spends_locked t =
    not (same_status t.to confirmed_spent)
    || is_active_reservation_status t.from
    || same_status t.from confirmed_spent

-- What holds of each stored record and each transition holds of what is looked up.
module _ (P : Reservation → Type 0) (Q : Transition → Type 0) where
  abbrev FoundWith : Found → Type 0
  FoundWith f = P f.current × Q f.transition

  found_with :
      (id : List ℕ) (t : Transition) (stored : List Reservation) {f : Found}
      → All P stored
      → Q t
      → found_or_err (find (has_id id) stored) t ≡ ok f
      → FoundWith f
  found_with id t [] p q h = cc
  found_with id t (s ∷ stored) {f} p q h = elim (Bool-cases (has_id id s)) [
    | inl here ↦
        let k : found_or_err (some s) t ≡ ok f = rw here at h in
        let e : f ≡ record { current = s; transition = t } = ground (arith, k) in rw e (p.0, q)
    | inr later ↦ found_with id t stored p.1 q (rw later at h)
  ]

  pub look_up-All :
      (seen : List (List ℕ)) (stored : List Reservation) (ts : List Transition) {found : List Found}
      → All P stored
      → All Q ts
      → look_up seen stored ts ≡ ok found
      → All FoundWith found
  unfolding look_up
  look_up-All seen stored [] {found} p q h = let e : found ≡ [] = ground (arith, h) in rw e tt
  look_up-All seen stored (t ∷ ts) {found} p q h =
      let (u0, e0, h0) =
        >>=-eq-ok (reject (is_empty t.reservation_id) "reservationID is required") _ h in
      let (u1, e1, h1) = >>=-eq-ok (reject (any (codes_eq t.reservation_id) seen) _) _ h0 in
      let (f, e2, h2) = >>=-eq-ok (found_or_err (find (has_id t.reservation_id) stored) t) _ h1 in
      let (rest, e3, h3) = >>=-eq-ok (look_up (t.reservation_id ∷ seen) stored ts) _ h2 in
      let e : found ≡ f ∷ rest = ground (arith, h3) in
      rw e (
        found_with t.reservation_id t stored p q.0 e2,
        look_up-All (t.reservation_id ∷ seen) stored ts p q.1 e3,
      )

  pub next_records-All :
      (p : Platform) (now : ℕ) (R : Reservation → Type 0)
      → ((c : Reservation) (t : Transition) (u : Reservation)
          → P c
          → Q t
          → next_record p now c t ≡ ok u
          → R u)
      → (found : List Found) {updated : List Reservation} → All FoundWith found
      → next_records p now found ≡ ok updated
      → All R updated
  unfolding next_records
  next_records-All p now R step [] {updated} a h =
      let e : updated ≡ [] = ground (arith, h) in rw e tt
  next_records-All p now R step (f ∷ fs) {updated} a h =
      let (r, e0, h0) = >>=-eq-ok (next_record p now f.current f.transition) _ h in
      let (rest, e1, h1) = >>=-eq-ok (next_records p now fs) _ h0 in
      let e : updated ≡ r ∷ rest = ground (arith, h1) in
      rw e (step f.current f.transition r a.0.0 a.0.1 e0, next_records-All p now R step fs a.1 e1)

-- How the stored records stand to one that a transition finds.
record IsApart (stored : List Reservation) (c : Reservation) : Type 0 where
  locked : All (λ s. Apart locks_twice s c) stored
  spent : All (λ s. Apart locks_spent s c) stored
  named : codes_eq c.reservation_id [] ≡ false

IsWellFormed-IsApart :
    (stored : List Reservation) → IsWellFormed stored → All (λ c. IsApart stored c) stored
IsWellFormed-IsApart stored w =
    joined stored (transposed (λ s c. Apart locks_twice s c) stored stored w.unique.locked_once)
      (transposed (λ s c. Apart locks_spent s c) stored stored w.unspent) w.named
  where
    joined :
        (cs : List Reservation)
        → All (λ c. All (λ s. Apart locks_twice s c) stored) cs
        → All (λ c. All (λ s. Apart locks_spent s c) stored) cs
        → All (λ c. codes_eq c.reservation_id [] ≡ false) cs
        → All (λ c. IsApart stored c) cs
    joined [] l s n = tt
    joined (c ∷ cs) l s n =
        (record { locked = l.0; spent = s.0; named = n.0 }, joined cs l.1 s.1 n.1)

-- A note that a transition spends was locked or spent by that same record.
keeps_key :
    {c u : Reservation}
    → KeepsIdentity c u
    → (s : Reservation)
    → (has_id s.reservation_id u ≡ has_id s.reservation_id c) × (same_key u s ≡ same_key c s)
unfolding active_key
keeps_key {c} {u} k s =
    (rw (k.reservation_id) refl, rw (k.owner_key_id, k.nullifier_lookup_key) refl)

spent_apart :
    (p : Platform) (now : ℕ) (stored : List Reservation) (c : Reservation) (t : Transition)
    (u : Reservation)
    → IsApart stored c
    → spends_locked t ≡ true
    → next_record p now c t ≡ ok u
    → All (λ s. Apart locks_spent s u) stored
spent_apart p now stored c t u a q h = each stored a.locked a.spent
  where
    each :
        (ss : List Reservation)
        → All (λ s. Apart locks_twice s c) ss
        → All (λ s. Apart locks_spent s c) ss
        → All (λ s. Apart locks_spent s u) ss
    each [] l k = tt
    each (s ∷ ss) l k = (
      (λ d. ground (
        arith,
        d,
        l.0,
        k.0,
        keeps_key (next_record-KeepsIdentity p now c t h) s,
        next_record-status p now c t h,
        same_status_iff t.to confirmed_spent,
        same_status_iff t.from confirmed_spent,
        q,
      )),
      each ss l.1 k.1,
    )

-- The updates of a batch: named, and apart from what is stored.
updates_apart :
    (p : Platform) (now : ℕ) (stored : List Reservation) (ts : List Transition) (found : List Found)
    {updated : List Reservation}
    → IsWellFormed stored
    → All (λ t. spends_locked t ≡ true) ts
    → look_up [] stored ts ≡ ok found
    → next_records p now found ≡ ok updated
    → All
        (λ u. (codes_eq u.reservation_id [] ≡ false) × All (λ s. Apart locks_spent s u) stored)
        updated
updates_apart p now stored ts found w q h k =
    next_records-All (λ c. IsApart stored c) (λ t. spends_locked t ≡ true) p now
      (λ u. (codes_eq u.reservation_id [] ≡ false) × All (λ s. Apart locks_spent s u) stored)
      (λ c t u a e n. (
        rw (KeepsIdentity.reservation_id (next_record-KeepsIdentity p now c t n)) a.named,
        spent_apart p now stored c t u a e n,
      ))
      found
      (look_up-All (λ c. IsApart stored c) (λ t. spends_locked t ≡ true) [] stored ts
        (IsWellFormed-IsApart stored w) q h)
      k

-- A batch of transitions that the store accepts leaves it well-formed, if no transition of it confirms
-- as spent a note whose record was neither active nor spent.
pub compare_and_set_batch-IsWellFormed :
    (p : Platform) (now : ℕ) (stored : List Reservation) (ts : List Transition)
    {next updated : List Reservation}
    → IsWellFormed stored
    → All (λ t. spends_locked t ≡ true) ts
    → compare_and_set_batch p now stored ts ≡ ok (next, updated)
    → IsWellFormed next
compare_and_set_batch-IsWellFormed p now stored ts {next} {updated} w q h =
    let a = compare_and_set_batch-Accepted p now stored ts h in
    let apart = updates_apart p now stored ts a.found w q a.looked_up a.stepped in
    let free = All_of_any (has_conflict next) updated a.free in
    let ahead = All-map (λ u f. IsFree.unspent (has_conflict-IsFree next u f)) updated free in
    let unique = compare_and_set_batch-HasUniqueLocks p now stored ts w.unique h in
    let unspent : BetweenAll locks_spent (replace_all updated stored) (replace_all updated stored) =
      BetweenAll-replace_all locks_spent updated stored w.unique.distinct w.unspent
        (rw (← a.written) ahead) (All-map (λ u k. All-map (λ s e f. e) stored k.1) updated apart) in
    let named : All (λ r. codes_eq r.reservation_id [] ≡ false) (replace_all updated stored) =
      All-replace_all (λ r. codes_eq r.reservation_id [] ≡ false) updated stored w.unique.distinct
        (All-map (λ s e f. e) stored w.named) (All-map (λ u k. k.0) updated apart) in
    record { unique = unique; unspent = rw a.written unspent; named = rw a.written named }
