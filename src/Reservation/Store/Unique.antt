-- ===== src/Reservation/Store/Unique.antt =====
-- src/privacy/reservation.js: no batch of transitions lets two records lock one note.
use clairveiljs.Prelude.{
  ℕ, Bool, false, not, ◌&&◌, List, [], ◌∷◌, ok, >>=-eq-ok, All, any, map, keep, reject, ◌≡◌, refl,
  arith, Bool-cases, inl, inr, ◌∙◌,
}
use clairveiljs.Text.{codes_eq_iff}
use clairveiljs.Reservation.Record.{Reservation}
use clairveiljs.Reservation.Platform.{Platform}
use clairveiljs.Reservation.Store.Conflict.{
  active_key, same_key, is_active, is_spent, has_id, active_conflict, confirmed_spent_conflict,
}
use clairveiljs.Reservation.Store.Operation.{
  Transition, Found, states_mixed, assert_exact_operation_lifecycle_transition_sets,
}
use clairveiljs.Reservation.Store.Update.{
  look_up, next_records, replace_all, has_conflict, compare_and_set_batch,
}
use clairveiljs.Reservation.Store.WellFormed.{
  HasDistinctIds, HasUniqueLocks, BetweenAll, locks_twice, locks_spent, All-map, All_of_any,
  has_id_sym,
}
use clairveiljs.Reservation.Store.Replace.{
  is_updated, All-replace_all, replace_all-kept, distinct_replace_all,
}

-- The parts of a batch that the store has accepted.
pub record Accepted (p : Platform) (now : ℕ) (stored : List Reservation) (ts : List Transition)
    (next updated : List Reservation) : Type 0 where
  pub found : List Found
  pub looked_up : look_up [] stored ts ≡ ok found
  pub stepped : next_records p now found ≡ ok updated
  pub exact : assert_exact_operation_lifecycle_transition_sets stored found ≡ ok tt
  pub written : next ≡ replace_all updated stored
  pub free : any (has_conflict next) updated ≡ false

pub compare_and_set_batch-Accepted :
    (p : Platform) (now : ℕ) (stored : List Reservation) (ts : List Transition)
    {next updated : List Reservation}
    → compare_and_set_batch p now stored ts ≡ ok (next, updated)
    → Accepted p now stored ts next updated
unfolding compare_and_set_batch
compare_and_set_batch-Accepted p now stored ts {next} {updated} h =
    let (found, e0, h0) = >>=-eq-ok (look_up [] stored ts) _ h in
    let (u1, e1, h1) =
      >>=-eq-ok
        (reject
          (states_mixed (
            map (λ f. f.current)
              (keep (λ f. not f.transition.patch.operation_reconciliation) found)))
          _)
        _ h0 in
    let (us, e2, h2) = >>=-eq-ok (next_records p now found) _ h1 in
    let (u3, e3, h3) =
      >>=-eq-ok (assert_exact_operation_lifecycle_transition_sets stored found) _ h2 in
    let (u4, e4, h4) = >>=-eq-ok (reject (any (has_conflict (replace_all us stored)) us) _) _ h3 in
    let same : us ≡ updated = ground (arith, h4) in
    let out : replace_all us stored ≡ next = ground (arith, h4) in
    record {
      found = found;
      looked_up = e0;
      stepped = rw (← same) e2;
      exact = e3;
      written = rw (← out, ← same) refl;
      free = rw (← out, ← same) (ground (arith, e4));
    }

-- The two checks of the candidates, as relations with each record of the list.
pub record IsFree (rs : List Reservation) (u : Reservation) : Type 0 where
  pub alone : All (λ b. has_id u.reservation_id b ≡ false → locks_twice u b ≡ false) rs
  pub unspent : All (λ b. has_id u.reservation_id b ≡ false → locks_spent u b ≡ false) rs

pub has_conflict-IsFree :
    (rs : List Reservation) (u : Reservation) → has_conflict rs u ≡ false → IsFree rs u
unfolding has_conflict active_conflict confirmed_spent_conflict
has_conflict-IsFree rs u h = elim (Bool-cases (is_active u)) [
  | inl active ↦ record {
    alone =
        All-map (λ b k d. ground (arith, d, k)) rs
          (All_of_any (λ r. not (has_id u.reservation_id r) && is_active r && same_key r u) rs
            (ground arith));
    unspent =
        All-map (λ b k d. ground (arith, d, k)) rs
          (All_of_any (λ r. not (has_id u.reservation_id r) && is_spent r && same_key r u) rs
            (ground arith));
  }
  | inr inactive ↦ record {
    alone = every (λ b d. ground arith) rs;
    unspent = every (λ b d. ground arith) rs;
  }
]
  where
    every :
        {Q : Reservation → Type 0} → ((b : Reservation) → Q b) → (rs : List Reservation) → All Q rs
    every f [] = tt
    every f (b ∷ rs) = (f b, every f rs)

pub locks_twice_sym : (a b : Reservation) → locks_twice a b ≡ locks_twice b a
locks_twice_sym a b =
    ground (
      arith,
      codes_eq_iff (active_key a) (active_key b),
      codes_eq_iff (active_key b) (active_key a),
    )

-- Rows into columns.
pub transposed :
    (P : Reservation → Reservation → Type 0) (us st : List Reservation)
    → All (λ u. All (λ s. P u s) st) us
    → All (λ s. All (λ u. P u s) us) st
transposed P us [] h = tt
transposed P us (s ∷ st) h =
    (All-map (λ u k. k.0) us h, transposed P us st (All-map (λ u k. k.1) us h))

module _ (clash : Reservation → Reservation → Bool) where
  abbrev pub Apart : Reservation → Reservation → Type 0
  Apart a b = has_id a.reservation_id b ≡ false → clash a b ≡ false

  -- The records of a list stay apart when updated ones that stand apart from all others are written.
  pub BetweenAll-replace_all :
      (us st : List Reservation)
      → HasDistinctIds st
      → BetweenAll clash st st
      → All (λ u. All (λ b. Apart u b) (replace_all us st)) us
      → All (λ u. All (λ s. is_updated us s ≡ false → Apart s u) st) us
      → BetweenAll clash (replace_all us st) (replace_all us st)
  BetweenAll-replace_all us st d old ahead behind =
      All-replace_all (λ a. All (λ b. Apart a b) (replace_all us st)) us st d
        (both st old (transposed (λ u s. is_updated us s ≡ false → Apart s u) us st behind)) ahead
    where
      both :
          (xs : List Reservation)
          → BetweenAll clash xs st
          → All (λ s. All (λ u. is_updated us s ≡ false → Apart s u) us) xs
          → All (λ s. is_updated us s ≡ false → All (λ b. Apart s b) (replace_all us st)) xs
      both [] o k = tt
      both (x ∷ xs) o k = (
        (λ fresh.
            All-replace_all (λ b. Apart x b) us st d (All-map (λ b q e. q) st o.0)
              (All-map (λ u q. q fresh) us k.0)),
        both xs o.1 k.1,
      )

-- If no two records of the store lock one note, and all have distinct identities, the same holds
-- after every batch of transitions that the store accepts.
pub compare_and_set_batch-HasUniqueLocks :
    (p : Platform) (now : ℕ) (stored : List Reservation) (ts : List Transition)
    {next updated : List Reservation}
    → HasUniqueLocks stored
    → compare_and_set_batch p now stored ts ≡ ok (next, updated)
    → HasUniqueLocks next
compare_and_set_batch-HasUniqueLocks p now stored ts {next} {updated} w h =
    let a = compare_and_set_batch-Accepted p now stored ts h in
    let free = All_of_any (has_conflict next) updated a.free in
    let ahead = All-map (λ u f. IsFree.alone (has_conflict-IsFree next u f)) updated free in
    rw a.written (record {
      distinct = distinct_replace_all updated stored w.distinct;
      locked_once =
          BetweenAll-replace_all locks_twice updated stored w.distinct w.locked_once
            (rw (← a.written) ahead)
            (All-map
              (λ u k.
                All-map (λ s q e d. locks_twice_sym s u ∙ q e (has_id_sym u s ∙ d)) stored
                  (replace_all-kept (λ b. Apart locks_twice u b) updated stored k))
              updated (rw (← a.written) ahead));
    })
