-- ===== src/Reservation/Store/Exact.antt =====
-- src/privacy/reservation.js: a batch takes all linked records of an operation along.
use clairveiljs.Prelude.{
  Bool, true, false, not, ◌&&◌, ◌||◌, List, [], ◌∷◌, ok, >>=-eq-ok, All, any, all, keep, assert,
  ◌≡◌, arith, Bool-cases, inl, inr,
}
use clairveiljs.Reservation.Status.{same_status}
use clairveiljs.Reservation.Record.{Reservation}
use clairveiljs.Reservation.Store.Conflict.{has_id, is_spent}
use clairveiljs.Reservation.Store.Create.{same_operation}
use clairveiljs.Reservation.Store.Operation.{
  Found, selects_operation, one_target, selects_linked,
  assert_exact_operation_lifecycle_transition_sets,
}
use clairveiljs.Reservation.Store.WellFormed.{All-map}

module _ {ℓ} {A : Type ℓ} where
  all-keep :
      (p q : A → Bool) (xs : List A)
      → all q (keep p xs) ≡ true
      → All (λ x. p x ≡ true → q x ≡ true) xs
  all-keep p q [] h = tt
  all-keep p q (x ∷ xs) h = elim (Bool-cases (p x)) [
    | inl kept ↦
        let k : (q x && all q (keep p xs)) ≡ true = rw kept at h in
        ((λ e. ground (arith, k)), all-keep p q xs (ground (arith, k)))
    | inr dropped ↦ ((λ e. ground (arith, e, dropped)), all-keep p q xs (rw dropped at h))
  ]

  any-keep :
      (p q : A → Bool) (xs : List A) → any q (keep p xs) ≡ true → any (λ x. p x && q x) xs ≡ true
  any-keep p q [] h = h
  any-keep p q (x ∷ xs) h = elim (Bool-cases (p x)) [
    | inl kept ↦
        let k : (q x || any q (keep p xs)) ≡ true = rw kept at h in
        ground (arith, k, kept, any-keep p q xs)
    | inr dropped ↦ ground (arith, dropped, any-keep p q xs (rw dropped at h))
  ]

-- A record linked to the operation of a transition is the subject of a transition of the batch.
abbrev pub TakesAlong : List Found → Found → Reservation → Type 0
TakesAlong found f r =
    same_operation r f.current ≡ true
    → is_spent r ≡ false
    → any
        (λ g.
          (selects_operation g && same_operation f.current g.current)
          && has_id r.reservation_id g.current)
        found
      ≡ true

-- Its transitions agree on the target, unless one of them reconciles the operation.
abbrev pub AgreesWith : Found → Found → Type 0
AgreesWith f g =
    selects_operation g ≡ true
    → same_operation f.current g.current ≡ true
    → f.transition.patch.operation_reconciliation ≡ false
    → g.transition.patch.operation_reconciliation ≡ false
    → same_status f.transition.to g.transition.to ≡ true

all-All {ℓ} : {A : Type ℓ} (q : A → Bool) (xs : List A) → all q xs ≡ true → All (λ x. q x ≡ true) xs
all-All q [] h = tt
all-All q (x ∷ xs) h = (ground (arith, h), all-All q xs (ground (arith, h)))

linked_along :
    (stored : List Reservation) (found : List Found) (f : Found)
    → selects_linked stored found f ≡ true
    → All (TakesAlong found f) stored
unfolding selects_linked
linked_along stored found f h =
    let selected = keep (λ g. selects_operation g && same_operation f.current g.current) found in
    let terminal = any (λ g. g.transition.patch.relay_transaction_evidence) selected in
    All-map
      (λ r k same live.
        any-keep (λ g. selects_operation g && same_operation f.current g.current)
          (λ g. has_id r.reservation_id g.current) found (k (ground (arith, same, live))))
      stored
      (all-keep (λ r. same_operation r f.current && (terminal || not (is_spent r)))
        (λ r. any (λ g. has_id r.reservation_id g.current) selected) stored (ground (arith, h)))

targets_agree :
    (found : List Found) (f : Found) → one_target found f ≡ true → All (AgreesWith f) found
unfolding one_target
targets_agree found f h =
    All-map (λ g k a b c d. ground (arith, k, a, b, c, d)) found
      (all-All
        (λ g.
          not (selects_operation g)
          || not (same_operation f.current g.current)
          || f.transition.patch.operation_reconciliation
          || g.transition.patch.operation_reconciliation
          || same_status f.transition.to g.transition.to)
        found h)

pub assert_exact-TakesAlong :
    (stored : List Reservation) (found : List Found)
    → assert_exact_operation_lifecycle_transition_sets stored found ≡ ok tt
    → All
        (λ f.
          selects_operation f ≡ true → All (TakesAlong found f) stored × All (AgreesWith f) found)
        found
unfolding assert_exact_operation_lifecycle_transition_sets
assert_exact-TakesAlong stored found h =
    let selected = keep selects_operation found in
    let (u, e, k) = >>=-eq-ok (assert (all (one_target found) selected) _) _ h in
    both found (all-keep selects_operation (one_target found) found (ground (arith, e)))
      (all-keep selects_operation (selects_linked stored found) found (ground (arith, k)))
  where
    both :
        (fs : List Found)
        → All (λ f. selects_operation f ≡ true → one_target found f ≡ true) fs
        → All (λ f. selects_operation f ≡ true → selects_linked stored found f ≡ true) fs
        → All
            (λ f.
              selects_operation f ≡ true
              → All (TakesAlong found f) stored × All (AgreesWith f) found)
            fs
    both [] a b = tt
    both (f ∷ fs) a b = (
      (λ s. (linked_along stored found f (b.0 s), targets_agree found f (a.0 s))),
      both fs a.1 b.1,
    )
