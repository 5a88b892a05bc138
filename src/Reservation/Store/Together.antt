-- ===== src/Reservation/Store/Together.antt =====
-- src/privacy/reservation.js, `compareAndSetReservationStatusBatch`: the records of an operation are
-- moved together.
use clairveiljs.Prelude.{
  ℕ, true, false, ◌&&◌, List, [], ◌∷◌, ok, >>=-eq-ok, All, any, ◌≡◌, arith, Bool-cases, inl, inr,
  zero, suc, some, get_elem?, find, subst, sym, ◌∙◌, ok-eq,
}
use clairveiljs.Reservation.Status.{same_status, same_status_iff, one_of}
use clairveiljs.Reservation.Record.{Reservation}
use clairveiljs.Reservation.Platform.{Platform}
use clairveiljs.Reservation.Store.Conflict.{has_id, is_spent}
use clairveiljs.Reservation.Store.Create.{same_operation}
use clairveiljs.Reservation.Store.Operation.{
  Transition, Found, selects_operation, exact_operation_lifecycle_statuses,
}
use clairveiljs.Reservation.Store.Update.{next_record, next_records, compare_and_set_batch}
use clairveiljs.Reservation.Lease.{is_empty}
use clairveiljs.Text.{codes_eq_iff}
use clairveiljs.Reservation.Step.Keeps.{next_record-KeepsIdentity, next_record-status}
use clairveiljs.Reservation.Store.LookedUp.{
  All-get_elem?, look_up-IsLookedUp, reconciles, look_up-reconciles,
}
use clairveiljs.Reservation.Store.Written.{updated-written, updated-distinct}
use clairveiljs.Reservation.Store.Exact.{TakesAlong, AgreesWith, assert_exact-TakesAlong}
use clairveiljs.Reservation.Store.Unique.{compare_and_set_batch-Accepted}

-- The transition that is the subject of the record is made, to the same status.
moved :
    (p : Platform) (now : ℕ) (f : Found) (id : List ℕ) (fs : List Found) {us : List Reservation}
    → next_records p now fs ≡ ok us
    → All (AgreesWith f) fs
    → reconciles f.transition ≡ false
    → All (λ g. reconciles g.transition ≡ false) fs
    → any
        (λ g. (selects_operation g && same_operation f.current g.current) && has_id id g.current)
        fs
      ≡ true
    → any (λ u. has_id id u && same_status u.status f.transition.to) us ≡ true
unfolding next_records
moved p now f id [] h a nf n subject = cc
moved p now f id (g ∷ fs) h a nf n subject =
    let (u, e0, h0) = >>=-eq-ok (next_record p now g.current g.transition) _ h in
    let (us, e1, h1) = >>=-eq-ok (next_records p now fs) _ h0 in
    subst
      (λ (xs : List Reservation).
        any (λ u. has_id id u && same_status u.status f.transition.to) xs ≡ true)
      (ok-eq h1)
      (elim (Bool-cases
        ((selects_operation g && same_operation f.current g.current) && has_id id g.current)) [
          | inl here ↦ ground (arith, written u e0 here)
          | inr there ↦ ground (arith, moved p now f id fs e1 a.1 nf n.1 (rw there at subject))
        ])
  where
    written :
        (u : Reservation)
        → next_record p now g.current g.transition ≡ ok u
        → ((selects_operation g && same_operation f.current g.current) && has_id id g.current)
          ≡ true
        → (has_id id u && same_status u.status f.transition.to) ≡ true
    written u e here =
        let kept = next_record-KeepsIdentity p now g.current g.transition e in
        let (_, status) = next_record-status p now g.current g.transition e in
        let target =
          (same_status_iff f.transition.to g.transition.to).0
            (a.0 (ground (arith, here)) (ground (arith, here)) nf n.0) in
        rw (kept.reservation_id, status, target)
          (ground (arith, here, same_status_iff g.transition.to g.transition.to))

get_elem?-id :
    (rs : List Reservation) (j : ℕ) {r : Reservation}
    → get_elem? rs j ≡ some r
    → any (has_id r.reservation_id) rs ≡ true
get_elem?-id [] j e = absurd (cc)
get_elem?-id (s ∷ rs) zero {r} e =
    let same : s ≡ r = cc in
    subst (λ (x : Reservation). any (has_id x.reservation_id) (s ∷ rs) ≡ true) same
      (ground (arith, codes_eq_iff s.reservation_id s.reservation_id))
get_elem?-id (s ∷ rs) (suc j) e = ground (arith, get_elem?-id rs j e)

-- In an accepted batch without a reconciliation of an operation, a transition of an unspent record of
-- a named operation to one of the statuses of its lifecycle takes the operation along: every stored
-- record of the operation that is not spent has that status in the next state.
pub compare_and_set_batch-moves_together :
    (p : Platform) (now : ℕ) (stored : List Reservation) (ts : List Transition)
    {next updated : List Reservation} (i j : ℕ) {t : Transition} {c r : Reservation}
    → compare_and_set_batch p now stored ts ≡ ok (next, updated)
    → any (λ s. s.patch.operation_reconciliation) ts ≡ false
    → get_elem? ts i ≡ some t
    → find (has_id t.reservation_id) stored ≡ some c
    → is_spent c ≡ false
    → is_empty c.operation_id ≡ false
    → one_of t.to exact_operation_lifecycle_statuses ≡ true
    → get_elem? stored j ≡ some r
    → same_operation r c ≡ true
    → is_spent r ≡ false
    → any (λ u. has_id r.reservation_id u && same_status u.status t.to) next ≡ true
unfolding selects_operation
compare_and_set_batch-moves_together p now stored ts {next = next} {updated = updated} i j {t = t}
      {c = c} {r = r} h plain at_i looked live named lifecycle at_j same unspent =
    let a = compare_and_set_batch-Accepted p now stored ts h in
    let k = look_up-IsLookedUp [] stored ts i a.looked_up at_i in
    let f = k.subject in
    let current : f.current ≡ c = some_eq (sym k.current_eq ∙ looked) in
    let unreconciled = look_up-reconciles [] stored ts a.looked_up plain in
    let selects : selects_operation f ≡ true =
      rw (current, k.transition_eq) (ground (arith, live, named, lifecycle)) in
    let (linked, agree) =
      All-get_elem? _ a.found i (assert_exact-TakesAlong stored a.found a.exact) k.place selects in
    let subject =
      All-get_elem? (TakesAlong a.found f) stored j linked at_j (rw current same) unspent in
    let made : any (λ u. has_id r.reservation_id u && same_status u.status f.transition.to) updated
        ≡ true =
      moved p now f r.reservation_id a.found a.stepped agree
        (All-get_elem? _ a.found i unreconciled k.place) unreconciled subject in
    subst
      (λ (s : Transition).
        any (λ u. has_id r.reservation_id u && same_status u.status s.to) next ≡ true)
      k.transition_eq
      (subst
        (λ (n : List Reservation).
          any (λ u. has_id r.reservation_id u && same_status u.status f.transition.to) n ≡ true)
        (sym a.written)
        (updated-written r.reservation_id (λ u. same_status u.status f.transition.to) updated stored
          (updated-distinct p now stored ts a.looked_up a.stepped) made
          (get_elem?-id stored j at_j)))
  where
    some_eq : {a b : Reservation} → some a ≡ some b → a ≡ b
    some_eq e = cc
