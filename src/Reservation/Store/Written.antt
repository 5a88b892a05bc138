-- ===== src/Reservation/Store/Written.antt =====
-- src/privacy/reservation.js, `compareAndSetReservationStatusBatch`: the updated records are in the next
-- state.
use clairveiljs.Prelude.{
  ℕ, Bool, true, false, ◌&&◌, ◌||◌, List, [], ◌∷◌, ok, ok-eq, >>=-eq-ok, All, any, map, reject, ◌≡◌,
  arith, ◌∙◌, sym, ap, subst, Bool-cases, inl, inr,
}
use clairveiljs.Text.{codes_eq, codes_eq_iff}
use clairveiljs.Reservation.Record.{Reservation}
use clairveiljs.Reservation.Platform.{Platform}
use clairveiljs.Reservation.Lease.{is_empty}
use clairveiljs.Reservation.Store.Conflict.{has_id}
use clairveiljs.Reservation.Store.Operation.{Transition, Found}
use clairveiljs.Reservation.Store.Update.{look_up, next_record, next_records, replace, replace_all}
use clairveiljs.Reservation.Store.WellFormed.{HasFreshId, HasDistinctIds}
use clairveiljs.Reservation.Store.Freed.{find_id}
use clairveiljs.Reservation.Store.LookedUp.{look_up-parts, found_or_err-eq}
use clairveiljs.Reservation.Step.Keeps.{next_record-KeepsIdentity}

-- A record with the identity and the flag.
module _ (id : List ℕ) (flag : Reservation → Bool) where
  abbrev pub marked : Reservation → Bool
  marked n = has_id id n && flag n

  -- A write over another identity leaves it.
  marked-replace :
      (u : Reservation) (st : List Reservation)
      → codes_eq u.reservation_id id ≡ false
      → any marked st ≡ true
      → any marked (replace u st) ≡ true
  unfolding replace
  marked-replace u [] o h = h
  marked-replace u (n ∷ st) o h = elim (Bool-cases (has_id u.reservation_id n)) [
    | inl same ↦ rw same (
        ground (
          arith,
          h,
          o,
          (codes_eq_iff n.reservation_id u.reservation_id).0 same,
          codes_eq_iff n.reservation_id id,
          codes_eq_iff u.reservation_id id,
        ))
    | inr other ↦ rw other (ground (arith, h, marked-replace u st o))
  ]

  marked-replace_all :
      (us st : List Reservation)
      → HasFreshId id us
      → any marked st ≡ true
      → any marked (replace_all us st) ≡ true
  unfolding replace_all
  marked-replace_all [] st f h = h
  marked-replace_all (u ∷ us) st f h =
      marked-replace_all us (replace u st) f.1 (marked-replace u st f.0 h)

  -- The write of a record with the identity puts it there.
  marked-written :
      (u : Reservation) (st : List Reservation)
      → marked u ≡ true
      → any (has_id id) st ≡ true
      → any marked (replace u st) ≡ true
  unfolding replace
  marked-written u [] m h = cc
  marked-written u (n ∷ st) m h = elim (Bool-cases (has_id u.reservation_id n)) [
    | inl same ↦ rw same (ground (arith, m))
    | inr other ↦ rw other (
        ground (
          arith,
          h,
          other,
          marked-written u st m,
          codes_eq_iff n.reservation_id u.reservation_id,
          codes_eq_iff n.reservation_id id,
          codes_eq_iff u.reservation_id id,
          m,
        ))
  ]

  -- A write changes no identity.
  kept-replace :
      (u : Reservation) (st : List Reservation)
      → any (has_id id) st ≡ true
      → any (has_id id) (replace u st) ≡ true
  unfolding replace
  kept-replace u [] h = h
  kept-replace u (n ∷ st) h = elim (Bool-cases (has_id u.reservation_id n)) [
    | inl same ↦
        let same_id = (codes_eq_iff n.reservation_id u.reservation_id).0 same in
        let head : codes_eq n.reservation_id id ≡ codes_eq u.reservation_id id =
          ap (λ (t : List ℕ). codes_eq t id) same_id in
        rw same (ground (arith, h, head))
    | inr other ↦ rw other (ground (arith, h, kept-replace u st))
  ]

  pub updated-written :
      (us st : List Reservation)
      → HasDistinctIds us
      → any marked us ≡ true
      → any (has_id id) st ≡ true
      → any marked (replace_all us st) ≡ true
  unfolding replace_all
  updated-written [] st d m h = cc
  updated-written (u ∷ us) st d m h = elim (Bool-cases (marked u)) [
    | inl here ↦
        let u_id : u.reservation_id ≡ id =
          (codes_eq_iff u.reservation_id id).0 (ground (arith, here)) in
        marked-replace_all us (replace u st) (subst (λ (i : List ℕ). HasFreshId i us) u_id d.0)
          (marked-written u st here h)
    | inr there ↦
        updated-written us (replace u st) d.1 (ground (arith, m, there)) (kept-replace u st h)
  ]

look_up-unseen :
    (seen : List (List ℕ)) (stored : List Reservation) (x : Transition) (ts : List Transition)
    {found : List Found}
    → look_up seen stored (x ∷ ts) ≡ ok found
    → any (codes_eq x.reservation_id) seen ≡ false
unfolding look_up
look_up-unseen seen stored x ts h =
    let (u0, e0, h0) = >>=-eq-ok (reject (is_empty x.reservation_id) _) _ h in
    let (u1, e1, h1) = >>=-eq-ok (reject (any (codes_eq x.reservation_id) seen) _) _ h0 in
    ground (arith, e1)

fresh_behind :
    (seen : List (List ℕ)) (id : List ℕ) (fs : List Found)
    → All (λ f. any (codes_eq f.current.reservation_id) (id ∷ seen) ≡ false) fs
    → HasFreshId id (map (λ f. f.current) fs)
      × All (λ f. any (codes_eq f.current.reservation_id) seen ≡ false) fs
fresh_behind seen id [] h = (tt, tt)
fresh_behind seen id (f ∷ fs) h =
    let (fresh, unseen) = fresh_behind seen id fs h.1 in
    let (other, rest) =
      neither (codes_eq f.current.reservation_id id) (any (codes_eq f.current.reservation_id) seen)
        h.0 in
    ((other, fresh), (rest, unseen))
  where
    neither : (a b : Bool) → (a || b) ≡ false → (a ≡ false) × (b ≡ false)
    neither a b h = ground arith

-- The records that a batch finds have distinct identities, none of which was seen before.
AreDistinct : List (List ℕ) → List Found → Type 0
AreDistinct seen found =
    All (λ f. any (codes_eq f.current.reservation_id) seen ≡ false) found
    × HasDistinctIds (map (λ f. f.current) found)

look_up-AreDistinct :
    (seen : List (List ℕ)) (stored : List Reservation) (ts : List Transition) {found : List Found}
    → look_up seen stored ts ≡ ok found
    → AreDistinct seen found
unfolding look_up AreDistinct
look_up-AreDistinct seen stored [] h = subst (AreDistinct seen) (ok-eq h) (tt, tt)
look_up-AreDistinct seen stored (x ∷ ts) h =
    let (f, rest, e2, e3, eq) = look_up-parts seen stored x ts h in
    let (unseen, distinct) = look_up-AreDistinct (x.reservation_id ∷ seen) stored ts e3 in
    let (fresh, others) = fresh_behind seen x.reservation_id rest unseen in
    let id : f.current.reservation_id ≡ x.reservation_id =
      find_id x.reservation_id stored (found_or_err-eq _ x e2).1 in
    subst (AreDistinct seen) eq (
      (ap (λ (i : List ℕ). any (codes_eq i) seen) id ∙ look_up-unseen seen stored x ts h, others),
      (subst (λ (i : List ℕ). HasFreshId i (map (λ g. g.current) rest)) (sym id) fresh, distinct),
    )

-- The next records keep the identities.
next_records-fresh :
    (p : Platform) (now : ℕ) (id : List ℕ) (fs : List Found) {us : List Reservation}
    → next_records p now fs ≡ ok us
    → HasFreshId id (map (λ f. f.current) fs)
    → HasFreshId id us
unfolding next_records
next_records-fresh p now id [] h f = subst (HasFreshId id) (ok-eq h) tt
next_records-fresh p now id (g ∷ fs) h f =
    let (u, e0, h0) = >>=-eq-ok (next_record p now g.current g.transition) _ h in
    let (us, e1, h1) = >>=-eq-ok (next_records p now fs) _ h0 in
    let kept = next_record-KeepsIdentity p now g.current g.transition e0 in
    subst (HasFreshId id) (ok-eq h1) (
      ap (λ (i : List ℕ). codes_eq i id) kept.reservation_id ∙ f.0,
      next_records-fresh p now id fs e1 f.1,
    )

next_records-distinct :
    (p : Platform) (now : ℕ) (fs : List Found) {us : List Reservation}
    → next_records p now fs ≡ ok us
    → HasDistinctIds (map (λ f. f.current) fs)
    → HasDistinctIds us
unfolding next_records
next_records-distinct p now [] h d = subst HasDistinctIds (ok-eq h) tt
next_records-distinct p now (g ∷ fs) h d =
    let (u, e0, h0) = >>=-eq-ok (next_record p now g.current g.transition) _ h in
    let (us, e1, h1) = >>=-eq-ok (next_records p now fs) _ h0 in
    let kept = next_record-KeepsIdentity p now g.current g.transition e0 in
    subst HasDistinctIds (ok-eq h1) (
      subst (λ (i : List ℕ). HasFreshId i us) (sym kept.reservation_id)
          (next_records-fresh p now g.current.reservation_id fs e1 d.0),
      next_records-distinct p now fs e1 d.1,
    )

pub updated-distinct :
    (p : Platform) (now : ℕ) (stored : List Reservation) (ts : List Transition) {found : List Found}
    {us : List Reservation}
    → look_up [] stored ts ≡ ok found
    → next_records p now found ≡ ok us
    → HasDistinctIds us
unfolding AreDistinct
updated-distinct p now stored ts {found} l n =
    next_records-distinct p now found n (look_up-AreDistinct [] stored ts l).1
