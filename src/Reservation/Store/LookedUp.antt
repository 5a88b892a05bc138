-- ===== src/Reservation/Store/LookedUp.antt =====
-- src/privacy/reservation.js, `compareAndSetReservationStatusBatch`: the records that a batch finds.
use clairveiljs.Prelude.{
  ℕ, Bool, false, List, [], ◌∷◌, ok, >>=-eq-ok, All, any, ◌≡◌, arith, zero, suc, Option, none, some,
  get_elem?, find, subst, sym, ap, ◌∙◌, refl, ok-eq, reject,
}
use clairveiljs.Reservation.Record.{Reservation}
use clairveiljs.Reservation.Store.Conflict.{has_id}
use clairveiljs.Reservation.Store.Operation.{Transition, Found}
use clairveiljs.Reservation.Store.Update.{look_up, found_or_err}
use clairveiljs.Reservation.Lease.{is_empty}
use clairveiljs.Text.{codes_eq}

pub All-get_elem? {ℓ κ} :
    {A : Type ℓ} (P : A → Type κ) (xs : List A) (i : ℕ) {x : A}
    → All P xs
    → get_elem? xs i ≡ some x
    → P x
All-get_elem? P [] i h e = absurd (cc)
All-get_elem? P (y ∷ xs) zero {x} h e = let same : y ≡ x = cc in subst P same h.0
All-get_elem? P (y ∷ xs) (suc i) h e = All-get_elem? P xs i h.1 e

-- The place of a transition holds the record that it found.
pub record IsLookedUp (stored : List Reservation) (found : List Found) (i : ℕ) (t : Transition)
    : Type 0 where
  pub subject : Found
  pub place : get_elem? found i ≡ some subject
  pub transition_eq : subject.transition ≡ t
  pub current_eq : find (has_id t.reservation_id) stored ≡ some subject.current

pub found_or_err-eq :
    (c : Option Reservation) (t : Transition) {f : Found}
    → found_or_err c t ≡ ok f
    → (f.transition ≡ t) × (c ≡ some f.current)
found_or_err-eq none t e = absurd (cc)
found_or_err-eq (some c) t e =
    let same = ok-eq e in
    (ap (λ (f : Found). f.transition) (sym same), ap some (ap (λ (f : Found). f.current) same))

pub look_up-parts :
    (seen : List (List ℕ)) (stored : List Reservation) (x : Transition) (ts : List Transition)
    {found : List Found}
    → look_up seen stored (x ∷ ts) ≡ ok found
    → (f : Found) × (rest : List Found) × (found_or_err (find (has_id x.reservation_id) stored) x
        ≡ ok f)
      × (look_up (x.reservation_id ∷ seen) stored ts ≡ ok rest)
      × (f ∷ rest ≡ found)
unfolding look_up
look_up-parts seen stored x ts h =
    let (u0, e0, h0) = >>=-eq-ok (reject (is_empty x.reservation_id) _) _ h in
    let (u1, e1, h1) = >>=-eq-ok (reject (any (codes_eq x.reservation_id) seen) _) _ h0 in
    let (f, e2, h2) = >>=-eq-ok (found_or_err (find (has_id x.reservation_id) stored) x) _ h1 in
    let (rest, e3, h3) = >>=-eq-ok (look_up (x.reservation_id ∷ seen) stored ts) _ h2 in
    (f, rest, e2, e3, ok-eq h3)

pub look_up-IsLookedUp :
    (seen : List (List ℕ)) (stored : List Reservation) (ts : List Transition) (i : ℕ)
    {found : List Found} {t : Transition}
    → look_up seen stored ts ≡ ok found
    → get_elem? ts i ≡ some t
    → IsLookedUp stored found i t
look_up-IsLookedUp seen stored [] i h e = absurd (cc)
look_up-IsLookedUp seen stored (x ∷ ts) zero {found} {t} h e =
    let same : x ≡ t = cc in
    let (f, rest, e2, e3, eq) = look_up-parts seen stored x ts h in
    let (transition, current) = found_or_err-eq _ x e2 in
    subst (λ (fs : List Found). IsLookedUp stored fs 0 t) eq
      (record {
        subject = f;
        place = refl;
        transition_eq = transition ∙ same;
        current_eq =
            subst (λ (y : Transition). find (has_id y.reservation_id) stored ≡ some f.current) same
              current;
      })
look_up-IsLookedUp seen stored (x ∷ ts) (suc i) {found} {t} h e =
    let (f, rest, e2, e3, eq) = look_up-parts seen stored x ts h in
    let k = look_up-IsLookedUp (x.reservation_id ∷ seen) stored ts i e3 e in
    subst (λ (fs : List Found). IsLookedUp stored fs (suc i) t) eq
      (record {
        subject = k.subject;
        place = k.place;
        transition_eq = k.transition_eq;
        current_eq = k.current_eq;
      })

abbrev pub reconciles : Transition → Bool
reconciles t = t.patch.operation_reconciliation

pub look_up-reconciles :
    (seen : List (List ℕ)) (stored : List Reservation) (ts : List Transition) {found : List Found}
    → look_up seen stored ts ≡ ok found
    → any reconciles ts ≡ false
    → All (λ f. reconciles f.transition ≡ false) found
unfolding look_up
look_up-reconciles seen stored [] h n =
    subst (All (λ (f : Found). reconciles f.transition ≡ false)) (ok-eq h) tt
look_up-reconciles seen stored (x ∷ ts) h n =
    let (f, rest, e2, e3, eq) = look_up-parts seen stored x ts h in
    subst (All (λ (f : Found). reconciles f.transition ≡ false)) eq (
      ap reconciles (found_or_err-eq _ x e2).0 ∙ ground (arith, n),
      look_up-reconciles (x.reservation_id ∷ seen) stored ts e3 (ground (arith, n)),
    )
