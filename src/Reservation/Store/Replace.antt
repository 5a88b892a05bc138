-- ===== src/Reservation/Store/Replace.antt =====
-- What holds of every record after updated records are written back over those of their identities.
use clairveiljs.Prelude.{
  ℕ, Bool, true, false, List, [], ◌∷◌, All, any, ◌≡◌, refl, arith, Bool-cases, inl, inr,
}
use clairveiljs.Text.{codes_eq_iff}
use clairveiljs.Reservation.Record.{Reservation}
use clairveiljs.Reservation.Store.Conflict.{has_id}
use clairveiljs.Reservation.Store.Update.{replace, replace_all}
use clairveiljs.Reservation.Store.WellFormed.{HasFreshId, HasDistinctIds, All-map}

fresh_replace :
    (id : List ℕ) (r : Reservation) (st : List Reservation)
    → HasFreshId id st
    → HasFreshId id (replace r st)
unfolding replace
fresh_replace id r [] h = tt
fresh_replace id r (s ∷ st) h =
    ground (arith, fresh_replace id r st h.1, codes_eq_iff s.reservation_id r.reservation_id)

distinct_replace :
    (r : Reservation) (st : List Reservation) → HasDistinctIds st → HasDistinctIds (replace r st)
unfolding replace
distinct_replace r [] h = tt
distinct_replace r (s ∷ st) h = ground (
  arith,
  fresh_replace s.reservation_id r st h.0,
  distinct_replace r st h.1,
  codes_eq_iff s.reservation_id r.reservation_id,
)

pub distinct_replace_all :
    (us st : List Reservation) → HasDistinctIds st → HasDistinctIds (replace_all us st)
unfolding replace_all
distinct_replace_all [] st h = h
distinct_replace_all (r ∷ us) st h =
    distinct_replace_all us (replace r st) (distinct_replace r st h)

-- A record that no update replaces.
abbrev pub is_updated : List Reservation → Reservation → Bool
is_updated us s = any (λ u. has_id u.reservation_id s) us

module _ {κ} (Q : Reservation → Type κ) where
  fresh_keeps :
      (r : Reservation) (st : List Reservation)
      → HasFreshId r.reservation_id st
      → All (λ s. has_id r.reservation_id s ≡ false → Q s) st
      → All Q st
  fresh_keeps r [] f h = tt
  fresh_keeps r (s ∷ st) f h = (h.0 f.0, fresh_keeps r st f.1 h.1)

  All-replace :
      (r : Reservation) (st : List Reservation)
      → HasDistinctIds st
      → All (λ s. has_id r.reservation_id s ≡ false → Q s) st
      → Q r
      → All Q (replace r st)
  unfolding replace
  All-replace r [] d h q = tt
  All-replace r (s ∷ st) d h q = elim (Bool-cases (has_id r.reservation_id s)) [
    | inl same ↦ rw same (q, fresh_keeps s st d.0 (All-map (λ x k f. k (moved s x same f)) st h.1))
    | inr other ↦ rw other (h.0 other, All-replace r st d.1 h.1 q)
  ]
    where
      moved :
          (s x : Reservation)
          → has_id r.reservation_id s ≡ true
          → has_id s.reservation_id x ≡ false
          → has_id r.reservation_id x ≡ false
      moved s x same f = rw (← (codes_eq_iff s.reservation_id r.reservation_id).0 same) f

  replace-kept :
      (r : Reservation) (st : List Reservation)
      → All Q (replace r st)
      → All (λ s. has_id r.reservation_id s ≡ false → Q s) st
  unfolding replace
  replace-kept r [] h = tt
  replace-kept r (s ∷ st) h = elim (Bool-cases (has_id r.reservation_id s)) [
    | inl same ↦ let k : Q r × All Q st = rw same at h in ((λ e. cc), All-map (λ x q e. q) st k.1)
    | inr other ↦
        let k : Q s × All Q (replace r st) = rw other at h in ((λ e. k.0), replace-kept r st k.1)
  ]

-- Each updated record and each that was not replaced has the property.
pub All-replace_all {κ} :
    (Q : Reservation → Type κ) (us st : List Reservation)
    → HasDistinctIds st
    → All (λ s. is_updated us s ≡ false → Q s) st
    → All Q us
    → All Q (replace_all us st)
unfolding replace_all
All-replace_all Q [] st d h q = All-map (λ x k. k refl) st h
All-replace_all Q (r ∷ us) st d h q =
    All-replace_all Q us (replace r st) (distinct_replace r st d)
      (All-replace (λ s. is_updated us s ≡ false → Q s) r st d
        (All-map (λ s k f g. k (rw f g)) st h) (λ _. q.0))
      q.1

pub replace_all-kept {κ} :
    (Q : Reservation → Type κ) (us st : List Reservation)
    → All Q (replace_all us st)
    → All (λ s. is_updated us s ≡ false → Q s) st
unfolding replace_all
replace_all-kept Q [] st h = All-map (λ s q e. q) st h
replace_all-kept Q (r ∷ us) st h =
    All-map (λ s k e. k (ground arith) (ground arith)) st
      (replace-kept (λ s. is_updated us s ≡ false → Q s) r st
        (replace_all-kept Q us (replace r st) h))
