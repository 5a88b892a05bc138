-- ===== src/Reservation/Store/Reload.antt =====
-- src/privacy/reservation.js, `normalizeState`: the scan of a stored list accepts exactly sound lists.
use clairveiljs.Prelude.{
  ℕ, Bool, true, false, not, ◌&&◌, List, [], ◌∷◌, All, any, ok, >>=-eq-ok, reject, ◌≡◌, refl, arith,
  ◌∙◌, sym, if◌then◌else◌, ◌↔◌,
}
use clairveiljs.Text.{codes_eq, codes_eq_iff}
use clairveiljs.Reservation.Status.{is_active_reservation_status}
use clairveiljs.Reservation.Record.{Reservation}
use clairveiljs.Reservation.Store.Conflict.{
  active_key, same_key, is_active, is_spent, has_id, assert_state_from,
}
use clairveiljs.Reservation.Store.WellFormed.{
  HasFreshId, HasDistinctIds, IsWellFormed, BetweenAll, locks_twice, locks_spent, All-map,
  has_id_sym,
}
use clairveiljs.Reservation.Store.Unique.{Apart, locks_twice_sym}

-- The record clashes with none of those that the scan has seen.
record IsClear (ids actives spents : List (List ℕ)) (r : Reservation) : Type 0 where
  fresh : any (codes_eq r.reservation_id) ids ≡ false
  alone : (is_active r && any (codes_eq (active_key r)) actives) ≡ false
  unspent : (is_active r && any (codes_eq (active_key r)) spents) ≡ false
  unlocked : (is_spent r && any (codes_eq (active_key r)) actives) ≡ false

spent-inactive : (r : Reservation) → is_spent r ≡ true → is_active r ≡ false
unfolding is_active_reservation_status
spent-inactive r h = ground arith

same_key_sym : (r s : Reservation) → same_key r s ≡ same_key s r
same_key_sym r s =
    ground (
      arith,
      codes_eq_iff (active_key r) (active_key s),
      codes_eq_iff (active_key s) (active_key r),
    )

-- The keys that the scan has seen after one more record.
abbrev seen_active : Reservation → List (List ℕ) → List (List ℕ)
seen_active r actives = if is_active r then active_key r ∷ actives else actives

abbrev seen_spent : Reservation → List (List ℕ) → List (List ℕ)
seen_spent r spents = if not (is_active r) && is_spent r then active_key r ∷ spents else spents

record ClashesNot (r s : Reservation) : Type 0 where
  other : has_id r.reservation_id s ≡ false
  twice : locks_twice r s ≡ false
  spent : locks_spent r s ≡ false
  locked : locks_spent s r ≡ false

module _ (ids actives spents : List (List ℕ)) (r s : Reservation) where
  IsClear-after :
      IsClear ids actives spents s
      → ClashesNot r s
      → IsClear (r.reservation_id ∷ ids) (seen_active r actives) (seen_spent r spents) s
  IsClear-after c k = record {
    fresh = ground (arith, c.fresh, k.other);
    alone = ground (arith, c.alone, k.twice);
    unspent = ground (arith, c.unspent, k.locked, spent-inactive r, same_key_sym r s);
    unlocked = ground (arith, c.unlocked, k.spent);
  }

  IsClear-before :
      IsClear (r.reservation_id ∷ ids) (seen_active r actives) (seen_spent r spents) s
      → IsClear ids actives spents s × ClashesNot r s
  IsClear-before c = (
    record {
      fresh = ground (arith, c.fresh);
      alone = ground (arith, c.alone);
      unspent = ground (arith, c.unspent);
      unlocked = ground (arith, c.unlocked);
    },
    record {
      other = ground (arith, c.fresh);
      twice = ground (arith, c.alone);
      spent = ground (arith, c.unlocked);
      locked = ground (arith, c.unspent, spent-inactive r, same_key_sym r s);
    },
  )

  scan_step :
      IsClear ids actives spents r
      → (rest : List Reservation)
      → assert_state_from ids actives spents (r ∷ rest)
        ≡ assert_state_from
            (r.reservation_id ∷ ids)
            (seen_active r actives)
            (seen_spent r spents)
            rest
  unfolding assert_state_from
  scan_step c rest = ground (arith, c.fresh, c.alone, c.unspent, c.unlocked)

-- A scan that goes through starts with a record that clashes with none before it.
scan_head :
    (ids actives spents : List (List ℕ)) (r : Reservation) (rest : List Reservation)
    → assert_state_from ids actives spents (r ∷ rest) ≡ ok tt
    → IsClear ids actives spents r
unfolding assert_state_from
scan_head ids actives spents r rest h =
    let (u0, e0, h0) = >>=-eq-ok (reject (any (codes_eq r.reservation_id) ids) _) _ h in
    let (u1, e1, h1) =
      >>=-eq-ok (reject (is_active r && any (codes_eq (active_key r)) actives) _) _ h0 in
    let (u2, e2, h2) =
      >>=-eq-ok (reject (is_active r && any (codes_eq (active_key r)) spents) _) _ h1 in
    let (u3, e3, h3) =
      >>=-eq-ok
        (reject ((not (is_active r) && is_spent r) && any (codes_eq (active_key r)) actives) _) _
        h2 in
    record {
      fresh = ground (arith, e0);
      alone = ground (arith, e1);
      unspent = ground (arith, e2);
      unlocked = ground (arith, e3, spent-inactive r);
    }

-- No two records of the list clash.
ClashFree : List Reservation → Type 0
ClashFree [] = Unit {0}
ClashFree (r ∷ rs) = All (ClashesNot r) rs × ClashFree rs

scan_passes :
    (ids actives spents : List (List ℕ)) (rs : List Reservation)
    → All (IsClear ids actives spents) rs
    → ClashFree rs
    → assert_state_from ids actives spents rs ≡ ok tt
unfolding ClashFree assert_state_from
scan_passes ids actives spents [] c f = refl
scan_passes ids actives spents (r ∷ rs) c f =
    scan_step ids actives spents r r c.0 rs
    ∙ scan_passes (r.reservation_id ∷ ids) (seen_active r actives) (seen_spent r spents) rs
        (joined rs c.1 f.0) f.1
  where
    joined :
        (ss : List Reservation)
        → All (IsClear ids actives spents) ss
        → All (ClashesNot r) ss
        → All (IsClear (r.reservation_id ∷ ids) (seen_active r actives) (seen_spent r spents)) ss
    joined [] a b = tt
    joined (s ∷ ss) a b = (IsClear-after ids actives spents r s a.0 b.0, joined ss a.1 b.1)

scan_clears :
    (ids actives spents : List (List ℕ)) (rs : List Reservation)
    → assert_state_from ids actives spents rs ≡ ok tt
    → All (IsClear ids actives spents) rs × ClashFree rs
unfolding ClashFree
scan_clears ids actives spents [] h = (tt, tt)
scan_clears ids actives spents (r ∷ rs) h =
    let c = scan_head ids actives spents r rs h in
    let k =
      scan_clears (r.reservation_id ∷ ids) (seen_active r actives) (seen_spent r spents) rs
        (sym (scan_step ids actives spents r r c rs) ∙ h) in
    let b = All-map (λ s q. IsClear-before ids actives spents r s q) rs k.0 in
    ((c, All-map (λ s q. q.0) rs b), (All-map (λ s q. q.1) rs b, k.1))

-- A list without clashes, as the invariant of the store says it.
ClashFree-distinct : (rs : List Reservation) → ClashFree rs → HasDistinctIds rs
unfolding ClashFree
ClashFree-distinct [] f = tt
ClashFree-distinct (r ∷ rs) f =
    (All-map (λ s k. ClashesNot.other k) rs f.0, ClashFree-distinct rs f.1)

same_id : (r : Reservation) → has_id r.reservation_id r ≡ true
same_id r = (codes_eq_iff r.reservation_id r.reservation_id).1 refl

between :
    (clash : Reservation → Reservation → Bool) (rs : List Reservation)
    → ((r s : Reservation) → ClashesNot r s → (clash r s ≡ false) × (clash s r ≡ false))
    → ClashFree rs
    → BetweenAll clash rs rs
unfolding ClashFree
between clash [] g f = tt
between clash (r ∷ rs) g f = (
  ((λ d. ground (arith, d, same_id r)), All-map (λ s k d. (g r s k).0) rs f.0),
  joined rs (All-map (λ s k d. (g r s k).1) rs f.0) (between clash rs g f.1),
)
  where
    joined :
        (ss : List Reservation)
        → All (λ s. Apart clash s r) ss
        → BetweenAll clash ss rs
        → BetweenAll clash ss (r ∷ rs)
    joined [] a b = tt
    joined (s ∷ ss) a b = ((a.0, b.0), joined ss a.1 b.1)

between-tail :
    (clash : Reservation → Reservation → Bool) (ss : List Reservation) (r : Reservation)
    (rs : List Reservation)
    → BetweenAll clash ss (r ∷ rs)
    → BetweenAll clash ss rs
between-tail clash ss r rs b = All-map (λ s k. k.1) ss b

ClashFree-of :
    (rs : List Reservation)
    → HasDistinctIds rs
    → BetweenAll locks_twice rs rs
    → BetweenAll locks_spent rs rs
    → ClashFree rs
unfolding ClashFree
ClashFree-of [] d t p = tt
ClashFree-of (r ∷ rs) d t p = (
  each rs d.0 t.0.1 p.0.1 (All-map (λ s k. k.0) rs p.1),
  ClashFree-of rs d.1 (between-tail locks_twice rs r rs t.1) (between-tail locks_spent rs r rs p.1),
)
  where
    each :
        (ss : List Reservation)
        → HasFreshId r.reservation_id ss
        → All (λ s. Apart locks_twice r s) ss
        → All (λ s. Apart locks_spent r s) ss
        → All (λ s. Apart locks_spent s r) ss
        → All (ClashesNot r) ss
    each [] f a b c = tt
    each (s ∷ ss) f a b c = (
      record { other = f.0; twice = a.0 f.0; spent = b.0 f.0; locked = c.0 (has_id_sym s r ∙ f.0) },
      each ss f.1 a.1 b.1 c.1,
    )

nothing_seen : (rs : List Reservation) → All (IsClear [] [] []) rs
nothing_seen [] = tt
nothing_seen (r ∷ rs) = (
  record { fresh = refl; alone = ground arith; unspent = ground arith; unlocked = ground arith },
  nothing_seen rs,
)

-- For records with identities that are not empty, the scan of a stored list goes through exactly when
-- the list is well-formed.
pub assert_state_from-IsWellFormed :
    (rs : List Reservation)
    → All (λ r. codes_eq r.reservation_id [] ≡ false) rs
    → (assert_state_from [] [] [] rs ≡ ok tt) ↔ IsWellFormed rs
assert_state_from-IsWellFormed rs named = (
  (λ h.
      let f = (scan_clears [] [] [] rs h).1 in
      record {
        unique = record {
          distinct = ClashFree-distinct rs f;
          locked_once =
              between locks_twice rs
                (λ r s k. (ClashesNot.twice k, locks_twice_sym s r ∙ ClashesNot.twice k)) f;
        };
        unspent = between locks_spent rs (λ r s k. (ClashesNot.spent k, ClashesNot.locked k)) f;
        named = named;
      }),
  (λ w.
      scan_passes [] [] [] rs (nothing_seen rs)
        (ClashFree-of rs w.unique.distinct w.unique.locked_once w.unspent)),
)
