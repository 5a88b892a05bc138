-- ===== src/Reservation/Store/WellFormed.antt =====
-- When a list of records is one that the store may hold: no identity twice, no note locked twice,
-- and no note locked that is confirmed as spent.
use clairveiljs.Prelude.{ℕ, Bool, false, ◌&&◌, List, [], ◌∷◌, ◌++◌, All, any, ◌≡◌, arith}
use clairveiljs.Text.{codes_eq, codes_eq_iff}
use clairveiljs.Reservation.Record.{Reservation}
use clairveiljs.Reservation.Store.Conflict.{same_key, is_active, is_spent, has_id}

-- Two records lock one note, or one locks a note that the other has as spent.
abbrev pub locks_twice : Reservation → Reservation → Bool
locks_twice a b = is_active a && is_active b && same_key b a

abbrev pub locks_spent : Reservation → Reservation → Bool
locks_spent a b = is_active a && is_spent b && same_key b a

abbrev pub HasFreshId : List ℕ → List Reservation → Type 0
HasFreshId id rs = All (λ s. has_id id s ≡ false) rs

abbrev pub HasDistinctIds : List Reservation → Type 0
HasDistinctIds [] = Unit {0}
HasDistinctIds (r ∷ rs) = HasFreshId r.reservation_id rs × HasDistinctIds rs

-- A relation that holds between any two records with different identities.
abbrev pub BetweenAll :
    (Reservation → Reservation → Bool) → List Reservation → List Reservation → Type 0
BetweenAll clash as' bs =
    All (λ a. All (λ b. has_id a.reservation_id b ≡ false → clash a b ≡ false) bs) as'

pub record HasUniqueLocks (rs : List Reservation) : Type 0 where
  pub distinct : HasDistinctIds rs
  pub locked_once : BetweenAll locks_twice rs rs

pub record IsWellFormed (rs : List Reservation) : Type 0 where
  pub unique : HasUniqueLocks rs
  pub unspent : BetweenAll locks_spent rs rs
  pub named : All (λ r. codes_eq r.reservation_id [] ≡ false) rs

module _ {ℓ} {A : Type ℓ} where
  pub All-map {κ μ} :
      {P : A → Type κ} {Q : A → Type μ}
      → ((a : A) → P a → Q a)
      → (xs : List A) → All P xs
      → All Q xs
  All-map f [] h = tt
  All-map f (x ∷ xs) h = (f x h.0, All-map f xs h.1)

  pub All-append {κ} : (P : A → Type κ) (xs ys : List A) → All P xs → All P ys → All P (xs ++ ys)
  All-append P [] ys h k = k
  All-append P (x ∷ xs) ys h k = (h.0, All-append P xs ys h.1 k)

  pub All_of_any : (p : A → Bool) (xs : List A) → any p xs ≡ false → All (λ x. p x ≡ false) xs
  All_of_any p [] h = tt
  All_of_any p (x ∷ xs) h = (ground arith, All_of_any p xs (ground arith))

pub has_id_sym : (a b : Reservation) → has_id a.reservation_id b ≡ has_id b.reservation_id a
has_id_sym a b = ground (
  arith,
  codes_eq_iff a.reservation_id b.reservation_id,
  codes_eq_iff b.reservation_id a.reservation_id,
)
