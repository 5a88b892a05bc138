-- ===== src/Notes/Pairs/Best.antt =====
-- src/privacy/payload.js: the loops return a pair of the list, and no pair of it has a better total.
use clairveiljs.Prelude.{
  ℕ, ◌+◌, ◌≤◌, Bool, true, false, List, [], ◌∷◌, ◌==◌, Option, none, some, if◌then◌else◌, ◌≡◌, ◌≢◌,
  ◌⊎◌, inl, inr, refl, arith, Bool-cases,
}
use clairveiljs.Notes.Found.{FoundNote}
use clairveiljs.Notes.Order.{Collation}
use clairveiljs.Notes.Pairs.{
  Pair, better_sufficient_pair_candidate, better_merge_pair_candidate, improves, consider_pair,
  best_with, best_pair,
}

-- A note that stands in a list, and two that stand in this order.
abbrev pub At : FoundNote → List FoundNote → Type 0
At a [] = ⊥
At a (x ∷ xs) = (x ≡ a) ⊎ At a xs

abbrev pub Before : FoundNote → FoundNote → List FoundNote → Type 0
Before a b [] = ⊥
Before a b (x ∷ xs) = ((x ≡ a) × At b xs) ⊎ Before a b xs

module _ (accept : ℕ → Bool) (better : FoundNote → FoundNote → ℕ → Pair → Bool) where
  -- A pair that the loops may hold: its total is that of two notes with amounts, which `From` knows.
  abbrev pub IsPair : (FoundNote → FoundNote → Type 0) → Option Pair → Type 0
  IsPair From none = Unit {0}
  IsPair From (some pair) =
      From pair.left pair.right
      × (pair.left.note.amount ≢ 0)
      × (pair.right.note.amount ≢ 0)
      × (pair.total ≡ pair.left.note.amount + pair.right.note.amount)
      × (accept pair.total ≡ true)

  consider_pair-IsPair :
      (From : FoundNote → FoundNote → Type 0) (a b : FoundNote) (best : Option Pair)
      → From a b
      → a.note.amount ≢ 0
      → b.note.amount ≢ 0
      → IsPair From best
      → IsPair From (consider_pair accept better a b best)
  unfolding consider_pair
  consider_pair-IsPair From a b best from ha hb h =
      elim (Bool-cases (accept (a.note.amount + b.note.amount))) [
        | inr refused ↦ rw refused h
        | inl accepted ↦
            elim (Bool-cases (improves (better a b (a.note.amount + b.note.amount)) best)) [
              | inr worse ↦ rw (accepted, worse) h
              | inl better' ↦ rw (accepted, better') (from, ha, hb, refl, accepted)
            ]
      ]

  best_with-IsPair :
      (From : FoundNote → FoundNote → Type 0) (a : FoundNote) (notes : List FoundNote)
      (best : Option Pair)
      → ((b : FoundNote) → At b notes → From a b)
      → a.note.amount ≢ 0
      → IsPair From best
      → IsPair From (best_with accept better a notes best)
  unfolding best_with
  best_with-IsPair From a [] best from ha h = h
  best_with-IsPair From a (b ∷ notes) best from ha h = elim (Bool-cases (b.note.amount == 0)) [
    | inl none' ↦ rw none' (best_with-IsPair From a notes best (λ d at. from d (inr at)) ha h)
    | inr more ↦ rw more (
        best_with-IsPair From a notes (consider_pair accept better a b best)
          (λ d at. from d (inr at)) ha
          (consider_pair-IsPair From a b best (from b (inl refl)) ha (ground arith) h))
  ]

  pub best_pair-IsPair :
      (From : FoundNote → FoundNote → Type 0) (notes : List FoundNote) (best : Option Pair)
      → ((a b : FoundNote) → Before a b notes → From a b)
      → IsPair From best
      → IsPair From (best_pair accept better notes best)
  unfolding best_pair
  best_pair-IsPair From [] best from h = h
  best_pair-IsPair From (a ∷ notes) best from h = elim (Bool-cases (a.note.amount == 0)) [
    | inl none' ↦
        rw none' (best_pair-IsPair From notes best (λ d e before. from d e (inr before)) h)
    | inr more ↦ rw more (
        best_pair-IsPair From notes (best_with accept better a notes best)
          (λ d e before. from d e (inr before))
          (best_with-IsPair From a notes best (λ b at. from a b (inl (refl, at))) (ground arith) h))
  ]

-- An order of totals that the comparison of two pairs follows.
pub record Follows (better : FoundNote → FoundNote → ℕ → Pair → Bool) (NoWorse : ℕ → ℕ → Type 0)
    : Type 0 where
  pub no_worse_refl : (t : ℕ) → NoWorse t t
  pub no_worse_trans : (s t u : ℕ) → NoWorse s t → NoWorse t u → NoWorse s u
  pub of_better :
      (a b : FoundNote) (t : ℕ) (best : Pair) → better a b t best ≡ true → NoWorse t best.total
  pub of_not_better :
      (a b : FoundNote) (t : ℕ) (best : Pair) → better a b t best ≡ false → NoWorse best.total t

module _ (accept : ℕ → Bool) (better : FoundNote → FoundNote → ℕ → Pair → Bool)
    (NoWorse : ℕ → ℕ → Type 0) (order : Follows better NoWorse) where
  -- A pair is held whose total is no worse.
  abbrev pub Beats : ℕ → Option Pair → Type 0
  Beats t none = ⊥
  Beats t (some pair) = NoWorse pair.total t

  consider_pair-Beats :
      (a b : FoundNote) (best : Option Pair) (t : ℕ)
      → Beats t best
      → Beats t (consider_pair accept better a b best)
  unfolding consider_pair improves
  consider_pair-Beats a b none t h = absurd h
  consider_pair-Beats a b (some best) t h =
      let total = a.note.amount + b.note.amount in
      elim (Bool-cases (accept total)) [
        | inr refused ↦ rw refused h
        | inl accepted ↦ elim (Bool-cases (better a b total best)) [
          | inr worse ↦ rw (accepted, worse) h
          | inl better' ↦
              rw (accepted, better')
                (order.no_worse_trans total best.total t (order.of_better a b total best better') h)
        ]
      ]

  consider_pair-Beats_self :
      (a b : FoundNote) (best : Option Pair)
      → accept (a.note.amount + b.note.amount) ≡ true
      → Beats (a.note.amount + b.note.amount) (consider_pair accept better a b best)
  unfolding consider_pair improves
  consider_pair-Beats_self a b none accepted =
      rw accepted (order.no_worse_refl (a.note.amount + b.note.amount))
  consider_pair-Beats_self a b (some best) accepted =
      let total = a.note.amount + b.note.amount in
      elim (Bool-cases (better a b total best)) [
        | inr worse ↦ rw (accepted, worse) (order.of_not_better a b total best worse)
        | inl better' ↦ rw (accepted, better') (order.no_worse_refl total)
      ]

  best_with-Beats :
      (a : FoundNote) (notes : List FoundNote) (best : Option Pair) (t : ℕ)
      → Beats t best
      → Beats t (best_with accept better a notes best)
  unfolding best_with
  best_with-Beats a [] best t h = h
  best_with-Beats a (b ∷ notes) best t h = elim (Bool-cases (b.note.amount == 0)) [
    | inl empty ↦ rw empty (best_with-Beats a notes best t h)
    | inr more ↦ rw more (
        best_with-Beats a notes (consider_pair accept better a b best) t
          (consider_pair-Beats a b best t h))
  ]

  best_with-Beats-At :
      (a b : FoundNote) (notes : List FoundNote) (best : Option Pair)
      → At b notes
      → b.note.amount ≢ 0
      → accept (a.note.amount + b.note.amount) ≡ true
      → Beats (a.note.amount + b.note.amount) (best_with accept better a notes best)
  unfolding best_with
  best_with-Beats-At a b [] best at hb accepted = absurd at
  best_with-Beats-At a b (d ∷ notes) best (inl same) hb accepted =
      let some_amount : (b.note.amount == 0) ≡ false = ground arith in
      rw same (
        rw some_amount (
          best_with-Beats a notes (consider_pair accept better a b best)
            (a.note.amount + b.note.amount) (consider_pair-Beats_self a b best accepted)))
  best_with-Beats-At a b (d ∷ notes) best (inr at) hb accepted =
      best_with-Beats-At a b notes
        (if d.note.amount == 0 then best else consider_pair accept better a d best) at hb accepted

  best_pair-Beats :
      (notes : List FoundNote) (best : Option Pair) (t : ℕ)
      → Beats t best
      → Beats t (best_pair accept better notes best)
  unfolding best_pair
  best_pair-Beats [] best t h = h
  best_pair-Beats (a ∷ notes) best t h = elim (Bool-cases (a.note.amount == 0)) [
    | inl empty ↦ rw empty (best_pair-Beats notes best t h)
    | inr more ↦ rw more (
        best_pair-Beats notes (best_with accept better a notes best) t
          (best_with-Beats a notes best t h))
  ]

  -- No pair of the list has a better total than the one that is held at the end.
  pub best_pair-Beats-Before :
      (a b : FoundNote) (notes : List FoundNote) (best : Option Pair)
      → Before a b notes
      → a.note.amount ≢ 0
      → b.note.amount ≢ 0
      → accept (a.note.amount + b.note.amount) ≡ true
      → Beats (a.note.amount + b.note.amount) (best_pair accept better notes best)
  unfolding best_pair
  best_pair-Beats-Before a b [] best before ha hb accepted = absurd before
  best_pair-Beats-Before a b (d ∷ notes) best (inl (same, at)) ha hb accepted =
      let some_amount : (a.note.amount == 0) ≡ false = ground arith in
      rw same (
        rw some_amount (
          best_pair-Beats notes (best_with accept better a notes best)
            (a.note.amount + b.note.amount) (best_with-Beats-At a b notes best at hb accepted)))
  best_pair-Beats-Before a b (d ∷ notes) best (inr before) ha hb accepted =
      best_pair-Beats-Before a b notes
        (if d.note.amount == 0 then best else best_with accept better d notes best) before ha hb
        accepted

pub sufficient_follows :
    (locale : Collation) → Follows (better_sufficient_pair_candidate locale) (λ s t. s ≤ t)
unfolding better_sufficient_pair_candidate
sufficient_follows locale = record {
  no_worse_refl = λ t. omega arith;
  no_worse_trans = λ s t u h k. omega arith;
  of_better = λ a b t best h. ground arith;
  of_not_better = λ a b t best h. ground arith;
}

pub merge_follows :
    (locale : Collation) → Follows (better_merge_pair_candidate locale) (λ s t. t ≤ s)
unfolding better_merge_pair_candidate
merge_follows locale = record {
  no_worse_refl = λ t. omega arith;
  no_worse_trans = λ s t u h k. omega arith;
  of_better = λ a b t best h. ground arith;
  of_not_better = λ a b t best h. ground arith;
}
