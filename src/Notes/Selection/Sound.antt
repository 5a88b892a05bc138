-- ===== src/Notes/Selection/Sound.antt =====
-- src/privacy/payload.js: what is selected for a transfer.
use clairveiljs.Prelude.{
  ℕ, zero, suc, ◌+◌, ◌≤◌, ◌<◌, Bool, true, false, List, [], ◌∷◌, ltb, leb, ◌==◌, ==_iff, le→leb,
  Option, none, some, if◌then◌else◌, get_elem?, ◌≡◌, ◌≢◌, ◌⊎◌, inl, inr, refl, sym, ap, ◌∙◌, subst,
  arith, Bool-cases, ne_of_==,
}
use clairveiljs.Notes.Found.{FoundNote}
use clairveiljs.Notes.Order.{Collation, amount_of}
use clairveiljs.Notes.Pairs.{
  Pair, max_shielded_amount, final_transfer_outputs_within_bound, better_sufficient_pair_candidate,
  better_merge_pair_candidate, best_pair,
}
use clairveiljs.Notes.Pairs.Best.{
  At, Before, Beats, IsPair, best_pair-IsPair, best_pair-Beats-Before, sufficient_follows,
  merge_follows,
}
use clairveiljs.Notes.Selection.{
  Selection, find_zero_note, note_at, single_selection, select_single, pair_selection,
  merge_or_nothing, pair_or_merge, single_or_pair, select_inputs,
}

-- Two notes of a list, at different places.
abbrev pub Apart : FoundNote → FoundNote → List FoundNote → Type 0
Apart a b notes = Before a b notes ⊎ Before b a notes

get_elem?-At :
    (notes : List FoundNote) (i : ℕ) {a : FoundNote} → get_elem? notes i ≡ some a → At a notes
get_elem?-At [] i h = cc
get_elem?-At (x ∷ notes) zero h = inl (cc)
get_elem?-At (x ∷ notes) (suc i) h = inr (get_elem?-At notes i h)

get_elem?-Before :
    (notes : List FoundNote) (i j : ℕ) {a b : FoundNote}
    → i < j
    → get_elem? notes i ≡ some a
    → get_elem? notes j ≡ some b
    → Before a b notes
get_elem?-Before [] i j lt h k = cc
get_elem?-Before (x ∷ notes) i zero lt h k = absurd (omega arith)
get_elem?-Before (x ∷ notes) zero (suc j) lt h k = inl (cc, get_elem?-At notes j k)
get_elem?-Before (x ∷ notes) (suc i) (suc j) lt h k =
    inr (get_elem?-Before notes i j (omega arith) h k)

get_elem?-Apart :
    (notes : List FoundNote) (i j : ℕ) {a b : FoundNote}
    → i ≢ j
    → get_elem? notes i ≡ some a
    → get_elem? notes j ≡ some b
    → Apart a b notes
get_elem?-Apart notes i j ne h k = elim (Bool-cases (ltb i j)) [
  | inl before ↦ inl (get_elem?-Before notes i j (ground arith) h k)
  | inr behind ↦ inr (get_elem?-Before notes j i (ground arith) k h)
]

-- The place `j` of a note without an amount, `i` being that of the first note.
record IsZeroAt (exclude i : ℕ) (notes : List FoundNote) (j : ℕ) : Type 0 where
  steps : ℕ
  zero_note : FoundNote
  place : j ≡ i + steps
  other : j ≢ exclude
  found : get_elem? notes steps ≡ some zero_note
  no_amount : zero_note.note.amount ≡ 0

find_zero_note-some :
    (exclude i : ℕ) (notes : List FoundNote) {j : ℕ}
    → find_zero_note exclude i notes ≡ some j
    → IsZeroAt exclude i notes j
unfolding find_zero_note
find_zero_note-some exclude i [] h = absurd (cc)
find_zero_note-some exclude i (x ∷ notes) {j} h = elim (Bool-cases (i == exclude)) [
  | inl excluded ↦ later (find_zero_note-some exclude (suc i) notes (rw excluded at h))
  | inr included ↦ elim (Bool-cases (x.note.amount == 0)) [
    | inr amount ↦ later (find_zero_note-some exclude (suc i) notes (rw (included, amount) at h))
    | inl empty ↦ record {
      steps = 0;
      zero_note = x;
      place = here (rw (included, empty) at h);
      other = λ e. ne_of_== i exclude included (omega (arith, here (rw (included, empty) at h)));
      found = refl;
      no_amount = (==_iff x.note.amount 0).0 empty;
    }
  ]
]
  where
    later : IsZeroAt exclude (suc i) notes j → IsZeroAt exclude i (x ∷ notes) j
    later z = record {
      steps = suc z.steps;
      zero_note = z.zero_note;
      place = omega (arith, z.place);
      other = z.other;
      found = z.found;
      no_amount = z.no_amount;
    }

    here : some i ≡ some j → j ≡ i + 0
    here e = ground arith

-- What a selection of two notes meets.
pub record IsSufficient (notes : List FoundNote) (target : ℕ) (s : Selection) : Type 0 where
  pub first : FoundNote
  pub second : FoundNote
  pub inputs_eq : s.inputs ≡ first ∷ second ∷ []
  pub apart : Apart first second notes
  pub total_eq : s.total ≡ first.note.amount + second.note.amount
  pub enough : target ≤ s.total
  pub change_le : s.total ≤ target + max_shielded_amount
  pub no_dummy : s.needs_zero_dummy ≡ false

within_bounds :
    (total target : ℕ)
    → final_transfer_outputs_within_bound total target ≡ true
    → (target ≤ total) × (total ≤ target + max_shielded_amount)
unfolding final_transfer_outputs_within_bound
within_bounds total target h = ground arith

-- The two ways in which a round of the loop returns a selection.
round_of :
    (suffices : Bool) (found_zero : Option FoundNote) (next : Option Selection × Bool)
    (found : FoundNote) {s : Selection}
    → (if suffices
        then elim found_zero as (λ _. Option Selection × Bool) [
          | none ↦ next
          | some zero_note ↦ (some (single_selection found zero_note), false)
        ]
        else next).0
      ≡ some s
    → (next.0 ≡ some s)
      ⊎ ((suffices ≡ true)
          × ((zero_note : FoundNote) × (found_zero ≡ some zero_note)
              × (s ≡ single_selection found zero_note)))
round_of false found_zero next found h = inl h
round_of true none next found h = inl h
round_of true (some zero_note) next found h = inr (refl, (zero_note, refl, cc))

note_at-some :
    (notes : List FoundNote) (place : Option ℕ) {found : FoundNote}
    → note_at notes place ≡ some found
    → (j : ℕ) × (place ≡ some j) × (get_elem? notes j ≡ some found)
unfolding note_at
note_at-some notes none h = absurd (cc)
note_at-some notes (some j) h = (j, refl, h)

some-eq : {a b : FoundNote} → some a ≡ some b → a ≡ b
some-eq h = cc

-- A note and one without an amount are a selection of two notes.
single-IsSufficient :
    (target : ℕ) (notes : List FoundNote) (i : ℕ) (found zero_note : FoundNote)
    → get_elem? notes i ≡ some found
    → final_transfer_outputs_within_bound found.note.amount target ≡ true
    → note_at notes (find_zero_note i 0 notes) ≡ some zero_note
    → IsSufficient notes target (single_selection found zero_note)
single-IsSufficient target notes i found zero_note here suffices somewhere =
    let (j, place, there) = note_at-some notes (find_zero_note i 0 notes) somewhere in
    let z = find_zero_note-some i 0 notes place in
    let place_eq : z.steps ≡ j = omega (arith, z.place) in
    let same = some-eq (sym there ∙ ap (λ (n : ℕ). get_elem? notes n) (sym place_eq) ∙ z.found) in
    let (enough, change) = within_bounds found.note.amount target suffices in
    record {
      first = found;
      second = zero_note;
      inputs_eq = refl;
      apart = get_elem?-Apart notes i j (λ e. z.other (sym e)) here there;
      total_eq = omega (arith, ap amount_of same, z.no_amount);
      enough = enough;
      change_le = change;
      no_dummy = refl;
    }

-- The list from the place `i` on is that of the loop.
select_single-some :
    (target : ℕ) (all_notes : List FoundNote) (i : ℕ) (notes : List FoundNote)
    (requires_dummy : Bool) {s : Selection}
    → ((k : ℕ) → get_elem? all_notes (i + k) ≡ get_elem? notes k)
    → (select_single target all_notes i notes requires_dummy).0 ≡ some s
    → (s.is_final ≡ true) × IsSufficient all_notes target s
unfolding select_single
select_single-some target all_notes i [] requires_dummy same h = absurd (cc)
select_single-some target all_notes i (x ∷ notes) requires_dummy {s} same h =
    let suffices = final_transfer_outputs_within_bound x.note.amount target in
    let dummy = if suffices then true else requires_dummy in
    elim (round_of suffices (note_at all_notes (find_zero_note i 0 all_notes))
      (select_single target all_notes (suc i) notes dummy) x h) [
        | inl later ↦ select_single-some target all_notes (suc i) notes dummy shifted later
        | inr (enough, (zero_note, somewhere, eq)) ↦
            subst (λ (t : Selection). (t.is_final ≡ true) × IsSufficient all_notes target t)
              (sym eq)
              (refl, single-IsSufficient target all_notes i x zero_note here enough somewhere)
      ]
  where
    shifted : (k : ℕ) → get_elem? all_notes (suc i + k) ≡ get_elem? notes k
    shifted k = ap (λ (n : ℕ). get_elem? all_notes n) (omega arith) ∙ same (suc k)

    here : get_elem? all_notes i ≡ some x
    here = ap (λ (n : ℕ). get_elem? all_notes n) (omega arith) ∙ same 0

-- The tests and the comparisons of the two pairs of loops.
abbrev pub is_sufficient : ℕ → ℕ → Bool
is_sufficient target total = final_transfer_outputs_within_bound total target

abbrev pub is_mergeable : ℕ → Bool
is_mergeable total = leb total max_shielded_amount

module _ (locale : Collation) (notes : List FoundNote) (target : ℕ) where
  abbrev single : Option Selection × Bool
  single = select_single target notes 0 notes false

  abbrev sufficient : Option Pair
  sufficient = best_pair (is_sufficient target) (better_sufficient_pair_candidate locale) notes none

  abbrev merge : Option Pair
  merge = best_pair is_mergeable (better_merge_pair_candidate locale) notes none

  -- A pair that the loops hold is a selection of two notes.
  pair-IsSufficient :
      (pair : Pair) → sufficient ≡ some pair → IsSufficient notes target (pair_selection true pair)
  pair-IsSufficient pair held =
      let better = better_sufficient_pair_candidate locale in
      let (before, _, _, total, accepted) =
        subst (IsPair (is_sufficient target) better (λ a b. Before a b notes)) held (
          best_pair-IsPair (is_sufficient target) better (λ a b. Before a b notes) notes none
            (λ a b before. before) tt) in
      let (enough, change) = within_bounds pair.total target accepted in
      record {
        first = pair.left;
        second = pair.right;
        inputs_eq = refl;
        apart = inl before;
        total_eq = total;
        enough = enough;
        change_le = change;
        no_dummy = refl;
      }

  single-final :
      {s : Selection} → single.0 ≡ some s → (s.is_final ≡ true) × IsSufficient notes target s
  single-final h =
      select_single-some target notes 0 notes false (λ k. ap (get_elem? notes) (omega arith)) h

  -- What is selected of the results of the loops.
  chosen-IsSufficient :
      (first : Option Selection × Bool) (pair merged : Option Pair)
      → ((s : Selection) → first.0 ≡ some s → IsSufficient notes target s)
      → ((p : Pair) → pair ≡ some p → IsSufficient notes target (pair_selection true p))
      → (single_or_pair first pair merged).is_final ≡ true
      → IsSufficient notes target (single_or_pair first pair merged)
  unfolding single_or_pair pair_or_merge merge_or_nothing
  chosen-IsSufficient (some s, dummy) pair merged of_single of_pair final = of_single s refl
  chosen-IsSufficient (none, dummy) (some p) merged of_single of_pair final = of_pair p refl
  chosen-IsSufficient (none, dummy) none (some p) of_single of_pair final = absurd (cc)
  chosen-IsSufficient (none, dummy) none none of_single of_pair final = absurd (cc)

  -- A final selection has two notes that can be spent, at different places of the list; its total is
  -- theirs, and leaves the receiver the target and the sender an amount of a note.
  pub select_inputs-IsSufficient :
      (select_inputs locale notes target).is_final ≡ true
      → IsSufficient notes target (select_inputs locale notes target)
  unfolding select_inputs
  select_inputs-IsSufficient final =
      chosen-IsSufficient single sufficient merge (λ s h. (single-final h).1) pair-IsSufficient
        final

  chosen-final :
      (first : Option Selection × Bool) (pair merged : Option Pair) (t : ℕ)
      → ((s : Selection) → first.0 ≡ some s → s.is_final ≡ true)
      → Beats
          (is_sufficient target)
          (better_sufficient_pair_candidate locale)
          (λ s t. s ≤ t)
          (sufficient_follows locale)
          t
          pair
      → ((single_or_pair first pair merged).is_final ≡ true)
        × ((first.0 ≢ none) ⊎ ((single_or_pair first pair merged).total ≤ t))
  unfolding single_or_pair pair_or_merge
  chosen-final (some s, dummy) pair merged t of_single beats = (of_single s refl, inl (λ e. cc))
  chosen-final (none, dummy) (some p) merged t of_single beats = (refl, inr beats)
  chosen-final (none, dummy) none merged t of_single beats = absurd beats

  -- If two notes with amounts suffice, the selection is final, and unless one note and another
  -- without an amount are selected, its total is no larger than theirs.
  pub select_inputs-total_le :
      (a b : FoundNote)
      → Before a b notes
      → a.note.amount ≢ 0
      → b.note.amount ≢ 0
      → final_transfer_outputs_within_bound (a.note.amount + b.note.amount) target ≡ true
      → ((select_inputs locale notes target).is_final ≡ true)
        × (((select_single target notes 0 notes false).0 ≢ none)
            ⊎ ((select_inputs locale notes target).total ≤ a.note.amount + b.note.amount))
  unfolding select_inputs
  select_inputs-total_le a b before ha hb accepted =
      chosen-final single sufficient merge (a.note.amount + b.note.amount)
        (λ s h. (single-final h).0)
        (best_pair-Beats-Before (is_sufficient target) (better_sufficient_pair_candidate locale)
          (λ s t. s ≤ t) (sufficient_follows locale) a b notes none before ha hb accepted)

  chosen-merge :
      (first : Option Selection × Bool) (pair merged : Option Pair) (t : ℕ)
      → ((s : Selection) → first.0 ≡ some s → s.is_final ≡ true)
      → Beats is_mergeable
          (better_merge_pair_candidate locale)
          (λ s t. t ≤ s)
          (merge_follows locale)
          t
          merged
      → (single_or_pair first pair merged).is_final ≡ false
      → (pair ≡ none) × (t ≤ (single_or_pair first pair merged).total)
  unfolding single_or_pair pair_or_merge merge_or_nothing
  chosen-merge (some s, dummy) pair merged t of_single beats open' =
      absurd (true_false (sym (of_single s refl) ∙ open'))
    where
      true_false : true ≡ false → ⊥
      true_false e = cc
  chosen-merge (none, dummy) (some p) merged t of_single beats open' = absurd (cc)
  chosen-merge (none, dummy) none (some p) t of_single beats open' = (refl, beats)
  chosen-merge (none, dummy) none none t of_single beats open' = absurd beats

  -- If a selection is not final, then for any two notes with amounts and with a total that one note
  -- can hold, the two do not suffice, and the total of the selection is at least theirs.
  pub select_inputs-merge :
      (a b : FoundNote)
      → Before a b notes
      → a.note.amount ≢ 0
      → b.note.amount ≢ 0
      → a.note.amount + b.note.amount ≤ max_shielded_amount
      → (select_inputs locale notes target).is_final ≡ false
      → (final_transfer_outputs_within_bound (a.note.amount + b.note.amount) target ≡ false)
        × (a.note.amount + b.note.amount ≤ (select_inputs locale notes target).total)
  unfolding select_inputs
  select_inputs-merge a b before ha hb fits open' =
      let (no_pair, most) =
        chosen-merge single sufficient merge (a.note.amount + b.note.amount)
          (λ s h. (single-final h).0)
          (best_pair-Beats-Before is_mergeable (better_merge_pair_candidate locale) (λ s t. t ≤ s)
            (merge_follows locale) a b notes none before ha hb
            (le→leb (a.note.amount + b.note.amount) max_shielded_amount fits))
          open' in
      (refused no_pair, most)
    where
      refused :
          sufficient ≡ none
          → final_transfer_outputs_within_bound (a.note.amount + b.note.amount) target ≡ false
      refused no_pair = elim (Bool-cases (is_sufficient target (a.note.amount + b.note.amount))) [
        | inr short ↦ short
        | inl accepted ↦ absurd (
            subst
              (Beats (is_sufficient target) (better_sufficient_pair_candidate locale) (λ s t. s ≤ t)
                (sufficient_follows locale) (a.note.amount + b.note.amount))
              no_pair
              (best_pair-Beats-Before (is_sufficient target)
                (better_sufficient_pair_candidate locale) (λ s t. s ≤ t) (sufficient_follows locale)
                a b notes none before ha hb accepted))
      ]
