-- ===== src/Notes/Pairs.antt =====
-- src/privacy/payload.js: the best pair of notes with amounts, by two loops over a list of notes.
pub mod Best
use clairveiljs.Prelude.{
  ℕ, zero, suc, ◌+◌, ◌-◌, ◌^◌, Bool, true, false, ◌&&◌, ◌||◌, not, List, [], ◌∷◌, ltb, leb, ◌==◌,
  Option, none, some, if◌then◌else◌,
}
use clairveiljs.Notes.Found.{FoundNote}
use clairveiljs.Notes.Order.{Collation, found_note_planner_less}

abbrev pub max_shielded_amount : ℕ
max_shielded_amount = 2 ^ 64 - 1

-- What goes to the receiver and what is left are amounts of notes.
unfoldable pub final_transfer_outputs_within_bound : ℕ → ℕ → Bool
final_transfer_outputs_within_bound total target =
    if ltb max_shielded_amount target
    then false
    else if ltb total target
    then false
    else leb (total - target) max_shielded_amount

pub record Pair : Type 0 where
  pub left : FoundNote
  pub right : FoundNote
  pub total : ℕ

-- The order of two pairs with equal totals: `before` is the order of amounts.
unfoldable pub better_by_notes : (ℕ → ℕ → Bool) → Collation → FoundNote → FoundNote → Pair → Bool
better_by_notes before locale left right best =
    if not (right.note.amount == best.right.note.amount)
    then before right.note.amount best.right.note.amount
    else if not (left.note.amount == best.left.note.amount)
    then before left.note.amount best.left.note.amount
    else if found_note_planner_less locale left best.left
    then true
    else if found_note_planner_less locale best.left left
    then false
    else found_note_planner_less locale right best.right

unfoldable pub better_sufficient_pair_candidate :
    Collation → FoundNote → FoundNote → ℕ → Pair → Bool
better_sufficient_pair_candidate locale left right total best =
    if not (total == best.total)
    then ltb total best.total
    else better_by_notes ltb locale left right best

unfoldable pub better_merge_pair_candidate : Collation → FoundNote → FoundNote → ℕ → Pair → Bool
better_merge_pair_candidate locale left right total best =
    if not (total == best.total)
    then ltb best.total total
    else better_by_notes (λ a b. ltb b a) locale left right best

-- `!best || better(...)`
unfoldable pub improves : (Pair → Bool) → Option Pair → Bool
improves better none = true
improves better (some best) = better best

-- The body of the loops, for notes whose amounts are not zero.
unfoldable pub consider_pair :
    (ℕ → Bool)
    → (FoundNote → FoundNote → ℕ → Pair → Bool)
    → FoundNote
    → FoundNote
    → Option Pair
    → Option Pair
consider_pair accept better left right best =
    let total = left.note.amount + right.note.amount in
    if accept total && improves (better left right total) best
    then some (record { left = left; right = right; total = total })
    else best

-- The loop over `j`.
unfoldable pub best_with :
    (ℕ → Bool)
    → (FoundNote → FoundNote → ℕ → Pair → Bool)
    → FoundNote
    → List FoundNote
    → Option Pair
    → Option Pair
best_with accept better left [] best = best
best_with accept better left (right ∷ notes) best =
    best_with accept better left notes
      (if right.note.amount == 0 then best else consider_pair accept better left right best)

-- The loop over `i`.
unfoldable pub best_pair :
    (ℕ → Bool)
    → (FoundNote → FoundNote → ℕ → Pair → Bool)
    → List FoundNote
    → Option Pair
    → Option Pair
best_pair accept better [] best = best
best_pair accept better (left ∷ notes) best =
    best_pair accept better notes
      (if left.note.amount == 0 then best else best_with accept better left notes best)
