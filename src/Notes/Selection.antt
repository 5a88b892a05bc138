-- ===== src/Notes/Selection.antt =====
-- src/privacy/payload.js: the two inputs of a transfer.
pub mod Sound
use clairveiljs.Prelude.{
  ℕ, zero, suc, ◌+◌, Bool, true, false, List, [], ◌∷◌, leb, ◌==◌, Option, none, some, if◌then◌else◌,
  Result, ok, ◌>>=◌, get_elem?,
}
use clairveiljs.Crypto.Primitives.{Primitives}
use clairveiljs.Notes.Found.{ScannedNote, FoundNote}
use clairveiljs.Notes.Order.{Collation, summarize_spendable_notes_by_denom}
use clairveiljs.Notes.Pairs.{
  Pair, max_shielded_amount, final_transfer_outputs_within_bound, better_sufficient_pair_candidate,
  better_merge_pair_candidate, best_pair,
}

pub record Selection : Type 0 where
  pub inputs : List FoundNote
  pub total : ℕ
  pub is_final : Bool
  pub needs_zero_dummy : Bool

-- The first index of a note without an amount, other than the one that is excluded.
unfoldable pub find_zero_note : ℕ → ℕ → List FoundNote → Option ℕ
find_zero_note exclude i [] = none
find_zero_note exclude i (found ∷ notes) =
    let next = find_zero_note exclude (suc i) notes in
    if i == exclude then next else if found.note.amount == 0 then some i else next

unfoldable pub note_at : List FoundNote → Option ℕ → Option FoundNote
note_at notes none = none
note_at notes (some i) = get_elem? notes i

-- A note that suffices, with a note without an amount.
abbrev pub single_selection : FoundNote → FoundNote → Selection
single_selection found zero_note = record {
  inputs = found ∷ zero_note ∷ [];
  total = found.note.amount;
  is_final = true;
  needs_zero_dummy = false;
}

-- The first note that suffices while there is one without an amount, or whether a note suffices.
unfoldable pub select_single :
    ℕ → List FoundNote → ℕ → List FoundNote → Bool → Option Selection × Bool
select_single target all_notes i [] requires_dummy = (none, requires_dummy)
select_single target all_notes i (found ∷ notes) requires_dummy =
    let suffices = final_transfer_outputs_within_bound found.note.amount target in
    let found_zero = note_at all_notes (find_zero_note i 0 all_notes) in
    let next =
      select_single target all_notes (suc i) notes (if suffices then true else requires_dummy) in
    if suffices
    then elim found_zero [
      | none ↦ next
      | some zero_note ↦ (some (single_selection found zero_note), false)
    ]
    else next

-- What is selected of the notes that can be spent.
abbrev pub pair_selection : Bool → Pair → Selection
pair_selection is_final pair = record {
  inputs = pair.left ∷ pair.right ∷ [];
  total = pair.total;
  is_final = is_final;
  needs_zero_dummy = false;
}

abbrev pub no_selection : Bool → Selection
no_selection needs_zero_dummy = record {
  inputs = [];
  total = 0;
  is_final = false;
  needs_zero_dummy = needs_zero_dummy;
}

-- A pair that is to be merged first, or nothing.
unfoldable pub merge_or_nothing : Option Pair → Bool → Selection
merge_or_nothing (some pair) requires_dummy = pair_selection false pair
merge_or_nothing none requires_dummy = no_selection requires_dummy

unfoldable pub pair_or_merge : Option Pair → Option Pair → Bool → Selection
pair_or_merge (some pair) merge requires_dummy = pair_selection true pair
pair_or_merge none merge requires_dummy = merge_or_nothing merge requires_dummy

unfoldable pub single_or_pair : Option Selection × Bool → Option Pair → Option Pair → Selection
single_or_pair (some selection, requires_dummy) pair merge = selection
single_or_pair (none, requires_dummy) pair merge = pair_or_merge pair merge requires_dummy

unfoldable pub select_inputs : Collation → List FoundNote → ℕ → Selection
select_inputs locale notes target =
    single_or_pair (select_single target notes 0 notes false)
      (best_pair (λ total. final_transfer_outputs_within_bound total target)
        (better_sufficient_pair_candidate locale) notes none)
      (best_pair (λ total. leb total max_shielded_amount) (better_merge_pair_candidate locale) notes
        none)

unfoldable pub select_transfer_inputs :
    Primitives → Collation → List ScannedNote → List ℕ → ℕ → Result Selection
select_transfer_inputs c locale notes denom target = do
  same_denom_notes ← summarize_spendable_notes_by_denom c locale notes denom
  ok (select_inputs locale same_denom_notes target)
