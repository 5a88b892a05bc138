-- ===== src/Notes/Batch.antt =====
-- src/privacy/payload.js: the inputs of a batch transfer, by a search with a limit on its steps.
pub mod Steps
pub mod Sound
use Prim.Native.Nat.{Ordering}
use mathlib.Core.List.{reverse}
use clairveiljs.Prelude.{
  ℕ, zero, suc, ◌+◌, ◌-◌, Bool, true, false, ◌&&◌, ◌||◌, not, List, [], ◌∷◌, ◌++◌, length, take,
  map, ltb, leb, ◌==◌, Option, none, some, if◌then◌else◌, Result, ok, ◌>>=◌, reject, ◌>>◌,
}
use clairveiljs.Text.{codes_eq}
use clairveiljs.Crypto.Primitives.{Primitives}
use clairveiljs.Notes.Found.{ScannedNote, FoundNote}
use clairveiljs.Notes.Order.{
  Collation, found_note_identity_key, found_note_planner_compare, text_less, sort, total_of,
  summarize_spendable_notes_by_denom,
}
use clairveiljs.Notes.Pairs.{max_shielded_amount}
use clairveiljs.Notes.Selection.{Selection, no_selection}

abbrev pub batch_transfer_max_inputs : ℕ
batch_transfer_max_inputs = 16

abbrev pub batch_transfer_search_step_limit : ℕ
batch_transfer_search_step_limit = 250000

-- `inputs.map(foundNoteIdentityKey).join("\0")`
unfoldable pub joined_keys : List FoundNote → List ℕ
joined_keys [] = []
joined_keys (found ∷ []) = found_note_identity_key found
joined_keys (found ∷ other ∷ others) =
    found_note_identity_key found ++ (0 ∷ joined_keys (other ∷ others))

unfoldable pub better_batch_input_selection : Selection → Option Selection → ℕ → Bool
better_batch_input_selection candidate none target = true
better_batch_input_selection candidate (some current) target =
    let candidate_exact = candidate.total == target in
    let current_exact = current.total == target in
    if candidate_exact && not current_exact
    then true
    else if not candidate_exact && current_exact
    then false
    else if not (candidate.total == current.total)
    then ltb candidate.total current.total
    else if not (length candidate.inputs == length current.inputs)
    then ltb (length candidate.inputs) (length current.inputs)
    else text_less (joined_keys candidate.inputs) (joined_keys current.inputs)

-- Larger amounts first.
unfoldable pub by_amount : Collation → FoundNote → FoundNote → Ordering
by_amount locale left right =
    if ltb right.note.amount left.note.amount
    then Ordering.lt
    else if ltb left.note.amount right.note.amount
    then Ordering.gt
    else found_note_planner_compare locale left right

unfoldable pub consider : Collation → ℕ → List FoundNote → Option Selection → Option Selection
consider locale target selected best =
    let total = total_of selected in
    let candidate : Selection = record {
      inputs = sort (found_note_planner_compare locale) selected;
      total = total;
      is_final = true;
      needs_zero_dummy = false;
    } in
    if ltb total target || ltb (target + max_shielded_amount) total
    then best
    else if better_batch_input_selection candidate best target
    then some candidate
    else best

-- The variables of the search that its calls share.
pub record Search : Type 0 where
  pub steps : ℕ
  pub best : Option Selection

-- `best?.total === target`
unfoldable pub is_exact : ℕ → Option Selection → Bool
is_exact target none = false
is_exact target (some best) = best.total == target

-- A call counts, and returns if the limit is passed or an exact selection is found.
unfoldable pub is_over : ℕ → Search → Bool
is_over target st = ltb batch_transfer_search_step_limit (suc st.steps) || is_exact target st.best

unfoldable pub counted : Search → Search
counted st = record { steps = suc st.steps; best = st.best }

-- The notes from the index on, of which the first is taken before it is left.
unfoldable pub search : Collation → ℕ → List FoundNote → List FoundNote → ℕ → Search → Search
search locale target [] selected total st =
    if is_over target st
    then counted st
    else if leb target total
    then record { steps = suc st.steps; best = consider locale target selected st.best }
    else counted st
search locale target (candidate ∷ candidates) selected total st =
    let taken =
      search locale target candidates (selected ++ (candidate ∷ [])) (total + candidate.note.amount)
        (counted st) in
    let tried =
      if leb (total + candidate.note.amount) (target + max_shielded_amount)
      then taken
      else counted st in
    let left = search locale target candidates selected total tried in
    if is_over target st
    then counted st
    else if leb target total
    then record { steps = suc st.steps; best = consider locale target selected st.best }
    else if leb batch_transfer_max_inputs (length selected)
    then counted st
    else if ltb
        (total
          + total_of (take (batch_transfer_max_inputs - length selected) (candidate ∷ candidates)))
        target
    then counted st
    else left

-- The notes that fit, one after the other: `break` and `continue`.
unfoldable pub greedy : ℕ → List FoundNote → List FoundNote → ℕ → List FoundNote × ℕ
greedy target [] chosen total = (chosen, total)
greedy target (candidate ∷ candidates) chosen total =
    let skipped = greedy target candidates chosen total in
    let pushed =
      greedy target candidates (chosen ++ (candidate ∷ [])) (total + candidate.note.amount) in
    if leb batch_transfer_max_inputs (length chosen) || leb target total
    then (chosen, total)
    else if ltb (target + max_shielded_amount) (total + candidate.note.amount)
    then skipped
    else pushed

-- What the search found, or else what the greedy choice comes to.
unfoldable pub or_greedy : Collation → ℕ → List FoundNote → Option Selection → Option Selection
or_greedy locale target candidates (some best) = some best
or_greedy locale target candidates none =
    let (chosen, total) = greedy target candidates [] 0 in
    if leb target total then consider locale target chosen none else none

unfoldable pub selection_or_none : Option Selection → Selection
selection_or_none none = no_selection false
selection_or_none (some best) = best

unfoldable pub select_batch_inputs : Collation → List FoundNote → ℕ → Selection
select_batch_inputs locale [] target = no_selection false
select_batch_inputs locale (found ∷ others) target =
    let candidates = sort (by_amount locale) (found ∷ others) in
    selection_or_none (
      or_greedy locale target candidates
        (search locale target candidates [] 0 (record { steps = 0; best = none })).best)

unfoldable pub select_batch_transfer_inputs :
    Primitives → Collation → List ScannedNote → List ℕ → ℕ → Result Selection
select_batch_transfer_inputs c locale notes denom target = do
  reject (target == 0) "batch transfer total amount must be positive"
  available ← summarize_spendable_notes_by_denom c locale notes denom
  ok (select_batch_inputs locale available target)
