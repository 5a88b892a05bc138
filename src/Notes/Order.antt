-- ===== src/Notes/Order.antt =====
-- src/privacy/payload.js: the order in which notes are tried, and the spendable notes of an asset.
use Prim.Native.Nat.{Ordering}
use clairveiljs.Prelude.{
  ℕ, ◌+◌, Bool, true, false, ◌&&◌, ◌||◌, not, List, [], ◌∷◌, ◌++◌, keep, map_ok, ltb, ◌==◌, Result,
  ok, ◌>>=◌, if◌then◌else◌,
}
use clairveiljs.Text.{codes, codes_eq, trim, to_lower_case, decimal_text}
use clairveiljs.Crypto.Primitives.{Primitives}
use clairveiljs.Wire.Domain.{compute_asset_id_v1}
use clairveiljs.Notes.Found.{
  ScannedNote, FoundNote, canonical_field_hex, normalize_found_note, is_verified_unspent_found_note,
}

-- `String.prototype.localeCompare` of the platform.
abbrev pub Collation : Type 0
Collation = List ℕ → List ℕ → Ordering

-- The amount of a note that was found.
abbrev pub amount_of : FoundNote → ℕ
amount_of found = found.note.amount

-- The key by a nullifier, unless that is empty.
unfoldable pub identity_key : List ℕ → FoundNote → List ℕ
identity_key [] found =
    codes "fallback:"
    ++ (decimal_text found.height
        ++ (codes ":"
            ++ (to_lower_case found.tx_hash ++ (codes ":" ++ decimal_text found.note.amount))))
identity_key (d ∷ ds) found = codes "nullifier:" ++ (d ∷ ds)

unfoldable pub found_note_identity_key : FoundNote → List ℕ
found_note_identity_key found = identity_key (to_lower_case (trim found.nullifier)) found

-- `<` of texts.
unfoldable pub text_less : List ℕ → List ℕ → Bool
text_less [] [] = false
text_less [] (y ∷ ys) = true
text_less (x ∷ xs) [] = false
text_less (x ∷ xs) (y ∷ ys) = ltb x y || (x == y && text_less xs ys)

-- The first comparison that tells two notes apart.
unfoldable pub then_by : Ordering → Bool → Bool
then_by Ordering.lt last = true
then_by Ordering.gt last = false
then_by Ordering.eq last = last

unfoldable pub found_note_planner_less : Collation → FoundNote → FoundNote → Bool
found_note_planner_less locale left right =
    if not (left.note.amount == right.note.amount)
    then ltb left.note.amount right.note.amount
    else if not (left.height == right.height)
    then ltb left.height right.height
    else then_by (locale (to_lower_case left.tx_hash) (to_lower_case right.tx_hash)) (
        then_by (locale (to_lower_case left.nullifier) (to_lower_case right.nullifier))
          (text_less (found_note_identity_key left) (found_note_identity_key right)))

unfoldable pub found_note_planner_compare : Collation → FoundNote → FoundNote → Ordering
found_note_planner_compare locale left right =
    if found_note_planner_less locale left right
    then Ordering.lt
    else if found_note_planner_less locale right left
    then Ordering.gt
    else Ordering.eq

-- `Array.prototype.sort`, which is stable: a note goes behind those that compare as equal to it.
unfoldable pub is_gt : Ordering → Bool
is_gt Ordering.lt = false
is_gt Ordering.eq = false
is_gt Ordering.gt = true

unfoldable pub insert :
    (FoundNote → FoundNote → Ordering) → FoundNote → List FoundNote → List FoundNote
insert order found [] = found ∷ []
insert order found (other ∷ others) =
    if is_gt (order found other) then other ∷ insert order found others else found ∷ other ∷ others

unfoldable pub sort : (FoundNote → FoundNote → Ordering) → List FoundNote → List FoundNote
sort order [] = []
sort order (found ∷ others) = insert order found (sort order others)

-- `reduce((sum, found) => sum + found.note.amount, 0n)`
unfoldable pub total_of : List FoundNote → ℕ
total_of [] = 0
total_of (found ∷ others) = found.note.amount + total_of others

unfoldable pub summarize_spendable_notes_by_denom :
    Primitives → Collation → List ScannedNote → List ℕ → Result (List FoundNote)
summarize_spendable_notes_by_denom c locale notes denom = do
  asset_id ← compute_asset_id_v1 c denom
  found_notes ← map_ok (normalize_found_note c) notes
  ok (
      sort (found_note_planner_compare locale) (
        keep
          (λ found.
            is_verified_unspent_found_note found
            && codes_eq (canonical_field_hex found.note.asset_id) (canonical_field_hex asset_id))
          found_notes))
