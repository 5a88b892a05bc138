-- ===== src/Notes/Planner/Sound.antt =====
-- src/privacy/planner.js: a plan that is ready can be built from notes that can be spent.
use clairveiljs.Prelude.{
  ℕ, ◌+◌, ◌≤◌, length, true, false, ◌&&◌, List, [], ◌∷◌, map_ok, keep, All, some, Result, ok, ◌>>=◌,
  >>=-eq-ok, ok-eq, &&-eq-true, Bool-cases, ◌≡◌, ◌≢◌, inl, inr, sym, ap, ◌∙◌, subst, arith,
}
use Prim.Native.Nat.{Ordering}
use clairveiljs.Text.{codes_eq, codes_eq_iff, decimal_value}
use clairveiljs.Crypto.Primitives.{Primitives}
use clairveiljs.Wire.Domain.{compute_asset_id_v1}
use clairveiljs.Notes.Found.{
  ScannedNote, FoundNote, canonical_field_hex, normalize_found_note, is_verified_unspent_found_note,
}
use clairveiljs.Notes.Order.{
  Collation, found_note_planner_compare, is_gt, insert, sort, total_of,
  summarize_spendable_notes_by_denom,
}
use clairveiljs.Notes.Selection.{Selection, select_inputs, select_transfer_inputs}
use clairveiljs.Notes.Selection.Sound.{IsSufficient, select_inputs-IsSufficient}
use clairveiljs.Notes.Pairs.{max_shielded_amount}
use clairveiljs.Notes.Drawn.{
  AreDrawn, IsPick-All, Perm-All, Apart-IsPick, summarize_spendable_notes_by_denom-AreDrawn,
}
use clairveiljs.Notes.Coin.{Coin, parse_coin}
use clairveiljs.Notes.Planner.{
  Plan, final_transfer_ready, refusal, plan_transfer, plan_transfer_notes,
}

-- A note that can be spent for an asset.
abbrev pub IsSpendable : ℕ → FoundNote → Type 0
IsSpendable asset_id found =
    (is_verified_unspent_found_note found ≡ true)
    × (canonical_field_hex found.note.asset_id ≡ canonical_field_hex asset_id)

insert-All :
    (P : FoundNote → Type 0) (order : FoundNote → FoundNote → Ordering) (found : FoundNote)
    (notes : List FoundNote)
    → P found
    → All P notes
    → All P (insert order found notes)
unfolding insert
insert-All P order found [] h hs = (h, tt)
insert-All P order found (other ∷ notes) h hs = elim (Bool-cases (is_gt (order found other))) [
  | inl behind ↦ rw behind (hs.0, insert-All P order found notes h hs.1)
  | inr before ↦ rw before (h, hs)
]

sort-All :
    (P : FoundNote → Type 0) (order : FoundNote → FoundNote → Ordering) (notes : List FoundNote)
    → All P notes
    → All P (sort order notes)
unfolding sort
sort-All P order [] hs = tt
sort-All P order (found ∷ notes) hs =
    insert-All P order found (sort order notes) hs.0 (sort-All P order notes hs.1)

keep-All :
    (asset_id : ℕ) (notes : List FoundNote)
    → All (IsSpendable asset_id) (
        keep
          (λ found.
            is_verified_unspent_found_note found
            && codes_eq (canonical_field_hex found.note.asset_id) (canonical_field_hex asset_id))
          notes)
keep-All asset_id [] = tt
keep-All asset_id (found ∷ notes) =
    let same = codes_eq (canonical_field_hex found.note.asset_id) (canonical_field_hex asset_id) in
    elim (Bool-cases (is_verified_unspent_found_note found && same)) [
      | inr left_out ↦ rw left_out (keep-All asset_id notes)
      | inl kept ↦
          let (unspent, same_asset) = &&-eq-true (is_verified_unspent_found_note found) same kept in
          rw kept ((unspent, (codes_eq_iff _ _).0 same_asset), keep-All asset_id notes)
    ]

-- Each note of a summary is known to be unspent and is of the asset that is asked for.
pub summarize_spendable_notes_by_denom-IsSpendable :
    (c : Primitives) (locale : Collation) (notes : List ScannedNote) (denom : List ℕ)
    {spendable : List FoundNote}
    → summarize_spendable_notes_by_denom c locale notes denom ≡ ok spendable
    → (asset_id : ℕ) × (compute_asset_id_v1 c denom ≡ ok asset_id)
      × All (IsSpendable asset_id) spendable
unfolding summarize_spendable_notes_by_denom
summarize_spendable_notes_by_denom-IsSpendable c locale notes denom h =
    let (asset_id, computed, r1) = >>=-eq-ok (compute_asset_id_v1 c denom) _ h in
    let (found_notes, _, r2) = >>=-eq-ok (map_ok (normalize_found_note c) notes) _ r1 in
    (
      asset_id,
      computed,
      subst (All (IsSpendable asset_id)) (ok-eq r2) (
          sort-All (IsSpendable asset_id) (found_note_planner_compare locale) _
            (keep-All asset_id found_notes)),
    )

plan_transfer-ready :
    (coin : Coin) (spendable : List FoundNote) (selection : Selection)
    → (plan_transfer coin spendable selection).status ≡ final_transfer_ready
    → (decimal_value coin.amount ≢ 0)
      × (selection.is_final ≡ true)
      × ((plan_transfer coin spendable selection).can_build_tx ≡ true)
      × ((plan_transfer coin spendable selection).selection ≡ some selection)
unfolding plan_transfer refusal
plan_transfer-ready coin spendable selection ready = ground arith

-- Inputs that are drawn from the scanned notes, can be spent for the asset and have the total.
pub record AreSpendable (c : Primitives) (notes : List ScannedNote) (asset_id total : ℕ)
    (inputs : List FoundNote) : Type 0 where
  pub drawn : AreDrawn c notes inputs
  pub spendable : All (IsSpendable asset_id) inputs
  pub total_eq : total ≡ total_of inputs

sufficient-AreSpendable :
    (c : Primitives) (locale : Collation) (notes : List ScannedNote) (denom : List ℕ)
    (asset_id target : ℕ) (s : Selection) {spendable : List FoundNote}
    → summarize_spendable_notes_by_denom c locale notes denom ≡ ok spendable
    → All (IsSpendable asset_id) spendable
    → IsSufficient spendable target s
    → AreSpendable c notes asset_id s.total s.inputs
unfolding total_of
sufficient-AreSpendable c locale notes denom asset_id target s {spendable} summed all_spendable k =
    let (picked, order, pick) = Apart-IsPick k.first k.second spendable k.apart in
    rw k.inputs_eq (record {
      drawn = summarize_spendable_notes_by_denom-AreDrawn c locale notes denom summed pick order;
      spendable =
          Perm-All (IsSpendable asset_id) order
            (IsPick-All (IsSpendable asset_id) pick all_spendable);
      total_eq = omega (arith, k.total_eq);
    })

-- What a transfer that is ready has.
pub record IsReady (c : Primitives) (notes : List ScannedNote) (amount denom : List ℕ) (plan : Plan)
    : Type 0 where
  pub coin : Coin
  pub selected : Selection
  pub asset_id : ℕ
  pub parsed : parse_coin amount denom ≡ ok coin
  pub asset : compute_asset_id_v1 c coin.denom ≡ ok asset_id
  pub positive : decimal_value coin.amount ≢ 0
  pub selection_eq : plan.selection ≡ some selected
  pub two : length selected.inputs ≡ 2
  pub inputs : AreSpendable c notes asset_id selected.total selected.inputs
  pub enough : decimal_value coin.amount ≤ selected.total
  pub change_le : selected.total ≤ decimal_value coin.amount + max_shielded_amount
  pub no_dummy : selected.needs_zero_dummy ≡ false
  pub can_build : plan.can_build_tx ≡ true

-- A transfer that is planned as ready can be built, for the amount that is asked for, which is
-- positive: its inputs are two of the scanned notes, none of them twice, which are unspent and of the
-- asset, and their total covers the amount and leaves an amount of a note.
pub plan_transfer_notes-IsReady :
    (c : Primitives) (locale : Collation) (notes : List ScannedNote) (amount denom : List ℕ)
    {plan : Plan}
    → plan_transfer_notes c locale notes amount denom ≡ ok plan
    → plan.status ≡ final_transfer_ready
    → IsReady c notes amount denom plan
unfolding plan_transfer_notes select_transfer_inputs
plan_transfer_notes-IsReady c locale notes amount denom {plan} h ready =
    let (coin, parsed, r1) = >>=-eq-ok (parse_coin amount denom) _ h in
    let summary = summarize_spendable_notes_by_denom c locale notes coin.denom in
    let (spendable, summed, r2) = >>=-eq-ok summary _ r1 in
    let requested = decimal_value coin.amount in
    let selected = select_inputs locale spendable requested in
    let (asset_id, asset, all_spendable) =
      summarize_spendable_notes_by_denom-IsSpendable c locale notes coin.denom summed in
    let eq : plan_transfer coin spendable selected ≡ plan =
      ok-eq (sym (again summary summed coin requested) ∙ r2) in
    let (positive, final, can_build, selection) =
      plan_transfer-ready coin spendable selected (ap (λ (p : Plan). p.status) eq ∙ ready) in
    let sufficient = select_inputs-IsSufficient locale spendable requested final in
    record {
      coin = coin;
      selected = selected;
      asset_id = asset_id;
      parsed = parsed;
      asset = asset;
      positive = positive;
      selection_eq = ap (λ (p : Plan). p.selection) (sym eq) ∙ selection;
      two = ap length sufficient.inputs_eq;
      inputs =
          sufficient-AreSpendable c locale notes coin.denom asset_id requested selected summed
            all_spendable sufficient;
      enough = sufficient.enough;
      change_le = sufficient.change_le;
      no_dummy = sufficient.no_dummy;
      can_build = ap (λ (p : Plan). p.can_build_tx) (sym eq) ∙ can_build;
    }
  where
    again :
        (summary : Result (List FoundNote)) {spendable : List FoundNote}
        → summary ≡ ok spendable
        → (coin : Coin) (requested : ℕ)
        → ((summary >>= λ found. ok (select_inputs locale found requested)) >>= λ s.
            ok (plan_transfer coin spendable s))
          ≡ ok (plan_transfer coin spendable (select_inputs locale spendable requested))
    again summary e coin requested = rw e
