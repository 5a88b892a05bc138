-- ===== src/Notes/Planner/Ready.antt =====
-- src/privacy/planner.js: when a plan is ready for a transfer and a withdrawal.
use clairveiljs.Prelude.{
  ℕ, ◌+◌, ◌≤◌, Bool, true, false, ◌&&◌, List, [], ◌∷◌, map_ok, find, ◌==◌, ==_iff, Option, none,
  some, ok, >>=-eq-ok, ok-eq, &&-eq-true, Bool-cases, ◌≡◌, ◌≢◌, inl, inr, refl, sym, ap, ◌∙◌, arith,
}
use clairveiljs.Text.{codes_eq_iff, decimal_value}
use clairveiljs.Crypto.Primitives.{Primitives}
use clairveiljs.Wire.Domain.{compute_asset_id_v1}
use clairveiljs.Notes.Found.{
  ScannedNote, FoundNote, normalize_found_note, is_verified_unspent_found_note,
}
use clairveiljs.Notes.Order.{Collation, summarize_spendable_notes_by_denom}
use clairveiljs.Notes.Pairs.{final_transfer_outputs_within_bound}
use clairveiljs.Notes.Pairs.Best.{Before}
use clairveiljs.Notes.Selection.{Selection, select_inputs}
use clairveiljs.Notes.Selection.Sound.{select_inputs-IsSufficient, select_inputs-total_le}
use clairveiljs.Notes.Coin.{Coin, parse_coin}
use clairveiljs.Notes.Planner.{
  Plan, final_transfer_ready, withdraw_ready, refusal, plan_transfer, is_exact_match,
  withdraw_or_refuse, plan_withdraw, plan_withdraw_notes,
}
use clairveiljs.Notes.Planner.Sound.{IsSpendable}

ready_of :
    (coin : Coin) (spendable : List FoundNote) (selection : Selection)
    → decimal_value coin.amount ≢ 0
    → selection.is_final ≡ true
    → selection.needs_zero_dummy ≡ false
    → decimal_value coin.amount ≤ selection.total
    → (plan_transfer coin spendable selection).status ≡ final_transfer_ready
unfolding plan_transfer refusal
ready_of coin spendable selection positive final no_dummy enough = ground arith

-- A transfer of a positive amount is ready whenever two of the notes that can be spent have amounts
-- that suffice for it and leave an amount of a note.
pub plan_transfer-final_transfer_ready :
    (locale : Collation) (coin : Coin) (spendable : List FoundNote) (a b : FoundNote)
    → decimal_value coin.amount ≢ 0
    → Before a b spendable
    → a.note.amount ≢ 0
    → b.note.amount ≢ 0
    → final_transfer_outputs_within_bound
        (a.note.amount + b.note.amount)
        (decimal_value coin.amount)
      ≡ true
    → (plan_transfer coin spendable
        (select_inputs locale spendable (decimal_value coin.amount))).status
      ≡ final_transfer_ready
plan_transfer-final_transfer_ready locale coin spendable a b positive before ha hb within =
    let requested = decimal_value coin.amount in
    let (final, _) = select_inputs-total_le locale spendable requested a b before ha hb within in
    let sufficient = select_inputs-IsSufficient locale spendable requested final in
    ready_of coin spendable (select_inputs locale spendable requested) positive final
      sufficient.no_dummy sufficient.enough

find-some :
    (test : FoundNote → Bool) (notes : List FoundNote) {found : FoundNote}
    → find test notes ≡ some found
    → test found ≡ true
find-some test [] h = absurd (cc)
find-some test (note ∷ notes) h = elim (Bool-cases (test note)) [
  | inr other ↦ find-some test notes (rw other at h)
  | inl same ↦ ap test (sym (this (rw same at h))) ∙ same
]
  where
    this : {found : FoundNote} → some note ≡ some found → note ≡ found
    this e = cc

withdraw_ready-some :
    (coin : Coin) (spendable : List FoundNote) (selected : Option FoundNote)
    → (plan_withdraw coin spendable selected).status ≡ withdraw_ready
    → (found : FoundNote) × (selected ≡ some found)
      × ((plan_withdraw coin spendable selected).selected_note ≡ some found)
      × ((plan_withdraw coin spendable selected).can_build_tx ≡ true)
      × (decimal_value coin.amount ≢ 0)
unfolding plan_withdraw withdraw_or_refuse refusal
withdraw_ready-some coin spendable none ready = absurd (ground arith)
withdraw_ready-some coin spendable (some found) ready =
    (found, refl, ground arith, ground arith, ground arith)

-- A withdrawal that is planned as ready can be built from one note that is known to be unspent, has
-- the amount that is asked for, which is positive, and is of the asset.
pub plan_withdraw_notes-ready :
    (c : Primitives) (locale : Collation) (notes : List ScannedNote) (amount denom : List ℕ)
    {plan : Plan}
    → plan_withdraw_notes c locale notes amount denom ≡ ok plan
    → plan.status ≡ withdraw_ready
    → (coin : Coin) × (asset_id : ℕ) × (found : FoundNote) × (parse_coin amount denom ≡ ok coin)
      × (compute_asset_id_v1 c coin.denom ≡ ok asset_id)
      × (plan.selected_note ≡ some found)
      × (plan.can_build_tx ≡ true)
      × (decimal_value coin.amount ≢ 0)
      × (found.note.amount ≡ decimal_value coin.amount)
      × IsSpendable asset_id found
unfolding plan_withdraw_notes is_exact_match
plan_withdraw_notes-ready c locale notes amount denom {plan} h ready =
    let (coin, parsed, r1) = >>=-eq-ok (parse_coin amount denom) _ h in
    let (spendable, _, r2) =
      >>=-eq-ok (summarize_spendable_notes_by_denom c locale notes coin.denom) _ r1 in
    let (asset_id, asset, r3) = >>=-eq-ok (compute_asset_id_v1 c coin.denom) _ r2 in
    let (found_notes, _, r4) = >>=-eq-ok (map_ok (normalize_found_note c) notes) _ r3 in
    let requested = decimal_value coin.amount in
    let eq = ok-eq r4 in
    let (found, selected, in_plan, can_build, positive) =
      withdraw_ready-some coin spendable (find (is_exact_match asset_id requested) found_notes)
        (ap (λ (p : Plan). p.status) eq ∙ ready) in
    let (left, same_asset) =
      &&-eq-true (is_verified_unspent_found_note found && found.note.amount == requested) _
        (find-some (is_exact_match asset_id requested) found_notes selected) in
    let (unspent, same_amount) = &&-eq-true (is_verified_unspent_found_note found) _ left in
    (
      coin,
      asset_id,
      found,
      parsed,
      asset,
      ap (λ (p : Plan). p.selected_note) (sym eq) ∙ in_plan,
      ap (λ (p : Plan). p.can_build_tx) (sym eq) ∙ can_build,
      positive,
      (==_iff found.note.amount requested).0 same_amount,
      (unspent, (codes_eq_iff _ _).0 same_asset),
    )
