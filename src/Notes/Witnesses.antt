-- ===== src/Notes/Witnesses.antt =====
-- The theorems about notes and plans at a wallet of three notes.
use clairveiljs.Prelude.{
  ℕ, suc, ◌+◌, ◌≤◌, ◌≢◌, ◌⊎◌, true, false, List, [], ◌∷◌, All, length, none, some, Bool, ok, Result,
  inl, inr, ◌≡◌, refl, arith,
}
use clairveiljs.Text.{codes, decimal_value}
use clairveiljs.Reservation.Runs.{from_ok, ok_from}
use clairveiljs.Wire.Domain.{compute_asset_id_v1}
use clairveiljs.Notes.Found.{ScannedNote, FoundNote, unspent}
use clairveiljs.Notes.Found.Evidence.{
  IsUnspentText, is_verified_unspent_found_note-normalize_found_note,
}
use clairveiljs.Notes.Order.{sort, total_of}
use clairveiljs.Notes.Selection.{select_single, select_inputs}
use clairveiljs.Notes.Selection.Sound.{
  IsSufficient, select_inputs-IsSufficient, select_inputs-total_le, select_inputs-merge,
}
use clairveiljs.Notes.Batch.{
  by_amount, batch_transfer_search_step_limit, search, select_batch_inputs,
}
use clairveiljs.Notes.Batch.Steps.{search-steps_le}
use clairveiljs.Notes.Batch.Sound.{IsBatch, select_batch_inputs-IsBatch}
use clairveiljs.Notes.Coin.{Coin, parse_coin}
use clairveiljs.Notes.Planner.{
  Plan, invalid_amount, final_transfer_ready, refusal, planner_facts, plan_transfer,
  plan_transfer_notes, plan_transfer_batch_notes, plan_withdraw_notes,
}
use clairveiljs.Notes.Planner.Sound.{IsSpendable, IsReady, plan_transfer_notes-IsReady}
use clairveiljs.Notes.Planner.Ready.{plan_transfer-final_transfer_ready, plan_withdraw_notes-ready}
use clairveiljs.Notes.Planner.Capacity.{IsBatchReady, plan_transfer_batch_notes-IsBatchReady}
use clairveiljs.Samples.{sample, by_code, sample_note}
use clairveiljs.Samples.Code.{notes_code}

-- The asset that stands for the denomination.
abbrev uclair_id : ℕ
uclair_id = 5421079712104842562160849181136865911280786218022506594035629772582981757297

abbrev scanned_of : ℕ → List ℕ → ScannedNote
scanned_of amount nullifier = record {
  note = record sample_note { amount = amount; asset_id = uclair_id };
  nullifier = some nullifier;
  nullifier_statuses = codes " Unspent" ∷ codes "unspent" ∷ [];
  spent_flags = some false ∷ none ∷ [];
  tx_hash = codes "ab";
  height = 7;
  sequence = 1;
}

abbrev found_of : ℕ → List ℕ → FoundNote
found_of amount nullifier = record {
  note = record sample_note { amount = amount; asset_id = uclair_id };
  nullifier = nullifier;
  is_spent = false;
  nullifier_status = unspent;
  tx_hash = codes "ab";
  height = 7;
  sequence = 1;
}

abbrev four : FoundNote
four = found_of 4 (codes "01")

abbrev seven : FoundNote
seven = found_of 7 (codes "02")

abbrev nine : FoundNote
nine = found_of 9 (codes "03")

abbrev wallet : List FoundNote
wallet = four ∷ seven ∷ nine ∷ []

abbrev scan : List ScannedNote
scan = scanned_of 4 (codes "01") ∷ scanned_of 7 (codes "02") ∷ scanned_of 9 (codes "03") ∷ []

abbrev uclair : List ℕ
uclair = codes "uclair"

abbrev ten : Coin
ten = record { amount = codes "10"; denom = uclair; raw = codes "10uclair" }

is_verified_unspent_found_note-normalize_found_note_example :
    ((scanned_of 4 (codes "01")).nullifier_statuses ≢ [])
    × All IsUnspentText (scanned_of 4 (codes "01")).nullifier_statuses
    × All (λ flag. flag ≢ some true) (scanned_of 4 (codes "01")).spent_flags
unfolding notes_code
is_verified_unspent_found_note-normalize_found_note_example =
    is_verified_unspent_found_note-normalize_found_note sample (scanned_of 4 (codes "01"))
      {found = four} refl refl

select_inputs-IsSufficient_example : IsSufficient wallet 10 (select_inputs by_code wallet 10)
unfolding notes_code
select_inputs-IsSufficient_example = select_inputs-IsSufficient by_code wallet 10 refl

select_inputs-total_le_example :
    ((select_inputs by_code wallet 10).is_final ≡ true)
    × (((select_single 10 wallet 0 wallet false).0 ≢ none)
        ⊎ ((select_inputs by_code wallet 10).total ≤ 7 + 9))
unfolding notes_code
select_inputs-total_le_example =
    select_inputs-total_le by_code wallet 10 seven nine (inr (inl (refl, inl refl))) (λ e. cc)
      (λ e. cc) refl

select_inputs-merge_example :
    (◌≡◌ {A = Bool} false false) × (7 + 9 ≤ (select_inputs by_code wallet 30).total)
unfolding notes_code
select_inputs-merge_example =
    select_inputs-merge by_code wallet 30 seven nine (inr (inl (refl, inl refl))) (λ e. cc)
      (λ e. cc) (omega arith) refl

search-steps_le_example :
    (search by_code 20 wallet [] 0 (record { steps = 0; best = none })).steps
    ≤ suc (batch_transfer_search_step_limit + length wallet)
search-steps_le_example =
    search-steps_le by_code 20 wallet [] 0 (record { steps = 0; best = none }) (omega arith)

select_batch_inputs-IsBatch_example :
    IsBatch by_code 20 (sort (by_amount by_code) wallet) (select_batch_inputs by_code wallet 20)
    × (1 ≤ length (select_batch_inputs by_code wallet 20).inputs)
    × (length (select_batch_inputs by_code wallet 20).inputs ≤ 16)
    × (total_of (select_batch_inputs by_code wallet 20).inputs
        ≡ (select_batch_inputs by_code wallet 20).total)
unfolding notes_code
select_batch_inputs-IsBatch_example = select_batch_inputs-IsBatch by_code wallet 20 (λ e. cc) refl

-- A plan of a kind that none of the plans below is.
abbrev no_plan : Plan
no_plan = refusal invalid_amount "none" "none" (planner_facts 0 [] [] 0) none

abbrev transfer_plan : Result Plan
transfer_plan = plan_transfer_notes sample by_code scan (codes "10uclair") uclair

plan_transfer_notes-IsReady_example :
    IsReady sample scan (codes "10uclair") uclair (from_ok no_plan transfer_plan)
unfolding notes_code
plan_transfer_notes-IsReady_example =
    plan_transfer_notes-IsReady sample by_code scan (codes "10uclair") uclair
      (ok_from no_plan transfer_plan refl) refl

plan_transfer-final_transfer_ready_example :
    (plan_transfer ten wallet (select_inputs by_code wallet (decimal_value ten.amount))).status
    ≡ final_transfer_ready
unfolding notes_code
plan_transfer-final_transfer_ready_example =
    plan_transfer-final_transfer_ready by_code ten wallet four nine (λ e. cc)
      (inl (refl, inr (inl refl))) (λ e. cc) (λ e. cc) refl

abbrev batch_plan : Result Plan
batch_plan =
    plan_transfer_batch_notes sample by_code scan (codes "10uclair" ∷ codes "6" ∷ []) uclair

plan_transfer_batch_notes-IsBatchReady_example :
    IsBatchReady sample scan (codes "10uclair" ∷ codes "6" ∷ []) uclair (from_ok no_plan batch_plan)
unfolding notes_code
plan_transfer_batch_notes-IsBatchReady_example =
    plan_transfer_batch_notes-IsBatchReady sample by_code scan (codes "10uclair" ∷ codes "6" ∷ [])
      uclair (ok_from no_plan batch_plan refl) refl

abbrev withdraw_plan : Result Plan
withdraw_plan = plan_withdraw_notes sample by_code scan (codes "9uclair") uclair

plan_withdraw_notes-ready_example :
    (coin : Coin) × (asset_id : ℕ) × (found : FoundNote) × (parse_coin (codes "9uclair") uclair
      ≡ ok coin)
    × (compute_asset_id_v1 sample coin.denom ≡ ok asset_id)
    × ((from_ok no_plan withdraw_plan).selected_note ≡ some found)
    × ((from_ok no_plan withdraw_plan).can_build_tx ≡ true)
    × (decimal_value coin.amount ≢ 0)
    × (found.note.amount ≡ decimal_value coin.amount)
    × IsSpendable asset_id found
unfolding notes_code
plan_withdraw_notes-ready_example =
    plan_withdraw_notes-ready sample by_code scan (codes "9uclair") uclair
      (ok_from no_plan withdraw_plan refl) refl
