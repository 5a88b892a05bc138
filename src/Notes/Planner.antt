-- ===== src/Notes/Planner.antt =====
-- src/privacy/planner.js and src/core/errors.js: what can be built from the notes of a wallet. Of a
-- message that names amounts the fixed part is kept; `selections` of a batch holds its selection.
pub mod Sound
pub mod Ready
pub mod Capacity
use clairveiljs.Prelude.{
  ℕ, zero, suc, ◌+◌, ◌-◌, ◌^◌, String, Bool, true, false, ◌&&◌, ◌||◌, not, List, [], ◌∷◌, ◌++◌,
  length, map, map_ok, any, find, ltb, leb, ◌==◌, Option, none, some, if◌then◌else◌, Result, ok,
  err, ◌>>=◌, ◌>>◌, assert,
}
use clairveiljs.Text.{codes, codes_eq, decimal_value}
use clairveiljs.Crypto.Primitives.{Primitives}
use clairveiljs.Wire.Domain.{compute_asset_id_v1}
use clairveiljs.Notes.Found.{
  ScannedNote, FoundNote, canonical_field_hex, normalize_found_note, is_verified_unspent_found_note,
}
use clairveiljs.Notes.Order.{Collation, amount_of, total_of, summarize_spendable_notes_by_denom}
use clairveiljs.Notes.Pairs.{max_shielded_amount}
use clairveiljs.Notes.Selection.{Selection, select_transfer_inputs}
use clairveiljs.Notes.Batch.{select_batch_transfer_inputs}
use clairveiljs.Notes.Coin.{Coin, parse_coin, big_int_text, coin_string}

pub data Status : Type 0 where
  invalid_amount : Status
  zero_dummy_required : Status
  insufficient_balance : Status
  self_merge_required : Status
  final_transfer_ready : Status
  invalid_batch : Status
  batch_capacity_exceeded : Status
  mixed_denom_unsupported : Status
  batch_transfer_ready : Status
  batch_note_preparation_required : Status
  withdraw_ready : Status
  exact_note_required : Status

pub record Facts : Type 0 where
  pub requested_amount : List ℕ
  pub requested_amount_value : List ℕ
  pub denom : List ℕ
  pub spendable_total : List ℕ
  pub spendable_total_value : List ℕ
  pub spendable_count : ℕ
  pub current_max_note : List ℕ
  pub current_max_note_value : List ℕ
  pub selected_input_total : List ℕ
  pub selected_input_total_value : List ℕ

pub record Plan : Type 0 where
  pub status : Status
  pub can_build_tx : Bool
  pub action : String
  pub message : String
  pub next_amount : Option (List ℕ)
  pub facts : Facts
  pub selection : Option Selection
  pub selected_note : Option FoundNote

unfoldable pub max_from : ℕ → List ℕ → ℕ
max_from m [] = m
max_from m (n ∷ ns) = max_from (if ltb m n then n else m) ns

unfoldable pub max_big_int : List ℕ → ℕ
max_big_int [] = 0
max_big_int (n ∷ ns) = max_from n (n ∷ ns)

unfoldable pub planner_facts : ℕ → List ℕ → List FoundNote → ℕ → Facts
planner_facts requested denom spendable selected_total = record {
  requested_amount = coin_string requested denom;
  requested_amount_value = big_int_text requested;
  denom = denom;
  spendable_total = coin_string (total_of spendable) denom;
  spendable_total_value = big_int_text (total_of spendable);
  spendable_count = length spendable;
  current_max_note = coin_string (max_big_int (map amount_of spendable)) denom;
  current_max_note_value = big_int_text (max_big_int (map amount_of spendable));
  selected_input_total = coin_string selected_total denom;
  selected_input_total_value = big_int_text selected_total;
}

-- A plan that cannot be built.
unfoldable pub refusal : Status → String → String → Facts → Option Selection → Plan
refusal status action message facts selection = record {
  status = status;
  can_build_tx = false;
  action = action;
  message = message;
  next_amount = none;
  facts = facts;
  selection = selection;
  selected_note = none;
}

unfoldable pub plan_transfer : Coin → List FoundNote → Selection → Plan
plan_transfer coin spendable selection =
    let requested = decimal_value coin.amount in
    let facts = planner_facts requested coin.denom spendable selection.total in
    if requested == 0
    then refusal invalid_amount "enter_positive_amount" "Transfer amount must be greater than 0."
        facts (some selection)
    else if selection.needs_zero_dummy
    then refusal zero_dummy_required "create_zero_helper_note"
        "A second zero-value helper note is required before this transfer can be built." facts
        (some selection)
    else if selection.total == 0 || (not selection.is_final && ltb (total_of spendable) requested)
    then refusal insufficient_balance "deposit_or_receive_notes" "Need" facts (some selection)
    else if not selection.is_final
    then record {
      status = self_merge_required;
      can_build_tx = true;
      action = "self_merge";
      message = "Merge two notes into a larger self note, then retry the requested transfer.";
      next_amount = some (coin_string selection.total coin.denom);
      facts = facts;
      selection = some selection;
      selected_note = none;
    }
    else record {
      status = final_transfer_ready;
      can_build_tx = true;
      action = "final_transfer";
      message = "The selected notes can satisfy the requested transfer.";
      next_amount = some coin.raw;
      facts = facts;
      selection = some selection;
      selected_note = none;
    }

unfoldable pub plan_transfer_notes :
    Primitives → Collation → List ScannedNote → List ℕ → List ℕ → Result Plan
plan_transfer_notes c locale notes amount denom = do
  coin ← parse_coin amount denom
  spendable ← summarize_spendable_notes_by_denom c locale notes coin.denom
  selection ← select_transfer_inputs c locale notes coin.denom (decimal_value coin.amount)
  ok (plan_transfer coin spendable selection)

-- `coins[0]?.denom ?? denom`
unfoldable pub batch_denom_of : List Coin → List ℕ → List ℕ
batch_denom_of [] denom = denom
batch_denom_of (coin ∷ coins) denom = coin.denom

unfoldable pub requested_total : List Coin → ℕ
requested_total [] = 0
requested_total (coin ∷ coins) = decimal_value coin.amount + requested_total coins

unfoldable pub is_amount_out_of_range : Coin → Bool
is_amount_out_of_range coin =
    decimal_value coin.amount == 0 || ltb max_shielded_amount (decimal_value coin.amount)

-- What is tried: a selection that one proof can spend, and its outputs with the change.
unfoldable pub plan_batch_selection : List Coin → List ℕ → Facts → Result Selection → Plan
plan_batch_selection coins denom facts (err message) =
    refusal batch_note_preparation_required "prepare_notes_before_batching" message facts none
plan_batch_selection coins denom facts (ok selection) =
    let requested = requested_total coins in
    let output_count = length coins + (if ltb requested selection.total then 1 else 0) in
    if not selection.is_final || ltb (length selection.inputs) 1 || ltb 16 (length selection.inputs)
    then refusal batch_note_preparation_required "prepare_notes_before_batching"
        "one-proof batch transfer requires a spendable 1..16-input selection" facts none
    else if ltb 32 output_count
    then refusal batch_capacity_exceeded "reduce_batch_output_count"
        "One-proof batch transfer supports at most 32 outputs including change." facts none
    else record {
      status = batch_transfer_ready;
      can_build_tx = true;
      action = "build_one_proof_batch_transfer";
      message = "The selected notes can satisfy one atomic one-proof batch transfer.";
      next_amount = none;
      facts = record facts {
        selected_input_total = coin_string selection.total denom;
        selected_input_total_value = big_int_text selection.total;
      };
      selection = some selection;
      selected_note = none;
    }

unfoldable pub plan_batch : List Coin → List ℕ → List FoundNote → Result Selection → Plan
plan_batch coins denom spendable selected =
    let requested = requested_total coins in
    let facts = planner_facts requested denom spendable 0 in
    if length coins == 0
    then refusal invalid_batch "enter_batch_amounts" "Batch transfer requires at least one amount."
        facts none
    else if ltb 32 (length coins)
    then refusal batch_capacity_exceeded "split_batch_by_output_capacity"
        "One-proof batch transfer supports at most 32 outputs." facts none
    else if any (λ coin. not (codes_eq coin.denom denom)) coins
    then refusal mixed_denom_unsupported "split_batch_by_denom"
        "Batch transfer amounts must use the same denom." facts none
    else if any is_amount_out_of_range coins
    then refusal invalid_amount "enter_positive_amounts"
        "Every batch transfer amount must be within the positive uint64 NoteV1 range." facts none
    else if ltb (total_of spendable) requested
    then refusal insufficient_balance "deposit_or_receive_notes" "Need" facts none
    else plan_batch_selection coins denom facts selected

unfoldable pub plan_transfer_batch_notes :
    Primitives → Collation → List ScannedNote → List (List ℕ) → List ℕ → Result Plan
plan_transfer_batch_notes c locale notes amounts denom = do
  coins ← map_ok (λ amount. parse_coin amount denom) amounts
  let batch_denom = batch_denom_of coins denom
  spendable ← summarize_spendable_notes_by_denom c locale notes batch_denom
  ok (
      plan_batch coins batch_denom spendable
        (select_batch_transfer_inputs c locale notes batch_denom (requested_total coins)))

-- `sameDenomExactMatch`
unfoldable pub is_exact_match : ℕ → ℕ → FoundNote → Bool
is_exact_match asset_id target found =
    is_verified_unspent_found_note found
    && found.note.amount == target
    && codes_eq (canonical_field_hex found.note.asset_id) (canonical_field_hex asset_id)

unfoldable pub selected_total : Option FoundNote → ℕ
selected_total none = 0
selected_total (some found) = found.note.amount

unfoldable pub withdraw_or_refuse : ℕ → ℕ → Facts → Option FoundNote → Plan
withdraw_or_refuse requested spendable_total facts (some found) = record {
  status = withdraw_ready;
  can_build_tx = true;
  action = "withdraw_exact_note";
  message = "An exact-match note is available for withdraw.";
  next_amount = none;
  facts = facts;
  selection = none;
  selected_note = some found;
}
withdraw_or_refuse requested spendable_total facts none =
    if ltb spendable_total requested
    then refusal insufficient_balance "deposit_or_receive_notes" "Need" facts none
    else refusal exact_note_required "self_transfer_exact_note"
        "Withdraw requires one exact-match note; create that note with a shielded self-transfer first."
        facts none

unfoldable pub plan_withdraw : Coin → List FoundNote → Option FoundNote → Plan
plan_withdraw coin spendable selected =
    let requested = decimal_value coin.amount in
    let facts = planner_facts requested coin.denom spendable (selected_total selected) in
    if requested == 0
    then refusal invalid_amount "enter_positive_amount" "Withdraw amount must be greater than 0."
        facts none
    else withdraw_or_refuse requested (total_of spendable) facts selected

unfoldable pub plan_withdraw_notes :
    Primitives → Collation → List ScannedNote → List ℕ → List ℕ → Result Plan
plan_withdraw_notes c locale notes amount denom = do
  coin ← parse_coin amount denom
  spendable ← summarize_spendable_notes_by_denom c locale notes coin.denom
  asset_id ← compute_asset_id_v1 c coin.denom
  found_notes ← map_ok (normalize_found_note c) notes
  ok (
      plan_withdraw coin spendable
        (find (is_exact_match asset_id (decimal_value coin.amount)) found_notes))

-- `ClairveilErrorCode` of a plan.
unfoldable pub planner_status_to_error_code : Status → String
planner_status_to_error_code invalid_amount = "INVALID_AMOUNT"
planner_status_to_error_code insufficient_balance = "INSUFFICIENT_BALANCE"
planner_status_to_error_code self_merge_required = "SELF_MERGE_REQUIRED"
planner_status_to_error_code zero_dummy_required = "ZERO_DUMMY_REQUIRED"
planner_status_to_error_code exact_note_required = "EXACT_NOTE_REQUIRED"
planner_status_to_error_code _ = "INVALID_ARGUMENT"

-- The error that is thrown is told by its code.
unfoldable pub assert_plan_can_build_tx : Plan → Result Plan
assert_plan_can_build_tx plan =
    assert plan.can_build_tx (planner_status_to_error_code plan.status) >> ok plan
