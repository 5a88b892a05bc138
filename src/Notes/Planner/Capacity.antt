-- ===== src/Notes/Planner/Capacity.antt =====
-- src/privacy/planner.js: a batch that is ready fits one proof.
use mathlib.Core.List.{Permᴰ}
use mathlib.Core.List.Permᴰ
use clairveiljs.Prelude.{
  ℕ, ◌+◌, ◌≤◌, Bool, true, false, ◌||◌, not, List, [], ◌∷◌, length, map_ok, any, All, ltb, ◌==◌,
  ne_of_==, some, if◌then◌else◌, Result, ok, err, reject-eq-ok, >>=-eq-ok, ok-eq, ◌≡◌, ◌≢◌, refl,
  sym, ap, ◌∙◌, subst, arith,
}
use clairveiljs.Text.{codes_eq, codes_eq_iff, decimal_value}
use clairveiljs.Crypto.Primitives.{Primitives}
use clairveiljs.Wire.Domain.{compute_asset_id_v1}
use clairveiljs.Notes.Found.{ScannedNote, FoundNote}
use clairveiljs.Notes.Order.{
  Collation, found_note_planner_compare, sort, total_of, summarize_spendable_notes_by_denom,
}
use clairveiljs.Notes.Pairs.{max_shielded_amount}
use clairveiljs.Notes.Selection.{Selection}
use clairveiljs.Notes.Batch.{by_amount, select_batch_inputs, select_batch_transfer_inputs}
use clairveiljs.Notes.Batch.Sound.{IsBatch, total_of-sort, select_batch_inputs-IsBatch}
use clairveiljs.Notes.Drawn.{
  sort-Perm, IsPick-Perm, IsPick-All, Perm-All, summarize_spendable_notes_by_denom-AreDrawn,
}
use clairveiljs.Notes.Coin.{Coin, parse_coin}
use clairveiljs.Notes.Planner.{
  planner_facts, Plan, Facts, batch_transfer_ready, refusal, requested_total, batch_denom_of,
  is_amount_out_of_range, plan_batch_selection, plan_batch, plan_transfer_batch_notes,
}
use clairveiljs.Notes.Planner.Sound.{
  IsSpendable, AreSpendable, summarize_spendable_notes_by_denom-IsSpendable,
}

-- What the amounts of a batch meet.
abbrev pub IsBatchAmount : List ℕ → Coin → Type 0
IsBatchAmount denom coin =
    (coin.denom ≡ denom)
    × (1 ≤ decimal_value coin.amount)
    × (decimal_value coin.amount ≤ max_shielded_amount)

none_any-All :
    (denom : List ℕ) (coins : List Coin)
    → any (λ coin. not (codes_eq coin.denom denom)) coins ≡ false
    → any is_amount_out_of_range coins ≡ false
    → All (IsBatchAmount denom) coins
unfolding is_amount_out_of_range
none_any-All denom [] h k = tt
none_any-All denom (coin ∷ coins) h k =
    let (positive, small) = in_range (decimal_value coin.amount) _ k in
    (
      (
        (codes_eq_iff coin.denom denom).0 (not_not (codes_eq coin.denom denom) _ h),
        positive,
        small,
      ),
      none_any-All denom coins (or_right _ _ h) (or_right _ _ k),
    )
  where
    not_not : (a b : Bool) → (not a || b) ≡ false → a ≡ true
    not_not true b e = refl
    not_not false b e = cc

    or_right : (a b : Bool) → (a || b) ≡ false → b ≡ false
    or_right false b e = e
    or_right true b e = cc

    in_range :
        (n : ℕ) (b : Bool)
        → (n == 0 || ltb max_shielded_amount n || b) ≡ false
        → (1 ≤ n) × (n ≤ max_shielded_amount)
    in_range n b e = ground arith

batch_selection-ready :
    (coins : List Coin) (denom : List ℕ) (facts : Facts) (selected : Result Selection)
    → (plan_batch_selection coins denom facts selected).status ≡ batch_transfer_ready
    → (s : Selection) × (selected ≡ ok s)
      × (s.is_final ≡ true)
      × ((plan_batch_selection coins denom facts selected).selection ≡ some s)
      × ((plan_batch_selection coins denom facts selected).can_build_tx ≡ true)
      × (length coins + (if ltb (requested_total coins) s.total then 1 else 0) ≤ 32)
unfolding plan_batch_selection refusal
batch_selection-ready coins denom facts (err message) ready = absurd (ground arith)
batch_selection-ready coins denom facts (ok s) ready =
    (s, refl, ground arith, ground arith, ground arith, ground arith)

-- The refusals in front of a plan.
last_of :
    (b1 b2 b3 b4 b5 : Bool) (p1 p2 p3 p4 p5 last : Plan)
    → p1.status ≢ batch_transfer_ready
    → p2.status ≢ batch_transfer_ready
    → p3.status ≢ batch_transfer_ready
    → p4.status ≢ batch_transfer_ready
    → p5.status ≢ batch_transfer_ready
    → (if b1
        then p1
        else if b2
        then p2
        else if b3
        then p3
        else if b4
        then p4
        else if b5
        then p5
        else last).status
      ≡ batch_transfer_ready
    → (b1 ≡ false)
      × (b3 ≡ false)
      × (b4 ≡ false)
      × ((if b1
            then p1
            else if b2
            then p2
            else if b3
            then p3
            else if b4
            then p4
            else if b5
            then p5
            else last)
          ≡ last)
last_of true b2 b3 b4 b5 p1 p2 p3 p4 p5 last n1 n2 n3 n4 n5 h = absurd (n1 h)
last_of false true b3 b4 b5 p1 p2 p3 p4 p5 last n1 n2 n3 n4 n5 h = absurd (n2 h)
last_of false false true b4 b5 p1 p2 p3 p4 p5 last n1 n2 n3 n4 n5 h = absurd (n3 h)
last_of false false false true b5 p1 p2 p3 p4 p5 last n1 n2 n3 n4 n5 h = absurd (n4 h)
last_of false false false false true p1 p2 p3 p4 p5 last n1 n2 n3 n4 n5 h = absurd (n5 h)
last_of false false false false false p1 p2 p3 p4 p5 last n1 n2 n3 n4 n5 h =
    (refl, refl, refl, refl)

batch-ready :
    (coins : List Coin) (denom : List ℕ) (spendable : List FoundNote) (selected : Result Selection)
    → (plan_batch coins denom spendable selected).status ≡ batch_transfer_ready
    → ((length coins == 0) ≡ false)
      × (any (λ coin. not (codes_eq coin.denom denom)) coins ≡ false)
      × (any is_amount_out_of_range coins ≡ false)
      × (plan_batch coins denom spendable selected
          ≡ plan_batch_selection coins denom
              (planner_facts (requested_total coins) denom spendable 0)
              selected)
unfolding plan_batch refusal
batch-ready coins denom spendable selected ready =
    last_of (length coins == 0) (ltb 32 (length coins))
      (any (λ coin. not (codes_eq coin.denom denom)) coins) (any is_amount_out_of_range coins)
      (ltb (total_of spendable) (requested_total coins)) _ _ _ _ _ _ (λ e. cc) (λ e. cc) (λ e. cc)
      (λ e. cc) (λ e. cc) ready

select_batch_transfer_inputs-ok :
    (c : Primitives) (locale : Collation) (notes : List ScannedNote) (denom : List ℕ) (target : ℕ)
    {s : Selection}
    → select_batch_transfer_inputs c locale notes denom target ≡ ok s
    → (available : List FoundNote) × (target ≢ 0)
      × (summarize_spendable_notes_by_denom c locale notes denom ≡ ok available)
      × (select_batch_inputs locale available target ≡ s)
unfolding select_batch_transfer_inputs
select_batch_transfer_inputs-ok c locale notes denom target h =
    let (positive, r1) = reject-eq-ok (target == 0) _ _ h in
    let (available, summed, r2) =
      >>=-eq-ok (summarize_spendable_notes_by_denom c locale notes denom) _ r1 in
    (available, ne_of_== target 0 positive, summed, ok-eq r2)

batch-AreSpendable :
    (c : Primitives) (locale : Collation) (notes : List ScannedNote) (denom : List ℕ)
    (asset_id target : ℕ) (s : Selection) {available : List FoundNote}
    → summarize_spendable_notes_by_denom c locale notes denom ≡ ok available
    → All (IsSpendable asset_id) available
    → IsBatch locale target (sort (by_amount locale) available) s
    → AreSpendable c notes asset_id s.total s.inputs
batch-AreSpendable c locale notes denom asset_id target s {available} summed all_spendable batch =
    let (picked, order, pick) =
      IsPick-Perm (Permᴰ.symm (sort-Perm (by_amount locale) available)) batch.picked_ok in
    let inputs_order : Permᴰ picked s.inputs =
      rw batch.inputs_eq
        (Permᴰ.trans order (sort-Perm (found_note_planner_compare locale) batch.picked)) in
    record {
      drawn =
          summarize_spendable_notes_by_denom-AreDrawn c locale notes denom summed pick inputs_order;
      spendable =
          Perm-All (IsSpendable asset_id) inputs_order
            (IsPick-All (IsSpendable asset_id) pick all_spendable);
      total_eq =
          batch.total_eq
          ∙ sym (
              ap total_of batch.inputs_eq
              ∙ total_of-sort (found_note_planner_compare locale) batch.picked);
    }

-- What a batch that is ready has. Its denomination is that of the first amount.
pub record IsBatchReady (c : Primitives) (notes : List ScannedNote) (amounts : List (List ℕ))
    (denom : List ℕ) (plan : Plan) : Type 0 where
  pub coins : List Coin
  pub selected : Selection
  pub asset_id : ℕ
  pub parsed : map_ok (λ amount. parse_coin amount denom) amounts ≡ ok coins
  pub some_coins : 1 ≤ length coins
  pub in_range : All (IsBatchAmount (batch_denom_of coins denom)) coins
  pub asset : compute_asset_id_v1 c (batch_denom_of coins denom) ≡ ok asset_id
  pub selection_eq : plan.selection ≡ some selected
  pub can_build : plan.can_build_tx ≡ true
  pub inputs : AreSpendable c notes asset_id selected.total selected.inputs
  pub inputs_pos : 1 ≤ length selected.inputs
  pub inputs_le : length selected.inputs ≤ 16
  pub enough : requested_total coins ≤ selected.total
  pub change_le : selected.total ≤ requested_total coins + max_shielded_amount
  pub outputs_le : length coins + (if ltb (requested_total coins) selected.total then 1 else 0) ≤ 32

-- A batch that is planned as ready can be built for the amounts that are asked for: they are of one
-- asset and each of them is one that a note can hold, the outputs with the change are at most 32, and
-- the inputs are between 1 and 16 of the scanned notes, none of them twice, which are unspent and of
-- the asset, and whose total covers the amounts and leaves an amount of a note.
pub plan_transfer_batch_notes-IsBatchReady :
    (c : Primitives) (locale : Collation) (notes : List ScannedNote) (amounts : List (List ℕ))
    (denom : List ℕ) {plan : Plan}
    → plan_transfer_batch_notes c locale notes amounts denom ≡ ok plan
    → plan.status ≡ batch_transfer_ready
    → IsBatchReady c notes amounts denom plan
unfolding plan_transfer_batch_notes
plan_transfer_batch_notes-IsBatchReady c locale notes amounts denom {plan} h ready =
    let (coins, parsed, r1) = >>=-eq-ok (map_ok (λ amount. parse_coin amount denom) amounts) _ h in
    let batch_denom = batch_denom_of coins denom in
    let (spendable, _, r2) =
      >>=-eq-ok (summarize_spendable_notes_by_denom c locale notes batch_denom) _ r1 in
    let requested = requested_total coins in
    let selecting = select_batch_transfer_inputs c locale notes batch_denom requested in
    let eq = ok-eq r2 in
    let (some_coins, one_denom, in_range, last) =
      batch-ready coins batch_denom spendable selecting (ap (λ (p : Plan). p.status) eq ∙ ready) in
    let plan_eq = sym last ∙ eq in
    let (s, selected, final, in_plan, can_build, outputs) =
      batch_selection-ready coins batch_denom (planner_facts requested batch_denom spendable 0)
        selecting (ap (λ (p : Plan). p.status) plan_eq ∙ ready) in
    let (available, positive, summed, s_eq) =
      select_batch_transfer_inputs-ok c locale notes batch_denom requested selected in
    let (asset_id, asset, all_spendable) =
      summarize_spendable_notes_by_denom-IsSpendable c locale notes batch_denom summed in
    let (batch, one, sixteen, _) =
      select_batch_inputs-IsBatch locale available requested positive
        (ap (λ (t : Selection). t.is_final) s_eq ∙ final) in
    let chosen = subst (IsBatch locale requested (sort (by_amount locale) available)) s_eq batch in
    record {
      coins = coins;
      selected = s;
      asset_id = asset_id;
      parsed = parsed;
      some_coins = at_least_one (length coins) some_coins;
      in_range = none_any-All batch_denom coins one_denom in_range;
      asset = asset;
      selection_eq = ap (λ (p : Plan). p.selection) (sym plan_eq) ∙ in_plan;
      can_build = ap (λ (p : Plan). p.can_build_tx) (sym plan_eq) ∙ can_build;
      inputs =
          batch-AreSpendable c locale notes batch_denom asset_id requested s summed all_spendable
            chosen;
      inputs_pos = subst (λ (t : Selection). 1 ≤ length t.inputs) s_eq one;
      inputs_le = subst (λ (t : Selection). length t.inputs ≤ 16) s_eq sixteen;
      enough = chosen.enough;
      change_le = chosen.change_le;
      outputs_le = outputs;
    }
  where
    at_least_one : (n : ℕ) → (n == 0) ≡ false → 1 ≤ n
    at_least_one n e = ground arith
