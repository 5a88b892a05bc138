-- ===== src/Samples/Code.antt =====
-- The definitions that a run of the code opens.
use clairveiljs.Prelude.{Bool, true}
use clairveiljs.Text.{
  codes_eq, trim, to_lower_case, is_decimal, decimal_value, decimal_digits, is_lower_hex_of,
  is_digit,
}
use clairveiljs.Crypto.Field.{mod_pow, mod_sqrt}
use clairveiljs.Crypto.Bytes.{big_endian, canonical_field_bytes, bytes_to_big_int_be}
use clairveiljs.Crypto.Curve.{pack_point, unpack_point}
use clairveiljs.Crypto.Mimc.{mimc_hash}
use clairveiljs.Wire.Bytes.{
  uint, field, u16be, u32be, u64be, u16_bytes, u32_bytes, split, read_uint, read_field,
  concat_bytes, equal_bytes,
}
use clairveiljs.Wire.Domain.{
  fixed_domain_tag, field_of_text, domain_field_v1, compute_asset_id_v1, canonical_point,
  point_from_coordinates, is_letter, is_denom_char,
}
use clairveiljs.Wire.Note.{
  compute_note_commitment_unchecked, compute_note_nullifier_unchecked, validate_note_v1,
  compute_note_commitment_v1, compute_note_nullifier_v1,
}
use clairveiljs.Wire.Envelope.{envelope_tag, envelope_ciphertext_size, wrap_encrypted_envelope_v1}
use clairveiljs.Wire.Disclosure.{
  field_keys, all_zero, validate_keys, check_keys, check_policy, normalize_disclosure_plaintext_v1,
}
use clairveiljs.Notes.Found.{
  hex_digit, hex_from_bytes, canonical_field_hex, compute_note_nullifier_hex, parse_status,
  requested_status, supplied_spent, status_of, is_spent_status, nullifier_or_computed,
  normalize_found_note, is_unspent_status, is_verified_unspent_found_note,
}
use clairveiljs.Notes.Order.{
  identity_key, found_note_identity_key, text_less, then_by, found_note_planner_less,
  found_note_planner_compare, is_gt, insert, sort, total_of, summarize_spendable_notes_by_denom,
}
use clairveiljs.Notes.Pairs.{
  final_transfer_outputs_within_bound, better_by_notes, better_sufficient_pair_candidate,
  better_merge_pair_candidate, improves, consider_pair, best_with, best_pair,
}
use clairveiljs.Notes.Selection.{
  find_zero_note, note_at, select_single, merge_or_nothing, pair_or_merge, single_or_pair,
  select_inputs, select_transfer_inputs,
}
use clairveiljs.Notes.Batch.{
  joined_keys, better_batch_input_selection, by_amount, consider, is_exact, is_over, counted,
  search, greedy, or_greedy, selection_or_none, select_batch_inputs, select_batch_transfer_inputs,
}
use clairveiljs.Notes.Coin.{
  leading_digits, behind_digits, is_optional_denom, denom_or, parse_coin, big_int_text, coin_string,
}
use clairveiljs.Notes.Planner.{
  max_from, max_big_int, planner_facts, refusal, plan_transfer, plan_transfer_notes, batch_denom_of,
  requested_total, is_amount_out_of_range, plan_batch_selection, plan_batch,
  plan_transfer_batch_notes, is_exact_match, selected_total, withdraw_or_refuse, plan_withdraw,
  plan_withdraw_notes,
}
use clairveiljs.Merkle.{
  note_tree_node, compute_note_tree_node_v1, aliased_value, same_texts, same_numbers, nibble,
  bytes_from_hex, read_field_hex, field_hex_v1, are_distinct, checked_hex, requested_commitments,
  non_negative_int64_value, optional_height, normalize_commitment_paths_at_root_request,
  check_helpers, parent_of, climb, verify_path, verify_paths, is_other_height,
  normalize_commitment_paths_at_root_response,
}
use clairveiljs.Samples.{mixed, low_bytes}

unfoldable pub wire_code : Bool
unfolding codes_eq trim to_lower_case mod_pow mod_sqrt big_endian canonical_field_bytes
    bytes_to_big_int_be pack_point unpack_point mimc_hash uint field u16be u32be u64be u16_bytes
    u32_bytes split read_uint read_field concat_bytes equal_bytes fixed_domain_tag field_of_text
    domain_field_v1 compute_asset_id_v1 canonical_point point_from_coordinates
    compute_note_commitment_unchecked compute_note_nullifier_unchecked validate_note_v1
    compute_note_commitment_v1 compute_note_nullifier_v1 envelope_tag envelope_ciphertext_size
    wrap_encrypted_envelope_v1 field_keys all_zero validate_keys check_keys check_policy
    normalize_disclosure_plaintext_v1 mixed low_bytes
wire_code = true

unfoldable pub notes_code : Bool
unfolding wire_code is_decimal decimal_value decimal_digits is_digit is_letter is_denom_char
    hex_digit hex_from_bytes canonical_field_hex compute_note_nullifier_hex parse_status
    requested_status supplied_spent status_of is_spent_status nullifier_or_computed
    normalize_found_note is_unspent_status is_verified_unspent_found_note identity_key
    found_note_identity_key text_less then_by found_note_planner_less found_note_planner_compare
    is_gt insert sort total_of summarize_spendable_notes_by_denom
    final_transfer_outputs_within_bound better_by_notes better_sufficient_pair_candidate
    better_merge_pair_candidate improves consider_pair best_with best_pair find_zero_note note_at
    select_single merge_or_nothing pair_or_merge single_or_pair select_inputs select_transfer_inputs
    joined_keys better_batch_input_selection by_amount consider is_exact is_over counted search
    greedy or_greedy selection_or_none select_batch_inputs select_batch_transfer_inputs
    leading_digits behind_digits is_optional_denom denom_or parse_coin big_int_text coin_string
    max_from max_big_int planner_facts refusal plan_transfer plan_transfer_notes batch_denom_of
    requested_total is_amount_out_of_range plan_batch_selection plan_batch plan_transfer_batch_notes
    is_exact_match selected_total withdraw_or_refuse plan_withdraw plan_withdraw_notes
notes_code = true

unfoldable pub merkle_code : Bool
unfolding wire_code hex_digit hex_from_bytes canonical_field_hex is_lower_hex_of note_tree_node
    compute_note_tree_node_v1 aliased_value same_texts same_numbers nibble bytes_from_hex
    read_field_hex field_hex_v1 are_distinct checked_hex requested_commitments
    non_negative_int64_value optional_height normalize_commitment_paths_at_root_request
    check_helpers parent_of climb verify_path verify_paths is_other_height
    normalize_commitment_paths_at_root_response
merkle_code = true
