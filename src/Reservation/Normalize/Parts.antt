-- ===== src/Reservation/Normalize/Parts.antt =====
-- src/privacy/reservation.js: the readers of one field that `normalizeReservation` is built from.
use clairveiljs.Prelude.{
  ℕ, String, Bool, true, false, not, ◌&&◌, Option, none, some, List, [], ◌∷◌, ◌^◌, leb, ltb,
  if◌then◌else◌, Result, ok, err, ◌>>=◌, ◌>>◌, assert, reject, ◌==◌,
}
use clairveiljs.Text.{codes_eq, trim, is_decimal, decimal_value}
use clairveiljs.Json.{
  Value, null, num, str, Fields, get, has, or_else, is_boolean, is_true, text_if_truthy, text_of,
}
use clairveiljs.Reservation.Status.{Status, reserved, all_statuses, status_named}
use clairveiljs.Reservation.Record.{max_safe_integer}

-- `input.a || input.b || …`
unfoldable pub first_truthy : Fields → List String → Option Value
first_truthy input [] = none
first_truthy input (k ∷ ks) = or_else (get input k) (first_truthy input ks)

-- `String(input.a || input.b || … || "")`
unfoldable pub text_from : Fields → List String → List ℕ
unfolding first_truthy
text_from input ks = text_if_truthy (first_truthy input ks)

pub record BatchItemIndex : Type 0 where
  pub value : ℕ
  pub valid : Bool
  pub provided : Bool

abbrev invalid_index : BatchItemIndex
invalid_index = record { value = 0; valid = false; provided = true }

unfoldable pub normalized_batch_item_index : Option Value → BatchItemIndex
normalized_batch_item_index none = record { value = 0; valid = true; provided = false }
normalized_batch_item_index (some null) = record { value = 0; valid = true; provided = false }
normalized_batch_item_index (some (str [])) = record { value = 0; valid = true; provided = false }
normalized_batch_item_index (some (str (c ∷ cs))) =
    if is_decimal (c ∷ cs) && leb (decimal_value (c ∷ cs)) max_safe_integer
    then record { value = decimal_value (c ∷ cs); valid = true; provided = true }
    else invalid_index
normalized_batch_item_index (some (num n)) = record { value = n; valid = true; provided = true }
normalized_batch_item_index (some v) = invalid_index

unfoldable pub normalized_boolean_alias : Fields → String → String → Bool → Result Bool
normalized_boolean_alias input canonical_key alias_key fallback = do
  let has_canonical = has input canonical_key
  let has_alias = has input alias_key
  let canonical_value = get input canonical_key
  let alias_value = get input alias_key
  reject (has_canonical && not (is_boolean canonical_value)) "must be a boolean"
  reject (has_alias && not (is_boolean alias_value)) "must be a boolean"
  reject
      (has_canonical
        && has_alias
        && not (if is_true canonical_value then is_true alias_value else not (is_true alias_value)))
      "aliases conflict"
  ok (
      if has_canonical
      then is_true canonical_value
      else if has_alias
      then is_true alias_value
      else fallback)

unfoldable pub parse_safe_integer : Option Value → Result ℕ
parse_safe_integer (some (num n)) = ok n
parse_safe_integer (some (str s)) = do
  assert (is_decimal s && leb (decimal_value s) max_safe_integer)
      "must be a non-negative safe integer"
  ok (decimal_value s)
parse_safe_integer _ = err "must be a non-negative safe integer"

abbrev parse_if : Bool → Option Value → Result ℕ
parse_if false v = ok 0
parse_if true v = parse_safe_integer v

unfoldable pub normalized_non_negative_safe_integer_alias : Fields → String → String → ℕ → Result ℕ
unfolding parse_safe_integer
normalized_non_negative_safe_integer_alias input canonical_key alias_key fallback = do
  let has_canonical = has input canonical_key
  let has_alias = has input alias_key
  canonical_value ← parse_if has_canonical (get input canonical_key)
  alias_value ← parse_if has_alias (get input alias_key)
  reject (has_canonical && has_alias && not (canonical_value == alias_value)) "aliases conflict"
  ok (if has_canonical then canonical_value else if has_alias then alias_value else fallback)

unfoldable pub uint64_text : List ℕ → Result ℕ
uint64_text text = do
  assert (is_decimal text) "must be a canonical uint64 decimal string"
  assert (ltb (decimal_value text) (2 ^ 64)) "must be within uint64 range"
  ok (decimal_value text)

unfoldable pub normalized_uint64_value : Option Value → Result ℕ
unfolding uint64_text
normalized_uint64_value none = ok 0
normalized_uint64_value (some null) = ok 0
normalized_uint64_value (some (num n)) = ok n
normalized_uint64_value (some v) = uint64_text (trim (text_of v))

abbrev status_or_err : Option Status → Result Status
status_or_err none = err "unsupported reservation status"
status_or_err (some s) = ok s

-- `String(status || fallback)`, with `Reserved` for the fallback.
unfoldable pub normalize_status : Option Value → Result Status
normalize_status v =
    let text = text_if_truthy v in
    if codes_eq text [] then ok reserved else status_or_err (status_named text all_statuses)
