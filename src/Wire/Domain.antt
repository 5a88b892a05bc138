-- ===== src/Wire/Domain.antt =====
-- src/privacy/protocol-v1.js and src/privacy/asset-denom.js: domain tags, domain fields, asset
-- identifiers and the points that keys are read as.
pub mod Laws
use clairveiljs.Prelude.{
  ℕ, zero, suc, ◌+◌, ◌%◌, String, Bool, true, false, ◌&&◌, ◌||◌, not, List, [], ◌∷◌, length, take,
  all, leb, ◌==◌, Result, ok, err, ◌>>=◌, ◌>>◌, assert, reject, if◌then◌else◌,
}
use clairveiljs.Text.{codes, codes_eq, trim, is_digit}
use clairveiljs.Crypto.Primitives.{Primitives}
use clairveiljs.Crypto.Field.{field_modulus}
use clairveiljs.Crypto.Bytes.{bytes_to_big_int_be}
use clairveiljs.Crypto.Curve.{Point, pack_point, unpack_point}
use clairveiljs.Wire.Bytes.{field, u32_bytes, concat_bytes}

unfoldable pub fixed_domain_tag : Primitives → String → List ℕ
fixed_domain_tag c label = take 16 (c.sha256 (c.utf8_bytes (codes label)))

-- The hash of a text behind its domain and its length, in the field.
unfoldable pub field_of_text : Primitives → String → List ℕ → ℕ
unfolding concat_bytes u32_bytes bytes_to_big_int_be
field_of_text c domain encoded =
    bytes_to_big_int_be (
      c.sha256
        (concat_bytes (c.utf8_bytes (codes domain) ∷ u32_bytes (length encoded) ∷ encoded ∷ [])))
    % field_modulus

-- The labels are shorter than `2 ^ 32` bytes, so that `u32be` of their length returns.
unfoldable pub domain_field_v1 : Primitives → String → ℕ
unfolding field_of_text
domain_field_v1 c label = field_of_text c "clairveil.field-domain.v1" (c.utf8_bytes (codes label))

-- `/[a-zA-Z]/` and `/[a-zA-Z0-9/:._-]/`
unfoldable pub is_letter : ℕ → Bool
is_letter c = (leb 97 c && leb c 122) || (leb 65 c && leb c 90)

unfoldable pub is_denom_char : ℕ → Bool
unfolding is_letter is_digit
is_denom_char c =
    is_letter c || is_digit c || c == b'/' || c == b':' || c == b'.' || c == b'_' || c == b'-'

-- `/^[a-zA-Z][a-zA-Z0-9/:._-]{2,127}$/`
unfoldable pub is_denom : List ℕ → Bool
unfolding is_letter is_denom_char
is_denom [] = false
is_denom (c ∷ cs) = is_letter c && leb 2 (length cs) && leb (length cs) 127 && all is_denom_char cs

unfoldable pub canonical_asset_denom_v1 : List ℕ → Result (List ℕ)
unfolding is_denom trim
canonical_asset_denom_v1 denom = do
  assert (codes_eq denom (trim denom))
      "canonical asset denom must not include surrounding whitespace"
  assert (is_denom denom) "canonical asset denom is invalid"
  ok denom

unfoldable pub compute_asset_id_v1 : Primitives → List ℕ → Result ℕ
unfolding canonical_asset_denom_v1 field_of_text
compute_asset_id_v1 c denom = do
  canonical_denom ← canonical_asset_denom_v1 denom
  ok (field_of_text c "clairveil.asset-id.v1" (c.utf8_bytes canonical_denom))

-- `catch (error) { throw new Error(message) }`
abbrev pub rethrow {ℓ} : {A : Type ℓ} → String → Result A → Result A
rethrow message (err error) = err message
rethrow message (ok value) = ok value

-- What is tried: a point that is packed and unpacked again.
unfoldable pub canonical_point : Point → Result Point
unfolding pack_point unpack_point
canonical_point p = do
  canonical ← unpack_point (pack_point p)
  assert (canonical.x == p.x && canonical.y == p.y) "point coordinates are not canonical"
  reject (canonical.x == 0 && canonical.y == 1) "point identity is not allowed"
  ok canonical

unfoldable pub point_from_coordinates : ℕ → ℕ → Result Point
unfolding field canonical_point
point_from_coordinates x y = do
  px ← field x false
  py ← field y false
  rethrow "must be a canonical prime-subgroup point" (canonical_point (record { x = px; y = py }))
