-- ===== src/Wire/Disclosure.antt =====
-- src/privacy/protocol-v1.js: disclosures, the checks of their policy, and their fixed plaintext.
pub mod Policy
pub mod RoundTrip
use clairveiljs.Prelude.{
  ℕ, zero, suc, ◌+◌, ◌/◌, ◌%◌, String, Bool, true, false, ◌&&◌, ◌||◌, not, List, [], ◌∷◌, length,
  leb, ◌==◌, Result, ok, err, ◌>>=◌, ◌>>◌, assert, reject, if◌then◌else◌,
}
use clairveiljs.Crypto.Primitives.{Primitives}
use clairveiljs.Crypto.Bytes.{canonical_field_bytes}
use clairveiljs.Wire.Bytes.{
  uint, field, u16be, u32be, u64be, split, read_uint, read_field, concat_bytes, equal_bytes,
}
use clairveiljs.Wire.Domain.{fixed_domain_tag, point_from_coordinates}
use clairveiljs.Wire.Note.{fixed_binary_version}
use clairveiljs.Wire.Envelope.{disclosure_plaintext_v1_size}

-- The two public keys of a party.
pub record Keys : Type 0 where
  pub spend_x : ℕ
  pub spend_y : ℕ
  pub view_x : ℕ
  pub view_y : ℕ

-- A disclosure, with the defaults of the source in place of what is missing: zero, which the checks of
-- the commitment, the asset and the blinding refuse.
pub record DisclosureV1 : Type 0 where
  pub plane : ℕ
  pub output_index : ℕ
  pub policy : ℕ
  pub disclosed_field_bitmap : ℕ
  pub commitment : ℕ
  pub amount : ℕ
  pub asset_id : ℕ
  pub sender : Keys
  pub recipient : Keys
  pub disclosure_blinding : ℕ

unfoldable pub field_keys : Keys → Result Keys
field_keys keys = do
  spend_x ← field keys.spend_x false
  spend_y ← field keys.spend_y false
  view_x ← field keys.view_x false
  view_y ← field keys.view_y false
  ok (record { spend_x = spend_x; spend_y = spend_y; view_x = view_x; view_y = view_y })

unfoldable pub all_zero : Keys → Bool
all_zero keys = keys.spend_x == 0 && keys.spend_y == 0 && keys.view_x == 0 && keys.view_y == 0

-- `validateSender` and `validateRecipient`
unfoldable pub validate_keys : Keys → Result (Unit {0})
validate_keys keys = do
  spend_key ← point_from_coordinates keys.spend_x keys.spend_y
  view_key ← point_from_coordinates keys.view_x keys.view_y
  ok tt

-- The keys of a party are disclosed if their bit of the policy is set.
unfoldable pub check_keys : ℕ → Keys → String → Result (Unit {0})
check_keys bit keys message =
    if bit == 0 then assert (all_zero keys) message else validate_keys keys

unfoldable pub check_policy : DisclosureV1 → Result (Unit {0})
check_policy v =
    if v.plane == 1
    then assert (leb 1 v.policy && leb v.policy 7 && v.disclosed_field_bitmap == v.policy)
        "user disclosure requires a matching policy bitmap in 1..7"
      >> (reject (v.policy % 2 == 0 && not (v.amount == 0)) "undisclosed amount must be zero"
          >> (check_keys (v.policy / 4 % 2) v.sender "undisclosed sender fields must be zero"
              >> check_keys (v.policy / 2 % 2) v.recipient
                  "undisclosed recipient fields must be zero"))
    else if v.plane == 2
    then assert (v.policy == 0xffffffff && v.disclosed_field_bitmap == 7)
        "full disclosure must use the full marker and bitmap"
      >> (validate_keys v.sender >> validate_keys v.recipient)
    else err "unsupported disclosure plane"

unfoldable pub normalize_disclosure_plaintext_v1 : DisclosureV1 → Result DisclosureV1
normalize_disclosure_plaintext_v1 payload = do
  output_index ← uint payload.output_index 32
  policy ← uint payload.policy 32
  disclosed_field_bitmap ← uint payload.disclosed_field_bitmap 32
  commitment ← field payload.commitment true
  amount ← uint payload.amount 64
  asset_id ← field payload.asset_id true
  sender ← field_keys payload.sender
  recipient ← field_keys payload.recipient
  disclosure_blinding ← field payload.disclosure_blinding true
  let value : DisclosureV1 = record {
    plane = payload.plane;
    output_index = output_index;
    policy = policy;
    disclosed_field_bitmap = disclosed_field_bitmap;
    commitment = commitment;
    amount = amount;
    asset_id = asset_id;
    sender = sender;
    recipient = recipient;
    disclosure_blinding = disclosure_blinding;
  }
  check_policy value
  ok value

unfoldable pub keys_bytes : Keys → List ℕ
keys_bytes keys = concat_bytes (
    canonical_field_bytes keys.spend_x
    ∷ canonical_field_bytes keys.spend_y
    ∷ canonical_field_bytes keys.view_x
    ∷ canonical_field_bytes keys.view_y
    ∷ [])

unfoldable pub marshal_disclosure_plaintext_v1 : Primitives → DisclosureV1 → Result (List ℕ)
marshal_disclosure_plaintext_v1 c payload = do
  value ← normalize_disclosure_plaintext_v1 payload
  version ← u16be fixed_binary_version
  output_index ← u32be value.output_index
  policy ← u32be value.policy
  disclosed_field_bitmap ← u32be value.disclosed_field_bitmap
  amount ← u64be value.amount
  ok (
      concat_bytes (
        fixed_domain_tag c "clairveil.disclosure-plaintext.v1"
        ∷ version
        ∷ (value.plane ∷ 0 ∷ [])
        ∷ output_index
        ∷ policy
        ∷ disclosed_field_bitmap
        ∷ canonical_field_bytes value.commitment
        ∷ amount
        ∷ canonical_field_bytes value.asset_id
        ∷ keys_bytes value.sender
        ∷ keys_bytes value.recipient
        ∷ canonical_field_bytes value.disclosure_blinding
        ∷ []))

unfoldable pub read_keys : List ℕ → Result (Keys × List ℕ)
read_keys bs = do
  (spend_x, r1) ← read_field false bs
  (spend_y, r2) ← read_field false r1
  (view_x, r3) ← read_field false r2
  (view_y, r4) ← read_field false r3
  ok (record { spend_x = spend_x; spend_y = spend_y; view_x = view_x; view_y = view_y }, r4)

-- The tag, the version, the plane and the reserved byte.
unfoldable pub read_disclosure_header : Primitives → List ℕ → Result (ℕ × List ℕ)
read_disclosure_header c encoded = do
  let (tag, r1) = split 16 encoded
  assert (equal_bytes tag (fixed_domain_tag c "clairveil.disclosure-plaintext.v1"))
      "invalid DisclosurePlaintextV1 domain tag"
  let (version, r2) = read_uint 2 r1
  assert (version == fixed_binary_version) "unsupported DisclosurePlaintextV1 version"
  let (plane, r3) = read_uint 1 r2
  let (reserved, r4) = read_uint 1 r3
  assert (reserved == 0) "DisclosurePlaintextV1 reserved byte must be zero"
  ok (plane, r4)

unfoldable pub unmarshal_disclosure_plaintext_v1 : Primitives → List ℕ → Result DisclosureV1
unmarshal_disclosure_plaintext_v1 c encoded = do
  assert (length encoded == disclosure_plaintext_v1_size)
      "DisclosurePlaintextV1 must be of its exact size"
  (plane, r0) ← read_disclosure_header c encoded
  let (output_index, r1) = read_uint 4 r0
  let (policy, r2) = read_uint 4 r1
  let (disclosed_field_bitmap, r3) = read_uint 4 r2
  (commitment, r4) ← read_field true r3
  let (amount, r5) = read_uint 8 r4
  (asset_id, r6) ← read_field false r5
  (sender, r7) ← read_keys r6
  (recipient, r8) ← read_keys r7
  (disclosure_blinding, r9) ← read_field false r8
  normalize_disclosure_plaintext_v1 (record {
    plane = plane;
    output_index = output_index;
    policy = policy;
    disclosed_field_bitmap = disclosed_field_bitmap;
    commitment = commitment;
    amount = amount;
    asset_id = asset_id;
    sender = sender;
    recipient = recipient;
    disclosure_blinding = disclosure_blinding;
  })
