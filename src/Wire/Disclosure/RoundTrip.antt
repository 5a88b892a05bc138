-- ===== src/Wire/Disclosure/RoundTrip.antt =====
-- src/privacy/protocol-v1.js: a disclosure is read back from its plaintext.
use clairveiljs.Prelude.{
  ℕ, true, false, List, [], ◌∷◌, ◌++◌, length, ok, length-append, ◌≡◌, ◌∙◌, ap, arith,
}
use mathlib.Core.List.{append_assoc}
use clairveiljs.Crypto.Primitives.{Primitives, HasLaws}
use clairveiljs.Crypto.Bytes.{canonical_field_bytes, big_endian}
use clairveiljs.Crypto.Bytes.Laws.{length-big_endian}
use clairveiljs.Wire.Bytes.{field, u16_bytes, u32_bytes, concat_bytes}
use clairveiljs.Wire.Bytes.Laws.{
  read_one, read_field-canonical_field_bytes, read_uint-u16_bytes, read_uint-u32_bytes,
  read_uint-big_endian, split-append, equal_bytes_self, length-concat_bytes,
  length-canonical_field_bytes, u16be-eq, u32be-eq, u64be-eq,
}
use clairveiljs.Wire.Domain.{fixed_domain_tag}
use clairveiljs.Wire.Domain.Laws.{length-fixed_domain_tag}
use clairveiljs.Wire.Note.{fixed_binary_version}
use clairveiljs.Wire.Disclosure.{
  Keys, DisclosureV1, normalize_disclosure_plaintext_v1, keys_bytes,
  marshal_disclosure_plaintext_v1, read_keys, read_disclosure_header,
  unmarshal_disclosure_plaintext_v1,
}
use clairveiljs.Wire.Disclosure.Policy.{AreFields, normalize_disclosure_plaintext_v1-eq-ok}

read_keys-keys_bytes :
    (keys : Keys) (rest : List ℕ)
    → AreFields keys
    → read_keys (keys_bytes keys ++ rest) ≡ ok (keys, rest)
unfolding read_keys keys_bytes concat_bytes
read_keys-keys_bytes keys rest h =
    let r3 = canonical_field_bytes keys.view_y ++ ([] ++ rest) in
    let r2 = canonical_field_bytes keys.view_x ++ r3 in
    let r1 = canonical_field_bytes keys.spend_y ++ r2 in
    rw (
      append_assoc (canonical_field_bytes keys.spend_x)
          (canonical_field_bytes keys.spend_y
            ++ (canonical_field_bytes keys.view_x ++ (canonical_field_bytes keys.view_y ++ [])))
          rest,
      append_assoc (canonical_field_bytes keys.spend_y)
          (canonical_field_bytes keys.view_x ++ (canonical_field_bytes keys.view_y ++ [])) rest,
      append_assoc (canonical_field_bytes keys.view_x) (canonical_field_bytes keys.view_y ++ [])
          rest,
      append_assoc (canonical_field_bytes keys.view_y) [] rest,
      read_field-canonical_field_bytes keys.spend_x false r1 h.spend_x_ok,
      read_field-canonical_field_bytes keys.spend_y false r2 h.spend_y_ok,
      read_field-canonical_field_bytes keys.view_x false r3 h.view_x_ok,
      read_field-canonical_field_bytes keys.view_y false rest h.view_y_ok,
    )

length-keys_bytes : (keys : Keys) → length (keys_bytes keys) ≡ 128
unfolding keys_bytes
length-keys_bytes keys = length-concat_bytes _ ∙ omega (arith, length-canonical_field_bytes)

-- The bytes behind the header.
abbrev disclosure_fields : DisclosureV1 → List ℕ
disclosure_fields v = concat_bytes (
    u32_bytes v.output_index
    ∷ u32_bytes v.policy
    ∷ u32_bytes v.disclosed_field_bitmap
    ∷ canonical_field_bytes v.commitment
    ∷ big_endian 8 v.amount
    ∷ canonical_field_bytes v.asset_id
    ∷ keys_bytes v.sender
    ∷ keys_bytes v.recipient
    ∷ canonical_field_bytes v.disclosure_blinding
    ∷ [])

-- The bytes of a disclosure that is accepted.
unfoldable pub disclosure_bytes : Primitives → DisclosureV1 → List ℕ
unfolding concat_bytes
disclosure_bytes c v =
    fixed_domain_tag c "clairveil.disclosure-plaintext.v1"
    ++ (u16_bytes fixed_binary_version ++ (v.plane ∷ 0 ∷ disclosure_fields v))

length-disclosure_bytes :
    {c : Primitives} → HasLaws c → (v : DisclosureV1) → length (disclosure_bytes c v) ≡ 392
unfolding disclosure_bytes u16_bytes u32_bytes
length-disclosure_bytes {c} laws v =
    length-append (fixed_domain_tag c "clairveil.disclosure-plaintext.v1") _
    ∙ omega (
      arith,
      length-fixed_domain_tag laws "clairveil.disclosure-plaintext.v1",
      length-concat_bytes (
          u32_bytes v.output_index
          ∷ u32_bytes v.policy
          ∷ u32_bytes v.disclosed_field_bitmap
          ∷ canonical_field_bytes v.commitment
          ∷ big_endian 8 v.amount
          ∷ canonical_field_bytes v.asset_id
          ∷ keys_bytes v.sender
          ∷ keys_bytes v.recipient
          ∷ canonical_field_bytes v.disclosure_blinding
          ∷ []),
      length-canonical_field_bytes,
      length-keys_bytes v.sender,
      length-keys_bytes v.recipient,
      length-big_endian 8 v.amount,
    )

marshal_disclosure_plaintext_v1-eq :
    (c : Primitives) (v : DisclosureV1) {n : DisclosureV1}
    → normalize_disclosure_plaintext_v1 v ≡ ok n
    → marshal_disclosure_plaintext_v1 c v ≡ ok (disclosure_bytes c v)
unfolding marshal_disclosure_plaintext_v1 disclosure_bytes concat_bytes
marshal_disclosure_plaintext_v1-eq c v h =
    let (same, accepted) = normalize_disclosure_plaintext_v1-eq-ok v h in
    let valid : normalize_disclosure_plaintext_v1 v ≡ ok v = h ∙ ap ok same in
    rw (
      valid,
      u16be-eq 1 (omega arith),
      u32be-eq v.output_index accepted.output_index_lt,
      u32be-eq v.policy accepted.policy_lt,
      u32be-eq v.disclosed_field_bitmap accepted.bitmap_lt,
      u64be-eq v.amount accepted.amount_lt,
    )

read_disclosure_header-eq :
    (c : Primitives) (plane : ℕ) (rest : List ℕ)
    → length (fixed_domain_tag c "clairveil.disclosure-plaintext.v1") ≡ 16
    → read_disclosure_header c (
        fixed_domain_tag c "clairveil.disclosure-plaintext.v1"
        ++ (u16_bytes fixed_binary_version ++ (plane ∷ 0 ∷ rest)))
      ≡ ok (plane, rest)
unfolding read_disclosure_header
read_disclosure_header-eq c plane rest long = rw (
  split-append 16 (fixed_domain_tag c "clairveil.disclosure-plaintext.v1")
      (u16_bytes fixed_binary_version ++ (plane ∷ 0 ∷ rest)) long,
  equal_bytes_self (fixed_domain_tag c "clairveil.disclosure-plaintext.v1"),
  read_uint-u16_bytes fixed_binary_version (plane ∷ 0 ∷ rest) (omega arith),
  read_one plane (0 ∷ rest),
  read_one 0 rest,
)

read_disclosure_header-disclosure_bytes :
    {c : Primitives}
    → HasLaws c
    → (v : DisclosureV1)
    → read_disclosure_header c (disclosure_bytes c v) ≡ ok (v.plane, disclosure_fields v)
unfolding disclosure_bytes concat_bytes
read_disclosure_header-disclosure_bytes {c} laws v =
    read_disclosure_header-eq c v.plane (disclosure_fields v)
      (length-fixed_domain_tag laws "clairveil.disclosure-plaintext.v1")

-- A field that is read where zero is not yet refused.
field-weaken : (value : ℕ) → field value true ≡ ok value → field value false ≡ ok value
unfolding field
field-weaken value h = ground arith

-- Each disclosure that is accepted has a plaintext of 392 bytes, and is read back from it.
pub unmarshal_disclosure_plaintext_v1-marshal_disclosure_plaintext_v1 :
    {c : Primitives}
    → HasLaws c
    → (v : DisclosureV1) {n : DisclosureV1} → normalize_disclosure_plaintext_v1 v ≡ ok n
    → (encoded : List ℕ) × (marshal_disclosure_plaintext_v1 c v ≡ ok encoded)
      × (length encoded ≡ 392)
      × (unmarshal_disclosure_plaintext_v1 c encoded ≡ ok v)
unfolding unmarshal_disclosure_plaintext_v1 concat_bytes
unmarshal_disclosure_plaintext_v1-marshal_disclosure_plaintext_v1 {c} laws v valid =
    let (same, accepted) = normalize_disclosure_plaintext_v1-eq-ok v valid in
    let long = length-disclosure_bytes laws v in
    let r8 = canonical_field_bytes v.disclosure_blinding ++ [] in
    let r7 = keys_bytes v.recipient ++ r8 in
    let r6 = keys_bytes v.sender ++ r7 in
    let r5 = canonical_field_bytes v.asset_id ++ r6 in
    let r4 = big_endian 8 v.amount ++ r5 in
    let r3 = canonical_field_bytes v.commitment ++ r4 in
    let r2 = u32_bytes v.disclosed_field_bitmap ++ r3 in
    let r1 = u32_bytes v.policy ++ r2 in
    (
      disclosure_bytes c v,
      marshal_disclosure_plaintext_v1-eq c v valid,
      long,
      rw
          (
            long,
            read_disclosure_header-disclosure_bytes laws v,
            read_uint-u32_bytes v.output_index r1 accepted.output_index_lt,
            read_uint-u32_bytes v.policy r2 accepted.policy_lt,
            read_uint-u32_bytes v.disclosed_field_bitmap r3 accepted.bitmap_lt,
            read_field-canonical_field_bytes v.commitment true r4 accepted.commitment_ok,
            read_uint-big_endian 8 v.amount r5 (omega (arith, accepted.amount_lt)),
            read_field-canonical_field_bytes v.asset_id false r6
                (field-weaken v.asset_id accepted.asset_id_ok),
            read_keys-keys_bytes v.sender r7 accepted.sender_ok,
            read_keys-keys_bytes v.recipient r8 accepted.recipient_ok,
            read_field-canonical_field_bytes v.disclosure_blinding false []
                (field-weaken v.disclosure_blinding accepted.blinding_ok),
          )
          (valid ∙ ap ok same),
    )
