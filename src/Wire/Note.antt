-- ===== src/Wire/Note.antt =====
-- src/privacy/protocol-v1.js: notes, their commitments and nullifiers, and their fixed plaintext.

pub mod RoundTrip
use clairveiljs.Prelude.{
  ℕ, zero, suc, ◌+◌, ◌-◌, String, Bool, true, false, ◌&&◌, ◌||◌, not, List, [], ◌∷◌, length, take,
  drop, replicate, any, all, leb, ◌==◌, Result, ok, err, ◌>>=◌, ◌>>◌, assert, reject, if◌then◌else◌,
}
use clairveiljs.Crypto.Primitives.{Primitives}
use clairveiljs.Crypto.Bytes.{canonical_field_bytes}
use clairveiljs.Crypto.Mimc.{mimc_hash}
use clairveiljs.Wire.Bytes.{
  uint, field, u16be, u64be, split, read_uint, read_field, concat_bytes, equal_bytes,
}
use clairveiljs.Wire.Domain.{fixed_domain_tag, domain_field_v1, point_from_coordinates}

-- `NoteV1`, whose memo is a list of code points. The short names that the source also reads (`rsx`,
-- `am`) are these fields.
pub record NoteV1 : Type 0 where
  pub receiver_spend_pub_key_x : ℕ
  pub receiver_spend_pub_key_y : ℕ
  pub receiver_view_pub_key_x : ℕ
  pub receiver_view_pub_key_y : ℕ
  pub amount : ℕ
  pub asset_id : ℕ
  pub randomness : ℕ
  pub memo : List ℕ

abbrev pub note_plaintext_v1_size : ℕ
note_plaintext_v1_size = 350

abbrev pub note_memo_capacity_v1 : ℕ
note_memo_capacity_v1 = 128

abbrev pub fixed_binary_version : ℕ
fixed_binary_version = 1

unfoldable pub compute_note_commitment_unchecked : Primitives → NoteV1 → ℕ
compute_note_commitment_unchecked c note = mimc_hash c (
    domain_field_v1 c "clairveil.note-commitment.v1"
    ∷ note.receiver_spend_pub_key_x
    ∷ note.receiver_spend_pub_key_y
    ∷ note.receiver_view_pub_key_x
    ∷ note.receiver_view_pub_key_y
    ∷ note.amount
    ∷ note.asset_id
    ∷ note.randomness
    ∷ [])

unfoldable pub compute_note_nullifier_unchecked : Primitives → NoteV1 → ℕ
compute_note_nullifier_unchecked c note = mimc_hash c (
    domain_field_v1 c "clairveil.note-nullifier.v1"
    ∷ compute_note_commitment_unchecked c note
    ∷ note.randomness
    ∷ note.receiver_spend_pub_key_x
    ∷ note.receiver_spend_pub_key_y
    ∷ [])

unfoldable pub validate_note_v1 : Primitives → NoteV1 → Result NoteV1
validate_note_v1 c note = do
  spend_x ← field note.receiver_spend_pub_key_x false
  spend_y ← field note.receiver_spend_pub_key_y false
  view_x ← field note.receiver_view_pub_key_x false
  view_y ← field note.receiver_view_pub_key_y false
  amount ← uint note.amount 64
  asset_id ← field note.asset_id true
  randomness ← field note.randomness false
  let normalized : NoteV1 = record {
    receiver_spend_pub_key_x = spend_x;
    receiver_spend_pub_key_y = spend_y;
    receiver_view_pub_key_x = view_x;
    receiver_view_pub_key_y = view_y;
    amount = amount;
    asset_id = asset_id;
    randomness = randomness;
    memo = note.memo;
  }
  assert (leb (length (c.utf8_bytes note.memo)) note_memo_capacity_v1)
      "NoteV1 memo exceeds fixed capacity"
  spend_key ← point_from_coordinates spend_x spend_y
  view_key ← point_from_coordinates view_x view_y
  reject
      (compute_note_commitment_unchecked c normalized == 0
        || compute_note_nullifier_unchecked c normalized == 0)
      "NoteV1 active commitment and nullifier must be non-zero"
  ok normalized

unfoldable pub compute_note_commitment_v1 : Primitives → NoteV1 → Result ℕ
compute_note_commitment_v1 c note = do
  normalized ← validate_note_v1 c note
  ok (compute_note_commitment_unchecked c normalized)

unfoldable pub compute_note_nullifier_v1 : Primitives → NoteV1 → Result ℕ
compute_note_nullifier_v1 c note = do
  normalized ← validate_note_v1 c note
  commitment ← compute_note_commitment_v1 c normalized
  ok (
      mimc_hash c (
        domain_field_v1 c "clairveil.note-nullifier.v1"
        ∷ commitment
        ∷ normalized.randomness
        ∷ normalized.receiver_spend_pub_key_x
        ∷ normalized.receiver_spend_pub_key_y
        ∷ []))

unfoldable pub marshal_note_plaintext_v1 : Primitives → NoteV1 → Result (List ℕ)
marshal_note_plaintext_v1 c note = do
  normalized ← validate_note_v1 c note
  let memo = c.utf8_bytes normalized.memo
  version ← u16be fixed_binary_version
  amount ← u64be normalized.amount
  memo_length ← u16be (length memo)
  ok (
      concat_bytes (
        fixed_domain_tag c "clairveil.note-plaintext.v1"
        ∷ version
        ∷ replicate 2 0
        ∷ canonical_field_bytes normalized.receiver_spend_pub_key_x
        ∷ canonical_field_bytes normalized.receiver_spend_pub_key_y
        ∷ canonical_field_bytes normalized.receiver_view_pub_key_x
        ∷ canonical_field_bytes normalized.receiver_view_pub_key_y
        ∷ amount
        ∷ canonical_field_bytes normalized.asset_id
        ∷ canonical_field_bytes normalized.randomness
        ∷ memo_length
        ∷ memo
        ∷ replicate (note_memo_capacity_v1 - length memo) 0
        ∷ []))

-- The tag, the version and the reserved bytes in front of the fields.
unfoldable pub read_note_header : Primitives → List ℕ → Result (List ℕ)
read_note_header c encoded = do
  let (tag, r1) = split 16 encoded
  assert (equal_bytes tag (fixed_domain_tag c "clairveil.note-plaintext.v1"))
      "invalid NotePlaintextV1 domain tag"
  let (version, r2) = read_uint 2 r1
  assert (version == fixed_binary_version) "unsupported NotePlaintextV1 version"
  let (flags, r3) = split 2 r2
  assert (all (λ b. b == 0) flags) "NotePlaintextV1 reserved flags must be zero"
  ok r3

-- The length of a memo, the memo and its padding.
unfoldable pub read_note_memo : Primitives → List ℕ → Result (List ℕ)
read_note_memo c bs = do
  let (memo_length, rest) = read_uint 2 bs
  assert (leb memo_length note_memo_capacity_v1) "NotePlaintextV1 memo exceeds fixed capacity"
  let (memo_bytes, padding) = split memo_length (take note_memo_capacity_v1 rest)
  assert (all (λ b. b == 0) padding) "NotePlaintextV1 memo padding must be zero"
  assert (c.valid_utf8 memo_bytes) "NotePlaintextV1 memo must be valid UTF-8"
  ok (c.utf8_string memo_bytes)

unfoldable pub unmarshal_note_plaintext_v1 : Primitives → List ℕ → Result NoteV1
unmarshal_note_plaintext_v1 c encoded = do
  assert (length encoded == note_plaintext_v1_size) "NotePlaintextV1 must be of its exact size"
  r0 ← read_note_header c encoded
  (spend_x, r1) ← read_field false r0
  (spend_y, r2) ← read_field false r1
  (view_x, r3) ← read_field false r2
  (view_y, r4) ← read_field false r3
  let (amount, r5) = read_uint 8 r4
  (asset_id, r6) ← read_field true r5
  (randomness, r7) ← read_field false r6
  memo ← read_note_memo c r7
  validate_note_v1 c (record {
    receiver_spend_pub_key_x = spend_x;
    receiver_spend_pub_key_y = spend_y;
    receiver_view_pub_key_x = view_x;
    receiver_view_pub_key_y = view_y;
    amount = amount;
    asset_id = asset_id;
    randomness = randomness;
    memo = memo;
  })
