-- ===== src/Wire/Encryption.antt =====
-- src/privacy/protocol-v1.js: notes and disclosures as ciphertexts in envelopes. What `randomBytes`
-- returns is an argument: the nonce, and the first scalar of its loop that is not zero.
pub mod RoundTrip
use clairveiljs.Prelude.{
  ℕ, zero, suc, ◌%◌, String, Bool, true, false, ◌||◌, List, [], ◌∷◌, length, take, drop, leb, ◌==◌,
  some, Result, ok, err, ◌>>=◌, ◌>>◌, assert, if◌then◌else◌,
}
use clairveiljs.Text.{codes}
use clairveiljs.Crypto.Primitives.{Primitives}
use clairveiljs.Crypto.Bytes.{canonical_field_bytes, bytes_to_big_int_be}
use clairveiljs.Crypto.Curve.{Point, curve_base, scalar_multiply, pack_point, unpack_point}
use clairveiljs.Crypto.Mimc.{mimc_hash, hash_string_to_field}
use clairveiljs.Wire.Bytes.{uint, field, read_field, concat_bytes}
use clairveiljs.Wire.Domain.{point_from_coordinates}
use clairveiljs.Wire.Note.{
  NoteV1, validate_note_v1, marshal_note_plaintext_v1, unmarshal_note_plaintext_v1,
}
use clairveiljs.Wire.Envelope.{
  deposit_note_kind, transfer_note_kind, user_disclosure_kind, audit_disclosure_kind,
  self_view_disclosure_kind, wrap_encrypted_envelope_v1, unwrap_encrypted_envelope_v1,
}
use clairveiljs.Wire.Disclosure.{
  DisclosureV1, marshal_disclosure_plaintext_v1, unmarshal_disclosure_plaintext_v1,
}

unfoldable pub encrypt_deposit_note_v1 : Primitives → List ℕ → NoteV1 → List ℕ → Result (List ℕ)
encrypt_deposit_note_v1 c nonce note root_seed = do
  plaintext ← marshal_note_plaintext_v1 c note
  wrap_encrypted_envelope_v1 c deposit_note_kind
      (concat_bytes (nonce ∷ c.aes_gcm_encrypt (c.sha256 root_seed) nonce plaintext ∷ []))

unfoldable pub decrypt_deposit_note_v1 : Primitives → List ℕ → List ℕ → Result NoteV1
decrypt_deposit_note_v1 c ciphertext root_seed = do
  raw ← unwrap_encrypted_envelope_v1 c ciphertext (some deposit_note_kind)
  plaintext ← c.aes_gcm_decrypt (c.sha256 root_seed) (take 12 raw) (drop 12 raw)
  unmarshal_note_plaintext_v1 c plaintext

pub record Sealed : Type 0 where
  pub ciphertext : List ℕ
  pub shared_point : Point

unfoldable pub asym_encrypt_v1 : Primitives → ℕ → List ℕ → List ℕ → Point → Result Sealed
asym_encrypt_v1 c scalar nonce plaintext receiver = do
  receiver_point ← point_from_coordinates receiver.x receiver.y
  ephemeral ← scalar_multiply curve_base scalar
  shared_point ← scalar_multiply receiver_point scalar
  ok (record {
    ciphertext = concat_bytes (
        pack_point ephemeral
        ∷ nonce
        ∷ c.aes_gcm_encrypt (c.sha256 (pack_point shared_point)) nonce plaintext
        ∷ []);
    shared_point = shared_point;
  })

unfoldable pub asym_decrypt_v1 : Primitives → List ℕ → ℕ → Result (List ℕ)
asym_decrypt_v1 c raw scalar = do
  assert (leb 60 (length raw)) "ECIES ciphertext is too short"
  ephemeral ← unpack_point (take 32 raw)
  k ← field scalar true
  shared_point ← scalar_multiply ephemeral k
  c.aes_gcm_decrypt (c.sha256 (pack_point shared_point)) (take 12 (drop 32 raw)) (drop 44 raw)

-- `fieldFromBytes`: bytes that are a field element.
unfoldable pub field_from_bytes : Bool → List ℕ → Result (List ℕ)
field_from_bytes non_zero raw = do
  assert (length raw == 32) "must be exactly 32 bytes"
  value ← field (bytes_to_big_int_be raw) non_zero
  ok raw

unfoldable pub view_tag : Primitives → Point → List ℕ → ℕ → Result (List ℕ)
view_tag c shared_point output_commitment output_index = do
  commitment ← field_from_bytes true output_commitment
  index ← uint output_index 32
  ok (
      take 2 (
        canonical_field_bytes (
          mimc_hash c (
            hash_string_to_field c (codes "clairveil.view_tag.v1")
            ∷ shared_point.x
            ∷ shared_point.y
            ∷ bytes_to_big_int_be commitment
            ∷ index
            ∷ []))))

pub record TransferCiphertext : Type 0 where
  pub ciphertext : List ℕ
  pub tag : List ℕ

unfoldable pub encrypt_note_for_transfer_v1 :
    Primitives → ℕ → List ℕ → NoteV1 → List ℕ → ℕ → Result TransferCiphertext
encrypt_note_for_transfer_v1 c scalar nonce note output_commitment output_index = do
  normalized ← validate_note_v1 c note
  plaintext ← marshal_note_plaintext_v1 c normalized
  raw ←
      asym_encrypt_v1 c scalar nonce plaintext
        (record { x = normalized.receiver_view_pub_key_x; y = normalized.receiver_view_pub_key_y })
  tag ← view_tag c raw.shared_point output_commitment output_index
  envelope ← wrap_encrypted_envelope_v1 c transfer_note_kind raw.ciphertext
  ok (record { ciphertext = envelope; tag = tag })

unfoldable pub decrypt_transfer_note_v1 : Primitives → List ℕ → ℕ → Result NoteV1
decrypt_transfer_note_v1 c ciphertext scalar = do
  raw ← unwrap_encrypted_envelope_v1 c ciphertext (some transfer_note_kind)
  plaintext ← asym_decrypt_v1 c raw scalar
  unmarshal_note_plaintext_v1 c plaintext

unfoldable pub disclosure_envelope_kind_v1 : ℕ → Result ℕ
disclosure_envelope_kind_v1 kind = do
  assert
      (kind == user_disclosure_kind
        || kind == audit_disclosure_kind
        || kind == self_view_disclosure_kind)
      "disclosure envelope kind must be user, audit, or self-view disclosure"
  ok kind

unfoldable pub encrypt_disclosure_v1 :
    Primitives → ℕ → List ℕ → DisclosureV1 → Point → ℕ → Result (List ℕ)
encrypt_disclosure_v1 c scalar nonce disclosure target kind = do
  envelope_kind ← disclosure_envelope_kind_v1 kind
  plaintext ← marshal_disclosure_plaintext_v1 c disclosure
  raw ← asym_encrypt_v1 c scalar nonce plaintext target
  wrap_encrypted_envelope_v1 c envelope_kind raw.ciphertext

unfoldable pub decrypt_disclosure_v1 : Primitives → List ℕ → ℕ → ℕ → Result DisclosureV1
decrypt_disclosure_v1 c ciphertext scalar expected_kind = do
  envelope_kind ← disclosure_envelope_kind_v1 expected_kind
  raw ← unwrap_encrypted_envelope_v1 c ciphertext (some envelope_kind)
  plaintext ← asym_decrypt_v1 c raw scalar
  unmarshal_disclosure_plaintext_v1 c plaintext
