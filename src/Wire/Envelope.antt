-- ===== src/Wire/Envelope.antt =====
-- src/privacy/protocol-v1.js: the envelope around a ciphertext of fixed length.

pub mod RoundTrip
use clairveiljs.Prelude.{
  ℕ, zero, suc, ◌+◌, String, Bool, true, false, List, [], ◌∷◌, length, leb, ◌==◌, Option, none,
  some, Result, ok, err, ◌>>=◌, ◌>>◌, assert, if◌then◌else◌,
}
use clairveiljs.Crypto.Primitives.{Primitives}
use clairveiljs.Wire.Bytes.{u16be, split, read_uint, concat_bytes, equal_bytes}
use clairveiljs.Wire.Domain.{fixed_domain_tag}
use clairveiljs.Wire.Note.{note_plaintext_v1_size, fixed_binary_version}

abbrev pub disclosure_plaintext_v1_size : ℕ
disclosure_plaintext_v1_size = 392

abbrev pub encrypted_envelope_v1_header_size : ℕ
encrypted_envelope_v1_header_size = 20

-- `encryptedEnvelopeKindV1`
abbrev pub deposit_note_kind : ℕ
deposit_note_kind = 1

abbrev pub transfer_note_kind : ℕ
transfer_note_kind = 2

abbrev pub user_disclosure_kind : ℕ
user_disclosure_kind = 3

abbrev pub audit_disclosure_kind : ℕ
audit_disclosure_kind = 4

abbrev pub self_view_disclosure_kind : ℕ
self_view_disclosure_kind = 5

unfoldable pub envelope_tag : Primitives → List ℕ
envelope_tag c = fixed_domain_tag c "clairveil.encrypted-envelope.v1"

unfoldable pub envelope_ciphertext_size : ℕ → Result ℕ
envelope_ciphertext_size kind =
    if kind == deposit_note_kind
    then ok (note_plaintext_v1_size + 28)
    else if kind == transfer_note_kind
    then ok (note_plaintext_v1_size + 60)
    else if kind == user_disclosure_kind
    then ok (disclosure_plaintext_v1_size + 60)
    else if kind == audit_disclosure_kind
    then ok (disclosure_plaintext_v1_size + 60)
    else if kind == self_view_disclosure_kind
    then ok (disclosure_plaintext_v1_size + 60)
    else err "unsupported encrypted envelope kind"

unfoldable pub wrap_encrypted_envelope_v1 : Primitives → ℕ → List ℕ → Result (List ℕ)
wrap_encrypted_envelope_v1 c kind raw = do
  size ← envelope_ciphertext_size kind
  assert (length raw == size) "encrypted envelope ciphertext must be of its exact size"
  version ← u16be fixed_binary_version
  ok (concat_bytes (envelope_tag c ∷ version ∷ (kind ∷ 0 ∷ []) ∷ raw ∷ []))

-- `expectedKind != null && kind !== Number(expectedKind)`
unfoldable pub is_expected : Option ℕ → ℕ → Bool
is_expected none kind = true
is_expected (some expected) kind = kind == expected

unfoldable pub unwrap_encrypted_envelope_v1 : Primitives → List ℕ → Option ℕ → Result (List ℕ)
unwrap_encrypted_envelope_v1 c encoded expected_kind = do
  assert (leb encrypted_envelope_v1_header_size (length encoded))
      "encrypted envelope is shorter than its header"
  let (tag, r1) = split 16 encoded
  assert (equal_bytes tag (envelope_tag c)) "invalid encrypted envelope domain tag"
  let (version, r2) = read_uint 2 r1
  assert (version == fixed_binary_version) "unsupported encrypted envelope version"
  let (kind, r3) = read_uint 1 r2
  assert (is_expected expected_kind kind) "encrypted envelope kind mismatch"
  let (reserved, raw) = read_uint 1 r3
  assert (reserved == 0) "encrypted envelope reserved byte must be zero"
  size ← envelope_ciphertext_size kind
  assert (length raw == size) "encrypted envelope has invalid fixed length"
  ok raw
