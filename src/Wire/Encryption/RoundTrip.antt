-- ===== src/Wire/Encryption/RoundTrip.antt =====
-- src/privacy/protocol-v1.js: what is encrypted is decrypted.
use clairveiljs.Prelude.{ℕ, List, ◌++◌, length, take, drop, ok, length-append, ◌≡◌, sym, ap, arith}
use mathlib.Core.List.{append-nil}
use clairveiljs.Crypto.Primitives.{Primitives, HasLaws}
use clairveiljs.Wire.Bytes.{split, concat_bytes}
use clairveiljs.Wire.Bytes.Laws.{split-append}
use clairveiljs.Wire.Note.{NoteV1, validate_note_v1}
use clairveiljs.Wire.Note.RoundTrip.{unmarshal_note_plaintext_v1-marshal_note_plaintext_v1}
use clairveiljs.Wire.Envelope.{envelope_ciphertext_size}
use clairveiljs.Wire.Envelope.RoundTrip.{
  wrap_sized, unwrap_encrypted_envelope_v1-wrap_encrypted_envelope_v1,
}
use clairveiljs.Wire.Encryption.{encrypt_deposit_note_v1, decrypt_deposit_note_v1}

-- A nonce in front of a ciphertext is taken off again.
take-drop_nonce :
    (nonce rest : List ℕ)
    → length nonce ≡ 12
    → (take 12 (nonce ++ rest) ≡ nonce) × (drop 12 (nonce ++ rest) ≡ rest)
unfolding split
take-drop_nonce nonce rest long =
    let both = split-append 12 nonce rest long in (λ i. (both i).0, λ i. (both i).1)

deposit_sized : (raw : List ℕ) → length raw ≡ 378 → envelope_ciphertext_size 1 ≡ ok (length raw)
unfolding envelope_ciphertext_size
deposit_sized raw sized = ap ok (sym sized)

-- A note that is accepted and encrypted with the seed of a wallet and a nonce of 12 bytes is
-- decrypted with that seed, if the platform decodes its memo to the text that was encoded.
pub decrypt_deposit_note_v1-encrypt_deposit_note_v1 :
    {c : Primitives}
    → HasLaws c
    → (note : NoteV1) (nonce root_seed : List ℕ) {n : NoteV1} → length nonce ≡ 12
    → c.utf8_string (c.utf8_bytes note.memo) ≡ note.memo
    → validate_note_v1 c note ≡ ok n
    → (ciphertext : List ℕ) × (encrypt_deposit_note_v1 c nonce note root_seed ≡ ok ciphertext)
      × (decrypt_deposit_note_v1 c ciphertext root_seed ≡ ok note)
unfolding encrypt_deposit_note_v1 decrypt_deposit_note_v1 concat_bytes
decrypt_deposit_note_v1-encrypt_deposit_note_v1 {c} laws note nonce root_seed long kept valid =
    let (plaintext, marshalled, size, read) =
      unmarshal_note_plaintext_v1-marshal_note_plaintext_v1 laws note kept valid in
    let key = c.sha256 root_seed in
    let encrypted = c.aes_gcm_encrypt key nonce plaintext in
    let raw = nonce ++ encrypted in
    let sized : length raw ≡ 378 =
      omega
        (arith, length-append nonce encrypted, laws.length-aes_gcm_encrypt key nonce plaintext) in
    let (ciphertext, wrapped) = wrap_sized laws 1 raw (deposit_sized raw sized) in
    let unwrapped =
      (unwrap_encrypted_envelope_v1-wrap_encrypted_envelope_v1 laws 1 raw ciphertext).1 wrapped in
    let (nonce_back, rest_back) = take-drop_nonce nonce encrypted long in
    (
      ciphertext,
      rw (marshalled, append-nil encrypted, wrapped),
      rw (unwrapped, nonce_back, rest_back, laws.decrypt-encrypt key nonce plaintext, read),
    )
