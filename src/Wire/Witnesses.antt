-- ===== src/Wire/Witnesses.antt =====
-- The theorems about the wire formats at a note, a disclosure and an envelope.
use clairveiljs.Prelude.{
  arith, ℕ, ◌%◌, ◌/◌, ◌*◌, ◌-◌, List, [], length, replicate, some, ok, ◌≡◌, ◌↔◌, refl,
}
use clairveiljs.Reservation.Runs.{from_ok}
use clairveiljs.Crypto.Curve.{curve_base}
use clairveiljs.Wire.Note.{marshal_note_plaintext_v1, unmarshal_note_plaintext_v1}
use clairveiljs.Wire.Note.RoundTrip.{unmarshal_note_plaintext_v1-marshal_note_plaintext_v1}
use clairveiljs.Wire.Envelope.{wrap_encrypted_envelope_v1, unwrap_encrypted_envelope_v1}
use clairveiljs.Wire.Envelope.RoundTrip.{unwrap_encrypted_envelope_v1-wrap_encrypted_envelope_v1}
use clairveiljs.Wire.Disclosure.{
  Keys, DisclosureV1, marshal_disclosure_plaintext_v1, unmarshal_disclosure_plaintext_v1,
}
use clairveiljs.Wire.Disclosure.Policy.{AreHidden, normalize_disclosure_plaintext_v1-AreHidden}
use clairveiljs.Wire.Disclosure.RoundTrip.{
  unmarshal_disclosure_plaintext_v1-marshal_disclosure_plaintext_v1,
}
use clairveiljs.Wire.Encryption.{encrypt_deposit_note_v1, decrypt_deposit_note_v1}
use clairveiljs.Wire.Encryption.RoundTrip.{decrypt_deposit_note_v1-encrypt_deposit_note_v1}
use clairveiljs.Text.{codes}
use clairveiljs.Wire.Intent.{
  Digest, SpendIntent, write_length_prefixed, digest_of, compute_chain_domain_v1,
  compute_withdraw_recipient_digest_v1, compute_spend_intent_v2,
}
use clairveiljs.Wire.Intent.Accepted.{compute_spend_intent_v2-accepts}
use clairveiljs.Samples.{sample, sample_note, low_bytes}
use clairveiljs.Samples.Laws.{sample-HasLaws, sample_note-valid}
use clairveiljs.Samples.Code.{wire_code}

-- The amount and the sender of an output.
abbrev base_keys : Keys
base_keys = record {
  spend_x = curve_base.x;
  spend_y = curve_base.y;
  view_x = curve_base.x;
  view_y = curve_base.y;
}

abbrev no_keys : Keys
no_keys = record { spend_x = 0; spend_y = 0; view_x = 0; view_y = 0 }

abbrev disclosure : DisclosureV1
disclosure = record {
  plane = 1;
  output_index = 3;
  policy = 5;
  disclosed_field_bitmap = 5;
  commitment = 11;
  amount = 1000;
  asset_id = 7;
  sender = base_keys;
  recipient = no_keys;
  disclosure_blinding = 13;
}

unmarshal_note_plaintext_v1-marshal_note_plaintext_v1_example :
    (encoded : List ℕ) × (marshal_note_plaintext_v1 sample sample_note ≡ ok encoded)
    × (length encoded ≡ 350)
    × (unmarshal_note_plaintext_v1 sample encoded ≡ ok sample_note)
unfolding low_bytes
unmarshal_note_plaintext_v1-marshal_note_plaintext_v1_example =
    unmarshal_note_plaintext_v1-marshal_note_plaintext_v1 sample-HasLaws sample_note refl
      sample_note-valid

abbrev envelope : List ℕ
envelope = from_ok [] (wrap_encrypted_envelope_v1 sample 2 (replicate 410 1))

unwrap_encrypted_envelope_v1-wrap_encrypted_envelope_v1_example :
    (unwrap_encrypted_envelope_v1 sample envelope (some 2) ≡ ok (replicate 410 1))
    ↔ (wrap_encrypted_envelope_v1 sample 2 (replicate 410 1) ≡ ok envelope)
unwrap_encrypted_envelope_v1-wrap_encrypted_envelope_v1_example =
    unwrap_encrypted_envelope_v1-wrap_encrypted_envelope_v1 sample-HasLaws 2 (replicate 410 1)
      envelope

normalize_disclosure_plaintext_v1-AreHidden_example :
    (disclosure ≡ disclosure)
    × (◌≡◌ {A = ℕ} 5 5)
    × ((1 - 5 % 2) * 1000 ≡ 0)
    × AreHidden (5 / 4 % 2) base_keys
    × AreHidden (5 / 2 % 2) no_keys
unfolding wire_code
normalize_disclosure_plaintext_v1-AreHidden_example =
    normalize_disclosure_plaintext_v1-AreHidden disclosure refl refl

unmarshal_disclosure_plaintext_v1-marshal_disclosure_plaintext_v1_example :
    (encoded : List ℕ) × (marshal_disclosure_plaintext_v1 sample disclosure ≡ ok encoded)
    × (length encoded ≡ 392)
    × (unmarshal_disclosure_plaintext_v1 sample encoded ≡ ok disclosure)
unfolding wire_code
unmarshal_disclosure_plaintext_v1-marshal_disclosure_plaintext_v1_example =
    unmarshal_disclosure_plaintext_v1-marshal_disclosure_plaintext_v1 sample-HasLaws disclosure refl

decrypt_deposit_note_v1-encrypt_deposit_note_v1_example :
    (ciphertext : List ℕ) × (encrypt_deposit_note_v1 sample
        (replicate 12 4)
        sample_note
        (replicate 32 8)
      ≡ ok ciphertext)
    × (decrypt_deposit_note_v1 sample ciphertext (replicate 32 8) ≡ ok sample_note)
unfolding low_bytes
decrypt_deposit_note_v1-encrypt_deposit_note_v1_example =
    decrypt_deposit_note_v1-encrypt_deposit_note_v1 sample-HasLaws sample_note (replicate 12 4)
      (replicate 32 8) refl refl sample_note-valid

-- A withdrawal of 1000 on the chain "clair-1".
abbrev no_digest : Digest
no_digest = record { encoded = []; hi = 0; lo = 0 }

abbrev chain : Digest
chain =
    from_ok no_digest (compute_chain_domain_v1 sample (codes "clair-1") (codes "privacy-note-v1"))

abbrev recipient : Digest
recipient = from_ok no_digest (compute_withdraw_recipient_digest_v1 sample (replicate 20 7))

abbrev withdrawal : SpendIntent
withdrawal = record {
  chain_domain = chain;
  root = 11;
  nullifier = 12;
  amount = 1000;
  asset_id = 7;
  recipient_digest = recipient;
  expires_at_unix = 1900000000;
}

compute_spend_intent_v2-accepts_example :
    (signed : ℕ) × (compute_spend_intent_v2 sample withdrawal ≡ ok signed)
unfolding wire_code write_length_prefixed digest_of compute_chain_domain_v1
    compute_withdraw_recipient_digest_v1
compute_spend_intent_v2-accepts_example =
    compute_spend_intent_v2-accepts sample-HasLaws (codes "clair-1") (codes "privacy-note-v1")
      (replicate 20 7) withdrawal refl refl (λ e. cc) (omega arith) (λ e. cc) (omega arith)
      (omega arith) (λ e. cc) (omega arith) (λ e. cc) (omega arith)
