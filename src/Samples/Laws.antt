-- ===== src/Samples/Laws.antt =====
-- The stand-ins keep what is documented of the packages.
use clairveiljs.Prelude.{
  ℕ, ◌+◌, ◌-◌, ◌*◌, List, [], ◌∷◌, ◌++◌, take, length, length-append, replicate, ok, ◌≡◌, refl, ap,
  ◌∙◌, arith,
}
use clairveiljs.Crypto.Primitives.{HasLaws}
use clairveiljs.Crypto.Bytes.{bytes_to_big_int_be}
use clairveiljs.Crypto.Bytes.Laws.{IsBytes, length-big_endian, big_endian-IsBytes}
use clairveiljs.Wire.Note.{
  validate_note_v1, compute_note_commitment_unchecked, compute_note_nullifier_unchecked,
}
use clairveiljs.Wire.Bytes.{uint, field}
use clairveiljs.Wire.Domain.{point_from_coordinates, canonical_point, domain_field_v1}
use clairveiljs.Crypto.Curve.{pack_point, unpack_point}
use clairveiljs.Crypto.Mimc.{mimc_hash}
use clairveiljs.Samples.{mixed, low_bytes, sample, sample_note}

low_bytes-IsBytes : (text : List ℕ) → IsBytes (low_bytes text)
unfolding low_bytes
low_bytes-IsBytes [] = tt
low_bytes-IsBytes (c ∷ cs) = (omega arith, low_bytes-IsBytes cs)

take-length-append : (bs cs : List ℕ) → take (length bs) (bs ++ cs) ≡ bs
take-length-append [] cs = refl
take-length-append (b ∷ bs) cs = ap (λ (r : List ℕ). b ∷ r) (take-length-append bs cs)

unsealed :
    (plaintext : List ℕ)
    → take (length (plaintext ++ replicate 16 0) - 16) (plaintext ++ replicate 16 0) ≡ plaintext
unsealed plaintext =
    ap (λ (n : ℕ). take n (plaintext ++ replicate 16 0))
      (omega (arith, length-append plaintext (replicate 16 0)))
    ∙ take-length-append plaintext (replicate 16 0)

pub sample-HasLaws : HasLaws sample
unfolding mixed
sample-HasLaws = record {
  length-sha256 = λ bs. length-big_endian 32 (bytes_to_big_int_be bs * 65537 + 65537);
  sha256-bytes = λ bs. big_endian-IsBytes 32 (bytes_to_big_int_be bs * 65537 + 65537);
  utf8_bytes-bytes = low_bytes-IsBytes;
  utf8_bytes-valid = λ text. refl;
  decrypt-encrypt = λ key nonce plaintext. ap ok (unsealed plaintext);
  length-aes_gcm_encrypt = λ key nonce plaintext. length-append plaintext (replicate 16 0);
}

-- The keys of the note are points of the curve, and its hashes are not zero.
pub sample_note-valid : validate_note_v1 sample sample_note ≡ ok sample_note
unfolding validate_note_v1 field uint point_from_coordinates canonical_point pack_point unpack_point
    domain_field_v1 mimc_hash compute_note_commitment_unchecked compute_note_nullifier_unchecked
    low_bytes mixed
sample_note-valid = refl
