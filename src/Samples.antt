-- ===== src/Samples.antt =====
-- Stand-ins for the packages and the platform that src/core/crypto.js and src/core/browser-crypto.js
-- call, with which the code is run. They hash and encrypt nothing, and keep what is documented.
pub mod Laws
pub mod Code
use Prim.Native.Nat.{compare}
use clairveiljs.Prelude.{
  ℕ, zero, suc, ◌+◌, ◌-◌, ◌*◌, ◌%◌, true, List, [], ◌∷◌, ◌++◌, map, take, length, replicate, ok,
}
use clairveiljs.Text.{codes}
use clairveiljs.Crypto.Primitives.{Primitives}
use clairveiljs.Crypto.Bytes.{big_endian, bytes_to_big_int_be}
use clairveiljs.Crypto.Curve.{curve_base}
use clairveiljs.Wire.Note.{NoteV1}
use clairveiljs.Notes.Order.{Collation}

-- Bytes as an integer, spread by a factor, in 32 bytes.
unfoldable pub mixed : ℕ → List ℕ → List ℕ
unfolding big_endian bytes_to_big_int_be
mixed factor bs = big_endian 32 (bytes_to_big_int_be bs * factor + factor)

unfoldable pub low_bytes : List ℕ → List ℕ
low_bytes [] = []
low_bytes (c ∷ cs) = c % 256 ∷ low_bytes cs

abbrev pub sample : Primitives
sample = record {
  sha256 = mixed 65537;
  keccak_256 = mixed 131071;
  utf8_bytes = low_bytes;
  utf8_string = λ bs. bs;
  valid_utf8 = λ bs. true;
  aes_gcm_encrypt = λ key nonce plaintext. plaintext ++ replicate 16 0;
  aes_gcm_decrypt = λ key nonce ciphertext. ok (take (length ciphertext - 16) ciphertext);
}

abbrev pub by_code : Collation
by_code left right = compare (bytes_to_big_int_be left) (bytes_to_big_int_be right)

abbrev pub sample_note : NoteV1
sample_note = record {
  receiver_spend_pub_key_x = curve_base.x;
  receiver_spend_pub_key_y = curve_base.y;
  receiver_view_pub_key_x = curve_base.x;
  receiver_view_pub_key_y = curve_base.y;
  amount = 5;
  asset_id = 7;
  randomness = 9;
  memo = codes "rent";
}
