-- ===== src/Merkle/Hex.antt =====
-- src/core/crypto.js: a field element is read back from its hexadecimal text.
use native.Mathlib.Nat.{mod-mod, mod-eq_of_lt}
use clairveiljs.Prelude.{ℕ, ◌+◌, ◌*◌, ◌/◌, ◌%◌, ◌<◌, List, [], ◌∷◌, ◌≡◌, refl, ◌∙◌, ap, arith}
use clairveiljs.Crypto.Field.{field_modulus}
use clairveiljs.Crypto.Bytes.{
  big_endian, big_int_to_bytes_be, bytes_to_big_int_be, canonical_field_bytes,
}
use clairveiljs.Crypto.Bytes.Laws.{IsBytes, big_endian-IsBytes, bytes_to_big_int_be-big_endian}
use clairveiljs.Notes.Found.{hex_digit, hex_from_bytes, canonical_field_hex}
use clairveiljs.Merkle.{nibble, bytes_from_hex}

nibble-hex_digit : (n : ℕ) → n < 16 → nibble (hex_digit n) ≡ n
unfolding nibble hex_digit
nibble-hex_digit n h = ground arith

bytes_from_hex-hex_from_bytes : (bs : List ℕ) → IsBytes bs → bytes_from_hex (hex_from_bytes bs) ≡ bs
unfolding bytes_from_hex hex_from_bytes
bytes_from_hex-hex_from_bytes [] h = refl
bytes_from_hex-hex_from_bytes (b ∷ bs) h =
    let byte : nibble (hex_digit (b / 16)) * 16 + nibble (hex_digit (b % 16)) ≡ b =
      omega
        (arith, nibble-hex_digit (b / 16) (omega arith), nibble-hex_digit (b % 16) (omega arith)) in
    λ i. byte i ∷ bytes_from_hex-hex_from_bytes bs h.1 i

pub field_of_hex-canonical_field_hex :
    (value : ℕ)
    → value < field_modulus
    → bytes_to_big_int_be (bytes_from_hex (canonical_field_hex value)) ≡ value
unfolding canonical_field_hex canonical_field_bytes big_int_to_bytes_be
field_of_hex-canonical_field_hex value below =
    let reduced : value % field_modulus % field_modulus ≡ value =
      mod-mod value field_modulus ∙ mod-eq_of_lt below in
    ap bytes_to_big_int_be (
      bytes_from_hex-hex_from_bytes (big_endian 32 (value % field_modulus % field_modulus))
        (big_endian-IsBytes 32 (value % field_modulus % field_modulus)))
    ∙ ap (λ (n : ℕ). bytes_to_big_int_be (big_endian 32 n)) reduced
    ∙ bytes_to_big_int_be-big_endian 32 value (omega arith)
