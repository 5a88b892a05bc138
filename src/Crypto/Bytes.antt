-- ===== src/Crypto/Bytes.antt =====
-- src/core/crypto.js: the bytes of integers, and the hexadecimal text of src/core/browser-crypto.js.
-- A byte array is a list of numbers below 256.
pub mod Laws
use clairveiljs.Prelude.{ℕ, zero, suc, ◌+◌, ◌*◌, ◌/◌, ◌%◌, List, [], ◌∷◌, ◌++◌}
use mathlib.Core.List.{reverse}
use clairveiljs.Crypto.Field.{field_modulus}

-- The last byte of a number, behind the bytes of what is left of it.
unfoldable pub big_endian : ℕ → ℕ → List ℕ
big_endian zero n = []
big_endian (suc k) n = big_endian k (n / 256) ++ n % 256 ∷ []

-- `bigIntToBytesBE(value, 32)`: a field element has at most 64 digits, so that it always fits.
unfoldable pub big_int_to_bytes_be : ℕ → List ℕ
unfolding big_endian
big_int_to_bytes_be value = big_endian 32 (value % field_modulus)

unfoldable pub big_int_to_bytes_le : ℕ → List ℕ
unfolding big_int_to_bytes_be
big_int_to_bytes_le value = reverse (big_int_to_bytes_be value)

unfoldable pub canonical_field_bytes : ℕ → List ℕ
unfolding big_int_to_bytes_be
canonical_field_bytes value = big_int_to_bytes_be (value % field_modulus)

-- The value of big-endian bytes behind what was read before.
unfoldable pub read_from : ℕ → List ℕ → ℕ
read_from acc [] = acc
read_from acc (b ∷ bs) = read_from (acc * 256 + b) bs

unfoldable pub bytes_to_big_int_be : List ℕ → ℕ
unfolding read_from
bytes_to_big_int_be bs = read_from 0 bs

unfoldable pub bytes_to_big_int_le : List ℕ → ℕ
unfolding bytes_to_big_int_be
bytes_to_big_int_le bs = bytes_to_big_int_be (reverse bs)

-- `toField` of bytes.
unfoldable pub to_field : List ℕ → ℕ
unfolding bytes_to_big_int_be
to_field bs = bytes_to_big_int_be bs % field_modulus
