-- ===== src/Wire/Bytes.antt =====
-- src/privacy/protocol-v1.js: unsigned integers and field elements as big-endian bytes, and a cursor
-- over the bytes that are read.
pub mod Laws
use clairveiljs.Prelude.{
  ℕ, zero, suc, ◌+◌, ◌*◌, ◌/◌, ◌%◌, ◌^◌, String, Bool, List, [], ◌∷◌, ◌++◌, ltb, ◌==◌, not, length,
  take, drop, replicate, Result, ok, ◌>>=◌, ◌>>◌, assert, if◌then◌else◌, ◌&&◌, all,
}
use clairveiljs.Text.{codes_eq}
use clairveiljs.Crypto.Field.{field_modulus}
use clairveiljs.Crypto.Bytes.{big_endian, bytes_to_big_int_be}

-- The value of an integer below `2 ^ bits`, or the error of the check.
unfoldable pub uint : ℕ → ℕ → Result ℕ
uint value bits = assert (ltb value (2 ^ bits)) "must be an unsigned integer" >> ok value

-- A canonical element of the field of the curve.
unfoldable pub field : ℕ → Bool → Result ℕ
field value non_zero = do
  assert (ltb value field_modulus && not (non_zero && value == 0))
      "must be a canonical BN254 field element"
  ok value

-- `Uint8Array.of` of the shifts of a number.
unfoldable pub u16_bytes : ℕ → List ℕ
u16_bytes n = n / 256 ∷ n % 256 ∷ []

unfoldable pub u32_bytes : ℕ → List ℕ
u32_bytes n = n / 16777216 % 256 ∷ n / 65536 % 256 ∷ n / 256 % 256 ∷ n % 256 ∷ []

unfoldable pub u16be : ℕ → Result (List ℕ)
unfolding uint u16_bytes
u16be value = uint value 16 >>= λ n. ok (u16_bytes n)

unfoldable pub u32be : ℕ → Result (List ℕ)
unfolding uint u32_bytes
u32be value = uint value 32 >>= λ n. ok (u32_bytes n)

unfoldable pub u64be : ℕ → Result (List ℕ)
unfolding uint big_endian
u64be value = uint value 64 >>= λ n. ok (big_endian 8 n)

-- `slice(offset, offset + n)` and the bytes from `offset + n` on.
unfoldable pub split : ℕ → List ℕ → List ℕ × List ℕ
split n bs = (take n bs, drop n bs)

-- `readU16`, `readU32` and `readU64`: the shifts of bytes do not overlap.
unfoldable pub read_uint : ℕ → List ℕ → ℕ × List ℕ
unfolding bytes_to_big_int_be split
read_uint n bs = (bytes_to_big_int_be (split n bs).0, (split n bs).1)

-- `fieldFromBytes` of the next 32 bytes, with its value.
unfoldable pub read_field : Bool → List ℕ → Result (ℕ × List ℕ)
unfolding field read_uint
read_field non_zero bs = do
  let (value, rest) = read_uint 32 bs
  n ← field value non_zero
  ok (n, rest)

-- `concatBytes`
unfoldable pub concat_bytes : List (List ℕ) → List ℕ
concat_bytes [] = []
concat_bytes (bs ∷ rest) = bs ++ concat_bytes rest

-- `equalBytes`: as long, and no two bytes differ.
unfoldable pub equal_bytes : List ℕ → List ℕ → Bool
unfolding codes_eq
equal_bytes left right = codes_eq left right
