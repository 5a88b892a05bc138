-- ===== src/Crypto/Field.antt =====
-- src/core/crypto.js: arithmetic in the field of the curve. A BigInt is a natural number: where the
-- code subtracts before it reduces, a multiple of the modulus keeps the difference positive.
pub mod Power
pub mod Root
use clairveiljs.Prelude.{
  ℕ, zero, suc, ◌+◌, ◌-◌, ◌*◌, ◌/◌, ◌%◌, ◌^◌, String, Bool, true, false, List, [], ◌∷◌, ltb, leb,
  ◌==◌, Result, ok, err, ◌>>=◌, ◌>>◌, reject, assert, if◌then◌else◌,
}

abbrev pub field_modulus : ℕ
field_modulus = 21888242871839275222246405745257275088548364400416034343698204186575808495617

abbrev pub curve_order : ℕ
curve_order = 2736030358979909402780800718157159386076813972158567259200215660948447373041

-- A difference in the field.
unfoldable pub sub : ℕ → ℕ → ℕ
sub a b = (a % field_modulus + field_modulus - b % field_modulus) % field_modulus

-- The loop of `modPow`: one round for each bit of the exponent.
unfoldable pub mod_pow_from : ℕ → ℕ → ℕ → ℕ → ℕ → ℕ
mod_pow_from zero result x e modulus = result
mod_pow_from (suc fuel) result x e modulus =
    let next =
      mod_pow_from fuel (if e % 2 == 1 then result * x % modulus else result) (x * x % modulus)
        (e / 2) modulus in
    if e == 0 then result else next

-- Exponents have less than 256 bits.
unfoldable pub mod_pow : ℕ → ℕ → ℕ → ℕ
unfolding mod_pow_from
mod_pow base exponent modulus = mod_pow_from 256 1 (base % modulus) exponent modulus

unfoldable pub mod_inv : ℕ → Result ℕ
unfolding mod_pow
mod_inv value = do
  reject (value % field_modulus == 0) "field inverse of zero"
  ok (mod_pow (value % field_modulus) (field_modulus - 2) field_modulus)

-- `while ((q & 1n) === 0n)`: the odd part of a number below `2 ^ fuel`, and the twos taken out.
unfoldable pub odd_part : ℕ → ℕ → ℕ → ℕ × ℕ
odd_part zero q s = (q, s)
odd_part (suc fuel) q s =
    let next = odd_part fuel (q / 2) (s + 1) in if q % 2 == 0 then next else (q, s)

-- The first number from `z` on that is no square.
unfoldable pub non_square_from : ℕ → ℕ → ℕ
unfolding mod_pow
non_square_from zero z = z
non_square_from (suc fuel) z =
    let next = non_square_from fuel (z + 1) in
    if mod_pow z ((field_modulus - 1) / 2) field_modulus == field_modulus - 1 then z else next

-- The inner loop: how often `candidate` is squared until it is one.
unfoldable pub squarings : ℕ → ℕ → ℕ → ℕ → Result ℕ
squarings zero candidate i m = err "field square root failed"
squarings (suc fuel) candidate i m =
    let next = squarings fuel (candidate * candidate % field_modulus) (i + 1) m in
    if candidate == 1 then ok i else if leb m (i + 1) then err "field square root failed" else next

-- The outer loop. Each round lowers `m`, which starts at the twos of the modulus.
unfoldable pub sqrt_from : ℕ → ℕ → ℕ → ℕ → ℕ → Result ℕ
unfolding squarings mod_pow
sqrt_from zero c x t m = err "field square root failed"
sqrt_from (suc fuel) c x t m =
    let next = squarings 64 (t * t % field_modulus) 1 m >>= λ i.
    let b = mod_pow c (2 ^ (m - i - 1)) field_modulus in
    let b2 = b * b % field_modulus in
    sqrt_from fuel b2 (x * b % field_modulus) (t * b2 % field_modulus) i in
    if t == 1 then ok x else next

-- The odd part of `p - 1` and its twos; the first number that is no square. The twos are 28, so that
-- the branch for one of them is not taken.
unfoldable pub tonelli : ℕ → Result ℕ
unfolding mod_pow odd_part non_square_from sqrt_from
tonelli n =
    let (q, s) = odd_part 256 (field_modulus - 1) 0 in
    let z = non_square_from 64 2 in
    if s == 1
    then ok (mod_pow n ((field_modulus + 1) / 4) field_modulus)
    else sqrt_from 64 (mod_pow z q field_modulus) (mod_pow n ((q + 1) / 2) field_modulus)
        (mod_pow n q field_modulus) s

unfoldable pub mod_sqrt : ℕ → Result ℕ
unfolding mod_pow tonelli
mod_sqrt value =
    let n = value % field_modulus in
    if n == 0
    then ok 0
    else assert (mod_pow n ((field_modulus - 1) / 2) field_modulus == 1)
        "point is not on the Clairveil disclosure curve"
      >> tonelli n
