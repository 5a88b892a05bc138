-- ===== src/Crypto/Curve.antt =====
-- src/core/crypto.js: points of the disclosure curve, a twisted Edwards curve over the field.
pub mod Packing
use clairveiljs.Prelude.{
  ℕ, zero, suc, ◌+◌, ◌-◌, ◌*◌, ◌/◌, ◌%◌, Bool, true, false, not, ◌&&◌, ◌||◌, List, [], ◌∷◌, length,
  ltb, ◌==◌, Result, ok, err, ◌>>=◌, ◌>>◌, assert, reject, if◌then◌else◌,
}
use mathlib.Core.List.{reverse}
use clairveiljs.Crypto.Field.{field_modulus, curve_order, sub, mod_inv, mod_sqrt}
use clairveiljs.Crypto.Bytes.{bytes_to_big_int_le, big_int_to_bytes_le}

pub record Point : Type 0 where
  pub x : ℕ
  pub y : ℕ

abbrev pub curve_d : ℕ
curve_d = 12181644023421730124874158521699555681764249180949974110617291017600649128846

abbrev pub curve_base : Point
curve_base = record {
  x = 9671717474070082183213120605117400219616337014328744928644933853176787189663;
  y = 16950150798460657717958625567821834550301663161624707787222815936182638968203;
}

-- A point in extended coordinates.
pub record Extended : Type 0 where
  pub px : ℕ
  pub py : ℕ
  pub pz : ℕ
  pub pt : ℕ

unfoldable pub extended_point : Point → Extended
extended_point p = record {
  px = p.x % field_modulus;
  py = p.y % field_modulus;
  pz = 1;
  pt = (p.x % field_modulus) * (p.y % field_modulus) % field_modulus;
}

unfoldable pub extended_identity : Extended
extended_identity = record { px = 0; py = 1; pz = 1; pt = 0 }

-- The four products that a sum or a double ends with.
unfoldable pub from_products : ℕ → ℕ → ℕ → ℕ → Extended
from_products e f g h = record {
  px = e * f % field_modulus;
  py = g * h % field_modulus;
  pz = f * g % field_modulus;
  pt = e * h % field_modulus;
}

unfoldable pub extended_add : Extended → Extended → Extended
unfolding sub from_products
extended_add p q =
    let a = sub p.py p.px * sub q.py q.px % field_modulus in
    let b = (p.py + p.px) * (q.py + q.px) % field_modulus in
    let c = 2 * curve_d * p.pt * q.pt % field_modulus in
    let d = 2 * p.pz * q.pz % field_modulus in
    from_products (sub b a) (sub d c) ((d + c) % field_modulus) ((b + a) % field_modulus)

unfoldable pub extended_double : Extended → Extended
unfolding sub from_products
extended_double p =
    let a = p.px * p.px % field_modulus in
    let b = p.py * p.py % field_modulus in
    let c = 2 * p.pz * p.pz % field_modulus in
    let d = sub 0 a in
    let e = sub (sub ((p.px + p.py) * (p.px + p.py)) a) b in
    let g = (d + b) % field_modulus in from_products e (sub g c) g (sub d b)

unfoldable pub affine_point : Extended → Result Point
unfolding mod_inv
affine_point p = do
  inverse ← mod_inv p.pz
  ok (record { x = p.px * inverse % field_modulus; y = p.py * inverse % field_modulus })

-- The loop of `scalarMultiply`: one round for each bit of a scalar below `2 ^ fuel`.
unfoldable pub multiply_from : ℕ → ℕ → Extended → Extended → Extended
unfolding extended_add extended_double
multiply_from zero k result addend = result
multiply_from (suc fuel) k result addend =
    let next =
      multiply_from fuel (k / 2) (if k % 2 == 1 then extended_add result addend else result)
        (extended_double addend) in
    if k == 0 then result else next

-- Scalars are read from 32 bytes.
unfoldable pub scalar_multiply : Point → ℕ → Result Point
unfolding extended_point extended_identity multiply_from affine_point
scalar_multiply p k = affine_point (multiply_from 256 k extended_identity (extended_point p))

-- `mod(point.x) > fieldHalf`
unfoldable pub point_sign : ℕ → Bool
point_sign x = ltb ((field_modulus - 1) / 2) (x % field_modulus)

unfoldable pub is_identity : Point → Bool
is_identity p = p.x % field_modulus == 0 && p.y % field_modulus == 1

unfoldable pub assert_non_identity_point : Point → Result Point
unfolding is_identity
assert_non_identity_point p = reject (is_identity p) "point identity is not allowed" >> ok p

unfoldable pub assert_prime_order_point : Point → Result Point
unfolding scalar_multiply is_identity
assert_prime_order_point p = do
  multiplied ← scalar_multiply p curve_order
  assert (is_identity multiplied) "point is not in the prime-order subgroup"
  ok p

-- `out[31] |= 0x80` of the last byte, which is below 0x80 in a canonical coordinate.
unfoldable pub set_sign : Bool → List ℕ → List ℕ
set_sign sign [] = []
set_sign sign (b ∷ []) = (if sign then b % 128 + 128 else b) ∷ []
set_sign sign (b ∷ c ∷ bs) = b ∷ set_sign sign (c ∷ bs)

unfoldable pub pack_point : Point → List ℕ
unfolding big_int_to_bytes_le point_sign set_sign
pack_point p = set_sign (point_sign p.x) (big_int_to_bytes_le p.y)

-- The sign in the last of the bytes, and the bytes with that bit cleared.
unfoldable pub sign_of : List ℕ → Bool
sign_of [] = false
sign_of (b ∷ []) = b / 128 % 2 == 1
sign_of (b ∷ c ∷ bs) = sign_of (c ∷ bs)

unfoldable pub clear_sign : List ℕ → List ℕ
clear_sign [] = []
clear_sign (b ∷ []) = b % 128 ∷ []
clear_sign (b ∷ c ∷ bs) = b ∷ clear_sign (c ∷ bs)

-- The coordinate of the sign that is asked for.
unfoldable pub with_sign : Bool → ℕ → ℕ
unfolding sub point_sign
with_sign true x = if point_sign x then x else sub 0 x
with_sign false x = if point_sign x then sub 0 x else x

unfoldable pub unpack_point : List ℕ → Result Point
unfolding sign_of clear_sign bytes_to_big_int_le sub mod_inv mod_sqrt with_sign
    assert_prime_order_point
unpack_point bs = do
  assert (length bs == 32) "compressed disclosure public key must be 32 bytes"
  let y = bytes_to_big_int_le (clear_sign bs)
  assert (ltb y field_modulus) "compressed disclosure public key has non-canonical y"
  let y2 = y * y % field_modulus
  inverse ← mod_inv (sub (field_modulus - 1) (curve_d * y2))
  root ← mod_sqrt (sub 1 y2 * inverse)
  assert_prime_order_point (record { x = with_sign (sign_of bs) root; y = y })
