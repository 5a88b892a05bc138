-- ===== src/Crypto/Witnesses.antt =====
-- The theorems about the arithmetic at numbers and at the base point of the curve.
use clairveiljs.Prelude.{◌*◌, ◌%◌, ◌^◌, ◌-◌, ◌≡◌, refl, arith}
use clairveiljs.Crypto.Field.{field_modulus, mod_pow, mod_sqrt}
use clairveiljs.Crypto.Field.Power.{mod_pow-eq-pow}
use clairveiljs.Crypto.Field.Root.{mod_sqrt-square}
use clairveiljs.Crypto.Curve.{curve_base, pack_point, unpack_point}
use clairveiljs.Crypto.Curve.Packing.{pack_point-unpack_point}

mod_pow-eq-pow_example : mod_pow 3 20 1009 ≡ 3 ^ 20 % 1009
mod_pow-eq-pow_example = mod_pow-eq-pow 3 20 1009 (omega arith) (omega arith)

mod_sqrt-square_example :
    (field_modulus - 3) * (field_modulus - 3) % field_modulus ≡ 9 % field_modulus
unfolding mod_sqrt
mod_sqrt-square_example = mod_sqrt-square 9 refl

pack_point-unpack_point_example : pack_point curve_base ≡ pack_point curve_base
unfolding pack_point unpack_point
pack_point-unpack_point_example =
    pack_point-unpack_point (pack_point curve_base) (omega arith) refl (omega arith)
