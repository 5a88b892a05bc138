-- ===== src/Crypto/Curve/Packing.antt =====
-- src/core/crypto.js: a point is packed to the bytes that it was unpacked from.
use native.Mathlib.Nat.{mod-eq_of_lt}
use mathlib.Core.List.{reverse, reverse-reverse, reverse-append}
use clairveiljs.Prelude.{
  ℕ, suc, ◌-◌, ◌*◌, ◌%◌, ◌<◌, Bool, true, false, ◌==◌, ltb, length-append, List, [], ◌∷◌, length,
  ==_iff, ltb→lt, subst, ok, ◌>>=◌, >>=-eq-ok, assert-eq-ok, ok-eq, ◌≡◌, ◌≢◌, refl, ◌∙◌, sym, ap,
  arith,
}
use clairveiljs.Crypto.Field.{field_modulus, sub, mod_inv, mod_sqrt, curve_order}
use clairveiljs.Crypto.Bytes.{
  big_endian, big_int_to_bytes_be, big_int_to_bytes_le, bytes_to_big_int_be, bytes_to_big_int_le,
}
use clairveiljs.Crypto.Bytes.Laws.{IsBytes, IsBytes-append, big_endian-bytes_to_big_int_be}
use clairveiljs.Crypto.Curve.{
  Point, is_identity, curve_d, scalar_multiply, curve_base, point_sign, assert_prime_order_point,
  set_sign, pack_point, sign_of, clear_sign, with_sign, unpack_point,
}

base_runs : unpack_point (pack_point curve_base) ≡ ok curve_base
unfolding unpack_point pack_point
base_runs = refl

length-reverse : (bs : List ℕ) → length (reverse bs) ≡ length bs
length-reverse [] = refl
length-reverse (b ∷ bs) =
    ap length (reverse-append (b ∷ []) bs)
    ∙ omega (arith, length-append (reverse bs) (b ∷ []), length-reverse bs)

reverse-IsBytes : (bs : List ℕ) → IsBytes bs → IsBytes (reverse bs)
reverse-IsBytes [] h = h
reverse-IsBytes (b ∷ bs) h =
    subst IsBytes (sym (reverse-append (b ∷ []) bs))
      (IsBytes-append (reverse bs) (b ∷ []) (reverse-IsBytes bs h.1) (h.0, tt))

length-clear_sign : (bs : List ℕ) → length (clear_sign bs) ≡ length bs
unfolding clear_sign
length-clear_sign [] = refl
length-clear_sign (b ∷ []) = refl
length-clear_sign (b ∷ c ∷ bs) = ap suc (length-clear_sign (c ∷ bs))

clear_sign-IsBytes : (bs : List ℕ) → IsBytes bs → IsBytes (clear_sign bs)
unfolding clear_sign
clear_sign-IsBytes [] h = h
clear_sign-IsBytes (b ∷ []) h = (omega arith, tt)
clear_sign-IsBytes (b ∷ c ∷ bs) h = (h.0, clear_sign-IsBytes (c ∷ bs) h.1)

-- The sign and the other bits are all of the bytes.
set_sign-clear_sign : (bs : List ℕ) → IsBytes bs → set_sign (sign_of bs) (clear_sign bs) ≡ bs
unfolding set_sign sign_of clear_sign
set_sign-clear_sign [] h = refl
set_sign-clear_sign (b ∷ []) h = ground arith
set_sign-clear_sign (b ∷ c ∷ []) h = ground (arith, set_sign-clear_sign (c ∷ []) h.1)
set_sign-clear_sign (b ∷ c ∷ d ∷ bs) h =
    ap (λ (cs : List ℕ). b ∷ cs) (set_sign-clear_sign (c ∷ d ∷ bs) h.1)

-- The bytes of a canonical coordinate are those that it was read from.
big_int_to_bytes_le-bytes_to_big_int_le :
    (bs : List ℕ)
    → IsBytes bs
    → length bs ≡ 32
    → bytes_to_big_int_le bs < field_modulus
    → big_int_to_bytes_le (bytes_to_big_int_le bs) ≡ bs
unfolding big_int_to_bytes_le big_int_to_bytes_be bytes_to_big_int_le
big_int_to_bytes_le-bytes_to_big_int_le bs h long canonical =
    ap (λ (t : ℕ). reverse (big_endian 32 t)) (mod-eq_of_lt canonical)
    ∙ ap (λ (t : ℕ). reverse (big_endian t (bytes_to_big_int_be (reverse bs))))
        (sym (length-reverse bs ∙ long))
    ∙ ap (λ (cs : List ℕ). reverse cs)
        (big_endian-bytes_to_big_int_be (reverse bs) (reverse-IsBytes bs h))
    ∙ reverse-reverse bs

-- The coordinate of a sign has that sign, unless it is zero.
point_sign-with_sign :
    (sign : Bool) (x : ℕ)
    → with_sign sign x % field_modulus ≢ 0
    → point_sign (with_sign sign x) ≡ sign
unfolding with_sign point_sign sub
point_sign-with_sign true x h = ground arith
point_sign-with_sign false x h = ground arith

assert_prime_order_point-eq : (p : Point) {q : Point} → assert_prime_order_point p ≡ ok q → p ≡ q
unfolding assert_prime_order_point
assert_prime_order_point-eq p returned =
    let (multiplied, _, next) = >>=-eq-ok (scalar_multiply p curve_order) _ returned in
    ok-eq (assert-eq-ok (is_identity multiplied) _ (ok p) next).1

-- What is known of the point that bytes are unpacked to.
parts :
    (bs : List ℕ) {p : Point}
    → unpack_point bs ≡ ok p
    → (root : ℕ) × (length bs ≡ 32)
      × (bytes_to_big_int_le (clear_sign bs) < field_modulus)
      × (p ≡ record { x = with_sign (sign_of bs) root; y = bytes_to_big_int_le (clear_sign bs) })
unfolding unpack_point
parts bs returned =
    let (long, r1) = assert-eq-ok (length bs == 32) _ _ returned in
    let (canonical, r2) =
      assert-eq-ok (ltb (bytes_to_big_int_le (clear_sign bs)) field_modulus) _ _ r1 in
    let y = bytes_to_big_int_le (clear_sign bs) in
    let with_root =
      λ (root : ℕ). assert_prime_order_point (record { x = with_sign (sign_of bs) root; y = y }) in
    let with_inverse =
      λ (inverse : ℕ). mod_sqrt (sub 1 (y * y % field_modulus) * inverse) >>= with_root in
    let denominator = sub (field_modulus - 1) (curve_d * (y * y % field_modulus)) in
    let (inverse, _, r3) = >>=-eq-ok (mod_inv denominator) with_inverse r2 in
    let (root, _, r4) =
      >>=-eq-ok (mod_sqrt (sub 1 (y * y % field_modulus) * inverse)) with_root r3 in
    (
      root,
      (==_iff (length bs) 32).0 long,
      ltb→lt (bytes_to_big_int_le (clear_sign bs)) field_modulus canonical,
      sym (assert_prime_order_point-eq _ r4),
    )

-- Packing the point that bytes are unpacked to gives these bytes again, if the first coordinate is
-- not zero in the field.
pub pack_point-unpack_point :
    (bs : List ℕ) {p : Point}
    → IsBytes bs
    → unpack_point bs ≡ ok p
    → p.x % field_modulus ≢ 0
    → pack_point p ≡ bs
unfolding pack_point
pack_point-unpack_point bs h returned away =
    let (root, long, canonical, eq) = parts bs returned in
    let same_sign =
      point_sign-with_sign (sign_of bs) root
        (subst (λ (q : Point). q.x % field_modulus ≢ 0) eq away) in
    ap pack_point eq
    ∙ ap (λ (s : Bool). set_sign s (big_int_to_bytes_le (bytes_to_big_int_le (clear_sign bs))))
        same_sign
    ∙ ap (set_sign (sign_of bs)) (
        big_int_to_bytes_le-bytes_to_big_int_le (clear_sign bs) (clear_sign-IsBytes bs h)
          (length-clear_sign bs ∙ long) canonical)
    ∙ set_sign-clear_sign bs h
