-- ===== src/Crypto/Field/Power.antt =====
-- src/core/crypto.js: `modPow` squares and multiplies, and computes the power.
use native.Mathlib.Nat.{pow-suc, pow-zero, mod-eq_of_lt, mod-add-mod, mod-lt, mul_comm, mul_assoc}
use clairveiljs.Prelude.{
  Bool-cases, ==_iff, ℕ, zero, suc, ◌+◌, ◌*◌, ◌/◌, ◌%◌, ◌^◌, ◌<◌, ◌==◌, inl, inr, ◌≡◌, ◌∙◌, sym, ap,
  arith,
}
use clairveiljs.Crypto.Field.{mod_pow_from, mod_pow}

-- A factor may be reduced before a product is.
pub mod_mul-mod : (a b m : ℕ) → a % m * b % m ≡ a * b % m
mod_mul-mod a zero m = ap (λ (t : ℕ). t % m) (omega arith)
mod_mul-mod a (suc b) m =
    ap (λ (t : ℕ). t % m) (omega arith)
    ∙ mod-add-mod a m (a % m * b)
    ∙ ap (λ (t : ℕ). t % m) (omega arith)
    ∙ sym (mod-add-mod (a % m * b) m a)
    ∙ ap (λ (t : ℕ). (t + a) % m) (mod_mul-mod a b m)
    ∙ mod-add-mod (a * b) m a
    ∙ ap (λ (t : ℕ). t % m) (omega arith)

-- So may the base of a power.
pub mod_pow-mod : (a k m : ℕ) → (a % m) ^ k % m ≡ a ^ k % m
mod_pow-mod a zero m = ap (λ (t : ℕ). t % m) (pow-zero (a % m) ∙ sym (pow-zero a))
mod_pow-mod a (suc k) m =
    ap (λ (t : ℕ). t % m) (pow-suc (a % m) k)
    ∙ sym (mod_mul-mod ((a % m) ^ k) (a % m) m)
    ∙ ap (λ (t : ℕ). t * (a % m) % m) (mod_pow-mod a k m)
    ∙ ap (λ (t : ℕ). t % m) (mul_comm (a ^ k % m) (a % m))
    ∙ mod_mul-mod a (a ^ k % m) m
    ∙ ap (λ (t : ℕ). t % m) (mul_comm a (a ^ k % m))
    ∙ mod_mul-mod (a ^ k) a m
    ∙ ap (λ (t : ℕ). t % m) (sym (pow-suc a k))

-- The power of a square.
pub pow-square : (x k : ℕ) → (x * x) ^ k ≡ x ^ (k + k)
pow-square x zero = pow-zero (x * x) ∙ sym (pow-zero x)
pow-square x (suc k) =
    pow-suc (x * x) k
    ∙ ap (λ (t : ℕ). t * (x * x)) (pow-square x k)
    ∙ sym (mul_assoc (x ^ (k + k)) x x)
    ∙ ap (λ (t : ℕ). t * x) (sym (pow-suc x (k + k)))
    ∙ sym (pow-suc x (suc (k + k)))
    ∙ ap (λ (t : ℕ). x ^ t) (omega arith)

-- A round for a bit that is set, and one for a bit that is not.
pow-odd : (x e : ℕ) → e % 2 ≡ 1 → x ^ e ≡ (x * x) ^ (e / 2) * x
pow-odd x e odd =
    let halves : e ≡ suc (e / 2 + e / 2) = omega arith in
    ap (λ (t : ℕ). x ^ t) halves
    ∙ pow-suc x (e / 2 + e / 2)
    ∙ ap (λ (t : ℕ). t * x) (sym (pow-square x (e / 2)))

pow-even : (x e : ℕ) → e % 2 ≡ 0 → x ^ e ≡ (x * x) ^ (e / 2)
pow-even x e even =
    let halves : e ≡ e / 2 + e / 2 = omega arith in
    ap (λ (t : ℕ). x ^ t) halves ∙ sym (pow-square x (e / 2))

-- What the other rounds make of the factor and the square of a round.
rest_of : (r y k m : ℕ) → r % m * (y % m) ^ k % m ≡ r * y ^ k % m
rest_of r y k m =
    mod_mul-mod r ((y % m) ^ k) m
    ∙ ap (λ (t : ℕ). t % m) (mul_comm r ((y % m) ^ k))
    ∙ sym (mod_mul-mod ((y % m) ^ k) r m)
    ∙ ap (λ (t : ℕ). t * r % m) (mod_pow-mod y k m)
    ∙ mod_mul-mod (y ^ k) r m
    ∙ ap (λ (t : ℕ). t % m) (mul_comm (y ^ k) r)

-- `2 ^ k`
abbrev pub two_to : ℕ → ℕ
two_to zero = 1
two_to (suc k) = 2 * two_to k

-- No round is left.
all_read : (r x e m : ℕ) → e ≡ 0 → r < m → r ≡ r * x ^ e % m
all_read r x e m none_left below = sym (
    ap (λ (t : ℕ). r * x ^ t % m) none_left
    ∙ ap (λ (t : ℕ). r * t % m) (pow-zero x)
    ∙ ap (λ (t : ℕ). t % m) (omega arith)
    ∙ mod-eq_of_lt below)

pub mod_pow_from-eq-pow :
    (fuel r x e m : ℕ) → e < two_to fuel → r < m → mod_pow_from fuel r x e m ≡ r * x ^ e % m
unfolding mod_pow_from
mod_pow_from-eq-pow zero r x e m small below = all_read r x e m (omega arith) below
mod_pow_from-eq-pow (suc fuel) r x e m small below = elim (Bool-cases (e == 0)) [
  | inl done ↦ rw done (all_read r x e m ((==_iff e 0).0 done) below)
  | inr more ↦ rw more (elim (Bool-cases (e % 2 == 1)) [
    | inl odd ↦ rw odd (
        mod_pow_from-eq-pow fuel (r * x % m) (x * x % m) (e / 2) m (omega arith)
          (mod-lt (r * x) (omega arith))
        ∙ rest_of (r * x) (x * x) (e / 2) m
        ∙ ap (λ (t : ℕ). t % m)
            (mul_assoc r x ((x * x) ^ (e / 2))
              ∙ ap (λ (t : ℕ). r * t)
                  (mul_comm x ((x * x) ^ (e / 2)) ∙ sym (pow-odd x e ((==_iff (e % 2) 1).0 odd)))))
    | inr even ↦ rw even (
        mod_pow_from-eq-pow fuel r (x * x % m) (e / 2) m (omega arith) below
        ∙ ap (λ (t : ℕ). t * (x * x % m) ^ (e / 2) % m) (sym (mod-eq_of_lt below))
        ∙ rest_of r (x * x) (e / 2) m
        ∙ ap (λ (t : ℕ). r * t % m) (sym (pow-even x e (ground arith))))
  ])
]

-- What `modPow` computes is the power modulo the modulus, for an exponent below the power of 2 with
-- the exponent 256 and a modulus above 1.
pub mod_pow-eq-pow :
    (base exponent m : ℕ)
    → exponent < two_to 256
    → 1 < m
    → mod_pow base exponent m ≡ base ^ exponent % m
unfolding mod_pow
mod_pow-eq-pow base exponent m small two =
    mod_pow_from-eq-pow 256 1 (base % m) exponent m small two
    ∙ ap (λ (t : ℕ). t % m) (omega arith)
    ∙ mod_pow-mod base exponent m
