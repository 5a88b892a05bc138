-- ===== src/Crypto/Field/Root.antt =====
-- src/core/crypto.js: `modSqrt` returns a root, by the invariant of its outer loop.
use native.Mathlib.Nat.{add-zero, add-suc, mul-one, mod-mod, mul_comm, mul_assoc, pow-suc, pow-zero}
use clairveiljs.Prelude.{
  ℕ, zero, suc, ◌+◌, ◌-◌, ◌*◌, ◌/◌, ◌%◌, ◌^◌, ◌<◌, String, Bool, true, false, ◌==◌, if◌then◌else◌,
  ◌⊎◌, inl, inr, Bool-cases, ==_iff, Result, ok, ◌>>◌, assert, >>=-eq-ok, ◌≡◌, refl, ◌∙◌, sym, ap,
  arith,
}
use clairveiljs.Crypto.Field.{
  field_modulus, mod_pow, squarings, sqrt_from, tonelli, mod_sqrt, odd_part, non_square_from,
}
use clairveiljs.Crypto.Field.Power.{mod_mul-mod, mod_pow-eq-pow, two_to}

-- Both factors may be reduced before a product is.
mul_mod_mod : (a b m : ℕ) → (a % m) * (b % m) % m ≡ a * b % m
mul_mod_mod a b m =
    mod_mul-mod a (b % m) m
    ∙ ap (λ (t : ℕ). t % m) (mul_comm a (b % m))
    ∙ mod_mul-mod b a m
    ∙ ap (λ (t : ℕ). t % m) (mul_comm b a)

-- One round multiplies the root by a number and what is left by its square.
round_keeps :
    (n x t b m : ℕ)
    → x * x % m ≡ n * t % m
    → (x * b % m) * (x * b % m) % m ≡ n * (t * (b * b % m) % m) % m
round_keeps n x t b m kept =
    mul_mod_mod (x * b) (x * b) m
    ∙ ap (λ (k : ℕ). k % m) (omega arith)
    ∙ sym (mod_mul-mod (x * x) (b * b) m)
    ∙ ap (λ (k : ℕ). k * (b * b) % m) kept
    ∙ mod_mul-mod (n * t) (b * b) m
    ∙ ap (λ (k : ℕ). k % m) (omega arith)
    ∙ sym (mod_mul-mod (t * (b * b)) n m)
    ∙ ap (λ (k : ℕ). k * n % m) (inner t (b * b) m)
    ∙ ap (λ (k : ℕ). k % m) (mul_comm (t * (b * b % m) % m) n)
  where
    inner : (t c m : ℕ) → t * c % m ≡ t * (c % m) % m
    inner t c m =
        ap (λ (k : ℕ). k % m) (mul_comm t c)
        ∙ sym (mod_mul-mod c t m)
        ∙ ap (λ (k : ℕ). k % m) (mul_comm (c % m) t)

sqrt_from-square :
    (fuel n c x t m : ℕ) {r : ℕ}
    → x * x % field_modulus ≡ n * t % field_modulus
    → sqrt_from fuel c x t m ≡ ok r
    → r * r % field_modulus ≡ n % field_modulus
unfolding sqrt_from
sqrt_from-square zero n c x t m kept returned = cc
sqrt_from-square (suc fuel) n c x t m kept returned = elim (Bool-cases (t == 1)) [
  | inl done ↦
      ap (λ (k : ℕ). k * k % field_modulus) (sym (found x (rw done at returned)))
      ∙ kept
      ∙ ap (λ (k : ℕ). n * k % field_modulus) ((==_iff t 1).0 done)
      ∙ ap (λ (k : ℕ). k % field_modulus) (omega arith)
  | inr more ↦
      let (i, _, next) =
        >>=-eq-ok (squarings 64 (t * t % field_modulus) 1 m) _ (rw more at returned) in
      let b = mod_pow c (2 ^ (m - i - 1)) field_modulus in
      sqrt_from-square fuel n (b * b % field_modulus) (x * b % field_modulus)
        (t * (b * b % field_modulus) % field_modulus) i (round_keeps n x t b field_modulus kept)
        next
]
  where
    found : (x : ℕ) {r : ℕ} → ok x ≡ ok r → x ≡ r
    found x e = cc

pow-add : (x j k : ℕ) → x ^ (j + k) ≡ x ^ j * x ^ k
pow-add x j zero =
    ap (λ (t : ℕ). x ^ t) (add-zero j)
    ∙ sym (mul-one (x ^ j))
    ∙ ap (λ (t : ℕ). x ^ j * t) (sym (pow-zero x))
pow-add x j (suc k) =
    ap (λ (t : ℕ). x ^ t) (add-suc j k)
    ∙ pow-suc x (j + k)
    ∙ ap (λ (t : ℕ). t * x) (pow-add x j k)
    ∙ mul_assoc (x ^ j) (x ^ k) x
    ∙ ap (λ (t : ℕ). x ^ j * t) (sym (pow-suc x k))

-- The invariant when the loop starts, with the odd part `q` of the order.
start :
    (n k q m : ℕ)
    → k + k ≡ suc q
    → q < two_to 256
    → k < two_to 256
    → 1 < m
    → mod_pow n k m * mod_pow n k m % m ≡ n * mod_pow n q m % m
start n k q m halves q_small k_small two =
    ap (λ (t : ℕ). t * t % m) (mod_pow-eq-pow n k m k_small two)
    ∙ mul_mod_mod (n ^ k) (n ^ k) m
    ∙ ap (λ (t : ℕ). t % m) (sym (pow-add n k k) ∙ ap (λ (t : ℕ). n ^ t) halves ∙ pow-suc n q)
    ∙ sym (mod_mul-mod (n ^ q) n m)
    ∙ ap (λ (t : ℕ). t % m) (mul_comm (n ^ q % m) n)
    ∙ ap (λ (t : ℕ). n * t % m) (sym (mod_pow-eq-pow n q m q_small two))

abbrev odd_order : ℕ
odd_order = (field_modulus - 1) / 2 ^ 28

tonelli-square : (n : ℕ) {r : ℕ} → tonelli n ≡ ok r → r * r % field_modulus ≡ n % field_modulus
unfolding tonelli odd_part non_square_from
tonelli-square n returned =
    sqrt_from-square 64 n
      (mod_pow (non_square_from 64 2) (odd_part 256 (field_modulus - 1) 0).0 field_modulus) _ _ 28
      (start n ((odd_order + 1) / 2) odd_order field_modulus refl (omega arith) (omega arith)
        (omega arith))
      returned

-- The two ways in which `modSqrt` returns.
returns :
    (is_zero is_square : Bool) (message : String) (root : Result ℕ) {r : ℕ}
    → (if is_zero then ok 0 else assert is_square message >> root) ≡ ok r
    → ((is_zero ≡ true) × (0 ≡ r)) ⊎ (root ≡ ok r)
returns true is_square message root returned = inl (refl, cc)
returns false true message root returned = inr returned
returns false false message root returned = cc

-- A root that is returned is a root: its square is the number in the field.
pub mod_sqrt-square :
    (value : ℕ) {r : ℕ} → mod_sqrt value ≡ ok r → r * r % field_modulus ≡ value % field_modulus
unfolding mod_sqrt
mod_sqrt-square value returned =
    elim (returns (value % field_modulus == 0)
      (mod_pow (value % field_modulus) ((field_modulus - 1) / 2) field_modulus == 1) _
      (tonelli (value % field_modulus)) returned) [
        | inl (zero_value, zero_root) ↦
            ap (λ (k : ℕ). k * k % field_modulus) (sym zero_root)
            ∙ sym ((==_iff (value % field_modulus) 0).0 zero_value)
        | inr found ↦ tonelli-square (value % field_modulus) found ∙ mod-mod value field_modulus
      ]
