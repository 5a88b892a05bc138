-- ===== src/Prelude/Outcome.antt =====
-- A call that returns or throws. The text is the fixed part of the message of the thrown error.
use Prim.Native.String.{String}
use mathlib.Core.Path.{◌≡◌, refl}
use mathlib.Core.Logic.{◌⊎◌, inl, inr}
use mathlib.Core.Bool.{Bool, true, false}
use mathlib.Core.List.{List, [], ◌∷◌}

pub data Result {ℓ} (A : Type ℓ) : Type ℓ where
  err : String → Result A
  ok : A → Result A

-- Whether a call returns.
abbrev pub is_ok {ℓ} : {A : Type ℓ} → Result A → Bool
is_ok (err message) = false
is_ok (ok value) = true

-- `if (!b) throw new Error(message)`
abbrev pub assert : Bool → String → Result (Unit {0})
assert false message = err message
assert true message = ok tt

-- `if (b) throw new Error(message)`
abbrev pub reject : Bool → String → Result (Unit {0})
reject false message = ok tt
reject true message = err message

-- A call, then another with what it returns.
infixl 5 ◌>>=◌
abbrev pub ◌>>=◌ {κ μ} : {B : Type κ} {C : Type μ} → Result B → (B → Result C) → Result C
err message >>= next = err message
ok value >>= next = next value

-- A check, then a call.
infixl 5 ◌>>◌
abbrev pub ◌>>◌ {μ} : {C : Type μ} → Result (Unit {0}) → Result C → Result C
check >> next = check >>= λ done. next

-- Two calls in a row return only if each of them does.
pub >>=-eq-ok {κ μ} :
    {B : Type κ} {C : Type μ} (call : Result B) (next : B → Result C) {c : C}
    → (call >>= next) ≡ ok c
    → (value : B) × (call ≡ ok value) × (next value ≡ ok c)
>>=-eq-ok (err message) next thrown = cc
>>=-eq-ok (ok value) next returned = (value, refl, returned)

-- A check in front of a call: it passed, and the call returned.
pub assert-eq-ok {ℓ} :
    {C : Type ℓ} (b : Bool) (message : String) (call : Result C) {c : C}
    → (assert b message >> call) ≡ ok c
    → (b ≡ true) × (call ≡ ok c)
assert-eq-ok true message call returned = (refl, returned)
assert-eq-ok false message call returned = cc

pub reject-eq-ok {ℓ} :
    {C : Type ℓ} (b : Bool) (message : String) (call : Result C) {c : C}
    → (reject b message >> call) ≡ ok c
    → (b ≡ false) × (call ≡ ok c)
reject-eq-ok false message call returned = (refl, returned)
reject-eq-ok true message call returned = cc

pub ok-eq {ℓ} : {C : Type ℓ} {a b : C} → ok a ≡ ok b → a ≡ b
ok-eq e = cc

pub Result-cases {ℓ} :
    {A : Type ℓ} (r : Result A) → ((a : A) × (r ≡ ok a)) ⊎ ((e : String) × (r ≡ err e))
Result-cases (ok a) = inl (a, refl)
Result-cases (err e) = inr (e, refl)

-- `Array.prototype.map` with a function that may throw.
abbrev pub map_ok {ℓ κ} : {A : Type ℓ} {B : Type κ} → (A → Result B) → List A → Result (List B)
map_ok f [] = ok []
map_ok f (x ∷ xs) = f x >>= λ y. map_ok f xs >>= λ ys. ok (y ∷ ys)
