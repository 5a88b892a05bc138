-- ===== src/Wire/Bytes/Laws.antt =====
-- What is read of what was written, in front of other bytes.
use clairveiljs.Prelude.{
  ◌≤◌, replicate, all, >>=-eq-ok, assert-eq-ok, ok-eq, ltb→lt, lt→ltb, &&-eq-true, ℕ, zero, suc,
  ◌+◌, ◌*◌, ◌/◌, ◌%◌, ◌^◌, ◌<◌, Bool, true, List, [], ◌∷◌, ◌++◌, ltb, ◌==◌, not, length, take, drop,
  Result, ok, ◌>>=◌, ◌&&◌, ◌≡◌, refl, arith, ◌∙◌, sym, ap, length-append,
}
use clairveiljs.Crypto.Field.{field_modulus}
use clairveiljs.Text.{codes_eq_iff}
use clairveiljs.Crypto.Bytes.{
  big_endian, big_int_to_bytes_be, bytes_to_big_int_be, canonical_field_bytes, read_from,
}
use native.Mathlib.Nat.{mod-mod, mod-eq_of_lt}
use clairveiljs.Crypto.Bytes.Laws.{bound, length-big_endian, bytes_to_big_int_be-big_endian}
use clairveiljs.Wire.Bytes.{
  u16be, u32be, u64be, concat_bytes, uint, field, split, read_uint, read_field, u16_bytes,
  u32_bytes, equal_bytes,
}

pub split-append : (n : ℕ) (bs cs : List ℕ) → length bs ≡ n → split n (bs ++ cs) ≡ (bs, cs)
unfolding split
split-append n bs cs h = rw (← h) (λ i. (take_all bs cs i, drop_all bs cs i))
  where
    take_all : (bs cs : List ℕ) → take (length bs) (bs ++ cs) ≡ bs
    take_all [] cs = refl
    take_all (b ∷ bs) cs = ap (λ (r : List ℕ). b ∷ r) (take_all bs cs)

    drop_all : (bs cs : List ℕ) → drop (length bs) (bs ++ cs) ≡ cs
    drop_all [] cs = refl
    drop_all (b ∷ bs) cs = drop_all bs cs

pub read_uint-big_endian :
    (k n : ℕ) (rest : List ℕ) → n < bound k → read_uint k (big_endian k n ++ rest) ≡ (n, rest)
unfolding read_uint
read_uint-big_endian k n rest h =
    ap (λ (s : List ℕ × List ℕ). (bytes_to_big_int_be s.0, s.1))
      (split-append k (big_endian k n) rest (length-big_endian k n))
    ∙ (λ i. (bytes_to_big_int_be-big_endian k n h i, rest))

pub uint-eq-ok :
    (value bits : ℕ) {n : ℕ} → uint value bits ≡ ok n → (value ≡ n) × (value < 2 ^ bits)
unfolding uint
uint-eq-ok value bits h =
    let (below, e) = assert-eq-ok (ltb value (2 ^ bits)) _ (ok value) h in
    (ok-eq e, ltb→lt value (2 ^ bits) below)

pub field-eq-ok :
    (value : ℕ) (non_zero : Bool) {n : ℕ}
    → field value non_zero ≡ ok n
    → (value ≡ n) × (value < field_modulus)
unfolding field
field-eq-ok value non_zero h =
    let (below, e) =
      assert-eq-ok (ltb value field_modulus && not (non_zero && value == 0)) _ (ok value) h in
    (ok-eq e, ltb→lt value field_modulus (&&-eq-true _ _ below).0)

-- A field element that is accepted is read back from its bytes.
pub read_field-canonical_field_bytes :
    (value : ℕ) (non_zero : Bool) (rest : List ℕ) {n : ℕ}
    → field value non_zero ≡ ok n
    → read_field non_zero (canonical_field_bytes value ++ rest) ≡ ok (value, rest)
unfolding read_field canonical_field_bytes big_int_to_bytes_be
read_field-canonical_field_bytes value non_zero rest h =
    let (same, below) = field-eq-ok value non_zero h in
    let reduced : value % field_modulus % field_modulus ≡ value =
      mod-mod value field_modulus ∙ mod-eq_of_lt below in
    ap (λ (k : ℕ). read_field non_zero (big_endian 32 k ++ rest)) reduced
    ∙ ap (λ (s : ℕ × List ℕ). field s.0 non_zero >>= λ n. ok (n, s.1))
        (read_uint-big_endian 32 value rest (omega arith))
    ∙ ap (λ (r : Result ℕ). r >>= λ n. ok (n, rest)) h
    ∙ ap (λ (k : ℕ). ok (k, rest)) (sym same)

pub read_uint-u16_bytes :
    (n : ℕ) (rest : List ℕ) → n < 65536 → read_uint 2 (u16_bytes n ++ rest) ≡ (n, rest)
unfolding u16_bytes read_uint split bytes_to_big_int_be read_from
read_uint-u16_bytes n rest h =
    let value : (0 * 256 + n / 256) * 256 + n % 256 ≡ n = omega arith in λ i. (value i, rest)

pub read_uint-u32_bytes :
    (n : ℕ) (rest : List ℕ) → n < 4294967296 → read_uint 4 (u32_bytes n ++ rest) ≡ (n, rest)
unfolding u32_bytes read_uint split bytes_to_big_int_be read_from
read_uint-u32_bytes n rest h =
    let value : (((0 * 256 + n / 16777216 % 256) * 256 + n / 65536 % 256) * 256 + n / 256 % 256)
            * 256
          + n % 256
        ≡ n =
      omega arith in
    λ i. (value i, rest)

pub equal_bytes_self : (bs : List ℕ) → equal_bytes bs bs ≡ true
unfolding equal_bytes
equal_bytes_self bs = (codes_eq_iff bs bs).1 refl

pub equal_bytes→eq : (bs cs : List ℕ) → equal_bytes bs cs ≡ true → bs ≡ cs
unfolding equal_bytes
equal_bytes→eq bs cs h = (codes_eq_iff bs cs).0 h

-- A check of a number in front of a call: it returned the number, and the call returned.
pub field-bind {ℓ} :
    {C : Type ℓ} (value : ℕ) (non_zero : Bool) (call : ℕ → Result C) {c : C}
    → (field value non_zero >>= call) ≡ ok c
    → (field value non_zero ≡ ok value) × (call value ≡ ok c)
field-bind value non_zero call h =
    let (n, returned, next) = >>=-eq-ok (field value non_zero) call h in
    let same = (field-eq-ok value non_zero returned).0 in
    (returned ∙ ap ok (sym same), ap call same ∙ next)

pub uint-bind {ℓ} :
    {C : Type ℓ} (value bits : ℕ) (call : ℕ → Result C) {c : C}
    → (uint value bits >>= call) ≡ ok c
    → (uint value bits ≡ ok value) × (value < 2 ^ bits) × (call value ≡ ok c)
uint-bind value bits call h =
    let (n, returned, next) = >>=-eq-ok (uint value bits) call h in
    let (same, below) = uint-eq-ok value bits returned in
    (returned ∙ ap ok (sym same), below, ap call same ∙ next)

-- The sum of the lengths of byte arrays.
abbrev pub total_length : List (List ℕ) → ℕ
total_length [] = 0
total_length (bs ∷ rest) = length bs + total_length rest

pub length-concat_bytes : (parts : List (List ℕ)) → length (concat_bytes parts) ≡ total_length parts
unfolding concat_bytes
length-concat_bytes [] = refl
length-concat_bytes (bs ∷ rest) =
    omega (arith, length-append bs (concat_bytes rest), length-concat_bytes rest)

pub length-take : (n : ℕ) (bs : List ℕ) → n ≤ length bs → length (take n bs) ≡ n
length-take zero bs h = refl
length-take (suc n) [] h = elim h [ ]
length-take (suc n) (b ∷ bs) h = ap suc (length-take n bs (omega arith))

pub take-length : (bs : List ℕ) (n : ℕ) → length bs ≡ n → take n bs ≡ bs
take-length [] zero h = refl
take-length [] (suc n) h = refl
take-length (b ∷ bs) zero h = absurd (omega arith)
take-length (b ∷ bs) (suc n) h = ap (λ (r : List ℕ). b ∷ r) (take-length bs n (omega arith))

pub length-replicate : (n b : ℕ) → length (replicate n b) ≡ n
length-replicate zero b = refl
length-replicate (suc n) b = ap suc (length-replicate n b)

pub all_zero-replicate : (n : ℕ) → all (λ b. b == 0) (replicate n 0) ≡ true
all_zero-replicate zero = refl
all_zero-replicate (suc n) = all_zero-replicate n

pub length-canonical_field_bytes : (n : ℕ) → length (canonical_field_bytes n) ≡ 32
unfolding canonical_field_bytes big_int_to_bytes_be
length-canonical_field_bytes n = length-big_endian 32 (n % field_modulus % field_modulus)

pub read_one : (b : ℕ) (rest : List ℕ) → read_uint 1 (b ∷ rest) ≡ (b, rest)
unfolding read_uint split bytes_to_big_int_be read_from
read_one b rest = let value : 0 * 256 + b ≡ b = omega arith in λ i. (value i, rest)

pub read_two : (a b : ℕ) (rest : List ℕ) → read_uint 2 (a ∷ b ∷ rest) ≡ (a * 256 + b, rest)
unfolding read_uint split bytes_to_big_int_be read_from
read_two a b rest =
    let value : (0 * 256 + a) * 256 + b ≡ a * 256 + b = omega arith in λ i. (value i, rest)

pub u64be-eq : (n : ℕ) → n < 2 ^ 64 → u64be n ≡ ok (big_endian 8 n)
unfolding u64be uint
u64be-eq n h = rw (lt→ltb n (2 ^ 64) h)

pub u16be-eq : (n : ℕ) → n < 2 ^ 16 → u16be n ≡ ok (u16_bytes n)
unfolding u16be uint
u16be-eq n h = rw (lt→ltb n (2 ^ 16) h)

pub u32be-eq : (n : ℕ) → n < 2 ^ 32 → u32be n ≡ ok (u32_bytes n)
unfolding u32be uint
u32be-eq n h = rw (lt→ltb n (2 ^ 32) h)
