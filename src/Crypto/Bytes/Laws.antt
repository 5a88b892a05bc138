-- ===== src/Crypto/Bytes/Laws.antt =====
-- What is read of what was written, and the lengths.
use clairveiljs.Prelude.{
  ℕ, zero, suc, ◌+◌, ◌*◌, ◌/◌, ◌%◌, ◌<◌, List, [], ◌∷◌, ◌++◌, length, All, ◌≡◌, refl, arith, ◌∙◌,
  sym, ap, length-append,
}
use mathlib.Core.List.{append-nil, append_assoc}
use clairveiljs.Crypto.Bytes.{big_endian, read_from, bytes_to_big_int_be}

-- `256 ^ k`
abbrev pub bound : ℕ → ℕ
bound zero = 1
bound (suc k) = 256 * bound k

abbrev pub IsBytes : List ℕ → Type 0
IsBytes bs = All (λ b. b < 256) bs

pub IsBytes-append : (bs cs : List ℕ) → IsBytes bs → IsBytes cs → IsBytes (bs ++ cs)
IsBytes-append [] cs h k = k
IsBytes-append (b ∷ bs) cs h k = (h.0, IsBytes-append bs cs h.1 k)

pub length-big_endian : (k n : ℕ) → length (big_endian k n) ≡ k
unfolding big_endian
length-big_endian zero n = refl
length-big_endian (suc k) n =
    omega
      (arith, length-append (big_endian k (n / 256)) (n % 256 ∷ []), length-big_endian k (n / 256))

pub big_endian-IsBytes : (k n : ℕ) → IsBytes (big_endian k n)
unfolding big_endian
big_endian-IsBytes zero n = tt
big_endian-IsBytes (suc k) n =
    IsBytes-append (big_endian k (n / 256)) (n % 256 ∷ []) (big_endian-IsBytes k (n / 256))
      (omega arith, tt)

read_from-append :
    (acc : ℕ) (bs cs : List ℕ) → read_from acc (bs ++ cs) ≡ read_from (read_from acc bs) cs
unfolding read_from
read_from-append acc [] cs = refl
read_from-append acc (b ∷ bs) cs = read_from-append (acc * 256 + b) bs cs

pub bytes_to_big_int_be-big_endian :
    (k n : ℕ) → n < bound k → bytes_to_big_int_be (big_endian k n) ≡ n
unfolding big_endian bytes_to_big_int_be read_from
bytes_to_big_int_be-big_endian zero n h = omega arith
bytes_to_big_int_be-big_endian (suc k) n h =
    read_from-append 0 (big_endian k (n / 256)) (n % 256 ∷ [])
    ∙ omega (arith, bytes_to_big_int_be-big_endian k (n / 256) (omega arith))

-- The bytes of a number behind others are those bytes, so that an encoding is unique.
big_endian-read_from :
    (bs : List ℕ) (j acc : ℕ)
    → IsBytes bs
    → big_endian (length bs + j) (read_from acc bs) ≡ big_endian j acc ++ bs
unfolding big_endian read_from
big_endian-read_from [] j acc h =
    let e : 0 + j ≡ j = omega arith in
    ap (λ n. big_endian n acc) e ∙ sym (append-nil (big_endian j acc))
big_endian-read_from (b ∷ bs) j acc h =
    ap (λ n. big_endian n (read_from (acc * 256 + b) bs)) (shift (length bs) j)
    ∙ big_endian-read_from bs (suc j) (acc * 256 + b) h.1
    ∙ ap (λ (cs : List ℕ). cs ++ bs) (last j acc b h.0)
    ∙ append_assoc (big_endian j acc) (b ∷ []) bs
  where
    shift : (m j : ℕ) → suc m + j ≡ m + suc j
    shift m j = omega arith

    last : (j acc b : ℕ) → b < 256 → big_endian (suc j) (acc * 256 + b) ≡ big_endian j acc ++ b ∷ []
    last j acc b h =
        let q : (acc * 256 + b) / 256 ≡ acc = omega arith in
        let r : (acc * 256 + b) % 256 ≡ b = omega arith in rw (q, r) refl

pub big_endian-bytes_to_big_int_be :
    (bs : List ℕ) → IsBytes bs → big_endian (length bs) (bytes_to_big_int_be bs) ≡ bs
unfolding big_endian bytes_to_big_int_be
big_endian-bytes_to_big_int_be bs h =
    ap (λ n. big_endian n (read_from 0 bs)) (plus_zero (length bs)) ∙ big_endian-read_from bs 0 0 h
  where
    plus_zero : (m : ℕ) → m ≡ m + 0
    plus_zero m = omega arith
