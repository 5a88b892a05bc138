-- ===== src/Text.antt =====
-- The string operations that the source calls, over code points. Letter case is that of ASCII, in
-- which hashes, hex and identifiers are written; a letter beyond ASCII is left as it is.
pub mod Laws
use clairveiljs.Prelude.{
  ℕ, ◌+◌, ◌-◌, String, Bool, true, false, ◌&&◌, ◌||◌, List, [], ◌∷◌, all, length, ◌==◌, ltb, leb,
  if◌then◌else◌, ◌≡◌, refl, ◌↔◌, arith, zero, suc, ◌*◌, ◌/◌, ◌%◌,
}
use Prim.Native.Char.{code}
use mathlib.Core.List.{reverse}

abbrev pub codes : String → List ℕ
codes String.[] = []
codes (String.◌∷◌ c s) = code c ∷ codes s

unfoldable pub codes_eq : List ℕ → List ℕ → Bool
codes_eq [] [] = true
codes_eq [] (y ∷ ys) = false
codes_eq (x ∷ xs) [] = false
codes_eq (x ∷ xs) (y ∷ ys) = x == y && codes_eq xs ys

pub codes_eq_iff : (xs ys : List ℕ) → (codes_eq xs ys ≡ true) ↔ (xs ≡ ys)
unfolding codes_eq
codes_eq_iff [] [] = (λ _. refl, λ _. refl)
codes_eq_iff [] (y ∷ ys) = (λ h. cc, λ h. cc)
codes_eq_iff (x ∷ xs) [] = (λ h. cc, λ h. cc)
codes_eq_iff (x ∷ xs) (y ∷ ys) =
    (λ h. ground (arith, codes_eq_iff xs ys), λ h. ground (arith, codes_eq_iff xs ys))

-- The white space of `String.prototype.trim`.
unfoldable pub is_space : ℕ → Bool
is_space c =
    (leb 9 c && leb c 13)
    || c == 32
    || c == 0xa0
    || c == 0x1680
    || (leb 0x2000 c && leb c 0x200a)
    || c == 0x2028
    || c == 0x2029
    || c == 0x202f
    || c == 0x205f
    || c == 0x3000
    || c == 0xfeff

unfoldable pub trim_start : List ℕ → List ℕ
unfolding is_space
trim_start [] = []
trim_start (c ∷ cs) = if is_space c then trim_start cs else c ∷ cs

unfoldable pub trim : List ℕ → List ℕ
unfolding trim_start
trim cs = reverse (trim_start (reverse (trim_start cs)))

unfoldable pub lower : ℕ → ℕ
lower c = if leb 65 c && leb c 90 then c + 32 else c

unfoldable pub to_lower_case : List ℕ → List ℕ
unfolding lower
to_lower_case [] = []
to_lower_case (c ∷ cs) = lower c ∷ to_lower_case cs

unfoldable pub upper : ℕ → ℕ
upper c = if leb 97 c && leb c 122 then c - 32 else c

unfoldable pub to_upper_case : List ℕ → List ℕ
unfolding upper
to_upper_case [] = []
to_upper_case (c ∷ cs) = upper c ∷ to_upper_case cs

-- `.replace(/^0x/, "")`
unfoldable pub strip_0x : List ℕ → List ℕ
strip_0x (a ∷ b ∷ cs) = if a == b'0' && b == b'x' then cs else a ∷ b ∷ cs
strip_0x cs = cs

-- `.replace(/^0x/i, "")`
unfoldable pub strip_0x_any_case : List ℕ → List ℕ
strip_0x_any_case (a ∷ b ∷ cs) = if a == b'0' && (b == b'x' || b == b'X') then cs else a ∷ b ∷ cs
strip_0x_any_case cs = cs

unfoldable pub is_digit : ℕ → Bool
is_digit c = leb b'0' c && leb c b'9'

unfoldable pub is_lower_hex : ℕ → Bool
unfolding is_digit
is_lower_hex c = is_digit c || (leb b'a' c && leb c b'f')

unfoldable pub is_hex : ℕ → Bool
unfolding is_lower_hex
is_hex c = is_lower_hex c || (leb b'A' c && leb c b'F')

-- `/^(0|[1-9][0-9]*)$/`
unfoldable pub is_decimal : List ℕ → Bool
unfolding is_digit
is_decimal [] = false
is_decimal (c ∷ []) = is_digit c
is_decimal (c ∷ cs) = leb b'1' c && leb c b'9' && all is_digit cs

-- `/^[1-9][0-9]*$/`
unfoldable pub is_positive_decimal : List ℕ → Bool
unfolding is_digit
is_positive_decimal [] = false
is_positive_decimal (c ∷ cs) = leb b'1' c && leb c b'9' && all is_digit cs

-- `/^[0-9a-f]{n}$/`
unfoldable pub is_lower_hex_of : ℕ → List ℕ → Bool
unfolding is_lower_hex
is_lower_hex_of n cs = length cs == n && all is_lower_hex cs

-- `BigInt(text)` of decimal digits.
unfoldable pub decimal_from : ℕ → List ℕ → ℕ
decimal_from acc [] = acc
decimal_from acc (c ∷ cs) = decimal_from (acc * 10 + (c - b'0')) cs

unfoldable pub decimal_value : List ℕ → ℕ
unfolding decimal_from
decimal_value cs = decimal_from 0 cs

-- The decimal digits of a number below `10 ^ fuel`, most significant first.
unfoldable pub decimal_digits : ℕ → ℕ → List ℕ → List ℕ
decimal_digits zero n acc = acc
decimal_digits (suc f) n acc =
    let rest = decimal_digits f (n / 10) ((n % 10 + b'0') ∷ acc) in
    if ltb n 10 then (n + b'0') ∷ acc else rest

-- A safe integer has at most 16 digits, a `uint64` at most 20.
unfoldable pub decimal_text : ℕ → List ℕ
unfolding decimal_digits
decimal_text n = decimal_digits 20 n []

decimal_text_runs : decimal_text 9007199254740991 ≡ codes "9007199254740991"
unfolding decimal_text
decimal_text_runs = refl

trim_runs : to_lower_case (trim (codes " 0xAbC ")) ≡ codes "0xabc"
unfolding trim to_lower_case
trim_runs = refl
