-- ===== src/Text/Laws.antt =====
-- Decimal text has no white space to trim.
use clairveiljs.Prelude.{ℕ, true, false, List, [], ◌∷◌, all, ◌≡◌, refl, arith, ◌∙◌, ap}
use mathlib.Core.List.{reverse, reverse_aux, reverse-reverse}
use clairveiljs.Text.{is_digit, is_space, is_decimal, trim, trim_start}

digit-not_space : (c : ℕ) → is_digit c ≡ true → is_space c ≡ false
unfolding is_digit is_space
digit-not_space c h = ground arith

trim_start-digits : (cs : List ℕ) → all is_digit cs ≡ true → trim_start cs ≡ cs
unfolding trim_start
trim_start-digits [] h = refl
trim_start-digits (c ∷ cs) h = ground (arith, digit-not_space c)

all-reverse_aux :
    (cs ds : List ℕ)
    → all is_digit cs ≡ true
    → all is_digit ds ≡ true
    → all is_digit (reverse_aux cs ds) ≡ true
all-reverse_aux [] ds h k = k
all-reverse_aux (c ∷ cs) ds h k = all-reverse_aux cs (c ∷ ds) (ground arith) (ground arith)

all_digits : (cs : List ℕ) → is_decimal cs ≡ true → all is_digit cs ≡ true
unfolding is_decimal is_digit
all_digits [] h = cc
all_digits (c ∷ []) h = ground arith
all_digits (c ∷ d ∷ cs) h = ground arith

pub trim-is_decimal : (cs : List ℕ) → is_decimal cs ≡ true → trim cs ≡ cs
unfolding trim
trim-is_decimal cs h =
    let digits = all_digits cs h in
    ap (λ s. reverse (trim_start (reverse s))) (trim_start-digits cs digits)
    ∙ ap reverse (trim_start-digits (reverse cs) (all-reverse_aux cs [] digits refl))
    ∙ reverse-reverse cs
