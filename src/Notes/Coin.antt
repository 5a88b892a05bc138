-- ===== src/Notes/Coin.antt =====
-- src/core/note.js: amounts with an asset, as a wallet enters them.
use clairveiljs.Prelude.{
  ℕ, suc, Bool, true, ◌&&◌, List, [], ◌∷◌, ◌++◌, all, Result, ok, if◌then◌else◌, ◌>>◌, assert,
}
use clairveiljs.Text.{trim, is_digit, is_decimal, decimal_digits}
use clairveiljs.Wire.Domain.{is_letter, is_denom_char}

pub record Coin : Type 0 where
  pub amount : List ℕ
  pub denom : List ℕ
  pub raw : List ℕ

-- The digits that a text starts with, and what is behind them.
unfoldable pub leading_digits : List ℕ → List ℕ
leading_digits [] = []
leading_digits (c ∷ cs) = if is_digit c then c ∷ leading_digits cs else []

unfoldable pub behind_digits : List ℕ → List ℕ
behind_digits [] = []
behind_digits (c ∷ cs) = if is_digit c then behind_digits cs else c ∷ cs

-- `/^([a-zA-Z][a-zA-Z0-9/:._-]*)?$/`
unfoldable pub is_optional_denom : List ℕ → Bool
is_optional_denom [] = true
is_optional_denom (c ∷ cs) = is_letter c && all is_denom_char cs

-- `match[2] || defaultDenom`
unfoldable pub denom_or : List ℕ → List ℕ → List ℕ
denom_or [] default_denom = default_denom
denom_or (c ∷ cs) default_denom = c ∷ cs

unfoldable pub parse_coin : List ℕ → List ℕ → Result Coin
parse_coin value default_denom =
    let text = trim value in
    let amount = leading_digits text in
    let denom = denom_or (behind_digits text) default_denom in
    assert (is_decimal amount && is_optional_denom (behind_digits text)) "invalid coin amount"
    >> ok (record { amount = amount; denom = denom; raw = amount ++ denom })

-- `amount.toString()`: a number has less digits than its successor counts.
unfoldable pub big_int_text : ℕ → List ℕ
big_int_text n = decimal_digits (suc n) n []

unfoldable pub coin_string : ℕ → List ℕ → List ℕ
coin_string amount denom = big_int_text amount ++ denom
