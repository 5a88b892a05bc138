-- ===== src/Crypto/Mimc.antt =====
-- src/core/crypto.js: the hash of field elements.
use clairveiljs.Prelude.{ℕ, zero, suc, ◌+◌, ◌*◌, ◌%◌, List, [], ◌∷◌}
use clairveiljs.Text.{codes}
use clairveiljs.Crypto.Primitives.{Primitives}
use clairveiljs.Crypto.Field.{field_modulus}
use clairveiljs.Crypto.Bytes.{to_field}

-- The constants of `n` rounds behind a digest.
unfoldable pub constants_from : Primitives → ℕ → List ℕ → List ℕ
unfolding to_field
constants_from c zero rnd = []
constants_from c (suc n) rnd = to_field (c.keccak_256 rnd) ∷ constants_from c n (c.keccak_256 rnd)

unfoldable pub mimc_constants : Primitives → List ℕ
unfolding constants_from
mimc_constants c = constants_from c 110 (c.keccak_256 (c.utf8_bytes (codes "seed")))

-- The fifth power.
unfoldable pub fifth : ℕ → ℕ
fifth n =
    let squared = n * n % field_modulus in (squared * squared % field_modulus) * n % field_modulus

unfoldable pub mimc_rounds : List ℕ → ℕ → ℕ → ℕ
unfolding fifth
mimc_rounds [] m h = m
mimc_rounds (k ∷ ks) m h = mimc_rounds ks (fifth ((m + h + k) % field_modulus)) h

unfoldable pub mimc_encrypt : List ℕ → ℕ → ℕ → ℕ
unfolding mimc_rounds
mimc_encrypt constants message key =
    (mimc_rounds constants (message % field_modulus) (key % field_modulus) + key % field_modulus)
    % field_modulus

-- The loop of `mimcHash` over what it is called with.
unfoldable pub mimc_from : List ℕ → ℕ → List ℕ → ℕ
unfolding mimc_encrypt
mimc_from constants h [] = h
mimc_from constants h (item ∷ items) =
    let message = item % field_modulus in
    mimc_from constants ((mimc_encrypt constants message h + h + message) % field_modulus) items

unfoldable pub mimc_hash : Primitives → List ℕ → ℕ
unfolding mimc_constants mimc_from
mimc_hash c items = mimc_from (mimc_constants c) 0 items

unfoldable pub hash_string_to_field : Primitives → List ℕ → ℕ
unfolding to_field
hash_string_to_field c text = to_field (c.sha256 (c.utf8_bytes text))
