-- ===== src/Crypto/Primitives.antt =====
-- The calls of src/core/crypto.js and src/core/browser-crypto.js that leave the repository: the hashes
-- of @noble/hashes and js-sha3, the cipher of @noble/ciphers, and the text codecs of the platform.
use clairveiljs.Prelude.{ℕ, ◌+◌, ◌<◌, Bool, true, List, length, All, Result, ok, ◌≡◌}

-- A text is a list of code points, and bytes are numbers below 256.
pub record Primitives : Type 0 where
  -- `sha256` of @noble/hashes
  pub sha256 : List ℕ → List ℕ
  -- `keccak_256.array` of js-sha3
  pub keccak_256 : List ℕ → List ℕ
  -- `new TextEncoder().encode(text)`
  pub utf8_bytes : List ℕ → List ℕ
  -- `new TextDecoder().decode(bytes)`
  pub utf8_string : List ℕ → List ℕ
  -- whether `new TextDecoder("utf-8", { fatal: true })` decodes the bytes
  pub valid_utf8 : List ℕ → Bool
  -- `gcm(key, nonce).encrypt(plaintext)` and `decrypt(ciphertext)` of @noble/ciphers
  pub aes_gcm_encrypt : List ℕ → List ℕ → List ℕ → List ℕ
  pub aes_gcm_decrypt : List ℕ → List ℕ → List ℕ → Result (List ℕ)

-- What the packages and the platform document. A byte order mark at the start of a text is not
-- kept by a decoder, so that the round trip of a text is asked for each text apart.
pub record HasLaws (c : Primitives) : Type 0 where
  pub length-sha256 : (bs : List ℕ) → length (c.sha256 bs) ≡ 32
  pub sha256-bytes : (bs : List ℕ) → All (λ b. b < 256) (c.sha256 bs)
  pub utf8_bytes-bytes : (text : List ℕ) → All (λ b. b < 256) (c.utf8_bytes text)
  pub utf8_bytes-valid : (text : List ℕ) → c.valid_utf8 (c.utf8_bytes text) ≡ true
  pub decrypt-encrypt :
      (key nonce plaintext : List ℕ)
      → c.aes_gcm_decrypt key nonce (c.aes_gcm_encrypt key nonce plaintext) ≡ ok plaintext
  pub length-aes_gcm_encrypt :
      (key nonce plaintext : List ℕ)
      → length (c.aes_gcm_encrypt key nonce plaintext) ≡ length plaintext + 16
