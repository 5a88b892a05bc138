-- ===== src/Wire/Intent.antt =====
-- src/privacy/protocol-v1.js: the digests of a chain and of a recipient, and the intents that a proof
-- is bound to.
pub mod Accepted
use clairveiljs.Prelude.{
  ℕ, zero, suc, ◌^◌, String, Bool, true, false, ◌&&◌, ◌||◌, not, List, [], ◌∷◌, length, take, drop,
  ltb, ◌==◌, Result, ok, err, ◌>>=◌, ◌>>◌, assert, reject, map_ok, if◌then◌else◌,
}
use clairveiljs.Text.{codes}
use clairveiljs.Crypto.Primitives.{Primitives}
use clairveiljs.Crypto.Bytes.{bytes_to_big_int_be}
use clairveiljs.Crypto.Mimc.{mimc_hash, hash_string_to_field}
use clairveiljs.Wire.Bytes.{uint, field, u32be, concat_bytes}

unfoldable pub write_length_prefixed : List ℕ → Result (List ℕ)
write_length_prefixed raw = do size ← u32be (length raw); ok (concat_bytes (size ∷ raw ∷ []))

-- A digest and its halves. Its text is not used by the intents.
pub record Digest : Type 0 where
  pub encoded : List ℕ
  pub hi : ℕ
  pub lo : ℕ

unfoldable pub digest_of : List ℕ → Digest
digest_of encoded = record {
  encoded = encoded;
  hi = bytes_to_big_int_be (take 16 encoded);
  lo = bytes_to_big_int_be (drop 16 encoded);
}

unfoldable pub compute_chain_domain_v1 : Primitives → List ℕ → List ℕ → Result Digest
compute_chain_domain_v1 c chain circuit = do
  reject (length chain == 0 || length circuit == 0) "chain ID and circuit set ID are required"
  chain_bytes ← write_length_prefixed (c.utf8_bytes chain)
  circuit_bytes ← write_length_prefixed (c.utf8_bytes circuit)
  ok (
      digest_of (
        c.sha256 (
          concat_bytes
            (c.utf8_bytes (codes "clairveil.chain-domain.v1") ∷ chain_bytes ∷ circuit_bytes ∷ []))))

unfoldable pub compute_withdraw_recipient_digest_v1 : Primitives → List ℕ → Result Digest
compute_withdraw_recipient_digest_v1 c recipient = do
  reject (length recipient == 0) "withdraw recipient bytes are required"
  recipient_bytes ← write_length_prefixed recipient
  ok (
      digest_of (
        c.sha256 (
          concat_bytes
            (c.utf8_bytes (codes "clairveil.withdraw-recipient.v1") ∷ recipient_bytes ∷ []))))

unfoldable pub positive_expiry : ℕ → Result ℕ
positive_expiry expires_at_unix = do
  expiry ← uint expires_at_unix 63
  reject (expiry == 0) "intent expiry must be positive"
  ok expiry

-- What a withdrawal signs.
pub record SpendIntent : Type 0 where
  pub chain_domain : Digest
  pub root : ℕ
  pub nullifier : ℕ
  pub amount : ℕ
  pub asset_id : ℕ
  pub recipient_digest : Digest
  pub expires_at_unix : ℕ

-- A half of a digest: an element of the field and an integer of 128 bits.
unfoldable pub required_half : ℕ → Result ℕ
required_half value = do
  canonical ← field value false
  assert (ltb value (2 ^ 128)) "must be an unsigned 128-bit integer"
  ok canonical

unfoldable pub compute_spend_intent_v2 : Primitives → SpendIntent → Result ℕ
compute_spend_intent_v2 c intent = do
  expiry ← positive_expiry intent.expires_at_unix
  chain_hi ← required_half intent.chain_domain.hi
  chain_lo ← required_half intent.chain_domain.lo
  recipient_hi ← required_half intent.recipient_digest.hi
  recipient_lo ← required_half intent.recipient_digest.lo
  root ← field intent.root true
  nullifier ← field intent.nullifier true
  amount ← uint intent.amount 64
  asset_id ← field intent.asset_id true
  ok (
      mimc_hash c (
        hash_string_to_field c (codes "CLAIRVEIL_SPEND_INTENT_V2")
        ∷ chain_hi
        ∷ chain_lo
        ∷ hash_string_to_field c (codes "CLAIRVEIL_SPEND_V2")
        ∷ root
        ∷ nullifier
        ∷ amount
        ∷ asset_id
        ∷ recipient_hi
        ∷ recipient_lo
        ∷ expiry
        ∷ []))

-- What a transfer of two inputs and two outputs signs.
pub record TransferIntent : Type 0 where
  pub chain_domain : Digest
  pub root : ℕ
  pub asset_id : ℕ
  pub nullifiers : List ℕ
  pub commitments : List ℕ
  pub user_disclosure_digest : ℕ
  pub full_disclosure_digest : ℕ
  pub payload_digest : Digest
  pub expires_at_unix : ℕ

unfoldable pub ordered_set : Primitives → String → List ℕ → Result ℕ
ordered_set c domain values = do
  checked ← map_ok (λ value. field value true) values
  ok (mimc_hash c (hash_string_to_field c (codes domain) ∷ length values ∷ checked))

unfoldable pub compute_transfer_intent_v2 : Primitives → TransferIntent → Result ℕ
compute_transfer_intent_v2 c intent = do
  assert (length intent.nullifiers == 2 && length intent.commitments == 2)
      "transfer intent requires exactly two nullifiers and commitments"
  expiry ← positive_expiry intent.expires_at_unix
  chain_hi ← uint intent.chain_domain.hi 128
  chain_lo ← uint intent.chain_domain.lo 128
  root ← field intent.root true
  asset_id ← field intent.asset_id true
  nullifiers ← ordered_set c "CLAIRVEIL_NULLIFIER_SET_V1" intent.nullifiers
  commitments ← ordered_set c "CLAIRVEIL_COMMITMENT_SET_V1" intent.commitments
  user_digest ← field intent.user_disclosure_digest false
  full_digest ← field intent.full_disclosure_digest true
  payload_hi ← uint intent.payload_digest.hi 128
  payload_lo ← uint intent.payload_digest.lo 128
  ok (
      mimc_hash c (
        hash_string_to_field c (codes "CLAIRVEIL_TRANSFER_INTENT_V2")
        ∷ chain_hi
        ∷ chain_lo
        ∷ hash_string_to_field c (codes "CLAIRVEIL_JOINSPLIT_2X2_V2")
        ∷ root
        ∷ 2
        ∷ 2
        ∷ asset_id
        ∷ nullifiers
        ∷ commitments
        ∷ user_digest
        ∷ full_digest
        ∷ payload_hi
        ∷ payload_lo
        ∷ expiry
        ∷ []))
