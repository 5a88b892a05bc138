-- ===== src/Wire/Intent/Accepted.antt =====
-- src/privacy/protocol-v1.js: digests that are computed are accepted by an intent.
use clairveiljs.Prelude.{
  ℕ, zero, suc, ◌+◌, ◌*◌, ◌^◌, ◌<◌, ◌≤◌, true, false, ◌||◌, List, [], ◌∷◌, length, take, drop,
  lt→ltb, ◌==◌, ok, >>=-eq-ok, ok-eq, reject-eq-ok, ◌≡◌, ◌≢◌, refl, subst, arith,
}
use native.Mathlib.Nat.{mul-le-mul_right, lt_of_lt_of_le}
use clairveiljs.Crypto.Primitives.{Primitives, HasLaws}
use clairveiljs.Crypto.Field.{field_modulus}
use clairveiljs.Crypto.Bytes.{bytes_to_big_int_be, read_from}
use clairveiljs.Crypto.Bytes.Laws.{bound, IsBytes}
use clairveiljs.Wire.Bytes.Laws.{length-take}
use clairveiljs.Wire.Bytes.{uint, field}
use clairveiljs.Wire.Intent.{
  Digest, digest_of, write_length_prefixed, compute_chain_domain_v1,
  compute_withdraw_recipient_digest_v1, positive_expiry, SpendIntent, required_half,
  compute_spend_intent_v2,
}

-- Bytes behind a number make one with as many digits more.
read_from-lt : (acc : ℕ) (bs : List ℕ) → IsBytes bs → read_from acc bs < suc acc * bound (length bs)
unfolding read_from
read_from-lt acc [] h = omega arith
read_from-lt acc (b ∷ bs) h = lt_of_lt_of_le (read_from-lt (acc * 256 + b) bs h.1) (
    omega
      (arith, mul-le-mul_right (bound (length bs)) (room (acc * 256 + b) acc (omega (arith, h.0)))))
  where
    room : (n acc : ℕ) → n < suc acc * 256 → suc n ≤ suc acc * 256
    room n acc h = omega arith

take-IsBytes : (k : ℕ) (bs : List ℕ) → IsBytes bs → IsBytes (take k bs)
take-IsBytes zero bs h = tt
take-IsBytes (suc k) [] h = tt
take-IsBytes (suc k) (b ∷ bs) h = (h.0, take-IsBytes k bs h.1)

drop-IsBytes : (k : ℕ) (bs : List ℕ) → IsBytes bs → IsBytes (drop k bs)
drop-IsBytes zero bs h = h
drop-IsBytes (suc k) [] h = tt
drop-IsBytes (suc k) (b ∷ bs) h = drop-IsBytes k bs h.1

length-drop : (k j : ℕ) (bs : List ℕ) → length bs ≡ k + j → length (drop k bs) ≡ j
length-drop zero j bs h = omega (arith, h)
length-drop (suc k) j [] h = absurd (omega arith)
length-drop (suc k) j (b ∷ bs) h = length-drop k j bs (omega arith)

half-lt : (bs : List ℕ) → IsBytes bs → length bs ≡ 16 → bytes_to_big_int_be bs < 2 ^ 128
unfolding bytes_to_big_int_be
half-lt bs h long = subst (λ (n : ℕ). read_from 0 bs < 1 * bound n) long (read_from-lt 0 bs h)

-- Both halves of the digest have 128 bits.
abbrev AreHalves : Digest → Type 0
AreHalves digest = (digest.hi < 2 ^ 128) × (digest.lo < 2 ^ 128)

digest_of-AreHalves :
    {c : Primitives} → HasLaws c → (bs : List ℕ) → AreHalves (digest_of (c.sha256 bs))
unfolding digest_of
digest_of-AreHalves {c} laws bs =
    let long = laws.length-sha256 bs in
    let small = laws.sha256-bytes bs in
    (
      half-lt (take 16 (c.sha256 bs)) (take-IsBytes 16 _ small)
          (length-take 16 _ (omega (arith, long))),
      half-lt (drop 16 (c.sha256 bs)) (drop-IsBytes 16 _ small) (length-drop 16 16 _ long),
    )

compute_chain_domain_v1-AreHalves :
    {c : Primitives}
    → HasLaws c
    → (chain circuit : List ℕ) {digest : Digest}
    → compute_chain_domain_v1 c chain circuit ≡ ok digest
    → AreHalves digest
unfolding compute_chain_domain_v1
compute_chain_domain_v1-AreHalves {c} laws chain circuit h =
    let (_, r1) = reject-eq-ok (length chain == 0 || length circuit == 0) _ _ h in
    let (_, _, r2) = >>=-eq-ok (write_length_prefixed (c.utf8_bytes chain)) _ r1 in
    let (_, _, r3) = >>=-eq-ok (write_length_prefixed (c.utf8_bytes circuit)) _ r2 in
    subst AreHalves (ok-eq r3) (digest_of-AreHalves laws _)

compute_withdraw_recipient_digest_v1-AreHalves :
    {c : Primitives}
    → HasLaws c
    → (recipient : List ℕ) {digest : Digest}
    → compute_withdraw_recipient_digest_v1 c recipient ≡ ok digest
    → AreHalves digest
unfolding compute_withdraw_recipient_digest_v1
compute_withdraw_recipient_digest_v1-AreHalves laws recipient h =
    let (_, r1) = reject-eq-ok (length recipient == 0) _ _ h in
    let (_, _, r2) = >>=-eq-ok (write_length_prefixed recipient) _ r1 in
    subst AreHalves (ok-eq r2) (digest_of-AreHalves laws _)

field-ok : (value : ℕ) → value < field_modulus → field value false ≡ ok value
unfolding field
field-ok value h = ground arith

field-ok_non_zero : (value : ℕ) → value ≢ 0 → value < field_modulus → field value true ≡ ok value
unfolding field
field-ok_non_zero value ne h = ground arith

required_half-ok : (value : ℕ) → value < 2 ^ 128 → required_half value ≡ ok value
unfolding required_half
required_half-ok value h = rw (field-ok value (omega arith), lt→ltb value (2 ^ 128) h) refl

positive_expiry-ok :
    (expiry : ℕ) → expiry ≢ 0 → expiry < 2 ^ 63 → positive_expiry expiry ≡ ok expiry
unfolding positive_expiry uint
positive_expiry-ok expiry ne h = ground arith

-- An intent to spend is computed from the digest of a chain and that of a recipient, for a root, a
-- nullifier and an asset that are elements of the field other than zero, an amount below 2^64 and a
-- positive expiry below 2^63.
pub compute_spend_intent_v2-accepts :
    {c : Primitives}
    → HasLaws c
    → (chain circuit recipient : List ℕ) (intent : SpendIntent)
    → compute_chain_domain_v1 c chain circuit ≡ ok intent.chain_domain
    → compute_withdraw_recipient_digest_v1 c recipient ≡ ok intent.recipient_digest
    → intent.root ≢ 0
    → intent.root < field_modulus
    → intent.nullifier ≢ 0
    → intent.nullifier < field_modulus
    → intent.amount < 2 ^ 64
    → intent.asset_id ≢ 0
    → intent.asset_id < field_modulus
    → intent.expires_at_unix ≢ 0
    → intent.expires_at_unix < 2 ^ 63
    → (signed : ℕ) × (compute_spend_intent_v2 c intent ≡ ok signed)
unfolding compute_spend_intent_v2 uint
compute_spend_intent_v2-accepts {c} laws chain circuit recipient intent chained received r0 r n0 n a
      s0 s e0 e =
    let (chain_hi, chain_lo) = compute_chain_domain_v1-AreHalves laws chain circuit chained in
    let (to_hi, to_lo) = compute_withdraw_recipient_digest_v1-AreHalves laws recipient received in
    rw
      (
        positive_expiry-ok intent.expires_at_unix e0 e,
        required_half-ok intent.chain_domain.hi chain_hi,
        required_half-ok intent.chain_domain.lo chain_lo,
        required_half-ok intent.recipient_digest.hi to_hi,
        required_half-ok intent.recipient_digest.lo to_lo,
        field-ok_non_zero intent.root r0 r,
        field-ok_non_zero intent.nullifier n0 n,
        lt→ltb intent.amount (2 ^ 64) a,
        field-ok_non_zero intent.asset_id s0 s,
      )
      (_, refl)
