-- ===== src/Wire/Disclosure/Policy.antt =====
-- src/privacy/protocol-v1.js: a disclosure that is accepted shows no more than its policy says.
use clairveiljs.Prelude.{
  ℕ, zero, suc, ◌-◌, ◌*◌, ◌/◌, ◌%◌, ◌<◌, ◌^◌, String, true, false, ◌&&◌, not, leb, ◌==◌, ==_iff,
  &&-eq-true, Result, ok, ◌>>=◌, >>=-eq-ok, assert-eq-ok, reject-eq-ok, ok-eq, ◌≡◌, ◌∙◌, sym, ap,
  arith,
}
use clairveiljs.Wire.Bytes.{field}
use clairveiljs.Wire.Bytes.Laws.{field-bind, uint-bind}
use clairveiljs.Wire.Disclosure.{
  Keys, DisclosureV1, field_keys, all_zero, check_keys, check_policy,
  normalize_disclosure_plaintext_v1,
}

-- Keys in the field.
pub record AreFields (keys : Keys) : Type 0 where
  pub spend_x_ok : field keys.spend_x false ≡ ok keys.spend_x
  pub spend_y_ok : field keys.spend_y false ≡ ok keys.spend_y
  pub view_x_ok : field keys.view_x false ≡ ok keys.view_x
  pub view_y_ok : field keys.view_y false ≡ ok keys.view_y

pub field_keys-bind {ℓ} :
    {C : Type ℓ} (keys : Keys) (call : Keys → Result C) {c : C}
    → (field_keys keys >>= call) ≡ ok c
    → AreFields keys × (call keys ≡ ok c)
unfolding field_keys
field_keys-bind keys call h =
    let (found, returned, next) = >>=-eq-ok (field_keys keys) call h in
    let (spend_x, r1) = field-bind keys.spend_x false _ returned in
    let (spend_y, r2) = field-bind keys.spend_y false _ r1 in
    let (view_x, r3) = field-bind keys.view_x false _ r2 in
    let (view_y, r4) = field-bind keys.view_y false _ r3 in
    (
      record { spend_x_ok = spend_x; spend_y_ok = spend_y; view_x_ok = view_x; view_y_ok = view_y },
      ap call (ok-eq r4) ∙ next,
    )

-- What a disclosure that is accepted meets.
pub record IsAccepted (v : DisclosureV1) : Type 0 where
  pub output_index_lt : v.output_index < 2 ^ 32
  pub policy_lt : v.policy < 2 ^ 32
  pub bitmap_lt : v.disclosed_field_bitmap < 2 ^ 32
  pub commitment_ok : field v.commitment true ≡ ok v.commitment
  pub amount_lt : v.amount < 2 ^ 64
  pub asset_id_ok : field v.asset_id true ≡ ok v.asset_id
  pub sender_ok : AreFields v.sender
  pub recipient_ok : AreFields v.recipient
  pub blinding_ok : field v.disclosure_blinding true ≡ ok v.disclosure_blinding
  pub policy_ok : check_policy v ≡ ok tt

pub normalize_disclosure_plaintext_v1-eq-ok :
    (v : DisclosureV1) {n : DisclosureV1}
    → normalize_disclosure_plaintext_v1 v ≡ ok n
    → (n ≡ v) × IsAccepted v
unfolding normalize_disclosure_plaintext_v1
normalize_disclosure_plaintext_v1-eq-ok v h =
    let (_, output_index, r1) = uint-bind v.output_index 32 _ h in
    let (_, policy, r2) = uint-bind v.policy 32 _ r1 in
    let (_, bitmap, r3) = uint-bind v.disclosed_field_bitmap 32 _ r2 in
    let (commitment, r4) = field-bind v.commitment true _ r3 in
    let (_, amount, r5) = uint-bind v.amount 64 _ r4 in
    let (asset_id, r6) = field-bind v.asset_id true _ r5 in
    let (sender, r7) = field_keys-bind v.sender _ r6 in
    let (recipient, r8) = field_keys-bind v.recipient _ r7 in
    let (blinding, r9) = field-bind v.disclosure_blinding true _ r8 in
    let (done, checked, r10) = >>=-eq-ok (check_policy v) _ r9 in
    (
      sym (ok-eq r10),
      record {
        output_index_lt = output_index;
        policy_lt = policy;
        bitmap_lt = bitmap;
        commitment_ok = commitment;
        amount_lt = amount;
        asset_id_ok = asset_id;
        sender_ok = sender;
        recipient_ok = recipient;
        blinding_ok = blinding;
        policy_ok = checked;
      },
    )

-- The keys are zero unless the bit is set.
abbrev pub AreHidden : ℕ → Keys → Type 0
AreHidden bit keys =
    ((1 - bit) * keys.spend_x ≡ 0)
    × ((1 - bit) * keys.spend_y ≡ 0)
    × ((1 - bit) * keys.view_x ≡ 0)
    × ((1 - bit) * keys.view_y ≡ 0)

check_keys-AreHidden :
    (bit : ℕ) (keys : Keys) (message : String)
    → bit < 2
    → check_keys bit keys message ≡ ok tt
    → AreHidden bit keys
unfolding check_keys all_zero
check_keys-AreHidden zero keys message small h = ground arith
check_keys-AreHidden (suc zero) keys message small h = omega arith
check_keys-AreHidden (suc (suc bit)) keys message small h = absurd (omega arith)

pub check_policy-AreHidden :
    (v : DisclosureV1)
    → v.plane ≡ 1
    → check_policy v ≡ ok tt
    → (v.disclosed_field_bitmap ≡ v.policy)
      × ((1 - v.policy % 2) * v.amount ≡ 0)
      × AreHidden (v.policy / 4 % 2) v.sender
      × AreHidden (v.policy / 2 % 2) v.recipient
unfolding check_policy
check_policy-AreHidden v user h =
    let (matching, r1) =
      assert-eq-ok (leb 1 v.policy && leb v.policy 7 && v.disclosed_field_bitmap == v.policy) _ _
        (rw ((==_iff v.plane 1).1 user) at h) in
    let (amount, r2) = reject-eq-ok (v.policy % 2 == 0 && not (v.amount == 0)) _ _ r1 in
    let (done, sender, recipient) =
      >>=-eq-ok (check_keys (v.policy / 4 % 2) v.sender "undisclosed sender fields must be zero") _
        r2 in
    (
      (==_iff v.disclosed_field_bitmap v.policy).0
          (&&-eq-true (leb 1 v.policy && leb v.policy 7) _ matching).1,
      hidden_amount (v.policy % 2) v.amount (omega arith) amount,
      check_keys-AreHidden (v.policy / 4 % 2) v.sender _ (omega arith) sender,
      check_keys-AreHidden (v.policy / 2 % 2) v.recipient _ (omega arith) recipient,
    )
  where
    hidden_amount :
        (bit amount : ℕ)
        → bit < 2
        → (bit == 0 && not (amount == 0)) ≡ false
        → (1 - bit) * amount ≡ 0
    hidden_amount zero amount small h = ground arith
    hidden_amount (suc zero) amount small h = omega arith
    hidden_amount (suc (suc bit)) amount small h = absurd (omega arith)

-- A disclosure to a user that is accepted has the policy as its bitmap, and its amount and the keys
-- of each party are zero unless their bit of the policy is set.
pub normalize_disclosure_plaintext_v1-AreHidden :
    (v : DisclosureV1) {n : DisclosureV1}
    → v.plane ≡ 1
    → normalize_disclosure_plaintext_v1 v ≡ ok n
    → (n ≡ v)
      × (v.disclosed_field_bitmap ≡ v.policy)
      × ((1 - v.policy % 2) * v.amount ≡ 0)
      × AreHidden (v.policy / 4 % 2) v.sender
      × AreHidden (v.policy / 2 % 2) v.recipient
normalize_disclosure_plaintext_v1-AreHidden v user h =
    let (same, accepted) = normalize_disclosure_plaintext_v1-eq-ok v h in
    let (bitmap, amount, sender, recipient) = check_policy-AreHidden v user accepted.policy_ok in
    (same, bitmap, amount, sender, recipient)
