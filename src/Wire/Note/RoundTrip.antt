-- ===== src/Wire/Note/RoundTrip.antt =====
-- src/privacy/protocol-v1.js: a note is read back from its plaintext.
use clairveiljs.Prelude.{
  ℕ, ◌-◌, ◌<◌, ◌≤◌, ◌^◌, true, false, ◌||◌, List, [], ◌∷◌, ◌++◌, length, replicate, leb, ◌==◌,
  Result, ok, ◌>>=◌, ◌>>◌, assert, reject, length-append, >>=-eq-ok, assert-eq-ok, reject-eq-ok,
  ok-eq, leb→le, le→leb, ◌≡◌, refl, ◌∙◌, sym, ap, arith,
}
use clairveiljs.Crypto.Primitives.{Primitives, HasLaws}
use clairveiljs.Crypto.Bytes.{canonical_field_bytes, big_endian}
use clairveiljs.Crypto.Bytes.Laws.{length-big_endian}
use clairveiljs.Wire.Bytes.{field, u16_bytes, concat_bytes}
use clairveiljs.Wire.Bytes.Laws.{
  u64be-eq, u16be-eq, length-canonical_field_bytes, field-bind, uint-bind,
  read_field-canonical_field_bytes, read_uint-u16_bytes, read_uint-big_endian, split-append,
  equal_bytes_self, length-concat_bytes, take-length, length-replicate, all_zero-replicate,
}
use mathlib.Core.List.{append-nil}
use clairveiljs.Wire.Domain.Laws.{length-fixed_domain_tag}
use clairveiljs.Wire.Domain.{fixed_domain_tag, point_from_coordinates}
use clairveiljs.Wire.Note.{
  NoteV1, fixed_binary_version, note_memo_capacity_v1, compute_note_commitment_unchecked,
  compute_note_nullifier_unchecked, validate_note_v1, marshal_note_plaintext_v1, read_note_header,
  read_note_memo, unmarshal_note_plaintext_v1,
}

-- What a note that is accepted meets.
pub record IsAccepted (c : Primitives) (note : NoteV1) : Type 0 where
  pub spend_x_ok : field note.receiver_spend_pub_key_x false ≡ ok note.receiver_spend_pub_key_x
  pub spend_y_ok : field note.receiver_spend_pub_key_y false ≡ ok note.receiver_spend_pub_key_y
  pub view_x_ok : field note.receiver_view_pub_key_x false ≡ ok note.receiver_view_pub_key_x
  pub view_y_ok : field note.receiver_view_pub_key_y false ≡ ok note.receiver_view_pub_key_y
  pub amount_lt : note.amount < 2 ^ 64
  pub asset_id_ok : field note.asset_id true ≡ ok note.asset_id
  pub randomness_ok : field note.randomness false ≡ ok note.randomness
  pub memo_le : length (c.utf8_bytes note.memo) ≤ 128

-- The checks behind those of the values.
last_checks : Primitives → NoteV1 → Result NoteV1
last_checks c normalized = do
  assert (leb (length (c.utf8_bytes normalized.memo)) note_memo_capacity_v1)
      "NoteV1 memo exceeds fixed capacity"
  spend_key ←
      point_from_coordinates normalized.receiver_spend_pub_key_x normalized.receiver_spend_pub_key_y
  view_key ←
      point_from_coordinates normalized.receiver_view_pub_key_x normalized.receiver_view_pub_key_y
  reject
      (compute_note_commitment_unchecked c normalized == 0
        || compute_note_nullifier_unchecked c normalized == 0)
      "NoteV1 active commitment and nullifier must be non-zero"
  ok normalized

last_checks-eq-ok :
    (c : Primitives) (n : NoteV1) {m : NoteV1}
    → last_checks c n ≡ ok m
    → (m ≡ n) × (length (c.utf8_bytes n.memo) ≤ 128)
unfolding last_checks
last_checks-eq-ok c n h =
    let (short, r1) = assert-eq-ok (leb (length (c.utf8_bytes n.memo)) 128) _ _ h in
    let (_, _, r2) =
      >>=-eq-ok (point_from_coordinates n.receiver_spend_pub_key_x n.receiver_spend_pub_key_y) _
        r1 in
    let (_, _, r3) =
      >>=-eq-ok (point_from_coordinates n.receiver_view_pub_key_x n.receiver_view_pub_key_y) _ r2 in
    let (_, r4) =
      reject-eq-ok
        (compute_note_commitment_unchecked c n == 0 || compute_note_nullifier_unchecked c n == 0) _
        _ r3 in
    (sym (ok-eq r4), leb→le _ 128 short)

-- A note that is accepted is returned as it is.
pub validate_note_v1-eq-ok :
    (c : Primitives) (note : NoteV1) {n : NoteV1}
    → validate_note_v1 c note ≡ ok n
    → (n ≡ note) × IsAccepted c note
unfolding validate_note_v1 last_checks
validate_note_v1-eq-ok c note h =
    let (spend_x, r1) = field-bind note.receiver_spend_pub_key_x false _ h in
    let (spend_y, r2) = field-bind note.receiver_spend_pub_key_y false _ r1 in
    let (view_x, r3) = field-bind note.receiver_view_pub_key_x false _ r2 in
    let (view_y, r4) = field-bind note.receiver_view_pub_key_y false _ r3 in
    let (_, amount, r5) = uint-bind note.amount 64 _ r4 in
    let (asset_id, r6) = field-bind note.asset_id true _ r5 in
    let (randomness, r7) = field-bind note.randomness false _ r6 in
    let (same, memo) = last_checks-eq-ok c note r7 in
    (
      same,
      record {
        spend_x_ok = spend_x;
        spend_y_ok = spend_y;
        view_x_ok = view_x;
        view_y_ok = view_y;
        amount_lt = amount;
        asset_id_ok = asset_id;
        randomness_ok = randomness;
        memo_le = memo;
      },
    )

-- The bytes of a note that is accepted.
unfoldable pub note_bytes : Primitives → NoteV1 → List ℕ
note_bytes c n = concat_bytes (
    fixed_domain_tag c "clairveil.note-plaintext.v1"
    ∷ u16_bytes fixed_binary_version
    ∷ (0 ∷ 0 ∷ [])
    ∷ canonical_field_bytes n.receiver_spend_pub_key_x
    ∷ canonical_field_bytes n.receiver_spend_pub_key_y
    ∷ canonical_field_bytes n.receiver_view_pub_key_x
    ∷ canonical_field_bytes n.receiver_view_pub_key_y
    ∷ big_endian 8 n.amount
    ∷ canonical_field_bytes n.asset_id
    ∷ canonical_field_bytes n.randomness
    ∷ u16_bytes (length (c.utf8_bytes n.memo))
    ∷ c.utf8_bytes n.memo
    ∷ replicate (note_memo_capacity_v1 - length (c.utf8_bytes n.memo)) 0
    ∷ [])

pub marshal_note_plaintext_v1-eq :
    (c : Primitives) (note : NoteV1) {n : NoteV1}
    → validate_note_v1 c note ≡ ok n
    → marshal_note_plaintext_v1 c note ≡ ok (note_bytes c note)
unfolding marshal_note_plaintext_v1 note_bytes
marshal_note_plaintext_v1-eq c note h =
    let (same, accepted) = validate_note_v1-eq-ok c note h in
    let valid : validate_note_v1 c note ≡ ok note = h ∙ ap ok same in
    rw (
      valid,
      u16be-eq 1 (omega arith),
      u64be-eq note.amount accepted.amount_lt,
      u16be-eq (length (c.utf8_bytes note.memo)) (omega (arith, accepted.memo_le)),
    )

read_note_header-eq :
    (c : Primitives) (rest : List ℕ)
    → length (fixed_domain_tag c "clairveil.note-plaintext.v1") ≡ 16
    → read_note_header c (
        fixed_domain_tag c "clairveil.note-plaintext.v1"
        ++ (u16_bytes fixed_binary_version ++ (0 ∷ 0 ∷ rest)))
      ≡ ok rest
unfolding read_note_header
read_note_header-eq c rest long = rw (
  split-append 16 (fixed_domain_tag c "clairveil.note-plaintext.v1")
      (u16_bytes fixed_binary_version ++ (0 ∷ 0 ∷ rest)) long,
  equal_bytes_self (fixed_domain_tag c "clairveil.note-plaintext.v1"),
  read_uint-u16_bytes fixed_binary_version (0 ∷ 0 ∷ rest) (omega arith),
  split-append 2 (0 ∷ 0 ∷ []) rest refl,
)

read_note_memo-eq :
    (c : Primitives) (memo : List ℕ)
    → length memo ≤ 128
    → c.valid_utf8 memo ≡ true
    → read_note_memo c (
        u16_bytes (length memo)
        ++ (memo ++ (replicate (note_memo_capacity_v1 - length memo) 0 ++ [])))
      ≡ ok (c.utf8_string memo)
unfolding read_note_memo
read_note_memo-eq c memo short valid =
    let padding = replicate (note_memo_capacity_v1 - length memo) 0 in
    let long : length (memo ++ padding) ≡ 128 =
      omega (arith, length-append memo padding, length-replicate (128 - length memo) 0) in
    rw (
      read_uint-u16_bytes (length memo) (memo ++ (padding ++ [])) (omega arith),
      le→leb (length memo) 128 short,
      append-nil padding,
      take-length (memo ++ padding) 128 long,
      split-append (length memo) memo padding refl,
      all_zero-replicate (128 - length memo),
      valid,
    )

pub length-note_bytes :
    {c : Primitives}
    → HasLaws c
    → (n : NoteV1) → length (c.utf8_bytes n.memo) ≤ 128
    → length (note_bytes c n) ≡ 350
unfolding note_bytes u16_bytes
length-note_bytes {c} laws n short =
    length-concat_bytes _
    ∙ omega (
      arith,
      length-fixed_domain_tag laws "clairveil.note-plaintext.v1",
      length-canonical_field_bytes,
      length-big_endian 8 n.amount,
      length-replicate (note_memo_capacity_v1 - length (c.utf8_bytes n.memo)) 0,
    )

-- The fields behind the header.
abbrev note_fields : Primitives → NoteV1 → List ℕ
note_fields c n = concat_bytes (
    canonical_field_bytes n.receiver_spend_pub_key_x
    ∷ canonical_field_bytes n.receiver_spend_pub_key_y
    ∷ canonical_field_bytes n.receiver_view_pub_key_x
    ∷ canonical_field_bytes n.receiver_view_pub_key_y
    ∷ big_endian 8 n.amount
    ∷ canonical_field_bytes n.asset_id
    ∷ canonical_field_bytes n.randomness
    ∷ u16_bytes (length (c.utf8_bytes n.memo))
    ∷ c.utf8_bytes n.memo
    ∷ replicate (note_memo_capacity_v1 - length (c.utf8_bytes n.memo)) 0
    ∷ [])

read_note_header-note_bytes :
    {c : Primitives}
    → HasLaws c
    → (n : NoteV1) → read_note_header c (note_bytes c n) ≡ ok (note_fields c n)
unfolding note_bytes concat_bytes
read_note_header-note_bytes {c} laws n =
    read_note_header-eq c (note_fields c n)
      (length-fixed_domain_tag laws "clairveil.note-plaintext.v1")

-- Each note that is accepted has a plaintext of 350 bytes, and is read back from it, if the platform
-- decodes its memo to the text that was encoded.
pub unmarshal_note_plaintext_v1-marshal_note_plaintext_v1 :
    {c : Primitives}
    → HasLaws c
    → (note : NoteV1) {n : NoteV1} → c.utf8_string (c.utf8_bytes note.memo) ≡ note.memo
    → validate_note_v1 c note ≡ ok n
    → (encoded : List ℕ) × (marshal_note_plaintext_v1 c note ≡ ok encoded)
      × (length encoded ≡ 350)
      × (unmarshal_note_plaintext_v1 c encoded ≡ ok note)
unfolding unmarshal_note_plaintext_v1 concat_bytes
unmarshal_note_plaintext_v1-marshal_note_plaintext_v1 {c} laws note kept valid =
    let (same, accepted) = validate_note_v1-eq-ok c note valid in
    let long = length-note_bytes laws note accepted.memo_le in
    let memo = c.utf8_bytes note.memo in
    let r7 =
      u16_bytes (length memo)
      ++ (memo ++ (replicate (note_memo_capacity_v1 - length memo) 0 ++ [])) in
    let r6 = canonical_field_bytes note.randomness ++ r7 in
    let r5 = canonical_field_bytes note.asset_id ++ r6 in
    let r4 = big_endian 8 note.amount ++ r5 in
    let r3 = canonical_field_bytes note.receiver_view_pub_key_y ++ r4 in
    let r2 = canonical_field_bytes note.receiver_view_pub_key_x ++ r3 in
    let r1 = canonical_field_bytes note.receiver_spend_pub_key_y ++ r2 in
    (
      note_bytes c note,
      marshal_note_plaintext_v1-eq c note valid,
      long,
      rw
          (
            long,
            read_note_header-note_bytes laws note,
            read_field-canonical_field_bytes note.receiver_spend_pub_key_x false r1
                accepted.spend_x_ok,
            read_field-canonical_field_bytes note.receiver_spend_pub_key_y false r2
                accepted.spend_y_ok,
            read_field-canonical_field_bytes note.receiver_view_pub_key_x false r3
                accepted.view_x_ok,
            read_field-canonical_field_bytes note.receiver_view_pub_key_y false r4
                accepted.view_y_ok,
            read_uint-big_endian 8 note.amount r5 (omega (arith, accepted.amount_lt)),
            read_field-canonical_field_bytes note.asset_id true r6 accepted.asset_id_ok,
            read_field-canonical_field_bytes note.randomness false r7 accepted.randomness_ok,
            read_note_memo-eq c memo accepted.memo_le (laws.utf8_bytes-valid note.memo),
            kept,
          )
          (valid ∙ ap ok same),
    )
