-- ===== src/Wire/Envelope/RoundTrip.antt =====
-- src/privacy/protocol-v1.js: the envelopes that are unwrapped are those that are wrapped.
use clairveiljs.Prelude.{
  ℕ, zero, suc, ◌+◌, ◌-◌, ◌*◌, ◌≤◌, List, [], ◌∷◌, ◌++◌, length, take, drop, leb, ◌==◌, some,
  Result, ok, ◌>>=◌, ◌>>◌, assert, length-append, >>=-eq-ok, assert-eq-ok, ok-eq, leb→le, le→leb,
  ==_iff, ◌≡◌, ◌↔◌, refl, ◌∙◌, sym, ap, arith, subst,
}
use mathlib.Core.List.{append-nil}
use clairveiljs.Crypto.Primitives.{Primitives, HasLaws}
use clairveiljs.Wire.Bytes.{u16be, u16_bytes, uint, split, read_uint, concat_bytes, equal_bytes}
use clairveiljs.Wire.Bytes.Laws.{read_one, read_two, split-append, equal_bytes_self, equal_bytes→eq}
use clairveiljs.Wire.Domain.Laws.{length-fixed_domain_tag}
use clairveiljs.Wire.Note.{fixed_binary_version}
use clairveiljs.Wire.Envelope.{
  envelope_tag, envelope_ciphertext_size, wrap_encrypted_envelope_v1, is_expected,
  unwrap_encrypted_envelope_v1,
}

-- The four bytes between the tag and the ciphertext.
record Four (bs : List ℕ) : Type 0 where
  first : ℕ
  second : ℕ
  third : ℕ
  fourth : ℕ
  rest : List ℕ
  eq : bs ≡ first ∷ second ∷ third ∷ fourth ∷ rest

Four-bytes : (bs : List ℕ) → 4 ≤ length bs → Four bs
Four-bytes (v ∷ w ∷ k ∷ z ∷ rest) h = record {
  first = v;
  second = w;
  third = k;
  fourth = z;
  rest = rest;
  eq = refl;
}
Four-bytes [] h = absurd (omega arith)
Four-bytes (v ∷ []) h = absurd (omega arith)
Four-bytes (v ∷ w ∷ []) h = absurd (omega arith)
Four-bytes (v ∷ w ∷ k ∷ []) h = absurd (omega arith)

take-append-drop : (n : ℕ) (bs : List ℕ) → take n bs ++ drop n bs ≡ bs
take-append-drop zero bs = refl
take-append-drop (suc n) [] = refl
take-append-drop (suc n) (b ∷ bs) = ap (λ (r : List ℕ). b ∷ r) (take-append-drop n bs)

length-drop : (n : ℕ) (bs : List ℕ) → length (drop n bs) ≡ length bs - n
length-drop zero bs = omega arith
length-drop (suc n) [] = omega arith
length-drop (suc n) (b ∷ bs) = omega (arith, length-drop n bs)

-- The checks behind that of the tag.
checked : ℕ → List ℕ → Result (List ℕ)
checked expected bs = do
  let (version, r2) = read_uint 2 bs
  assert (version == fixed_binary_version) "unsupported encrypted envelope version"
  let (kind, r3) = read_uint 1 r2
  assert (kind == expected) "encrypted envelope kind mismatch"
  let (reserved, raw) = read_uint 1 r3
  assert (reserved == 0) "encrypted envelope reserved byte must be zero"
  size ← envelope_ciphertext_size kind
  assert (length raw == size) "encrypted envelope has invalid fixed length"
  ok raw

checked-eq-ok :
    (expected v w k z : ℕ) (rest : List ℕ) {raw : List ℕ}
    → checked expected (v ∷ w ∷ k ∷ z ∷ rest) ≡ ok raw
    → (v ∷ w ∷ k ∷ z ∷ rest ≡ 0 ∷ 1 ∷ expected ∷ 0 ∷ raw)
      × (envelope_ciphertext_size expected ≡ ok (length raw))
unfolding checked
checked-eq-ok expected v w k z rest h =
    let h1 = rw (read_two v w (k ∷ z ∷ rest), read_one k (z ∷ rest), read_one z rest) at h in
    let (version, r1) = assert-eq-ok (v * 256 + w == 1) _ _ h1 in
    let (kind, r2) = assert-eq-ok (k == expected) _ _ r1 in
    let (reserved, r3) = assert-eq-ok (z == 0) _ _ r2 in
    let (size, sized, r4) = >>=-eq-ok (envelope_ciphertext_size k) _ r3 in
    let (long, r5) = assert-eq-ok (length rest == size) _ _ r4 in
    let is_version = (==_iff (v * 256 + w) 1).0 version in
    let v_eq : v ≡ 0 = omega arith in
    let w_eq : w ≡ 1 = omega arith in
    let k_eq = (==_iff k expected).0 kind in
    let z_eq = (==_iff z 0).0 reserved in
    let rest_eq = ok-eq r5 in
    (
      λ i. v_eq i ∷ w_eq i ∷ k_eq i ∷ z_eq i ∷ rest_eq i,
      ap envelope_ciphertext_size (sym k_eq)
          ∙ sized
          ∙ ap ok (sym ((==_iff (length rest) size).0 long) ∙ ap length rest_eq),
    )

module _ {c : Primitives} (laws : HasLaws c) (kind : ℕ) (raw encoded : List ℕ) where
  length-envelope_tag : length (envelope_tag c) ≡ 16
  unfolding envelope_tag
  length-envelope_tag = length-fixed_domain_tag laws "clairveil.encrypted-envelope.v1"

  -- The bytes of an envelope, whose length is that of its kind.
  wrap_parts :
      wrap_encrypted_envelope_v1 c kind raw ≡ ok encoded
      → (envelope_ciphertext_size kind ≡ ok (length raw))
        × (encoded ≡ envelope_tag c ++ (0 ∷ 1 ∷ kind ∷ 0 ∷ raw))
  unfolding wrap_encrypted_envelope_v1 concat_bytes u16be uint u16_bytes
  wrap_parts h =
      let (size, sized, r1) = >>=-eq-ok (envelope_ciphertext_size kind) _ h in
      let (long, r2) = assert-eq-ok (length raw == size) _ _ r1 in
      (
        sized ∙ ap ok (sym ((==_iff (length raw) size).0 long)),
        sym (ok-eq r2)
            ∙ ap (λ (bs : List ℕ). envelope_tag c ++ (0 ∷ 1 ∷ kind ∷ 0 ∷ bs)) (append-nil raw),
      )

  wrap_of_parts :
      envelope_ciphertext_size kind ≡ ok (length raw)
      → encoded ≡ envelope_tag c ++ (0 ∷ 1 ∷ kind ∷ 0 ∷ raw)
      → wrap_encrypted_envelope_v1 c kind raw ≡ ok encoded
  unfolding wrap_encrypted_envelope_v1 concat_bytes u16be uint u16_bytes
  wrap_of_parts sized eq =
      rw (sized, (==_iff (length raw) (length raw)).1 refl, append-nil raw) (ap ok (sym eq))

  unwrap_of_parts :
      envelope_ciphertext_size kind ≡ ok (length raw)
      → encoded ≡ envelope_tag c ++ (0 ∷ 1 ∷ kind ∷ 0 ∷ raw)
      → unwrap_encrypted_envelope_v1 c encoded (some kind) ≡ ok raw
  unfolding unwrap_encrypted_envelope_v1 is_expected
  unwrap_of_parts sized eq =
      let header : List ℕ = 0 ∷ 1 ∷ kind ∷ 0 ∷ raw in
      rw eq (
        rw (
          le→leb 20 (length (envelope_tag c ++ header))
              (omega (arith, length-append (envelope_tag c) header, length-envelope_tag)),
          split-append 16 (envelope_tag c) header length-envelope_tag,
          equal_bytes_self (envelope_tag c),
          read_two 0 1 (kind ∷ 0 ∷ raw),
          read_one kind (0 ∷ raw),
          read_one 0 raw,
          (==_iff kind kind).1 refl,
          sized,
          (==_iff (length raw) (length raw)).1 refl,
        ))

  parts_of_unwrap :
      unwrap_encrypted_envelope_v1 c encoded (some kind) ≡ ok raw
      → (envelope_ciphertext_size kind ≡ ok (length raw))
        × (encoded ≡ envelope_tag c ++ (0 ∷ 1 ∷ kind ∷ 0 ∷ raw))
  unfolding unwrap_encrypted_envelope_v1 is_expected split checked
  parts_of_unwrap h =
      let (enough, r1) = assert-eq-ok (leb 20 (length encoded)) _ _ h in
      let (tag, r2) =
        assert-eq-ok (equal_bytes (take 16 encoded) (envelope_tag c)) _
          (checked kind (drop 16 encoded)) r1 in
      let behind =
        Four-bytes (drop 16 encoded)
          (omega (arith, length-drop 16 encoded, leb→le 20 (length encoded) enough)) in
      let (header, sized) =
        checked-eq-ok kind behind.first behind.second behind.third behind.fourth behind.rest
          (subst (λ (bs : List ℕ). checked kind bs ≡ ok raw) behind.eq r2) in
      (
        sized,
        sym (take-append-drop 16 encoded)
            ∙ ap (λ (bs : List ℕ). bs ++ drop 16 encoded)
                (equal_bytes→eq (take 16 encoded) (envelope_tag c) tag)
            ∙ ap (λ (bs : List ℕ). envelope_tag c ++ bs) (behind.eq ∙ header),
      )

-- Bytes are unwrapped to a ciphertext, for the kind that is expected, exactly when wrapping that
-- ciphertext gives these bytes.
pub unwrap_encrypted_envelope_v1-wrap_encrypted_envelope_v1 :
    {c : Primitives}
    → HasLaws c
    → (kind : ℕ) (raw encoded : List ℕ)
    → (unwrap_encrypted_envelope_v1 c encoded (some kind) ≡ ok raw)
      ↔ (wrap_encrypted_envelope_v1 c kind raw ≡ ok encoded)
unwrap_encrypted_envelope_v1-wrap_encrypted_envelope_v1 laws kind raw encoded = (
  λ h.
      let (sized, eq) = parts_of_unwrap laws kind raw encoded h in
      wrap_of_parts laws kind raw encoded sized eq,
  λ h.
      let (sized, eq) = wrap_parts laws kind raw encoded h in
      unwrap_of_parts laws kind raw encoded sized eq,
)

-- A ciphertext of the length of its kind is wrapped.
pub wrap_sized :
    {c : Primitives}
    → HasLaws c
    → (kind : ℕ) (raw : List ℕ) → envelope_ciphertext_size kind ≡ ok (length raw)
    → (encoded : List ℕ) × (wrap_encrypted_envelope_v1 c kind raw ≡ ok encoded)
wrap_sized {c} laws kind raw sized = (
  envelope_tag c ++ (0 ∷ 1 ∷ kind ∷ 0 ∷ raw),
  wrap_of_parts laws kind raw (envelope_tag c ++ (0 ∷ 1 ∷ kind ∷ 0 ∷ raw)) sized refl,
)
