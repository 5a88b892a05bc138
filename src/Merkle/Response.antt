-- ===== src/Merkle/Response.antt =====
-- src/privacy/merkle-path.js: what a snapshot that is accepted shows.
use clairveiljs.Prelude.{
  ℕ, ◌+◌, ◌≤◌, ◌<◌, ◌^◌, Bool, true, false, ◌&&◌, ◌||◌, not, List, [], ◌∷◌, length, all, ltb, leb,
  ◌==◌, ==_iff, &&-eq-true, ltb→lt, leb→le, ok, assert-eq-ok, reject-eq-ok, >>=-eq-ok, ok-eq, ◌≡◌,
  ◌⊎◌, inl, inr, refl, sym, ap, ◌∙◌, subst, arith,
}
use clairveiljs.Text.{codes_eq, codes_eq_iff, is_lower_hex_of}
use clairveiljs.Crypto.Primitives.{Primitives}
use clairveiljs.Crypto.Field.{field_modulus}
use clairveiljs.Crypto.Bytes.{bytes_to_big_int_be}
use clairveiljs.Wire.Bytes.Laws.{field-bind, uint-bind, field-eq-ok}
use clairveiljs.Merkle.{
  aliased_value, same_numbers, bytes_from_hex, read_field_hex, field_hex_v1, checked_hex,
  non_negative_int64_value, is_other_height, check_helpers, climb, ResponsePath, VerifiedPath,
  verify_path, verify_paths, PathRequest, CheckedRequest, PathsResponse, Snapshot,
  normalize_commitment_paths_at_root_request, normalize_commitment_paths_at_root_response,
}
use clairveiljs.Merkle.Hex.{field_of_hex-canonical_field_hex}
use clairveiljs.Merkle.Inclusion.{layer, layer-zero, Collision, halves, halves-zero, climb-layer}

-- The field element of a text.
abbrev pub value_of : List ℕ → ℕ
value_of text = bytes_to_big_int_be (bytes_from_hex text)

read_field_hex-eq :
    (non_zero : Bool) (text : List ℕ) {n : ℕ}
    → read_field_hex non_zero text ≡ ok n
    → value_of text ≡ n
unfolding read_field_hex
read_field_hex-eq non_zero text h =
    let (_, r1) = assert-eq-ok (is_lower_hex_of 64 text) _ _ h in
    let (_, r2) = assert-eq-ok (ltb (value_of text) field_modulus) _ _ r1 in
    ok-eq (reject-eq-ok (non_zero && value_of text == 0) _ _ r2).1

field_hex_v1-value_of :
    (value : ℕ) {hex : List ℕ} → field_hex_v1 value ≡ ok hex → value_of hex ≡ value
unfolding field_hex_v1
field_hex_v1-value_of value h =
    let (checked, r1) = field-bind value false _ h in
    ap value_of (sym (ok-eq r1))
    ∙ field_of_hex-canonical_field_hex value (field-eq-ok value false checked).1

-- A path that is accepted, for a tree with these leaves.
abbrev pub ShowsLeaf : Primitives → (ℕ → ℕ) → ℕ → List ℕ → VerifiedPath → Type 0
ShowsLeaf c leaves leaf_count requested verified =
    (verified.commitment ≡ requested)
    × (verified.index < leaf_count)
    × ((value_of requested ≡ leaves verified.index) ⊎ Collision c leaves 0 verified.index 32)

-- A path that is accepted against the root of a tree is that of a leaf of the tree: the requested
-- commitment is the leaf at the index, unless another pair of nodes has the hash of a node above it.
pub verify_path-ShowsLeaf :
    (c : Primitives) (leaves : ℕ → ℕ) (root : List ℕ) (leaf_count : ℕ) (requested : List ℕ)
    (path : ResponsePath) {verified : VerifiedPath}
    → leaf_count ≤ 2 ^ 32
    → layer c leaves 32 0 ≡ value_of root
    → verify_path c root leaf_count requested path ≡ ok verified
    → ShowsLeaf c leaves leaf_count requested verified
unfolding verify_path
verify_path-ShowsLeaf c leaves root leaf_count requested path {verified} small rooted h =
    let (text, _, r1) = >>=-eq-ok (aliased_value codes_eq path.commitment_hex) _ h in
    let (commitment, read, r2) = >>=-eq-ok (read_field_hex true text) _ r1 in
    let (in_order, r3) = assert-eq-ok (codes_eq text requested) _ _ r2 in
    let (leaf, _, r4) = >>=-eq-ok (aliased_value same_numbers path.leaf_index) _ r3 in
    let (_, _, r5) = uint-bind leaf 64 _ r4 in
    let (inside, r6) = assert-eq-ok (ltb leaf leaf_count) _ _ r5 in
    let (levels, r7) =
      assert-eq-ok (length path.siblings == 32 && length path.helpers == 32) _ _ r6 in
    let (_, r8) = assert-eq-ok (all (λ helper. leb helper 1) path.helpers) _ _ r7 in
    let (done, bits, r9) = >>=-eq-ok (check_helpers leaf path.helpers) _ r8 in
    let (current, climbed, r10) =
      >>=-eq-ok (climb c 0 commitment path.helpers path.siblings) _ r9 in
    let (hex, hexed, r11) = >>=-eq-ok (field_hex_v1 current) _ r10 in
    let (reached, r12) = assert-eq-ok (codes_eq hex root) _ _ r11 in
    let (siblings, helpers) = &&-eq-true (length path.siblings == 32) _ levels in
    let depth = (==_iff (length path.helpers) 32).0 helpers in
    let below = ltb→lt leaf leaf_count inside in
    let result = ok-eq r12 in
    let requested_eq = (codes_eq_iff text requested).0 in_order in
    let at_root =
      sym (field_hex_v1-value_of current hexed)
      ∙ ap value_of ((codes_eq_iff hex root).0 reached)
      ∙ sym rooted
      ∙ sym (top_eq (length path.helpers) leaf depth (omega (arith, below, small))) in
    (
      ap (λ (v : VerifiedPath). v.commitment) (sym result) ∙ requested_eq,
      subst (λ (v : VerifiedPath). v.index < leaf_count) result below,
      shown
          (climb-layer c leaves 0 commitment leaf path.helpers path.siblings
            ((==_iff (length path.siblings) 32).0 siblings ∙ sym depth) bits climbed at_root)
          (ap value_of (sym requested_eq) ∙ read_field_hex-eq true text read)
          (ap (λ (v : VerifiedPath). v.index) result) depth,
    )
  where
    top_eq :
        (n leaf : ℕ)
        → n ≡ 32
        → leaf < 2 ^ 32
        → layer c leaves (0 + n) (halves n leaf) ≡ layer c leaves 32 0
    top_eq n leaf depth below =
        ap (λ (k : ℕ). layer c leaves k (halves n leaf)) (omega (arith, depth))
        ∙ ap (λ (k : ℕ). layer c leaves 32 (halves k leaf)) depth
        ∙ ap (layer c leaves 32) (halves-zero 32 leaf (omega arith))

    shown :
        {commitment index depth : ℕ}
        → (commitment ≡ layer c leaves 0 index) ⊎ Collision c leaves 0 index depth
        → value_of requested ≡ commitment
        → index ≡ verified.index
        → depth ≡ 32
        → (value_of requested ≡ leaves verified.index) ⊎ Collision c leaves 0 verified.index 32
    shown {index = index} (inl node) same place depth =
        inl (same ∙ node ∙ layer-zero c leaves index ∙ ap leaves place)
    shown {index = index} (inr collision) same place depth = inr (
        subst (λ (i : ℕ). Collision c leaves 0 i 32) place
          (subst (Collision c leaves 0 index) depth collision))

-- The paths show a leaf for each of the commitments, in this order.
abbrev pub ShowsLeaves : Primitives → (ℕ → ℕ) → ℕ → List (List ℕ) → List VerifiedPath → Type 0
ShowsLeaves c leaves leaf_count [] [] = Unit {0}
ShowsLeaves c leaves leaf_count [] (verified ∷ others) = ⊥
ShowsLeaves c leaves leaf_count (text ∷ texts) [] = ⊥
ShowsLeaves c leaves leaf_count (text ∷ texts) (verified ∷ others) =
    ShowsLeaf c leaves leaf_count text verified × ShowsLeaves c leaves leaf_count texts others

verify_paths-ShowsLeaves :
    (c : Primitives) (leaves : ℕ → ℕ) (root : List ℕ) (leaf_count : ℕ) (texts : List (List ℕ))
    (paths : List ResponsePath) {verified : List VerifiedPath}
    → length paths ≡ length texts
    → leaf_count ≤ 2 ^ 32
    → layer c leaves 32 0 ≡ value_of root
    → verify_paths c root leaf_count texts paths ≡ ok verified
    → ShowsLeaves c leaves leaf_count texts verified
unfolding verify_paths
verify_paths-ShowsLeaves c leaves root leaf_count [] paths long small rooted h =
    subst (ShowsLeaves c leaves leaf_count []) (ok-eq h) tt
verify_paths-ShowsLeaves c leaves root leaf_count (text ∷ texts) [] long small rooted h =
    absurd (omega arith)
verify_paths-ShowsLeaves c leaves root leaf_count (text ∷ texts) (path ∷ paths) long small rooted
      h =
    let (verified, one, r1) = >>=-eq-ok (verify_path c root leaf_count text path) _ h in
    let (others, rest, r2) = >>=-eq-ok (verify_paths c root leaf_count texts paths) _ r1 in
    subst (ShowsLeaves c leaves leaf_count (text ∷ texts)) (ok-eq r2) (
      verify_path-ShowsLeaf c leaves root leaf_count text path small rooted one,
      verify_paths-ShowsLeaves c leaves root leaf_count texts paths (omega arith) small rooted rest,
    )

-- A snapshot that is accepted has the root of the request and at most 2^32 leaves. If the root is
-- that of a tree, each requested commitment is, in the order of the request, the leaf of the tree at
-- the index of its path, unless a node above that leaf is also the hash of a pair of field elements
-- that are not the nodes below it.
pub normalize_commitment_paths_at_root_response-ShowsLeaves :
    (c : Primitives) (leaves : ℕ → ℕ) (response : PathsResponse) (request : PathRequest)
    {snapshot : Snapshot}
    → normalize_commitment_paths_at_root_response c response request ≡ ok snapshot
    → layer c leaves 32 0 ≡ value_of snapshot.root
    → (checked : CheckedRequest) × (normalize_commitment_paths_at_root_request request ≡ ok checked)
      × (snapshot.root ≡ checked.root)
      × (snapshot.leaves ≤ 2 ^ 32)
      × ShowsLeaves c leaves snapshot.leaves checked.commitments snapshot.paths
unfolding normalize_commitment_paths_at_root_response
normalize_commitment_paths_at_root_response-ShowsLeaves c leaves response request {snapshot} h
      rooted =
    let (checked, requested, r1) =
      >>=-eq-ok (normalize_commitment_paths_at_root_request request) _ h in
    let (root_text, _, r2) = >>=-eq-ok (aliased_value codes_eq response.root_hex) _ r1 in
    let (root, _, r3) = >>=-eq-ok (checked_hex false root_text) _ r2 in
    let (height_value, _, r4) =
      >>=-eq-ok (aliased_value same_numbers response.snapshot_height) _ r3 in
    let (height, _, r5) = >>=-eq-ok (non_negative_int64_value height_value) _ r4 in
    let (count_value, _, r6) = >>=-eq-ok (aliased_value same_numbers response.leaf_count) _ r5 in
    let (_, _, r7) = uint-bind count_value 64 _ r6 in
    let (same, r8) =
      reject-eq-ok (not (codes_eq root checked.root) || is_other_height checked.height height) _ _
        r7 in
    let (_, r9) = reject-eq-ok (count_value == 0) _ _ r8 in
    let (count, r10) = assert-eq-ok (length response.paths == length checked.commitments) _ _ r9 in
    let (small, r11) = assert-eq-ok (leb count_value (2 ^ 32)) _ _ r10 in
    let (paths, verified, r12) =
      >>=-eq-ok (verify_paths c root count_value checked.commitments response.paths) _ r11 in
    let result = ok-eq r12 in
    let few = leb→le count_value (2 ^ 32) small in
    let root_eq =
      (codes_eq_iff root checked.root).0 (first_of (codes_eq root checked.root) _ same) in
    let shown =
      verify_paths-ShowsLeaves c leaves root count_value checked.commitments response.paths
        ((==_iff (length response.paths) (length checked.commitments)).0 count) few
        (rooted ∙ ap (λ (s : Snapshot). value_of s.root) (sym result)) verified in
    (
      checked,
      requested,
      ap (λ (s : Snapshot). s.root) (sym result) ∙ root_eq,
      subst (λ (s : Snapshot). s.leaves ≤ 2 ^ 32) result few,
      subst (λ (s : Snapshot). ShowsLeaves c leaves s.leaves checked.commitments s.paths) result
          shown,
    )
  where
    first_of : (a b : Bool) → (not a || b) ≡ false → a ≡ true
    first_of true b e = refl
    first_of false b e = cc
