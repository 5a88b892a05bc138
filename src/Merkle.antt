-- ===== src/Merkle.antt =====
-- src/privacy/merkle-path.js and src/privacy/protocol-v1.js: the tree of commitments, and the paths of
-- a snapshot that a node answers with. A number that may come as text is read already, and a value
-- that may come under several names is the list of what stands under them.
pub mod Hex
pub mod Inclusion
pub mod Response
mod Witnesses
use clairveiljs.Prelude.{
  ℕ, zero, suc, ◌+◌, ◌-◌, ◌*◌, ◌/◌, ◌%◌, ◌^◌, String, Bool, true, false, ◌&&◌, ◌||◌, not, List, [],
  ◌∷◌, length, any, all, ltb, leb, ◌==◌, Option, none, some, Result, ok, err, ◌>>=◌, ◌>>◌, assert,
  reject, map, map_ok, if◌then◌else◌,
}
use clairveiljs.Text.{codes_eq, is_lower_hex_of}
use clairveiljs.Crypto.Primitives.{Primitives}
use clairveiljs.Crypto.Field.{field_modulus}
use clairveiljs.Crypto.Bytes.{bytes_to_big_int_be}
use clairveiljs.Crypto.Mimc.{mimc_hash}
use clairveiljs.Wire.Bytes.{uint, field}
use clairveiljs.Wire.Domain.{domain_field_v1}
use clairveiljs.Notes.Found.{canonical_field_hex}

unfoldable pub note_tree_node : Primitives → ℕ → ℕ → ℕ → ℕ
note_tree_node c level left right =
    mimc_hash c (domain_field_v1 c "clairveil.note-tree-node.v1" ∷ level ∷ left ∷ right ∷ [])

unfoldable pub compute_note_tree_node_v1 : Primitives → ℕ → ℕ → ℕ → Result ℕ
compute_note_tree_node_v1 c level left right = do
  l ← uint level 32
  a ← field left false
  b ← field right false
  ok (note_tree_node c l a b)

-- The roots of empty trees from a level on, `n` levels of them.
unfoldable pub empty_roots_from : Primitives → ℕ → ℕ → ℕ → Result (List ℕ)
empty_roots_from c zero level root = ok (root ∷ [])
empty_roots_from c (suc n) level root = do
  next ← compute_note_tree_node_v1 c level root root
  roots ← empty_roots_from c n (suc level) next
  ok (root ∷ roots)

unfoldable pub empty_note_tree_roots_v1 : Primitives → ℕ → Result (List ℕ)
empty_note_tree_roots_v1 c depth = do
  parsed_depth ← uint depth 32
  empty_roots_from c parsed_depth 0 0

abbrev pub commitment_path_snapshot_depth_v1 : ℕ
commitment_path_snapshot_depth_v1 = 32

abbrev pub commitment_path_snapshot_max_commitments_v1 : ℕ
commitment_path_snapshot_max_commitments_v1 = 16

-- The values under the names of a property, which are to be the same.
unfoldable pub aliased_value {ℓ} : {A : Type ℓ} → (A → A → Bool) → List A → Result A
aliased_value same [] = err "is required"
aliased_value same (value ∷ others) =
    reject (any (λ other. not (same value other)) others) "aliases do not match" >> ok value

-- `JSON.stringify(left) === JSON.stringify(right)` of lists of texts.
unfoldable pub same_texts : List (List ℕ) → List (List ℕ) → Bool
same_texts [] [] = true
same_texts [] (y ∷ ys) = false
same_texts (x ∷ xs) [] = false
same_texts (x ∷ xs) (y ∷ ys) = codes_eq x y && same_texts xs ys

unfoldable pub same_numbers : ℕ → ℕ → Bool
same_numbers a b = a == b

-- The value of a hexadecimal digit, and the bytes of a text of such digits.
unfoldable pub nibble : ℕ → ℕ
nibble d = if ltb d b'a' then d - b'0' else d + 10 - b'a'

unfoldable pub bytes_from_hex : List ℕ → List ℕ
bytes_from_hex [] = []
bytes_from_hex (d ∷ []) = []
bytes_from_hex (d ∷ e ∷ text) = (nibble d * 16 + nibble e) ∷ bytes_from_hex text

-- `canonicalFieldHex` of a text: its field element.
unfoldable pub read_field_hex : Bool → List ℕ → Result ℕ
read_field_hex non_zero text = do
  assert (is_lower_hex_of 64 text) "must be canonical lowercase 32-byte hex"
  let value = bytes_to_big_int_be (bytes_from_hex text)
  assert (ltb value field_modulus) "is not canonical"
  reject (non_zero && value == 0) "must be a non-zero canonical field"
  ok value

-- `fieldHexV1`
unfoldable pub field_hex_v1 : ℕ → Result (List ℕ)
field_hex_v1 value = do checked ← field value false; ok (canonical_field_hex checked)

-- `new Set(commitments).size !== commitments.length`
unfoldable pub are_distinct : List (List ℕ) → Bool
are_distinct [] = true
are_distinct (text ∷ texts) = not (any (codes_eq text) texts) && are_distinct texts

pub record PathRequest : Type 0 where
  pub commitment_hexes : List (List (List ℕ))
  pub root_hex : List (List ℕ)
  pub snapshot_height : List ℕ

pub record CheckedRequest : Type 0 where
  pub commitments : List (List ℕ)
  pub root : List ℕ
  pub height : Option ℕ

unfoldable pub checked_hex : Bool → List ℕ → Result (List ℕ)
checked_hex non_zero text = read_field_hex non_zero text >>= λ value. ok text

unfoldable pub requested_commitments : List (List (List ℕ)) → Result (List (List ℕ))
requested_commitments names = do
  values ← aliased_value same_texts names
  assert (leb 1 (length values) && leb (length values) commitment_path_snapshot_max_commitments_v1)
      "commitment path request must contain 1..16 commitments"
  commitments ← map_ok (checked_hex true) values
  assert (are_distinct commitments) "commitment path request commitments must be distinct"
  ok commitments

unfoldable pub non_negative_int64_value : ℕ → Result ℕ
non_negative_int64_value value =
    uint value 64 >>= λ parsed. assert (ltb parsed (2 ^ 63)) "exceeds int64" >> ok parsed

-- A height that may be left out.
unfoldable pub optional_height : List ℕ → Result (Option ℕ)
optional_height [] = ok none
optional_height (value ∷ others) = do
  same ← aliased_value same_numbers (value ∷ others)
  height ← non_negative_int64_value same
  ok (some height)

unfoldable pub normalize_commitment_paths_at_root_request : PathRequest → Result CheckedRequest
normalize_commitment_paths_at_root_request input = do
  commitments ← requested_commitments input.commitment_hexes
  root_text ← aliased_value codes_eq input.root_hex
  root ← checked_hex false root_text
  height ← optional_height input.snapshot_height
  ok (record { commitments = commitments; root = root; height = height })

pub record ResponsePath : Type 0 where
  pub commitment_hex : List (List ℕ)
  pub leaf_index : List ℕ
  pub siblings : List (List ℕ)
  pub helpers : List ℕ

pub record VerifiedPath : Type 0 where
  pub commitment : List ℕ
  pub index : ℕ
  pub path : List (List ℕ)
  pub path_helper : List ℕ

-- Each helper is the bit of the leaf index at its level.
unfoldable pub check_helpers : ℕ → List ℕ → Result (Unit {0})
check_helpers index [] = ok tt
check_helpers index (helper ∷ helpers) = do
  assert (helper == index % 2) "helper does not match leaf index"
  check_helpers (index / 2) helpers

-- The node above a node and its sibling.
unfoldable pub parent_of : Primitives → ℕ → ℕ → ℕ → ℕ → Result ℕ
parent_of c level helper current sibling =
    if helper == 0
    then compute_note_tree_node_v1 c level current sibling
    else compute_note_tree_node_v1 c level sibling current

-- The loop over the siblings: the node at the end of the path.
unfoldable pub climb : Primitives → ℕ → ℕ → List ℕ → List (List ℕ) → Result ℕ
climb c level current [] siblings = ok current
climb c level current (helper ∷ helpers) [] = ok current
climb c level current (helper ∷ helpers) (text ∷ siblings) = do
  sibling ← read_field_hex false text
  next ← parent_of c level helper current sibling
  climb c (suc level) next helpers siblings

unfoldable pub verify_path : Primitives → List ℕ → ℕ → List ℕ → ResponsePath → Result VerifiedPath
verify_path c root leaf_count requested path = do
  commitment_text ← aliased_value codes_eq path.commitment_hex
  commitment ← read_field_hex true commitment_text
  assert (codes_eq commitment_text requested) "does not preserve request order"
  leaf ← aliased_value same_numbers path.leaf_index
  index ← uint leaf 64
  assert (ltb index leaf_count) "leaf index is outside the snapshot"
  assert
      (length path.siblings == commitment_path_snapshot_depth_v1
        && length path.helpers == commitment_path_snapshot_depth_v1)
      "must be 32 levels"
  assert (all (λ helper. leb helper 1) path.helpers) "must be 0 or 1"
  check_helpers index path.helpers
  current ← climb c 0 commitment path.helpers path.siblings
  hex ← field_hex_v1 current
  assert (codes_eq hex root) "does not reconstruct the requested snapshot root"
  ok (record {
    commitment = commitment_text;
    index = index;
    path =
        map (λ text. canonical_field_hex (bytes_to_big_int_be (bytes_from_hex text))) path.siblings;
    path_helper = path.helpers;
  })

pub record PathsResponse : Type 0 where
  pub root_hex : List (List ℕ)
  pub snapshot_height : List ℕ
  pub leaf_count : List ℕ
  pub paths : List ResponsePath

pub record Snapshot : Type 0 where
  pub root : List ℕ
  pub height : ℕ
  pub leaves : ℕ
  pub paths : List VerifiedPath

-- `Array.prototype.map` over the paths, of which there are as many as requested commitments.
unfoldable pub verify_paths :
    Primitives → List ℕ → ℕ → List (List ℕ) → List ResponsePath → Result (List VerifiedPath)
verify_paths c root leaf_count [] paths = ok []
verify_paths c root leaf_count (text ∷ texts) [] = ok []
verify_paths c root leaf_count (text ∷ texts) (path ∷ paths) = do
  verified ← verify_path c root leaf_count text path
  others ← verify_paths c root leaf_count texts paths
  ok (verified ∷ others)

-- `normalizedRequest.snapshotHeight !== undefined && …`
unfoldable pub is_other_height : Option ℕ → ℕ → Bool
is_other_height none height = false
is_other_height (some requested) height = not (height == requested)

unfoldable pub normalize_commitment_paths_at_root_response :
    Primitives → PathsResponse → PathRequest → Result Snapshot
normalize_commitment_paths_at_root_response c response request = do
  checked ← normalize_commitment_paths_at_root_request request
  root_text ← aliased_value codes_eq response.root_hex
  root ← checked_hex false root_text
  height_value ← aliased_value same_numbers response.snapshot_height
  height ← non_negative_int64_value height_value
  count_value ← aliased_value same_numbers response.leaf_count
  leaf_count ← uint count_value 64
  reject (not (codes_eq root checked.root) || is_other_height checked.height height)
      "commitment path snapshot identity does not match the request"
  reject (leaf_count == 0) "commitment path response leaf count must be positive"
  assert (length response.paths == length checked.commitments)
      "commitment path response count does not match the request"
  assert (leb leaf_count (2 ^ commitment_path_snapshot_depth_v1))
      "commitment path response leaf count exceeds the depth-32 tree capacity"
  paths ← verify_paths c root leaf_count checked.commitments response.paths
  ok (record { root = root; height = height; leaves = leaf_count; paths = paths })
