-- ===== src/Merkle/Witnesses.antt =====
-- The theorem about snapshots at a tree whose leaves are all the same.
use clairveiljs.Prelude.{ℕ, zero, suc, ◌*◌, ◌+◌, ◌≤◌, ◌^◌, List, [], ◌∷◌, ok, ◌≡◌, refl, ap, ◌∙◌}
use clairveiljs.Reservation.Runs.{from_ok, ok_from}
use clairveiljs.Crypto.Primitives.{Primitives}
use clairveiljs.Notes.Found.{canonical_field_hex}
use clairveiljs.Merkle.{
  note_tree_node, PathRequest, CheckedRequest, PathsResponse, Snapshot,
  normalize_commitment_paths_at_root_request, normalize_commitment_paths_at_root_response,
}
use clairveiljs.Merkle.Inclusion.{layer}
use clairveiljs.Merkle.Response.{
  ShowsLeaves, normalize_commitment_paths_at_root_response-ShowsLeaves,
}
use clairveiljs.Samples.{sample}
use clairveiljs.Samples.Code.{merkle_code}

-- The nodes of a level, which are all the same.
uniform : Primitives → ℕ → ℕ → ℕ
uniform c leaf zero = leaf
uniform c leaf (suc level) = let node = uniform c leaf level in note_tree_node c level node node

layer-uniform :
    (c : Primitives) (leaf level i : ℕ) → layer c (λ _. leaf) level i ≡ uniform c leaf level
unfolding layer uniform
layer-uniform c leaf zero i = refl
layer-uniform c leaf (suc level) i =
    ap (λ (n : ℕ). note_tree_node c level n (layer c (λ _. leaf) level (2 * i + 1)))
      (layer-uniform c leaf level (2 * i))
    ∙ ap (note_tree_node c level (uniform c leaf level)) (layer-uniform c leaf level (2 * i + 1))

-- The nodes above a level, and the bits of an index.
siblings_from : ℕ → ℕ → ℕ → List (List ℕ)
unfolding merkle_code
siblings_from zero level node = []
siblings_from (suc n) level node =
    canonical_field_hex node ∷ siblings_from n (suc level) (note_tree_node sample level node node)

zeros : ℕ → List ℕ
zeros zero = []
zeros (suc n) = 0 ∷ zeros n

abbrev commitment_text : List ℕ
commitment_text = canonical_field_hex 42

abbrev root_text : List ℕ
root_text = canonical_field_hex (uniform sample 42 32)

abbrev request : PathRequest
request = record {
  commitment_hexes = (commitment_text ∷ []) ∷ [];
  root_hex = root_text ∷ [];
  snapshot_height = 9 ∷ [];
}

-- The leaf at the index 5.
abbrev response : PathsResponse
response = record {
  root_hex = root_text ∷ [];
  snapshot_height = 9 ∷ [];
  leaf_count = 2 ^ 32 ∷ [];
  paths =
      record {
        commitment_hex = commitment_text ∷ [];
        leaf_index = 5 ∷ [];
        siblings = siblings_from 32 0 42;
        helpers = 1 ∷ 0 ∷ 1 ∷ zeros 29;
      }
      ∷ [];
}

abbrev no_snapshot : Snapshot
no_snapshot = record { root = []; height = 0; leaves = 0; paths = [] }

abbrev snapshot : Snapshot
snapshot = from_ok no_snapshot (normalize_commitment_paths_at_root_response sample response request)

normalize_commitment_paths_at_root_response-ShowsLeaves_example :
    (checked : CheckedRequest) × (normalize_commitment_paths_at_root_request request ≡ ok checked)
    × (snapshot.root ≡ checked.root)
    × (snapshot.leaves ≤ 2 ^ 32)
    × ShowsLeaves sample (λ _. 42) snapshot.leaves checked.commitments snapshot.paths
unfolding merkle_code uniform siblings_from zeros
normalize_commitment_paths_at_root_response-ShowsLeaves_example =
    normalize_commitment_paths_at_root_response-ShowsLeaves sample (λ _. 42) response request
      (ok_from no_snapshot (normalize_commitment_paths_at_root_response sample response request)
        refl)
      (layer-uniform sample 42 32 0 ∙ refl)
