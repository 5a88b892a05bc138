-- ===== src/Merkle/Inclusion.antt =====
-- src/privacy/merkle-path.js: a path that is accepted shows a leaf of the tree of its root.
use clairveiljs.Prelude.{
  ℕ, zero, suc, ◌+◌, ◌*◌, ◌/◌, ◌%◌, ◌<◌, false, List, [], ◌∷◌, length, ◌==◌, ==_iff, ne_of_==, ok,
  assert-eq-ok, >>=-eq-ok, ok-eq, Bool-cases, ◌≡◌, ◌≢◌, ◌⊎◌, inl, inr, refl, ap, ◌∙◌, arith,
}
use clairveiljs.Crypto.Primitives.{Primitives}
use clairveiljs.Crypto.Field.{field_modulus}
use clairveiljs.Wire.Bytes.Laws.{field-bind, field-eq-ok, uint-bind}
use clairveiljs.Merkle.{
  note_tree_node, compute_note_tree_node_v1, read_field_hex, check_helpers, parent_of, climb,
}

-- The nodes of the tree with these leaves, level by level.
unfoldable pub layer : Primitives → (ℕ → ℕ) → ℕ → ℕ → ℕ
layer c leaves zero i = leaves i
layer c leaves (suc level) i =
    note_tree_node c level (layer c leaves level (2 * i)) (layer c leaves level (2 * i + 1))

pub layer-zero : (c : Primitives) (leaves : ℕ → ℕ) (i : ℕ) → layer c leaves 0 i ≡ leaves i
unfolding layer
layer-zero c leaves i = refl

-- The index above `k` levels.
unfoldable pub halves : ℕ → ℕ → ℕ
halves zero i = i
halves (suc k) i = halves k (i / 2)

abbrev pub two_to : ℕ → ℕ
two_to zero = 1
two_to (suc k) = 2 * two_to k

pub halves-zero : (k i : ℕ) → i < two_to k → halves k i ≡ 0
unfolding halves
halves-zero zero i h = omega arith
halves-zero (suc k) i h = halves-zero k (i / 2) (omega arith)

-- A pair of nodes with the hash of a node on the way up from the index, `depth` levels from a level,
-- that is not the pair below this node.
pub record Collision (c : Primitives) (leaves : ℕ → ℕ) (level index depth : ℕ) : Type 0 where
  pub steps : ℕ
  pub place_level : ℕ
  pub left : ℕ
  pub right : ℕ
  pub level_eq : place_level ≡ level + steps
  pub steps_lt : steps < depth
  pub left_lt : left < field_modulus
  pub right_lt : right < field_modulus
  pub same :
      note_tree_node c place_level left right
      ≡ layer c leaves (suc place_level) (halves (suc steps) index)
  pub differ :
      (left ≢ layer c leaves place_level (2 * halves (suc steps) index))
      ⊎ (right ≢ layer c leaves place_level (2 * halves (suc steps) index + 1))

-- A collision above one level more.
later-Collision :
    {c : Primitives} {leaves : ℕ → ℕ} {level index depth : ℕ}
    → Collision c leaves (suc level) (index / 2) depth
    → Collision c leaves level index (suc depth)
unfolding halves
later-Collision k = record {
  steps = suc k.steps;
  place_level = k.place_level;
  left = k.left;
  right = k.right;
  level_eq = omega (arith, k.level_eq);
  steps_lt = omega (arith, k.steps_lt);
  left_lt = k.left_lt;
  right_lt = k.right_lt;
  same = k.same;
  differ = k.differ;
}

-- Nodes with the hash of the node above the index are those below it, or there is a collision.
pair-Collision :
    (c : Primitives) (leaves : ℕ → ℕ) (level index depth a b : ℕ)
    → a < field_modulus
    → b < field_modulus
    → note_tree_node c level a b ≡ layer c leaves (suc level) (index / 2)
    → ((a ≡ layer c leaves level (2 * (index / 2)))
        × (b ≡ layer c leaves level (2 * (index / 2) + 1)))
      ⊎ Collision c leaves level index (suc depth)
unfolding halves
pair-Collision c leaves level index depth a b ha hb same =
    let a' = layer c leaves level (2 * (index / 2)) in
    let b' = layer c leaves level (2 * (index / 2) + 1) in
    elim (Bool-cases (a == a')) [
      | inr left ↦ inr (found (inl (ne_of_== a a' left)))
      | inl left ↦ elim (Bool-cases (b == b')) [
        | inr right ↦ inr (found (inr (ne_of_== b b' right)))
        | inl right ↦ inl ((==_iff a a').0 left, (==_iff b b').0 right)
      ]
    ]
  where
    found :
        (a ≢ layer c leaves level (2 * (index / 2)))
          ⊎ (b ≢ layer c leaves level (2 * (index / 2) + 1))
        → Collision c leaves level index (suc depth)
    found differ = record {
      steps = 0;
      place_level = level;
      left = a;
      right = b;
      level_eq = omega arith;
      steps_lt = omega arith;
      left_lt = ha;
      right_lt = hb;
      same = same;
      differ = differ;
    }

compute_note_tree_node_v1-eq :
    (c : Primitives) (level a b : ℕ) {n : ℕ}
    → compute_note_tree_node_v1 c level a b ≡ ok n
    → (a < field_modulus) × (b < field_modulus) × (note_tree_node c level a b ≡ n)
unfolding compute_note_tree_node_v1
compute_note_tree_node_v1-eq c level a b h =
    let (_, _, r1) = uint-bind level 32 _ h in
    let (ha, r2) = field-bind a false _ r1 in
    let (hb, r3) = field-bind b false _ r2 in
    ((field-eq-ok a false ha).1, (field-eq-ok b false hb).1, ok-eq r3)

-- One level: the node is that of the tree, or there is a collision.
step-layer :
    (c : Primitives) (leaves : ℕ → ℕ) (level helper index depth current sibling : ℕ) {next : ℕ}
    → helper ≡ index % 2
    → parent_of c level helper current sibling ≡ ok next
    → next ≡ layer c leaves (suc level) (index / 2)
    → (current ≡ layer c leaves level index) ⊎ Collision c leaves level index (suc depth)
unfolding parent_of
step-layer c leaves level helper index depth current sibling bit h same =
    elim (Bool-cases (helper == 0)) [
      | inl even ↦
          let (ha, hb, node) =
            compute_note_tree_node_v1-eq c level current sibling (rw even at h) in
          let place : 2 * (index / 2) ≡ index = omega (arith, (==_iff helper 0).0 even) in
          elim (pair-Collision c leaves level index depth current sibling ha hb (node ∙ same)) [
            | inl (left, _) ↦ inl (left ∙ ap (layer c leaves level) place)
            | inr collision ↦ inr collision
          ]
      | inr odd ↦
          let (ha, hb, node) = compute_note_tree_node_v1-eq c level sibling current (rw odd at h) in
          let place : 2 * (index / 2) + 1 ≡ index = omega (arith, ne_of_== helper 0 odd) in
          elim (pair-Collision c leaves level index depth sibling current ha hb (node ∙ same)) [
            | inl (_, right) ↦ inl (right ∙ ap (layer c leaves level) place)
            | inr collision ↦ inr collision
          ]
    ]

pub climb-layer :
    (c : Primitives) (leaves : ℕ → ℕ) (level current index : ℕ) (helpers : List ℕ)
    (siblings : List (List ℕ)) {top : ℕ}
    → length siblings ≡ length helpers
    → check_helpers index helpers ≡ ok tt
    → climb c level current helpers siblings ≡ ok top
    → top ≡ layer c leaves (level + length helpers) (halves (length helpers) index)
    → (current ≡ layer c leaves level index) ⊎ Collision c leaves level index (length helpers)
unfolding climb check_helpers halves
climb-layer c leaves level current index [] siblings long bits h same =
    inl (ok-eq h ∙ same ∙ ap (λ (n : ℕ). layer c leaves n index) (omega arith))
climb-layer c leaves level current index (helper ∷ helpers) [] long bits h same =
    absurd (omega arith)
climb-layer c leaves level current index (helper ∷ helpers) (text ∷ siblings) long bits h same =
    let (bit, others) = assert-eq-ok (helper == index % 2) _ _ bits in
    let (sibling, _, r1) = >>=-eq-ok (read_field_hex false text) _ h in
    let (next, above, r2) = >>=-eq-ok (parent_of c level helper current sibling) _ r1 in
    elim (climb-layer c leaves (suc level) next (index / 2) helpers siblings (omega arith) others r2
      (same
        ∙ ap (λ (n : ℕ). layer c leaves n (halves (length helpers) (index / 2))) (omega arith))) [
          | inr collision ↦ inr (later-Collision collision)
          | inl node ↦
              step-layer c leaves level helper index (length helpers) current sibling
                ((==_iff helper (index % 2)).0 bit) above node
        ]
