-- ===== src/Merkle.antt =====
-- src/memory_blackbox/merkle/tree.py: the tree over the entry hashes, and inclusion proofs.
pub mod Trees
pub mod Levels
pub mod Rfc
pub mod Binding
pub mod Inclusion
pub mod Soundness
use memory_blackbox.Prelude.{
  ℕ, zero, suc, ◌+◌, ◌/◌, Bool, true, false, List, [], ◌∷◌, ◌++◌, map, Text, Bytes, length, ltb,
  nat_eq, ◌==◌, if◌then◌else◌, Error, index_error, Result, ok, err,
}
use memory_blackbox.Codec.Hex.{hex}
use memory_blackbox.Crypto.{Primitives}
use memory_blackbox.Crypto.Hashing.{b3_raw, hash_prefix}

abbrev pub leaf_prefix : Bytes
leaf_prefix = 0 ∷ []

abbrev pub node_prefix : Bytes
node_prefix = 1 ∷ []

-- `level[0]`, or `d` of an empty list.
abbrev pub head_or {ℓ} : {A : Type ℓ} → A → List A → A
head_or d [] = d
head_or d (x ∷ xs) = x

-- One round of the `while` loop: neighbours are joined, an odd last node is promoted.
unfoldable pub pair_up {ℓ} : {A : Type ℓ} → (A → A → A) → List A → List A
pair_up join [] = []
pair_up join (x ∷ []) = x ∷ []
pair_up join (x ∷ y ∷ rest) = join x y ∷ pair_up join rest

-- `while len(level) > 1`, on fuel; a level of n nodes takes fewer than n rounds.
unfoldable pub merge_levels {ℓ} : {A : Type ℓ} → (A → A → A) → ℕ → List A → List A
merge_levels join zero level = level
merge_levels join (suc fuel) level = elim (ltb 1 (length level)) [
  | true ↦ merge_levels join fuel (pair_up join level)
  | false ↦ level
]

-- A step of a proof: the sibling's hash, and whether the sibling is on the left.
abbrev pub ProofStep : Type 0
ProofStep = Bytes × Bool

module _ (c : Primitives) where
  unfoldable pub hash_leaf : Bytes → Bytes
  hash_leaf payload = b3_raw c (leaf_prefix ++ payload)

  unfoldable pub hash_node : Bytes → Bytes → Bytes
  hash_node left right = b3_raw c (node_prefix ++ left ++ right)

  unfoldable pub compute_root : List Bytes → Bytes
  compute_root [] = b3_raw c []
  compute_root (leaf ∷ leaves) =
      head_or [] (merge_levels hash_node (length (leaf ∷ leaves)) (map hash_leaf (leaf ∷ leaves)))

  unfoldable pub root_hex : List Bytes → Text
  root_hex leaves = hash_prefix ++ hex (compute_root leaves)

  -- The inner loop of `inclusion_proof` over one level, from node `i` on.
  unfoldable pub level_steps : ℕ → ℕ → List Bytes → List ProofStep
  level_steps i idx (x ∷ y ∷ rest) =
      (if nat_eq i idx then (y, false) ∷ [] else if nat_eq (i + 1) idx then (x, true) ∷ [] else [])
      ++ level_steps (i + 2) idx rest
  level_steps i idx _ = []

  -- The outer loop of `inclusion_proof`.
  unfoldable pub proof_steps : ℕ → ℕ → List Bytes → List ProofStep
  proof_steps zero idx nodes = []
  proof_steps (suc fuel) idx nodes = elim (ltb 1 (length nodes)) [
    | true ↦ level_steps 0 idx nodes ++ proof_steps fuel (idx / 2) (pair_up hash_node nodes)
    | false ↦ []
  ]

  unfoldable pub inclusion_proof : List Bytes → ℕ → Result (List ProofStep)
  inclusion_proof leaves index =
      if ltb index (length leaves)
      then ok (proof_steps (length leaves) index (map hash_leaf leaves))
      else err index_error

  -- One round of the loop of `verify_proof`.
  unfoldable pub climb : Bytes → ProofStep → Bytes
  climb node (sibling, on_left) = if on_left then hash_node sibling node else hash_node node sibling

  unfoldable pub climb_all : Bytes → List ProofStep → Bytes
  climb_all node [] = node
  climb_all node (step ∷ proof) = climb_all (climb node step) proof

  unfoldable pub verify_proof : Bytes → List ProofStep → Bytes → Bool
  verify_proof leaf proof root = climb_all (hash_leaf leaf) proof == root
