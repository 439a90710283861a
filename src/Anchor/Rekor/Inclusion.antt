-- ===== src/Anchor/Rekor/Inclusion.antt =====
-- `verify_inclusion` of src/memory_blackbox/anchor/rekor.py. `sha256` stands for the digest of the
-- package hashlib.
use memory_blackbox.Prelude.{
  ℕ, zero, suc, ◌-◌, ◌/◌, ◌%◌, Bool, false, ◌&&◌, ◌||◌, List, [], ◌∷◌, ◌++◌, Bytes, ◌==◌, nat_eq,
  leb, if◌then◌else◌,
}

-- `node_index & 1`
abbrev pub is_odd : ℕ → Bool
is_odd n = nat_eq (n % 2) 1

-- The inner `while` loop, on fuel; it takes fewer than `node_index` rounds.
unfoldable pub skip_levels : ℕ → ℕ → ℕ → ℕ × ℕ
skip_levels zero node last = (node, last)
skip_levels (suc fuel) node last =
    let more = skip_levels fuel (node / 2) (last / 2) in
    if nat_eq node 0 || is_odd node then (node, last) else more

module _ (sha256 : Bytes → Bytes) where
  -- `_hash_leaf` and `_hash_children`
  unfoldable pub log_leaf : Bytes → Bytes
  log_leaf entry = sha256 (0 ∷ entry)

  unfoldable pub log_node : Bytes → Bytes → Bytes
  log_node left right = sha256 (1 ∷ left ++ right)

  -- The loop over the proof and the test behind it.
  unfoldable pub climb_proof : ℕ → ℕ → Bytes → List Bytes → Bytes → Bool
  climb_proof node last computed [] root = nat_eq last 0 && computed == root
  climb_proof node last computed (sibling ∷ proof) root =
      let (node', last') = skip_levels node node last in
      let left = climb_proof (node' / 2) (last' / 2) (log_node sibling computed) proof root in
      let right = climb_proof (node / 2) (last / 2) (log_node computed sibling) proof root in
      if nat_eq last 0 then false else if is_odd node || nat_eq node last then left else right

  -- An index below 0 is none of the model.
  unfoldable pub verify_inclusion : ℕ → ℕ → Bytes → List Bytes → Bytes → Bool
  verify_inclusion index tree_size leaf_hash proof root =
      if leb tree_size 0 || leb tree_size index
      then false
      else climb_proof index (tree_size - 1) leaf_hash proof root
