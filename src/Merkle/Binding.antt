-- ===== src/Merkle/Binding.antt =====
-- What a Merkle root commits to: the whole list of leaves, their number and order included.
use memory_blackbox.Prelude.{
  ◌≡◌, refl, sym, ap, ◌∙◌, ◌⊎◌, inl, inr, List, [], arith, Bytes, length, append-cancel, ap₂,
}
use memory_blackbox.Crypto.{Primitives, IsSound, Collision}
use memory_blackbox.Crypto.Hashing.{b3_raw, digest_binds}
use memory_blackbox.Merkle.{hash_leaf, hash_node, compute_root}
use memory_blackbox.Merkle.Trees.{
  Tree, empty, leaf, node, payloads, build, payloads-build, root, compute_root-eq-root,
}

module _ (c : Primitives) where
  -- Leaves and nodes never share a digest, thanks to their prefixes, short of a collision.
  pub leaf-ne-node : (x l r : Bytes) → hash_leaf c x ≡ hash_node c l r → Collision c
  unfolding hash_leaf hash_node
  leaf-ne-node x l r e = elim (digest_binds c _ _ e) [
    | inl same ↦ absurd (ground arith)
    | inr bad ↦ bad
  ]

  pub leaf-ne-empty : (x : Bytes) → hash_leaf c x ≡ b3_raw c [] → Collision c
  unfolding hash_leaf
  leaf-ne-empty x e = elim (digest_binds c _ _ e) [
    | inl same ↦ absurd (ground arith)
    | inr bad ↦ bad
  ]

  pub node-ne-empty : (l r : Bytes) → hash_node c l r ≡ b3_raw c [] → Collision c
  unfolding hash_node
  node-ne-empty l r e = elim (digest_binds c _ _ e) [
    | inl same ↦ absurd (ground arith)
    | inr bad ↦ bad
  ]

  pub leaf_binds : (x y : Bytes) → hash_leaf c x ≡ hash_leaf c y → (x ≡ y) ⊎ Collision c
  unfolding hash_leaf
  leaf_binds x y e = elim (digest_binds c _ _ e) [ inl same ↦ inl (cc) | inr bad ↦ inr bad ]

  pub node_binds :
      (l r l' r' : Bytes)
      → length l ≡ length l'
      → hash_node c l r ≡ hash_node c l' r'
      → ((l ≡ l') × (r ≡ r')) ⊎ Collision c
  unfolding hash_node
  node_binds l r l' r' n e = elim (digest_binds c _ _ e) [
    | inl same ↦ inl (append-cancel l r l' r' n (cc))
    | inr bad ↦ inr bad
  ]

  module _ (sound : IsSound c) where
    pub length-root : (t : Tree) → length (root c t) ≡ 32
    unfolding root hash_leaf hash_node b3_raw
    length-root empty = sound.digest_size _
    length-root (leaf x) = sound.digest_size _
    length-root (node l r) = sound.digest_size _

    -- The root hash determines the tree.
    pub root_binds : (t u : Tree) → root c t ≡ root c u → (t ≡ u) ⊎ Collision c
    unfolding root
    root_binds empty empty e = inl refl
    root_binds empty (leaf y) e = inr (leaf-ne-empty y (sym e))
    root_binds empty (node l r) e = inr (node-ne-empty _ _ (sym e))
    root_binds (leaf x) empty e = inr (leaf-ne-empty x e)
    root_binds (leaf x) (leaf y) e = elim (leaf_binds x y e) [
      | inl same ↦ inl (ap leaf same)
      | inr bad ↦ inr bad
    ]
    root_binds (leaf x) (node l r) e = inr (leaf-ne-node x _ _ e)
    root_binds (node l r) empty e = inr (node-ne-empty _ _ e)
    root_binds (node l r) (leaf y) e = inr (leaf-ne-node y _ _ (sym e))
    root_binds (node l r) (node l' r') e =
        join
          (node_binds (root c l) (root c r) (root c l') (root c r')
            (omega (arith, length-root l, length-root l')) e)
          (root_binds l l') (root_binds r r')
      where
        both :
            (l ≡ l') ⊎ Collision c → (r ≡ r') ⊎ Collision c → (node l r ≡ node l' r') ⊎ Collision c
        both (inl p) (inl q) = inl (ap₂ node p q)
        both (inl p) (inr bad) = inr bad
        both (inr bad) q = inr bad

        join :
            ((root c l ≡ root c l') × (root c r ≡ root c r')) ⊎ Collision c
            → (root c l ≡ root c l' → (l ≡ l') ⊎ Collision c)
            → (root c r ≡ root c r' → (r ≡ r') ⊎ Collision c)
            → (node l r ≡ node l' r') ⊎ Collision c
        join (inl (p, q)) f g = both (f p) (g q)
        join (inr bad) f g = inr bad

    -- Under sound primitives, two lists of leaves with one Merkle root are the same list, in length
    -- and order, or they exhibit a collision of BLAKE3. Nothing is assumed of their lengths.
    pub compute_root_binds :
        (xs ys : List Bytes) → compute_root c xs ≡ compute_root c ys → (xs ≡ ys) ⊎ Collision c
    compute_root_binds xs ys e =
        elim (root_binds (build xs) (build ys)
          (sym (compute_root-eq-root c xs) ∙ e ∙ compute_root-eq-root c ys)) [
            | inl same ↦ inl (sym (payloads-build xs) ∙ ap payloads same ∙ payloads-build ys)
            | inr bad ↦ inr bad
          ]
