-- ===== src/Merkle/Soundness.antt =====
-- Inclusion proofs are sound: no proof, however made, places a foreign leaf under the root.
use memory_blackbox.Prelude.{
  ◌≡◌, sym, ◌∙◌, ◌⊎◌, inl, inr, true, false, List, [], ◌∷◌, ◌++◌, arith, Bytes, length, eq_sound,
  append-cancel_right, append-cancel, subst,
}
use mathlib.Core.List.{Memᴰ}
use mathlib.Core.List.Memᴰ
use memory_blackbox.Crypto.{Primitives, IsSound, Collision}
use memory_blackbox.Crypto.Hashing.{b3_raw, digest_binds}
use memory_blackbox.Merkle.{
  ProofStep, hash_leaf, hash_node, compute_root, climb, climb_all, verify_proof,
}
use memory_blackbox.Merkle.Trees.{
  Tree, empty, leaf, node, payloads, build, payloads-build, root, compute_root-eq-root,
}
use memory_blackbox.Merkle.Binding.{
  leaf-ne-node, leaf-ne-empty, node-ne-empty, leaf_binds, length-root,
}

-- The subtrees of a tree.
data Within (t : Tree) : Tree → Type 0 where
  whole : Within t t
  left : {l r : Tree} → Within t (node l r) → Within t l
  right : {l r : Tree} → Within t (node l r) → Within t r

Within-mem : {t u : Tree} {x : Bytes} → Within t u → Memᴰ x (payloads u) → Memᴰ x (payloads t)
unfolding payloads
Within-mem whole m = m
Within-mem (left {r = r} w) m = Within-mem w (Memᴰ.append_left (payloads r) m)
Within-mem (right {l = l} w) m = Within-mem w (Memᴰ.append_right (payloads l) m)

module _ (c : Primitives) (sound : IsSound c) where
  -- A subtree with the given root hash.
  abbrev Rooted : Tree → Bytes → Type 0
  Rooted t h = (u : Tree) × Within t u × (h ≡ root c u)

  length-climb : (h : Bytes) (s : ProofStep) → length (climb c h s) ≡ 32
  unfolding climb hash_node b3_raw
  length-climb h (sibling, true) = sound.digest_size _
  length-climb h (sibling, false) = sound.digest_size _

  -- If a join of two hashes is the hash of a subtree, that subtree is a node.
  node_parts :
      (t u : Tree) (a b : Bytes)
      → Within t u
      → hash_node c a b ≡ root c u
      → ((l : Tree) × (r : Tree) × Within t (node l r) × (a ++ b ≡ root c l ++ root c r))
        ⊎ Collision c
  unfolding root
  node_parts t empty a b w e = inr (node-ne-empty c a b e)
  node_parts t (leaf x) a b w e = inr (leaf-ne-node c x a b (sym e))
  node_parts t (node l r) a b w e =
      unfold hash_node in
      elim (digest_binds c _ _ e) [ inl same ↦ inl (l, r, w, cc) | inr bad ↦ inr bad ]

  -- A step back from a subtree's hash leads to the hash of a subtree of it.
  step_back :
      (t : Tree) (h : Bytes) (s : ProofStep)
      → length h ≡ 32
      → Rooted t (climb c h s)
      → Rooted t h ⊎ Collision c
  unfolding climb
  step_back t h (sibling, true) n (u, w, e) = elim (node_parts t u sibling h w e) [
    | inl (l, r, w', same) ↦ inl (
      r,
      right w',
      (append-cancel_right sibling h (root c l) (root c r) (omega (arith, length-root c sound r))
          same).1,
    )
    | inr bad ↦ inr bad
  ]
  step_back t h (sibling, false) n (u, w, e) = elim (node_parts t u h sibling w e) [
    | inl (l, r, w', same) ↦ inl (
      l,
      left w',
      (append-cancel h sibling (root c l) (root c r) (omega (arith, length-root c sound l)) same).0,
    )
    | inr bad ↦ inr bad
  ]

  climb_back :
      (t : Tree) (h : Bytes) (proof : List ProofStep)
      → length h ≡ 32
      → climb_all c h proof ≡ root c t
      → Rooted t h ⊎ Collision c
  unfolding climb_all
  climb_back t h [] n e = inl (t, whole, e)
  climb_back t h (s ∷ proof) n e = elim (climb_back t (climb c h s) proof (length-climb h s) e) [
    | inl found ↦ step_back t h s n found
    | inr bad ↦ inr bad
  ]

  leaf_found :
      (t u : Tree) (x : Bytes)
      → Within t u
      → hash_leaf c x ≡ root c u
      → Memᴰ x (payloads t) ⊎ Collision c
  unfolding root
  leaf_found t empty x w e = inr (leaf-ne-empty c x e)
  leaf_found t (leaf y) x w e = elim (leaf_binds c x y e) [
    | inl same ↦ inl (Within-mem w (unfold payloads in Memᴰ.head same))
    | inr bad ↦ inr bad
  ]
  leaf_found t (node l r) x w e = inr (leaf-ne-node c x _ _ e)

  -- Under sound primitives, whatever proof is presented, of any length and with siblings of any
  -- size: if `verify_proof` accepts it for `leaf` under the root of `leaves`, then `leaf` is one of
  -- `leaves`, or a collision of BLAKE3 is at hand.
  pub verify_proof_sound :
      (leaves : List Bytes) (leaf : Bytes) (proof : List ProofStep)
      → verify_proof c leaf proof (compute_root c leaves) ≡ true
      → Memᴰ leaf leaves ⊎ Collision c
  unfolding verify_proof
  verify_proof_sound leaves x proof h =
      elim (climb_back (build leaves) (hash_leaf c x) proof
        (unfold hash_leaf b3_raw in sound.digest_size _)
        (eq_sound _ _ h ∙ compute_root-eq-root c leaves)) [
          | inl (u, w, e) ↦ elim (leaf_found (build leaves) u x w e) [
            | inl m ↦ inl (subst (Memᴰ x) (payloads-build leaves) m)
            | inr bad ↦ inr bad
          ]
          | inr bad ↦ inr bad
        ]
