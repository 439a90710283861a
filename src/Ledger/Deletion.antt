-- ===== src/Ledger/Deletion.antt =====
-- What a passing `verify_merkle` says: the rows that the newest checkpoint committed are in place.
use memory_blackbox.Prelude.{
  ◌≤◌, ◌≡◌, ◌⊎◌, inl, inr, sym, ap, ◌∙◌, true, List, some, arith, Bytes, length, last?, take,
  eq_iff, ok, subst,
}
use memory_blackbox.Codec.Hex.{hex, fromhex, fromhex-hex, IsBytes}
use memory_blackbox.Codec.Prefix.{removeprefix, removeprefix-append}
use memory_blackbox.Crypto.{Primitives, IsSound, Collision}
use memory_blackbox.Crypto.Hashing.{hash_prefix, b3_raw}
use memory_blackbox.Crypto.Signing.{verify}
use memory_blackbox.Merkle.{compute_root, root_hex, hash_leaf, hash_node}
use memory_blackbox.Merkle.Trees.{Tree, empty, leaf, node, root, build, compute_root-eq-root}
use memory_blackbox.Merkle.Binding.{compute_root_binds}
use memory_blackbox.Storage.{CheckpointRow, Db}
use memory_blackbox.Ledger.Merkle.{
  MerkleReport, check_root, check_checkpoint, verify_merkle, current_leaves,
}

module _ (c : Primitives) (sound : IsSound c) where
  root-IsBytes : (t : Tree) → IsBytes (root c t)
  unfolding root hash_leaf hash_node b3_raw
  root-IsBytes empty = sound.digest_bytes _
  root-IsBytes (leaf x) = sound.digest_bytes _
  root-IsBytes (node l r) = sound.digest_bytes _

  pub compute_root_bytes : (leaves : List Bytes) → IsBytes (compute_root c leaves)
  compute_root_bytes leaves =
      subst IsBytes (sym (compute_root-eq-root c leaves)) (root-IsBytes (build leaves))

  -- The root that a checkpoint stores decodes to the root that was computed.
  pub root_decodes :
      (leaves : List Bytes)
      → fromhex (removeprefix hash_prefix (root_hex c leaves)) ≡ some (compute_root c leaves)
  unfolding root_hex
  root_decodes leaves =
      ap fromhex (removeprefix-append hash_prefix (hex (compute_root c leaves)))
      ∙ fromhex-hex (compute_root c leaves) (compute_root_bytes leaves)

module _ (c : Primitives) (public_key : Bytes) where
  check_root_ok :
      (leaves : List Bytes) (cp : CheckpointRow) (raw : Bytes)
      → (check_root c public_key leaves cp raw).is_ok ≡ true
      → (verify c raw cp.signature public_key ≡ true)
        × (cp.leaf_count ≤ length leaves)
        × (compute_root c (take cp.leaf_count leaves) ≡ raw)
  unfolding check_root
  check_root_ok leaves cp raw h =
      ground (arith, eq_iff (compute_root c (take cp.leaf_count leaves)) raw)

  pub check_checkpoint-some :
      (leaves : List Bytes) (cp : CheckpointRow) (raw : Bytes)
      → fromhex (removeprefix hash_prefix cp.root) ≡ some raw
      → check_checkpoint c public_key (some cp) leaves ≡ ok (check_root c public_key leaves cp raw)
  unfolding check_checkpoint
  check_checkpoint-some leaves cp raw h = rw (h, check_checkpoint)

  -- Under sound primitives, if the newest checkpoint carries the root of `committed`, and their
  -- number, and `verify_merkle` passes, then the ledger still begins with exactly those entry
  -- hashes, in their order, or a collision of BLAKE3 is at hand.
  pub verify_merkle_keeps :
      IsSound c
      → (db : Db) (cp : CheckpointRow) (committed : List Bytes) (r : MerkleReport)
      → last? db.checkpoints ≡ some cp
      → cp.root ≡ root_hex c committed
      → cp.leaf_count ≡ length committed
      → verify_merkle c public_key db ≡ ok r
      → r.is_ok ≡ true
      → ((length committed ≤ length (current_leaves db))
          × (take (length committed) (current_leaves db) ≡ committed))
        ⊎ Collision c
  unfolding verify_merkle
  verify_merkle_keeps sound db cp committed r newest same_root same_count run passed =
      let leaves = current_leaves db in
      let raw = compute_root c committed in
      let decoded =
        ap (λ t. fromhex (removeprefix hash_prefix t)) same_root ∙ root_decodes c sound committed in
      let result =
        ap (λ o. check_checkpoint c public_key o leaves) newest
        ∙ check_checkpoint-some leaves cp raw decoded in
      let fine : (check_root c public_key leaves cp raw).is_ok ≡ true = cc (result, run, passed) in
      let (signed, enough, same) = check_root_ok leaves cp raw fine in
      let prefix : compute_root c (take (length committed) leaves) ≡ raw =
        ap (λ n. compute_root c (take n leaves)) (sym same_count) ∙ same in
      elim (compute_root_binds c sound (take (length committed) leaves) committed prefix) [
        | inl kept ↦ inl (omega arith, kept)
        | inr bad ↦ inr bad
      ]
