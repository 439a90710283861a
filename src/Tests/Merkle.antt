-- ===== src/Tests/Merkle.antt =====
-- Runs of the tree, its proofs and the checkpoint check.
use memory_blackbox.Prelude.{
  ◌≡◌, ◌⊎◌, refl, ◌≤◌, true, List, [], ◌∷◌, map, Option, none, some, Bytes, length, take, ok, last?,
}
use mathlib.Core.List.{Memᴰ}
use memory_blackbox.Crypto.{Collision}
use memory_blackbox.Crypto.Toy.{toy, toy-IsSound}
use memory_blackbox.Merkle.{
  ProofStep, compute_root, root_hex, hash_leaf, inclusion_proof, proof_steps, verify_proof,
}
use memory_blackbox.Merkle.Binding.{compute_root_binds}
use memory_blackbox.Merkle.Inclusion.{verify_proof-inclusion_proof}
use memory_blackbox.Merkle.Soundness.{verify_proof_sound}
use memory_blackbox.Storage.{CheckpointRow}
use memory_blackbox.Ledger.Store.{insert_row, maybe_checkpoint, checkpoint_due, checkpoint}
use memory_blackbox.Ledger.Merkle.{current_leaves}
use memory_blackbox.Ledger.Deletion.{verify_merkle_keeps}
use memory_blackbox.Ledger.Honest.{verify_merkle-committed}
use memory_blackbox.Tests.Ledgers.{two_rows, two_rows-IsConsistent}

abbrev leaves : List Bytes
leaves = (1 ∷ []) ∷ (2 ∷ []) ∷ (3 ∷ []) ∷ []

abbrev proof : List ProofStep
proof = proof_steps toy 3 2 (map (hash_leaf toy) leaves)

proof_found : inclusion_proof toy leaves 2 ≡ ok proof
unfolding inclusion_proof
proof_found = refl

compute_root_binds_example : (leaves ≡ leaves) ⊎ Collision toy
compute_root_binds_example = compute_root_binds toy toy-IsSound leaves leaves refl

verify_proof-inclusion_proof_example :
    verify_proof toy (3 ∷ []) proof (compute_root toy leaves) ≡ true
verify_proof-inclusion_proof_example =
    verify_proof-inclusion_proof toy leaves 2 (3 ∷ []) proof refl proof_found

verify_proof_sound_example : Memᴰ (3 ∷ []) leaves ⊎ Collision toy
verify_proof_sound_example =
    verify_proof_sound toy toy-IsSound leaves (3 ∷ []) proof
      (verify_proof-inclusion_proof toy leaves 2 (3 ∷ []) proof refl proof_found)

abbrev newest_of : Option CheckpointRow → CheckpointRow
newest_of (some cp) = cp
newest_of none = record {
  checkpoint_id = 0;
  leaf_count = 0;
  root = [];
  signature = [];
  signer_kid = [];
  created_at = [];
}

abbrev pub newest : CheckpointRow
newest = newest_of (last? two_rows.checkpoints)

pub newest_stored : last? two_rows.checkpoints ≡ some newest
unfolding maybe_checkpoint checkpoint_due checkpoint insert_row
newest_stored = refl

pub newest_root : newest.root ≡ root_hex toy two_rows.leaves
unfolding maybe_checkpoint checkpoint_due checkpoint insert_row root_hex
newest_root = refl

pub newest_count : newest.leaf_count ≡ length two_rows.leaves
unfolding maybe_checkpoint checkpoint_due checkpoint insert_row
newest_count = refl

verify_merkle_keeps_example :
    ((length two_rows.leaves ≤ length (current_leaves two_rows.db))
      × (take (length two_rows.leaves) (current_leaves two_rows.db) ≡ two_rows.leaves))
    ⊎ Collision toy
verify_merkle_keeps_example =
    verify_merkle_keeps toy two_rows.signer.public_key toy-IsSound two_rows.db newest
      two_rows.leaves _ newest_stored newest_root newest_count
      (verify_merkle-committed toy toy-IsSound two_rows newest two_rows-IsConsistent newest_stored)
      refl
