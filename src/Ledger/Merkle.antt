-- ===== src/Ledger/Merkle.antt =====
-- `verify_merkle` and `current_leaves` of src/memory_blackbox/merkle/tree.py: the ledger against
-- its newest signed checkpoint.
use memory_blackbox.Prelude.{
  ℕ, Bool, true, false, not, List, [], ◌∷◌, map, Option, none, some, Bytes, ◌==◌, length, last?,
  take, ltb, if◌then◌else◌, Result, ok, err, value_error,
}
use memory_blackbox.Codec.Hex.{fromhex}
use memory_blackbox.Codec.Prefix.{removeprefix}
use memory_blackbox.Crypto.{Primitives}
use memory_blackbox.Crypto.Hashing.{hash_prefix}
use memory_blackbox.Crypto.Signing.{verify}
use memory_blackbox.Merkle.{compute_root}
use memory_blackbox.Storage.{CheckpointRow, Db}
use memory_blackbox.Ledger.Store.{leaf_of}

-- The `detail` text of a report; a constructor for each message.
pub data Detail : Type 0 where
  no_checkpoint empty_ledger bad_signature root_mismatch verified : Detail
  rows_missing : ℕ → ℕ → Detail

pub record MerkleReport : Type 0 where
  pub is_ok : Bool
  pub leaf_count : ℕ
  pub detail : Detail

unfoldable pub current_leaves : Db → List Bytes
current_leaves db = map leaf_of db.ledger

abbrev pub report : Bool → ℕ → Detail → MerkleReport
report is_ok leaf_count detail = record { is_ok = is_ok; leaf_count = leaf_count; detail = detail }

module _ (c : Primitives) (public_key : Bytes) where
  -- The checks against a checkpoint whose root decodes to `root_bytes`.
  unfoldable pub check_root : List Bytes → CheckpointRow → Bytes → MerkleReport
  check_root leaves cp root_bytes =
      if not (verify c root_bytes cp.signature public_key)
      then report false cp.leaf_count bad_signature
      else if ltb (length leaves) cp.leaf_count
      then report false cp.leaf_count (rows_missing (length leaves) cp.leaf_count)
      else if not (compute_root c (take cp.leaf_count leaves) == root_bytes)
      then report false cp.leaf_count root_mismatch
      else report true cp.leaf_count verified

  unfoldable pub check_checkpoint : Option CheckpointRow → List Bytes → Result MerkleReport
  check_checkpoint (some cp) leaves = elim (fromhex (removeprefix hash_prefix cp.root)) [
    | none ↦ err value_error
    | some root_bytes ↦ ok (check_root leaves cp root_bytes)
  ]
  check_checkpoint none [] = ok (report true 0 empty_ledger)
  check_checkpoint none (l ∷ leaves) = ok (report false (length (l ∷ leaves)) no_checkpoint)

  unfoldable pub verify_merkle : Db → Result MerkleReport
  verify_merkle db = check_checkpoint (last? db.checkpoints) (current_leaves db)
