-- ===== src/Tests/Chain.antt =====
-- Runs of the chain verification and of whole histories.
use memory_blackbox.Prelude.{
  ◌≡◌, ◌⊎◌, ◌↔◌, inl, refl, ap, true, [], ◌∷◌, ◌++◌, map, none, some, Bytes, codes, length, ok,
  ◌==◌,
}
use memory_blackbox.Codec.Hex.{hex}
use memory_blackbox.Codec.Utf8.{utf8}
use memory_blackbox.Crypto.{Collision}
use memory_blackbox.Crypto.Toy.{toy, toy-IsSound, digest}
use memory_blackbox.Crypto.Hashing.{b3}
use memory_blackbox.Storage.{Row, Db, empty_db}
use memory_blackbox.Ledger.Chain.{
  ChainReport, Divergence, edit, verify_chain, check_rows, check_row, link_input,
}
use memory_blackbox.Ledger.Store.{
  insert_row, maybe_checkpoint, checkpoint_due, checkpoint, row_for, last_entry_hash,
}
use memory_blackbox.Ledger.Merkle.{MerkleReport, verify_merkle}
use memory_blackbox.Ledger.Linked.{IsLinked, verify_chain_iff}
use memory_blackbox.Ledger.Divergence.{IsFirstFault, verify_chain-IsFirstFault}
use memory_blackbox.Ledger.Binding.{covered, verify_chain_binds, behead, verify_chain-behead}
use memory_blackbox.Ledger.Honest.{verify_chain-IsConsistent}
use memory_blackbox.Ledger.History.{honest_verifies}
use memory_blackbox.Tests.Codec.{toy_json}
use memory_blackbox.Tests.Ledgers.{
  note, new_store, one_row, two_rows, two_rows-IsConsistent, new_store-Fresh, two_rows-Reach,
  two_rows_checkpoints,
}

abbrev public_key : Bytes
public_key = two_rows.signer.public_key

two_rows_pass : (verify_chain toy public_key two_rows.db).is_ok ≡ true
two_rows_pass =
    ap (λ (r : ChainReport). r.is_ok)
      (verify_chain-IsConsistent toy toy-IsSound two_rows two_rows-IsConsistent)

verify_chain_iff_example :
    ((verify_chain toy public_key two_rows.db).is_ok ≡ true)
    ↔ IsLinked toy public_key none two_rows.ledger
verify_chain_iff_example = verify_chain_iff toy public_key two_rows.db

verify_chain_binds_example :
    (map covered two_rows.ledger ≡ map covered two_rows.ledger) ⊎ Collision toy
verify_chain_binds_example =
    verify_chain_binds toy toy-IsSound public_key two_rows.db two_rows.db two_rows_pass
      two_rows_pass refl refl

abbrev first : Row
first = row_for toy toy_json new_store (note (codes "w1") []) (codes "t2")

abbrev second : Row
second = row_for toy toy_json one_row (note (codes "w2") (codes "w1" ∷ [])) (codes "t2")

two_rows_split : two_rows.ledger ≡ (first ∷ []) ++ second ∷ []
unfolding maybe_checkpoint checkpoint_due checkpoint insert_row
two_rows_split = refl

second_linked : second.prev_hash ≡ some first.entry_hash
unfolding row_for last_entry_hash maybe_checkpoint checkpoint_due checkpoint insert_row
second_linked = refl

verify_chain-behead_example :
    (verify_chain toy public_key
      (record two_rows.db { ledger = behead second first.entry_hash ∷ [] })).is_ok
    ≡ true
verify_chain-behead_example =
    verify_chain-behead toy public_key two_rows.db (first ∷ []) second [] first.entry_hash
      two_rows_split second_linked two_rows_pass

honest_verifies_example :
    (verify_chain toy two_rows.signer.public_key two_rows.db
      ≡ record { is_ok = true; rows_checked = length two_rows.ledger; divergence = none })
    × ((r : MerkleReport) × (verify_merkle toy two_rows.signer.public_key two_rows.db ≡ ok r)
        × (r.is_ok ≡ true))
honest_verifies_example =
    honest_verifies toy toy_json toy-IsSound new_store-Fresh two_rows-Reach
      (inl two_rows_checkpoints)

-- A row whose entry hash is not the digest of its payload.
abbrev edited : Row
edited = record {
  seq = 1;
  record_id = codes "w1";
  kind = codes "write";
  namespace = codes "default";
  payload_json = codes "{}";
  entry_hash = codes "blake3:00";
  prev_hash = none;
  signature = codes "ed25519:00";
  signer_kid = codes "k";
  created_at = codes "t";
}

abbrev edited_db : Db
edited_db = record empty_db { ledger = edited ∷ []; ledger_seq = 1 }

abbrev found : Divergence
found = record { seq = 1; record_id = codes "w1"; kind = edit }

edit_found : (verify_chain toy public_key edited_db).divergence ≡ some found
unfolding verify_chain check_rows check_row link_input utf8 b3 hex digest ◌==◌
edit_found = refl

verify_chain-IsFirstFault_example :
    IsFirstFault toy public_key none 0 edited_db.ledger
      (verify_chain toy public_key edited_db)
      found
verify_chain-IsFirstFault_example =
    verify_chain-IsFirstFault toy public_key edited_db found edit_found
