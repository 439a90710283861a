-- ===== src/Query/Integrity.antt =====
-- src/memory_blackbox/query/verify.py: the chain, the newest checkpoint and the external log in one
-- report.
use memory_blackbox.Prelude.{
  ◌≡◌, ◌↔◌, refl, sym, Bool, true, ◌&&◌, [], Option, none, some, arith, Bytes, Result, ok, ◌>>=◌,
  subst,
}
use memory_blackbox.Crypto.{Primitives}
use memory_blackbox.Model.Json.{Orjson}
use memory_blackbox.Model.Values.{Casts}
use memory_blackbox.Ledger.Store.{LedgerStore}
use memory_blackbox.Ledger.Chain.{ChainReport, verify_chain}
use memory_blackbox.Ledger.Linked.{IsLinked, verify_chain_iff}
use memory_blackbox.Ledger.Merkle.{
  MerkleReport, verify_merkle, check_checkpoint, current_leaves, report, empty_ledger,
}
use memory_blackbox.Anchor.Statement.{Anchor}
use memory_blackbox.Anchor.Verify.{AnchorReport, verify_anchors}
use memory_blackbox.Anchor.Rollback.{verify_anchors-erased}

pub record IntegrityReport : Type 0 where
  pub is_ok : Bool
  pub chain : ChainReport
  pub merkle : MerkleReport
  pub anchor : Option AnchorReport

-- `anchor_report is None or anchor_report.ok`
abbrev pub anchor_passes : Option AnchorReport → Bool
anchor_passes none = true
anchor_passes (some r) = r.is_ok

abbrev pub integrity_of : ChainReport → MerkleReport → Option AnchorReport → IntegrityReport
integrity_of chain merkle anchor = record {
  is_ok = chain.is_ok && (merkle.is_ok && anchor_passes anchor);
  chain = chain;
  merkle = merkle;
  anchor = anchor;
}

-- `public_key if public_key is not None else ledger.public_key`
abbrev pub key_or_own : LedgerStore → Option Bytes → Bytes
key_or_own s none = s.signer.public_key
key_or_own s (some public_key) = public_key

module _ {L : Type 0} (c : Primitives) (json : Orjson) (casts : Casts) where
  -- The external check, when an anchor is passed with its log.
  unfoldable pub anchor_report :
      LedgerStore → Option (Anchor L × L) → Bool → Result (Option AnchorReport)
  anchor_report s none require_witness = ok none
  anchor_report s (some (anchor, log)) require_witness = do
    r ← verify_anchors c json casts anchor s log require_witness
    ok (some r)

  unfoldable pub verify :
      LedgerStore → Option Bytes → Option (Anchor L × L) → Bool → Result IntegrityReport
  verify s public_key anchor require_witness = do
    merkle ← verify_merkle c (key_or_own s public_key) s.db
    external ← anchor_report s anchor require_witness
    ok (integrity_of (verify_chain c (key_or_own s public_key) s.db) merkle external)

  module _ (s : LedgerStore) (public_key : Option Bytes) (anchor : Option (Anchor L × L))
      (require : Bool) (merkle : MerkleReport) (external : Option AnchorReport)
      (checked : verify_merkle c (key_or_own s public_key) s.db ≡ ok merkle)
      (witnessed : anchor_report s anchor require ≡ ok external) where
    -- If `verify_merkle` and the check of the external log return, then `verify` returns a report
    -- with their results, which passes exactly when the rows form a good chain under the key (each
    -- entry hash is the digest of its payload and previous hash, each previous hash is the entry
    -- hash of the row before, each signature verifies) and both of those results pass, where an
    -- anchor that is not passed counts as passing.
    pub verify_iff :
        (r : IntegrityReport) × (verify s public_key anchor require ≡ ok r)
        × (r.merkle ≡ merkle)
        × (r.anchor ≡ external)
        × ((r.is_ok ≡ true) ↔ (
            IsLinked c (key_or_own s public_key) none s.ledger
            × (merkle.is_ok ≡ true)
            × (anchor_passes external ≡ true)))
    unfolding verify
    verify_iff = (
      integrity_of (verify_chain c (key_or_own s public_key) s.db) merkle external,
      rw checked (rw witnessed refl),
      refl,
      refl,
      ground (arith, verify_chain_iff c (key_or_own s public_key) s.db),
    )

  -- A database with neither rows nor checkpoints passes `verify`, whatever the external log has
  -- witnessed of it and though a witness is required.
  pub verify-erased :
      (s : LedgerStore) (public_key : Option Bytes) (anchor : Anchor L) (log : L) (require : Bool)
      → s.ledger ≡ []
      → s.checkpoints ≡ []
      → (r : IntegrityReport) × (verify s public_key (some (anchor, log)) require ≡ ok r)
        × (r.is_ok ≡ true)
  verify-erased s public_key anchor log require no_rows no_points =
      let (external, run, fine, _) =
        verify_anchors-erased c json casts anchor s log require no_rows in
      let empty : verify_merkle c (key_or_own s public_key) s.db ≡ ok (report true 0 empty_ledger) =
        unfold verify_merkle check_checkpoint current_leaves in rw (no_rows, no_points) refl in
      let read : anchor_report s (some (anchor, log)) require ≡ ok (some external) =
        unfold anchor_report in rw run refl in
      let (r, returned, _, _, exact) =
        verify_iff s public_key (some (anchor, log)) require (report true 0 empty_ledger)
          (some external) empty read in
      (r, returned, exact.1 (subst (IsLinked c _ none) (sym no_rows) tt, refl, fine))
