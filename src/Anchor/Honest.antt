-- ===== src/Anchor/Honest.antt =====
-- A ledger whose newest checkpoint was published passes `verify_anchors`.
use memory_blackbox.Prelude.{
  ◌≡◌, refl, sym, ap, ◌∙◌, true, List, [], ◌∷◌, map, some, arith, Text, contains, length, take,
  last?, subst, ok, length-map, In-cons, inl, inr,
}
use memory_blackbox.Codec.Hex.{hex, fromhex-hex}
use memory_blackbox.Codec.Prefix.{strip_prefix-append}
use memory_blackbox.Crypto.{Primitives, IsSound}
use memory_blackbox.Crypto.Hashing.{hash_prefix}
use memory_blackbox.Crypto.Signing.{verify}
use memory_blackbox.Merkle.{root_hex, compute_root}
use memory_blackbox.Model.Json.{Orjson}
use memory_blackbox.Storage.{CheckpointRow}
use memory_blackbox.Ledger.Store.{LedgerStore, count, leaf_of}
use memory_blackbox.Ledger.Merkle.{current_leaves}
use memory_blackbox.Ledger.Deletion.{compute_root_bytes}
use memory_blackbox.Ledger.Honest.{IsConsistent, IsCommitted, verify-sign_with}
use memory_blackbox.Model.Values.{Casts}
use memory_blackbox.Anchor.Statement.{
  Witness, AnchorReceipt, Anchor, build, ledger_id, verify_signature,
}
use memory_blackbox.Anchor.Store.{checkpoints, anchors}
use memory_blackbox.Anchor.Verify.{AnchorReport, check_receipts, verify_anchors}
use memory_blackbox.Anchor.Detection.{Matches, Accounted, verify_anchors_iff}

-- The last of a list is among its images.
contains-last :
    (f : CheckpointRow → Text) (cps : List CheckpointRow) (cp : CheckpointRow)
    → last? cps ≡ some cp
    → contains (map f cps) (f cp) ≡ true
contains-last f [] cp h = cc
contains-last f (x ∷ []) cp h = (In-cons (f cp) (f x) []).1 (inl (ap f (ground arith)))
contains-last f (x ∷ y ∷ cps) cp h =
    (In-cons (f cp) (f x) (map f (y ∷ cps))).1 (inr (contains-last f (y ∷ cps) cp h))

module _ (c : Primitives) (sound : IsSound c) (s : LedgerStore) (consistent : IsConsistent c s)
    (cp : CheckpointRow) (newest : last? s.checkpoints ≡ some cp) where
  committed : IsCommitted c s.signer s.leaves (some cp)
  committed = subst (IsCommitted c s.signer s.leaves) newest consistent.committed

  build_signed :
      (identity : Text) → verify_signature c (build cp identity) s.signer.public_key ≡ true
  unfolding verify_signature build root_hex
  build_signed identity =
      let raw = compute_root c (take cp.leaf_count s.leaves) in
      let (_, root, signature) = committed in
      rw (root, strip_prefix-append hash_prefix (hex raw))
        (rw (fromhex-hex raw (compute_root_bytes c sound (take cp.leaf_count s.leaves))) (
          ap (λ t. verify c raw t s.signer.public_key) signature
          ∙ verify-sign_with c sound s raw consistent.keyed))

  -- The statement of the newest checkpoint matches the ledger.
  pub build-Matches :
      (identity : Text)
      → Matches c (current_leaves s.db) (count s) s.signer.public_key (some (build cp identity))
  build-Matches identity =
      let (few, root, _) = committed in
      let cached : s.leaves ≡ current_leaves s.db = unfold current_leaves in consistent.cached in
      (
        build_signed identity,
        unfold build count in
            omega (arith, few, ap length consistent.cached, length-map leaf_of s.ledger),
        unfold build in ap (λ l. root_hex c (take cp.leaf_count l)) (sym cached) ∙ sym root,
      )

  module _ {L : Type 0} (json : Orjson) (casts : Casts) (anchor : Anchor L) where
    -- The witness of the newest checkpoint is accounted for.
    pub build-Accounted :
        (identity : Text) (w : Witness)
        → w.fingerprint ≡ anchor.fingerprint (build cp identity)
        → w.statement ≡ some (build cp identity)
        → Accounted c json casts anchor s identity (w ∷ [])
    build-Accounted identity w named stated = record {
      produced = (
        rw named (
            unfold checkpoints in
            contains-last (λ p. anchor.fingerprint (build p identity)) s.checkpoints cp newest),
        tt,
      );
      matched = (rw stated (build-Matches identity), tt);
    }

    -- Under sound primitives, a consistent ledger that is not empty passes `verify_anchors`, with a
    -- witness required, if the log returns one witness, which carries the fingerprint and the
    -- statement of the newest checkpoint, the receipts can be read and none is faulty.
    pub verify_anchors-published :
        (log : L) (identity : Text) (w : Witness) (receipts : List AnchorReceipt)
        → ledger_id c s.db ≡ some identity
        → anchor.witnesses log identity s.signer.public_key ≡ ok (w ∷ [])
        → w.fingerprint ≡ anchor.fingerprint (build cp identity)
        → w.statement ≡ some (build cp identity)
        → anchors json casts s.db (some anchor.name) ≡ ok receipts
        → check_receipts c json casts anchor log receipts ≡ ok []
        → (r : AnchorReport) × (verify_anchors c json casts anchor s log true ≡ ok r)
          × (r.is_ok ≡ true)
    verify_anchors-published log identity w receipts known read named stated kept fine =
        let (r, run, exact) =
          verify_anchors_iff c json casts anchor s log identity (w ∷ []) receipts [] known read kept
            fine in
        (r, run, exact.1 ((λ e. ground arith), build-Accounted identity w named stated, refl))
