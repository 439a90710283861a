-- ===== src/Anchor/Anchored.antt =====
-- The whole way: a checkpoint is taken and published to a file witness, its receipt is recorded,
-- and the ledger is verified against the file.
use memory_blackbox.Prelude.{
  ◌≡◌, refl, sym, ap, ◌∙◌, true, List, [], ◌∷◌, ◌++◌, some, arith, Text, codes, ◌==◌, eq_refl,
  last?, last?-concat, ok,
}
use memory_blackbox.Crypto.{Primitives, IsSound}
use memory_blackbox.Crypto.Keys.{sign_with}
use memory_blackbox.Crypto.Hashing.{b3_raw}
use memory_blackbox.Model.Json.{
  Orjson, IsRoundTrip, get_field, sort_fields, sort_keys, get_field-sort,
}
use memory_blackbox.Model.Values.{Casts, AreCasts}
use memory_blackbox.Storage.{CheckpointRow, Db}
use memory_blackbox.Ledger.Store.{LedgerStore, checkpoint}
use memory_blackbox.Ledger.Honest.{IsConsistent, checkpoint-IsConsistent}
use memory_blackbox.Anchor.Statement.{
  CheckpointStatement, AnchorReceipt, build, canonical, digest, ledger_id,
}
use memory_blackbox.Anchor.Store.{latest_checkpoint, checkpoints, has_anchor, record_anchor}
use memory_blackbox.Anchor.Verify.{AnchorReport, anchor_now, check_receipts, verify_anchors}
use memory_blackbox.Anchor.FileWitness.{
  text_of, read_lines, valid_lines_unchecked, has_digest, verify_receipt, publish, witnesses,
  receipt_for, file_witness, valid_lines, keep_signed, witnesses_for,
}
use memory_blackbox.Anchor.Publication.{WritesObjects}
use memory_blackbox.Anchor.Published.{publish-lines, publish-witnesses}
use memory_blackbox.Anchor.Receipts.{sorted, anchors-record_anchor}
use memory_blackbox.Anchor.Honest.{verify_anchors-published}

module _ (c : Primitives) (json : Orjson) (casts : Casts) (sound : IsSound c)
    (trip : IsRoundTrip json) (laws : AreCasts casts) (objects : WritesObjects json) where
  checkpoint_newest :
      (s : LedgerStore) (at : Text)
      → (cp : CheckpointRow) × (last? (checkpoint c s at).0.checkpoints ≡ some cp)
  unfolding checkpoint
  checkpoint_newest s at = (_, last?-concat s.checkpoints _)

  -- A recorded receipt touches neither the rows nor the checkpoints.
  record_anchor-IsConsistent :
      (s : LedgerStore) (cp : CheckpointRow) (r : AnchorReceipt)
      → s.anchors ≡ []
      → IsConsistent c s
      → IsConsistent c (record s { db = record_anchor c json s.db cp r })
  unfolding record_anchor has_anchor
  record_anchor-IsConsistent s cp r none_yet k =
      rw none_yet (record {
        keyed = k.keyed;
        chained = k.chained;
        cached = k.cached;
        committed = k.committed;
      })

  record_anchor-same :
      (db : Db) (cp : CheckpointRow) (r : AnchorReceipt)
      → db.anchors ≡ []
      → (ledger_id c (record_anchor c json db cp r) ≡ ledger_id c db)
        × ((record_anchor c json db cp r).checkpoints ≡ db.checkpoints)
  unfolding record_anchor has_anchor ledger_id
  record_anchor-same db cp r none_yet = rw none_yet (refl, refl)

  checkpoint-same :
      (s : LedgerStore) (at : Text)
      → (ledger_id c (checkpoint c s at).0.db ≡ ledger_id c s.db)
        × ((checkpoint c s at).0.anchors ≡ s.anchors)
        × ((checkpoint c s at).0.signer ≡ s.signer)
  unfolding checkpoint ledger_id
  checkpoint-same s at = (refl, refl, refl)

  module _ (path now : Text) (s : LedgerStore) (consistent : IsConsistent c s) (cp : CheckpointRow)
      (newest : last? s.checkpoints ≡ some cp) (identity : Text)
      (known : ledger_id c s.db ≡ some identity) (none_yet : s.anchors ≡ []) where
    abbrev st : CheckpointStatement
    st = build cp identity

    abbrev file : List Text
    file = (publish c json casts path now [] st s.signer).0

    abbrev receipt : AnchorReceipt
    receipt = receipt_for c json casts path now st s.signer

    -- The store behind the publication.
    abbrev pub anchored : LedgerStore
    anchored = record s { db = record_anchor c json s.db cp receipt }

    receipt_signed :
        text_of (get_field (codes "witness_signature") (sort_fields receipt.proof))
        ≡ some (sign_with c s.signer (b3_raw c (canonical c json st)))
    unfolding get_field sort_keys ◌==◌
    receipt_signed = ap text_of (get_field-sort (codes "witness_signature") receipt.proof)

    no_lines : valid_lines_unchecked c json casts [] ≡ ok []
    unfolding valid_lines_unchecked read_lines
    no_lines = refl

    receipt_fine :
        check_receipts c json casts (file_witness c json casts path now) file (sorted receipt ∷ [])
        ≡ ok []
    unfolding check_receipts verify_receipt has_digest
    receipt_fine = rw receipt_signed (
        rw (publish-lines c json casts sound trip laws objects path s.signer now st [] [] no_lines)
          (rw (eq_refl (digest c json st)) refl))

    no_witnesses : witnesses c json casts path [] identity s.signer.public_key ≡ ok []
    unfolding witnesses valid_lines keep_signed witnesses_for valid_lines_unchecked read_lines
    no_witnesses = refl

    anchored-verifies :
        (r : AnchorReport) × (verify_anchors c json casts
            (file_witness c json casts path now)
            anchored
            file
            true
          ≡ ok r)
        × (r.is_ok ≡ true)
    unfolding build
    anchored-verifies =
        let (same_id, same_points) = record_anchor-same s.db cp receipt none_yet in
        let (ws, w, before, after, stated, named) =
          publish-witnesses c json casts sound trip laws objects path s.signer now st [] []
            consistent.keyed no_lines in
        let none_before : ws ≡ [] = ground (arith, sym no_witnesses ∙ before) in
        verify_anchors-published c sound anchored
          (record_anchor-IsConsistent s cp receipt none_yet consistent) cp
          (ap last? same_points ∙ newest) json casts (file_witness c json casts path now) file
          identity w (sorted receipt ∷ []) (same_id ∙ known)
          (after ∙ ap (λ l. ok (l ++ w ∷ [])) none_before) named stated
          (anchors-record_anchor json casts trip laws receipt c s.db cp none_yet) receipt_fine

  module _ (path now at : Text) where
    anchor_now-publish :
        (s : LedgerStore) (cp : CheckpointRow) (identity : Text)
        → last? (checkpoint c s at).0.checkpoints ≡ some cp
        → ledger_id c (checkpoint c s at).0.db ≡ some identity
        → anchor_now c json casts (file_witness c json casts path now) s [] s.signer at ≡ (
          (
            record (checkpoint c s at).0 {
              db =
                  record_anchor c json
                    (checkpoint c s at).0.db
                    cp
                    (receipt_for c json casts path now (build cp identity) s.signer);
            },
            (publish c json casts path now [] (build cp identity) s.signer).0,
          ),
          ok (receipt_for c json casts path now (build cp identity) s.signer),
        )
    unfolding anchor_now latest_checkpoint checkpoints publish
    anchor_now-publish s cp identity newest known = rw newest (rw known refl)

    -- Under sound primitives, if orjson reads back what it writes, the text of an object is not
    -- blank, and `str` and `int` give back texts and numbers: on a consistent ledger that is not
    -- empty and has no receipt yet, `anchor_now` with an empty witness file succeeds, and the
    -- ledger that it leaves is consistent and passes `verify_anchors` against the file that it
    -- leaves, with a witness required.
    pub anchor_now-verifies :
        (s : LedgerStore) (identity : Text)
        → IsConsistent c s
        → ledger_id c s.db ≡ some identity
        → s.anchors ≡ []
        → (t : LedgerStore) × (log : List Text) × (receipt : AnchorReceipt)
          × (report : AnchorReport) × (anchor_now c json casts
                (file_witness c json casts path now)
                s
                []
                s.signer
                at
              ≡ ((t, log), ok receipt))
          × IsConsistent c t
          × (verify_anchors c json casts (file_witness c json casts path now) t log true
              ≡ ok report)
          × (report.is_ok ≡ true)
    unfolding checkpoint
    anchor_now-verifies s identity k known none_yet =
        let s' = (checkpoint c s at).0 in
        let (cp, newest) = checkpoint_newest s at in
        let (same_id, same_anchors, same_signer) = checkpoint-same s at in
        let k' = checkpoint-IsConsistent c sound s at k in
        let known' : ledger_id c s'.db ≡ some identity = same_id ∙ known in
        let empty' : s'.anchors ≡ [] = same_anchors ∙ none_yet in
        let (report, run, fine) =
          anchored-verifies path now s' k' cp newest identity known' empty' in
        (
          anchored path now s' k' cp newest identity known' empty',
          (publish c json casts path now [] (build cp identity) s.signer).0,
          receipt_for c json casts path now (build cp identity) s.signer,
          report,
          anchor_now-publish s cp identity newest known',
          record_anchor-IsConsistent s' cp _ empty' k',
          run,
          fine,
        )
