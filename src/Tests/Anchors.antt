-- ===== src/Tests/Anchors.antt =====
-- Runs of the anchors over the two-row ledger and its newest checkpoint.
use mathlib.Core.List.Memᴰ
use memory_blackbox.Prelude.{
  ℕ, ◌≤◌, ◌≡◌, ◌≢◌, ◌↔◌, ◌⊎◌, refl, true, List, [], ◌∷◌, Option, none, some, Text, codes, length,
  take, ok, err, anchor_error,
}
use memory_blackbox.Crypto.{Collision}
use memory_blackbox.Crypto.Toy.{toy, toy-IsSound}
use memory_blackbox.Model.Json.{Json, null, int, str, end, field}
use memory_blackbox.Model.Values.{Casts, AreCasts}
use memory_blackbox.Ledger.Store.{
  LedgerStore, count, insert_row, maybe_checkpoint, checkpoint_due, checkpoint,
}
use memory_blackbox.Ledger.Merkle.{current_leaves}
use memory_blackbox.Anchor.Statement.{
  AnchorReceipt, CheckpointStatement, Witness, Anchor, build, ledger_id,
}
use memory_blackbox.Anchor.Store.{anchors}
use memory_blackbox.Anchor.Verify.{
  AnchorReport, AnchorDivergence, check_receipts, verify_anchors, anchor_now,
}
use memory_blackbox.Anchor.Detection.{Accounted, verify_anchors_iff}
use memory_blackbox.Anchor.Rollback.{verify_anchors_keeps}
use memory_blackbox.Anchor.Honest.{verify_anchors-published}
use memory_blackbox.Anchor.FileWitness.{read_lines, valid_lines_unchecked, file_witness}
use memory_blackbox.Anchor.Publication.{WritesObjects}
use memory_blackbox.Anchor.Anchored.{anchor_now-verifies}
use memory_blackbox.Ledger.Honest.{IsConsistent}
use memory_blackbox.Tests.Codec.{toy_json, toy_json-IsRoundTrip, encode-visible}
use memory_blackbox.Tests.Ledgers.{two_rows, two_rows-IsConsistent}
use memory_blackbox.Tests.Merkle.{newest, newest_stored, newest_root, newest_count}

abbrev text_of_value : Json → Text
text_of_value (str s) = s
text_of_value _ = []

abbrev number_of_value : Json → Option ℕ
number_of_value (int n) = some n
number_of_value _ = none

abbrev pub casts : Casts
casts = record { to_str = text_of_value; to_int = number_of_value }

pub casts-AreCasts : AreCasts casts
casts-AreCasts = record { str_str = λ s. refl; int_int = λ n. refl }

-- A log that returns the witnesses that it holds.
abbrev pub board : Anchor (List Witness)
board = record {
  name = codes "board";
  publish = λ log st signer. (log, err anchor_error);
  witnesses = λ log identity public_key. ok log;
  fingerprint = λ st. st.root;
  verify_receipt = λ log receipt. ok (true, []);
}

abbrev identity : Text
identity = codes "id"

abbrev published : Text → Witness
published id = record {
  backend = codes "board";
  log_id = codes "log";
  locator = newest.root;
  fingerprint = newest.root;
  statement = some (build newest id);
  integrated_at = none;
}

abbrev identity_of : Option Text → Text
identity_of none = []
identity_of (some id) = id

abbrev pub two_id : Text
two_id = identity_of (ledger_id toy two_rows.db)

pub two_known : ledger_id toy two_rows.db ≡ some two_id
unfolding ledger_id maybe_checkpoint checkpoint_due checkpoint insert_row
two_known = refl

two_kept : anchors toy_json casts two_rows.db (some (codes "board")) ≡ ok []
unfolding anchors maybe_checkpoint checkpoint_due checkpoint insert_row
two_kept = refl

two_checked : check_receipts toy toy_json casts board (published two_id ∷ []) [] ≡ ok []
unfolding check_receipts
two_checked = refl

two_named : (published two_id).fingerprint ≡ (build newest two_id).root
unfolding build
two_named = refl

abbrev no_faults : List AnchorDivergence
no_faults = []

verify_anchors_iff_example :
    (r : AnchorReport) × (verify_anchors toy toy_json casts board two_rows
        (published two_id ∷ [])
        true
      ≡ ok r)
    × ((r.is_ok ≡ true) ↔ (
        ((published two_id ∷ []) ≢ [])
        × Accounted toy toy_json casts board two_rows two_id (published two_id ∷ [])
        × (no_faults ≡ [])))
verify_anchors_iff_example =
    verify_anchors_iff toy toy_json casts board two_rows (published two_id ∷ []) two_id
      (published two_id ∷ []) [] [] two_known refl two_kept two_checked

-- The report of the two-row ledger, which passes.
abbrev two_report :
    (r : AnchorReport) × (verify_anchors toy toy_json casts board two_rows
        (published two_id ∷ [])
        true
      ≡ ok r)
    × (r.is_ok ≡ true)
two_report =
    verify_anchors-published toy toy-IsSound two_rows two_rows-IsConsistent newest newest_stored
      toy_json casts board (published two_id ∷ []) two_id (published two_id) [] two_known refl
      two_named refl two_kept two_checked

verify_anchors_keeps_example :
    ((length two_rows.leaves ≤ count two_rows)
      × (take (length two_rows.leaves) (current_leaves two_rows.db) ≡ two_rows.leaves))
    ⊎ Collision toy
verify_anchors_keeps_example =
    verify_anchors_keeps toy toy_json casts board toy-IsSound two_rows (published two_id ∷ [])
      two_id (published two_id ∷ []) [] [] two_known refl two_kept two_checked (published two_id)
      (build newest two_id) two_rows.leaves two_report.0 (Memᴰ.head refl) refl
      (unfold build in newest_root) (unfold build in newest_count) two_report.1 two_report.2

abbrev claim : CheckpointStatement
claim = record {
  ledger_id = identity;
  signer_kid = codes "k";
  leaf_count = 2;
  root = codes "r";
  checkpoint_signature = codes "s";
  created_at = codes "t";
}

abbrev receipt : AnchorReceipt
receipt = record {
  backend = codes "board";
  log_id = codes "log";
  locator = codes "1";
  statement = claim;
  anchored_at = codes "t";
  proof = field (codes "b") null (field (codes "a") null end);
}

pub toy_json-WritesObjects : WritesObjects toy_json
toy_json-WritesObjects = record { visible = encode-visible }

no_lines : valid_lines_unchecked toy toy_json casts [] ≡ ok []
unfolding valid_lines_unchecked read_lines
no_lines = refl

pub two_empty : two_rows.anchors ≡ []
unfolding maybe_checkpoint checkpoint_due checkpoint insert_row
two_empty = refl

anchor_now-verifies_example :
    (t : LedgerStore) × (log : List Text) × (receipt : AnchorReceipt) × (report : AnchorReport)
    × (anchor_now toy toy_json casts
          (file_witness toy toy_json casts (codes "log") (codes "t"))
          two_rows
          []
          two_rows.signer
          (codes "t")
        ≡ ((t, log), ok receipt))
    × IsConsistent toy t
    × (verify_anchors toy toy_json casts
          (file_witness toy toy_json casts (codes "log") (codes "t"))
          t
          log
          true
        ≡ ok report)
    × (report.is_ok ≡ true)
anchor_now-verifies_example =
    anchor_now-verifies toy toy_json casts toy-IsSound toy_json-IsRoundTrip casts-AreCasts
      toy_json-WritesObjects (codes "log") (codes "t") (codes "t") two_rows two_id
      two_rows-IsConsistent two_known two_empty
