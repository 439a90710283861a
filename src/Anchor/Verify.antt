-- ===== src/Anchor/Verify.antt =====
-- src/memory_blackbox/anchor/verify.py: publishing a checkpoint, and the check of a ledger against
-- the witnesses of its log.
use memory_blackbox.Prelude.{
  ℕ, ◌-◌, Bool, true, false, not, List, [], ◌∷◌, ◌++◌, map, Option, none, some, Text, Bytes, ◌==◌,
  contains, length, take, ltb, if◌then◌else◌, Result, ok, err, anchor_error, ◌>>=◌,
}
use Prim.Native.Nat.{max}
use memory_blackbox.Crypto.{Primitives}
use memory_blackbox.Crypto.Keys.{KeyPair}
use memory_blackbox.Merkle.{root_hex}
use memory_blackbox.Model.Json.{Orjson}
use memory_blackbox.Storage.{CheckpointRow}
use memory_blackbox.Ledger.Store.{LedgerStore, checkpoint, count}
use memory_blackbox.Ledger.Merkle.{current_leaves}
use memory_blackbox.Model.Values.{Casts}
use memory_blackbox.Anchor.Statement.{
  CheckpointStatement, Witness, AnchorReceipt, Anchor, build, ledger_id, verify_signature,
}
use memory_blackbox.Anchor.Store.{checkpoints, latest_checkpoint, anchors, record_anchor}

pub data DivergenceKind : Type 0 where
  no_witness rollback fork orphaned_witness unsigned_witness bad_receipt : DivergenceKind

-- The `detail` text of a divergence, a constructor for each message.
pub data Detail : Type 0 where
  nothing_published : Text → Text → Detail
  not_signed : ℕ → Detail
  rows_removed : ℕ → ℕ → ℕ → Detail
  root_differs : ℕ → Text → Text → Detail
  cannot_produce : Text → Text → Detail
  does_not_check_out : Text → Text → Detail

-- What a divergence is about: a witness, or the backend and locator of a receipt.
pub data Subject : Type 0 where
  nothing : Subject
  witness : Witness → Subject
  receipt : Text → Text → Subject

pub record AnchorDivergence : Type 0 where
  pub kind : DivergenceKind
  pub detail : Detail
  pub subject : Subject

pub record AnchorReport : Type 0 where
  pub is_ok : Bool
  pub backend : Text
  pub local_rows : ℕ
  pub local_checkpoints : ℕ
  pub witness_count : ℕ
  pub witnessed_rows : Option ℕ
  pub divergences : List AnchorDivergence

abbrev pub is_empty {ℓ} : {A : Type ℓ} → List A → Bool
is_empty [] = true
is_empty (x ∷ xs) = false

-- `max(witnessed_rows or 0, leaf_count)`
abbrev pub raised_to : Option ℕ → ℕ → Option ℕ
raised_to none n = some n
raised_to (some rows) n = some (max rows n)

module _ (c : Primitives) where
  module _ (leaves : List Bytes) (local_rows : ℕ) (public_key : Bytes) where
    -- The checks of one statement, in the order of the loop body: the divergence, if there is one.
    unfoldable pub check_statement : Witness → CheckpointStatement → Option AnchorDivergence
    check_statement w st =
        let expected = root_hex c (take st.leaf_count leaves) in
        if not (verify_signature c st public_key)
        then some (record {
          kind = unsigned_witness;
          detail = not_signed st.leaf_count;
          subject = witness w;
        })
        else if ltb local_rows st.leaf_count
        then some (record {
          kind = rollback;
          detail = rows_removed st.leaf_count local_rows (st.leaf_count - local_rows);
          subject = witness w;
        })
        else if not (expected == st.root)
        then some (record {
          kind = fork;
          detail = root_differs st.leaf_count expected st.root;
          subject = witness w;
        })
        else none

    abbrev pub statement_divergences : Witness → Option CheckpointStatement → List AnchorDivergence
    statement_divergences w none = []
    statement_divergences w (some st) = elim (check_statement w st) [ none ↦ [] | some d ↦ d ∷ [] ]

    -- `_check_statements`: the divergences that it appends.
    unfoldable pub check_statements : List Witness → List AnchorDivergence
    check_statements [] = []
    check_statements (w ∷ ws) = statement_divergences w w.statement ++ check_statements ws

    abbrev pub witnessed_after : Option ℕ → Option CheckpointStatement → Option ℕ
    witnessed_after rows none = rows
    witnessed_after rows (some st) =
        if verify_signature c st public_key then raised_to rows st.leaf_count else rows

    -- `_check_statements`: the count that it returns.
    unfoldable pub witnessed_rows_of : Option ℕ → List Witness → Option ℕ
    witnessed_rows_of rows [] = rows
    witnessed_rows_of rows (w ∷ ws) = witnessed_rows_of (witnessed_after rows w.statement) ws

-- `_check_orphans`
unfoldable pub check_orphans : List Text → Text → List Witness → List AnchorDivergence
check_orphans known backend [] = []
check_orphans known backend (w ∷ ws) =
    let orphan : AnchorDivergence = record {
      kind = orphaned_witness;
      detail = cannot_produce backend w.fingerprint;
      subject = witness w;
    } in
    let rest = check_orphans known backend ws in
    if contains known w.fingerprint then rest else orphan ∷ rest

module _ {L : Type 0} (c : Primitives) (json : Orjson) (casts : Casts) (anchor : Anchor L) where
  abbrev pub receipt_divergences : AnchorReceipt → Bool × Text → List AnchorDivergence
  receipt_divergences r (true, detail) = []
  receipt_divergences r (false, detail) =
      record {
        kind = bad_receipt;
        detail = does_not_check_out r.locator detail;
        subject = receipt r.backend r.locator;
      }
      ∷ []

  -- `_check_receipts`
  unfoldable pub check_receipts : L → List AnchorReceipt → Result (List AnchorDivergence)
  check_receipts log [] = ok []
  check_receipts log (r ∷ receipts) = do
    verdict ← anchor.verify_receipt log r
    rest ← check_receipts log receipts
    ok (receipt_divergences r verdict ++ rest)

  -- The identifiers of the statements that the ledger can still produce.
  abbrev pub local_fingerprints : Text → List CheckpointRow → List Text
  local_fingerprints identity cps = map (λ cp. anchor.fingerprint (build cp identity)) cps

  -- The report of a ledger that has no witness.
  abbrev pub unwitnessed : LedgerStore → Text → Bool → AnchorReport
  unwitnessed s identity true = record {
    is_ok = false;
    backend = anchor.name;
    local_rows = count s;
    local_checkpoints = length (checkpoints s.db);
    witness_count = 0;
    witnessed_rows = none;
    divergences =
        record {
          kind = no_witness;
          detail = nothing_published anchor.name identity;
          subject = nothing;
        }
        ∷ [];
  }
  unwitnessed s identity false = record {
    is_ok = true;
    backend = anchor.name;
    local_rows = count s;
    local_checkpoints = length (checkpoints s.db);
    witness_count = 0;
    witnessed_rows = none;
    divergences = [];
  }

  abbrev pub all_divergences :
      LedgerStore → Text → List Witness → List AnchorDivergence → List AnchorDivergence
  all_divergences s identity ws receipt_faults =
      check_statements c (current_leaves s.db) (count s) s.signer.public_key ws
      ++ (check_orphans (local_fingerprints identity (checkpoints s.db)) anchor.name ws
          ++ receipt_faults)

  -- The report of a ledger with witnesses.
  abbrev pub witnessed_report :
      LedgerStore → Text → List Witness → List AnchorDivergence → AnchorReport
  witnessed_report s identity ws faults = record {
    is_ok = is_empty (all_divergences s identity ws faults);
    backend = anchor.name;
    local_rows = count s;
    local_checkpoints = length (checkpoints s.db);
    witness_count = length ws;
    witnessed_rows =
        witnessed_rows_of c (current_leaves s.db) (count s) s.signer.public_key none ws;
    divergences = all_divergences s identity ws faults;
  }

  -- The three passes over the witnesses and receipts, and the report.
  unfoldable pub check_witnesses : LedgerStore → L → Text → List Witness → Result AnchorReport
  check_witnesses s log identity ws = do
    receipts ← anchors json casts s.db (some anchor.name)
    faults ← check_receipts log receipts
    ok (witnessed_report s identity ws faults)

  abbrev pub check_log : LedgerStore → L → Bool → Text → List Witness → Result AnchorReport
  check_log s log require_witness identity [] = ok (unwitnessed s identity require_witness)
  check_log s log require_witness identity (w ∷ ws) = check_witnesses s log identity (w ∷ ws)

  -- The report of a ledger that has no row.
  abbrev pub unidentified : LedgerStore → AnchorReport
  unidentified s = record {
    is_ok = true;
    backend = anchor.name;
    local_rows = 0;
    local_checkpoints = length (checkpoints s.db);
    witness_count = 0;
    witnessed_rows = none;
    divergences = [];
  }

  abbrev pub verify_identity : LedgerStore → L → Bool → Option Text → Result AnchorReport
  verify_identity s log require_witness none = ok (unidentified s)
  verify_identity s log require_witness (some identity) = do
    ws ← anchor.witnesses log identity s.signer.public_key
    check_log s log require_witness identity ws

  -- `verify_anchors`
  unfoldable pub verify_anchors : LedgerStore → L → Bool → Result AnchorReport
  verify_anchors s log require_witness = verify_identity s log require_witness (ledger_id c s.db)

  abbrev pub recorded :
      LedgerStore
      → CheckpointRow
      → L × Result AnchorReceipt
      → (LedgerStore × L) × Result AnchorReceipt
  recorded s cp (log, ok r) = ((record s { db = record_anchor c json s.db cp r }, log), ok r)
  recorded s cp (log, err why) = ((s, log), err why)

  abbrev pub publish_checkpoint :
      LedgerStore
      → L
      → KeyPair
      → Option CheckpointRow
      → Option Text
      → (LedgerStore × L) × Result AnchorReceipt
  publish_checkpoint s log signer none identity = ((s, log), err anchor_error)
  publish_checkpoint s log signer (some cp) none = ((s, log), err anchor_error)
  publish_checkpoint s log signer (some cp) (some identity) =
      recorded s cp (anchor.publish log (build cp identity) signer)

  -- `anchor_now`; `now` is the clock at the checkpoint.
  unfoldable pub anchor_now :
      LedgerStore → L → KeyPair → Text → (LedgerStore × L) × Result AnchorReceipt
  anchor_now s log signer now =
      let s' = (checkpoint c s now).0 in
      publish_checkpoint s' log signer (latest_checkpoint s'.db) (ledger_id c s'.db)
