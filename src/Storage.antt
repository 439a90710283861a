-- ===== src/Storage.antt =====
-- The SQLite database that the ledger, the DAG and the checkpoints share: one list of rows for
-- each table, in the order of its integer key (ledger/schema.sql, dag/schema.sql,
-- anchor/schema.sql).
use memory_blackbox.Prelude.{ℕ, List, [], Option, Text}
use memory_blackbox.Model.Edges.{Edge}

-- A row of `ledger`.
pub record Row : Type 0 where
  pub seq : ℕ
  pub record_id : Text
  pub kind : Text
  pub namespace : Text
  pub payload_json : Text
  pub entry_hash : Text
  pub prev_hash : Option Text
  pub signature : Text
  pub signer_kid : Text
  pub created_at : Text

-- A row of `merkle_checkpoints`.
pub record CheckpointRow : Type 0 where
  pub checkpoint_id : ℕ
  pub leaf_count : ℕ
  pub root : Text
  pub signature : Text
  pub signer_kid : Text
  pub created_at : Text

-- A row of `anchors` (anchor/schema.sql), without its key, in whose order the rows stand.
pub record AnchorRow : Type 0 where
  pub checkpoint_id : ℕ
  pub backend : Text
  pub log_id : Text
  pub locator : Text
  pub leaf_count : ℕ
  pub root : Text
  pub statement_hash : Text
  pub receipt_json : Text
  pub anchored_at : Text

-- `ledger_seq` and `checkpoint_seq` are SQLite's AUTOINCREMENT counters: the largest key that was
-- ever handed out.
pub record Db : Type 0 where
  pub ledger : List Row
  pub ledger_seq : ℕ
  pub checkpoints : List CheckpointRow
  pub checkpoint_seq : ℕ
  pub edges : List Edge
  pub anchors : List AnchorRow

abbrev pub empty_db : Db
empty_db = record {
  ledger = [];
  ledger_seq = 0;
  checkpoints = [];
  checkpoint_seq = 0;
  edges = [];
  anchors = [];
}
