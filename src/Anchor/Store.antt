-- ===== src/Anchor/Store.antt =====
-- src/memory_blackbox/anchor/store.py and receipt.py: the checkpoints as they are published, and
-- the receipts kept for them.
use memory_blackbox.Prelude.{
  Bool, true, false, ◌&&◌, ◌||◌, List, [], ◌∷◌, ◌++◌, Option, none, some, Text, codes, ◌==◌,
  if◌then◌else◌, last?, Result, ok, err, anchor_error, ◌>>=◌,
}
use memory_blackbox.Crypto.{Primitives}
use memory_blackbox.Model.Json.{Json, Fields, Orjson, str, obj, end, get_field}
use memory_blackbox.Model.Dump.{fields}
use memory_blackbox.Storage.{CheckpointRow, AnchorRow, Db}
use memory_blackbox.Model.Values.{Casts}
use memory_blackbox.Anchor.Statement.{
  CheckpointStatement, AnchorReceipt, to_fields, digest, from_canonical,
}

-- `checkpoints`
unfoldable pub checkpoints : Db → List CheckpointRow
checkpoints db = db.checkpoints

-- `latest_checkpoint`
unfoldable pub latest_checkpoint : Db → Option CheckpointRow
unfolding checkpoints
latest_checkpoint db = last? (checkpoints db)

abbrev pub receipt_fields : AnchorReceipt → Fields
receipt_fields r = fields (
    (codes "backend", str r.backend)
    ∷ (codes "log_id", str r.log_id)
    ∷ (codes "locator", str r.locator)
    ∷ (codes "statement", obj (to_fields r.statement))
    ∷ (codes "anchored_at", str r.anchored_at)
    ∷ (codes "proof", obj r.proof)
    ∷ [])

-- `AnchorReceipt.to_json`
unfoldable pub to_json : Orjson → AnchorReceipt → Text
to_json json r = json.dumps (obj (receipt_fields r))

module _ (json : Orjson) (casts : Casts) where
  -- `str(data.get(key, ""))`
  abbrev pub text_or_empty : Option Json → Text
  text_or_empty none = []
  text_or_empty (some v) = casts.to_str v

  -- `data.get("proof") or {}`, if that is a dictionary.
  abbrev pub proof_of : Option Json → Fields
  proof_of (some (obj fs)) = fs
  proof_of _ = end

  abbrev pub receipt_with : Fields → Result CheckpointStatement → Result AnchorReceipt
  receipt_with fs (ok st) = ok (record {
    backend = text_or_empty (get_field (codes "backend") fs);
    log_id = text_or_empty (get_field (codes "log_id") fs);
    locator = text_or_empty (get_field (codes "locator") fs);
    statement = st;
    anchored_at = text_or_empty (get_field (codes "anchored_at") fs);
    proof = proof_of (get_field (codes "proof") fs);
  })
  receipt_with fs (err why) = err why

  abbrev pub receipt_parts : Fields → Option Json → Result AnchorReceipt
  receipt_parts fs none = err anchor_error
  receipt_parts fs (some statement) =
      receipt_with fs (from_canonical json casts (json.dumps statement))

  abbrev pub receipt_of : Option Json → Result AnchorReceipt
  receipt_of (some (obj fs)) = receipt_parts fs (get_field (codes "statement") fs)
  receipt_of _ = err anchor_error

  -- `AnchorReceipt.from_json`
  unfoldable pub from_json : Text → Result AnchorReceipt
  from_json raw = receipt_of (json.loads raw)

  abbrev pub parse_receipts : List AnchorRow → Result (List AnchorReceipt)
  parse_receipts [] = ok []
  parse_receipts (row ∷ rows) = do
    receipt ← from_json row.receipt_json
    receipts ← parse_receipts rows
    ok (receipt ∷ receipts)

  -- `WHERE backend = ?`, with no such test for `None`.
  abbrev pub backend_matches : Option Text → AnchorRow → Bool
  backend_matches none row = true
  backend_matches (some backend) row = row.backend == backend

  abbrev pub rows_of : Option Text → List AnchorRow → List AnchorRow
  rows_of backend [] = []
  rows_of backend (row ∷ rows) =
      let rest = rows_of backend rows in if backend_matches backend row then row ∷ rest else rest

  -- `anchors`
  unfoldable pub anchors : Db → Option Text → Result (List AnchorReceipt)
  anchors db backend = parse_receipts (rows_of backend db.anchors)

-- The UNIQUE index on (backend, log_id, locator).
unfoldable pub has_anchor : Text → Text → Text → List AnchorRow → Bool
has_anchor backend log_id locator [] = false
has_anchor backend log_id locator (row ∷ rows) =
    (row.backend == backend && row.log_id == log_id && row.locator == locator)
    || has_anchor backend log_id locator rows

unfoldable pub has_statement : Text → Text → List AnchorRow → Bool
has_statement statement_hash backend [] = false
has_statement statement_hash backend (row ∷ rows) =
    (row.statement_hash == statement_hash && row.backend == backend)
    || has_statement statement_hash backend rows

-- `is_anchored`
unfoldable pub is_anchored : Db → Text → Text → Bool
is_anchored db statement_hash backend = has_statement statement_hash backend db.anchors

module _ (c : Primitives) (json : Orjson) where
  abbrev pub anchor_row : CheckpointRow → AnchorReceipt → AnchorRow
  anchor_row cp r = record {
    checkpoint_id = cp.checkpoint_id;
    backend = r.backend;
    log_id = r.log_id;
    locator = r.locator;
    leaf_count = r.statement.leaf_count;
    root = r.statement.root;
    statement_hash = digest c json r.statement;
    receipt_json = to_json json r;
    anchored_at = r.anchored_at;
  }

  -- `record`: INSERT OR IGNORE.
  unfoldable pub record_anchor : Db → CheckpointRow → AnchorReceipt → Db
  record_anchor db cp r =
      if has_anchor r.backend r.log_id r.locator db.anchors
      then db
      else record db { anchors = db.anchors ++ anchor_row cp r ∷ [] }
