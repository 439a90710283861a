-- ===== src/Anchor/Statement.antt =====
-- src/memory_blackbox/anchor/base.py: the claim about one checkpoint that is published, and the
-- interface of a log.
use memory_blackbox.Prelude.{
  ℕ, Bool, false, List, [], ◌∷◌, ◌++◌, Option, none, some, Text, Bytes, codes, ◌==◌, if◌then◌else◌,
  Result, ok, err, anchor_error,
}
use memory_blackbox.Codec.Hex.{fromhex}
use memory_blackbox.Codec.Prefix.{strip_prefix}
use memory_blackbox.Codec.Utf8.{utf8}
use memory_blackbox.Crypto.{Primitives}
use memory_blackbox.Crypto.Hashing.{b3, hash_prefix}
use memory_blackbox.Crypto.Keys.{KeyPair}
use memory_blackbox.Crypto.Signing.{verify}
use memory_blackbox.Model.Json.{Json, Fields, Orjson, str, int, obj, get_field}
use memory_blackbox.Model.Values.{Casts}
use memory_blackbox.Model.Canonical.{canonical_text}
use memory_blackbox.Model.Dump.{fields}
use memory_blackbox.Storage.{Row, CheckpointRow, Db}

abbrev pub anchor_statement_type : Text
anchor_statement_type = codes "memory-blackbox.checkpoint/v1"

pub record CheckpointStatement : Type 0 where
  pub ledger_id : Text
  pub signer_kid : Text
  pub leaf_count : ℕ
  pub root : Text
  pub checkpoint_signature : Text
  pub created_at : Text

-- `CheckpointStatement.build`
unfoldable pub build : CheckpointRow → Text → CheckpointStatement
build cp identity = record {
  ledger_id = identity;
  signer_kid = cp.signer_kid;
  leaf_count = cp.leaf_count;
  root = cp.root;
  checkpoint_signature = cp.signature;
  created_at = cp.created_at;
}

-- `to_dict`
unfoldable pub to_fields : CheckpointStatement → Fields
to_fields st = fields (
    (codes "type", str anchor_statement_type)
    ∷ (codes "ledger_id", str st.ledger_id)
    ∷ (codes "signer_kid", str st.signer_kid)
    ∷ (codes "leaf_count", int st.leaf_count)
    ∷ (codes "root", str st.root)
    ∷ (codes "checkpoint_signature", str st.checkpoint_signature)
    ∷ (codes "created_at", str st.created_at)
    ∷ [])

-- One external record that a statement was published.
pub record Witness : Type 0 where
  pub backend : Text
  pub log_id : Text
  pub locator : Text
  pub fingerprint : Text
  pub statement : Option CheckpointStatement
  pub integrated_at : Option Text

-- The receipt of one published statement (anchor/receipt.py).
pub record AnchorReceipt : Type 0 where
  pub backend : Text
  pub log_id : Text
  pub locator : Text
  pub statement : CheckpointStatement
  pub anchored_at : Text
  pub proof : Fields

-- A backend over the state of its log; `verify_receipt` gives its verdict and the reason.
pub record Anchor (L : Type 0) : Type 0 where
  pub name : Text
  pub publish : L → CheckpointStatement → KeyPair → L × Result AnchorReceipt
  pub witnesses : L → Text → Bytes → Result (List Witness)
  pub fingerprint : CheckpointStatement → Text
  pub verify_receipt : L → AnchorReceipt → Result (Bool × Text)

-- The text whose UTF-8 bytes `canonical` returns; nothing is excluded.
unfoldable pub statement_text : Orjson → CheckpointStatement → Text
statement_text json st = canonical_text json [] (obj (to_fields st))

module _ (c : Primitives) where
  abbrev pub row_identity : Row → Text
  row_identity row = b3 c (utf8 (row.entry_hash ++ codes "|" ++ row.signer_kid))

  -- `ledger_id`
  unfoldable pub ledger_id : Db → Option Text
  ledger_id db = elim db.ledger [ [] ↦ none | row ∷ rows ↦ some (row_identity row) ]

  verify_root : Option Bytes → Text → Bytes → Bool
  verify_root none signature public_key = false
  verify_root (some root_bytes) signature public_key = verify c root_bytes signature public_key

  verify_rest : Option Text → Text → Bytes → Bool
  unfolding verify_root
  verify_rest none signature public_key = false
  verify_rest (some rest) signature public_key = verify_root (fromhex rest) signature public_key

  -- `CheckpointStatement.verify_signature`
  unfoldable pub verify_signature : CheckpointStatement → Bytes → Bool
  unfolding verify_rest
  verify_signature st public_key =
      verify_rest (strip_prefix hash_prefix st.root) st.checkpoint_signature public_key

  module _ (json : Orjson) where
    unfoldable pub canonical : CheckpointStatement → Bytes
    canonical st = utf8 (statement_text json st)

    unfoldable pub digest : CheckpointStatement → Text
    digest st = b3 c (canonical st)

  -- `NoOpAnchor`
  abbrev pub no_op_anchor : Orjson → Anchor (Unit {0})
  no_op_anchor json = record {
    name = codes "none";
    publish = λ log st signer. (log, err anchor_error);
    witnesses = λ log identity public_key. ok [];
    fingerprint = digest json;
    verify_receipt = λ log receipt. ok (false, codes "the no-op anchor issues no receipts");
  }

module _ (json : Orjson) (casts : Casts) where
  -- The fields by which `from_canonical` builds a statement; `none` for a missing key or a value
  -- that is no number.
  abbrev pub cast_text : Option Json → Option Text
  cast_text none = none
  cast_text (some v) = some (casts.to_str v)

  abbrev pub cast_int : Option Json → Option ℕ
  cast_int none = none
  cast_int (some v) = casts.to_int v

  abbrev pub statement_of_parts :
      Option Text
      → Option Text
      → Option ℕ
      → Option Text
      → Option Text
      → Option Text
      → Result CheckpointStatement
  statement_of_parts (some id) (some kid) (some n) (some root) (some sig) (some created) =
      ok (record {
        ledger_id = id;
        signer_kid = kid;
        leaf_count = n;
        root = root;
        checkpoint_signature = sig;
        created_at = created;
      })
  statement_of_parts _ _ _ _ _ _ = err anchor_error

  abbrev pub is_statement_type : Option Json → Bool
  is_statement_type (some (str t)) = t == anchor_statement_type
  is_statement_type _ = false

  unfoldable pub statement_of : Option Json → Result CheckpointStatement
  statement_of (some (obj fs)) =
      if is_statement_type (get_field (codes "type") fs)
      then statement_of_parts (cast_text (get_field (codes "ledger_id") fs))
          (cast_text (get_field (codes "signer_kid") fs))
          (cast_int (get_field (codes "leaf_count") fs)) (cast_text (get_field (codes "root") fs))
          (cast_text (get_field (codes "checkpoint_signature") fs))
          (cast_text (get_field (codes "created_at") fs))
      else err anchor_error
  statement_of _ = err anchor_error

  -- `from_canonical`, on the text that the bytes decode to.
  unfoldable pub from_canonical : Text → Result CheckpointStatement
  from_canonical raw = statement_of (json.loads raw)
