-- ===== src/Ledger/Chain.antt =====
-- src/memory_blackbox/ledger/chain.py
use memory_blackbox.Prelude.{
  ℕ, ◌+◌, Bool, true, false, not, List, [], ◌∷◌, ◌++◌, Option, none, some, Text, Bytes, ◌==◌,
  opt_eq, if◌then◌else◌,
}
use memory_blackbox.Codec.Utf8.{utf8}
use memory_blackbox.Crypto.{Primitives}
use memory_blackbox.Crypto.Hashing.{b3, b3_raw}
use memory_blackbox.Crypto.Signing.{verify}
use memory_blackbox.Storage.{Row, Db}

pub data DivergenceKind : Type 0 where
  edit gap forgery : DivergenceKind

pub record Divergence : Type 0 where
  pub seq : ℕ
  pub record_id : Text
  pub kind : DivergenceKind

pub record ChainReport : Type 0 where
  pub is_ok : Bool
  pub rows_checked : ℕ
  pub divergence : Option Divergence

-- `prev_hash.encode("utf-8") if prev_hash else b""`; the empty text is as false as `None`.
abbrev pub prev_bytes : Option Text → Bytes
prev_bytes none = []
prev_bytes (some h) = utf8 h

-- `_link_input`
unfoldable pub link_input : Text → Option Text → Bytes
link_input payload_json prev_hash = utf8 payload_json ++ prev_bytes prev_hash

module _ (c : Primitives) (public_key : Bytes) where
  -- The three checks of one row, in the order of the loop body.
  unfoldable pub check_row : Option Text → Row → Option DivergenceKind
  check_row prev_hash row =
      let link = link_input row.payload_json row.prev_hash in
      if not (b3 c link == row.entry_hash)
      then some edit
      else if not (opt_eq row.prev_hash prev_hash)
      then some gap
      else if not (verify c (b3_raw c link) row.signature public_key)
      then some forgery
      else none

  abbrev pub diverged : ℕ → Row → DivergenceKind → ChainReport
  diverged checked row kind = record {
    is_ok = false;
    rows_checked = checked;
    divergence = some (record { seq = row.seq; record_id = row.record_id; kind = kind });
  }

  -- The loop over the rows, with its variables `prev_hash` and `checked`.
  unfoldable pub check_rows : Option Text → ℕ → List Row → ChainReport
  check_rows prev_hash checked [] = record {
    is_ok = true;
    rows_checked = checked;
    divergence = none;
  }
  check_rows prev_hash checked (row ∷ rows) = elim (check_row prev_hash row) [
    | some kind ↦ diverged checked row kind
    | none ↦ check_rows (some row.entry_hash) (checked + 1) rows
  ]

  unfoldable pub verify_chain : Db → ChainReport
  verify_chain db = check_rows none 0 db.ledger
