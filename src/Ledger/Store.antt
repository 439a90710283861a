-- ===== src/Ledger/Store.antt =====
-- src/memory_blackbox/ledger/store.py: the single writer of the ledger. A method returns the store
-- that it leaves behind; an exception leaves the store as it was.
use memory_blackbox.Prelude.{
  ℕ, ◌+◌, ◌-◌, ◌%◌, Bool, true, false, ◌&&◌, ◌||◌, List, [], ◌∷◌, ◌++◌, map, Option, none, some,
  Text, Bytes, codes, ◌==◌, length, last?, ltb, nat_eq, if◌then◌else◌, Result, ok, err, value_error,
  integrity_error, json_error, ◌>>=◌,
}
use memory_blackbox.Codec.Hex.{hex}
use memory_blackbox.Codec.Utf8.{utf8}
use memory_blackbox.Crypto.{Primitives}
use memory_blackbox.Crypto.Hashing.{b3, b3_raw, hash_prefix}
use memory_blackbox.Crypto.Keys.{KeyPair, sign_with}
use memory_blackbox.Merkle.{compute_root}
use memory_blackbox.Model.Json.{Json, Orjson}
use memory_blackbox.Model.Canonical.{canonical_text, ledger_set_fields}
use memory_blackbox.Model.Records.{
  LedgerRecord, kind_of, kind_value, namespace_of, id_of, set_ledger, ledger_set_of,
}
use memory_blackbox.Model.Dump.{model_dump}
use memory_blackbox.Storage.{Row, CheckpointRow, Db}
use memory_blackbox.Ledger.Chain.{prev_bytes}

pub record LedgerStore : Type 0 where
  pub db : Db
  pub open db use *
  pub signer : KeyPair
  pub checkpoint_every : ℕ
  pub leaves : List Bytes

-- The bytes of an entry hash, as the tree takes them.
abbrev pub leaf_of : Row → Bytes
leaf_of row = utf8 row.entry_hash

-- `_SYNCHRONOUS_MODES`
unfoldable pub is_synchronous_mode : Text → Bool
is_synchronous_mode m =
    m == codes "OFF" || m == codes "NORMAL" || m == codes "FULL" || m == codes "EXTRA"

-- `str.upper` on the ASCII letters of a mode's name.
unfoldable pub upper : Text → Text
upper [] = []
upper (c ∷ s) = (if ltb 96 c && ltb c 123 then c - 32 else c) ∷ upper s

-- `LedgerStore(path, signer, ...)` over the database at the path.
unfoldable pub open_store : Db → KeyPair → ℕ → Text → Result LedgerStore
open_store db signer checkpoint_every synchronous =
    if is_synchronous_mode (upper synchronous)
    then ok (record {
      db = db;
      signer = signer;
      checkpoint_every = checkpoint_every;
      leaves = map leaf_of db.ledger;
    })
    else err value_error

abbrev pub entry_hash_of : Option Row → Option Text
entry_hash_of none = none
entry_hash_of (some row) = some row.entry_hash

unfoldable pub last_entry_hash : LedgerStore → Option Text
last_entry_hash s = entry_hash_of (last? s.ledger)

unfoldable pub count : LedgerStore → ℕ
count s = length s.ledger

abbrev pub find_row : Text → List Row → Option Row
find_row id [] = none
find_row id (row ∷ rows) = if row.record_id == id then some row else find_row id rows

-- `get`: the row with this record id, which is unique.
unfoldable pub get : LedgerStore → Text → Option Row
get s id = find_row id s.ledger

-- The UNIQUE constraint on `record_id`.
abbrev pub is_taken : Option Row → Bool
is_taken none = false
is_taken (some row) = true

-- The store after the INSERT and the update of the leaf cache.
unfoldable pub insert_row : LedgerStore → Row → LedgerStore
insert_row s row = record s {
  db = record s.db { ledger = s.ledger ++ row ∷ []; ledger_seq = s.ledger_seq + 1 };
  leaves = s.leaves ++ leaf_of row ∷ [];
}

-- The ledger-set fields that `append` writes back into the record.
unfoldable pub stamp : Row → LedgerRecord → LedgerRecord
stamp row r =
    set_ledger
      (record (ledger_set_of r) {
        entry_hash = some row.entry_hash;
        prev_hash = row.prev_hash;
        signature = some row.signature;
        signer_kid = some row.signer_kid;
      })
      r

-- `self._checkpoint_every > 0 and len(self._leaves) % self._checkpoint_every == 0`
unfoldable pub checkpoint_due : LedgerStore → Bool
checkpoint_due s = ltb 0 s.checkpoint_every && nat_eq (length s.leaves % s.checkpoint_every) 0

module _ (c : Primitives) where
  unfoldable pub checkpoint : LedgerStore → Text → LedgerStore × Text
  checkpoint s now =
      let root = compute_root c s.leaves in
      let root_hex = hash_prefix ++ hex root in
      let row : CheckpointRow = record {
        checkpoint_id = s.checkpoint_seq + 1;
        leaf_count = length s.leaves;
        root = root_hex;
        signature = sign_with c s.signer root;
        signer_kid = s.signer.kid;
        created_at = now;
      } in
      (
        record s {
          db = record s.db {
            checkpoints = s.checkpoints ++ row ∷ [];
            checkpoint_seq = s.checkpoint_seq + 1;
          };
        },
        root_hex,
      )

  unfoldable pub maybe_checkpoint : LedgerStore → Text → LedgerStore
  maybe_checkpoint s now = if checkpoint_due s then (checkpoint s now).0 else s

  module _ (json : Orjson) where
    -- The row that `append` inserts.
    unfoldable pub row_for : LedgerStore → LedgerRecord → Text → Row
    row_for s r now =
        let payload = canonical_text json ledger_set_fields (model_dump r) in
        let prev_hash = last_entry_hash s in
        let link = utf8 payload ++ prev_bytes prev_hash in
        record {
          seq = s.ledger_seq + 1;
          record_id = id_of r;
          kind = kind_value (kind_of r);
          namespace = namespace_of r;
          payload_json = payload;
          entry_hash = b3 c link;
          prev_hash = prev_hash;
          signature = sign_with c s.signer (b3_raw c link);
          signer_kid = s.signer.kid;
          created_at = now;
        }

    -- `append`; `now` and `checkpoint_now` are the two readings of the clock.
    unfoldable pub append :
        LedgerStore → LedgerRecord → Text → Text → Result (LedgerStore × LedgerRecord)
    append s r now checkpoint_now =
        let row = row_for s r now in
        if is_taken (get s (id_of r))
        then err integrity_error
        else ok (maybe_checkpoint (insert_row s row) checkpoint_now, stamp row r)

module _ (json : Orjson) where
  abbrev pub parse_row : Option Row → Result (Option Json)
  parse_row none = ok none
  parse_row (some row) = elim (json.loads row.payload_json) [
    | none ↦ err json_error
    | some value ↦ ok (some value)
  ]

  -- `payload(record_id)`
  unfoldable pub payload : LedgerStore → Text → Result (Option Json)
  payload s id = parse_row (get s id)

  -- `iter_payloads()`, all rows read to the end.
  abbrev pub parse_rows : List Row → Result (List (Row × Json))
  parse_rows [] = ok []
  parse_rows (row ∷ rows) = elim (json.loads row.payload_json) [
    | none ↦ err json_error
    | some value ↦ (do rest ← parse_rows rows; ok ((row, value) ∷ rest))
  ]

  unfoldable pub iter_payloads : LedgerStore → Result (List (Row × Json))
  iter_payloads s = parse_rows s.ledger
