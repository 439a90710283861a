-- ===== src/Tests/Watcher.antt =====
-- Runs of the watcher of memory files.
use memory_blackbox.Prelude.{
  ℕ, ◌+◌, ◌≤◌, ◌≡◌, ◌≢◌, ◌↔◌, refl, true, false, List, [], ◌∷◌, ◌++◌, map, Option, none, some, Text,
  Bytes, codes, length, Result, Error, ok, err, value_error, In, ◌==◌, if◌then◌else◌, arith,
}
use memory_blackbox.Codec.Utf8.{utf8}
use memory_blackbox.Crypto.Toy.{toy}
use memory_blackbox.Crypto.Hashing.{b3}
use memory_blackbox.Model.Json.{Json, str, obj, end, field}
use memory_blackbox.Model.Records.{LedgerRecord, write_record, unset, active, procedural}
use memory_blackbox.Storage.{Row, empty_db}
use memory_blackbox.Ledger.Store.{LedgerStore, iter_payloads, is_taken, get as get_row}
use memory_blackbox.Capture.Engine.{MemoryBlackbox, Times, Inspect, run_detectors}
use memory_blackbox.Capture.Effect.{Recorded}
use memory_blackbox.Capture.Writes.{inspected, write_links}
use memory_blackbox.Adapters.MemoryMd.{
  snapshot_of, MemoryMdAdapter, Files, Outcome, file_write, scan, baseline, last_write_hash,
}
use memory_blackbox.Adapters.Watching.{scan-again}
use memory_blackbox.Adapters.Offline.{baseline-scan, scan-refused}
use memory_blackbox.Tests.Codec.{toy_json}
use memory_blackbox.Tests.Ledgers.{new_store}

abbrev memory : Text
memory = codes "M"

-- A row of a write of the memory file with the hash "h".
abbrev payload : Json
payload = obj (
    field (codes "content_hash") (str (codes "h"))
      (field (codes "kind") (str (codes "write")) (field (codes "memory_id") (str memory) end)))

abbrev row : Row
row = record {
  seq = 1;
  record_id = codes "w1";
  kind = codes "write";
  namespace = codes "md";
  payload_json = toy_json.dumps payload;
  entry_hash = [];
  prev_hash = none;
  signature = [];
  signer_kid = [];
  created_at = codes "t1";
}

abbrev store : LedgerStore
store = record new_store { db = record empty_db { ledger = row ∷ []; ledger_seq = 1 } }

abbrev counting : Inspect ℕ
counting n r content ctx = (n + 1, ok [])

abbrev refusing : Inspect ℕ
refusing n r content ctx = (n, err value_error)

abbrev adapter : MemoryMdAdapter ℕ
adapter = record {
  blackbox = record { ledger = store; detectors = 0 ∷ []; max_content_bytes = 4; findings = [] };
  paths = memory ∷ [];
  namespace = codes "md";
  snapshots = [];
}

abbrev files : Files
files path = some (codes "b")

abbrev read_text : Bytes → Result Text
read_text bytes = ok bytes

abbrev times : Times
times = record {
  created = codes "t4";
  inspected = 4;
  appended = codes "t5";
  checkpointed = codes "t6";
  linked = codes "t7";
}

abbrev fresh : Text → Text × Times
fresh path = (codes "w2", times)

abbrev later : Text → Text × Times
later path = (codes "w3", times)

b_fits : length (utf8 (codes "b")) ≤ 4
unfolding utf8
b_fits = omega arith

recorded : last_write_hash toy_json store (codes "md") memory ≡ ok (some (codes "h"))
unfolding last_write_hash memory_blackbox.Adapters.MemoryMd.newest_write ◌==◌
    memory_blackbox.Model.Records.kind_value memory_blackbox.Tests.Codec.decode
    memory_blackbox.Tests.Codec.encode memory_blackbox.Model.Json.sort_keys
    memory_blackbox.Model.Json.insert_field memory_blackbox.Prelude.text_leb
    memory_blackbox.Model.Json.get memory_blackbox.Model.Json.get_field
recorded = refl

edited : codes "h" ≢ b3 toy (utf8 (codes "b"))
unfolding b3
edited e = cc

passed :
    inspected toy toy_json counting adapter.blackbox
      (file_write (codes "md") memory (codes "b") (codes "t4"))
      (codes "w2")
      times
    ≡ (1 ∷ [], [], ok tt)
unfolding run_detectors
passed = refl

w2_new : is_taken (get_row store (codes "w2")) ≡ false
unfolding get_row memory_blackbox.Ledger.Store.maybe_checkpoint
    memory_blackbox.Ledger.Store.checkpoint_due memory_blackbox.Ledger.Store.insert_row
    memory_blackbox.Ledger.Store.checkpoint ◌==◌ memory_blackbox.Ledger.Store.row_for
    memory_blackbox.Model.Records.id_of
w2_new = refl

-- What is known of a restart behind an edit.
abbrev Restarted : Type 0
Restarted =
    (mid b : MemoryMdAdapter ℕ) × (r : LedgerRecord) × (baseline toy toy_json counting read_text
        files later adapter
      ≡ (mid, ok []))
    × (mid.blackbox ≡ adapter.blackbox)
    × (snapshot_of memory mid.snapshots ≡ some (codes "h"))
    × (scan toy toy_json counting read_text files fresh mid ≡ (b, ok (r ∷ [])))
    × (snapshot_of memory b.snapshots ≡ some (b3 toy (utf8 (codes "b"))))
    × Recorded (codes "w2")
        (write_links toy toy_json counting
          (file_write (codes "md") memory (codes "b") (codes "t4")))
        store b.blackbox.ledger

baseline-scan_example : Restarted
baseline-scan_example =
    baseline-scan toy toy_json counting read_text files adapter memory (codes "b") (codes "h")
      (codes "b") later fresh (1 ∷ []) [] refl refl refl (omega arith) b_fits recorded edited passed
      w2_new

restarted : Restarted
restarted =
    baseline-scan toy toy_json counting read_text files adapter memory (codes "b") (codes "h")
      (codes "b") later fresh (1 ∷ []) [] refl refl refl (omega arith) b_fits recorded edited passed
      w2_new

scan-again_example :
    scan toy toy_json counting read_text files later restarted.1 ≡ (restarted.1, ok [])
scan-again_example =
    scan-again toy toy_json counting read_text files restarted.0 restarted.1 (restarted.2 ∷ [])
      fresh later restarted.6

abbrev refused : Outcome ℕ
refused = scan toy toy_json refusing read_text files fresh adapter

scan_raises : refused ≡ (refused.0, err value_error)
unfolding scan memory_blackbox.Adapters.MemoryMd.over_paths
    memory_blackbox.Adapters.MemoryMd.scan_path memory_blackbox.Adapters.MemoryMd.record_if_changed
    memory_blackbox.Adapters.MemoryMd.snapshot_of memory_blackbox.Capture.Engine.record_write utf8
    memory_blackbox.Model.Records.enforce_content_hash ◌==◌ memory_blackbox.Capture.Engine.log_write
    run_detectors
scan_raises = refl

scan-refused_example :
    scan toy toy_json refusing read_text files later refused.0 ≡ (refused.0, ok [])
scan-refused_example =
    scan-refused toy toy_json refusing read_text files adapter refused.0 memory (codes "b")
      (codes "b") value_error fresh later refl refl refl scan_raises
