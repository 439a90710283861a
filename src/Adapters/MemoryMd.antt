-- ===== src/Adapters/MemoryMd.antt =====
-- src/memory_blackbox/adapters/memory_md.py, with `last_write_hash` of
-- src/memory_blackbox/ledger/store.py. The files are a function from paths to their bytes, and
-- `read_text` of `pathlib` is a parameter; the watched paths are given as texts.
use memory_blackbox.Prelude.{
  ℕ, Bool, false, ◌&&◌, List, [], ◌∷◌, ◌++◌, Option, none, some, Text, Bytes, codes, ◌==◌, length,
  ltb, if◌then◌else◌, Result, ok, err, json_error,
}
use memory_blackbox.Codec.Utf8.{utf8}
use memory_blackbox.Crypto.{Primitives}
use memory_blackbox.Crypto.Hashing.{b3}
use memory_blackbox.Model.Json.{Json, Orjson, end, get}
use memory_blackbox.Model.Records.{
  Source, LedgerRecord, file_read, untrusted, procedural, write, kind_value,
}
use memory_blackbox.Storage.{Row}
use memory_blackbox.Ledger.Store.{LedgerStore}
use memory_blackbox.Anchor.FileWitness.{text_of}
use memory_blackbox.Capture.Engine.{MemoryBlackbox, WriteRequest, Times, Inspect, record_write}

-- The snapshots, newest first.
abbrev pub Snapshots : Type 0
Snapshots = List (Text × Text)

-- `self._snapshots.get(path)`
unfoldable pub snapshot_of : Text → Snapshots → Option Text
snapshot_of path [] = none
snapshot_of path ((p, digest) ∷ snapshots) =
    let rest = snapshot_of path snapshots in if p == path then some digest else rest

pub record MemoryMdAdapter (D : Type 0) : Type 0 where
  pub blackbox : MemoryBlackbox D
  pub paths : List Text
  pub namespace : Text
  pub snapshots : Snapshots

-- The files that exist.
abbrev pub Files : Type 0
Files = Text → Option Bytes

-- The bit pattern of 0.5.
abbrev pub one_half : ℕ
one_half = 4602678819172646912

unfoldable pub file_source : Text → Text → Source
file_source path now = record {
  source_id = path;
  source_type = file_read;
  locator = some path;
  trust_level = untrusted;
  trust_score = one_half;
  first_seen = now;
  metadata = end;
}

abbrev pub file_write : Text → Text → Text → Text → WriteRequest
file_write namespace path content now = record {
  content = content;
  source = file_source path now;
  namespace = namespace;
  memory_id = some path;
  memory_type = procedural;
  parents = [];
  caused_by_retrieval = [];
}

abbrev pub is_some_text : Text → Option Text → Bool
is_some_text t none = false
is_some_text t (some s) = s == t

-- `last_write_hash`: the row that the query finds, from the newest on, as its parsed payload.
module _ (json : Orjson) where
  abbrev pub matching : Text → Option Json → Result (Option Json)
  matching memory_id none = err json_error
  matching memory_id (some value) = ok (
      if is_some_text memory_id (text_of (get (codes "memory_id") value)) then some value else none)

  abbrev pub match_row : Text → Text → Row → Result (Option Json)
  match_row namespace memory_id row =
      let found = matching memory_id (json.loads row.payload_json) in
      if row.kind == kind_value write && row.namespace == namespace then found else ok none

  abbrev pub or_older : Result (Option Json) → Result (Option Json) → Result (Option Json)
  or_older (ok none) older = older
  or_older newer older = newer

  -- The rows stand from the oldest on.
  unfoldable pub newest_write : Text → Text → List Row → Result (Option Json)
  newest_write namespace memory_id [] = ok none
  newest_write namespace memory_id (row ∷ rows) =
      or_older (newest_write namespace memory_id rows) (match_row namespace memory_id row)

  abbrev pub content_hash_of : Result (Option Json) → Result (Option Text)
  content_hash_of (ok none) = ok none
  content_hash_of (ok (some value)) = ok (text_of (get (codes "content_hash") value))
  content_hash_of (err why) = err why

  unfoldable pub last_write_hash : LedgerStore → Text → Text → Result (Option Text)
  last_write_hash s namespace memory_id =
      content_hash_of (newest_write namespace memory_id s.ledger)

-- What a loop over the paths has done: the adapter, and the records or the exception.
abbrev pub Outcome : Type 0 → Type 0
Outcome D = MemoryMdAdapter D × Result (List LedgerRecord)

module _ {D : Type 0} where
  abbrev pub with_snapshot : MemoryMdAdapter D → Text → Text → MemoryMdAdapter D
  with_snapshot a path digest = record a { snapshots = (path, digest) ∷ a.snapshots }

  abbrev pub more_records : List LedgerRecord → Outcome D → Outcome D
  more_records rs (a, ok later) = (a, ok (rs ++ later))
  more_records rs (a, err why) = (a, err why)

  -- One path after the other; an exception ends the loop.
  abbrev pub then_paths : Outcome D → (MemoryMdAdapter D → Outcome D) → Outcome D
  then_paths (a, ok rs) later = more_records rs (later a)
  then_paths (a, err why) later = (a, err why)

  unfoldable pub over_paths :
      (MemoryMdAdapter D → Text → Outcome D) → MemoryMdAdapter D → List Text → Outcome D
  over_paths visit a [] = (a, ok [])
  over_paths visit a (path ∷ paths) = then_paths (visit a path) (λ a'. over_paths visit a' paths)

  abbrev pub written : MemoryMdAdapter D → MemoryBlackbox D × Result LedgerRecord → Outcome D
  written a (e, ok r) = (record a { blackbox = e }, ok (r ∷ []))
  written a (e, err why) = (record a { blackbox = e }, err why)

  module _ (c : Primitives) (json : Orjson) (inspect : Inspect D) (read_text : Bytes → Result Text)
      (files : Files) where
    -- `_record_if_changed` of one call; a write gets the id and the times that `fresh` gives its
    -- path.
    module _ (fresh : Text → Text × Times) where
      abbrev pub write_file : MemoryMdAdapter D → Text → Text → Text → Outcome D
      write_file a path content digest = written (with_snapshot a path digest) (
          record_write c json inspect a.blackbox
            (file_write a.namespace path content (fresh path).1.created) (fresh path).0
            (fresh path).1)

      abbrev pub compare : MemoryMdAdapter D → Text → Result Text → Outcome D
      compare a path (err why) = (a, err why)
      compare a path (ok content) =
          let digest = b3 c (utf8 content) in
          if is_some_text digest (snapshot_of path a.snapshots)
          then (a, ok [])
          else write_file a path content digest

      unfoldable pub record_if_changed : MemoryMdAdapter D → Text → Bytes → Outcome D
      record_if_changed a path bytes =
          let changed = compare a path (read_text bytes) in
          if ltb a.blackbox.max_content_bytes (length bytes) then (a, ok []) else changed

      abbrev pub scan_found : MemoryMdAdapter D → Text → Option Bytes → Outcome D
      scan_found a path none = (a, ok [])
      scan_found a path (some bytes) = record_if_changed a path bytes

      unfoldable pub scan_path : MemoryMdAdapter D → Text → Outcome D
      scan_path a path = scan_found a path (files path)

      unfoldable pub scan : MemoryMdAdapter D → Outcome D
      scan a = over_paths scan_path a a.paths

      abbrev pub known_or_recorded :
          MemoryMdAdapter D → Text → Bytes → Result (Option Text) → Outcome D
      known_or_recorded a path bytes (ok (some known)) = (with_snapshot a path known, ok [])
      known_or_recorded a path bytes (ok none) = record_if_changed a path bytes
      known_or_recorded a path bytes (err why) = (a, err why)

      abbrev pub baseline_found : MemoryMdAdapter D → Text → Option Bytes → Outcome D
      baseline_found a path none = (a, ok [])
      baseline_found a path (some bytes) =
          known_or_recorded a path bytes (last_write_hash json a.blackbox.ledger a.namespace path)

      unfoldable pub baseline_path : MemoryMdAdapter D → Text → Outcome D
      baseline_path a path = baseline_found a path (files path)

      unfoldable pub baseline : MemoryMdAdapter D → Outcome D
      baseline a = over_paths baseline_path a a.paths
