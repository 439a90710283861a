-- ===== src/Detectors/WriteRate.antt =====
-- src/memory_blackbox/detectors/write_rate.py. Times and the window are in one unit, the clock's;
-- the rounding of their floats is not modelled. `window_value` is the window as evidence shows it.
pub mod Windows
pub mod Bursts
use memory_blackbox.Prelude.{
  ℕ, ◌-◌, Bool, true, false, ◌&&◌, List, [], ◌∷◌, ◌++◌, Option, none, some, Text, codes, ◌==◌, ltb,
  leb, length, if◌then◌else◌, Result, ok,
}
use memory_blackbox.Model.Json.{Json, int, str}
use memory_blackbox.Model.Dump.{fields}
use memory_blackbox.Model.Records.{Source, ProvenanceRecord, medium}
use memory_blackbox.Model.Findings.{Finding, DetectorContext}

-- A namespace and a source.
abbrev pub Key : Type 0
Key = Text × Text

abbrev pub History : Type 0
History = List (Key × List ℕ)

-- `WriteRateDetector`; a key that is missing from `_history` has the empty window.
pub record WriteRateDetector : Type 0 where
  pub window_seconds : ℕ
  pub window_value : Json
  pub max_writes : ℕ
  pub history : History

abbrev pub same_key : Key → Key → Bool
same_key (n, s) (n', s') = n == n' && s == s'

unfoldable pub window_of : Key → History → List ℕ
window_of key [] = []
window_of key ((k, window) ∷ history) =
    let rest = window_of key history in if same_key k key then window else rest

unfoldable pub set_window : Key → List ℕ → History → History
set_window key window [] = (key, window) ∷ []
set_window key window ((k, old) ∷ history) =
    let rest = set_window key window history in
    if same_key k key then (k, window) ∷ history else (k, old) ∷ rest

-- The loop that drops the times from the front.
unfoldable pub expire : ℕ → ℕ → List ℕ → List ℕ
expire now seconds [] = []
expire now seconds (t ∷ window) =
    let rest = expire now seconds window in if ltb seconds (now - t) then rest else t ∷ window

abbrev pub key_of : ProvenanceRecord → DetectorContext → Key
key_of r ctx = (ctx.namespace, r.source.source_id)

-- The finding of a burst of so many writes.
abbrev pub burst : WriteRateDetector → ProvenanceRecord → ℕ → Finding
burst d r writes = record {
  detector_name = codes "write_rate";
  severity = medium;
  record_id = some r.record_id;
  message = codes "write-rate burst from a single source";
  evidence = fields (
      (codes "source_id", str r.source.source_id)
      ∷ (codes "writes_in_window", int writes)
      ∷ (codes "window_seconds", d.window_value)
      ∷ []);
}

-- The window of a key after a write at the context's time.
abbrev pub next_window : WriteRateDetector → Key → ℕ → List ℕ
next_window d key now = expire now d.window_seconds (window_of key d.history ++ now ∷ [])

-- `inspect`
unfoldable pub inspect :
    WriteRateDetector
    → ProvenanceRecord
    → Text
    → DetectorContext
    → WriteRateDetector × Result (List Finding)
inspect d r content ctx =
    let window = next_window d (key_of r ctx) ctx.now in
    (
      record d { history = set_window (key_of r ctx) window d.history },
      ok (if leb (length window) d.max_writes then [] else burst d r (length window) ∷ []),
    )
