-- ===== src/Tests/Detectors.antt =====
-- Runs of the detectors on a few writes.
use memory_blackbox.Prelude.{ℕ, ◌≡◌, [], ◌∷◌, ◌++◌, none, codes, leb, if◌then◌else◌, ok, arith}
use memory_blackbox.Model.Json.{int}
use memory_blackbox.Model.Records.{ProvenanceRecord, semantic}
use memory_blackbox.Model.Findings.{DetectorContext}
use memory_blackbox.Capture.Engine.{provenance_of}
use memory_blackbox.Detectors.WriteRate as Rate
use memory_blackbox.Detectors.WriteRate.{key_of, burst}
use memory_blackbox.Detectors.WriteRate.Windows.{recent}
use memory_blackbox.Detectors.WriteRate.Bursts.{
  Call, IsClock, IsBefore, new, after, times_of, inspect-recent,
}
use memory_blackbox.Tests.Ledgers.{web}

abbrev written : ProvenanceRecord
written =
    provenance_of
      (record {
        content = codes "a";
        source = web;
        namespace = codes "default";
        memory_id = none;
        memory_type = semantic;
        parents = [];
        caused_by_retrieval = [];
      })
      (codes "w1") (codes "t")

abbrev at : ℕ → DetectorContext
at n = record { namespace = codes "default"; now = n }

abbrev call : ℕ → Call
call n = record { written = written; content = codes "a"; ctx = at n }

calls-IsClock : IsClock (call 70 ∷ call 5 ∷ [])
calls-IsClock = ((omega arith, tt), (tt, tt))

calls-IsBefore : IsBefore 71 (call 70 ∷ call 5 ∷ [])
calls-IsBefore = (omega arith, (omega arith, tt))

inspect-recent_example :
    (Rate.inspect (after 60 (int 60) 1 (call 70 ∷ call 5 ∷ [])) written (codes "a") (at 71)).1
    ≡ ok (
        if leb
          (recent 71 60 (times_of (key_of written (at 71)) (call 70 ∷ call 5 ∷ []) ++ 71 ∷ []))
          1
        then []
        else burst
            (new 60 (int 60) 1)
            written
            (recent 71 60 (times_of (key_of written (at 71)) (call 70 ∷ call 5 ∷ []) ++ 71 ∷ []))
          ∷ [])
inspect-recent_example =
    inspect-recent 60 (int 60) 1 (call 70 ∷ call 5 ∷ []) written (codes "a") (at 71) calls-IsClock
      calls-IsBefore
