-- ===== src/Model/Findings.antt =====
-- The model `Finding` of src/memory_blackbox/model/records.py and the context of
-- src/memory_blackbox/detectors/base.py: what a detector is given and what it returns.
use memory_blackbox.Prelude.{ℕ, Option, Text}
use memory_blackbox.Model.Json.{Fields}
use memory_blackbox.Model.Records.{Severity}

pub record Finding : Type 0 where
  pub detector_name : Text
  pub severity : Severity
  pub record_id : Option Text
  pub message : Text
  pub evidence : Fields

-- `DetectorContext`; `now` is the clock in the unit of the detectors' windows.
pub record DetectorContext : Type 0 where
  pub namespace : Text
  pub now : ℕ
