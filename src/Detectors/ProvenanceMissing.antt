-- ===== src/Detectors/ProvenanceMissing.antt =====
-- src/memory_blackbox/detectors/provenance_missing.py.
use memory_blackbox.Prelude.{
  Bool, true, false, List, [], ◌∷◌, Option, none, some, Text, codes, if◌then◌else◌, Result, ok,
}
use memory_blackbox.Model.Json.{str}
use memory_blackbox.Model.Dump.{fields}
use memory_blackbox.Model.Records.{
  SourceType, user_input, tool_output, document_ingest, rag_retrieval, web_fetch, file_read,
  agent_self, inter_agent, system_seed, source_type_value, trust_level_value, high, info,
  ProvenanceRecord,
}
use memory_blackbox.Model.Findings.{Finding, DetectorContext}

-- `_EXTERNAL`
unfoldable pub is_external : SourceType → Bool
is_external document_ingest = true
is_external web_fetch = true
is_external file_read = true
is_external rag_retrieval = true
is_external tool_output = true
is_external inter_agent = true
is_external user_input = false
is_external agent_self = false
is_external system_seed = false

abbrev pub missing_origin : ProvenanceRecord → Finding
missing_origin r = record {
  detector_name = codes "provenance_missing";
  severity = if is_external r.source.source_type then high else info;
  record_id = some r.record_id;
  message = codes "write has no traceable origin (missing source locator)";
  evidence = fields (
      (codes "source_type", str (source_type_value r.source.source_type))
      ∷ (codes "trust_level", str (trust_level_value r.source.trust_level))
      ∷ []);
}

-- An empty locator is as false as `None`.
abbrev pub findings_for : ProvenanceRecord → Option Text → List Finding
findings_for r none = missing_origin r ∷ []
findings_for r (some []) = missing_origin r ∷ []
findings_for r (some (ch ∷ locator)) = []

-- `inspect`; the detector keeps no state.
unfoldable pub inspect :
    Unit {0} → ProvenanceRecord → Text → DetectorContext → (Unit {0}) × Result (List Finding)
inspect d r content ctx = (tt, ok (findings_for r r.source.locator))
