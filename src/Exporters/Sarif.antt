-- ===== src/Exporters/Sarif.antt =====
-- src/memory_blackbox/exporters/sarif.py: findings as a SARIF 2.1.0 document.
use memory_blackbox.Prelude.{List, [], ◌∷◌, map, Text, codes, sorted, to_set}
use memory_blackbox.Model.Json.{Json, Items, Fields, str, arr, obj, nil, cons, end, field, opt_text}
use memory_blackbox.Model.Dump.{fields}
use memory_blackbox.Model.Records.{Severity, info, low, medium, high, critical}
use memory_blackbox.Model.Findings.{Finding}
use memory_blackbox.Capture.Proxies.{set_field}

unfoldable pub severity_value : Severity → Text
severity_value info = codes "INFO"
severity_value low = codes "LOW"
severity_value medium = codes "MEDIUM"
severity_value high = codes "HIGH"
severity_value critical = codes "CRITICAL"

-- `_LEVEL`
unfoldable pub level_of : Severity → Text
level_of info = codes "note"
level_of low = codes "note"
level_of medium = codes "warning"
level_of high = codes "error"
level_of critical = codes "error"

-- `{..., **evidence}`
abbrev pub with_evidence : Fields → Fields → Fields
with_evidence base end = base
with_evidence base (field key value evidence) = with_evidence (set_field key value base) evidence

abbrev pub items : List Json → Items
items [] = nil
items (v ∷ vs) = cons v (items vs)

unfoldable pub rule_ids : List Finding → List Text
rule_ids findings = sorted (to_set (map (λ (f : Finding). f.detector_name) findings))

unfoldable pub rule_of : Text → Json
rule_of rule_id = obj (fields ((codes "id", str rule_id) ∷ (codes "name", str rule_id) ∷ []))

unfoldable pub result_of : Finding → Json
result_of f = obj (
    fields (
      (codes "ruleId", str f.detector_name)
      ∷ (codes "level", str (level_of f.severity))
      ∷ (codes "message", obj (fields ((codes "text", str f.message) ∷ [])))
      ∷ (
        codes "properties",
        obj (
            with_evidence
              (fields (
                (codes "record_id", opt_text f.record_id)
                ∷ (codes "severity", str (severity_value f.severity))
                ∷ []))
              f.evidence),
      )
      ∷ []))

unfoldable pub findings_to_sarif : List Finding → Text → Json
findings_to_sarif findings tool_version = obj (
    fields (
      (codes "$schema", str (codes "https://json.schemastore.org/sarif-2.1.0.json"))
      ∷ (codes "version", str (codes "2.1.0"))
      ∷ (
        codes "runs",
        arr (
            cons
              (obj (
                fields (
                  (
                    codes "tool",
                    obj (
                        fields (
                          (
                            codes "driver",
                            obj (
                                fields (
                                  (codes "name", str (codes "memory-blackbox"))
                                  ∷ (codes "version", str tool_version)
                                  ∷ (
                                    codes "informationUri",
                                    str (codes "https://github.com/lavkumarv/memory-blackbox"),
                                  )
                                  ∷ (codes "rules", arr (items (map rule_of (rule_ids findings))))
                                  ∷ [])),
                          )
                          ∷ [])),
                  )
                  ∷ (codes "results", arr (items (map result_of findings)))
                  ∷ [])))
              nil),
      )
      ∷ []))
