-- ===== src/Model/Dump.antt =====
-- `model_dump(mode="json")` of each record: its fields in the order of the class, those of
-- `LedgerSet` first.
use memory_blackbox.Prelude.{List, [], ◌∷◌, Text, codes}
use memory_blackbox.Model.Json.{
  Json, Fields, str, arr, obj, end, field, float, texts, floats, opt_text,
}
use memory_blackbox.Model.Records.{
  Source, ProvenanceRecord, RetrievalRecord, ActionRecord, RollbackEvent, LedgerSet, LedgerRecord,
  write_record, retrieval_record, action_record, rollback_record, source_type_value,
  trust_level_value, memory_type_value, record_state_value, kind_value, write, retrieval, action,
  rollback,
}

unfoldable pub dump_ledger_set : LedgerSet → Fields → Fields
dump_ledger_set s rest = field (codes "entry_hash") (opt_text s.entry_hash) (
    field (codes "prev_hash") (opt_text s.prev_hash) (
      field (codes "signature") (opt_text s.signature) (
        field (codes "signer_kid") (opt_text s.signer_kid)
          (field (codes "merkle_leaf") (opt_text s.merkle_leaf) rest))))

-- A record's own fields, in order.
abbrev pub fields : List (Text × Json) → Fields
fields [] = end
fields ((k, v) ∷ fs) = field k v (fields fs)

unfoldable pub dump_source : Source → Json
unfolding source_type_value trust_level_value
dump_source s = obj (
    fields (
      (codes "source_id", str s.source_id)
      ∷ (codes "source_type", str (source_type_value s.source_type))
      ∷ (codes "locator", opt_text s.locator)
      ∷ (codes "trust_level", str (trust_level_value s.trust_level))
      ∷ (codes "trust_score", float s.trust_score)
      ∷ (codes "first_seen", str s.first_seen)
      ∷ (codes "metadata", obj s.metadata)
      ∷ []))

unfoldable pub dump_write : ProvenanceRecord → Fields
dump_write r = fields (
    (codes "kind", str (kind_value write))
    ∷ (codes "record_id", str r.record_id)
    ∷ (codes "namespace", str r.namespace)
    ∷ (codes "memory_id", opt_text r.memory_id)
    ∷ (codes "content", str r.content)
    ∷ (codes "content_hash", str r.content_hash)
    ∷ (codes "memory_type", str (memory_type_value r.memory_type))
    ∷ (codes "source", dump_source r.source)
    ∷ (codes "derived_from", arr (texts r.derived_from))
    ∷ (codes "caused_by_retrieval", arr (texts r.caused_by_retrieval))
    ∷ (codes "state", str (record_state_value r.state))
    ∷ (codes "created_at", str r.created_at)
    ∷ [])

unfoldable pub dump_retrieval : RetrievalRecord → Fields
dump_retrieval r = fields (
    (codes "kind", str (kind_value retrieval))
    ∷ (codes "retrieval_id", str r.retrieval_id)
    ∷ (codes "namespace", str r.namespace)
    ∷ (codes "query", str r.query)
    ∷ (codes "query_hash", str r.query_hash)
    ∷ (codes "returned", arr (texts r.returned))
    ∷ (codes "scores", arr (floats r.scores))
    ∷ (codes "session_id", opt_text r.session_id)
    ∷ (codes "turn_id", opt_text r.turn_id)
    ∷ (codes "created_at", str r.created_at)
    ∷ [])

unfoldable pub dump_action : ActionRecord → Fields
dump_action r = fields (
    (codes "kind", str (kind_value action))
    ∷ (codes "action_id", str r.action_id)
    ∷ (codes "namespace", str r.namespace)
    ∷ (codes "action_kind", str r.action_kind)
    ∷ (codes "summary", str r.summary)
    ∷ (codes "context_retrievals", arr (texts r.context_retrievals))
    ∷ (codes "session_id", opt_text r.session_id)
    ∷ (codes "turn_id", opt_text r.turn_id)
    ∷ (codes "created_at", str r.created_at)
    ∷ [])

unfoldable pub dump_rollback : RollbackEvent → Fields
dump_rollback r = fields (
    (codes "kind", str (kind_value rollback))
    ∷ (codes "rollback_id", str r.rollback_id)
    ∷ (codes "namespace", str r.namespace)
    ∷ (codes "reason", str r.reason)
    ∷ (codes "to", str r.to)
    ∷ (codes "scope", opt_text r.scope)
    ∷ (codes "affected", arr (texts r.affected))
    ∷ (codes "applied_at", str r.applied_at)
    ∷ [])

unfoldable pub model_dump : LedgerRecord → Json
unfolding dump_write dump_retrieval dump_action dump_rollback dump_ledger_set
model_dump (write_record r) = obj (dump_ledger_set r.ledger_set (dump_write r))
model_dump (retrieval_record r) = obj (dump_ledger_set r.ledger_set (dump_retrieval r))
model_dump (action_record r) = obj (dump_ledger_set r.ledger_set (dump_action r))
model_dump (rollback_record r) = obj (dump_ledger_set r.ledger_set (dump_rollback r))
