-- ===== src/Model/Records.antt =====
-- src/memory_blackbox/model/records.py: the enums and record models. A `datetime` is given by
-- the ISO text that JSON mode renders; ids and times come in where Python calls the factories.
use memory_blackbox.Prelude.{
  ℕ, List, [], Option, none, Text, codes, ◌==◌, if◌then◌else◌, Result, ok, err, value_error,
}
use memory_blackbox.Codec.Utf8.{utf8}
use memory_blackbox.Crypto.{Primitives}
use memory_blackbox.Crypto.Hashing.{b3}
use memory_blackbox.Model.Json.{Fields}

pub data SourceType : Type 0 where
  user_input tool_output document_ingest rag_retrieval web_fetch : SourceType
  file_read agent_self inter_agent system_seed : SourceType

unfoldable pub source_type_value : SourceType → Text
source_type_value user_input = codes "user_input"
source_type_value tool_output = codes "tool_output"
source_type_value document_ingest = codes "document_ingest"
source_type_value rag_retrieval = codes "rag_retrieval"
source_type_value web_fetch = codes "web_fetch"
source_type_value file_read = codes "file_read"
source_type_value agent_self = codes "agent_self"
source_type_value inter_agent = codes "inter_agent"
source_type_value system_seed = codes "system_seed"

pub data TrustLevel : Type 0 where
  system trusted semi_trusted untrusted quarantined : TrustLevel

unfoldable pub trust_level_value : TrustLevel → Text
trust_level_value system = codes "system"
trust_level_value trusted = codes "trusted"
trust_level_value semi_trusted = codes "semi_trusted"
trust_level_value untrusted = codes "untrusted"
trust_level_value quarantined = codes "quarantined"

pub data MemoryType : Type 0 where
  working episodic semantic procedural identity : MemoryType

unfoldable pub memory_type_value : MemoryType → Text
memory_type_value working = codes "working"
memory_type_value episodic = codes "episodic"
memory_type_value semantic = codes "semantic"
memory_type_value procedural = codes "procedural"
memory_type_value identity = codes "identity"

pub data RecordState : Type 0 where
  active state_quarantined redacted rolled_back expired : RecordState

unfoldable pub record_state_value : RecordState → Text
record_state_value active = codes "active"
record_state_value state_quarantined = codes "quarantined"
record_state_value redacted = codes "redacted"
record_state_value rolled_back = codes "rolled_back"
record_state_value expired = codes "expired"

pub data Kind : Type 0 where
  write retrieval action rollback : Kind

unfoldable pub kind_value : Kind → Text
kind_value write = codes "write"
kind_value retrieval = codes "retrieval"
kind_value action = codes "action"
kind_value rollback = codes "rollback"

pub data Severity : Type 0 where
  info low medium high critical : Severity

-- The fields that the ledger populates on append.
pub record LedgerSet : Type 0 where
  pub entry_hash : Option Text
  pub prev_hash : Option Text
  pub signature : Option Text
  pub signer_kid : Option Text
  pub merkle_leaf : Option Text

abbrev pub unset : LedgerSet
unset = record {
  entry_hash = none;
  prev_hash = none;
  signature = none;
  signer_kid = none;
  merkle_leaf = none;
}

pub record Source : Type 0 where
  pub source_id : Text
  pub source_type : SourceType
  pub locator : Option Text
  pub trust_level : TrustLevel
  pub trust_score : ℕ
  pub first_seen : Text
  pub metadata : Fields

pub record ProvenanceRecord : Type 0 where
  pub ledger_set : LedgerSet
  pub record_id : Text
  pub namespace : Text
  pub memory_id : Option Text
  pub content : Text
  pub content_hash : Text
  pub memory_type : MemoryType
  pub source : Source
  pub derived_from : List Text
  pub caused_by_retrieval : List Text
  pub state : RecordState
  pub created_at : Text

pub record RetrievalRecord : Type 0 where
  pub ledger_set : LedgerSet
  pub retrieval_id : Text
  pub namespace : Text
  pub query : Text
  pub query_hash : Text
  pub returned : List Text
  pub scores : List ℕ
  pub session_id : Option Text
  pub turn_id : Option Text
  pub created_at : Text

pub record ActionRecord : Type 0 where
  pub ledger_set : LedgerSet
  pub action_id : Text
  pub namespace : Text
  pub action_kind : Text
  pub summary : Text
  pub context_retrievals : List Text
  pub session_id : Option Text
  pub turn_id : Option Text
  pub created_at : Text

pub record RollbackEvent : Type 0 where
  pub ledger_set : LedgerSet
  pub rollback_id : Text
  pub namespace : Text
  pub reason : Text
  pub to : Text
  pub scope : Option Text
  pub affected : List Text
  pub applied_at : Text

pub data LedgerRecord : Type 0 where
  write_record : ProvenanceRecord → LedgerRecord
  retrieval_record : RetrievalRecord → LedgerRecord
  action_record : ActionRecord → LedgerRecord
  rollback_record : RollbackEvent → LedgerRecord

unfoldable pub kind_of : LedgerRecord → Kind
kind_of (write_record r) = write
kind_of (retrieval_record r) = retrieval
kind_of (action_record r) = action
kind_of (rollback_record r) = rollback

unfoldable pub namespace_of : LedgerRecord → Text
namespace_of (write_record r) = r.namespace
namespace_of (retrieval_record r) = r.namespace
namespace_of (action_record r) = r.namespace
namespace_of (rollback_record r) = r.namespace

-- `getattr(record, _ID_FIELD[kind])`
unfoldable pub id_of : LedgerRecord → Text
id_of (write_record r) = r.record_id
id_of (retrieval_record r) = r.retrieval_id
id_of (action_record r) = r.action_id
id_of (rollback_record r) = r.rollback_id

unfoldable pub set_ledger : LedgerSet → LedgerRecord → LedgerRecord
set_ledger s (write_record r) = write_record (record r { ledger_set = s })
set_ledger s (retrieval_record r) = retrieval_record (record r { ledger_set = s })
set_ledger s (action_record r) = action_record (record r { ledger_set = s })
set_ledger s (rollback_record r) = rollback_record (record r { ledger_set = s })

unfoldable pub ledger_set_of : LedgerRecord → LedgerSet
ledger_set_of (write_record r) = r.ledger_set
ledger_set_of (retrieval_record r) = r.ledger_set
ledger_set_of (action_record r) = r.ledger_set
ledger_set_of (rollback_record r) = r.ledger_set

module _ (c : Primitives) where
  unfoldable pub hash_content : Text → Text
  hash_content content = b3 c (utf8 content)

  -- The validator of `ProvenanceRecord`.
  unfoldable pub enforce_content_hash : ProvenanceRecord → Result ProvenanceRecord
  enforce_content_hash r =
      let expected = hash_content r.content in
      if r.content_hash == []
      then ok (record r { content_hash = expected })
      else if r.content_hash == expected
      then ok r
      else err value_error

  -- The validator of `RetrievalRecord`.
  unfoldable pub derive_query_hash : RetrievalRecord → RetrievalRecord
  derive_query_hash r =
      if r.query_hash == [] then record r { query_hash = hash_content r.query } else r
