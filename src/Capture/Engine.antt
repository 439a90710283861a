-- ===== src/Capture/Engine.antt =====
-- src/memory_blackbox/capture/engine.py. A method returns the engine that it leaves behind, also
-- when it raises. Detectors are a type with a function `inspect`; the fresh id of a record comes in
-- as an argument, and so do the readings of the clock.
use memory_blackbox.Prelude.{
  ℕ, not, ◌||◌, List, [], ◌∷◌, ◌++◌, map, Option, Text, length, ltb, if◌then◌else◌, Result, ok, err,
  content_too_large,
}
use memory_blackbox.Codec.Utf8.{utf8}
use memory_blackbox.Crypto.{Primitives}
use memory_blackbox.Model.Json.{Orjson}
use memory_blackbox.Model.Records.{
  Source, MemoryType, ProvenanceRecord, RetrievalRecord, ActionRecord, LedgerRecord, write_record,
  retrieval_record, action_record, unset, active, id_of, enforce_content_hash, derive_query_hash,
}
use memory_blackbox.Model.Findings.{Finding, DetectorContext}
use memory_blackbox.Model.Edges.{EdgeType, derived_from, retrieved, contextualized, contributed_to}
use memory_blackbox.Ledger.Store.{LedgerStore, append, is_taken}
use memory_blackbox.Ledger.Store
use memory_blackbox.Dag.{add_edge, exists_in_ledger}

-- `Detector.inspect`: the detector that is left, and the findings.
abbrev pub Inspect : Type 0 → Type 0
Inspect D = D → ProvenanceRecord → Text → DetectorContext → D × Result (List Finding)

-- `MemoryBlackbox`; the DAG shares the connection of the ledger.
pub record MemoryBlackbox (D : Type 0) : Type 0 where
  pub ledger : LedgerStore
  pub detectors : List D
  pub max_content_bytes : ℕ
  pub findings : List Finding

-- The arguments of `record_write`, `record_retrieval` and `record_action`.
pub record WriteRequest : Type 0 where
  pub content : Text
  pub source : Source
  pub namespace : Text
  pub memory_id : Option Text
  pub memory_type : MemoryType
  pub parents : List Text
  pub caused_by_retrieval : List Text

pub record RetrievalRequest : Type 0 where
  pub query : Text
  pub returned : List Text
  pub scores : List ℕ
  pub namespace : Text
  pub session_id : Option Text
  pub turn_id : Option Text

pub record ActionRequest : Type 0 where
  pub action_kind : Text
  pub summary : Text
  pub context_retrievals : List Text
  pub namespace : Text
  pub session_id : Option Text
  pub turn_id : Option Text

-- The readings of the clock in one call, in their order; the edges of a call share theirs.
pub record Times : Type 0 where
  pub created : Text
  pub inspected : ℕ
  pub appended : Text
  pub checkpointed : Text
  pub linked : Text

-- The records that the three methods build, with the defaults of their models.
abbrev pub provenance_of : WriteRequest → Text → Text → ProvenanceRecord
provenance_of q id created = record {
  ledger_set = unset;
  record_id = id;
  namespace = q.namespace;
  memory_id = q.memory_id;
  content = q.content;
  content_hash = [];
  memory_type = q.memory_type;
  source = q.source;
  derived_from = q.parents;
  caused_by_retrieval = q.caused_by_retrieval;
  state = active;
  created_at = created;
}

abbrev pub retrieval_of : RetrievalRequest → Text → Text → RetrievalRecord
retrieval_of q id created = record {
  ledger_set = unset;
  retrieval_id = id;
  namespace = q.namespace;
  query = q.query;
  query_hash = [];
  returned = q.returned;
  scores = q.scores;
  session_id = q.session_id;
  turn_id = q.turn_id;
  created_at = created;
}

abbrev pub action_of : ActionRequest → Text → Text → ActionRecord
action_of q id created = record {
  ledger_set = unset;
  action_id = id;
  namespace = q.namespace;
  action_kind = q.action_kind;
  summary = q.summary;
  context_retrievals = q.context_retrievals;
  session_id = q.session_id;
  turn_id = q.turn_id;
  created_at = created;
}

-- `_add_edge`
unfoldable pub add_known_edge : LedgerStore → Text → Text → EdgeType → Text → Result LedgerStore
add_known_edge s src dst edge_type now =
    if not (is_taken (Store.get s src)) || not (is_taken (Store.get s dst))
    then ok s
    else elim (add_edge (exists_in_ledger s.db) s.db src dst edge_type now) [
      | ok db ↦ ok (record s { db = db })
      | err why ↦ err why
    ]

-- The edges into a record that are to be added, in their order: source and type.
abbrev pub Links : Type 0
Links = List (Text × EdgeType)

abbrev pub links_by : EdgeType → List Text → Links
links_by edge_type ids = map (λ id. (id, edge_type)) ids

-- The loops behind an append.
unfoldable pub add_links : LedgerStore → Text → Links → Text → LedgerStore × Result (Unit {0})
add_links s dst [] now = (s, ok tt)
add_links s dst ((src, edge_type) ∷ links) now = elim (add_known_edge s src dst edge_type now) [
  | ok s' ↦ add_links s' dst links now
  | err why ↦ (s, err why)
]

module _ {D : Type 0} where
  -- `MemoryBlackbox.open` over a ledger that was opened.
  unfoldable pub open_engine : LedgerStore → List D → ℕ → MemoryBlackbox D
  open_engine ledger detectors max_content_bytes = record {
    ledger = ledger;
    detectors = detectors;
    max_content_bytes = max_content_bytes;
    findings = [];
  }

  -- The engine after the loops of a recording method, and the record that it returns.
  abbrev pub linked_result :
      MemoryBlackbox D
      → LedgerRecord
      → LedgerStore × Result (Unit {0})
      → MemoryBlackbox D × Result LedgerRecord
  linked_result e r (s, ok done) = (record e { ledger = s }, ok r)
  linked_result e r (s, err why) = (record e { ledger = s }, err why)

  module _ (inspect : Inspect D) where
    -- What the detectors leave behind: their states, the findings so far, and the outcome.
    abbrev pub Inspection : Type 0
    Inspection = List D × List Finding × Result (Unit {0})

    abbrev pub and_then : D × Result (List Finding) → List D → Inspection → Inspection
    and_then (d, ok found) ds (ds', more, outcome) = (d ∷ ds', found ++ more, outcome)
    and_then (d, err why) ds later = (d ∷ ds, [], err why)

    -- The loop of `_run_detectors`.
    unfoldable pub run_detectors : List D → ProvenanceRecord → Text → DetectorContext → Inspection
    run_detectors [] r content ctx = ([], [], ok tt)
    run_detectors (d ∷ ds) r content ctx =
        and_then (inspect d r content ctx) ds (run_detectors ds r content ctx)

  module _ (c : Primitives) (json : Orjson) where
    -- `self.ledger.append(record)` and the loops over its edges.
    unfoldable pub append_linked :
        MemoryBlackbox D → LedgerRecord → Links → Times → MemoryBlackbox D × Result LedgerRecord
    append_linked e r links times =
        elim (append c json e.ledger r times.appended times.checkpointed) [
          | ok (s, r') ↦ linked_result e r' (add_links s (id_of r) links times.linked)
          | err why ↦ (e, err why)
        ]

    unfoldable pub record_retrieval :
        MemoryBlackbox D → RetrievalRequest → Text → Times → MemoryBlackbox D × Result LedgerRecord
    record_retrieval e q id times =
        append_linked e (retrieval_record (derive_query_hash c (retrieval_of q id times.created)))
          (links_by retrieved q.returned) times

    unfoldable pub record_action :
        MemoryBlackbox D → ActionRequest → Text → Times → MemoryBlackbox D × Result LedgerRecord
    record_action e q id times =
        append_linked e (action_record (action_of q id times.created))
          (links_by contributed_to q.context_retrievals) times

    module _ (inspect : Inspect D) where
      -- `record_write` behind `_run_detectors`.
      abbrev pub finish_write :
          MemoryBlackbox D
          → ProvenanceRecord
          → Times
          → List D × List Finding × Result (Unit {0})
          → MemoryBlackbox D × Result LedgerRecord
      finish_write e r times (ds, found, ok done) =
          append_linked (record e { detectors = ds; findings = e.findings ++ found })
            (write_record r)
            (links_by derived_from r.derived_from ++ links_by contextualized r.caused_by_retrieval)
            times
      finish_write e r times (ds, found, err why) =
          (record e { detectors = ds; findings = e.findings ++ found }, err why)

      -- `record_write` from the record on.
      unfoldable pub log_write :
          MemoryBlackbox D → ProvenanceRecord → Times → MemoryBlackbox D × Result LedgerRecord
      log_write e r times = finish_write e r times (
          run_detectors inspect e.detectors r r.content
            (record { namespace = r.namespace; now = times.inspected }))

      unfoldable pub record_write :
          MemoryBlackbox D → WriteRequest → Text → Times → MemoryBlackbox D × Result LedgerRecord
      record_write e q id times =
          if ltb e.max_content_bytes (length (utf8 q.content))
          then (e, err content_too_large)
          else elim (enforce_content_hash c (provenance_of q id times.created)) [
            | ok r ↦ log_write e r times
            | err why ↦ (e, err why)
          ]
