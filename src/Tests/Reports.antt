-- ===== src/Tests/Reports.antt =====
-- Runs of the trace, the integrity report and the reconciliation.
use memory_blackbox.Prelude.{
  ◌≡◌, ◌≢◌, ◌↔◌, refl, Bool, true, List, [], ◌∷◌, Option, none, some, Text, codes, In, ok, All,
  ◌==◌, contains, text_leb,
}
use memory_blackbox.Crypto.Toy.{toy}
use memory_blackbox.Model.Json.{Json, str, obj, field, end, get_field, sort_keys, insert_field}
use memory_blackbox.Storage.{Row}
use memory_blackbox.Ledger.Store.{LedgerStore, iter_payloads, payload, get as get_row}
use memory_blackbox.Dag.{in_neighbors, neighbors}
use memory_blackbox.Dag.Closure.{Reachable}
use memory_blackbox.Dag.Traverse.{backward, backward_loop, visit_parents}
use memory_blackbox.Query.Trace.{TraceRoot, ProvenanceTrace, trace}
use memory_blackbox.Query.Ranking.{IsRanked}
use memory_blackbox.Query.Candidates.{ids_of, IsWriteRow, IsRootOf}
use memory_blackbox.Query.Roots.{trace-IsRanked}
use memory_blackbox.Model.Edges.{Edge}
use memory_blackbox.Query.Integrity.{IntegrityReport, verify, verify-erased}
use memory_blackbox.Adapters.Reconcile.{reconcile, IsWritten, AreObjects, reconcile-In}
use memory_blackbox.Tests.Codec.{toy_json, decode, encode}
use memory_blackbox.Tests.Ledgers.{new_store}
use memory_blackbox.Tests.Queries.{row, store, stored_write}
use memory_blackbox.Tests.Anchors.{casts, board}

abbrev payloads : List (Row × Json)
payloads =
    (row (codes "w1"), stored_write (codes "w1"))
    ∷ (row (codes "w2"), stored_write (codes "w2"))
    ∷ []

stored_payloads : iter_payloads toy_json store ≡ ok payloads
unfolding iter_payloads encode decode sort_keys insert_field text_leb
stored_payloads = refl

-- All times count as equally recent.
abbrev same_time : Text → Text → Bool
same_time a b = true

-- A trusted and a quarantined write that both lead to an action.
abbrev leveled : Text → Text → Json
leveled id level = obj (
    field (codes "kind") (str (codes "write"))
      (field (codes "source") (obj (field (codes "trust_level") (str level) end)) end))

abbrev traced : LedgerStore
traced = record store {
  db = record store.db {
    ledger =
        record (row (codes "w1")) { payload_json = encode (leveled (codes "w1") (codes "trusted")) }
        ∷ record (row (codes "w2")) {
          payload_json = encode (leveled (codes "w2") (codes "quarantined"));
        }
        ∷ [];
    edges = link (codes "w1") ∷ link (codes "w2") ∷ [];
  };
}
  where
    link : Text → Edge
    link id = record {
      src = id;
      dst = codes "a";
      edge_type = codes "CONTRIBUTED_TO";
      created_at = codes "t";
    }

abbrev root_at : Text → Text → TraceRoot
root_at id level = record {
  record_id = id;
  source_id = none;
  source_type = none;
  trust_level = str level;
  created_at = str [];
  centrality = 1;
}

abbrev found_trace : ProvenanceTrace
found_trace = record {
  action_id = codes "a";
  roots = root_at (codes "w2") (codes "quarantined") ∷ root_at (codes "w1") (codes "trusted") ∷ [];
  ancestors = codes "w1" ∷ codes "w2" ∷ [];
}

trace_run : trace same_time toy_json traced (codes "a") ≡ ok (some found_trace)
unfolding trace backward backward_loop visit_parents in_neighbors neighbors ◌==◌ contains
    memory_blackbox.Query.Trace.collect_roots payload get_row decode encode sort_keys insert_field
    text_leb memory_blackbox.Query.Trace.write_root get_field
    memory_blackbox.Dag.Closure.descendants memory_blackbox.Dag.Traverse.forward_closure
    memory_blackbox.Dag.Traverse.forward_loop memory_blackbox.Dag.Traverse.visit_children
    memory_blackbox.Dag.out_neighbors memory_blackbox.Prelude.insert_by
    memory_blackbox.Prelude.sort_by memory_blackbox.Prelude.to_set memory_blackbox.Query.Trace.keyed
    memory_blackbox.Query.Trace.root_for
trace_run = refl

trace-IsRanked_example :
    (t : ProvenanceTrace) × (◌≡◌ {A = Option ProvenanceTrace} (some found_trace) (some t))
    × ((v : Text)
        → In v t.ancestors
          ↔ ((v ≢ codes "a") × Reachable (λ n. in_neighbors traced.db n none) (codes "a" ∷ []) v))
    × ((v : Text) → In v (ids_of t.roots) ↔ (In v t.ancestors × IsWriteRow toy_json traced v))
    × All (IsRootOf toy_json traced) t.roots
    × IsRanked same_time t.roots
trace-IsRanked_example =
    trace-IsRanked same_time (λ p q h. refl) toy_json traced (codes "a") (some found_trace)
      trace_run

verify-erased_example :
    (r : IntegrityReport) × (verify toy toy_json casts new_store none (some (board, [])) true
      ≡ ok r)
    × (r.is_ok ≡ true)
verify-erased_example = verify-erased toy toy_json casts new_store none board [] true refl refl

payloads-AreObjects : AreObjects casts payloads
payloads-AreObjects = ((_, refl), ((_, refl), tt))

reconcile-In_example :
    (found : List Text) × (reconcile casts toy_json store (codes "w1" ∷ codes "m" ∷ []) ≡ ok found)
    × ((id : Text)
        → In id found ↔ (In id (codes "w1" ∷ codes "m" ∷ []) × ¬ IsWritten casts id payloads))
reconcile-In_example =
    reconcile-In casts toy_json store (codes "w1" ∷ codes "m" ∷ []) payloads stored_payloads
      payloads-AreObjects
