-- ===== src/Tests/Rollback.antt =====
-- A rollback of the write in a one-row ledger.
use memory_blackbox.Prelude.{
  ◌≡◌, ◌↔◌, ◌⊎◌, List, Text, In, refl, true, false, [], ◌∷◌, ◌++◌, none, some, codes, contains,
  to_set, sorted, insert_sorted, text_leb, ok, ◌==◌,
}
use memory_blackbox.Crypto.Toy.{toy, toy-IsSound}
use memory_blackbox.Model.Json.{get, get_field, sort_keys, insert_field}
use memory_blackbox.Model.Canonical.{canonical_text, prune}
use memory_blackbox.Model.Dump.{model_dump, dump_write, dump_source, dump_ledger_set}
use memory_blackbox.Model.Records.{
  LedgerRecord, rollback_record, record_state_value, rolled_back, id_of, kind_value,
  memory_type_value,
}
use memory_blackbox.Model.Edges.{edge_type_value}
use memory_blackbox.Storage.{Row}
use memory_blackbox.Ledger.Store.{
  LedgerStore, append, get as get_row, iter_payloads, maybe_checkpoint, insert_row, row_for,
  checkpoint_due, checkpoint, stamp, last_entry_hash,
}
use memory_blackbox.Ledger.Honest.{IsConsistent}
use memory_blackbox.Dag.{add_edge, exists_in_ledger, has_edge, out_neighbors, neighbors}
use memory_blackbox.Dag.Traverse.{forward_closure, forward_loop, visit_children}
use memory_blackbox.Dag.Closure.{descendants}
use memory_blackbox.Query.BlastRadius.{seeds_for, collect_seeds, is_seed, source_matches, source_of}
use memory_blackbox.Query.Rollback.{
  RollbackPlan, rollback, apply_rollback, affected_by, filter_scope, in_scope, add_rollback_edges,
  effective_state, event_for, plan_for, rolled_back_ids, collect_rolled_back,
}
use memory_blackbox.Query.Rollback.Effect.{rollback_marks, rollback-IsConsistent}
use memory_blackbox.Tests.Anchors.{casts}
use memory_blackbox.Tests.Codec.{toy_json, toy_json-IsRoundTrip, encode, decode}
use memory_blackbox.Tests.Ledgers.{one_row, one_row-IsConsistent}

abbrev event : LedgerRecord
event =
    rollback_record
      (event_for (codes "b1") (codes "r") (codes "w1") none (codes "w1" ∷ []) (codes "t4"))

abbrev with_event : LedgerStore
with_event =
    maybe_checkpoint toy (insert_row one_row (row_for toy toy_json one_row event (codes "t4")))
      (codes "t4")

abbrev marked : LedgerStore
marked = record with_event {
  db = record with_event.db {
    edges =
        record {
          src = codes "w1";
          dst = codes "b1";
          edge_type = codes "ROLLED_BACK_BY";
          created_at = codes "t4";
        }
        ∷ [];
  };
}

abbrev plan : RollbackPlan
plan = record (plan_for (codes "w1") none (codes "w1" ∷ []) (codes "r")) {
  dry_run = false;
  applied = true;
  rollback_id = some (codes "b1");
}

affected : affected_by toy_json one_row (codes "w1") none ≡ ok (codes "w1" ∷ [])
unfolding affected_by seeds_for iter_payloads collect_seeds is_seed source_matches source_of get
    get_field encode decode sort_keys insert_field text_leb descendants forward_closure forward_loop
    visit_children out_neighbors neighbors to_set contains ◌==◌ filter_scope in_scope sorted
    insert_sorted get_row maybe_checkpoint checkpoint_due checkpoint insert_row row_for
    canonical_text prune model_dump dump_ledger_set dump_write dump_source kind_value
    last_entry_hash record_state_value memory_type_value id_of
affected = refl

done :
    rollback toy toy_json one_row (codes "w1") none false (codes "r") (codes "b1") (codes "t4")
    ≡ ok (marked, plan)
unfolding rollback apply_rollback append add_rollback_edges get_row maybe_checkpoint checkpoint_due
    checkpoint insert_row row_for stamp id_of add_edge has_edge exists_in_ledger edge_type_value
    ◌==◌ contains
done = rw affected refl

none_listed : rolled_back_ids toy_json one_row ≡ ok []
unfolding rolled_back_ids collect_rolled_back iter_payloads encode decode sort_keys insert_field
    text_leb get_field ◌==◌ maybe_checkpoint checkpoint_due checkpoint insert_row row_for
    canonical_text prune model_dump dump_ledger_set dump_write dump_source kind_value
    last_entry_hash record_state_value memory_type_value id_of contains
none_listed = refl

rollback_marks_example :
    (listed_ids : List Text) × (rolled_back_ids toy_json marked ≡ ok listed_ids)
    × ((v : Text) → In v listed_ids ↔ (In v [] ⊎ In v (codes "w1" ∷ [])))
    × ((v : Text)
        → In v [] ⊎ In v (codes "w1" ∷ [])
        → effective_state toy_json casts marked v ≡ ok (record_state_value rolled_back))
rollback_marks_example =
    rollback_marks toy toy_json toy_json-IsRoundTrip casts one_row marked (codes "w1") none
      (codes "r") (codes "b1") (codes "t4") plan [] none_listed done

rollback-IsConsistent_example :
    IsConsistent toy marked
    × ((row : Row) × (marked.ledger ≡ one_row.ledger ++ row ∷ []) × (row.record_id ≡ codes "b1"))
rollback-IsConsistent_example =
    rollback-IsConsistent toy toy_json toy-IsSound one_row marked (codes "w1") none (codes "r")
      (codes "b1") (codes "t4") plan done one_row-IsConsistent
