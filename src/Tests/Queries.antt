-- ===== src/Tests/Queries.antt =====
-- Runs of the queries over the two-row ledger.
use memory_blackbox.Prelude.{
  ◌≡◌, ◌↔◌, refl, [], ◌∷◌, none, Text, codes, In, contains, to_set, text_leb, ok, ◌==◌,
}
use memory_blackbox.Model.Json.{Json, str, obj, end, field, get, get_field, sort_keys, insert_field}
use memory_blackbox.Storage.{Row, empty_db}
use memory_blackbox.Ledger.Store.{LedgerStore, iter_payloads}
use memory_blackbox.Dag.{out_neighbors, neighbors}
use memory_blackbox.Dag.Traverse.{forward_closure, forward_loop, visit_children}
use memory_blackbox.Dag.Closure.{descendants}
use memory_blackbox.Query.BlastRadius.{
  blast_radius, seeds_for, collect_seeds, is_seed, source_matches, source_of,
}
use memory_blackbox.Query.BlastRadius.Exact.{Influenced, blast_radius-Influenced}
use memory_blackbox.Tests.Codec.{toy_json, encode, decode}
use memory_blackbox.Tests.Ledgers.{new_store}

-- A write as its row stores it.
abbrev pub stored_write : Text → Json
stored_write id =
    obj (field (codes "kind") (str (codes "write")) (field (codes "record_id") (str id) end))

abbrev pub row : Text → Row
row id = record {
  seq = 1;
  record_id = id;
  kind = codes "write";
  namespace = codes "default";
  payload_json = encode (stored_write id);
  entry_hash = codes "h";
  prev_hash = none;
  signature = codes "s";
  signer_kid = codes "k";
  created_at = codes "t";
}

abbrev pub store : LedgerStore
store = record new_store {
  db = record empty_db {
    ledger = row (codes "w1") ∷ row (codes "w2") ∷ [];
    ledger_seq = 2;
    edges =
        record {
          src = codes "w1";
          dst = codes "w2";
          edge_type = codes "DERIVED_FROM";
          created_at = codes "t";
        }
        ∷ [];
  };
}

radius : blast_radius toy_json store (codes "w1") ≡ ok (codes "w1" ∷ codes "w2" ∷ [])
unfolding blast_radius seeds_for iter_payloads collect_seeds is_seed source_matches source_of get
    get_field encode decode sort_keys insert_field text_leb descendants forward_closure forward_loop
    visit_children out_neighbors neighbors to_set contains ◌==◌
radius = refl

blast_radius-Influenced_example :
    In (codes "w2") (codes "w1" ∷ codes "w2" ∷ [])
    ↔ Influenced toy_json store (codes "w1") (codes "w2")
blast_radius-Influenced_example =
    blast_radius-Influenced toy_json store (codes "w1") (codes "w1" ∷ codes "w2" ∷ []) (codes "w2")
      radius
