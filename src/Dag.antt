-- ===== src/Dag.antt =====
-- src/memory_blackbox/dag/store.py: the edges, stored beside the ledger.
pub mod Traverse
pub mod Closure
pub mod Ancestors
pub mod Edges
use memory_blackbox.Prelude.{
  ℕ, Bool, true, false, not, ◌&&◌, ◌||◌, List, [], ◌∷◌, ◌++◌, map, Option, none, some, Text, codes,
  ◌==◌, contains, length, if◌then◌else◌, Result, ok, err, unknown_node,
}
use memory_blackbox.Model.Edges.{EdgeType, edge_type_value, Edge}
use memory_blackbox.Storage.{Row, Db}

-- `_exists_in_ledger`
unfoldable pub exists_in_ledger : Db → Text → Bool
exists_in_ledger db node_id = contains (map (λ (row : Row). row.record_id) db.ledger) node_id

-- The primary key (src, dst, edge_type).
abbrev pub same_edge : Text → Text → Text → Edge → Bool
same_edge src dst edge_type e = e.src == src && e.dst == dst && e.edge_type == edge_type

unfoldable pub has_edge : Text → Text → Text → List Edge → Bool
has_edge src dst edge_type [] = false
has_edge src dst edge_type (e ∷ es) = same_edge src dst edge_type e || has_edge src dst edge_type es

-- `add_edge`, with the existence check of the store: INSERT OR IGNORE behind the two checks.
unfoldable pub add_edge : (Text → Bool) → Db → Text → Text → EdgeType → Text → Result Db
add_edge node_exists db src dst edge_type now =
    let edge : Edge = record {
      src = src;
      dst = dst;
      edge_type = edge_type_value edge_type;
      created_at = now;
    } in
    if not (node_exists src)
    then err unknown_node
    else if not (node_exists dst)
    then err unknown_node
    else if has_edge src dst (edge_type_value edge_type) db.edges
    then ok db
    else ok (record db { edges = db.edges ++ edge ∷ [] })

-- `AND edge_type IN (...)`, with no such test for `None`.
abbrev pub type_matches : Option (List EdgeType) → Edge → Bool
type_matches none e = true
type_matches (some types) e = contains (map edge_type_value types) e.edge_type

-- `_neighbors`: one column of the rows whose other column is `node`.
unfoldable pub neighbors :
    (Edge → Text) → (Edge → Text) → Text → Option (List EdgeType) → List Edge → List Text
neighbors select match node types [] = []
neighbors select match node types (e ∷ es) =
    let rest = neighbors select match node types es in
    if match e == node && type_matches types e then select e ∷ rest else rest

unfoldable pub out_neighbors : Db → Text → Option (List EdgeType) → List Text
out_neighbors db node types = neighbors (λ e. e.dst) (λ e. e.src) node types db.edges

unfoldable pub in_neighbors : Db → Text → Option (List EdgeType) → List Text
in_neighbors db node types = neighbors (λ e. e.src) (λ e. e.dst) node types db.edges

-- `subgraph_edges`
unfoldable pub subgraph_edges : List Text → List Edge → List (Text × Text × Text)
subgraph_edges nodes [] = []
subgraph_edges nodes (e ∷ es) =
    let rest = subgraph_edges nodes es in
    if contains nodes e.src && contains nodes e.dst
    then (e.src, e.dst, e.edge_type) ∷ rest
    else rest

unfoldable pub count : Db → ℕ
count db = length db.edges
