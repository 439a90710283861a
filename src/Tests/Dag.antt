-- ===== src/Tests/Dag.antt =====
-- Runs over a small graph with a cycle: a → b → c → a, and c → d.
use memory_blackbox.Prelude.{
  ◌≡◌, ◌≢◌, ◌⊎◌, ◌↔◌, refl, Bool, false, List, [], ◌∷◌, none, some, Text, codes, In, contains,
  to_set, err, unknown_node, ◌==◌,
}
use memory_blackbox.Model.Edges.{Edge, retrieved, edge_type_value}
use memory_blackbox.Storage.{Db, empty_db}
use memory_blackbox.Dag.{add_edge, out_neighbors, in_neighbors, neighbors}
use memory_blackbox.Dag.Traverse.{
  forward_closure, forward_loop, visit_children, backward, backward_loop, visit_parents,
}
use memory_blackbox.Dag.Closure.{Reachable, forward_closure-Reachable}
use memory_blackbox.Dag.Ancestors.{backward-Reachable}
use memory_blackbox.Dag.Edges.{add_edge-unknown}

abbrev edge : Text → Text → Edge
edge s d = record { src = s; dst = d; edge_type = codes "DERIVED_FROM"; created_at = codes "t" }

abbrev a : Text
a = codes "a"

abbrev b : Text
b = codes "b"

abbrev c : Text
c = codes "c"

abbrev d : Text
d = codes "d"

abbrev graph : Db
graph = record empty_db { edges = edge a b ∷ edge b c ∷ edge c a ∷ edge c d ∷ [] }

forward_closure_run : forward_closure graph (b ∷ []) none ≡ some (b ∷ c ∷ a ∷ d ∷ [])
unfolding forward_closure forward_loop visit_children out_neighbors neighbors to_set contains ◌==◌
forward_closure_run = refl

backward_run : backward graph d none (some 1) ≡ some (c ∷ [])
unfolding backward backward_loop visit_parents in_neighbors neighbors contains ◌==◌
backward_run = refl

forward_closure-Reachable_example :
    (r : List Text) × (forward_closure graph (b ∷ []) none ≡ some r)
    × ((v : Text) → In v r ↔ Reachable (λ node. out_neighbors graph node none) (b ∷ []) v)
forward_closure-Reachable_example = forward_closure-Reachable graph (b ∷ []) none

backward-Reachable_example :
    (r : List Text) × (backward graph d none none ≡ some r)
    × ((v : Text) → In v r ↔ ((v ≢ d) × Reachable (λ n. in_neighbors graph n none) (d ∷ []) v))
backward-Reachable_example = backward-Reachable graph d none

abbrev known : Text → Bool
known n = contains (a ∷ b ∷ c ∷ d ∷ []) n

abbrev new_edge : Edge
new_edge = record {
  src = a;
  dst = d;
  edge_type = edge_type_value retrieved;
  created_at = codes "t";
}

abbrev grown : Db
grown = record graph { edges = edge a b ∷ edge b c ∷ edge c a ∷ edge c d ∷ new_edge ∷ [] }

add_edge-unknown_example :
    (add_edge known graph a (codes "x") retrieved (codes "t") ≡ err unknown_node)
    ↔ ((known a ≡ false) ⊎ (known (codes "x") ≡ false))
add_edge-unknown_example = add_edge-unknown known graph a (codes "x") retrieved (codes "t")
