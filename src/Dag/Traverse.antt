-- ===== src/Dag/Traverse.antt =====
-- src/memory_blackbox/dag/traverse.py: the loops over a queue, on fuel; `none` is a loop that ran
-- out of it.
use memory_blackbox.Prelude.{
  ℕ, zero, suc, ◌+◌, Bool, false, not, List, [], ◌∷◌, ◌++◌, Option, none, some, Text, contains,
  to_set, length, leb, if◌then◌else◌,
}
use memory_blackbox.Model.Edges.{EdgeType}
use memory_blackbox.Storage.{Db}
use memory_blackbox.Dag.{in_neighbors, out_neighbors}

-- The variables `visited` and `queue` of `forward_closure`.
pub record Sweep : Type 0 where
  pub visited : List Text
  pub queue : List Text

-- The inner loop of `forward_closure`.
unfoldable pub visit_children : Sweep → List Text → Sweep
visit_children s [] = s
visit_children s (child ∷ children) =
    visit_children
      (if not (contains s.visited child)
        then record { visited = s.visited ++ child ∷ []; queue = s.queue ++ child ∷ [] }
        else s)
      children

-- `while queue`, for any neighbour function.
unfoldable pub forward_loop : (Text → List Text) → ℕ → List Text → List Text → Option (List Text)
forward_loop next fuel visited [] = some visited
forward_loop next zero visited (current ∷ queue) = none
forward_loop next (suc fuel) visited (current ∷ queue) =
    let s = visit_children (record { visited = visited; queue = queue }) (next current) in
    forward_loop next fuel s.visited s.queue

-- `forward_closure`. Each node enters the queue once, as a seed or at the end of an edge.
unfoldable pub forward_closure : Db → List Text → Option (List EdgeType) → Option (List Text)
forward_closure db seeds types =
    let visited = to_set seeds in
    forward_loop (λ node. out_neighbors db node types) (length seeds + length db.edges) visited
      visited

-- The variables of `backward`; the queue holds nodes with their depth.
pub record Ascent : Type 0 where
  pub visited : List Text
  pub ancestors : List Text
  pub queue : List (Text × ℕ)

unfoldable pub visit_parents : Ascent → ℕ → List Text → Ascent
visit_parents s depth [] = s
visit_parents s depth (parent ∷ parents) =
    visit_parents
      (if not (contains s.visited parent)
        then record {
          visited = s.visited ++ parent ∷ [];
          ancestors = s.ancestors ++ parent ∷ [];
          queue = s.queue ++ (parent, depth + 1) ∷ [];
        }
        else s)
      depth parents

-- `max_depth is not None and depth >= max_depth`
abbrev pub is_too_deep : Option ℕ → ℕ → Bool
is_too_deep none depth = false
is_too_deep (some max_depth) depth = leb max_depth depth

unfoldable pub backward_loop :
    (Text → List Text) → Option ℕ → ℕ → List Text → List Text → List (Text × ℕ) → Option (List Text)
backward_loop next max_depth fuel visited ancestors [] = some ancestors
backward_loop next max_depth zero visited ancestors (node ∷ queue) = none
backward_loop next max_depth (suc fuel) visited ancestors ((current, depth) ∷ queue) =
    let start : Ascent = record { visited = visited; ancestors = ancestors; queue = queue } in
    let s =
      if is_too_deep max_depth depth then start else visit_parents start depth (next current) in
    backward_loop next max_depth fuel s.visited s.ancestors s.queue

unfoldable pub backward : Db → Text → Option (List EdgeType) → Option ℕ → Option (List Text)
backward db node types max_depth =
    backward_loop (λ n. in_neighbors db n types) max_depth (1 + length db.edges) (node ∷ []) []
      ((node, 0) ∷ [])
