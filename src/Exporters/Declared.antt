-- ===== src/Exporters/Declared.antt =====
-- The nodes and edges of an exported graph: each node is declared once, before its edges.
use memory_blackbox.Prelude.{
  ◌≡◌, ◌↔◌, ◌⊎◌, inl, inr, refl, sym, ap, ◌∙◌, Bool, true, false, Bool-cases, ℕ, codes, Option,
  map-append, List, [], ◌∷◌, ◌++◌, map, Text, arith, contains, In, In-cons, subst,
}
use memory_blackbox.Exporters.Graph.{
  EdgeText, declare, graph_lines, join_lines, dot_node, dot_edge, dot_graph, mermaid_node,
  mermaid_edge, mermaid_graph,
}

-- A line of a graph: the declaration of a node, or an edge.
pub data Line : Type 0 where
  declared : Text → Line
  linked : EdgeText → Line

-- Behind the nodes that were seen: every declaration is of a new node, and every edge is between
-- nodes that were declared.
abbrev pub IsDeclared : List Text → List Line → Type 0
IsDeclared seen [] = Unit
IsDeclared seen (declared node ∷ lines) =
    (contains seen node ≡ false) × IsDeclared (node ∷ seen) lines
IsDeclared seen (linked (src, dst, edge_type) ∷ lines) =
    In src seen × In dst seen × IsDeclared seen lines

abbrev pub edges_of : List Line → List EdgeText
edges_of [] = []
edges_of (declared node ∷ lines) = edges_of lines
edges_of (linked edge ∷ lines) = edge ∷ edges_of lines

abbrev declared_by : List Text → List Text → List Line × List Text
declared_by = declare declared linked

declare_old :
    (seen nodes : List Text) (node : Text)
    → contains seen node ≡ true
    → declared_by seen (node ∷ nodes) ≡ declared_by seen nodes
unfolding declare
declare_old seen nodes node old = rw old refl

declare_new :
    (seen nodes : List Text) (node : Text)
    → contains seen node ≡ false
    → declared_by seen (node ∷ nodes)
      ≡ (declared node ∷ (declared_by (node ∷ seen) nodes).0, (declared_by (node ∷ seen) nodes).1)
unfolding declare
declare_new seen nodes node new = rw new refl

-- The lines in front of others, with the nodes that they declare.
declare-IsDeclared :
    (seen nodes : List Text) (rest : List Line)
    → IsDeclared (declared_by seen nodes).1 rest
    → IsDeclared seen ((declared_by seen nodes).0 ++ rest)
declare-IsDeclared seen [] rest h = unfold declare in h
declare-IsDeclared seen (node ∷ nodes) rest h = elim (Bool-cases (contains seen node)) [
  | inl old ↦
      let step = declare_old seen nodes node old in
      subst (λ d. IsDeclared seen (d.0 ++ rest)) (sym step)
        (declare-IsDeclared seen nodes rest (subst (λ d. IsDeclared d.1 rest) step h))
  | inr new ↦
      let step = declare_new seen nodes node new in
      subst (λ d. IsDeclared seen (d.0 ++ rest)) (sym step)
        (new, declare-IsDeclared (node ∷ seen) nodes rest (subst (λ d. IsDeclared d.1 rest) step h))
]

-- Behind it the nodes are seen, and those that were.
declare-seen :
    (seen nodes : List Text) (k : Text) → In k (declared_by seen nodes).1 ↔ (In k seen ⊎ In k nodes)
declare-seen seen [] k = unfold declare contains in ground arith
declare-seen seen (node ∷ nodes) k = elim (Bool-cases (contains seen node)) [
  | inl old ↦
      subst (λ d. In k d.1 ↔ (In k seen ⊎ In k (node ∷ nodes)))
        (sym (declare_old seen nodes node old))
        (let kept : (node ≡ k) → In k seen = λ e. subst (λ n. In n seen) e old in
          ground (arith, declare-seen seen nodes k, In-cons k node nodes, kept))
  | inr new ↦
      subst (λ d. In k d.1 ↔ (In k seen ⊎ In k (node ∷ nodes)))
        (sym (declare_new seen nodes node new))
        (ground
          (arith, declare-seen (node ∷ seen) nodes k, In-cons k node nodes, In-cons k node seen))
]

edges_of-declare :
    (seen nodes : List Text) (rest : List Line)
    → edges_of ((declared_by seen nodes).0 ++ rest) ≡ edges_of rest
edges_of-declare seen [] rest = unfold declare in refl
edges_of-declare seen (node ∷ nodes) rest = elim (Bool-cases (contains seen node)) [
  | inl old ↦ rw (declare_old seen nodes node old) (edges_of-declare seen nodes rest)
  | inr new ↦ rw (declare_new seen nodes node new) (edges_of-declare (node ∷ seen) nodes rest)
]

lines_below :
    (seen : List Text) (edges : List EdgeText)
    → IsDeclared seen (graph_lines declared linked seen edges)
      × (edges_of (graph_lines declared linked seen edges) ≡ edges)
unfolding graph_lines
lines_below seen [] = (tt, refl)
lines_below seen ((src, dst, edge_type) ∷ edges) =
    let ends = src ∷ dst ∷ [] in
    let seen' = (declared_by seen ends).1 in
    let (fine, same) = lines_below seen' edges in
    let has_src =
      (declare-seen seen ends src).1 (inr ((In-cons src src (dst ∷ [])).1 (inl refl))) in
    let has_dst =
      (declare-seen seen ends dst).1
        (inr ((In-cons dst src (dst ∷ [])).1 (inr ((In-cons dst dst []).1 (inl refl))))) in
    (
      declare-IsDeclared seen ends _ (has_src, has_dst, fine),
      edges_of-declare seen ends _ ∙ ap (◌∷◌ (src, dst, edge_type)) same,
    )

abbrev pub render {ℓ} : {A : Type ℓ} → (Text → A) → (EdgeText → A) → Line → A
render node_line edge_line (declared node) = node_line node
render node_line edge_line (linked edge) = edge_line edge

module _ (node_line : Text → Text) (edge_line : EdgeText → Text) where
  declare-render :
      (seen nodes : List Text)
      → declare node_line edge_line seen nodes
        ≡ (map (render node_line edge_line) (declared_by seen nodes).0, (declared_by seen nodes).1)
  unfolding declare
  declare-render seen [] = refl
  declare-render seen (node ∷ nodes) = elim (Bool-cases (contains seen node)) [
    | inl old ↦ rw old (declare-render seen nodes)
    | inr new ↦ rw new (rw (declare-render (node ∷ seen) nodes) refl)
  ]

  graph_lines-render :
      (seen : List Text) (edges : List EdgeText)
      → graph_lines node_line edge_line seen edges
        ≡ map (render node_line edge_line) (graph_lines declared linked seen edges)
  unfolding graph_lines
  graph_lines-render seen [] = refl
  graph_lines-render seen ((src, dst, edge_type) ∷ edges) =
      let ends = src ∷ dst ∷ [] in
      let seen' = (declared_by seen ends).1 in
      rw (declare-render seen ends) (
        rw (graph_lines-render seen' edges)
          (sym (map-append (render node_line edge_line) (declared_by seen ends).0 _)))

-- Both graph exporters write, between their first and last lines, one line for each item of a list
-- in which every node is declared once, before the first edge at it, and the edges stand as often
-- and in the order that they were given.
pub graphs-AreDeclared :
    (edges : List EdgeText) (labels : Text → Option Text) (is_alnum : ℕ → Bool)
    → (lines : List Line) × IsDeclared [] lines
      × (edges_of lines ≡ edges)
      × (dot_graph edges labels
          ≡ join_lines (
              codes "digraph provenance {"
                ∷ codes "  rankdir=TB;"
                ∷ codes "  node [shape=box];"
                ∷ map (render (dot_node labels) dot_edge) lines
              ++ codes "}" ∷ []))
      × (mermaid_graph is_alnum edges labels
          ≡ join_lines (
              codes "flowchart TD"
              ∷ map (render (mermaid_node is_alnum labels) (mermaid_edge is_alnum)) lines))
unfolding dot_graph mermaid_graph
graphs-AreDeclared edges labels is_alnum =
    let (fine, same) = lines_below [] edges in
    (
      graph_lines declared linked [] edges,
      fine,
      same,
      rw (graph_lines-render (dot_node labels) dot_edge [] edges) refl,
      rw (graph_lines-render (mermaid_node is_alnum labels) (mermaid_edge is_alnum) [] edges) refl,
    )
