-- ===== src/Exporters/Graph.antt =====
-- src/memory_blackbox/exporters/dot.py and src/memory_blackbox/exporters/mermaid.py. `is_alnum`
-- stands for `str.isalnum` of one character, whose tables are the Unicode database's.
use memory_blackbox.Prelude.{
  ℕ, Bool, List, [], ◌∷◌, ◌++◌, map, Option, none, some, Text, codes, nat_eq, take, contains,
  if◌then◌else◌,
}
use memory_blackbox.Model.Json.{Json, null}
use memory_blackbox.Query.Timeline.{Event}

-- An edge: source, destination, type.
abbrev pub EdgeText : Type 0
EdgeText = Text × Text × Text

-- `"\n".join(lines)`
unfoldable pub join_lines : List Text → Text
join_lines [] = []
join_lines (line ∷ []) = line
join_lines (line ∷ next ∷ lines) = line ++ 10 ∷ join_lines (next ∷ lines)

-- The loop of both `provenance_graph` functions, for the line of a node and that of an edge.
module _ {ℓ} {A : Type ℓ} (node_line : Text → A) (edge_line : EdgeText → A) where
  -- The inner loop: the lines that it appends, and the nodes seen after it.
  unfoldable pub declare : List Text → List Text → List A × List Text
  declare seen [] = ([], seen)
  declare seen (node ∷ nodes) =
      let old = declare seen nodes in
      let new = declare (node ∷ seen) nodes in
      if contains seen node then old else (node_line node ∷ new.0, new.1)

  unfoldable pub graph_lines : List Text → List EdgeText → List A
  graph_lines seen [] = []
  graph_lines seen ((src, dst, edge_type) ∷ edges) =
      let (lines, seen') = declare seen (src ∷ dst ∷ []) in
      lines ++ edge_line (src, dst, edge_type) ∷ graph_lines seen' edges

-- `labels.get(node, node[:12])`
abbrev pub label_or_start : (Text → Option Text) → Text → Text
label_or_start labels node = elim (labels node) [ none ↦ take 12 node | some label ↦ label ]

-- `raw.replace('"', '\\"')`
unfoldable pub escape_quotes : Text → Text
escape_quotes [] = []
escape_quotes (x ∷ s) =
    let rest = escape_quotes s in if nat_eq x 34 then 92 ∷ 34 ∷ rest else x ∷ rest

-- `_quote`
unfoldable pub quote_text : Text → Text
quote_text raw = 34 ∷ escape_quotes raw ++ 34 ∷ []

unfoldable pub dot_node : (Text → Option Text) → Text → Text
dot_node labels node =
    codes "  "
    ++ quote_text node
    ++ codes " [label="
    ++ quote_text (label_or_start labels node)
    ++ codes "];"

unfoldable pub dot_edge : EdgeText → Text
dot_edge (src, dst, edge_type) =
    codes "  "
    ++ quote_text src
    ++ codes " -> "
    ++ quote_text dst
    ++ codes " [label="
    ++ quote_text edge_type
    ++ codes "];"

-- `dot.provenance_graph`
unfoldable pub dot_graph : List EdgeText → (Text → Option Text) → Text
dot_graph edges labels = join_lines (
    codes "digraph provenance {"
      ∷ codes "  rankdir=TB;"
      ∷ codes "  node [shape=box];"
      ∷ graph_lines (dot_node labels) dot_edge [] edges
    ++ codes "}" ∷ [])

module _ (is_alnum : ℕ → Bool) where
  abbrev pub safe_character : ℕ → ℕ
  safe_character x = if is_alnum x then x else 95

  -- `_node_id`
  unfoldable pub node_id : Text → Text
  node_id raw = codes "n_" ++ map safe_character raw

  unfoldable pub mermaid_node : (Text → Option Text) → Text → Text
  mermaid_node labels node =
      codes "    " ++ node_id node ++ 91 ∷ 34 ∷ label_or_start labels node ++ 34 ∷ 93 ∷ []

  unfoldable pub mermaid_edge : EdgeText → Text
  mermaid_edge (src, dst, edge_type) =
      codes "    " ++ node_id src ++ codes " -->|" ++ edge_type ++ codes "| " ++ node_id dst

  -- `mermaid.provenance_graph`
  unfoldable pub mermaid_graph : List EdgeText → (Text → Option Text) → Text
  mermaid_graph edges labels =
      join_lines (codes "flowchart TD" ∷ graph_lines (mermaid_node labels) mermaid_edge [] edges)

-- `s.replace("Z", "").split(".")[0]`, and `s.replace(":", " ")`.
unfoldable pub drop_zone : Text → Text
drop_zone [] = []
drop_zone (x ∷ s) = let rest = drop_zone s in if nat_eq x 90 then rest else x ∷ rest

unfoldable pub before_dot : Text → Text
before_dot [] = []
before_dot (x ∷ s) = let rest = before_dot s in if nat_eq x 46 then [] else x ∷ rest

unfoldable pub blank_colons : Text → Text
blank_colons s = map (λ x. if nat_eq x 58 then 32 else x) s

module _ (show : Option Json → Text) (same : Option Json → Option Json → Bool) where
  unfoldable pub event_line : Event → Text
  event_line event =
      codes "    "
      ++ blank_colons (take 24 event.text)
      ++ codes " :milestone, "
      ++ before_dot (drop_zone event.timestamp)
      ++ codes ", 0d"

  -- The loop of `timeline_gantt`. `show` and `same` are the formatting and the equality of parsed
  -- values; a kind that is missing is the empty text, and `None` is the null value.
  unfoldable pub gantt_lines : Option Json → List Event → List Text
  gantt_lines section [] = []
  gantt_lines section (event ∷ events) =
      let rest = event_line event ∷ gantt_lines event.kind events in
      if same event.kind section then rest else (codes "    section " ++ show event.kind) ∷ rest

  unfoldable pub timeline_gantt : List Event → Text → Text
  timeline_gantt events title = join_lines (
      codes "gantt"
      ∷ (codes "    title " ++ title)
      ∷ codes "    dateFormat YYYY-MM-DDTHH:mm:ss"
      ∷ codes "    axisFormat %H:%M"
      ∷ gantt_lines (some null) events)
