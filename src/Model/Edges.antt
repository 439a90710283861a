-- ===== src/Model/Edges.antt =====
-- src/memory_blackbox/model/edges.py
use memory_blackbox.Prelude.{Text, codes}

pub data EdgeType : Type 0 where
  derived_from retrieved influenced contextualized contributed_to rolled_back_by : EdgeType

unfoldable pub edge_type_value : EdgeType → Text
edge_type_value derived_from = codes "DERIVED_FROM"
edge_type_value retrieved = codes "RETRIEVED"
edge_type_value influenced = codes "INFLUENCED"
edge_type_value contextualized = codes "CONTEXTUALIZED"
edge_type_value contributed_to = codes "CONTRIBUTED_TO"
edge_type_value rolled_back_by = codes "ROLLED_BACK_BY"

-- A directed lineage edge.
pub record Edge : Type 0 where
  pub src : Text
  pub dst : Text
  pub edge_type : Text
  pub created_at : Text
