-- ===== src/Dag/Edges.antt =====
-- The edge table: referential integrity, no edge twice, and what `add_edge` changes.
use memory_blackbox.Prelude.{
  ◌≡◌, ◌⊎◌, inl, inr, ◌↔◌, refl, ap, ◌∙◌, Bool, true, false, ◌&&◌, ◌||◌, List, [], ◌∷◌, ◌++◌, arith,
  Text, All, All-append, ok, err, unknown_node, eq_iff, ◌==◌, Bool-cases,
}
use memory_blackbox.Model.Edges.{EdgeType, edge_type_value, Edge}
use memory_blackbox.Storage.{Db}
use memory_blackbox.Dag.{has_edge, add_edge}

-- Both ends of every edge are known.
abbrev pub IsAnchored : (Text → Bool) → List Edge → Type 0
IsAnchored node_exists = All (λ (e : Edge). (node_exists e.src ≡ true) × (node_exists e.dst ≡ true))

-- No edge stands twice: the primary key.
abbrev pub IsKeyed : List Edge → Type 0
IsKeyed [] = Unit
IsKeyed (e ∷ es) = (has_edge e.src e.dst e.edge_type es ≡ false) × IsKeyed es

has_edge-append :
    (src dst t : Text) (es fs : List Edge)
    → has_edge src dst t (es ++ fs) ≡ (has_edge src dst t es || has_edge src dst t fs)
unfolding has_edge
has_edge-append src dst t [] fs = refl
has_edge-append src dst t (e ∷ es) fs = ground (arith, has_edge-append src dst t es fs)

IsKeyed-concat :
    (es : List Edge) (e : Edge)
    → IsKeyed es
    → has_edge e.src e.dst e.edge_type es ≡ false
    → IsKeyed (es ++ e ∷ [])
unfolding has_edge
IsKeyed-concat [] e k h = (refl, tt)
IsKeyed-concat (f ∷ es) e k h = (
  ground (
    arith,
    has_edge-append f.src f.dst f.edge_type es (e ∷ []),
    eq_iff e.src f.src,
    eq_iff e.dst f.dst,
    eq_iff e.edge_type f.edge_type,
    eq_iff f.src e.src,
    eq_iff f.dst e.dst,
    eq_iff f.edge_type e.edge_type,
  ),
  IsKeyed-concat es e k.1 (ground arith),
)

module _ (node_exists : Text → Bool) (db : Db) (src dst : Text) (t : EdgeType) (now : Text) where
  abbrev key : Text
  key = edge_type_value t

  abbrev new_edge : Edge
  new_edge = record { src = src; dst = dst; edge_type = key; created_at = now }

  -- The two ways in which `add_edge` succeeds.
  add_edge-cases :
      (db' : Db)
      → add_edge node_exists db src dst t now ≡ ok db'
      → (node_exists src ≡ true)
        × (node_exists dst ≡ true)
        × (((has_edge src dst key db.edges ≡ true) × (db' ≡ db))
            ⊎ ((has_edge src dst key db.edges ≡ false)
                × (db' ≡ record db { edges = db.edges ++ new_edge ∷ [] })))
  unfolding add_edge
  add_edge-cases db' h = ground arith

  -- Nothing but the edges changes.
  pub add_edge-rest :
      (db' : Db)
      → add_edge node_exists db src dst t now ≡ ok db'
      → (edges : List Edge) × (db' ≡ record db { edges = edges })
  add_edge-rest db' h =
      let (a, b, change) = add_edge-cases db' h in
      elim change [
        | inl (found, e) ↦ (db.edges, e)
        | inr (fresh, e) ↦ (db.edges ++ new_edge ∷ [], e)
      ]

  has_edge_found :
      (s d u : Text) (es : List Edge)
      → has_edge src dst key es ≡ true
      → has_edge s d u es ≡ (has_edge s d u es || (src == s && dst == d && key == u))
  has_edge_found s d u es h = elim (Bool-cases (src == s && dst == d && key == u)) [
    | inl same ↦
        let e : (src ≡ s) × (dst ≡ d) × (key ≡ u) =
          ground (arith, eq_iff src s, eq_iff dst d, eq_iff key u) in
        rw (← e.0) (rw (← e.1) (rw (← e.2) (ground arith)))
    | inr other ↦ ground arith
  ]

  has_edge_added :
      (s d u : Text) (es : List Edge)
      → has_edge s d u (es ++ new_edge ∷ [])
        ≡ (has_edge s d u es || (src == s && dst == d && key == u))
  has_edge_added s d u es =
      has_edge-append s d u es (new_edge ∷ []) ∙ unfold has_edge in ground arith

  -- If `add_edge` succeeds, both ends are known, the edge is in the table, every other edge is in
  -- it exactly as before, and the ledger and the checkpoints are as before.
  pub add_edge-has_edge :
      (db' : Db)
      → add_edge node_exists db src dst t now ≡ ok db'
      → (node_exists src ≡ true)
        × (node_exists dst ≡ true)
        × ((s d u : Text)
            → has_edge s d u db'.edges
              ≡ (has_edge s d u db.edges || (src == s && dst == d && edge_type_value t == u)))
        × (db'.ledger ≡ db.ledger)
        × (db'.checkpoints ≡ db.checkpoints)
  add_edge-has_edge db' h =
      let (a, b, change) = add_edge-cases db' h in
      elim change [
        | inl (found, e) ↦ (
          a,
          b,
          λ s d u. rw e (has_edge_found s d u db.edges found),
          ap (λ (x : Db). x.ledger) e,
          ap (λ (x : Db). x.checkpoints) e,
        )
        | inr (_, e) ↦ (
          a,
          b,
          λ s d u. rw e (has_edge_added s d u db.edges),
          ap (λ (x : Db). x.ledger) e,
          ap (λ (x : Db). x.checkpoints) e,
        )
      ]

  pub add_edge-unknown :
      (add_edge node_exists db src dst t now ≡ err unknown_node)
      ↔ ((node_exists src ≡ false) ⊎ (node_exists dst ≡ false))
  unfolding add_edge
  add_edge-unknown = ground arith

  -- `add_edge`, when it succeeds, keeps an edge table whose edges have known ends and of which none
  -- stands twice in that form.
  pub add_edge-IsAnchored :
      (db' : Db)
      → add_edge node_exists db src dst t now ≡ ok db'
      → IsAnchored node_exists db.edges
      → IsKeyed db.edges
      → IsAnchored node_exists db'.edges × IsKeyed db'.edges
  add_edge-IsAnchored db' h a k =
      let (p, q, change) = add_edge-cases db' h in
      elim change [
        | inl (found, e) ↦ rw e (a, k)
        | inr (fresh, e) ↦ rw e (
          All-append _ db.edges (new_edge ∷ []) a ((p, q), tt),
          IsKeyed-concat db.edges new_edge k fresh,
        )
      ]
