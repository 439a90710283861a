-- ===== src/Capture/Linking.antt =====
-- The edges that a recording method adds behind its append: which they are, that adding them does
-- not fail, and that they touch nothing but the edge table.
use memory_blackbox.Prelude.{
  ◌≡◌, inl, inr, refl, ap, ◌∙◌, Bool, true, false, ◌&&◌, ◌||◌, List, [], ◌∷◌, ◌++◌, map, arith,
  Text, contains, ok, fun_ext, eq_iff, ◌==◌, Bool-cases, subst,
}
use memory_blackbox.Model.Edges.{EdgeType, edge_type_value, Edge}
use memory_blackbox.Storage.{Row, Db}
use memory_blackbox.Ledger.Store.{LedgerStore, is_taken, find_row}
use memory_blackbox.Ledger.Store
use memory_blackbox.Dag.{has_edge, add_edge, exists_in_ledger}
use memory_blackbox.Dag.Edges.{
  IsAnchored, IsKeyed, add_edge-has_edge, add_edge-rest, add_edge-IsAnchored,
}
use memory_blackbox.Capture.Engine.{Links, add_known_edge, add_links}

-- A record id that stands in these rows.
abbrev pub knows : List Row → Text → Bool
knows rows id = contains (map (λ (row : Row). row.record_id) rows) id

pub find_row-knows : (id : Text) (rows : List Row) → is_taken (find_row id rows) ≡ knows rows id
unfolding contains
find_row-knows id [] = refl
find_row-knows id (row ∷ rows) = ground (arith, find_row-knows id rows)

-- Whether a source and a type stand among the links.
abbrev pub is_link : Text → Text → Links → Bool
is_link src t [] = false
is_link src t ((id, edge_type) ∷ links) =
    (id == src && edge_type_value edge_type == t) || is_link src t links

-- The second store has more edges, namely those that `added` says, and is else the first; known
-- ends and the primary key of the edges are kept.
pub record Grows (rows : List Row) (added : Text → Text → Text → Bool) (s t : LedgerStore)
    : Type 0 where
  pub only_edges : t ≡ record s { db = record s.db { edges = t.edges } }
  pub has : (a b u : Text) → has_edge a b u t.edges ≡ (has_edge a b u s.edges || added a b u)
  pub kept :
      IsAnchored (knows rows) s.edges
      → IsKeyed s.edges
      → IsAnchored (knows rows) t.edges × IsKeyed t.edges

-- With known ends `add_edge` does not fail.
add_edge_total :
    (node_exists : Text → Bool) (db : Db) (src dst : Text) (t : EdgeType) (now : Text)
    → node_exists src ≡ true
    → node_exists dst ≡ true
    → (db' : Db) × (add_edge node_exists db src dst t now ≡ ok db')
unfolding add_edge
add_edge_total node_exists db src dst t now p q =
    let edge : Edge = record {
      src = src;
      dst = dst;
      edge_type = edge_type_value t;
      created_at = now;
    } in
    elim (Bool-cases (has_edge src dst (edge_type_value t) db.edges)) [
      | inl old ↦ (db, rw (p, q, old))
      | inr new ↦ (record db { edges = db.edges ++ edge ∷ [] }, rw (p, q, new))
    ]

Grows-refl :
    (rows : List Row) (added : Text → Text → Text → Bool) (s : LedgerStore)
    → ((a b u : Text) → added a b u ≡ false)
    → Grows rows added s s
Grows-refl rows added s h = record {
  only_edges = refl;
  has = λ a b u. ground (arith, h a b u);
  kept = λ a k. (a, k);
}

Grows-trans :
    (rows : List Row) (f g h : Text → Text → Text → Bool) (s t u : LedgerStore)
    → ((a b v : Text) → h a b v ≡ (f a b v || g a b v))
    → Grows rows f s t
    → Grows rows g t u
    → Grows rows h s u
Grows-trans rows f g h s t u same p q = record {
  only_edges =
      q.only_edges
      ∙ ap (λ (x : LedgerStore). record x { db = record x.db { edges = u.edges } }) p.only_edges;
  has = λ a b v. ground (arith, p.has a b v, q.has a b v, same a b v);
  kept = λ a k. let (a', k') = p.kept a k in q.kept a' k';
}

module _ (rows : List Row) (dst : Text) where
  abbrev one_edge : Text → EdgeType → Text → Text → Text → Bool
  one_edge src t a b u =
      knows rows src && knows rows dst && (src == a && dst == b && edge_type_value t == u)

  module _ (s : LedgerStore) (src : Text) (t : EdgeType) (now : Text) (e : s.ledger ≡ rows) where
    taken : (id : Text) → is_taken (Store.get s id) ≡ knows rows id
    unfolding Store.get
    taken id = find_row-knows id s.ledger ∙ ap (λ l. knows l id) e

    exists : (id : Text) → exists_in_ledger s.db id ≡ knows rows id
    unfolding exists_in_ledger
    exists id = ap (λ l. knows l id) e

    add_known_edge_skip :
        (knows rows src && knows rows dst) ≡ false → add_known_edge s src dst t now ≡ ok s
    unfolding add_known_edge
    add_known_edge_skip h = ground (arith, taken src, taken dst)

    add_known_edge_make :
        (db : Db)
        → (knows rows src && knows rows dst) ≡ true
        → add_edge (exists_in_ledger s.db) s.db src dst t now ≡ ok db
        → add_known_edge s src dst t now ≡ ok (record s { db = db })
    unfolding add_known_edge
    add_known_edge_make db h f = ground (arith, taken src, taken dst)

    add_edge-Grows :
        (db : Db)
        → (knows rows src && knows rows dst) ≡ true
        → add_edge (exists_in_ledger s.db) s.db src dst t now ≡ ok db
        → Grows rows (one_edge src t) s (record s { db = db })
    add_edge-Grows db h f =
        let k = exists_in_ledger s.db in
        let (edges, only) = add_edge-rest k s.db src dst t now db f in
        let (_, _, has, _, _) = add_edge-has_edge k s.db src dst t now db f in
        let same : k ≡ knows rows = fun_ext exists in
        record {
          only_edges = ap (λ (x : Db). record s { db = record x { edges = db.edges } }) only;
          has = λ a b u. ground (arith, has a b u);
          kept = λ a key.
              subst (λ q. IsAnchored q s.edges → IsAnchored q db.edges × IsKeyed db.edges) same
                (λ a'. add_edge-IsAnchored k s.db src dst t now db f a' key) a;
        }

    -- Adding one edge: nothing where an end is unknown, else the edge.
    pub add_known_edge_lem :
        (s' : LedgerStore) × (add_known_edge s src dst t now ≡ ok s')
        × Grows rows (one_edge src t) s s'
    add_known_edge_lem = elim (Bool-cases (knows rows src && knows rows dst)) [
      | inl known ↦
          let (db, f) =
            add_edge_total (exists_in_ledger s.db) s.db src dst t now (ground (arith, exists src))
              (ground (arith, exists dst)) in
          (record s { db = db }, add_known_edge_make db known f, add_edge-Grows db known f)
      | inr unknown ↦ (
        s,
        add_known_edge_skip unknown,
        Grows-refl rows (one_edge src t) s (λ a b u. ground arith),
      )
    ]

  -- The edges of a list of links: those whose source is known, into a known record.
  abbrev pub link_edge : Links → Text → Text → Text → Bool
  link_edge links a b u = knows rows dst && dst == b && knows rows a && is_link a u links

  link_edge-cons :
      (src : Text) (t : EdgeType) (links : Links) (a b u : Text)
      → link_edge ((src, t) ∷ links) a b u ≡ (one_edge src t a b u || link_edge links a b u)
  link_edge-cons src t links a b u = ground (arith, eq_iff src a, ap (knows rows))

  pub add_links_step :
      (s mid : LedgerStore) (src : Text) (t : EdgeType) (links : Links) (now : Text)
      → add_known_edge s src dst t now ≡ ok mid
      → add_links s dst ((src, t) ∷ links) now ≡ add_links mid dst links now
  unfolding add_links
  add_links_step s mid src t links now h = rw (h, add_links)

  -- The loop over the links does not fail, and adds exactly the edges of known sources.
  pub add_links_lem :
      (links : Links) (s : LedgerStore) (now : Text)
      → s.ledger ≡ rows
      → (s' : LedgerStore) × (add_links s dst links now ≡ (s', ok tt))
        × Grows rows (link_edge links) s s'
  add_links_lem [] s now e =
      (s, unfold add_links in refl, Grows-refl rows (link_edge []) s (λ a b u. ground arith))
  add_links_lem ((src, t) ∷ links) s now e =
      let (mid, first, grown) = add_known_edge_lem s src t now e in
      let kept : mid.ledger ≡ rows = ap (λ (x : LedgerStore). x.ledger) grown.only_edges ∙ e in
      let (s', later, grown') = add_links_lem links mid now kept in
      (
        s',
        add_links_step s mid src t links now first ∙ later,
        Grows-trans rows (one_edge src t) (link_edge links) (link_edge ((src, t) ∷ links)) s mid s'
            (λ a b u. link_edge-cons src t links a b u) grown grown',
      )
