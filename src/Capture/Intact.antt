-- ===== src/Capture/Intact.antt =====
-- The invariant of the whole database: a chain in order, ids that stand once, and a provenance
-- graph whose edges lead from a record to a later one.
use memory_blackbox.Prelude.{
  ◌≡◌, ◌⊎◌, inl, inr, refl, sym, ap, ◌∙◌, true, false, ◌||◌, List, [], ◌∷◌, ◌++◌, map, arith, Text,
  eq_iff, subst, contains, In-append, In-cons, not-In-nil, map-append, append_assoc, Distinct,
  Bool-cases,
}
use memory_blackbox.Crypto.{Primitives, IsSound}
use memory_blackbox.Model.Json.{Orjson}
use memory_blackbox.Model.Records.{LedgerRecord, id_of}
use memory_blackbox.Model.Edges.{Edge}
use memory_blackbox.Storage.{Row}
use memory_blackbox.Ledger.Store.{LedgerStore, append, is_taken, row_for}
use memory_blackbox.Ledger.Store
use memory_blackbox.Ledger.Payloads.{append-rest}
use memory_blackbox.Ledger.Honest.{IsConsistent, append-IsConsistent}
use memory_blackbox.Dag.{has_edge}
use memory_blackbox.Dag.Edges.{IsAnchored, IsKeyed}
use memory_blackbox.Capture.Engine.{Links}
use memory_blackbox.Capture.Linking.{knows, find_row-knows}
use memory_blackbox.Capture.Effect.{Logged, Logged-Recorded, Recorded}

-- The rows split at a row with the id `b`, and `a` is that id or the id of a row before it.
pub record Precedes (rows : List Row) (a b : Text) : Type 0 where
  pub before : List Row
  pub row : Row
  pub after : List Row
  pub split : rows ≡ before ++ row ∷ after
  pub named : row.record_id ≡ b
  pub earlier : (a ≡ b) ⊎ (knows before a ≡ true)

pub record IsIntact (c : Primitives) (s : LedgerStore) : Type 0 where
  pub consistent : IsConsistent c s
  pub distinct : Distinct (map (λ (row : Row). row.record_id) s.ledger)
  pub anchored : IsAnchored (knows s.ledger) s.edges
  pub keyed : IsKeyed s.edges
  pub forward : (a b u : Text) → has_edge a b u s.edges ≡ true → Precedes s.ledger a b

Distinct-concat :
    (xs : List Text) (x : Text) → Distinct xs → contains xs x ≡ false → Distinct (xs ++ x ∷ [])
unfolding contains
Distinct-concat [] x d h = (refl, tt)
Distinct-concat (y ∷ xs) x d h = (
  ground (arith, In-append y xs (x ∷ []), In-cons y x [], eq_iff x y, eq_iff y x),
  Distinct-concat xs x d.1 (ground arith),
)

Precedes-append :
    {rows : List Row} {a b : Text} (more : List Row)
    → Precedes rows a b
    → Precedes (rows ++ more) a b
Precedes-append more p = record {
  before = p.before;
  row = p.row;
  after = p.after ++ more;
  split = ap (λ l. l ++ more) p.split ∙ append_assoc p.before (p.row ∷ p.after) more;
  named = p.named;
  earlier = p.earlier;
}

knows-append :
    (rows more : List Row) (id : Text) → knows (rows ++ more) id ≡ (knows rows id || knows more id)
knows-append rows more id =
    let ids = λ (l : List Row). map (λ (r : Row). r.record_id) l in
    rw map-append (ground (arith, In-append id (ids rows) (ids more)))

-- What is known with the last row is known before it, or is its id.
earlier_of :
    (rows : List Row) (row : Row) (a b : Text)
    → row.record_id ≡ b
    → knows (rows ++ row ∷ []) a ≡ true
    → (a ≡ b) ⊎ (knows rows a ≡ true)
earlier_of rows row a b named h = elim (Bool-cases (knows rows a)) [
  | inl old ↦ inr old
  | inr new ↦
      let here : contains (row.record_id ∷ []) a ≡ true =
        ground (arith, knows-append rows (row ∷ []) a) in
      inl (ground (arith, In-cons a row.record_id [], not-In-nil a))
]

IsAnchored-append :
    (rows more : List Row) (es : List Edge)
    → IsAnchored (knows rows) es
    → IsAnchored (knows (rows ++ more)) es
IsAnchored-append rows more [] h = tt
IsAnchored-append rows more (e ∷ es) h = (
  (
    ground (arith, h.0.0, knows-append rows more e.src),
    ground (arith, h.0.1, knows-append rows more e.dst),
  ),
  IsAnchored-append rows more es h.1,
)

module _ (c : Primitives) (json : Orjson) (sound : IsSound c) where
  module _ (r : LedgerRecord) (links : Links) (s t : LedgerStore) where
    -- A store that differs in its edges alone is as consistent.
    Logged-IsConsistent : IsIntact c s → Logged c json r links s t → IsConsistent c t
    Logged-IsConsistent h l =
        let k =
          append-IsConsistent c sound json s l.mid r l.stamped l.now l.later l.run h.consistent in
        subst (IsConsistent c) (sym l.grown.only_edges) (record {
          keyed = k.keyed;
          chained = k.chained;
          cached = k.cached;
          committed = k.committed;
        })

    forward_step :
        IsIntact c s
        → (q : Recorded (id_of r) links s t) → (a b u : Text) → has_edge a b u t.edges ≡ true
        → Precedes t.ledger a b
    forward_step h q a b u e = elim (Bool-cases (has_edge a b u s.edges)) [
      | inl old ↦
          subst (λ rows. Precedes rows a b) (sym q.appended)
            (Precedes-append (q.row ∷ []) (h.forward a b u old))
      | inr new ↦
          let same : id_of r ≡ b = ground (arith, q.edges a b u, eq_iff (id_of r) b) in
          let known : knows t.ledger a ≡ true = ground (arith, q.edges a b u) in
          record {
            before = s.ledger;
            row = q.row;
            after = [];
            split = q.appended;
            named = q.named ∙ same;
            earlier =
                earlier_of s.ledger q.row a b (q.named ∙ same)
                  (sym (ap (λ l. knows l a) q.appended) ∙ known);
          }
    ]

    Logged-edges :
        IsIntact c s
        → Logged c json r links s t
        → IsAnchored (knows t.ledger) t.edges × IsKeyed t.edges
    Logged-edges h l =
        let (rows, edges, _) = append-rest c json s l.mid r l.stamped l.now l.later l.run in
        let kept : t.ledger ≡ l.mid.ledger =
          ap (λ (x : LedgerStore). x.ledger) l.grown.only_edges in
        let (a, k) =
          l.grown.kept
            (subst (IsAnchored (knows l.mid.ledger)) (sym edges) (
              subst (λ (x : List Row). IsAnchored (knows x) s.edges) (sym rows)
                (IsAnchored-append s.ledger _ s.edges h.anchored)))
            (subst IsKeyed (sym edges) h.keyed) in
        (subst (λ (x : List Row). IsAnchored (knows x) t.edges) (sym kept) a, k)

    logged_ids :
        IsIntact c s
        → Recorded (id_of r) links s t
        → knows s.ledger (id_of r) ≡ false
        → Distinct (map (λ (row : Row). row.record_id) t.ledger)
    logged_ids h q fresh =
        subst (λ (x : List Row). Distinct (map (λ (row : Row). row.record_id) x)) (sym q.appended)
          (rw map-append
            (Distinct-concat _ q.row.record_id h.distinct (ap (knows s.ledger) q.named ∙ fresh)))

    -- Logging a record keeps the invariant.
    pub Logged-IsIntact : IsIntact c s → Logged c json r links s t → IsIntact c t
    unfolding Store.get
    Logged-IsIntact h l =
        let q = Logged-Recorded c json l in
        let (_, _, fresh) = append-rest c json s l.mid r l.stamped l.now l.later l.run in
        let (anchored, keyed) = Logged-edges h l in
        record {
          consistent = Logged-IsConsistent h l;
          distinct = logged_ids h q (sym (find_row-knows (id_of r) s.ledger) ∙ fresh);
          anchored = anchored;
          keyed = keyed;
          forward = forward_step h q;
        }

-- The invariant reads two tables, beside the chain and its checkpoints.
pub same_tables-IsIntact :
    (c : Primitives) (s t : LedgerStore)
    → IsIntact c s
    → IsConsistent c t
    → t.ledger ≡ s.ledger
    → t.edges ≡ s.edges
    → IsIntact c t
same_tables-IsIntact c s t h consistent rows edges = record {
  consistent = consistent;
  distinct =
      subst (λ (x : List Row). Distinct (map (λ (row : Row). row.record_id) x)) (sym rows)
        h.distinct;
  anchored =
      subst (IsAnchored (knows t.ledger)) (sym edges)
        (subst (λ (x : List Row). IsAnchored (knows x) s.edges) (sym rows) h.anchored);
  keyed = subst IsKeyed (sym edges) h.keyed;
  forward = λ a b u e.
      subst (λ (x : List Row). Precedes x a b) (sym rows)
        (h.forward a b u (sym (ap (has_edge a b u) edges) ∙ e));
}
