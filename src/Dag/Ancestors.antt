-- ===== src/Dag/Ancestors.antt =====
-- `backward` without a depth limit: it ends, and returns exactly the ancestors.
use memory_blackbox.Prelude.{
  ℕ, zero, suc, ◌+◌, ◌≡◌, ◌≢◌, inl, inr, ◌↔◌, refl, sym, ap, ◌∙◌, true, false, List, [], ◌∷◌, ◌++◌,
  map, map-append, Option, none, some, arith, Text, length, contains, In, In-append, In-cons,
  not-In-nil, missing-le, Bool-cases, length-map, subst,
}
use memory_blackbox.Model.Edges.{EdgeType, Edge}
use memory_blackbox.Storage.{Db}
use memory_blackbox.Dag.{in_neighbors}
use memory_blackbox.Dag.Traverse.{
  Sweep, visit_children, forward_loop, Ascent, visit_parents, backward_loop, backward,
}
use memory_blackbox.Dag.Closure.{
  Reachable, seed, forward_loop_ends, visit_old, visit_new, In-neighbors,
}

-- The loop state of `forward_closure` that an ascent is, without its depths.
abbrev sweep : Ascent → Sweep
sweep s = record { visited = s.visited; queue = map (λ (e : Text × ℕ). e.0) s.queue }

-- The visited set is the start and the ancestors, and the start is no ancestor.
record IsAscent (node : Text) (s : Ascent) : Type 0 where
  split : s.visited ≡ node ∷ s.ancestors
  fresh : contains s.ancestors node ≡ false

abbrev add_parent : Ascent → ℕ → Text → Ascent
add_parent s depth x = record {
  visited = s.visited ++ x ∷ [];
  ancestors = s.ancestors ++ x ∷ [];
  queue = s.queue ++ (x, depth + 1) ∷ [];
}

parent_old :
    (s : Ascent) (depth : ℕ) (x : Text) (xs : List Text)
    → contains s.visited x ≡ true
    → visit_parents s depth (x ∷ xs) ≡ visit_parents s depth xs
unfolding visit_parents
parent_old s depth x xs h = rw (h, visit_parents)

parent_new :
    (s : Ascent) (depth : ℕ) (x : Text) (xs : List Text)
    → contains s.visited x ≡ false
    → visit_parents s depth (x ∷ xs) ≡ visit_parents (add_parent s depth x) depth xs
unfolding visit_parents
parent_new s depth x xs h = rw (h, visit_parents)

sweep-visit_parents :
    (s : Ascent) (depth : ℕ) (xs : List Text)
    → sweep (visit_parents s depth xs) ≡ visit_children (sweep s) xs
sweep-visit_parents s depth [] = unfold visit_parents visit_children in refl
sweep-visit_parents s depth (x ∷ xs) = elim (Bool-cases (contains s.visited x)) [
  | inl old ↦
      rw (parent_old s depth x xs old, visit_old (sweep s) x xs old)
        (sweep-visit_parents s depth xs)
  | inr new ↦
      rw (parent_new s depth x xs new, visit_new (sweep s) x xs new)
        (sweep-visit_parents (add_parent s depth x) depth xs
          ∙ ap (λ q. visit_children (record { visited = s.visited ++ x ∷ []; queue = q }) xs)
              (map-append (λ (e : Text × ℕ). e.0) s.queue ((x, depth + 1) ∷ [])))
]

visit_parents-IsAscent :
    (node : Text) (s : Ascent) (depth : ℕ) (xs : List Text)
    → IsAscent node s
    → IsAscent node (visit_parents s depth xs)
visit_parents-IsAscent node s depth [] h = unfold visit_parents in h
visit_parents-IsAscent node s depth (x ∷ xs) h = elim (Bool-cases (contains s.visited x)) [
  | inl old ↦ rw (parent_old s depth x xs old) (visit_parents-IsAscent node s depth xs h)
  | inr new ↦ rw (parent_new s depth x xs new) (
      visit_parents-IsAscent node (add_parent s depth x) depth xs (record {
        split = ap (λ l. l ++ x ∷ []) h.split;
        fresh = ground (
          arith,
          In-append node s.ancestors (x ∷ []),
          In-cons node x [],
          not-In-nil node,
          In-cons x node s.ancestors,
          h.split,
          ap (λ l. contains l x) h.split,
        );
      }))
]

-- Without a depth limit the loop is that of `forward_closure`, with the start taken out.
unlimited :
    (node : Text) (next : Text → List Text) (fuel : ℕ) (visited ancestors : List Text)
    (queue : List (Text × ℕ)) (r : List Text)
    → visited ≡ node ∷ ancestors
    → contains ancestors node ≡ false
    → forward_loop next fuel visited (map (λ (e : Text × ℕ). e.0) queue) ≡ some r
    → (found : List Text) × (backward_loop next none fuel visited ancestors queue ≡ some found)
      × (r ≡ node ∷ found)
      × (contains found node ≡ false)
unfolding forward_loop backward_loop
unlimited node next fuel visited ancestors [] r p q e = (ancestors, refl, cc, q)
unlimited node next zero visited ancestors ((u, d) ∷ queue) r p q e = cc
unlimited node next (suc fuel) visited ancestors ((u, d) ∷ queue) r p q e =
    let s : Ascent = record { visited = visited; ancestors = ancestors; queue = queue } in
    let s' = visit_parents s d (next u) in
    let kept = visit_parents-IsAscent node s d (next u) (record { split = p; fresh = q }) in
    unlimited node next fuel s'.visited s'.ancestors s'.queue r kept.split kept.fresh (
      subst (λ (w : Sweep). forward_loop next fuel w.visited w.queue ≡ some r)
        (sym (sweep-visit_parents s d (next u))) e)

-- Without a depth limit `backward` returns within its fuel, and returns exactly the nodes other
-- than `node` from which edges of the given types (all edges for `None`) lead to it.
pub backward-Reachable :
    (db : Db) (node : Text) (types : Option (List EdgeType))
    → (r : List Text) × (backward db node types none ≡ some r)
      × ((v : Text)
          → In v r ↔ ((v ≢ node) × Reachable (λ n. in_neighbors db n types) (node ∷ []) v))
unfolding backward
backward-Reachable db node types =
    let next = λ (n : Text). in_neighbors db n types in
    let all = map (λ (e : Edge). e.src) db.edges in
    let (visited, ends, exact) =
      forward_loop_ends next (node ∷ []) all
        (λ u v i.
          unfold in_neighbors in In-neighbors (λ e. e.src) (λ e. e.dst) u v types db.edges i)
        (1 + length db.edges) (node ∷ []) (node ∷ [])
        (omega (arith, missing-le all (node ∷ []), length-map (λ (e : Edge). e.src) db.edges))
        (record {
          seeded = λ v i. i;
          queued = λ v i. i;
          sound = λ v i. seed i;
          closed = λ u v i e. inl i;
        }) in
    let (found, same, parts, fresh) =
      unlimited node next (1 + length db.edges) (node ∷ []) [] ((node, 0) ∷ []) visited refl
        (unfold contains in refl) ends in
    (
      found,
      same,
      λ v. (
        λ i. (
          λ e. cc (i, fresh, ap (contains found) e),
          (exact v).0 (subst (In v) (sym parts) ((In-cons v node found).1 (inr i))),
        ),
        λ h. elim ((In-cons v node found).0 (subst (In v) parts ((exact v).1 h.1))) [
          | inl e ↦ absurd (h.0 (sym e))
          | inr i ↦ i
        ],
      ),
    )
