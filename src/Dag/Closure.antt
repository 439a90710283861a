-- ===== src/Dag/Closure.antt =====
-- `forward_closure` ends, and returns exactly what the edges lead to from the seeds.
use memory_blackbox.Prelude.{
  ℕ, zero, suc, ◌+◌, ◌≤◌, ◌≡◌, ◌⊎◌, inl, inr, ◌↔◌, refl, sym, ap, ◌∙◌, true, false, List, [], ◌∷◌,
  ◌++◌, map, Option, none, some, arith, Text, length, length-append, contains, In, In-append,
  In-cons, not-In-nil, to_set, In-to_set, length-to_set, missing, missing-le, missing-insert,
  Bool-cases, length-map, eq_cases, subst,
}
use memory_blackbox.Model.Edges.{EdgeType, Edge}
use memory_blackbox.Storage.{Db}
use memory_blackbox.Dag.{neighbors, out_neighbors}
use memory_blackbox.Dag.Traverse.{Sweep, visit_children, forward_loop, forward_closure}

-- What the neighbour function leads to from the seeds.
pub data Reachable (next : Text → List Text) (seeds : List Text) : Text → Type 0 where
  seed : {n : Text} → In n seeds → Reachable next seeds n
  along : {m n : Text} → Reachable next seeds m → In n (next m) → Reachable next seeds n

pub visit_old :
    (s : Sweep) (x : Text) (xs : List Text)
    → contains s.visited x ≡ true
    → visit_children s (x ∷ xs) ≡ visit_children s xs
unfolding visit_children
visit_old s x xs h = rw (h, visit_children)

pub visit_new :
    (s : Sweep) (x : Text) (xs : List Text)
    → contains s.visited x ≡ false
    → visit_children s (x ∷ xs)
      ≡ visit_children (record { visited = s.visited ++ x ∷ []; queue = s.queue ++ x ∷ [] }) xs
unfolding visit_children
visit_new s x xs h = rw (h, visit_children)

visited_children :
    (s : Sweep) (xs : List Text) (v : Text)
    → In v (visit_children s xs).visited ↔ (In v s.visited ⊎ In v xs)
visited_children s [] v = unfold visit_children in (inl, λ h. ground (arith, not-In-nil v))
visited_children s (x ∷ xs) v = elim (Bool-cases (contains s.visited x)) [
  | inl old ↦ rw (visit_old s x xs old) (ground (arith, visited_children s xs v, In-cons v x xs))
  | inr new ↦
      let s' : Sweep = record { visited = s.visited ++ x ∷ []; queue = s.queue ++ x ∷ [] } in
      rw (visit_new s x xs new) (
        ground (
          arith,
          visited_children s' xs v,
          In-cons v x xs,
          In-append v s.visited (x ∷ []),
          In-cons v x [],
          not-In-nil v,
        ))
]

-- What is newly visited is in the queue, and the queue keeps what it had.
queued_children :
    (s : Sweep) (xs : List Text) (v : Text)
    → (In v s.queue → In v (visit_children s xs).queue)
      × (In v (visit_children s xs).visited → In v s.visited ⊎ In v (visit_children s xs).queue)
      × (In v (visit_children s xs).queue → In v s.queue ⊎ In v xs)
queued_children s [] v = unfold visit_children in (λ h. h, inl, inl)
queued_children s (x ∷ xs) v = elim (Bool-cases (contains s.visited x)) [
  | inl old ↦ rw (visit_old s x xs old) (ground (arith, queued_children s xs v, In-cons v x xs))
  | inr new ↦
      let s' : Sweep = record { visited = s.visited ++ x ∷ []; queue = s.queue ++ x ∷ [] } in
      rw (visit_new s x xs new) (
        ground (
          arith,
          queued_children s' xs v,
          In-cons v x xs,
          In-append v s.visited (x ∷ []),
          In-append v s.queue (x ∷ []),
          In-cons v x [],
          not-In-nil v,
        ))
]

-- Each entry of the queue is paid for by an item that is missing no more.
visit_children_cost :
    (all : List Text) (s : Sweep) (xs : List Text)
    → ((v : Text) → In v xs → In v all)
    → length (visit_children s xs).queue + missing all (visit_children s xs).visited
      ≤ length s.queue + missing all s.visited
visit_children_cost all s [] h = unfold visit_children in omega arith
visit_children_cost all s (x ∷ xs) h =
    let tail = λ (v : Text) (i : In v xs). h v ((In-cons v x xs).1 (inr i)) in
    elim (Bool-cases (contains s.visited x)) [
      | inl old ↦ rw (visit_old s x xs old) (visit_children_cost all s xs tail)
      | inr new ↦
          let s' : Sweep = record { visited = s.visited ++ x ∷ []; queue = s.queue ++ x ∷ [] } in
          rw (visit_new s x xs new) (
            omega (
              arith,
              visit_children_cost all s' xs tail,
              length-append s.queue (x ∷ []),
              missing-insert all s.visited x (h x ((In-cons x x xs).1 (inl refl))) new,
            ))
    ]

module _ (next : Text → List Text) (seeds : List Text) where
  -- The invariant of the loop over its two variables.
  pub record Inv (visited queue : List Text) : Type 0 where
    pub seeded : (v : Text) → In v seeds → In v visited
    pub queued : (v : Text) → In v queue → In v visited
    pub sound : (v : Text) → In v visited → Reachable next seeds v
    pub closed : (u v : Text) → In u visited → In v (next u) → In u queue ⊎ In v visited

  Inv-round :
      (visited : List Text) (u : Text) (queue : List Text)
      → Inv visited (u ∷ queue)
      → Inv
          (visit_children (record { visited = visited; queue = queue }) (next u)).visited
          (visit_children (record { visited = visited; queue = queue }) (next u)).queue
  Inv-round visited u queue h =
      let s : Sweep = record { visited = visited; queue = queue } in
      let seen = λ (v : Text). visited_children s (next u) v in
      let waits = λ (v : Text). queued_children s (next u) v in
      let here = h.queued u ((In-cons u u queue).1 (inl refl)) in
      record {
        seeded = λ v i. (seen v).1 (inl (h.seeded v i));
        queued = λ v i. ground (arith, seen v, waits v, h.queued v, In-cons v u queue);
        sound = λ v i. elim ((seen v).0 i) [
          | inl old ↦ h.sound v old
          | inr new ↦ along (h.sound u here) new
        ];
        closed = λ w v i e. elim (eq_cases u w) [
          | inl same ↦ inr ((seen v).1 (inr (subst (λ z. In v (next z)) (sym same) e)))
          | inr other ↦ ground (arith, seen w, seen v, waits w, h.closed w v, In-cons w u queue)
        ];
      }

  -- With an empty queue the visited set is all that can be reached.
  complete :
      (visited : List Text) → Inv visited [] → {v : Text} → Reachable next seeds v → In v visited
  complete visited h (seed i) = h.seeded _ i
  complete visited h (along {m} {n} p e) = elim (h.closed m n (complete visited h p) e) [
    | inl waiting ↦ absurd (not-In-nil m waiting)
    | inr i ↦ i
  ]

  -- With enough fuel the loop ends, with the reachable nodes.
  pub forward_loop_ends :
      (all : List Text)
      → ((u v : Text) → In v (next u) → In v all)
      → (fuel : ℕ) (visited queue : List Text) → length queue + missing all visited ≤ fuel
      → Inv visited queue
      → (r : List Text) × (forward_loop next fuel visited queue ≡ some r)
        × ((v : Text) → In v r ↔ Reachable next seeds v)
  unfolding forward_loop
  forward_loop_ends all within fuel visited [] k h =
      (visited, refl, λ v. (h.sound v, complete visited h))
  forward_loop_ends all within zero visited (u ∷ queue) k h = absurd (omega arith)
  forward_loop_ends all within (suc fuel) visited (u ∷ queue) k h =
      let s : Sweep = record { visited = visited; queue = queue } in
      let s' = visit_children s (next u) in
      forward_loop_ends all within fuel s'.visited s'.queue
        (omega (arith, visit_children_cost all s (next u) (within u))) (Inv-round visited u queue h)

pub In-neighbors :
    (select match : Edge → Text) (u v : Text) (types : Option (List EdgeType)) (es : List Edge)
    → In v (neighbors select match u types es)
    → In v (map select es)
unfolding neighbors contains
In-neighbors select match u v types [] h = h
In-neighbors select match u v types (e ∷ es) h =
    ground (arith, In-neighbors select match u v types es)

-- `forward_closure` returns, within its fuel, the seeds and exactly the nodes that edges of the
-- given types (all edges for `None`) lead to from them, over any number of edges.
pub forward_closure-Reachable :
    (db : Db) (seeds : List Text) (types : Option (List EdgeType))
    → (r : List Text) × (forward_closure db seeds types ≡ some r)
      × ((v : Text) → In v r ↔ Reachable (λ node. out_neighbors db node types) seeds v)
unfolding forward_closure
forward_closure-Reachable db seeds types =
    let next = λ (node : Text). out_neighbors db node types in
    let all = map (λ (e : Edge). e.dst) db.edges in
    forward_loop_ends next seeds all
      (λ u v i. unfold out_neighbors in In-neighbors (λ e. e.dst) (λ e. e.src) u v types db.edges i)
      (length seeds + length db.edges) (to_set seeds) (to_set seeds)
      (omega (
        arith,
        length-to_set seeds,
        missing-le all (to_set seeds),
        length-map (λ (e : Edge). e.dst) db.edges,
      ))
      (record {
        seeded = λ v i. (In-to_set v seeds).1 i;
        queued = λ v i. i;
        sound = λ v i. seed ((In-to_set v seeds).0 i);
        closed = λ u v i e. inl i;
      })

abbrev or_empty : Option (List Text) → List Text
or_empty none = []
or_empty (some r) = r

-- The set that `forward_closure` returns; the default is never met.
unfoldable pub descendants : Db → List Text → Option (List EdgeType) → List Text
descendants db seeds types = or_empty (forward_closure db seeds types)

pub forward_closure-eq-descendants :
    (db : Db) (seeds : List Text) (types : Option (List EdgeType))
    → forward_closure db seeds types ≡ some (descendants db seeds types)
unfolding descendants
forward_closure-eq-descendants db seeds types =
    let (r, e, exact) = forward_closure-Reachable db seeds types in
    e ∙ ap {B = Option (List Text)} some (sym (ap or_empty e))

-- The returned set is exactly the seeds and what the edges lead to from them.
pub descendants-Reachable :
    (db : Db) (seeds : List Text) (types : Option (List EdgeType)) (v : Text)
    → In v (descendants db seeds types) ↔ Reachable (λ node. out_neighbors db node types) seeds v
unfolding descendants
descendants-Reachable db seeds types v =
    let (r, e, exact) = forward_closure-Reachable db seeds types in
    subst (λ l. In v l ↔ Reachable (λ node. out_neighbors db node types) seeds v)
      (sym (ap or_empty e)) (exact v)
