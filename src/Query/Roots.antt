-- ===== src/Query/Roots.antt =====
-- The roots of a trace: which they are, and their order.
use memory_blackbox.Prelude.{
  ◌≡◌, ◌≢◌, ◌↔◌, inl, inr, refl, sym, ap, ◌∙◌, Bool, true, false, List, [], ◌∷◌, map, Option, none,
  some, arith, Text, In, In-cons, Bool-cases, ok, ok-injective, >>=-eq-ok, subst, sort_by,
  insert_by, IsSorted, sort_by-IsSorted, All,
}
use memory_blackbox.Model.Json.{Orjson}
use memory_blackbox.Ledger.Store.{LedgerStore}
use memory_blackbox.Dag.{in_neighbors}
use memory_blackbox.Dag.Closure.{Reachable}
use memory_blackbox.Dag.Ancestors.{backward-Reachable}
use memory_blackbox.Query.Trace.{
  TraceRoot, ProvenanceTrace, SortKey, keyed, collect_roots, key_leb, ranked, trace_from, trace,
}
use memory_blackbox.Query.Ranking.{IsKeyed, AreKeyed, keyed-AreKeyed, key_leb-Precedes, IsRanked}
use memory_blackbox.Query.Candidates.{ids_of, IsWriteRow, IsRootOf, collect_roots_lem}

module _ {A : Type 0} (leb : A → A → Bool) where
  insert_by-All :
      (P : A → Type 0) (x : A) (ys : List A) → P x → All P ys → All P (insert_by leb x ys)
  unfolding insert_by
  insert_by-All P x [] p h = (p, tt)
  insert_by-All P x (y ∷ ys) p (q, h) = elim (Bool-cases (leb x y)) [
    | inl e ↦ rw e (p, (q, h))
    | inr e ↦ rw e (q, insert_by-All P x ys p h)
  ]

  sort_by-All : (P : A → Type 0) (xs : List A) → All P xs → All P (sort_by leb xs)
  unfolding sort_by
  sort_by-All P [] h = tt
  sort_by-All P (x ∷ xs) (p, h) = insert_by-All P x (sort_by leb xs) p (sort_by-All P xs h)

  In-insert_by :
      (f : A → Text) (v : Text) (x : A) (ys : List A)
      → In v (map f (insert_by leb x ys)) ↔ In v (f x ∷ map f ys)
  unfolding insert_by
  In-insert_by f v x [] = (λ i. i, λ i. i)
  In-insert_by f v x (y ∷ ys) = elim (Bool-cases (leb x y)) [
    | inl e ↦ rw e (λ i. i, λ i. i)
    | inr e ↦ rw e (
        ground (
          arith,
          In-insert_by f v x ys,
          In-cons v (f y) (map f (insert_by leb x ys)),
          In-cons v (f x) (map f ys),
          In-cons v (f x) (f y ∷ map f ys),
          In-cons v (f y) (map f ys),
        ))
  ]

  In-sort_by :
      (f : A → Text) (v : Text) (xs : List A) → In v (map f (sort_by leb xs)) ↔ In v (map f xs)
  unfolding sort_by
  In-sort_by f v [] = (λ i. i, λ i. i)
  In-sort_by f v (x ∷ xs) = ground (
    arith,
    In-insert_by f v x (sort_by leb xs),
    In-sort_by f v xs,
    In-cons v (f x) (map f (sort_by leb xs)),
    In-cons v (f x) (map f xs),
  )

roots_of-ids :
    (ks : List (SortKey × TraceRoot))
    → ids_of (map (λ (k : SortKey × TraceRoot). k.1) ks)
      ≡ map (λ (k : SortKey × TraceRoot). k.1.record_id) ks
roots_of-ids [] = refl
roots_of-ids (k ∷ ks) = ap (◌∷◌ k.1.record_id) (roots_of-ids ks)

roots-AreRoots :
    (P : TraceRoot → Type 0) (ks : List (SortKey × TraceRoot))
    → All P (map (λ (k : SortKey × TraceRoot). k.1) ks)
    → All (λ (k : SortKey × TraceRoot). P k.1) ks
roots-AreRoots P [] h = tt
roots-AreRoots P (k ∷ ks) (p, h) = (p, roots-AreRoots P ks h)

AreRoots-roots :
    (P : TraceRoot → Type 0) (ks : List (SortKey × TraceRoot))
    → All (λ (k : SortKey × TraceRoot). P k.1) ks
    → All P (map (λ (k : SortKey × TraceRoot). k.1) ks)
AreRoots-roots P [] h = tt
AreRoots-roots P (k ∷ ks) (p, h) = (p, AreRoots-roots P ks h)

module _ (recency_leb : Text → Text → Bool)
    (total : (p q : Text) → recency_leb p q ≡ false → recency_leb q p ≡ true) where
  key_leb_total :
      (a b : SortKey × TraceRoot) → key_leb recency_leb a b ≡ false → key_leb recency_leb b a ≡ true
  key_leb_total (a, r) (b, q) h = ground (arith, total a.time b.time, total b.time a.time)

  keys-IsRanked :
      (ks : List (SortKey × TraceRoot))
      → AreKeyed ks
      → IsSorted (key_leb recency_leb) ks
      → IsRanked recency_leb (map (λ (k : SortKey × TraceRoot). k.1) ks)
  keys-IsRanked [] h o = tt
  keys-IsRanked (k ∷ []) h o = tt
  keys-IsRanked ((a, r) ∷ (b, q) ∷ ks) (ha, (hb, hs)) (le, rest) = (
    key_leb-Precedes recency_leb a b r q ha hb (total b.time a.time) le,
    keys-IsRanked ((b, q) ∷ ks) (hb, hs) rest,
  )

  -- If the order of the times is total, a call of `trace` that does not raise returns a trace, as
  -- the walk has enough fuel. Its ancestors are exactly the nodes other than the action from which
  -- edges lead to it. The ids of its roots are exactly the ancestors whose rows are writes; the
  -- level of trust and the time of a root are those in its payload, where they stand there, and a
  -- root without a source or a level of trust is untrusted; its centrality is the number of its
  -- descendants, itself left out. Each root precedes the next: it is more suspicious in the order
  -- quarantined, untrusted, semi-trusted, trusted, system, any other level counting as untrusted, or
  -- as suspicious and not older, and if it is as old then as central at least.
  pub trace-IsRanked :
      (json : Orjson) (s : LedgerStore) (action_id : Text) (result : Option ProvenanceTrace)
      → trace recency_leb json s action_id ≡ ok result
      → (t : ProvenanceTrace) × (result ≡ some t)
        × ((v : Text)
            → In v t.ancestors
              ↔ ((v ≢ action_id) × Reachable (λ n. in_neighbors s.db n none) (action_id ∷ []) v))
        × ((v : Text) → In v (ids_of t.roots) ↔ (In v t.ancestors × IsWriteRow json s v))
        × All (IsRootOf json s) t.roots
        × IsRanked recency_leb t.roots
  unfolding trace
  trace-IsRanked json s action_id result h =
      let (ancestors, ends, exact) = backward-Reachable s.db action_id none in
      let run : trace_from recency_leb json s action_id (some ancestors) ≡ ok result =
        ap (trace_from recency_leb json s action_id) (sym ends) ∙ h in
      let (roots, collected, h2) = >>=-eq-ok (collect_roots json s ancestors) _ run in
      let (ks, keys, h3) = >>=-eq-ok (keyed roots) _ h2 in
      let (all_keyed, same) = keyed-AreKeyed roots ks keys in
      let (all_roots, named) = collect_roots_lem json s ancestors roots collected in
      let sorted = sort_by (key_leb recency_leb) ks in
      (
        ranked recency_leb action_id ancestors ks,
        sym (ok-injective h3),
        exact,
        λ v.
            subst (λ (l : List Text). In v l ↔ (In v ancestors × IsWriteRow json s v))
              (sym (roots_of-ids sorted))
              (trans_iff
                (In-sort_by (key_leb recency_leb) (λ (k : SortKey × TraceRoot). k.1.record_id) v ks)
                (subst (λ (l : List Text). In v l ↔ (In v ancestors × IsWriteRow json s v))
                  (ap ids_of (sym same) ∙ roots_of-ids ks) (named v))),
        AreRoots-roots (IsRootOf json s) sorted (
            sort_by-All (key_leb recency_leb) (λ (k : SortKey × TraceRoot). IsRootOf json s k.1) ks
              (roots-AreRoots (IsRootOf json s) ks
                (subst (All (IsRootOf json s)) (sym same) all_roots))),
        keys-IsRanked sorted
            (sort_by-All (key_leb recency_leb) (λ (k : SortKey × TraceRoot). IsKeyed k.0 k.1) ks
              all_keyed)
            (sort_by-IsSorted (key_leb recency_leb) key_leb_total ks),
      )
    where
      trans_iff : {P Q R : Type 0} → P ↔ Q → Q ↔ R → P ↔ R
      trans_iff p q = (λ x. q.0 (p.0 x), λ x. p.1 (q.1 x))
