-- ===== src/Query/BlastRadius/Exact.antt =====
-- The blast radius is exactly what the matching writes could have influenced.
use mathlib.Core.List.{Memᴰ}
use mathlib.Core.List.Memᴰ
use memory_blackbox.Prelude.{
  ◌≡◌, ◌↔◌, ◌⊎◌, inl, inr, refl, sym, ap, ◌∙◌, true, List, [], ◌∷◌, none, some, arith, Text, In,
  to_set, In-to_set, In-cons, not-In-nil, ok, >>=-eq-ok, subst,
}
use memory_blackbox.Model.Json.{Json, Orjson}
use memory_blackbox.Storage.{Row}
use memory_blackbox.Ledger.Store.{LedgerStore, iter_payloads, parse_rows}
use memory_blackbox.Ledger.Payloads.{parse_rows-cons}
use memory_blackbox.Dag.{out_neighbors}
use memory_blackbox.Dag.Closure.{Reachable, seed, along, descendants-Reachable}
use memory_blackbox.Query.BlastRadius.{
  is_seed, collect_seeds, seeds_for, closure_or_empty, blast_radius,
}

module _ (json : Orjson) (s : LedgerStore) (selector : Text) where
  -- A stored write that matches the selector.
  pub record Matches (id : Text) (rows : List Row) : Type 0 where
    pub row : Row
    pub value : Json
    pub stored : Memᴰ row rows
    pub parsed : json.loads row.payload_json ≡ some value
    pub selected : is_seed selector value ≡ true
    pub named : row.record_id ≡ id

  -- What a matching write could have influenced: itself, and along any edges.
  pub data Influenced : Text → Type 0 where
    origin : {n : Text} → Matches n s.ledger → Influenced n
    passed : {m n : Text} → Influenced m → In n (out_neighbors s.db m none) → Influenced n

  collect_seeds-cons :
      (n : Text) (row : Row) (value : Json) (rest : List (Row × Json))
      → In n (collect_seeds selector ((row, value) ∷ rest)) ↔ (
          ((is_seed selector value ≡ true) × (row.record_id ≡ n))
          ⊎ In n (collect_seeds selector rest))
  unfolding collect_seeds
  collect_seeds-cons n row value rest =
      ground (arith, In-cons n row.record_id (collect_seeds selector rest))

  lift : {n : Text} (row : Row) (rows : List Row) → Matches n rows → Matches n (row ∷ rows)
  lift row rows m = record {
    row = m.row;
    value = m.value;
    stored = Memᴰ.tail m.stored;
    parsed = m.parsed;
    selected = m.selected;
    named = m.named;
  }

  -- The first row, or a later one.
  Matches-cons :
      (n : Text) (row : Row) (rows : List Row) (value : Json)
      → json.loads row.payload_json ≡ some value
      → Matches n (row ∷ rows)
      → ((is_seed selector value ≡ true) × (row.record_id ≡ n)) ⊎ Matches n rows
  Matches-cons n row rows value loaded m = elim (Memᴰ.cases_cons m.stored) [
    | inl e ↦ inl (split e m.parsed m.selected m.named)
    | inr later ↦ inr (record {
      row = m.row;
      value = m.value;
      stored = later;
      parsed = m.parsed;
      selected = m.selected;
      named = m.named;
    })
  ]
    where
      split :
          m.row ≡ row
          → json.loads m.row.payload_json ≡ some m.value
          → is_seed selector m.value ≡ true
          → m.row.record_id ≡ n
          → (is_seed selector value ≡ true) × (row.record_id ≡ n)
      split e p q r =
          let same : m.value ≡ value = cc (ap (λ (x : Row). json.loads x.payload_json) e) in
          (subst (λ v. is_seed selector v ≡ true) same q, ap (λ (x : Row). x.record_id) (sym e) ∙ r)

  seeds-Matches :
      (n : Text) (rows : List Row) (ps : List (Row × Json))
      → parse_rows json rows ≡ ok ps
      → In n (collect_seeds selector ps) ↔ Matches n rows
  seeds-Matches n [] ps h =
      let none_found : ps ≡ [] = ground arith in
      (
        λ i. absurd (
            not-In-nil n
              (unfold collect_seeds in subst (λ l. In n (collect_seeds selector l)) none_found i)),
        λ m. absurd (Memᴰ.not-nil m.stored),
      )
  seeds-Matches n (row ∷ rows) ps h =
      let (value, rest, loaded, later, same) = parse_rows-cons json row rows ps h in
      let ih = seeds-Matches n rows rest later in
      let first = collect_seeds-cons n row value rest in
      subst (λ l. In n (collect_seeds selector l) ↔ Matches n (row ∷ rows)) (sym same)
        (
          λ i. elim (first.0 i) [
            | inl (yes_it, named) ↦ record {
              row = row;
              value = value;
              stored = Memᴰ.head refl;
              parsed = loaded;
              selected = yes_it;
              named = named;
            }
            | inr j ↦ lift row rows (ih.0 j)
          ],
          λ m. elim (Matches-cons n row rows value loaded m) [
            | inl found ↦ first.1 (inl found)
            | inr k ↦ first.1 (inr (ih.1 k))
          ],
        )

  pub seeds_for-Matches :
      (seeds : List Text) (n : Text)
      → seeds_for json s selector ≡ ok seeds
      → In n seeds ↔ Matches n s.ledger
  unfolding seeds_for iter_payloads
  seeds_for-Matches seeds n h =
      let (ps, parsed, last) = >>=-eq-ok (parse_rows json s.ledger) _ h in
      let same : seeds ≡ to_set (collect_seeds selector ps) = ground arith in
      let set = In-to_set n (collect_seeds selector ps) in
      let stored = seeds-Matches n s.ledger ps parsed in
      (
        λ i. stored.0 (set.0 (subst (In n) same i)),
        λ m. subst (In n) (sym same) (set.1 (stored.1 m)),
      )

  nowhere : {w : Text} → Reachable (λ m. out_neighbors s.db m none) [] w → ⊥
  nowhere (seed i) = not-In-nil _ i
  nowhere (along p e) = nowhere p

  closure-Reachable :
      (seeds : List Text) (v : Text)
      → In v (closure_or_empty s.db seeds) ↔ Reachable (λ m. out_neighbors s.db m none) seeds v
  closure-Reachable [] v = (λ i. absurd (not-In-nil v i), λ r. absurd (nowhere r))
  closure-Reachable (x ∷ seeds) v = descendants-Reachable s.db (x ∷ seeds) none v

  Reachable-Influenced :
      (seeds : List Text)
      → ((n : Text) → In n seeds ↔ Matches n s.ledger)
      → {v : Text} → Reachable (λ m. out_neighbors s.db m none) seeds v
      → Influenced v
  Reachable-Influenced seeds h (seed i) = origin ((h _).0 i)
  Reachable-Influenced seeds h (along p e) = passed (Reachable-Influenced seeds h p) e

  Influenced-Reachable :
      (seeds : List Text)
      → ((n : Text) → In n seeds ↔ Matches n s.ledger)
      → {v : Text} → Influenced v
      → Reachable (λ m. out_neighbors s.db m none) seeds v
  Influenced-Reachable seeds h (origin m) = seed ((h _).1 m)
  Influenced-Reachable seeds h (passed p e) = along (Influenced-Reachable seeds h p) e

  -- A `blast_radius` that returns contains exactly the records that a write matching the selector
  -- could have influenced: the write itself, and whatever edges lead to from it.
  pub blast_radius-Influenced :
      (found : List Text) (v : Text)
      → blast_radius json s selector ≡ ok found
      → In v found ↔ Influenced v
  unfolding blast_radius
  blast_radius-Influenced found v h =
      let (seeds, e, last) = >>=-eq-ok (seeds_for json s selector) _ h in
      let same : found ≡ closure_or_empty s.db seeds = ground arith in
      let exact = λ (n : Text). seeds_for-Matches seeds n e in
      let closed = closure-Reachable seeds v in
      (
        λ i. Reachable-Influenced seeds exact (closed.0 (subst (In v) same i)),
        λ w. subst (In v) (sym same) (closed.1 (Influenced-Reachable seeds exact w)),
      )
