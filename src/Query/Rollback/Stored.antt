-- ===== src/Query/Rollback/Stored.antt =====
-- The rollback event as it is stored, and the edges from it: lemmas on `event_for` and
-- `add_rollback_edges` of src/memory_blackbox/query/rollback.py.
use memory_blackbox.Prelude.{
  ◌≡◌, inl, inr, refl, sym, ap, ◌∙◌, true, false, List, [], ◌∷◌, ◌++◌, some, arith, Text, codes,
  contains, ok, ◌>>=◌, >>=-eq-ok, Bool-cases, ◌==◌, eq_refl, append_assoc, Result,
}
use memory_blackbox.Model.Json.{
  Json, Items, Fields, str, arr, get, get_field, texts, sort_keys, sort_items, sort_items-texts,
  get_field-sort, sort_option,
}
use memory_blackbox.Model.Values.{get_member, get_member-get, item_list}
use memory_blackbox.Model.Canonical.{
  prune, prune_fields, prune_items, ledger_set_fields, get_field-prune_kept,
}
use memory_blackbox.Model.Dump.{model_dump, dump_rollback, dump_ledger_set}
use memory_blackbox.Model.Records.{RollbackEvent, rollback_record, kind_value}
use memory_blackbox.Model.Edges.{Edge, rolled_back_by}
use memory_blackbox.Storage.{Row, Db}
use memory_blackbox.Ledger.Store.{
  LedgerStore, append, row_for, insert_row, maybe_checkpoint, checkpoint_due, checkpoint,
  iter_payloads, parse_rows, is_taken, payload,
}
use memory_blackbox.Ledger.Store
use memory_blackbox.Dag.{add_edge, exists_in_ledger}
use memory_blackbox.Dag.Edges.{add_edge-rest}
use memory_blackbox.Query.Rollback.{
  hashable_texts, listed_by, collect_rolled_back, add_rollback_edges,
}

-- The stores differ in their edges alone.
pub record SameLedger (s t : LedgerStore) : Type 0 where
  pub edges : List Edge
  pub same : t ≡ record s { db = record s.db { edges = edges } }

hashable_texts-texts : (ts : List Text) → hashable_texts (item_list (texts ts)) ≡ ok ts
hashable_texts-texts [] = refl
hashable_texts-texts (t ∷ ts) = rw (hashable_texts-texts ts) refl

pub prune_items-texts : (x : List Text) (ts : List Text) → prune_items x (texts ts) ≡ texts ts
unfolding prune_items
prune_items-texts x [] = refl
prune_items-texts x (t ∷ ts) = ap (Items.cons (str t)) (prune_items-texts x ts)

pub kind_kept : contains ledger_set_fields (codes "kind") ≡ false
unfolding contains ◌==◌
kind_kept = refl

pub affected_kept : contains ledger_set_fields (codes "affected") ≡ false
unfolding contains ◌==◌
affected_kept = refl

module _ (e : RollbackEvent) where
  abbrev pub event_fields : Fields
  event_fields = dump_ledger_set e.ledger_set (dump_rollback e)

  pub event_kind : get_field (codes "kind") event_fields ≡ some (str (codes "rollback"))
  unfolding get_field dump_ledger_set dump_rollback kind_value ◌==◌
  event_kind = refl

  pub event_affected : get_field (codes "affected") event_fields ≡ some (arr (texts e.affected))
  unfolding get_field dump_ledger_set dump_rollback ◌==◌
  event_affected = refl

  abbrev pub stored : Json
  stored = prune ledger_set_fields (model_dump (rollback_record e))

  pub stored_get :
      (key : Text) (v : Json)
      → contains ledger_set_fields key ≡ false
      → get_field key event_fields ≡ some v
      → get key (sort_keys stored) ≡ some (sort_keys (prune ledger_set_fields v))
  unfolding get sort_keys prune model_dump
  stored_get key v kept found =
      get_field-sort key (prune_fields ledger_set_fields event_fields)
      ∙ ap sort_option (get_field-prune_kept ledger_set_fields key event_fields v kept found)

  stored_kind : get_member (codes "kind") (sort_keys stored) ≡ ok (some (str (codes "rollback")))
  unfolding sort_keys prune
  stored_kind =
      get_member-get (codes "kind") (sort_keys stored) (str (codes "rollback"))
        (stored_get (codes "kind") (str (codes "rollback")) kind_kept event_kind)

  stored_affected :
      get_member (codes "affected") (sort_keys stored) ≡ ok (some (arr (texts e.affected)))
  unfolding sort_keys prune
  stored_affected = get_member-get (codes "affected") (sort_keys stored) (arr (texts e.affected)) (
      stored_get (codes "affected") (arr (texts e.affected)) affected_kept event_affected
      ∙ ap (λ (items : Items). some (arr items))
          (ap sort_items (prune_items-texts ledger_set_fields e.affected)
            ∙ sort_items-texts e.affected))

  -- The stored event lists its affected records.
  stored_listed :
      (row : Row) → collect_rolled_back ((row, sort_keys stored) ∷ []) ≡ ok (e.affected ++ [])
  unfolding collect_rolled_back
  stored_listed row = rw stored_kind (
      rw (eq_refl (codes "rollback"))
        (rw stored_affected (rw (hashable_texts-texts e.affected) refl)))

pub SameLedger-trans : {s t u : LedgerStore} → SameLedger s t → SameLedger t u → SameLedger s u
SameLedger-trans {s} h k = record {
  edges = k.edges;
  same =
      k.same ∙ ap (λ (x : LedgerStore). record x { db = record x.db { edges = k.edges } }) h.same;
}

pub edges_skip :
    (s : LedgerStore) (id rid : Text) (rids : List Text) (now : Text)
    → is_taken (Store.get s rid) ≡ false
    → add_rollback_edges s id (rid ∷ rids) now ≡ add_rollback_edges s id rids now
unfolding add_rollback_edges
edges_skip s id rid rids now h = rw h

pub edges_add :
    (s : LedgerStore) (id rid : Text) (rids : List Text) (now : Text)
    → is_taken (Store.get s rid) ≡ true
    → add_rollback_edges s id (rid ∷ rids) now ≡ (
        add_edge (exists_in_ledger s.db) s.db rid id rolled_back_by now >>= λ db.
        add_rollback_edges (record s { db = db }) id rids now)
unfolding add_rollback_edges
edges_add s id rid rids now h = rw h

pub add_rollback_edges-SameLedger :
    (s t : LedgerStore) (id : Text) (rids : List Text) (now : Text)
    → add_rollback_edges s id rids now ≡ ok t
    → SameLedger s t
add_rollback_edges-SameLedger s t id [] now h =
    unfold add_rollback_edges in record { edges = s.edges; same = ground arith }
add_rollback_edges-SameLedger s t id (rid ∷ rids) now h =
    elim (Bool-cases (is_taken (Store.get s rid))) [
      | inr missing ↦
          add_rollback_edges-SameLedger s t id rids now
            (sym (edges_skip s id rid rids now missing) ∙ h)
      | inl found ↦
          let (db, added, later) =
            >>=-eq-ok (add_edge (exists_in_ledger s.db) s.db rid id rolled_back_by now)
              (λ db. add_rollback_edges (record s { db = db }) id rids now)
              (sym (edges_add s id rid rids now found) ∙ h) in
          let (edges, e) =
            add_edge-rest (exists_in_ledger s.db) s.db rid id rolled_back_by now db added in
          SameLedger-trans (record { edges = edges; same = ap (λ (d : Db). record s { db = d }) e })
            (add_rollback_edges-SameLedger (record s { db = db }) t id rids now later)
    ]

collect_rolled_back-append :
    (ps qs : List (Row × Json)) (ids more : List Text)
    → collect_rolled_back ps ≡ ok ids
    → collect_rolled_back qs ≡ ok more
    → collect_rolled_back (ps ++ qs) ≡ ok (ids ++ more)
unfolding collect_rolled_back
collect_rolled_back-append [] qs ids more h k =
    let none_before : ids ≡ [] = ground arith in rw none_before k
collect_rolled_back-append ((row, value) ∷ ps) qs ids more h k =
    let (kind, found, listing) = >>=-eq-ok (get_member (codes "kind") value) _ h in
    let (here, listed, others) = >>=-eq-ok (listed_by value kind) _ listing in
    let (later, read, joined) = >>=-eq-ok (collect_rolled_back ps) _ others in
    let same : here ++ later ≡ ids = ground arith in
    rw found (
      rw listed (
        rw (collect_rolled_back-append ps qs later more read k) (
          ap {B = Result (List Text)} ok
            (sym (append_assoc here later more) ∙ ap (λ l. l ++ more) same))))

-- Behind the stored event its affected records are listed.
pub last_listed :
    (ps : List (Row × Json)) (row : Row) (e : RollbackEvent) (ids : List Text)
    → collect_rolled_back ps ≡ ok ids
    → collect_rolled_back (ps ++ (row, sort_keys (stored e)) ∷ []) ≡ ok (ids ++ (e.affected ++ []))
last_listed ps row e ids h =
    collect_rolled_back-append ps _ ids (e.affected ++ []) h (stored_listed e row)
