-- ===== src/Capture/Rollbacks.antt =====
-- A rollback of src/memory_blackbox/query/rollback.py logs its event as a recording method does.
use memory_blackbox.Prelude.{
  ◌≡◌, refl, sym, ap, ◌∙◌, true, false, List, [], ◌∷◌, ◌++◌, Option, arith, Text, ok, ◌>>=◌, subst,
  Result,
}
use memory_blackbox.Crypto.{Primitives}
use memory_blackbox.Model.Json.{Orjson}
use memory_blackbox.Model.Records.{rollback_record, id_of}
use memory_blackbox.Model.Edges.{rolled_back_by}
use memory_blackbox.Storage.{Row}
use memory_blackbox.Ledger.Store.{LedgerStore, append, row_for, is_taken, checkpoint, open_store}
use memory_blackbox.Ledger.Store
use memory_blackbox.Ledger.Payloads.{append-rest}
use memory_blackbox.Query.Rollback.{RollbackPlan, rollback, add_rollback_edges, event_for}
use memory_blackbox.Query.Rollback.Effect.{rollback-parts}
use memory_blackbox.Capture.Engine.{links_by, add_known_edge, add_links}
use memory_blackbox.Capture.Linking.{
  link_edge, knows, find_row-knows, Grows, add_known_edge_lem, add_links_step, add_links_lem,
}
use memory_blackbox.Capture.Effect.{Logged, knows_last, row_for_id}

-- The loop of a rollback adds its edges as a recording method does.
rollback_step :
    (s : LedgerStore) (id rid : Text) (rids : List Text) (now : Text)
    → is_taken (Store.get s id) ≡ true
    → add_rollback_edges s id (rid ∷ rids) now
      ≡ (add_known_edge s rid id rolled_back_by now >>= λ s'. add_rollback_edges s' id rids now)
unfolding add_rollback_edges add_known_edge
rollback_step s id rid rids now known = ground arith

module _ (rows : List Row) (id : Text) (known : knows rows id ≡ true) where
  id_taken : (s : LedgerStore) → s.ledger ≡ rows → is_taken (Store.get s id) ≡ true
  unfolding Store.get
  id_taken s e = find_row-knows id s.ledger ∙ ap (λ l. knows l id) e ∙ known

  rollback_edges-links :
      (rids : List Text) (s t : LedgerStore) (now : Text)
      → s.ledger ≡ rows
      → add_rollback_edges s id rids now ≡ ok t
      → add_links s id (links_by rolled_back_by rids) now ≡ (t, ok tt)
  rollback_edges-links [] s t now e h = unfold add_rollback_edges add_links in ground arith
  rollback_edges-links (rid ∷ rids) s t now e h =
      let (mid, first, grown) = add_known_edge_lem rows id s rid rolled_back_by now e in
      let kept : mid.ledger ≡ rows = ap (λ (x : LedgerStore). x.ledger) grown.only_edges ∙ e in
      let rest : add_rollback_edges mid id rids now ≡ ok t =
        sym (ap (λ m. m >>= λ s'. add_rollback_edges s' id rids now) first)
        ∙ sym (rollback_step s id rid rids now (id_taken s e))
        ∙ h in
      add_links_step rows id s mid rid rolled_back_by (links_by rolled_back_by rids) now first
      ∙ rollback_edges-links rids mid t now kept rest

module _ (c : Primitives) (json : Orjson) where
  -- An applied rollback logs its event, with an edge from each affected record.
  pub rollback-Logged :
      (s t : LedgerStore) (to : Text) (scope : Option Text) (reason id now : Text)
      (plan : RollbackPlan)
      → rollback c json s to scope false reason id now ≡ ok (t, plan)
      → Logged c json
          (rollback_record (event_for id reason to scope plan.affected now))
          (links_by rolled_back_by plan.affected)
          s
          t
  unfolding id_of
  rollback-Logged s t to scope reason id now plan h =
      let (mid, r', _, appended, edged) = rollback-parts c json s t to scope reason id now plan h in
      let event = rollback_record (event_for id reason to scope plan.affected now) in
      let (rows, _, _) = append-rest c json s mid event r' now now appended in
      let row = row_for c json s event now in
      let named : row.record_id ≡ id = row_for_id c json s event now in
      let known : knows mid.ledger id ≡ true =
        ap (λ l. knows l id) rows
        ∙ ap (knows (s.ledger ++ row ∷ [])) (sym named)
        ∙ knows_last s.ledger row in
      let (t', run, grown) =
        add_links_lem mid.ledger id (links_by rolled_back_by plan.affected) mid now refl in
      let links = rollback_edges-links mid.ledger id known plan.affected mid t now refl edged in
      let same : t' ≡ t = ap (λ (x : LedgerStore × Result (Unit {0})). x.0) (sym run ∙ links) in
      record {
        mid = mid;
        stamped = r';
        now = now;
        later = now;
        run = appended;
        grown =
            subst
              (Grows mid.ledger (link_edge mid.ledger id (links_by rolled_back_by plan.affected))
                mid)
              same grown;
      }
