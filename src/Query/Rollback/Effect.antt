-- ===== src/Query/Rollback/Effect.antt =====
-- What an applied rollback does: one row more and edges, and every affected record is rolled back.
use memory_blackbox.Prelude.{
  ◌≡◌, refl, sym, ap, ◌∙◌, true, false, List, [], ◌∷◌, ◌++◌, Option, some, arith, Text, In,
  In-append, not-In-nil, ◌↔◌, ◌⊎◌, Result, ok, ◌>>=◌, >>=-eq-ok, subst,
}
use memory_blackbox.Crypto.{Primitives, IsSound}
use memory_blackbox.Model.Json.{Json, Orjson, IsRoundTrip, sort_keys}
use memory_blackbox.Model.Canonical.{prune, canonical_text, ledger_set_fields}
use memory_blackbox.Model.Dump.{model_dump}
use memory_blackbox.Model.Records.{
  LedgerRecord, RollbackEvent, rollback_record, record_state_value, rolled_back, id_of,
}
use memory_blackbox.Model.Values.{Casts}
use memory_blackbox.Storage.{Row}
use memory_blackbox.Ledger.Store.{LedgerStore, append, row_for, iter_payloads, parse_rows}
use memory_blackbox.Ledger.Payloads.{parse_rows-concat, append-rest}
use memory_blackbox.Ledger.Honest.{IsConsistent, append-IsConsistent}
use memory_blackbox.Query.Rollback.{
  RollbackPlan, collect_rolled_back, rolled_back_ids, effective_state, add_rollback_edges,
  event_for, plan_for, apply_rollback, rollback, affected_by,
}
use memory_blackbox.Query.Rollback.Stored.{SameLedger, add_rollback_edges-SameLedger, last_listed}

In-both : (xs ys : List Text) (v : Text) → In v (xs ++ (ys ++ [])) ↔ (In v xs ⊎ In v ys)
In-both xs ys v = ground (arith, In-append v xs (ys ++ []), In-append v ys [], not-In-nil v)

module _ (c : Primitives) (json : Orjson) where
  -- The ledger after an append: one row more.
  append_ledger :
      (s t : LedgerStore) (r r' : LedgerRecord) (now later : Text)
      → append c json s r now later ≡ ok (t, r')
      → t.ledger ≡ s.ledger ++ row_for c json s r now ∷ []
  append_ledger s t r r' now later h = (append-rest c json s t r r' now later h).0

  -- The payloads after an append: the earlier ones, and that of the new row.
  append_payloads :
      IsRoundTrip json
      → (s t : LedgerStore) (r r' : LedgerRecord) (now later : Text) (ps : List (Row × Json))
      → append c json s r now later ≡ ok (t, r')
      → iter_payloads json s ≡ ok ps
      → iter_payloads json t
        ≡ ok (
            ps ++ (row_for c json s r now, sort_keys (prune ledger_set_fields (model_dump r))) ∷ [])
  unfolding iter_payloads
  append_payloads laws s t r r' now later ps h p =
      let row = row_for c json s r now in
      ap (parse_rows json) (append_ledger s t r r' now later h)
      ∙ parse_rows-concat json s.ledger ps row (sort_keys (prune ledger_set_fields (model_dump r)))
          p
          (unfold row_for canonical_text in
            laws.loads-dumps (prune ledger_set_fields (model_dump r)))

  -- The ids that rollbacks list after the append of an event: the earlier ones, and those of the
  -- event.
  listed_after :
      IsRoundTrip json
      → (s t : LedgerStore) (e : RollbackEvent) (r' : LedgerRecord) (now later : Text)
        (ids : List Text)
      → append c json s (rollback_record e) now later ≡ ok (t, r')
      → rolled_back_ids json s ≡ ok ids
      → rolled_back_ids json t ≡ ok (ids ++ (e.affected ++ []))
  unfolding rolled_back_ids
  listed_after laws s t e r' now later ids h known =
      let (ps, p, before) = >>=-eq-ok (iter_payloads json s) collect_rolled_back known in
      let row = row_for c json s (rollback_record e) now in
      rw (append_payloads laws s t (rollback_record e) r' now later ps h p)
        (last_listed ps row e ids before)

  -- The edges do not matter to the listed ids.
  rolled_back_ids-SameLedger :
      (s t : LedgerStore) → SameLedger s t → rolled_back_ids json t ≡ rolled_back_ids json s
  unfolding rolled_back_ids iter_payloads
  rolled_back_ids-SameLedger s t h = rw h.same refl

  listed :
      (casts : Casts) (s : LedgerStore) (ids : List Text) (v : Text)
      → rolled_back_ids json s ≡ ok ids
      → In v ids
      → effective_state json casts s v ≡ ok (record_state_value rolled_back)
  unfolding effective_state
  listed casts s ids v h i = rw h (rw i refl)

  -- The parts of an applied rollback: its plan, the appended event and the edges.
  pub rollback-parts :
      (s t : LedgerStore) (to : Text) (scope : Option Text) (reason id now : Text)
      (plan : RollbackPlan)
      → rollback c json s to scope false reason id now ≡ ok (t, plan)
      → (mid : LedgerStore) × (r' : LedgerRecord) × (affected_by json s to scope ≡ ok plan.affected)
        × (append c json s
              (rollback_record (event_for id reason to scope plan.affected now))
              now
              now
            ≡ ok (mid, r'))
        × (add_rollback_edges mid id plan.affected now ≡ ok t)
  unfolding rollback apply_rollback
  rollback-parts s t to scope reason id now plan h =
      let (affected, planned, applied) = >>=-eq-ok (affected_by json s to scope) _ h in
      let event = λ (l : List Text). rollback_record (event_for id reason to scope l now) in
      let (after, appended, rest) =
        >>=-eq-ok (append c json s (event affected) now now)
          (λ (x : LedgerStore × LedgerRecord). add_rollback_edges x.0 id affected now >>= λ u. ok (
            u,
            record (plan_for to scope affected reason) {
              dry_run = false;
              applied = true;
              rollback_id = some id;
            },
          ))
          applied in
      let (u, edged, done) = >>=-eq-ok (add_rollback_edges after.0 id affected now) _ rest in
      let same : affected ≡ plan.affected = ground arith in
      let end_store : u ≡ t = ground arith in
      (
        after.0,
        after.1,
        planned ∙ ap {B = Result (List Text)} ok same,
        subst (λ l. append c json s (event l) now now ≡ ok (after.0, after.1)) same appended,
        subst (λ l. add_rollback_edges after.0 id l now ≡ ok t) same
            (edged ∙ ap {B = Result LedgerStore} ok end_store),
      )

  -- If orjson reads back what it writes, and the rollbacks of a ledger can be read and list `ids`,
  -- then after an applied rollback that succeeds the rollbacks can still be read, they list exactly
  -- these ids and the records of the plan, and each listed record has the effective state
  -- `rolled_back`, whether an earlier rollback lists it or this one.
  pub rollback_marks :
      IsRoundTrip json
      → (casts : Casts) (s t : LedgerStore) (to : Text) (scope : Option Text) (reason id now : Text)
        (plan : RollbackPlan) (ids : List Text)
      → rolled_back_ids json s ≡ ok ids
      → rollback c json s to scope false reason id now ≡ ok (t, plan)
      → (listed_ids : List Text) × (rolled_back_ids json t ≡ ok listed_ids)
        × ((v : Text) → In v listed_ids ↔ (In v ids ⊎ In v plan.affected))
        × ((v : Text)
            → In v ids ⊎ In v plan.affected
            → effective_state json casts t v ≡ ok (record_state_value rolled_back))
  rollback_marks laws casts s t to scope reason id now plan ids known h =
      let (mid, r', planned, appended, edged) = rollback-parts s t to scope reason id now plan h in
      let event = event_for id reason to scope plan.affected now in
      let now_listed =
        rolled_back_ids-SameLedger mid t
          (add_rollback_edges-SameLedger mid t id plan.affected now edged)
        ∙ listed_after laws s mid event r' now now ids appended known in
      let both : (v : Text)
          → In v (ids ++ (plan.affected ++ [])) ↔ (In v ids ⊎ In v plan.affected) =
        In-both ids plan.affected in
      (
        ids ++ (plan.affected ++ []),
        now_listed,
        both,
        λ v i. listed casts t (ids ++ (plan.affected ++ [])) v now_listed ((both v).1 i),
      )

  -- Under sound primitives, an applied rollback that succeeds on a consistent ledger adds one row,
  -- which carries the id of the rollback, keeps all rows before it, and leaves the ledger
  -- consistent.
  pub rollback-IsConsistent :
      IsSound c
      → (s t : LedgerStore) (to : Text) (scope : Option Text) (reason id now : Text)
        (plan : RollbackPlan)
      → rollback c json s to scope false reason id now ≡ ok (t, plan)
      → IsConsistent c s
      → IsConsistent c t × ((row : Row) × (t.ledger ≡ s.ledger ++ row ∷ []) × (row.record_id ≡ id))
  rollback-IsConsistent sound s t to scope reason id now plan h k =
      let (mid, r', planned, appended, edged) = rollback-parts s t to scope reason id now plan h in
      let e = rollback_record (event_for id reason to scope plan.affected now) in
      let kept = append-IsConsistent c sound json s mid e r' now now appended k in
      let same = add_rollback_edges-SameLedger mid t id plan.affected now edged in
      (
        subst (IsConsistent c) (sym same.same) (record {
          keyed = kept.keyed;
          chained = kept.chained;
          cached = kept.cached;
          committed = kept.committed;
        }),
        (
          row_for c json s e now,
          ap (λ (x : LedgerStore). x.ledger) same.same ∙ append_ledger s mid e r' now now appended,
          unfold row_for id_of in refl,
        ),
      )
