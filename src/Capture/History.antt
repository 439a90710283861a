-- ===== src/Capture/History.antt =====
-- The histories of an engine: any sequence of recordings, rollbacks, checkpoints and restarts, with
-- any detectors and any outcome of a call.
use memory_blackbox.Prelude.{
  ℕ, ◌≡◌, refl, sym, ap, false, List, map, Option, arith, Text, ok, err, subst, Result, Distinct,
}
use memory_blackbox.Crypto.{Primitives, IsSound}
use memory_blackbox.Model.Json.{Orjson}
use memory_blackbox.Model.Records.{LedgerRecord}
use memory_blackbox.Storage.{Row, Db, empty_db}
use memory_blackbox.Ledger.Store.{LedgerStore, checkpoint, open_store}
use memory_blackbox.Ledger.Honest.{checkpoint-IsConsistent, open_store-IsConsistent}
use memory_blackbox.Ledger.History.{Fresh, opened, Fresh-IsConsistent}
use memory_blackbox.Dag.{has_edge}
use memory_blackbox.Dag.Edges.{IsAnchored, IsKeyed}
use memory_blackbox.Query.Rollback.{RollbackPlan, rollback}
use memory_blackbox.Capture.Engine.{
  MemoryBlackbox, WriteRequest, RetrievalRequest, ActionRequest, Times, Links, Inspect, open_engine,
  record_write, record_retrieval, record_action,
}
use memory_blackbox.Capture.Linking.{knows}
use memory_blackbox.Capture.Effect.{Outcome}
use memory_blackbox.Capture.Writes.{
  record_write-Outcome, record_retrieval-Outcome, record_action-Outcome,
}
use memory_blackbox.Capture.Intact.{IsIntact, Logged-IsIntact, same_tables-IsIntact}
use memory_blackbox.Capture.Rollbacks.{rollback-Logged}

module _ {D : Type 0} (c : Primitives) (json : Orjson) (inspect : Inspect D) where
  -- One call on the engine, whatever its outcome, or a restart over the same database.
  pub data Step (e : MemoryBlackbox D) : MemoryBlackbox D → Type 0 where
    wrote :
        (q : WriteRequest) (id : Text) (times : Times) (e' : MemoryBlackbox D)
        → (record_write c json inspect e q id times).0 ≡ e'
        → Step e e'
    retrieved :
        (q : RetrievalRequest) (id : Text) (times : Times) (e' : MemoryBlackbox D)
        → (record_retrieval c json e q id times).0 ≡ e'
        → Step e e'
    acted :
        (q : ActionRequest) (id : Text) (times : Times) (e' : MemoryBlackbox D)
        → (record_action c json e q id times).0 ≡ e'
        → Step e e'
    rolled_back :
        (to : Text) (scope : Option Text) (reason id now : Text) (plan : RollbackPlan)
        (t : LedgerStore) (e' : MemoryBlackbox D)
        → rollback c json e.ledger to scope false reason id now ≡ ok (t, plan)
        → record e { ledger = t } ≡ e'
        → Step e e'
    checkpointed :
        (now : Text) (e' : MemoryBlackbox D)
        → record e { ledger = (checkpoint c e.ledger now).0 } ≡ e'
        → Step e e'
    reopened :
        (every limit : ℕ) (mode : Text) (ds : List D) (t : LedgerStore) (e' : MemoryBlackbox D)
        → open_store e.ledger.db e.ledger.signer every mode ≡ ok t
        → open_engine t ds limit ≡ e'
        → Step e e'

  pub data Reach (e : MemoryBlackbox D) : MemoryBlackbox D → Type 0 where
    here : Reach e e
    next : {e' e'' : MemoryBlackbox D} → Reach e e' → Step e' e'' → Reach e e''

  module _ (sound : IsSound c) where
    Outcome-IsIntact :
        (r : LedgerRecord) (links : Links) (s : LedgerStore)
        (out : MemoryBlackbox D × Result LedgerRecord)
        → Outcome c json r links s out
        → IsIntact c s
        → IsIntact c out.0.ledger
    Outcome-IsIntact r links s (e', ok r') (l, _) h =
        Logged-IsIntact c json sound r links s e'.ledger h l
    Outcome-IsIntact r links s (e', err why) same h = subst (IsIntact c) (sym same) h

    checkpoint-IsIntact :
        (s : LedgerStore) (now : Text) → IsIntact c s → IsIntact c (checkpoint c s now).0
    checkpoint-IsIntact s now h =
        same_tables-IsIntact c s (checkpoint c s now).0 h
          (checkpoint-IsConsistent c sound s now h.consistent) (unfold checkpoint in refl)
          (unfold checkpoint in refl)

    open_store-IsIntact :
        (s t : LedgerStore) (every : ℕ) (mode : Text)
        → open_store s.db s.signer every mode ≡ ok t
        → IsIntact c s
        → IsIntact c t
    open_store-IsIntact s t every mode run h =
        same_tables-IsIntact c s t h
          (open_store-IsConsistent c sound s t every mode run h.consistent)
          (unfold open_store in ground arith) (unfold open_store in ground arith)

    Step-IsIntact :
        {e e' : MemoryBlackbox D} → Step e e' → IsIntact c e.ledger → IsIntact c e'.ledger
    Step-IsIntact {e} (wrote q id times e' same) h =
        subst (λ (x : MemoryBlackbox D). IsIntact c x.ledger) same
          (Outcome-IsIntact _ _ e.ledger (record_write c json inspect e q id times)
            (record_write-Outcome c json inspect e q id times) h)
    Step-IsIntact {e} (retrieved q id times e' same) h =
        subst (λ (x : MemoryBlackbox D). IsIntact c x.ledger) same
          (Outcome-IsIntact _ _ e.ledger (record_retrieval c json e q id times)
            (record_retrieval-Outcome c json e q id times) h)
    Step-IsIntact {e} (acted q id times e' same) h =
        subst (λ (x : MemoryBlackbox D). IsIntact c x.ledger) same
          (Outcome-IsIntact _ _ e.ledger (record_action c json e q id times)
            (record_action-Outcome c json e q id times) h)
    Step-IsIntact {e} (rolled_back to scope reason id now plan t e' run same) h =
        subst (λ (x : MemoryBlackbox D). IsIntact c x.ledger) same
          (Logged-IsIntact c json sound _ _ e.ledger t h
            (rollback-Logged c json e.ledger t to scope reason id now plan run))
    Step-IsIntact {e} (checkpointed now e' same) h =
        subst (λ (x : MemoryBlackbox D). IsIntact c x.ledger) same
          (checkpoint-IsIntact e.ledger now h)
    Step-IsIntact {e} (reopened every limit mode ds t e' run same) h =
        subst (λ (x : MemoryBlackbox D). IsIntact c x.ledger) same
          (unfold open_engine in open_store-IsIntact e.ledger t every mode run h)

    Fresh-db : {s : LedgerStore} → Fresh c json s → s.db ≡ empty_db
    Fresh-db (opened raw every mode s e) = unfold open_store in ground arith

    Fresh-IsIntact : {s : LedgerStore} → Fresh c json s → IsIntact c s
    unfolding has_edge
    Fresh-IsIntact {s} f =
        let new = Fresh-db f in
        record {
          consistent = Fresh-IsConsistent c json sound f;
          distinct =
              subst (λ (x : Db). Distinct (map (λ (row : Row). row.record_id) x.ledger)) (sym new)
                tt;
          anchored = subst (λ (x : Db). IsAnchored (knows x.ledger) x.edges) (sym new) tt;
          keyed = subst (λ (x : Db). IsKeyed x.edges) (sym new) tt;
          forward = λ a b u h. absurd (ground (arith, ap (λ (x : Db). has_edge a b u x.edges) new));
        }

    -- Under sound primitives, whatever sequence of recordings, rollbacks, checkpoints and restarts
    -- an engine over a newly opened empty ledger goes through, with any detectors and whatever the
    -- outcome of each call: the chain and its checkpoints are consistent, no record id stands
    -- twice, every edge has known ends and stands once, and it leads from a record to itself or
    -- to a later one.
    pub Reach-IsIntact :
        {e e' : MemoryBlackbox D} → Fresh c json e.ledger → Reach e e' → IsIntact c e'.ledger
    Reach-IsIntact f here = Fresh-IsIntact f
    Reach-IsIntact f (next r st) = Step-IsIntact st (Reach-IsIntact f r)
