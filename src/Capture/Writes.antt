-- ===== src/Capture/Writes.antt =====
-- The three recording methods on every branch: what a call that returns has logged, and that a call
-- that raises leaves the ledger as it was.
use memory_blackbox.Prelude.{
  ◌≤◌, ◌≡◌, inl, inr, refl, ◌∙◌, true, false, List, ◌++◌, arith, Text, length, ok, err, ◌==◌,
  Bool-cases, Result, content_too_large, ltb, subst,
}
use memory_blackbox.Codec.Utf8.{utf8}
use memory_blackbox.Crypto.{Primitives}
use memory_blackbox.Model.Json.{Orjson}
use memory_blackbox.Model.Records.{
  ProvenanceRecord, LedgerRecord, write_record, retrieval_record, action_record, id_of,
  enforce_content_hash, hash_content, derive_query_hash,
}
use memory_blackbox.Model.Findings.{Finding}
use memory_blackbox.Model.Edges.{derived_from, retrieved, contextualized, contributed_to}
use memory_blackbox.Ledger.Store.{
  LedgerStore, append, row_for, insert_row, maybe_checkpoint, stamp, is_taken,
}
use memory_blackbox.Ledger.Store
use memory_blackbox.Capture.Engine.{
  finish_write, MemoryBlackbox, WriteRequest, RetrievalRequest, ActionRequest, Times, Links,
  links_by, Inspect, provenance_of, retrieval_of, action_of, run_detectors, log_write, record_write,
  record_retrieval, record_action,
}
use memory_blackbox.Capture.Effect.{
  Recorded, Extended, Logged-Recorded, Logged-Extended, Outcome, append_linked-Logged,
  append_linked-Outcome,
}

module _ {D : Type 0} (c : Primitives) (json : Orjson) where
  module _ (inspect : Inspect D) where
    abbrev pub hashed : WriteRequest → Text → Text → ProvenanceRecord
    hashed q id created = record (provenance_of q id created) {
      content_hash = hash_content c q.content;
    }

    enforced :
        (q : WriteRequest) (id created : Text)
        → enforce_content_hash c (provenance_of q id created) ≡ ok (hashed q id created)
    unfolding enforce_content_hash ◌==◌
    enforced q id created = refl

    -- The edges of a write: from its parents, and from the retrievals that informed it.
    abbrev pub write_links : WriteRequest → Links
    write_links q = links_by derived_from q.parents ++ links_by contextualized q.caused_by_retrieval

    abbrev pub inspected :
        MemoryBlackbox D → WriteRequest → Text → Times → List D × List Finding × Result (Unit {0})
    inspected e q id times =
        run_detectors inspect e.detectors (hashed q id times.created) q.content
          (record { namespace = q.namespace; now = times.inspected })

    pub record_write-large :
        (e : MemoryBlackbox D) (q : WriteRequest) (id : Text) (times : Times)
        → ltb e.max_content_bytes (length (utf8 q.content)) ≡ true
        → record_write c json inspect e q id times ≡ (e, err content_too_large)
    unfolding record_write
    record_write-large e q id times large = rw large

    record_write-log :
        (e : MemoryBlackbox D) (q : WriteRequest) (id : Text) (times : Times)
        → length (utf8 q.content) ≤ e.max_content_bytes
        → record_write c json inspect e q id times
          ≡ log_write c json inspect e (hashed q id times.created) times
    unfolding record_write
    record_write-log e q id times small =
        let fits : ltb e.max_content_bytes (length (utf8 q.content)) ≡ false = ground arith in
        rw fits (rw (enforced q id times.created) refl)

    -- A write that is not too large, that every detector inspects without raising, and whose id is
    -- new is recorded: the ledger has one row more, which has its id and is the row of the write
    -- with the hash of its content, and exactly the edges more from those parents and retrievals
    -- that are rows of the ledger. There is at most one checkpoint more, and if there is one, it is
    -- over all rows; receipts and signer are as before. The findings of the detectors stand behind
    -- the earlier ones, and the detectors are those that the inspection leaves.
    pub record_write-Recorded :
        (e : MemoryBlackbox D) (q : WriteRequest) (id : Text) (times : Times) (ds : List D)
        (found : List Finding)
        → length (utf8 q.content) ≤ e.max_content_bytes
        → inspected e q id times ≡ (ds, found, ok tt)
        → is_taken (Store.get e.ledger id) ≡ false
        → (t : LedgerStore) × (r' : LedgerRecord) × (record_write c json inspect e q id times
            ≡ (record e { ledger = t; detectors = ds; findings = e.findings ++ found }, ok r'))
          × Recorded id (write_links q) e.ledger t
          × Extended
              (row_for c json e.ledger (write_record (hashed q id times.created)) times.appended)
              e.ledger
              t
    record_write-Recorded e q id times ds found small passed fresh =
        let e' : MemoryBlackbox D = record e { detectors = ds; findings = e.findings ++ found } in
        let r = hashed q id times.created in
        let (t, r', run, done) =
          append_linked-Logged c json e' (write_record r) (write_links q) times
            (unfold id_of in fresh) in
        (
          t,
          r',
          record_write-log e q id times small ∙ (unfold log_write in rw passed run),
          unfold id_of in Logged-Recorded c json done.0,
          subst (λ (now : Text). Extended (row_for c json e.ledger (write_record r) now) e.ledger t)
              done.2 (Logged-Extended c json done.0),
        )

    finish_write-Outcome :
        (e : MemoryBlackbox D) (r : ProvenanceRecord) (times : Times)
        (seen : List D × List Finding × Result (Unit {0}))
        → Outcome c json
            (write_record r)
            (links_by derived_from r.derived_from ++ links_by contextualized r.caused_by_retrieval)
            e.ledger
            (finish_write c json inspect e r times seen)
    finish_write-Outcome e r times (ds, found, ok done) =
        append_linked-Outcome c json _ (write_record r) _ times
    finish_write-Outcome e r times (ds, found, err why) = refl

    -- Every call of `record_write` either raises and leaves the ledger, its checkpoints and the
    -- edges as they were, or logs the write with the hash of its content and its edges.
    pub record_write-Outcome :
        (e : MemoryBlackbox D) (q : WriteRequest) (id : Text) (times : Times)
        → Outcome c json
            (write_record (hashed q id times.created))
            (write_links q)
            e.ledger
            (record_write c json inspect e q id times)
    record_write-Outcome e q id times =
        elim (Bool-cases (ltb e.max_content_bytes (length (utf8 q.content)))) [
          | inl large ↦ rw (record_write-large e q id times large) refl
          | inr small ↦
              rw (record_write-log e q id times (ground arith))
                (unfold log_write in finish_write-Outcome e (hashed q id times.created) times _)
        ]

  pub record_retrieval-Outcome :
      (e : MemoryBlackbox D) (q : RetrievalRequest) (id : Text) (times : Times)
      → Outcome c json
          (retrieval_record (derive_query_hash c (retrieval_of q id times.created)))
          (links_by retrieved q.returned)
          e.ledger
          (record_retrieval c json e q id times)
  unfolding record_retrieval
  record_retrieval-Outcome e q id times =
      append_linked-Outcome c json e _ (links_by retrieved q.returned) times

  pub record_action-Outcome :
      (e : MemoryBlackbox D) (q : ActionRequest) (id : Text) (times : Times)
      → Outcome c json
          (action_record (action_of q id times.created))
          (links_by contributed_to q.context_retrievals)
          e.ledger
          (record_action c json e q id times)
  unfolding record_action
  record_action-Outcome e q id times =
      append_linked-Outcome c json e _ (links_by contributed_to q.context_retrievals) times

  -- A retrieval whose id is new is recorded: one row more, and RETRIEVED edges into it from exactly
  -- those returned ids that are record ids of the ledger.
  pub record_retrieval-Recorded :
      (e : MemoryBlackbox D) (q : RetrievalRequest) (id : Text) (times : Times)
      → is_taken (Store.get e.ledger id) ≡ false
      → (t : LedgerStore) × (r' : LedgerRecord) × (record_retrieval c json e q id times
          ≡ (record e { ledger = t }, ok r'))
        × Recorded id (links_by retrieved q.returned) e.ledger t
  unfolding record_retrieval id_of derive_query_hash ◌==◌
  record_retrieval-Recorded e q id times fresh =
      let r = retrieval_record (derive_query_hash c (retrieval_of q id times.created)) in
      let (t, r', run, l) =
        append_linked-Logged c json e r (links_by retrieved q.returned) times fresh in
      (t, r', run, Logged-Recorded c json l.0)

  -- The same for an action, with CONTRIBUTED_TO edges from its retrievals.
  pub record_action-Recorded :
      (e : MemoryBlackbox D) (q : ActionRequest) (id : Text) (times : Times)
      → is_taken (Store.get e.ledger id) ≡ false
      → (t : LedgerStore) × (r' : LedgerRecord) × (record_action c json e q id times
          ≡ (record e { ledger = t }, ok r'))
        × Recorded id (links_by contributed_to q.context_retrievals) e.ledger t
  unfolding record_action id_of
  record_action-Recorded e q id times fresh =
      let r = action_record (action_of q id times.created) in
      let (t, r', run, l) =
        append_linked-Logged c json e r (links_by contributed_to q.context_retrievals) times
          fresh in
      (t, r', run, Logged-Recorded c json l.0)
