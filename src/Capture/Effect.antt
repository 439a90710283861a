-- ===== src/Capture/Effect.antt =====
-- What a recording method does on every branch: the row and the edges of a call that returns, and
-- that a call that raises leaves the ledger as it was.
use memory_blackbox.Prelude.{
  ◌≡◌, inl, inr, refl, sym, ap, ◌∙◌, true, false, ◌&&◌, ◌||◌, List, [], ◌∷◌, ◌++◌, map, arith, Text,
  ok, err, ◌==◌, Bool-cases, Result, integrity_error, map-append, In-append, In-cons, ◌⊎◌, length,
  subst,
}
use memory_blackbox.Codec.Utf8.{utf8}
use memory_blackbox.Crypto.{Primitives}
use memory_blackbox.Model.Json.{Orjson}
use memory_blackbox.Model.Records.{
  LedgerRecord, write_record, retrieval_record, action_record, rollback_record, set_ledger, id_of,
}
use memory_blackbox.Storage.{Row, CheckpointRow}
use memory_blackbox.Ledger.Store.{
  LedgerStore, append, row_for, insert_row, maybe_checkpoint, checkpoint, checkpoint_due, stamp,
  is_taken,
}
use memory_blackbox.Ledger.Store
use memory_blackbox.Ledger.Payloads.{append-rest}
use memory_blackbox.Dag.{has_edge}
use memory_blackbox.Capture.Engine.{MemoryBlackbox, Times, Links, add_links, append_linked}
use memory_blackbox.Capture.Linking.{knows, is_link, Grows, link_edge, add_links_lem}

-- One row more, with this id, and with the edges of the links whose sources are rows.
pub record Recorded (id : Text) (links : Links) (s t : LedgerStore) : Type 0 where
  pub row : Row
  pub appended : t.ledger ≡ s.ledger ++ row ∷ []
  pub named : row.record_id ≡ id
  pub edges :
      (a b u : Text)
      → has_edge a b u t.edges
        ≡ (has_edge a b u s.edges || (id == b && knows t.ledger a && is_link a u links))

-- This row more, at most one checkpoint more, over all rows, and else only other edges.
pub record Extended (row : Row) (s t : LedgerStore) : Type 0 where
  pub extended : t.ledger ≡ s.ledger ++ row ∷ []
  pub same_signer : t.signer ≡ s.signer
  pub same_period : t.checkpoint_every ≡ s.checkpoint_every
  pub same_anchors : t.anchors ≡ s.anchors
  pub leaf_added : t.leaves ≡ s.leaves ++ utf8 row.entry_hash ∷ []
  pub committed :
      (t.checkpoints ≡ s.checkpoints)
      ⊎ ((checkpoint_row : CheckpointRow) × (t.checkpoints ≡ s.checkpoints ++ checkpoint_row ∷ [])
          × (checkpoint_row.leaf_count ≡ length t.leaves))

insert_row-Extended :
    (c : Primitives) (s : LedgerStore) (row : Row) (later : Text)
    → Extended row s (maybe_checkpoint c (insert_row s row) later)
unfolding maybe_checkpoint insert_row checkpoint
insert_row-Extended c s row later = elim (Bool-cases (checkpoint_due (insert_row s row))) [
  | inl due ↦ rw due (record {
    extended = refl;
    same_signer = refl;
    same_period = refl;
    same_anchors = refl;
    leaf_added = refl;
    committed = inr (_, refl, refl);
  })
  | inr early ↦ rw early (record {
    extended = refl;
    same_signer = refl;
    same_period = refl;
    same_anchors = refl;
    leaf_added = refl;
    committed = inl refl;
  })
]

Extended-edges :
    (row : Row) (s mid t : LedgerStore)
    → Extended row s mid
    → t ≡ record mid { db = record mid.db { edges = t.edges } }
    → Extended row s t
Extended-edges row s mid t h only = subst (Extended row s) (sym only) (record {
  extended = h.extended;
  same_signer = h.same_signer;
  same_period = h.same_period;
  same_anchors = h.same_anchors;
  leaf_added = h.leaf_added;
  committed = h.committed;
})

pub knows_last : (rows : List Row) (row : Row) → knows (rows ++ row ∷ []) row.record_id ≡ true
knows_last rows row =
    let ids = map (λ (r : Row). r.record_id) rows in
    rw map-append (
      (In-append row.record_id ids (row.record_id ∷ [])).1
        (inr ((In-cons row.record_id row.record_id []).1 (inl refl))))

module _ (c : Primitives) (json : Orjson) where
  append_total :
      (s : LedgerStore) (r : LedgerRecord) (now later : Text)
      → is_taken (Store.get s (id_of r)) ≡ false
      → append c json s r now later
        ≡ ok (
          maybe_checkpoint c (insert_row s (row_for c json s r now)) later,
          stamp (row_for c json s r now) r,
        )
  unfolding append
  append_total s r now later h = rw h

  append_refused :
      (s : LedgerStore) (r : LedgerRecord) (now later : Text)
      → is_taken (Store.get s (id_of r)) ≡ true
      → append c json s r now later ≡ err integrity_error
  unfolding append
  append_refused s r now later h = rw h

  stamped_of :
      (s mid : LedgerStore) (r r' : LedgerRecord) (now later : Text)
      → append c json s r now later ≡ ok (mid, r')
      → stamp (row_for c json s r now) r ≡ r'
  unfolding append
  stamped_of s mid r r' now later h = ground arith

  appended_of :
      (s mid : LedgerStore) (r r' : LedgerRecord) (now later : Text)
      → append c json s r now later ≡ ok (mid, r')
      → maybe_checkpoint c (insert_row s (row_for c json s r now)) later ≡ mid
  unfolding append
  appended_of s mid r r' now later h = ground arith

  pub row_for_id :
      (s : LedgerStore) (r : LedgerRecord) (now : Text)
      → (row_for c json s r now).record_id ≡ id_of r
  unfolding row_for
  row_for_id s r now = refl

  -- An append, with what the links behind it add.
  append-Recorded :
      (s mid t : LedgerStore) (r r' : LedgerRecord) (now later : Text) (links : Links)
      → append c json s r now later ≡ ok (mid, r')
      → Grows mid.ledger (link_edge mid.ledger (id_of r) links) mid t
      → Recorded (id_of r) links s t
  append-Recorded s mid t r r' now later links h grown =
      let (rows, same_edges, _) = append-rest c json s mid r r' now later h in
      let row = row_for c json s r now in
      let kept : t.ledger ≡ mid.ledger = ap (λ (x : LedgerStore). x.ledger) grown.only_edges in
      let known : knows mid.ledger (id_of r) ≡ true =
        ap (λ l. knows l (id_of r)) rows
        ∙ ap (knows (s.ledger ++ row ∷ [])) (sym (row_for_id s r now))
        ∙ knows_last s.ledger row in
      record {
        row = row;
        appended = kept ∙ rows;
        named = row_for_id s r now;
        edges = λ a b u. ground (
          arith,
          grown.has a b u,
          known,
          ap (has_edge a b u) same_edges,
          ap (λ l. knows l a) kept,
        );
      }

  -- The two parts of a recording method that reaches the ledger.
  pub record Logged (r : LedgerRecord) (links : Links) (s t : LedgerStore) : Type 0 where
    pub mid : LedgerStore
    pub stamped : LedgerRecord
    pub now : Text
    pub later : Text
    pub run : append c json s r now later ≡ ok (mid, stamped)
    pub grown : Grows mid.ledger (link_edge mid.ledger (id_of r) links) mid t

  stamp-id_of : (row : Row) (r : LedgerRecord) → id_of (stamp row r) ≡ id_of r
  unfolding stamp set_ledger id_of
  stamp-id_of row (write_record r) = refl
  stamp-id_of row (retrieval_record r) = refl
  stamp-id_of row (action_record r) = refl
  stamp-id_of row (rollback_record r) = refl

  -- The record that comes back carries the id that went in.
  pub Logged-id_of :
      {r : LedgerRecord} {links : Links} {s t : LedgerStore} (l : Logged r links s t)
      → id_of l.stamped ≡ id_of r
  Logged-id_of {r} {links} {s} l =
      let row = row_for c json s r l.now in
      let same : stamp row r ≡ l.stamped = stamped_of s l.mid r l.stamped l.now l.later l.run in
      sym (ap id_of same) ∙ stamp-id_of row r

  -- The row is that of the record, over the ledger before it.
  pub Logged-Extended :
      {r : LedgerRecord} {links : Links} {s t : LedgerStore} (l : Logged r links s t)
      → Extended (row_for c json s r l.now) s t
  Logged-Extended {r} {links} {s} {t} l =
      let row = row_for c json s r l.now in
      let same : maybe_checkpoint c (insert_row s row) l.later ≡ l.mid =
        appended_of s l.mid r l.stamped l.now l.later l.run in
      Extended-edges row s l.mid t
        (subst (Extended row s) same (insert_row-Extended c s row l.later)) l.grown.only_edges

  pub Logged-Recorded :
      {r : LedgerRecord} {links : Links} {s t : LedgerStore}
      → Logged r links s t
      → Recorded (id_of r) links s t
  Logged-Recorded {r} {links} {s} {t} l =
      append-Recorded s l.mid t r l.stamped l.now l.later links l.run l.grown

-- What a recording method did: it raised and left the ledger alone, or it logged the record.
abbrev pub Outcome :
    {D : Type 0}
    → Primitives
    → Orjson
    → LedgerRecord
    → Links
    → LedgerStore
    → MemoryBlackbox D × Result LedgerRecord
    → Type 0
Outcome c json r links s (e', err why) = e'.ledger ≡ s
Outcome c json r links s (e', ok r') = (l : Logged c json r links s e'.ledger) × (l.stamped ≡ r')

module _ {D : Type 0} (c : Primitives) (json : Orjson) where
  append_linked-run :
      (e : MemoryBlackbox D) (r r' : LedgerRecord) (links : Links) (times : Times)
      (mid t : LedgerStore)
      → append c json e.ledger r times.appended times.checkpointed ≡ ok (mid, r')
      → add_links mid (id_of r) links times.linked ≡ (t, ok tt)
      → append_linked c json e r links times ≡ (record e { ledger = t }, ok r')
  unfolding append_linked
  append_linked-run e r r' links times mid t h k = rw (h, append_linked) (rw k)

  -- An append with its edges succeeds wherever the id is new, at the times it is given.
  pub append_linked-Logged :
      (e : MemoryBlackbox D) (r : LedgerRecord) (links : Links) (times : Times)
      → is_taken (Store.get e.ledger (id_of r)) ≡ false
      → (t : LedgerStore) × (r' : LedgerRecord) × (append_linked c json e r links times
          ≡ (record e { ledger = t }, ok r'))
        × ((l : Logged c json r links e.ledger t) × (l.stamped ≡ r') × (l.now ≡ times.appended))
  append_linked-Logged e r links times fresh =
      let row = row_for c json e.ledger r times.appended in
      let mid = maybe_checkpoint c (insert_row e.ledger row) times.checkpointed in
      let h = append_total c json e.ledger r times.appended times.checkpointed fresh in
      let (t, run, grown) = add_links_lem mid.ledger (id_of r) links mid times.linked refl in
      (
        t,
        stamp row r,
        append_linked-run e r (stamp row r) links times mid t h run,
        (
          record {
            mid = mid;
            stamped = stamp row r;
            now = times.appended;
            later = times.checkpointed;
            run = h;
            grown = grown;
          },
          refl,
          refl,
        ),
      )

  -- And is refused, with nothing changed, where the id is taken.
  pub append_linked-refused :
      (e : MemoryBlackbox D) (r : LedgerRecord) (links : Links) (times : Times)
      → is_taken (Store.get e.ledger (id_of r)) ≡ true
      → append_linked c json e r links times ≡ (e, err integrity_error)
  unfolding append_linked
  append_linked-refused e r links times taken =
      rw (append_refused c json e.ledger r times.appended times.checkpointed taken, append_linked)

  pub append_linked-Outcome :
      (e : MemoryBlackbox D) (r : LedgerRecord) (links : Links) (times : Times)
      → Outcome c json r links e.ledger (append_linked c json e r links times)
  append_linked-Outcome e r links times =
      elim (Bool-cases (is_taken (Store.get e.ledger (id_of r)))) [
        | inl taken ↦ rw (append_linked-refused e r links times taken) refl
        | inr fresh ↦
            let (t, r', run, logged) = append_linked-Logged e r links times fresh in
            rw run (logged.0, logged.1)
      ]
