-- ===== src/Ledger/History.antt =====
-- The histories of a ledger: any sequence of the operations of its store, and restarts.
use memory_blackbox.Prelude.{
  ℕ, ◌≡◌, ◌≢◌, ◌⊎◌, inl, inr, refl, sym, ap, ◌∙◌, true, List, [], ◌∷◌, ◌++◌, map, none, some, arith,
  Text, Bytes, length, last?, ok, append-nil, append_assoc, Bool-cases, subst,
}
use memory_blackbox.Crypto.{Primitives, IsSound}
use memory_blackbox.Crypto.Keys.{from_private_bytes}
use memory_blackbox.Model.Json.{Orjson}
use memory_blackbox.Model.Records.{LedgerRecord}
use memory_blackbox.Storage.{Row, CheckpointRow, empty_db}
use memory_blackbox.Ledger.Chain.{verify_chain}
use memory_blackbox.Ledger.Store.{
  LedgerStore, checkpoint, checkpoint_due, maybe_checkpoint, insert_row, row_for, append,
  open_store, leaf_of,
}
use memory_blackbox.Ledger.Merkle.{
  MerkleReport, verify_merkle, check_checkpoint, current_leaves, verified, empty_ledger,
}
use memory_blackbox.Ledger.Honest.{
  IsConsistent, append-IsConsistent, checkpoint-IsConsistent, open_store-IsConsistent,
  verify_chain-IsConsistent, verify_merkle-committed,
}

module _ (c : Primitives) (json : Orjson) where
  -- One operation of the store, or a restart of the process over the same database.
  pub data Step : LedgerStore → LedgerStore → Type 0 where
    appended :
        (s t : LedgerStore) (r r' : LedgerRecord) (now later : Text)
        → append c json s r now later ≡ ok (t, r')
        → Step s t
    checkpointed : (s t : LedgerStore) (now : Text) → (checkpoint c s now).0 ≡ t → Step s t
    reopened :
        (s t : LedgerStore) (every : ℕ) (mode : Text)
        → open_store s.db s.signer every mode ≡ ok t
        → Step s t

  pub data Reach (s : LedgerStore) : LedgerStore → Type 0 where
    here : Reach s s
    next : {t u : LedgerStore} → Reach s t → Step t u → Reach s u

  -- A store over a new database, under a key made from raw private bytes.
  pub data Fresh : LedgerStore → Type 0 where
    opened :
        (raw : Bytes) (every : ℕ) (mode : Text) (s : LedgerStore)
        → open_store empty_db (from_private_bytes c raw) every mode ≡ ok s
        → Fresh s

  -- What came later in a table stands behind what was there before.
  pub record Extends (s t : LedgerStore) : Type 0 where
    pub rows : List Row
    pub more_rows : t.ledger ≡ s.ledger ++ rows
    pub points : List CheckpointRow
    pub more_points : t.checkpoints ≡ s.checkpoints ++ points
    pub same_signer : t.signer ≡ s.signer

  Extends-refl : (s : LedgerStore) → Extends s s
  Extends-refl s = record {
    rows = [];
    more_rows = sym (append-nil s.ledger);
    points = [];
    more_points = sym (append-nil s.checkpoints);
    same_signer = refl;
  }

  Extends-trans : (s t u : LedgerStore) → Extends s t → Extends t u → Extends s u
  Extends-trans s t u h k = record {
    rows = h.rows ++ k.rows;
    more_rows =
        k.more_rows ∙ ap (λ l. l ++ k.rows) h.more_rows ∙ append_assoc s.ledger h.rows k.rows;
    points = h.points ++ k.points;
    more_points =
        k.more_points
        ∙ ap (λ l. l ++ k.points) h.more_points
        ∙ append_assoc s.checkpoints h.points k.points;
    same_signer = k.same_signer ∙ h.same_signer;
  }

  checkpoint-Extends : (s : LedgerStore) (now : Text) → Extends s (checkpoint c s now).0
  unfolding checkpoint
  checkpoint-Extends s now = record {
    rows = [];
    more_rows = sym (append-nil s.ledger);
    points = _ ∷ [];
    more_points = refl;
    same_signer = refl;
  }

  maybe_checkpoint-Extends : (s : LedgerStore) (now : Text) → Extends s (maybe_checkpoint c s now)
  unfolding maybe_checkpoint
  maybe_checkpoint-Extends s now = elim (Bool-cases (checkpoint_due s)) [
    | inl due ↦ rw due (checkpoint-Extends s now)
    | inr other ↦ rw other (Extends-refl s)
  ]

  insert_row-Extends : (s : LedgerStore) (row : Row) → Extends s (insert_row s row)
  unfolding insert_row
  insert_row-Extends s row = record {
    rows = row ∷ [];
    more_rows = refl;
    points = [];
    more_points = sym (append-nil s.checkpoints);
    same_signer = refl;
  }

  append-Extends :
      (s t : LedgerStore) (r r' : LedgerRecord) (now later : Text)
      → append c json s r now later ≡ ok (t, r')
      → Extends s t
  unfolding append
  append-Extends s t r r' now later e =
      let s' = insert_row s (row_for c json s r now) in
      let same : maybe_checkpoint c s' later ≡ t = ground arith in
      subst (Extends s) same (
        Extends-trans s s' (maybe_checkpoint c s' later)
          (insert_row-Extends s (row_for c json s r now)) (maybe_checkpoint-Extends s' later))

  open_store-Extends :
      (s t : LedgerStore) (every : ℕ) (mode : Text)
      → open_store s.db s.signer every mode ≡ ok t
      → Extends s t
  unfolding open_store
  open_store-Extends s t every mode e =
      let again : LedgerStore = record s {
        checkpoint_every = every;
        leaves = map leaf_of s.ledger;
      } in
      let same : again ≡ t = ground arith in
      subst (Extends s) same (record {
        rows = [];
        more_rows = sym (append-nil s.ledger);
        points = [];
        more_points = sym (append-nil s.checkpoints);
        same_signer = refl;
      })

  Step-Extends : {s t : LedgerStore} → Step s t → Extends s t
  Step-Extends (appended s t r r' now later e) = append-Extends s t r r' now later e
  Step-Extends (checkpointed s t now e) = subst (Extends s) e (checkpoint-Extends s now)
  Step-Extends (reopened s t every mode e) = open_store-Extends s t every mode e

  -- The ledger is append-only: whatever operations follow, every row and every checkpoint stays as
  -- and where it was, and new ones stand behind.
  pub Reach-Extends : {s t : LedgerStore} → Reach s t → Extends s t
  Reach-Extends {s} here = Extends-refl s
  Reach-Extends {s} (next {t} {u} r st) = Extends-trans s t u (Reach-Extends r) (Step-Extends st)

  module _ (sound : IsSound c) where
    Step-IsConsistent : {s t : LedgerStore} → Step s t → IsConsistent c s → IsConsistent c t
    Step-IsConsistent (appended s t r r' now later e) h =
        append-IsConsistent c sound json s t r r' now later e h
    Step-IsConsistent (checkpointed s t now e) h =
        subst (IsConsistent c) e (checkpoint-IsConsistent c sound s now h)
    Step-IsConsistent (reopened s t every mode e) h =
        open_store-IsConsistent c sound s t every mode e h

    pub Reach-IsConsistent : {s t : LedgerStore} → Reach s t → IsConsistent c s → IsConsistent c t
    Reach-IsConsistent here h = h
    Reach-IsConsistent (next r st) h = Step-IsConsistent st (Reach-IsConsistent r h)

    pub Fresh-IsConsistent : {s : LedgerStore} → Fresh s → IsConsistent c s
    Fresh-IsConsistent (opened raw every mode s e) =
        unfold open_store from_private_bytes in
        let new : LedgerStore = record {
          db = empty_db;
          signer = from_private_bytes c raw;
          checkpoint_every = every;
          leaves = [];
        } in
        let same : new ≡ s = ground arith in
        subst (IsConsistent c) same
          (record { keyed = refl; chained = tt; cached = refl; committed = tt })

    verify_merkle-empty :
        (s : LedgerStore)
        → s.ledger ≡ []
        → s.checkpoints ≡ []
        → verify_merkle c s.signer.public_key s.db
          ≡ ok (record { is_ok = true; leaf_count = 0; detail = empty_ledger })
    unfolding verify_merkle check_checkpoint current_leaves
    verify_merkle-empty s e f = rw (e, f, check_checkpoint)

    last?-nonempty :
        (cps : List CheckpointRow) → cps ≢ [] → (cp : CheckpointRow) × (last? cps ≡ some cp)
    last?-nonempty [] h = absurd (h refl)
    last?-nonempty (cp ∷ []) h = (cp, refl)
    last?-nonempty (cp ∷ other ∷ cps) h = last?-nonempty (other ∷ cps) (λ e. ground arith)

    -- Under sound primitives, whatever sequence of appends, checkpoints and restarts a new ledger
    -- goes through, if a checkpoint was taken or no row was appended, both verifications pass:
    -- every row is counted without a divergence, and the rows match the newest checkpoint.
    pub honest_verifies :
        {s t : LedgerStore}
        → Fresh s
        → Reach s t
        → (t.checkpoints ≢ []) ⊎ ((t.checkpoints ≡ []) × (t.ledger ≡ []))
        → (verify_chain c t.signer.public_key t.db
            ≡ record { is_ok = true; rows_checked = length t.ledger; divergence = none })
          × ((r : MerkleReport) × (verify_merkle c t.signer.public_key t.db ≡ ok r)
              × (r.is_ok ≡ true))
    honest_verifies {t} f r h =
        let k = Reach-IsConsistent r (Fresh-IsConsistent f) in
        (verify_chain-IsConsistent c sound t k, merkle h k)
      where
        merkle :
            (t.checkpoints ≢ []) ⊎ ((t.checkpoints ≡ []) × (t.ledger ≡ []))
            → IsConsistent c t
            → (r : MerkleReport) × (verify_merkle c t.signer.public_key t.db ≡ ok r)
              × (r.is_ok ≡ true)
        merkle (inl some_point) k =
            let (cp, newest) = last?-nonempty t.checkpoints some_point in
            (
              record { is_ok = true; leaf_count = cp.leaf_count; detail = verified },
              verify_merkle-committed c sound t cp k newest,
              refl,
            )
        merkle (inr (no_point, no_row)) k = (
          record { is_ok = true; leaf_count = 0; detail = empty_ledger },
          verify_merkle-empty t no_row no_point,
          refl,
        )
