-- ===== src/Anchor/Detection.antt =====
-- What a passing `verify_anchors` says, and when it passes: every witness is accounted for.
use memory_blackbox.Prelude.{
  ℕ, ◌≤◌, ◌≡◌, ◌≢◌, ◌↔◌, refl, ◌∙◌, Bool, true, List, [], ◌∷◌, ◌++◌, Option, none, some, arith,
  Text, Bytes, contains, length, take, All, eq_iff, ok,
}
use memory_blackbox.Crypto.{Primitives}
use memory_blackbox.Merkle.{root_hex}
use memory_blackbox.Model.Json.{Orjson}
use memory_blackbox.Ledger.Store.{LedgerStore, count}
use memory_blackbox.Ledger.Merkle.{current_leaves}
use memory_blackbox.Model.Values.{Casts}
use memory_blackbox.Anchor.Statement.{
  CheckpointStatement, Witness, AnchorReceipt, Anchor, ledger_id, verify_signature,
}
use memory_blackbox.Anchor.Store.{checkpoints, anchors}
use memory_blackbox.Anchor.Verify.{
  AnchorDivergence, AnchorReport, is_empty, check_statement, check_statements,
  statement_divergences, check_orphans, check_receipts, local_fingerprints, all_divergences,
  check_witnesses, check_log, verify_anchors, witnessed_rows_of,
}

append-eq-nil : (xs ys : List AnchorDivergence) → (xs ++ ys ≡ []) ↔ ((xs ≡ []) × (ys ≡ []))
append-eq-nil [] ys = (λ h. (refl, h), λ h. h.1)
append-eq-nil (x ∷ xs) ys = (λ h. cc, λ h. cc (h.0))

is_empty_iff : (xs : List AnchorDivergence) → (is_empty xs ≡ true) ↔ (xs ≡ [])
is_empty_iff [] = (λ h. refl, λ h. refl)
is_empty_iff (x ∷ xs) = (λ h. cc, λ h. cc)

module _ (c : Primitives) (leaves : List Bytes) (rows : ℕ) (public_key : Bytes) where
  -- A witnessed statement, if the log returned it: signed by the ledger's key, no longer than the
  -- ledger, and with the root of as many of its rows.
  abbrev pub Matches : Option CheckpointStatement → Type 0
  Matches none = Unit
  Matches (some st) =
      (verify_signature c st public_key ≡ true)
      × (st.leaf_count ≤ rows)
      × (root_hex c (take st.leaf_count leaves) ≡ st.root)

  check_statement-none :
      (w : Witness) (st : CheckpointStatement)
      → (check_statement c leaves rows public_key w st ≡ none) ↔ Matches (some st)
  unfolding check_statement
  check_statement-none w st = (
    λ h. ground (arith, eq_iff (root_hex c (take st.leaf_count leaves)) st.root),
    λ h. ground (arith, eq_iff (root_hex c (take st.leaf_count leaves)) st.root),
  )

  statement_divergences-nil :
      (w : Witness) (o : Option CheckpointStatement)
      → (statement_divergences c leaves rows public_key w o ≡ []) ↔ Matches o
  statement_divergences-nil w none = (λ h. tt, λ h. refl)
  statement_divergences-nil w (some st) = ground (arith, check_statement-none w st)

  check_statements-nil :
      (ws : List Witness)
      → (check_statements c leaves rows public_key ws ≡ [])
        ↔ All (λ (w : Witness). Matches w.statement) ws
  unfolding check_statements
  check_statements-nil [] = (λ h. tt, λ h. refl)
  check_statements-nil (w ∷ ws) =
      let parts =
        append-eq-nil (statement_divergences c leaves rows public_key w w.statement)
          (check_statements c leaves rows public_key ws) in
      let first = statement_divergences-nil w w.statement in
      let later = check_statements-nil ws in
      (
        λ h. let (a, b) = parts.0 h in (first.0 a, later.0 b),
        λ h. parts.1 (first.1 h.0, later.1 h.1),
      )

check_orphans-nil :
    (known : List Text) (backend : Text) (ws : List Witness)
    → (check_orphans known backend ws ≡ [])
      ↔ All (λ (w : Witness). contains known w.fingerprint ≡ true) ws
unfolding check_orphans
check_orphans-nil known backend [] = (λ h. tt, λ h. refl)
check_orphans-nil known backend (w ∷ ws) = ground (arith, check_orphans-nil known backend ws)

module _ {L : Type 0} (c : Primitives) (json : Orjson) (casts : Casts) (anchor : Anchor L) where
  -- Every witness carries the fingerprint of a checkpoint that the ledger still holds, and every
  -- statement that the log returned matches the rows.
  pub record Accounted (s : LedgerStore) (identity : Text) (ws : List Witness) : Type 0 where
    pub produced :
        All
          (λ (w : Witness).
            contains
              (local_fingerprints c json casts anchor identity (checkpoints s.db))
              w.fingerprint
            ≡ true)
          ws
    pub matched :
        All
          (λ (w : Witness).
            Matches c (current_leaves s.db) (count s) s.signer.public_key w.statement)
          ws

  module _ (s : LedgerStore) (identity : Text) (ws : List Witness)
      (faults : List AnchorDivergence) where
    all_divergences-nil :
        (all_divergences c json casts anchor s identity ws faults ≡ [])
        ↔ (Accounted s identity ws × (faults ≡ []))
    all_divergences-nil =
        let known = local_fingerprints c json casts anchor identity (checkpoints s.db) in
        let leaves = current_leaves s.db in
        let outer =
          append-eq-nil (check_statements c leaves (count s) s.signer.public_key ws)
            (check_orphans known anchor.name ws ++ faults) in
        let inner = append-eq-nil (check_orphans known anchor.name ws) faults in
        let statements = check_statements-nil c leaves (count s) s.signer.public_key ws in
        let orphans = check_orphans-nil known anchor.name ws in
        (
          λ h.
              let (a, rest) = outer.0 h in
              let (b, d) = inner.0 rest in
              (record { produced = orphans.0 b; matched = statements.0 a }, d),
          λ h. outer.1 (statements.1 h.0.matched, inner.1 (orphans.1 h.0.produced, h.1)),
        )

  module _ (s : LedgerStore) (log : L) (identity : Text) (ws : List Witness)
      (receipts : List AnchorReceipt) (faults : List AnchorDivergence)
      (named : ledger_id c s.db ≡ some identity)
      (read : anchor.witnesses log identity s.signer.public_key ≡ ok ws)
      (kept : anchors json casts s.db (some anchor.name) ≡ ok receipts)
      (checked : check_receipts c json casts anchor log receipts ≡ ok faults) where
    -- The report on a ledger with witnesses.
    abbrev pub full_report : List Witness → AnchorReport
    full_report l = record {
      is_ok = is_empty (all_divergences c json casts anchor s identity l faults);
      backend = anchor.name;
      local_rows = count s;
      local_checkpoints = length (checkpoints s.db);
      witness_count = length l;
      witnessed_rows =
          witnessed_rows_of c (current_leaves s.db) (count s) s.signer.public_key none l;
      divergences = all_divergences c json casts anchor s identity l faults;
    }

    check_log-full :
        (w : Witness) (l : List Witness) (require : Bool)
        → check_log c json casts anchor s log require identity (w ∷ l) ≡ ok (full_report (w ∷ l))
    unfolding check_witnesses
    check_log-full w l require = rw kept (rw checked refl)

    verify_anchors-log :
        (require : Bool)
        → verify_anchors c json casts anchor s log require
          ≡ check_log c json casts anchor s log require identity ws
    unfolding verify_anchors
    verify_anchors-log require = rw named (rw read refl)

    check_log_iff :
        (l : List Witness)
        → (r : AnchorReport) × (check_log c json casts anchor s log true identity l ≡ ok r)
          × ((r.is_ok ≡ true) ↔ ((l ≢ []) × Accounted s identity l × (faults ≡ [])))
    check_log_iff [] = (_, refl, (λ h. cc, λ h. absurd (h.0 refl)))
    check_log_iff (w ∷ l) =
        let parts = all_divergences-nil s identity (w ∷ l) faults in
        let empty = is_empty_iff (all_divergences c json casts anchor s identity (w ∷ l) faults) in
        (
          full_report (w ∷ l),
          check_log-full w l true,
          (
            λ h. let (a, f) = parts.0 (empty.0 h) in (λ e. cc, a, f),
            λ h. empty.1 (parts.1 (h.1, h.2)),
          ),
        )

    -- On a ledger that is not empty and whose log and receipts can be read, `verify_anchors`
    -- returns a report, and with a witness required the report passes exactly when there is a
    -- witness, every witness carries the fingerprint of a checkpoint that the ledger holds, every
    -- returned statement is signed by the ledger's key, no longer than the ledger and with the root
    -- of as many of its rows, and no receipt is faulty.
    pub verify_anchors_iff :
        (r : AnchorReport) × (verify_anchors c json casts anchor s log true ≡ ok r)
        × ((r.is_ok ≡ true) ↔ ((ws ≢ []) × Accounted s identity ws × (faults ≡ [])))
    verify_anchors_iff =
        let (r, run, exact) = check_log_iff ws in (r, verify_anchors-log true ∙ run, exact)
