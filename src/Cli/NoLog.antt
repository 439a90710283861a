-- ===== src/Cli/NoLog.antt =====
-- A check from the command line without a log does not pass.
use memory_blackbox.Prelude.{
  ◌≡◌, ◌≢◌, refl, sym, ap, ◌∙◌, Bool, true, false, ◌&&◌, List, ◌∷◌, some, arith, Text, eq_refl,
  if◌then◌else◌, Result, ok, err, ◌>>=◌,
}
use memory_blackbox.Crypto.{Primitives}
use memory_blackbox.Model.Json.{Fields, Orjson}
use memory_blackbox.Model.Values.{Casts}
use memory_blackbox.Storage.{Row}
use memory_blackbox.Ledger.Store.{LedgerStore}
use memory_blackbox.Ledger.Merkle.{MerkleReport, verify_merkle}
use memory_blackbox.Ledger.Chain.{ChainReport, verify_chain}
use memory_blackbox.Anchor.Statement.{ledger_id, row_identity, no_op_anchor}
use memory_blackbox.Anchor.Verify.{AnchorReport, verify_anchors, unwitnessed}
use memory_blackbox.Anchor.Rekor.Transport.{Packages, Opener}
use memory_blackbox.Query.Integrity.{integrity_of, verify, anchor_report}
use memory_blackbox.Config.{Config, Backend, no_log, anchor_none, build_anchor}
use memory_blackbox.Cli.{
  World, Flags, exit, opened, integrity_exit, run_verify, verify_opened, verify_with,
  verify_command,
}

not_zero : (b : Bool) → b ≡ false → exit (if b then 0 else 1) ≢ exit 0
not_zero true h e = cc
not_zero false h e = cc

-- A report with a failing anchor is no success.
failing_exit :
    (chain : ChainReport) (m : Result MerkleReport) (a : AnchorReport)
    → a.is_ok ≡ false
    → integrity_exit (m >>= λ merkle. ok (integrity_of chain merkle (some a))) ≢ exit 0
failing_exit chain (err why) a h e = cc
failing_exit chain (ok merkle) a h e =
    not_zero (chain.is_ok && (merkle.is_ok && a.is_ok)) (ground arith) e

module _ {L : Type 0} (c : Primitives) (json : Orjson) (casts : Casts) (p : Packages)
    (why : Fields → Text) (opener : Opener L) where
  -- Without a log nothing is witnessed.
  verify_anchors-no_log :
      (s : LedgerStore) (row : Row) (rows : List Row)
      → s.ledger ≡ row ∷ rows
      → (r : AnchorReport) × (verify_anchors c json casts (no_op_anchor c json) s tt true ≡ ok r)
        × (r.is_ok ≡ false)
  unfolding verify_anchors ledger_id
  verify_anchors-no_log s row rows held = (
    unwitnessed c json casts (no_op_anchor c json) s (row_identity c row) true,
    rw held refl,
    refl,
  )

  run_verify-no_log :
      (w : World L) (now : Text) (s : LedgerStore) (r : AnchorReport)
      → verify_anchors c json casts (no_op_anchor c json) s tt true ≡ ok r
      → run_verify c json casts p why opener now w s (some no_log) ≡ (
          verify_merkle c s.signer.public_key s.db >>= λ m.
          ok (integrity_of (verify_chain c s.signer.public_key s.db) m (some r)))
  unfolding run_verify verify anchor_report
  run_verify-no_log w now s r e = rw e refl

  build_anchor-no_log :
      (config : Config) → config.anchor_backend ≡ anchor_none → build_anchor p config ≡ ok no_log
  unfolding build_anchor
  build_anchor-no_log config unset = rw unset (rw eq_refl refl)

  pub verify_command-backend :
      (w : World L) (flags : Flags) (now : Text) (config : Config) (s : LedgerStore)
      (backend : Backend)
      → opened w flags ≡ some (config, s)
      → build_anchor p config ≡ ok backend
      → verify_command c json casts p why opener now w true flags
        ≡ integrity_exit (run_verify c json casts p why opener now w s (some backend))
  unfolding verify_command
  verify_command-backend w flags now config s backend found built =
      ap (verify_opened c json casts p why opener now w true) found
      ∙ ap (verify_with c json casts p why opener now w s) built

  -- `verify --anchor` without a backend does not exit with 0 on a ledger that has a row: it takes
  -- the missing log for a log without a witness.
  pub verify_command-no_log :
      (w : World L) (flags : Flags) (now : Text) (config : Config) (s : LedgerStore) (row : Row)
      (rows : List Row)
      → opened w flags ≡ some (config, s)
      → config.anchor_backend ≡ anchor_none
      → s.ledger ≡ row ∷ rows
      → verify_command c json casts p why opener now w true flags ≢ exit 0
  verify_command-no_log w flags now config s row rows found unset held e =
      let (r, read, fails) = verify_anchors-no_log s row rows held in
      let run = run_verify-no_log w now s r read in
      let built = build_anchor-no_log config unset in
      failing_exit (verify_chain c s.signer.public_key s.db)
        (verify_merkle c s.signer.public_key s.db) r fails
        (ap integrity_exit (sym run)
          ∙ sym (verify_command-backend w flags now config s no_log found built)
          ∙ e)
