-- ===== src/Cli/EndToEnd.antt =====
-- A checkpoint that is published from the command line is verified there.
use memory_blackbox.Prelude.{◌≡◌, refl, sym, ap, ◌∙◌, true, List, [], some, Text, ◌==◌, last?, ok}
use memory_blackbox.Crypto.{Primitives, IsSound}
use memory_blackbox.Model.Json.{Fields, Orjson, IsRoundTrip}
use memory_blackbox.Model.Values.{Casts, AreCasts}
use memory_blackbox.Storage.{CheckpointRow}
use memory_blackbox.Ledger.Store.{LedgerStore}
use memory_blackbox.Ledger.Honest.{IsConsistent, verify_chain-IsConsistent, verify_merkle-committed}
use memory_blackbox.Anchor.Statement.{AnchorReceipt, ledger_id}
use memory_blackbox.Anchor.Verify.{AnchorReport, anchor_now, verify_anchors}
use memory_blackbox.Anchor.FileWitness.{file_witness}
use memory_blackbox.Anchor.Publication.{WritesObjects}
use memory_blackbox.Anchor.Anchored.{anchor_now-verifies}
use memory_blackbox.Anchor.Rekor.Transport.{Packages, Opener}
use memory_blackbox.Query.Integrity.{verify, anchor_report}
use memory_blackbox.Config.{
  Config, witness_file, anchor_file, build_anchor, default_witness_path, is_anchoring,
}
use memory_blackbox.Cli.{
  World, Flags, anchor_opened, with_profile, exit, opened, integrity_exit, run_verify,
  verify_command, run_anchor, anchor_command, put_value,
}
use memory_blackbox.Cli.NoLog.{verify_command-backend}
use memory_blackbox.Cli.Clock.{verify_anchors-now}
use memory_blackbox.Cli.Published.{put_value-same, opened_after, anchor_now-newest}

module _ {L : Type 0} (c : Primitives) (json : Orjson) (casts : Casts) (p : Packages)
    (why : Fields → Text) (opener : Opener L) where
  build_anchor-file :
      (config : Config)
      → config.anchor_backend ≡ anchor_file
      → (build_anchor p config ≡ ok (witness_file (default_witness_path config)))
        × (is_anchoring config ≡ true)
  unfolding build_anchor is_anchoring ◌==◌
  build_anchor-file config file = rw file (refl, refl)

  anchor_command-file :
      (w : World L) (flags : Flags) (now at path : Text) (config : Config) (s t : LedgerStore)
      (lines : List Text) (receipt : AnchorReceipt)
      → opened w flags ≡ some (config, s)
      → build_anchor p config ≡ ok (witness_file path)
      → is_anchoring config ≡ true
      → w.files path ≡ []
      → anchor_now c json casts (file_witness c json casts path now) s [] s.signer at
        ≡ ((t, lines), ok receipt)
      → anchor_command c json casts p why opener now w flags at ≡ (
        record (with_profile c json casts p why opener now w config.home t) {
          files = put_value path lines w.files;
        },
        exit 0,
      )
  unfolding anchor_command run_anchor
  anchor_command-file w flags now at path config s t lines receipt found built anchoring held run =
      ap (anchor_opened c json casts p why opener now w at) found
      ∙ rw anchoring (rw built (rw held (rw run refl)))

  -- The command `verify` on a profile that passes its parts.
  run_verify-passes :
      (w : World L) (now later path : Text) (t : LedgerStore) (lines : List Text)
      (cp : CheckpointRow) (report : AnchorReport)
      → IsSound c
      → IsConsistent c t
      → last? t.checkpoints ≡ some cp
      → w.files path ≡ lines
      → verify_anchors c json casts (file_witness c json casts path now) t lines true ≡ ok report
      → report.is_ok ≡ true
      → integrity_exit (run_verify c json casts p why opener later w t (some (witness_file path)))
        ≡ exit 0
  unfolding run_verify verify anchor_report
  run_verify-passes w now later path t lines cp report sound k newest held verified fine =
      let external =
        ap (λ l. verify_anchors c json casts (file_witness c json casts path later) t l true) held
        ∙ sym (verify_anchors-now c json casts path now later t lines true)
        ∙ verified in
      rw (verify_merkle-committed c sound t cp k newest)
        (rw external (rw (verify_chain-IsConsistent c sound t k) (rw fine refl)))

  -- Under sound primitives, if orjson reads back what it writes, the text of an object is not blank,
  -- and `str` and `int` give back texts and numbers: on a profile with a consistent ledger that is
  -- not empty and has no receipt, with a configured witness file that is empty, the command `anchor`
  -- exits with 0, and `verify --anchor` run behind it, at any time, with the same options, exits
  -- with 0.
  pub anchor_command-verify_command :
      IsSound c
      → IsRoundTrip json
      → AreCasts casts
      → WritesObjects json
      → (w : World L) (flags : Flags) (now at later : Text) (config : Config) (s : LedgerStore)
        (identity : Text)
      → opened w flags ≡ some (config, s)
      → config.anchor_backend ≡ anchor_file
      → w.files (default_witness_path config) ≡ []
      → IsConsistent c s
      → ledger_id c s.db ≡ some identity
      → s.anchors ≡ []
      → ((anchor_command c json casts p why opener now w flags at).1 ≡ exit 0)
        × (verify_command c json casts p why opener later
              (anchor_command c json casts p why opener now w flags at).0
              true
              flags
            ≡ exit 0)
  anchor_command-verify_command sound trip laws objects w flags now at later config s identity found
        file empty k known none_yet =
      let path = default_witness_path config in
      let (t, lines, receipt, report, run, k', verified, fine) =
        anchor_now-verifies c json casts sound trip laws objects path now at s identity k known
          none_yet in
      let (cp, newest) = anchor_now-newest c json casts _ s t _ _ s.signer at receipt run in
      let (built, anchoring) = build_anchor-file config file in
      let v : World L = record (with_profile c json casts p why opener now w config.home t) {
        files = put_value path lines w.files;
      } in
      let anchored =
        anchor_command-file w flags now at path config s t lines receipt found built anchoring empty
          run in
      let checked =
        verify_command-backend c json casts p why opener v flags later config t (witness_file path)
          (opened_after w v flags config s t refl refl
            (put_value-same config.home (some t) w.profiles) found)
          built
        ∙ run_verify-passes v now later path t lines cp report sound k' newest
            (put_value-same path lines w.files) verified fine in
      (
        ap (λ r. r.1) anchored,
        ap (λ r. verify_command c json casts p why opener later r.0 true flags) anchored ∙ checked,
      )
