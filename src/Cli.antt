-- ===== src/Cli.antt =====
-- The commands `verify`, `anchor` and `anchor-status` of src/memory_blackbox/cli.py: what they run
-- and the code that they exit with. What they print is none of the model.
pub mod NoLog
pub mod Clock
pub mod Published
pub mod EndToEnd
use memory_blackbox.Prelude.{
  ℕ, Bool, true, false, not, ◌&&◌, List, [], ◌∷◌, Option, none, some, Text, ◌==◌, if◌then◌else◌,
  Result, Error, ok, err, value_error, anchor_error, ◌>>=◌,
}
use memory_blackbox.Crypto.{Primitives}
use memory_blackbox.Model.Json.{Fields, Orjson}
use memory_blackbox.Model.Values.{Casts}
use memory_blackbox.Ledger.Store.{LedgerStore}
use memory_blackbox.Anchor.Statement.{Anchor, AnchorReceipt, no_op_anchor}
use memory_blackbox.Anchor.FileWitness.{file_witness}
use memory_blackbox.Anchor.Verify.{AnchorReport, verify_anchors, anchor_now}
use memory_blackbox.Anchor.Rekor.Transport.{Packages, Opener}
use memory_blackbox.Anchor.Rekor.Receipt.{rekor_anchor}
use memory_blackbox.Query.Integrity.{IntegrityReport, verify}
use memory_blackbox.Config.{
  Config, Backend, no_log, witness_file, rekor_log, is_backend, is_anchoring, resolve_config,
  build_anchor, set_or_none, text_or,
}

-- What the commands find: the environment, the profile in a directory, if it has a key file, the
-- witness files, and the log of Rekor.
pub record World (L : Type 0) : Type 0 where
  pub env : Text → Option Text
  pub default_home : Text
  pub profiles : Text → Option LedgerStore
  pub files : Text → List Text
  pub log : L

-- The options of a command.
pub record Flags : Type 0 where
  pub backend : Option Text
  pub witness_path : Option Text
  pub rekor_base : Option Text
  pub home : Option Text

-- An exit code, or an exception that leaves the command.
pub data Exit : Type 0 where
  exit : ℕ → Exit
  raised : Error → Exit

-- `flag or value`
abbrev pub overlay : Option Text → Option Text → Option Text
overlay flag value = elim (set_or_none flag) [ none ↦ value | some s ↦ some s ]

-- A path is true, the empty one too.
abbrev pub overlay_path : Option Text → Option Text → Option Text
overlay_path none value = value
overlay_path (some path) value = some path

-- `backend is not None and backend not in ANCHOR_BACKENDS`
abbrev pub is_unknown : Option Text → Bool
is_unknown none = false
is_unknown (some name) = not (is_backend name)

-- `_anchor_config`
unfoldable pub anchor_config : Flags → Config → Result Config
anchor_config flags config =
    if is_unknown flags.backend
    then err value_error
    else ok (record config {
      anchor_backend = text_or config.anchor_backend (set_or_none flags.backend);
      witness_path = overlay_path flags.witness_path config.witness_path;
      rekor_base = overlay flags.rekor_base config.rekor_base;
    })

abbrev pub put_value {ℓ} : {V : Type ℓ} → Text → V → (Text → V) → Text → V
put_value key value f other = if other == key then value else f other

abbrev pub integrity_exit : Result IntegrityReport → Exit
integrity_exit (ok r) = exit (if r.is_ok then 0 else 1)
integrity_exit (err why) = raised why

-- `AnchorError` gives 1.
abbrev pub failure_exit : Error → Exit
failure_exit anchor_error = exit 1
failure_exit why = raised why

abbrev pub status_exit : Result AnchorReport → Exit
status_exit (ok r) = exit (if r.is_ok then 0 else 1)
status_exit (err why) = failure_exit why

abbrev pub receipt_exit : Result AnchorReceipt → Exit
receipt_exit (ok r) = exit 0
receipt_exit (err why) = failure_exit why

abbrev pub with_ledger : Config → Option LedgerStore → Option (Config × LedgerStore)
with_ledger config none = none
with_ledger config (some s) = some (config, s)

module _ {L : Type 0} where
  abbrev pub with_config : World L → Result Config → Option (Config × LedgerStore)
  with_config w (err e) = none
  with_config w (ok config) = with_ledger config (w.profiles config.home)

  -- `_config` and `_anchor_config`
  abbrev pub config_of : World L → Flags → Result Config
  config_of w flags = resolve_config w.env w.default_home flags.home >>= anchor_config flags

  -- The configuration and the profile that a command works on; both failures give the code 2.
  unfoldable pub opened : World L → Flags → Option (Config × LedgerStore)
  opened w flags = with_config w (config_of w flags)

module _ {L : Type 0} (c : Primitives) (json : Orjson) (casts : Casts) (p : Packages)
    (why : Fields → Text) (opener : Opener L) (now : Text) where
  -- `verify(blackbox.ledger, anchor=...)`
  unfoldable pub run_verify : World L → LedgerStore → Option Backend → Result IntegrityReport
  run_verify w s none = verify {L = Unit {0}} c json casts s none none true
  run_verify w s (some no_log) = verify c json casts s none (some (no_op_anchor c json, tt)) true
  run_verify w s (some (witness_file path)) =
      verify c json casts s none (some (file_witness c json casts path now, w.files path)) true
  run_verify w s (some (rekor_log url)) =
      verify c json casts s none (some (rekor_anchor casts c json p why opener url now, w.log)) true

  abbrev pub verify_with : World L → LedgerStore → Result Backend → Exit
  verify_with w s (ok backend) = integrity_exit (run_verify w s (some backend))
  verify_with w s (err e) = raised e

  abbrev pub verify_opened : World L → Bool → Option (Config × LedgerStore) → Exit
  verify_opened w check_anchors none = exit 2
  verify_opened w check_anchors (some (config, s)) =
      if check_anchors
      then verify_with w s (build_anchor p config)
      else integrity_exit (run_verify w s none)

  -- `verify`; `check_anchors` is the option `--anchor`.
  unfoldable pub verify_command : World L → Bool → Flags → Exit
  verify_command w check_anchors flags = verify_opened w check_anchors (opened w flags)

  unfoldable pub run_status : World L → LedgerStore → Result Backend → Result AnchorReport
  run_status w s (err e) = err e
  run_status w s (ok no_log) = verify_anchors c json casts (no_op_anchor c json) s tt true
  run_status w s (ok (witness_file path)) =
      verify_anchors c json casts (file_witness c json casts path now) s (w.files path) true
  run_status w s (ok (rekor_log url)) =
      verify_anchors c json casts (rekor_anchor casts c json p why opener url now) s w.log true

  abbrev pub status_opened : World L → Option (Config × LedgerStore) → Exit
  status_opened w none = exit 2
  status_opened w (some (config, s)) = status_exit (run_status w s (build_anchor p config))

  -- `anchor_status`
  unfoldable pub anchor_status : World L → Flags → Exit
  anchor_status w flags = status_opened w (opened w flags)

  -- The world after `anchor_now`, and the outcome.
  abbrev pub stored :
      {M : Type 0}
      → (LedgerStore → M → World L)
      → (LedgerStore × M) × Result AnchorReceipt
      → World L × Result AnchorReceipt
  stored put ((s, log), result) = (put s log, result)

  abbrev pub with_profile : World L → Text → LedgerStore → World L
  with_profile w home s = record w { profiles = put_value home (some s) w.profiles }

  unfoldable pub run_anchor :
      World L → Text → LedgerStore → Text → Result Backend → World L × Result AnchorReceipt
  run_anchor w home s at (err e) = (w, err e)
  run_anchor w home s at (ok no_log) =
      stored (λ s' u. with_profile w home s')
        (anchor_now c json casts (no_op_anchor c json) s tt s.signer at)
  run_anchor w home s at (ok (witness_file path)) =
      stored (λ s' lines. record (with_profile w home s') { files = put_value path lines w.files })
        (anchor_now c json casts (file_witness c json casts path now) s (w.files path) s.signer at)
  run_anchor w home s at (ok (rekor_log url)) =
      stored (λ s' log'. record (with_profile w home s') { log = log' })
        (anchor_now c json casts (rekor_anchor casts c json p why opener url now) s w.log s.signer
          at)

  abbrev pub anchor_exit : World L × Result AnchorReceipt → World L × Exit
  anchor_exit (w, result) = (w, receipt_exit result)

  abbrev pub anchor_opened : World L → Text → Option (Config × LedgerStore) → World L × Exit
  anchor_opened w at none = (w, exit 2)
  anchor_opened w at (some (config, s)) =
      let done = anchor_exit (run_anchor w config.home s at (build_anchor p config)) in
      if is_anchoring config then done else (w, exit 2)

  -- `anchor`; `at` is the clock at the checkpoint. A command without a backend ends before the
  -- profile is opened, with the same code.
  unfoldable pub anchor_command : World L → Flags → Text → World L × Exit
  anchor_command w flags at = anchor_opened w at (opened w flags)
