-- ===== src/Cli/Published.antt =====
-- The profile and the newest checkpoint behind a publication.
use memory_blackbox.Prelude.{
  ◌≡◌, refl, sym, ap, ap₂, ◌∙◌, Bool-cases, inl, inr, Option, none, some, Text, eq_refl, last?,
  Result, ok, err, ◌>>=◌,
}
use memory_blackbox.Crypto.{Primitives}
use memory_blackbox.Crypto.Keys.{KeyPair}
use memory_blackbox.Model.Json.{Orjson}
use memory_blackbox.Model.Values.{Casts}
use memory_blackbox.Storage.{CheckpointRow, Db}
use memory_blackbox.Ledger.Store.{LedgerStore, checkpoint}
use memory_blackbox.Anchor.Statement.{build, Anchor, AnchorReceipt, ledger_id}
use memory_blackbox.Anchor.Store.{latest_checkpoint, checkpoints, record_anchor, has_anchor}
use memory_blackbox.Anchor.Verify.{recorded, publish_checkpoint, anchor_now}
use memory_blackbox.Config.{Config, resolve_config}
use memory_blackbox.Cli.{
  World, Flags, config_of, with_config, with_ledger, anchor_config, opened, put_value,
}

pub put_value-same :
    {V : Type 0} (key : Text) (value : V) (f : Text → V) → put_value key value f key ≡ value
put_value-same key value f = rw (eq_refl key) refl

-- The profile that a command opens after another was stored in its place.
pub opened_after :
    {L : Type 0} (w v : World L) (flags : Flags) (config : Config) (s t : LedgerStore)
    → v.env ≡ w.env
    → v.default_home ≡ w.default_home
    → v.profiles config.home ≡ some t
    → opened w flags ≡ some (config, s)
    → opened v flags ≡ some (config, t)
unfolding opened
opened_after w v flags config s t same_env same_home kept found =
    let same : config_of v flags ≡ config_of w flags =
      ap₂ (λ env home. resolve_config env home flags.home >>= anchor_config flags) same_env
        same_home in
    let configured = config_found (config_of w flags) found in
    ap (with_config v) (same ∙ configured) ∙ ap (with_ledger config) kept
  where
    of_ledger :
        (other : Config) (o : Option LedgerStore)
        → with_ledger other o ≡ some (config, s)
        → other ≡ config
    of_ledger other none e = cc
    of_ledger other (some l) e = cc

    config_found : (m : Result Config) → with_config w m ≡ some (config, s) → m ≡ ok config
    config_found (err e) h = cc
    config_found (ok other) h = ap ok (of_ledger other (w.profiles other.home) h)

module _ (c : Primitives) (json : Orjson) where
  newest_recorded :
      (db : Db) (cp : CheckpointRow) (r : AnchorReceipt)
      → (record_anchor c json db cp r).checkpoints ≡ db.checkpoints
  unfolding record_anchor
  newest_recorded db cp r = elim (Bool-cases (has_anchor r.backend r.log_id r.locator db.anchors)) [
    | inl old ↦ rw old refl
    | inr new ↦ rw new refl
  ]

module _ {M : Type 0} (c : Primitives) (json : Orjson) where
  newest_published :
      (casts : Casts) (anchor : Anchor M) (s t : LedgerStore) (log log' : M) (signer : KeyPair)
      (receipt : AnchorReceipt) (found : Option CheckpointRow) (identity : Option Text)
      → last? s.checkpoints ≡ found
      → publish_checkpoint c json casts anchor s log signer found identity ≡ ((t, log'), ok receipt)
      → (cp : CheckpointRow) × (last? t.checkpoints ≡ some cp)
  newest_published casts anchor s t log log' signer receipt none identity newest e = cc
  newest_published casts anchor s t log log' signer receipt (some cp) none newest e = cc
  newest_published casts anchor s t log log' signer receipt (some cp) (some identity) newest e =
      (cp, kept (anchor.publish log (build cp identity) signer) e)
    where
      kept :
          (done : M × Result AnchorReceipt)
          → recorded c json casts anchor s cp done ≡ ((t, log'), ok receipt)
          → last? t.checkpoints ≡ some cp
      kept (l, err why) h = cc
      kept (l, ok r) h =
          ap (λ d. last? d.0.0.checkpoints) (sym h)
          ∙ ap last? (newest_recorded c json s.db cp r)
          ∙ newest

  -- A publication that succeeds leaves a newest checkpoint.
  pub anchor_now-newest :
      (casts : Casts) (anchor : Anchor M) (s t : LedgerStore) (log log' : M) (signer : KeyPair)
      (at : Text) (receipt : AnchorReceipt)
      → anchor_now c json casts anchor s log signer at ≡ ((t, log'), ok receipt)
      → (cp : CheckpointRow) × (last? t.checkpoints ≡ some cp)
  unfolding anchor_now
  anchor_now-newest casts anchor s t log log' signer at receipt e =
      let s' = (checkpoint c s at).0 in
      newest_published casts anchor s' t log log' signer receipt (latest_checkpoint s'.db)
        (ledger_id c s'.db) (unfold latest_checkpoint checkpoints in refl) e
