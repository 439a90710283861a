-- ===== src/Adapters/Offline.antt =====
-- An edit while nobody watched, and a change whose record is refused.
use memory_blackbox.Prelude.{
  ◌≤◌, ◌≡◌, ◌≢◌, inl, inr, refl, sym, ap, ◌∙◌, false, List, [], ◌∷◌, ◌++◌, some, arith, Text, Bytes,
  ◌==◌, eq_iff, eq_refl, length, ltb, Result, Error, ok, err,
}
use memory_blackbox.Codec.Utf8.{utf8}
use memory_blackbox.Crypto.{Primitives}
use memory_blackbox.Crypto.Hashing.{b3}
use memory_blackbox.Model.Json.{Orjson}
use memory_blackbox.Model.Records.{LedgerRecord}
use memory_blackbox.Model.Findings.{Finding}
use memory_blackbox.Ledger.Store.{LedgerStore, is_taken}
use memory_blackbox.Ledger.Store
use memory_blackbox.Capture.Engine.{Times, Inspect}
use memory_blackbox.Capture.Effect.{Recorded}
use memory_blackbox.Capture.Writes.{write_links, inspected, record_write-Recorded}
use memory_blackbox.Adapters.MemoryMd.{
  Snapshots, snapshot_of, is_some_text, MemoryMdAdapter, Files, Outcome, with_snapshot, over_paths,
  then_paths, written, file_write, write_file, compare, record_if_changed, scan_found, scan_path,
  scan, baseline_path, baseline, last_write_hash,
}
use memory_blackbox.Adapters.Watching.{if_cases, Settled, scan_path-Settled, written-Settles}

snapshot_of-newest :
    (path digest : Text) (snapshots : Snapshots)
    → snapshot_of path ((path, digest) ∷ snapshots) ≡ some digest
unfolding snapshot_of
snapshot_of-newest path digest snapshots = rw eq_refl refl

module _ {D : Type 0} (visit : MemoryMdAdapter D → Text → Outcome D) (a b : MemoryMdAdapter D)
    (path : Text) where
  one_path :
      (rs : List LedgerRecord)
      → visit a path ≡ (b, ok rs)
      → over_paths visit a (path ∷ []) ≡ (b, ok (rs ++ []))
  unfolding over_paths
  one_path rs e = rw e refl

  one_path-err :
      (why : Error) → over_paths visit a (path ∷ []) ≡ (b, err why) → visit a path ≡ (b, err why)
  unfolding over_paths
  one_path-err why e = raised (visit a path) e
    where
      raised :
          (o : Outcome D)
          → then_paths o (λ a'. over_paths visit a' []) ≡ (b, err why)
          → o ≡ (b, err why)
      raised (m, ok rs) h = cc
      raised (m, err w) h = h

module _ {D : Type 0} (c : Primitives) (json : Orjson) (inspect : Inspect D)
    (read_text : Bytes → Result Text) (files : Files) where
  module _ (fresh : Text → Text × Times) (a : MemoryMdAdapter D) (path content : Text)
      (bytes : Bytes) (exists : files path ≡ some bytes) (decoded : read_text bytes ≡ ok content)
      (fits : length bytes ≤ a.blackbox.max_content_bytes) where
    scan-changed :
        (known : Text)
        → known ≢ b3 c (utf8 content)
        → snapshot_of path a.snapshots ≡ some known
        → scan_path c json inspect read_text files fresh a path
          ≡ write_file c json inspect read_text files fresh a path content (b3 c (utf8 content))
    unfolding scan_path record_if_changed
    scan-changed known other snap =
        let small : ltb a.blackbox.max_content_bytes (length bytes) ≡ false = ground arith in
        let differs : (known == b3 c (utf8 content)) ≡ false =
          ground (arith, eq_iff known (b3 c (utf8 content))) in
        rw (scan_path, exists) (rw decoded (rw small (rw snap (rw differs refl))))

    baseline_path-known :
        (known : Text)
        → last_write_hash json a.blackbox.ledger a.namespace path ≡ ok (some known)
        → baseline_path c json inspect read_text files fresh a path
          ≡ (with_snapshot a path known, ok [])
    unfolding baseline_path
    baseline_path-known known recorded = rw (baseline_path, exists) (rw recorded refl)

    baseline-known :
        (known : Text)
        → a.paths ≡ path ∷ []
        → last_write_hash json a.blackbox.ledger a.namespace path ≡ ok (some known)
        → baseline c json inspect read_text files fresh a ≡ (with_snapshot a path known, ok [])
    unfolding baseline
    baseline-known known watched recorded =
        let visit = baseline_path c json inspect read_text files fresh in
        ap (over_paths visit a) watched
        ∙ one_path visit a (with_snapshot a path known) path [] (baseline_path-known known recorded)

  -- An edit of a watched file while no process was watching is noticed after a restart: when the
  -- ledger holds a write for the file, the file's content has another digest, is within the size
  -- limit and passes the detectors, and the id is new, then `baseline` records nothing, leaves the
  -- engine as it was and takes the hash of the ledger for its snapshot of the file. The `scan` behind
  -- it records one write more, under that id, and takes the digest of the content for its snapshot.
  -- The file is the only one that is watched.
  pub baseline-scan :
      (a : MemoryMdAdapter D) (path content known : Text) (bytes : Bytes)
      (first fresh : Text → Text × Times) (ds : List D) (found : List Finding)
      → a.paths ≡ path ∷ []
      → files path ≡ some bytes
      → read_text bytes ≡ ok content
      → length bytes ≤ a.blackbox.max_content_bytes
      → length (utf8 content) ≤ a.blackbox.max_content_bytes
      → last_write_hash json a.blackbox.ledger a.namespace path ≡ ok (some known)
      → known ≢ b3 c (utf8 content)
      → inspected c json inspect a.blackbox
          (file_write a.namespace path content (fresh path).1.created)
          (fresh path).0
          (fresh path).1
        ≡ (ds, found, ok tt)
      → is_taken (Store.get a.blackbox.ledger (fresh path).0) ≡ false
      → (mid b : MemoryMdAdapter D) × (r : LedgerRecord) × (baseline c json inspect read_text files
            first a
          ≡ (mid, ok []))
        × (mid.blackbox ≡ a.blackbox)
        × (snapshot_of path mid.snapshots ≡ some known)
        × (scan c json inspect read_text files fresh mid ≡ (b, ok (r ∷ [])))
        × (snapshot_of path b.snapshots ≡ some (b3 c (utf8 content)))
        × Recorded
            (fresh path).0
            (write_links c json inspect
              (file_write a.namespace path content (fresh path).1.created))
            a.blackbox.ledger
            b.blackbox.ledger
  baseline-scan a path content known bytes first fresh ds found watched exists decoded fits small
        recorded other passed new =
      let q = file_write a.namespace path content (fresh path).1.created in
      let (t, r, run, done, _) =
        record_write-Recorded c json inspect a.blackbox q (fresh path).0 (fresh path).1 ds found
          small passed new in
      let mid = with_snapshot a path known in
      let e = record a.blackbox {
        ledger = t;
        detectors = ds;
        findings = a.blackbox.findings ++ found;
      } in
      let visit = scan_path c json inspect read_text files fresh in
      let seen =
        scan-changed fresh mid path content bytes exists decoded fits known other
          (snapshot_of-newest path known a.snapshots) in
      (
        mid,
        record mid { blackbox = e; snapshots = (path, b3 c (utf8 content)) ∷ mid.snapshots },
        r,
        baseline-known first a path content bytes exists decoded fits known watched recorded,
        refl,
        snapshot_of-newest path known a.snapshots,
        unfold scan in
            ap (over_paths visit mid) watched
            ∙ one_path visit mid _ path (r ∷ [])
                (seen ∙ ap (written (with_snapshot mid path (b3 c (utf8 content)))) run),
        snapshot_of-newest path (b3 c (utf8 content)) mid.snapshots,
        done,
      )

  refused-settles :
      (a b : MemoryMdAdapter D) (path content : Text) (bytes : Bytes) (why : Error)
      (fresh : Text → Text × Times)
      → files path ≡ some bytes
      → read_text bytes ≡ ok content
      → scan_path c json inspect read_text files fresh a path ≡ (b, err why)
      → Settled c json inspect read_text files b path × (b.paths ≡ a.paths)
  unfolding scan_path record_if_changed
  refused-settles a b path content bytes why fresh exists decoded e =
      let digest = b3 c (utf8 content) in
      let run = ap (scan_found c json inspect read_text files fresh a path) (sym exists) ∙ e in
      elim (if_cases (ltb a.blackbox.max_content_bytes (length bytes)) run) [
        | inl (large, stays) ↦ cc
        | inr (small, run') ↦
            elim (if_cases (is_some_text digest (snapshot_of path a.snapshots))
              (ap (compare c json inspect read_text files fresh a path) (sym decoded) ∙ run')) [
                | inl (same, stays) ↦ cc
                | inr (other, wrote) ↦
                    let (now, _, watching) =
                      written-Settles c json inspect read_text files fresh a b path bytes content
                        (err why) exists decoded wrote in
                    (now, watching)
              ]
      ]

  -- A change whose record is refused is not reported again: when a scan of the only watched file
  -- raises, though the file could be read, every later scan of the same file records nothing.
  pub scan-refused :
      (a b : MemoryMdAdapter D) (path content : Text) (bytes : Bytes) (why : Error)
      (fresh later : Text → Text × Times)
      → a.paths ≡ path ∷ []
      → files path ≡ some bytes
      → read_text bytes ≡ ok content
      → scan c json inspect read_text files fresh a ≡ (b, err why)
      → scan c json inspect read_text files later b ≡ (b, ok [])
  scan-refused a b path content bytes why fresh later watched exists decoded e =
      let raised = one_path-err (scan_path c json inspect read_text files fresh) a b path why (
        ap (over_paths (scan_path c json inspect read_text files fresh) a) (sym watched)
        ∙ (unfold scan in e)) in
      let (now, watching) =
        refused-settles a b path content bytes why fresh exists decoded raised in
      let visit = scan_path c json inspect read_text files later in
      unfold scan in
      ap (over_paths visit b) (watching ∙ watched)
      ∙ one_path visit b b path []
          (scan_path-Settled c json inspect read_text files later b path now)
