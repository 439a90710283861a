-- ===== src/Adapters/Watching.antt =====
-- What the watcher of memory files notices.
use memory_blackbox.Prelude.{
  ◌<◌, ◌≡◌, ◌⊎◌, inl, inr, refl, sym, ap, ◌∙◌, Bool, true, false, Bool-cases, List, [], ◌∷◌, Option,
  none, some, arith, Text, Bytes, ◌==◌, eq_iff, eq_refl, subst, length, ltb, if◌then◌else◌, All,
  Result, ok, err,
}
use memory_blackbox.Codec.Utf8.{utf8}
use memory_blackbox.Crypto.{Primitives}
use memory_blackbox.Crypto.Hashing.{b3}
use memory_blackbox.Model.Json.{Orjson}
use memory_blackbox.Model.Records.{LedgerRecord}
use memory_blackbox.Capture.Engine.{
  MemoryBlackbox, WriteRequest, Times, Inspect, record_write, append_linked, log_write,
}
use memory_blackbox.Adapters.MemoryMd.{
  snapshot_of, is_some_text, MemoryMdAdapter, Files, Outcome, with_snapshot, then_paths,
  more_records, over_paths, written, file_write, write_file, compare, record_if_changed, scan_found,
  scan_path, scan,
}

if-same {ℓ} : {X : Type ℓ} (b : Bool) (x : X) → (if b then x else x) ≡ x
if-same true x = refl
if-same false x = refl

-- The branch that a test takes.
pub if_cases {ℓ} :
    {X : Type ℓ} {x y z : X} (b : Bool)
    → (if b then x else y) ≡ z
    → ((b ≡ true) × (x ≡ z)) ⊎ ((b ≡ false) × (y ≡ z))
if_cases true e = inl (refl, e)
if_cases false e = inr (refl, e)

pub is_some_text_lem : (t : Text) (o : Option Text) → is_some_text t o ≡ true → o ≡ some t
is_some_text_lem t none h = cc
is_some_text_lem t (some s) h = ap some ((eq_iff s t).0 h)

written-adapter :
    {D : Type 0} (a b : MemoryMdAdapter D) (run : MemoryBlackbox D × Result LedgerRecord)
    (o : Result (List LedgerRecord))
    → written a run ≡ (b, o)
    → b ≡ record a { blackbox = run.0 }
written-adapter a b (e, ok r) o h = sym (ap (λ p. p.0) h)
written-adapter a b (e, err why) o h = sym (ap (λ p. p.0) h)

module _ {D : Type 0} (b : MemoryMdAdapter D) (rs : List LedgerRecord) where
  more_records-ok :
      (here : List LedgerRecord) (o : Outcome D)
      → more_records here o ≡ (b, ok rs)
      → (rest : List LedgerRecord) × (o ≡ (b, ok rest))
  more_records-ok here (b', ok rest) h = (rest, ap (λ (o : Outcome D). (o.0, ok rest)) h)
  more_records-ok here (b', err why) h = cc

  -- The two steps of a loop that returns.
  then_paths-ok :
      (first : Outcome D) (later : MemoryMdAdapter D → Outcome D)
      → then_paths first later ≡ (b, ok rs)
      → (m : MemoryMdAdapter D) × (here : List LedgerRecord) × (rest : List LedgerRecord) × (first
          ≡ (m, ok here))
        × (later m ≡ (b, ok rest))
  then_paths-ok (m, ok here) later e =
      let (rest, second) = more_records-ok here (later m) e in (m, here, rest, refl, second)
  then_paths-ok (m, err why) later e = cc

module _ {D : Type 0} (c : Primitives) (json : Orjson) (inspect : Inspect D) where
  pub record_write-limit :
      (e : MemoryBlackbox D) (q : WriteRequest) (id : Text) (times : Times)
      → (record_write c json inspect e q id times).0.max_content_bytes ≡ e.max_content_bytes
  unfolding record_write log_write append_linked
  record_write-limit e q id times = ground arith

  module _ (read_text : Bytes → Result Text) (files : Files) where
    -- A file of which a scan has nothing to say: it is missing, it is over the limit, or its digest
    -- is the snapshot.
    abbrev pub Settled : MemoryMdAdapter D → Text → Type 0
    Settled a path =
        (files path ≡ none)
        ⊎ ((bytes : Bytes) × (files path ≡ some bytes)
            × ((a.blackbox.max_content_bytes < length bytes)
                ⊎ ((content : Text) × (read_text bytes ≡ ok content)
                    × (snapshot_of path a.snapshots ≡ some (b3 c (utf8 content))))))

    -- A visit leaves its path settled, and those that were, and watches the same paths.
    abbrev Settles : MemoryMdAdapter D → MemoryMdAdapter D → Text → Type 0
    Settles a b path =
        Settled b path × ((p : Text) → Settled a p → Settled b p) × (b.paths ≡ a.paths)

    kept-Settles :
        (a b : MemoryMdAdapter D) (path : Text) (rs : List LedgerRecord)
        → ◌≡◌ {A = Outcome D} (a, ok []) (b, ok rs)
        → Settled a path
        → Settles a b path
    kept-Settles a b path rs e s =
        subst (λ m. Settles a m path) (ap (λ (m : Outcome D). m.0) e) (s, λ p h. h, refl)

    -- A settled file stays so when a file gets its digest for a snapshot.
    Settled-with_snapshot :
        (a b : MemoryMdAdapter D) (path other content : Text) (bytes : Bytes)
        → b.blackbox.max_content_bytes ≡ a.blackbox.max_content_bytes
        → b.snapshots ≡ ((other, b3 c (utf8 content)) ∷ a.snapshots)
        → files other ≡ some bytes
        → read_text bytes ≡ ok content
        → Settled a path
        → Settled b path
    unfolding snapshot_of
    Settled-with_snapshot a b path other content bytes limit snaps exists decoded (inl missing) =
        inl missing
    Settled-with_snapshot a b path other content bytes limit snaps exists decoded
          (inr (bytes', exists', inl large)) =
        inr (bytes', exists', inl (ground arith))
    Settled-with_snapshot a b path other content bytes limit snaps exists decoded
          (inr (bytes', exists', inr (content', decoded', same))) =
        inr (
          bytes',
          exists',
          inr (
            content',
            decoded',
            ap (snapshot_of path) snaps ∙ elim (Bool-cases (other == path)) [
              | inl here ↦
                  let it : other ≡ path = (eq_iff other path).0 here in
                  let one : content ≡ content' = cc in rw here (ap (λ t. some (b3 c (utf8 t))) one)
              | inr there ↦ rw there same
            ],
          ),
        )

    module _ (fresh : Text → Text × Times) where
      -- Nothing is said of a settled file.
      pub scan_path-Settled :
          (a : MemoryMdAdapter D) (path : Text)
          → Settled a path
          → scan_path c json inspect read_text files fresh a path ≡ (a, ok [])
      unfolding scan_path record_if_changed
      scan_path-Settled a path (inl missing) = rw (scan_path, missing) refl
      scan_path-Settled a path (inr (bytes, exists, inl large)) =
          rw (scan_path, exists) (ground arith)
      scan_path-Settled a path (inr (bytes, exists, inr (content, decoded, same))) =
          rw (scan_path, exists)
            (rw decoded (
              rw same (
                rw eq_refl (if-same (ltb a.blackbox.max_content_bytes (length bytes)) (a, ok [])))))

      pub written-Settles :
          (a b : MemoryMdAdapter D) (path : Text) (bytes : Bytes) (content : Text)
          (o : Result (List LedgerRecord))
          → files path ≡ some bytes
          → read_text bytes ≡ ok content
          → write_file c json inspect read_text files fresh a path content (b3 c (utf8 content))
            ≡ (b, o)
          → Settles a b path
      written-Settles a b path bytes content o exists decoded e =
          let q = file_write a.namespace path content (fresh path).1.created in
          let run = record_write c json inspect a.blackbox q (fresh path).0 (fresh path).1 in
          let after = written-adapter (with_snapshot a path (b3 c (utf8 content))) b run o e in
          let snaps = ap (λ (m : MemoryMdAdapter D). m.snapshots) after in
          let limit =
            ap (λ (m : MemoryMdAdapter D). m.blackbox.max_content_bytes) after
            ∙ record_write-limit a.blackbox q (fresh path).0 (fresh path).1 in
          (
            inr (
              bytes,
              exists,
              inr (
                content,
                decoded,
                ap (snapshot_of path) snaps ∙ (unfold snapshot_of in rw eq_refl refl),
              ),
            ),
            λ p. Settled-with_snapshot a b p path content bytes limit snaps exists decoded,
            ap (λ (m : MemoryMdAdapter D). m.paths) after,
          )

      compare-Settles :
          (a b : MemoryMdAdapter D) (path : Text) (bytes : Bytes) (rs : List LedgerRecord)
          (read : Result Text)
          → files path ≡ some bytes
          → read_text bytes ≡ read
          → compare c json inspect read_text files fresh a path read ≡ (b, ok rs)
          → Settles a b path
      compare-Settles a b path bytes rs (err why) exists decoded e = cc
      compare-Settles a b path bytes rs (ok content) exists decoded e =
          let digest = b3 c (utf8 content) in
          elim (if_cases (is_some_text digest (snapshot_of path a.snapshots)) e) [
            | inl (same, stays) ↦
                kept-Settles a b path rs stays
                  (inr (bytes, exists, inr (content, decoded, is_some_text_lem digest _ same)))
            | inr (other, e') ↦ written-Settles a b path bytes content (ok rs) exists decoded e'
          ]

      found-Settles :
          (a b : MemoryMdAdapter D) (path : Text) (rs : List LedgerRecord) (found : Option Bytes)
          → files path ≡ found
          → scan_found c json inspect read_text files fresh a path found ≡ (b, ok rs)
          → Settles a b path
      unfolding record_if_changed
      found-Settles a b path rs none exists e = kept-Settles a b path rs e (inl exists)
      found-Settles a b path rs (some bytes) exists e =
          elim (if_cases (ltb a.blackbox.max_content_bytes (length bytes)) e) [
            | inl (large, stays) ↦
                kept-Settles a b path rs stays (inr (bytes, exists, inl (ground arith)))
            | inr (small, e') ↦ compare-Settles a b path bytes rs (read_text bytes) exists refl e'
          ]

      scan_path-Settles :
          (a b : MemoryMdAdapter D) (path : Text) (rs : List LedgerRecord)
          → scan_path c json inspect read_text files fresh a path ≡ (b, ok rs)
          → Settles a b path
      unfolding scan_path
      scan_path-Settles a b path rs e = found-Settles a b path rs (files path) refl e

      over_paths-Settles :
          (paths : List Text) (a b : MemoryMdAdapter D) (rs : List LedgerRecord)
          → over_paths (scan_path c json inspect read_text files fresh) a paths ≡ (b, ok rs)
          → All (Settled b) paths × ((p : Text) → Settled a p → Settled b p) × (b.paths ≡ a.paths)
      unfolding over_paths
      over_paths-Settles [] a b rs e =
          subst
            (λ (m : MemoryMdAdapter D).
              Unit × ((p : Text) → Settled a p → Settled m p) × (m.paths ≡ a.paths))
            (ap (λ (m : Outcome D). m.0) e) (tt, λ p h. h, refl)
      over_paths-Settles (path ∷ paths) a b rs e =
          let (m, here, later, first, rest) = then_paths-ok b rs _ _ e in
          let (now, kept, same) = scan_path-Settles a m path here first in
          let (all, kept', same') = over_paths-Settles paths m b later rest in
          ((kept' path now, all), λ p h. kept' p (kept p h), same' ∙ same)

      pub over_paths-Settled :
          (paths : List Text) (a : MemoryMdAdapter D)
          → All (Settled a) paths
          → over_paths (scan_path c json inspect read_text files fresh) a paths ≡ (a, ok [])
      unfolding over_paths
      over_paths-Settled [] a h = refl
      over_paths-Settled (path ∷ paths) a h =
          rw (scan_path-Settled a path h.0) (rw (over_paths-Settled paths a h.1) refl)

    -- After a scan that returns, a second scan of the same files records nothing and changes
    -- nothing, whatever ids and times it would give.
    pub scan-again :
        (a b : MemoryMdAdapter D) (rs : List LedgerRecord) (fresh later : Text → Text × Times)
        → scan c json inspect read_text files fresh a ≡ (b, ok rs)
        → scan c json inspect read_text files later b ≡ (b, ok [])
    unfolding scan
    scan-again a b rs fresh later e =
        let (all, _, same) = over_paths-Settles fresh a.paths a b rs e in
        over_paths-Settled later b.paths b (subst (All (Settled b)) (sym same) all)
