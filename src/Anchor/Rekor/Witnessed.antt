-- ===== src/Anchor/Rekor/Witnessed.antt =====
-- The entries that the Rekor client fetches, in a run of `verify_anchors`.
use memory_blackbox.Prelude.{
  ok-injective, ◌≡◌, sym, ap, ◌∙◌, inl, inr, Bool, true, false, List, [], ◌∷◌, ◌++◌, some, Text,
  Bytes, contains, length, All, In, In-cons, Result, ok, err, anchor_error, ltb, if◌then◌else◌,
  ◌>>=◌, >>=-eq-ok, subst,
}
use memory_blackbox.Crypto.{Primitives}
use memory_blackbox.Model.Json.{Fields, Orjson}
use memory_blackbox.Model.Values.{Casts}
use memory_blackbox.Ledger.Store.{LedgerStore}
use memory_blackbox.Anchor.Statement.{Witness, Anchor, ledger_id}
use memory_blackbox.Anchor.Store.{checkpoints}
use memory_blackbox.Anchor.Verify.{
  AnchorReport, check_log, check_witnesses, verify_identity, local_fingerprints, verify_anchors,
}
use memory_blackbox.Anchor.Detection.{verify_anchors_iff}
use memory_blackbox.Anchor.Rekor.Transport.{Packages, Opener, search_by_public_key}
use memory_blackbox.Anchor.Rekor.Entry.{payload_hash, integrated_at}
use memory_blackbox.Anchor.Rekor.Client.{
  get_entry, witness_of, witness_of_body, fetch_witnesses, witnesses, max_witnesses,
}
use memory_blackbox.Anchor.Rekor.Receipt.{rekor_anchor}

abbrev AreKnown : List Text → List Witness → Type 0
AreKnown known = All (λ (w : Witness). contains known w.fingerprint ≡ true)

append-AreKnown :
    (known : List Text) (xs ys : List Witness)
    → AreKnown known (xs ++ ys)
    → AreKnown known xs × AreKnown known ys
append-AreKnown known [] ys h = (tt, h)
append-AreKnown known (x ∷ xs) ys h = let (a, b) = append-AreKnown known xs ys h.1 in ((h.0, a), b)

module _ {L : Type 0} (c : Primitives) (json : Orjson) (p : Packages) (casts : Casts)
    (opener : Opener L) (base_url now : Text) where
  witness_of-AreKnown :
      (known : List Text) (uuid : Text) (body : Fields) (hash : Text) (found : List Witness)
      → witness_of c json p casts opener base_url now uuid body (some hash) ≡ ok found
      → AreKnown known found
      → contains known hash ≡ true
  witness_of-AreKnown known uuid body hash found e h =
      let (at, _, same) = >>=-eq-ok (integrated_at p now body) _ e in
      (subst (AreKnown known) (sym (ok-injective same)) h).0

  fetched_known :
      (known : List Text) (log : L) (uuid : Text) (body : Fields) (hash : Text)
      → get_entry c json p casts opener base_url now log uuid ≡ some body
      → payload_hash p body ≡ ok (some hash)
      → (uuids : List Text) (ws : List Witness) → In uuid uuids
      → fetch_witnesses c json p casts opener base_url now log uuids ≡ ok ws
      → AreKnown known ws
      → contains known hash ≡ true
  unfolding fetch_witnesses contains
  fetched_known known log uuid body hash got hashed [] ws i e h = cc
  fetched_known known log uuid body hash got hashed (u ∷ us) ws i e h =
      let (found, here, e1) = >>=-eq-ok _ _ e in
      let (rest, later, same) = >>=-eq-ok _ _ e1 in
      let (known_here, known_later) =
        append-AreKnown known found rest (subst (AreKnown known) (sym (ok-injective same)) h) in
      elim ((In-cons uuid u us).0 i) [
        | inl this ↦
            let served =
              ap (witness_of_body c json p casts opener base_url now uuid) (sym got)
              ∙ ap
                  (λ k.
                    witness_of_body c json p casts opener base_url now k
                      (get_entry c json p casts opener base_url now log k))
                  (sym this)
              ∙ here in
            let (hash', e2, e3) = >>=-eq-ok (payload_hash p body) _ served in
            witness_of-AreKnown known uuid body hash found
              (ap (witness_of c json p casts opener base_url now uuid body)
                  (ok-injective (sym hashed ∙ e2))
                ∙ e3)
              known_here
        | inr other ↦
            fetched_known known log uuid body hash got hashed us rest other later known_later
      ]

  module _ (why : Fields → Text) where
    abbrev pub rekor : Anchor L
    rekor = rekor_anchor casts c json p why opener base_url now

    read_witnesses :
        (log : L) (identity : Text) (public_key : Bytes) (uuids : List Text) (ws : List Witness)
        → search_by_public_key p casts opener base_url log public_key ≡ ok uuids
        → rekor.witnesses log identity public_key ≡ ok ws
        → fetch_witnesses c json p casts opener base_url now log uuids ≡ ok ws
    unfolding witnesses
    read_witnesses log identity public_key uuids ws found read =
        let (uuids', found', e) = >>=-eq-ok _ _ read in
        below (ltb max_witnesses (length uuids'))
          (ap (fetch_witnesses c json p casts opener base_url now log)
            (ok-injective (sym found ∙ found')))
          e
      where
        below :
            {u v : Result (List Witness)} {ws : List Witness} (b : Bool)
            → u ≡ v
            → (if b then err anchor_error else v) ≡ ok ws
            → u ≡ ok ws
        below true same h = cc
        below false same h = same ∙ h

    -- A report over witnesses that passes knows them all.
    passing-AreKnown :
        (s : LedgerStore) (log : L) (identity : Text) (ws : List Witness) (r : AnchorReport)
        → ledger_id c s.db ≡ some identity
        → rekor.witnesses log identity s.signer.public_key ≡ ok ws
        → check_log c json casts rekor s log true identity ws ≡ ok r
        → r.is_ok ≡ true
        → AreKnown (local_fingerprints c json casts rekor identity (checkpoints s.db)) ws
    unfolding verify_anchors check_witnesses
    passing-AreKnown s log identity [] r named read run passed = tt
    passing-AreKnown s log identity (w ∷ ws) r named read run passed =
        let (receipts, kept, e) = >>=-eq-ok _ _ run in
        let (faults, checked, same) = >>=-eq-ok _ _ e in
        let (r', run', exact) =
          verify_anchors_iff c json casts rekor s log identity (w ∷ ws) receipts faults named read
            kept checked in
        let whole =
          ap (verify_identity c json casts rekor s log true) named
          ∙ ap (λ m. m >>= check_log c json casts rekor s log true identity) read
          ∙ run in
        let fine = ap AnchorReport.is_ok (ok-injective (sym run' ∙ whole)) ∙ passed in
        (exact.0 fine).1.produced

    -- When `verify_anchors` against Rekor passes on a ledger that is not empty, then for each entry
    -- that the index of the log lists under the ledger's key and that the log serves, of which there
    -- are at most 1000, and that carries the SHA-256 of a payload, the ledger still holds the
    -- checkpoint whose statement has this SHA-256: a checkpoint that was published and then removed
    -- from the ledger does not pass.
    pub rekor_passes-produced :
        (s : LedgerStore) (log : L) (identity : Text) (uuids : List Text) (r : AnchorReport)
        → ledger_id c s.db ≡ some identity
        → search_by_public_key p casts opener base_url log s.signer.public_key ≡ ok uuids
        → verify_anchors c json casts rekor s log true ≡ ok r
        → r.is_ok ≡ true
        → (uuid : Text) (body : Fields) (hash : Text) → In uuid uuids
        → get_entry c json p casts opener base_url now log uuid ≡ some body
        → payload_hash p body ≡ ok (some hash)
        → contains (local_fingerprints c json casts rekor identity (checkpoints s.db)) hash ≡ true
    unfolding verify_anchors
    rekor_passes-produced s log identity uuids r named found run passed uuid body hash listed got
          hashed =
        let named_run = ap (verify_identity c json casts rekor s log true) (sym named) ∙ run in
        let (ws, read, checked) = >>=-eq-ok _ _ named_run in
        fetched_known _ log uuid body hash got hashed uuids ws listed
          (read_witnesses log identity s.signer.public_key uuids ws found read)
          (passing-AreKnown s log identity ws r named read checked passed)
