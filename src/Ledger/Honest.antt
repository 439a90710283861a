-- ===== src/Ledger/Honest.antt =====
-- A ledger that only its store has written passes both verifications.
use memory_blackbox.Prelude.{
  ℕ, zero, suc, ◌≤◌, ◌≡◌, inl, inr, refl, sym, ap, ◌∙◌, true, List, [], ◌∷◌, ◌++◌, map, Option,
  none, some, arith, Text, Bytes, length, last?, take, eq_refl, ok, Bool-cases, subst, last?-concat,
  take-length, length-append, map-append, Result,
}
use memory_blackbox.Codec.Hex.{fromhex}
use memory_blackbox.Codec.Prefix.{removeprefix}
use memory_blackbox.Crypto.{Primitives, IsSound}
use memory_blackbox.Crypto.Hashing.{hash_prefix}
use memory_blackbox.Crypto.Signing.{verify, verify-sign, sign}
use memory_blackbox.Crypto.Keys.{KeyPair, sign_with}
use memory_blackbox.Merkle.{compute_root, root_hex}
use memory_blackbox.Model.Json.{Orjson}
use memory_blackbox.Model.Records.{LedgerRecord}
use memory_blackbox.Storage.{Row, CheckpointRow}
use memory_blackbox.Ledger.Chain.{link_input, verify_chain}
use memory_blackbox.Ledger.Store.{
  LedgerStore, leaf_of, entry_hash_of, last_entry_hash, checkpoint, checkpoint_due, row_for,
  insert_row, maybe_checkpoint, append, open_store,
}
use memory_blackbox.Ledger.Merkle.{
  MerkleReport, check_root, verify_merkle, current_leaves, verified,
}
use memory_blackbox.Ledger.Linked.{IsEntry, IsLinked, check_rows-IsLinked}
use memory_blackbox.Ledger.Divergence.{hash_after}
use memory_blackbox.Ledger.Deletion.{root_decodes, check_checkpoint-some}

hash_after-last :
    (prev : Option Text) (row : Row) (rows : List Row)
    → hash_after prev (row ∷ rows) ≡ entry_hash_of (last? (row ∷ rows))
hash_after-last prev row [] = refl
hash_after-last prev row (r ∷ rows) = hash_after-last (some row.entry_hash) r rows

hash_after-none : (rows : List Row) → hash_after none rows ≡ entry_hash_of (last? rows)
hash_after-none [] = refl
hash_after-none (row ∷ rows) = hash_after-last none row rows

take-prefix {ℓ} :
    {A : Type ℓ} (n : ℕ) (xs ys : List A) → n ≤ length xs → take n (xs ++ ys) ≡ take n xs
take-prefix zero xs ys h = refl
take-prefix (suc n) [] ys h = absurd (omega arith)
take-prefix (suc n) (x ∷ xs) ys h = ap (◌∷◌ x) (take-prefix n xs ys (omega arith))

module _ (c : Primitives) where
  IsLinked-concat :
      (key : Bytes) (prev : Option Text) (rows : List Row) (row : Row)
      → IsLinked c key prev rows
      → IsEntry c key (hash_after prev rows) row
      → IsLinked c key prev (rows ++ row ∷ [])
  IsLinked-concat key prev [] row h e = (e, tt)
  IsLinked-concat key prev (r ∷ rows) row h e =
      (h.0, IsLinked-concat key (some r.entry_hash) rows row h.1 e)

  -- The newest checkpoint commits a prefix of the leaves, under the signer's signature.
  abbrev pub IsCommitted : KeyPair → List Bytes → Option CheckpointRow → Type 0
  IsCommitted signer leaves none = Unit
  IsCommitted signer leaves (some cp) =
      (cp.leaf_count ≤ length leaves)
      × (cp.root ≡ root_hex c (take cp.leaf_count leaves))
      × (cp.signature ≡ sign_with c signer (compute_root c (take cp.leaf_count leaves)))

  -- The invariant of a store that nobody else has written to.
  pub record IsConsistent (s : LedgerStore) : Type 0 where
    pub keyed : s.signer.public_key ≡ c.ed25519_public s.signer.private_key
    pub chained : IsLinked c s.signer.public_key none s.ledger
    pub cached : s.leaves ≡ map leaf_of s.ledger
    pub committed : IsCommitted s.signer s.leaves (last? s.checkpoints)

  module _ (sound : IsSound c) where
    pub verify-sign_with :
        (s : LedgerStore) (m : Bytes)
        → s.signer.public_key ≡ c.ed25519_public s.signer.private_key
        → verify c m (sign_with c s.signer m) s.signer.public_key ≡ true
    unfolding sign_with
    verify-sign_with s m h =
        ap (verify c m (sign c m s.signer.private_key)) h
        ∙ verify-sign c sound m s.signer.private_key

    pub checkpoint-IsConsistent :
        (s : LedgerStore) (now : Text) → IsConsistent s → IsConsistent (checkpoint c s now).0
    unfolding checkpoint root_hex
    checkpoint-IsConsistent s now h = record {
      keyed = h.keyed;
      chained = h.chained;
      cached = h.cached;
      committed = rw last?-concat (rw (take-length s.leaves) (omega arith, refl, refl));
    }

    row_for-IsEntry :
        (json : Orjson) (s : LedgerStore) (r : LedgerRecord) (now : Text)
        → IsConsistent s
        → IsEntry c s.signer.public_key (hash_after none s.ledger) (row_for c json s r now)
    unfolding row_for link_input last_entry_hash
    row_for-IsEntry json s r now h = record {
      hashed = refl;
      linked = sym (hash_after-none s.ledger);
      signed = verify-sign_with s _ h.keyed;
    }

    insert_row-IsConsistent :
        (s : LedgerStore) (row : Row)
        → IsConsistent s
        → IsEntry c s.signer.public_key (hash_after none s.ledger) row
        → IsConsistent (insert_row s row)
    unfolding insert_row
    insert_row-IsConsistent s row h e = record {
      keyed = h.keyed;
      chained = IsLinked-concat s.signer.public_key none s.ledger row h.chained e;
      cached = rw map-append (ap (λ l. l ++ leaf_of row ∷ []) h.cached);
      committed = grown (last? s.checkpoints) h.committed;
    }
      where
        grown :
            (o : Option CheckpointRow)
            → IsCommitted s.signer s.leaves o
            → IsCommitted s.signer (s.leaves ++ leaf_of row ∷ []) o
        grown none k = tt
        grown (some cp) (few, root, signature) =
            rw (take-prefix cp.leaf_count s.leaves (leaf_of row ∷ []) few)
              (omega (arith, length-append s.leaves (leaf_of row ∷ [])), root, signature)

    maybe_checkpoint-IsConsistent :
        (s : LedgerStore) (now : Text) → IsConsistent s → IsConsistent (maybe_checkpoint c s now)
    unfolding maybe_checkpoint
    maybe_checkpoint-IsConsistent s now h = elim (Bool-cases (checkpoint_due s)) [
      | inl due ↦ rw due (checkpoint-IsConsistent s now h)
      | inr other ↦ rw other h
    ]

    -- Appending a record keeps the invariant.
    pub append-IsConsistent :
        (json : Orjson) (s t : LedgerStore) (r r' : LedgerRecord) (now later : Text)
        → append c json s r now later ≡ ok (t, r')
        → IsConsistent s
        → IsConsistent t
    unfolding append
    append-IsConsistent json s t r r' now later e h =
        let inserted =
          maybe_checkpoint-IsConsistent (insert_row s (row_for c json s r now)) later (
            insert_row-IsConsistent s (row_for c json s r now) h
              (row_for-IsEntry json s r now h)) in
        let same : maybe_checkpoint c (insert_row s (row_for c json s r now)) later ≡ t =
          ground arith in
        subst IsConsistent same inserted

    pub open_store-IsConsistent :
        (s t : LedgerStore) (every : ℕ) (mode : Text)
        → open_store s.db s.signer every mode ≡ ok t
        → IsConsistent s
        → IsConsistent t
    unfolding open_store
    open_store-IsConsistent s t every mode e h =
        let again : LedgerStore = record s {
          checkpoint_every = every;
          leaves = map leaf_of s.ledger;
        } in
        let same : again ≡ t = ground arith in
        subst IsConsistent same (record {
          keyed = h.keyed;
          chained = h.chained;
          cached = refl;
          committed =
              subst (λ l. IsCommitted s.signer l (last? s.checkpoints)) h.cached h.committed;
        })

    pub verify_chain-IsConsistent :
        (s : LedgerStore)
        → IsConsistent s
        → verify_chain c s.signer.public_key s.db
          ≡ record { is_ok = true; rows_checked = length s.ledger; divergence = none }
    unfolding verify_chain
    verify_chain-IsConsistent s h =
        check_rows-IsLinked c s.signer.public_key none 0 s.ledger h.chained ∙ ground arith

    check_root-committed :
        (s : LedgerStore) (cp : CheckpointRow)
        → s.signer.public_key ≡ c.ed25519_public s.signer.private_key
        → IsCommitted s.signer s.leaves (some cp)
        → check_root c s.signer.public_key s.leaves cp
            (compute_root c (take cp.leaf_count s.leaves))
          ≡ record { is_ok = true; leaf_count = cp.leaf_count; detail = verified }
    unfolding check_root
    check_root-committed s cp keyed (few, root, signature) =
        let raw = compute_root c (take cp.leaf_count s.leaves) in
        let signed : verify c raw cp.signature s.signer.public_key ≡ true =
          ap (λ g. verify c raw g s.signer.public_key) signature ∙ verify-sign_with s raw keyed in
        ground (arith, eq_refl raw)

    -- The passing report of a consistent store.
    pub verify_merkle-committed :
        (s : LedgerStore) (cp : CheckpointRow)
        → IsConsistent s
        → last? s.checkpoints ≡ some cp
        → verify_merkle c s.signer.public_key s.db
          ≡ ok (record { is_ok = true; leaf_count = cp.leaf_count; detail = verified })
    unfolding verify_merkle current_leaves
    verify_merkle-committed s cp h newest =
        let k : IsCommitted s.signer s.leaves (some cp) =
          subst (IsCommitted s.signer s.leaves) newest h.committed in
        let raw = compute_root c (take cp.leaf_count s.leaves) in
        let decoded =
          ap (λ t. fromhex (removeprefix hash_prefix t)) k.1
          ∙ root_decodes c sound (take cp.leaf_count s.leaves) in
        rw (newest, ← h.cached)
          (check_checkpoint-some c s.signer.public_key s.leaves cp raw decoded
            ∙ ap {B = Result MerkleReport} ok (check_root-committed s cp h.keyed k))
