-- ===== src/Anchor/Rekor/Accepted.antt =====
-- What a receipt that the Rekor client accepts commits to.
use memory_blackbox.Prelude.{
  ◌≡◌, refl, sym, ap, ap₂, ◌∙◌, ◌⊎◌, inl, inr, Bool, true, false, not, List, Option, none, some,
  Text, Bytes, codes, eq_iff, length, map, get_elem?, if◌then◌else◌, Result, ok, err, Error, ◌>>=◌,
  >>=-eq-ok, subst,
}
use memory_blackbox.Crypto.{Primitives}
use memory_blackbox.Model.Json.{
  Json, Fields, Orjson, null, bool, int, float, str, arr, obj, get_field,
}
use memory_blackbox.Model.Values.{Casts}
use memory_blackbox.Anchor.Statement.{AnchorReceipt}
use memory_blackbox.Anchor.FileWitness.{text_of}
use memory_blackbox.Anchor.Rekor.Inclusion.{log_leaf, verify_inclusion}
use memory_blackbox.Anchor.Rekor.Binds.{Sha256Collision, log_root}
use memory_blackbox.Anchor.Rekor.Sound.{verify_inclusion_sound}
use memory_blackbox.Anchor.Rekor.Transport.{Packages}
use memory_blackbox.Anchor.Rekor.Entry.{dict_or_empty, payload_hash_from_entry}
use memory_blackbox.Anchor.Rekor.Client.{fingerprint}
use memory_blackbox.Anchor.Rekor.Receipt.{
  ProofParts, is_json_error, proof_parts, check_parts, check_proof, check_hash, check_entry,
  check_bytes, check_body, contradicts, verify_receipt,
}

both_guards :
    (a b : Bool) (x y z detail : Text)
    → ◌≡◌ {A = Bool × Text}
        (if not a then (false, x) else if b then (false, y) else (true, z))
        (true, detail)
    → (a ≡ true) × (b ≡ false)
both_guards true false x y z detail e = (refl, refl)
both_guards true true x y z detail e = cc
both_guards false b x y z detail e = cc

some-injective {ℓ} : {A : Type ℓ} {x y : A} → some x ≡ some y → x ≡ y
some-injective e = cc

one_guard :
    (a : Bool) (x : Text) (y : Result (Bool × Text)) (detail : Text)
    → (if not a then ok (false, x) else y) ≡ ok (true, detail)
    → (a ≡ true) × (y ≡ ok (true, detail))
one_guard true x y detail e = (refl, e)
one_guard false x y detail e = cc

refused :
    (a : Bool) (v : Bool × Text) (raised : Error) (detail : Text)
    → v.0 ≡ false
    → ¬ ((if a then ok v else err raised) ≡ ok (true, detail))
refused true v raised detail n e = cc
refused false v raised detail n e = cc

module _ (casts : Casts) (c : Primitives) (json : Orjson) (p : Packages) (why : Fields → Text) where
  -- The entry of the log that a receipt carries, with its inclusion proof.
  pub record Commits (r : AnchorReceipt) : Type 0 where
    pub body_text : Text
    pub entry_bytes : Bytes
    pub entry : Json
    pub proof : Fields
    pub parts : ProofParts
    pub carried : text_of (get_field (codes "body") r.proof) ≡ some body_text
    pub decoded : p.b64decode body_text ≡ some entry_bytes
    pub loaded : p.json_loads entry_bytes ≡ ok entry
    pub hashed : payload_hash_from_entry entry ≡ ok (some (fingerprint c json p r.statement))
    pub stored :
        (dict_or_empty (codes "verification") r.proof >>= λ v.
        ok (get_field (codes "inclusionProof") v))
        ≡ ok (some (obj proof))
    pub read : proof_parts casts proof ≡ some parts
    pub included :
        verify_inclusion p.sha256 parts.index parts.tree_size
          (log_leaf p.sha256 entry_bytes)
          parts.hashes
          parts.root
        ≡ true
    pub noted : contradicts p parts.root (text_of (get_field (codes "checkpoint") proof)) ≡ false

  parts_accepted :
      (b : Bytes) (proof : Fields) (t detail : Text) (found : Option ProofParts)
      → check_parts casts c json p b proof t found ≡ (true, detail)
      → (parts : ProofParts) × (found ≡ some parts)
        × (verify_inclusion p.sha256 parts.index parts.tree_size
              (log_leaf p.sha256 b)
              parts.hashes
              parts.root
            ≡ true)
        × (contradicts p parts.root (text_of (get_field (codes "checkpoint") proof)) ≡ false)
  parts_accepted b proof t detail none e = cc
  parts_accepted b proof t detail (some parts) e =
      let (included, noted) = both_guards _ _ _ _ _ detail e in (parts, refl, included, noted)

  proof_accepted :
      (b : Bytes) (found : Option Json) (detail : Text)
      → check_proof casts c json p why b found ≡ (true, detail)
      → (proof : Fields) × (found ≡ some (obj proof))
        × (check_parts casts c json p b proof (why proof) (proof_parts casts proof)
            ≡ (true, detail))
  proof_accepted b (some (obj proof)) detail e = (proof, refl, e)
  proof_accepted b none detail e = cc
  proof_accepted b (some null) detail e = cc
  proof_accepted b (some (bool x)) detail e = cc
  proof_accepted b (some (int x)) detail e = cc
  proof_accepted b (some (float x)) detail e = cc
  proof_accepted b (some (str x)) detail e = cc
  proof_accepted b (some (arr x)) detail e = cc

  verification_accepted :
      (b : Bytes) (m : Result Fields) (detail : Text)
      → (m >>= λ v. ok (check_proof casts c json p why b (get_field (codes "inclusionProof") v)))
        ≡ ok (true, detail)
      → (proof : Fields) × ((m >>= λ v. ok (get_field (codes "inclusionProof") v))
          ≡ ok (some (obj proof)))
        × (check_parts casts c json p b proof (why proof) (proof_parts casts proof)
            ≡ (true, detail))
  verification_accepted b (err e) detail h = cc
  verification_accepted b (ok v) detail h =
      let (proof, found, rest) =
        proof_accepted b (get_field (codes "inclusionProof") v) detail (cc) in
      (proof, ap ok found, rest)

  hash_accepted :
      (r : AnchorReceipt) (b : Bytes) (recorded : Option Text) (detail : Text)
      → check_hash casts c json p why r b recorded ≡ ok (true, detail)
      → (recorded ≡ some (fingerprint c json p r.statement))
        × ((dict_or_empty (codes "verification") r.proof >>= λ v.
              ok (check_proof casts c json p why b (get_field (codes "inclusionProof") v)))
            ≡ ok (true, detail))
  hash_accepted r b none detail e = cc
  hash_accepted r b (some recorded) detail e =
      let (same, rest) = one_guard _ _ _ detail e in (ap some ((eq_iff _ _).0 same), rest)

  entry_accepted :
      (r : AnchorReceipt) (b : Bytes) (detail : Text) (loaded : Result Json)
      → check_entry casts c json p why r b loaded ≡ ok (true, detail)
      → (entry : Json) × (loaded ≡ ok entry)
        × ((payload_hash_from_entry entry >>= check_hash casts c json p why r b)
            ≡ ok (true, detail))
  entry_accepted r b detail (ok entry) e = (entry, refl, e)
  entry_accepted r b detail (err raised) e =
      absurd (refused (is_json_error raised) _ raised detail refl e)

  body_accepted :
      (r : AnchorReceipt) (detail : Text) (found : Option Text)
      → check_body casts c json p why r found ≡ ok (true, detail)
      → (b64 : Text) × (b : Bytes) × (found ≡ some b64)
        × (p.b64decode b64 ≡ some b)
        × (check_entry casts c json p why r b (p.json_loads b) ≡ ok (true, detail))
  body_accepted r detail none e = cc
  body_accepted r detail (some b64) e =
      let (b, decoded, rest) = decoded_accepted (p.b64decode b64) e in (b64, b, refl, decoded, rest)
    where
      decoded_accepted :
          (found : Option Bytes)
          → check_bytes casts c json p why r found ≡ ok (true, detail)
          → (b : Bytes) × (found ≡ some b)
            × (check_entry casts c json p why r b (p.json_loads b) ≡ ok (true, detail))
      decoded_accepted none h = cc
      decoded_accepted (some b) h = (b, refl, h)

  -- A receipt that `verify_receipt` accepts commits to its statement.
  pub verify_receipt-Commits :
      (r : AnchorReceipt) (detail : Text)
      → verify_receipt casts c json p why r ≡ ok (true, detail)
      → Commits r
  unfolding verify_receipt
  verify_receipt-Commits r detail e =
      let (b64, b, carried, decoded, e1) = body_accepted r detail _ e in
      let (entry, loaded, e2) = entry_accepted r b detail (p.json_loads b) e1 in
      let (recorded, hashed, e3) = >>=-eq-ok (payload_hash_from_entry entry) _ e2 in
      let (same, e4) = hash_accepted r b recorded detail e3 in
      let (proof, stored, e5) = verification_accepted b _ detail e4 in
      let (parts, read, included, noted) = parts_accepted b proof _ detail _ e5 in
      record {
        body_text = b64;
        entry_bytes = b;
        entry = entry;
        proof = proof;
        parts = parts;
        carried = carried;
        decoded = decoded;
        loaded = loaded;
        hashed = hashed ∙ ap ok same;
        stored = stored;
        read = read;
        included = included;
        noted = noted;
      }

  -- The log that a receipt speaks of: the proof that it stores is against the size and the root of
  -- the tree over these entries.
  pub record IsAgainst (entries : List Bytes) (r : AnchorReceipt) : Type 0 where
    pub proof : Fields
    pub parts : ProofParts
    pub stored :
        (dict_or_empty (codes "verification") r.proof >>= λ v.
        ok (get_field (codes "inclusionProof") v))
        ≡ ok (some (obj proof))
    pub read : proof_parts casts proof ≡ some parts
    pub sized : parts.tree_size ≡ length entries
    pub rooted : parts.root ≡ log_root p.sha256 (map (log_leaf p.sha256) entries)

  -- A Rekor receipt that `verify_receipt` accepts, whose stored proof is against the size and the
  -- root of a log, names an entry of that log: the log holds, at the index of the proof, bytes that
  -- parse to an entry with the SHA-256 of the statement, or two inputs of SHA-256 with one digest
  -- are at hand. SHA-256 is any function whose values have 32 bytes.
  pub verify_receipt-placed :
      ((x : Bytes) → length (p.sha256 x) ≡ 32)
      → (r : AnchorReceipt) (detail : Text) (entries : List Bytes) → (log : IsAgainst entries r)
      → verify_receipt casts c json p why r ≡ ok (true, detail)
      → ((bytes : Bytes) × (entry : Json) × (get_elem? entries log.parts.index ≡ some bytes)
          × (p.json_loads bytes ≡ ok entry)
          × (payload_hash_from_entry entry ≡ ok (some (fingerprint c json p r.statement))))
        ⊎ Sha256Collision p.sha256
  verify_receipt-placed size r detail entries log accepted =
      let k = verify_receipt-Commits r detail accepted in
      let leaf = log_leaf p.sha256 k.entry_bytes in
      let same_proof : k.proof ≡ log.proof = cc (k.stored, log.stored) in
      let same_parts : k.parts ≡ log.parts =
        some-injective (sym k.read ∙ ap (proof_parts casts) same_proof ∙ log.read) in
      let included : verify_inclusion p.sha256 log.parts.index (length entries) leaf
            log.parts.hashes (log_root p.sha256 (map (log_leaf p.sha256) entries))
          ≡ true =
        ap₂ (λ n t. verify_inclusion p.sha256 log.parts.index n leaf log.parts.hashes t)
          (sym log.sized) (sym log.rooted)
        ∙ subst
            (λ (q : ProofParts).
              verify_inclusion p.sha256 q.index q.tree_size leaf q.hashes q.root ≡ true)
            same_parts k.included in
      elim (verify_inclusion_sound p.sha256 size entries log.parts.index k.entry_bytes
        log.parts.hashes included) [
          | inl found ↦ inl (k.entry_bytes, k.entry, found, k.loaded, k.hashed)
          | inr bad ↦ inr bad
        ]
