-- ===== src/Anchor/Rekor/Receipt.antt =====
-- `verify_receipt` of src/memory_blackbox/anchor/rekor.py, with the checks of the log's note.
use memory_blackbox.Prelude.{
  ℕ, Bool, true, false, not, ◌&&◌, ◌||◌, List, [], ◌∷◌, ◌++◌, Option, none, some, Text, Bytes,
  codes, ◌==◌, nat_eq, if◌then◌else◌, Result, ok, err, Error, json_error, ◌>>=◌,
}
use memory_blackbox.Codec.Hex.{fromhex}
use memory_blackbox.Crypto.{Primitives}
use memory_blackbox.Model.Json.{Json, Fields, Orjson, int, obj, get_field}
use memory_blackbox.Model.Values.{iterated, Casts}
use memory_blackbox.Anchor.Statement.{Anchor, AnchorReceipt}
use memory_blackbox.Anchor.FileWitness.{text_of}
use memory_blackbox.Anchor.Rekor.Inclusion.{log_leaf, verify_inclusion}
use memory_blackbox.Anchor.Rekor.Transport.{Packages, Opener}
use memory_blackbox.Anchor.Rekor.Entry.{dict_or_empty, payload_hash_from_entry}
use memory_blackbox.Anchor.Rekor.Client.{backend_name, fingerprint, publish, witnesses}

-- The line boundaries of `str.splitlines`, besides a carriage return before a newline.
abbrev pub ends_line : ℕ → Bool
ends_line n =
    nat_eq n 10
    || nat_eq n 11
    || nat_eq n 12
    || nat_eq n 13
    || nat_eq n 28
    || nat_eq n 29
    || nat_eq n 30
    || nat_eq n 133
    || nat_eq n 8232
    || nat_eq n 8233

-- A character before the lines of the rest.
abbrev pub onto_first : ℕ → List Text → List Text
onto_first x [] = (x ∷ []) ∷ []
onto_first x (line ∷ lines) = (x ∷ line) ∷ lines

abbrev pub is_newline_next : Text → Bool
is_newline_next [] = false
is_newline_next (x ∷ s) = nat_eq x 10

-- `s.splitlines()`
unfoldable pub splitlines : Text → List Text
splitlines [] = []
splitlines (x ∷ s) =
    let rest = splitlines s in
    if nat_eq x 13 && is_newline_next s
    then rest
    else if ends_line x
    then [] ∷ rest
    else onto_first x rest

abbrev pub third : List Text → Option Text
third (a ∷ b ∷ line ∷ lines) = some line
third _ = none

-- The four parts of an inclusion proof.
pub record ProofParts : Type 0 where
  pub index : ℕ
  pub tree_size : ℕ
  pub root : Bytes
  pub hashes : List Bytes

abbrev pub onto_hashes : Option Bytes → Option (List Bytes) → Option (List Bytes)
onto_hashes (some h) (some hs) = some (h ∷ hs)
onto_hashes _ _ = none

abbrev pub parts_of : Option ℕ → Option ℕ → Option Bytes → Option (List Bytes) → Option ProofParts
parts_of (some index) (some tree_size) (some root) (some hashes) =
    some (record { index = index; tree_size = tree_size; root = root; hashes = hashes })
parts_of _ _ _ _ = none

-- `_checkpoint_commits_to`, on the third line.
abbrev pub is_root : Bytes → Option Bytes → Bool
is_root root none = false
is_root root (some bytes) = bytes == root

abbrev pub line_commits_to : Packages → Bytes → Option Text → Bool
line_commits_to p root none = false
line_commits_to p root (some line) = is_root root (p.b64decode line)

unfoldable pub checkpoint_commits_to : Packages → Text → Bytes → Bool
checkpoint_commits_to p note root = line_commits_to p root (third (splitlines note))

-- A note that is a text, not empty, and does not commit to the root.
abbrev pub contradicts : Packages → Bytes → Option Text → Bool
contradicts p root none = false
contradicts p root (some note) = not (note == []) && not (checkpoint_commits_to p note root)

abbrev pub is_json_error : Error → Bool
is_json_error json_error = true
is_json_error _ = false

module _ (casts : Casts) where
  abbrev pub int_at : Text → Fields → Option ℕ
  int_at key fs = elim (get_field key fs) [ none ↦ none | some v ↦ casts.to_int v ]

  abbrev pub bytes_at : Text → Fields → Option Bytes
  bytes_at key fs = elim (get_field key fs) [ none ↦ none | some v ↦ fromhex (casts.to_str v) ]

  abbrev pub hex_values : Option (List Json) → Option (List Bytes)
  hex_values none = none
  hex_values (some []) = some []
  hex_values (some (v ∷ vs)) = onto_hashes (fromhex (casts.to_str v)) (hex_values (some vs))

  -- The `try` block that reads the inclusion proof; `none` for an error that it catches. An index
  -- below 0 is none of the model.
  unfoldable pub proof_parts : Fields → Option ProofParts
  proof_parts proof =
      parts_of (int_at (codes "logIndex") proof) (int_at (codes "treeSize") proof)
        (bytes_at (codes "rootHash") proof)
        (hex_values (iterated (get_field (codes "hashes") proof)))

  abbrev pub is_hash : Text → Option Text → Bool
  is_hash expected none = false
  is_hash expected (some recorded) = recorded == expected

  abbrev pub hash_text : Option Text → Text
  hash_text none = codes "None"
  hash_text (some recorded) = recorded

  module _ (c : Primitives) (json : Orjson) (p : Packages) where
    abbrev pub verified_detail : ProofParts → Text
    verified_detail parts =
        codes "inclusion proof verified at log index "
        ++ casts.to_str (int parts.index)
        ++ codes " (tree size "
        ++ casts.to_str (int parts.tree_size)
        ++ codes ")"

    -- `why` is the text of a caught exception.
    abbrev pub check_parts : Bytes → Fields → Text → Option ProofParts → Bool × Text
    check_parts entry_bytes proof why none = (false, codes "malformed inclusion proof: " ++ why)
    check_parts entry_bytes proof why (some parts) =
        if not (
          verify_inclusion p.sha256 parts.index parts.tree_size (log_leaf p.sha256 entry_bytes)
            parts.hashes parts.root)
        then (false, codes "inclusion proof does not reconstruct the recorded root")
        else if contradicts p parts.root (text_of (get_field (codes "checkpoint") proof))
        then (false, codes "log checkpoint does not commit to the proof's root hash")
        else (true, verified_detail parts)

    module _ (why : Fields → Text) where
      abbrev pub check_proof : Bytes → Option Json → Bool × Text
      check_proof entry_bytes (some (obj proof)) =
          check_parts entry_bytes proof (why proof) (proof_parts proof)
      check_proof entry_bytes _ = (false, codes "receipt carries no inclusion proof")

      abbrev pub check_hash : AnchorReceipt → Bytes → Option Text → Result (Bool × Text)
      check_hash r entry_bytes recorded =
          let expected = fingerprint c json p r.statement in
          if not (is_hash expected recorded)
          then ok (
            false,
            codes "entry commits to "
                ++ hash_text recorded
                ++ codes ", statement hashes to "
                ++ expected,
          )
          else (do
            verification ← dict_or_empty (codes "verification") r.proof
            ok (check_proof entry_bytes (get_field (codes "inclusionProof") verification)))

      abbrev pub check_entry : AnchorReceipt → Bytes → Result Json → Result (Bool × Text)
      check_entry r entry_bytes (ok entry) = do
        recorded ← payload_hash_from_entry entry
        check_hash r entry_bytes recorded
      check_entry r entry_bytes (err raised) =
          if is_json_error raised
          then ok (false, codes "entry body is not valid JSON")
          else err raised

      abbrev pub check_bytes : AnchorReceipt → Option Bytes → Result (Bool × Text)
      check_bytes r none = ok (false, codes "entry body is not valid base64")
      check_bytes r (some entry_bytes) = check_entry r entry_bytes (p.json_loads entry_bytes)

      abbrev pub check_body : AnchorReceipt → Option Text → Result (Bool × Text)
      check_body r none = ok (false, codes "receipt carries no entry body")
      check_body r (some b64) = check_bytes r (p.b64decode b64)

      -- `verify_receipt`
      unfoldable pub verify_receipt : AnchorReceipt → Result (Bool × Text)
      verify_receipt r = check_body r (text_of (get_field (codes "body") r.proof))

-- `RekorAnchor`, at the time `now`.
abbrev pub rekor_anchor :
    {L : Type 0}
    → Casts
    → Primitives
    → Orjson
    → Packages
    → (Fields → Text)
    → Opener L
    → Text
    → Text
    → Anchor L
rekor_anchor casts c json p why opener base_url now = record {
  name = backend_name;
  publish = publish c json p casts opener base_url now;
  witnesses = witnesses c json p casts opener base_url now;
  fingerprint = fingerprint c json p;
  verify_receipt = λ log r. verify_receipt casts c json p why r;
}
