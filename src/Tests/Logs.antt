-- ===== src/Tests/Logs.antt =====
-- Runs of the Rekor client and of the tree against its definition.
use memory_blackbox.Prelude.{
  ℕ, zero, suc, ◌≡◌, ◌⊎◌, ◌↔◌, ◌%◌, refl, Bool, true, false, List, [], ◌∷◌, ◌++◌, map, Option, none,
  some, Text, Bytes, codes, length, get_elem?, Result, ok, err, json_error, ◌==◌, nat_eq,
  if◌then◌else◌, ◌>>=◌, contains, In, arith,
}
use memory_blackbox.Codec.Hex.{hex}
use memory_blackbox.Crypto.Toy.{toy, toy-IsSound}
use memory_blackbox.Model.Json.{
  Json, Fields, int, str, arr, obj, nil, cons, end, field, null, get_field,
}
use memory_blackbox.Merkle.{compute_root}
use memory_blackbox.Merkle.Rfc.{IsTreeHead, compute_root-IsTreeHead}
use memory_blackbox.Ledger.Store.{LedgerStore}
use memory_blackbox.Anchor.Statement.{CheckpointStatement, AnchorReceipt, Anchor, Witness}
use memory_blackbox.Anchor.Rekor.Inclusion.{log_leaf, log_node, skip_levels, verify_inclusion}
use memory_blackbox.Anchor.Rekor.Walk.{Runs, skip_levels-Runs}
use memory_blackbox.Anchor.Rekor.Binds.{Sha256Collision, log_root}
use memory_blackbox.Anchor.Rekor.Sound.{verify_inclusion_sound}
use memory_blackbox.Anchor.Rekor.Transport.{Packages, Opener, Reply, body}
use memory_blackbox.Anchor.Rekor.Entry.{payload_hash_from_entry}
use memory_blackbox.Anchor.Rekor.Client.{fingerprint}
use memory_blackbox.Anchor.Rekor.Receipt.{ProofParts, verify_receipt}
use memory_blackbox.Anchor.Rekor.Accepted.{IsAgainst, verify_receipt-placed}
use memory_blackbox.Anchor.Rekor.Transport.{search_by_public_key, send}
use memory_blackbox.Anchor.Rekor.Entry.{payload_hash}
use memory_blackbox.Anchor.Rekor.Client.{get_entry, witnesses}
use memory_blackbox.Anchor.Rekor.Receipt.{rekor_anchor}
use memory_blackbox.Anchor.Rekor.Witnessed.{rekor_passes-produced}
use memory_blackbox.Anchor.Verify.{AnchorReport, check_receipts, local_fingerprints, verify_anchors}
use memory_blackbox.Anchor.Store.{anchors, checkpoints}
use memory_blackbox.Anchor.Detection.{verify_anchors_iff}
use memory_blackbox.Tests.Codec.{toy_json}
use memory_blackbox.Tests.Ledgers.{two_rows}
use memory_blackbox.Tests.Anchors.{casts, two_id, two_known}

abbrev leaves : List Bytes
leaves = (1 ∷ []) ∷ (2 ∷ []) ∷ (3 ∷ []) ∷ []

abbrev head : Bytes
head = compute_root toy leaves

compute_root-IsTreeHead_example : IsTreeHead toy leaves head ↔ (compute_root toy leaves ≡ head)
compute_root-IsTreeHead_example = compute_root-IsTreeHead toy leaves head

skip_levels-Runs_example : Runs 12 20 3 5 ↔ (skip_levels 13 12 20 ≡ (3, 5))
skip_levels-Runs_example = skip_levels-Runs 13 12 20 3 5 (omega arith)

abbrev sha256 : Bytes → Bytes
sha256 = toy.blake3

-- The last of three entries is promoted once.
abbrev path : List Bytes
path = log_node sha256 (log_leaf sha256 (1 ∷ [])) (log_leaf sha256 (2 ∷ [])) ∷ []

path_accepted :
    verify_inclusion sha256 2 3
      (log_leaf sha256 (3 ∷ []))
      path
      (log_root sha256 (map (log_leaf sha256) leaves))
    ≡ true
unfolding verify_inclusion memory_blackbox.Anchor.Rekor.Inclusion.climb_proof skip_levels ◌==◌
    log_node memory_blackbox.Crypto.Toy.digest memory_blackbox.Merkle.merge_levels
    memory_blackbox.Merkle.pair_up log_leaf
path_accepted = refl

verify_inclusion_sound_example : (get_elem? leaves 2 ≡ some (3 ∷ [])) ⊎ Sha256Collision sha256
verify_inclusion_sound_example =
    verify_inclusion_sound sha256 toy-IsSound.digest_size leaves 2 (3 ∷ []) path path_accepted

-- A digest of 32 bytes that is quick to compute: the first byte of the input, or 255.
abbrev filled : ℕ → Bytes
filled b = b ∷ zeros 31
  where
    zeros : ℕ → Bytes
    zeros zero = []
    zeros (suc n) = 0 ∷ zeros n

abbrev quick : Bytes → Bytes
quick [] = filled 255
quick (b ∷ bytes) = filled b

quick_size : (bytes : Bytes) → length (quick bytes) ≡ 32
quick_size [] = refl
quick_size (b ∷ bytes) = refl

abbrev claim : CheckpointStatement
claim = record {
  ledger_id = codes "id";
  signer_kid = codes "kid";
  leaf_count = 1;
  root = codes "root";
  checkpoint_signature = codes "sig";
  created_at = codes "t";
}

-- The entry of a payload hash without its prefix.
abbrev entry_for : Text → Json
entry_for value = obj (
    field (codes "kind") (str (codes "rekord")) (
      field (codes "spec")
        (obj (
          field (codes "data")
            (obj (
              field (codes "hash")
                (obj (
                  field (codes "algorithm") (str (codes "sha256"))
                    (field (codes "value") (str value) end)))
                end))
            end))
        end))

-- Packages whose JSON parser knows the one entry.
abbrev pub packages : Json → Packages
packages entry = record {
  sha256 = quick;
  b64encode = λ bytes. bytes;
  b64decode = λ text. some text;
  json_loads = λ bytes. if bytes == codes "entry" then ok entry else err json_error;
  orjson_dumps = λ v. [];
  orjson_loads = λ bytes. none;
  public_pem = λ key. key;
  from_timestamp = λ n. ok (codes "t");
  urlparse = λ url. ok (codes "https", none);
}

-- The SHA-256 of the claim, in hexadecimal digits.
abbrev claim_hash : Text
claim_hash = drop_seven (fingerprint toy toy_json (packages null) claim)
  where
    drop_seven : Text → Text
    drop_seven (a ∷ b ∷ c ∷ d ∷ e ∷ f ∷ g ∷ s) = s
    drop_seven s = s

abbrev p : Packages
p = packages (entry_for claim_hash)

abbrev entries : List Bytes
entries = codes "entry" ∷ []

abbrev inclusion : Fields
inclusion = field (codes "logIndex") (int 0) (
    field (codes "treeSize") (int 1) (
      field (codes "rootHash") (str (hex (log_leaf quick (codes "entry"))))
        (field (codes "hashes") (arr nil) end)))

abbrev receipt : AnchorReceipt
receipt = record {
  backend = codes "rekor";
  log_id = codes "log";
  locator = codes "uuid";
  statement = claim;
  anchored_at = codes "t";
  proof =
      field (codes "body") (str (codes "entry")) (
        field (codes "verification") (obj (field (codes "inclusionProof") (obj inclusion) end))
          end);
}

abbrev pub why : Fields → Text
why proof = []

detail_of : Result (Bool × Text) → Text
detail_of (ok (b, detail)) = detail
detail_of (err w) = []

abbrev detail : Text
detail = detail_of (verify_receipt casts toy toy_json p why receipt)

receipt_accepted : verify_receipt casts toy toy_json p why receipt ≡ ok (true, detail)
unfolding verify_receipt detail_of get_field ◌==◌ payload_hash_from_entry
    memory_blackbox.Anchor.Rekor.Entry.rekord_hash memory_blackbox.Anchor.Rekor.Entry.dict_or_empty
    fingerprint hex log_leaf verify_inclusion memory_blackbox.Anchor.Rekor.Inclusion.climb_proof
    memory_blackbox.Anchor.Rekor.Receipt.proof_parts memory_blackbox.Codec.Hex.fromhex
    memory_blackbox.Anchor.Statement.canonical memory_blackbox.Codec.Utf8.utf8
    memory_blackbox.Anchor.Statement.statement_text memory_blackbox.Model.Canonical.canonical_text
    memory_blackbox.Tests.Codec.encode memory_blackbox.Model.Json.sort_keys
    memory_blackbox.Model.Canonical.prune memory_blackbox.Anchor.Statement.to_fields contains
    memory_blackbox.Model.Json.insert_field memory_blackbox.Prelude.text_leb
receipt_accepted = refl

abbrev parts : ProofParts
parts = record { index = 0; tree_size = 1; root = log_leaf quick (codes "entry"); hashes = [] }

receipt-IsAgainst : IsAgainst casts toy toy_json p why entries receipt
unfolding memory_blackbox.Anchor.Rekor.Entry.dict_or_empty get_field ◌==◌
    memory_blackbox.Anchor.Rekor.Receipt.proof_parts memory_blackbox.Codec.Hex.fromhex hex log_leaf
    memory_blackbox.Merkle.merge_levels
receipt-IsAgainst = record {
  proof = inclusion;
  parts = parts;
  stored = refl;
  read = refl;
  sized = refl;
  rooted = refl;
}

verify_receipt-placed_example :
    ((bytes : Bytes) × (entry : Json) × (get_elem? entries 0 ≡ some bytes)
      × (p.json_loads bytes ≡ ok entry)
      × (payload_hash_from_entry entry ≡ ok (some (fingerprint toy toy_json p claim))))
    ⊎ Sha256Collision quick
unfolding receipt-IsAgainst
verify_receipt-placed_example =
    verify_receipt-placed casts toy toy_json p why quick_size receipt detail entries
      receipt-IsAgainst receipt_accepted

-- A log with one entry of the ledger's key, whose payload hash is that of the newest checkpoint.
abbrev log_hash : Text
log_hash = hex (filled 123)

abbrev served : Fields
served = field (codes "body") (str (codes "entry")) end

abbrev answers : Packages
answers = record (packages (entry_for log_hash)) {
  sha256 = λ bytes. filled 123;
  orjson_loads = λ bytes.
      if bytes == codes "index"
      then some (arr (cons (str (codes "uuid")) nil))
      else some (obj (field (codes "uuid") (obj served) end));
}

abbrev opener : Opener (Unit {0})
opener = record {
  reply = λ log request. body (if request.method == codes "POST" then codes "index" else []);
  after = λ log request. log;
}

listed :
    search_by_public_key answers casts opener (codes "log") tt two_rows.signer.public_key
    ≡ ok (codes "uuid" ∷ [])
unfolding search_by_public_key send ◌==◌ memory_blackbox.Anchor.Rekor.Transport.post_request
listed = refl

uuid_listed : In (codes "uuid") (codes "uuid" ∷ [])
unfolding contains ◌==◌
uuid_listed = refl

got :
    get_entry toy toy_json answers casts opener (codes "log") (codes "t") tt (codes "uuid")
    ≡ some served
unfolding get_entry send ◌==◌ memory_blackbox.Anchor.Rekor.Transport.get_request
    memory_blackbox.Anchor.Rekor.Entry.single_entry
got = refl

hashed : payload_hash answers served ≡ ok (some (codes "sha256:" ++ log_hash))
unfolding payload_hash get_field ◌==◌ payload_hash_from_entry
    memory_blackbox.Anchor.Rekor.Entry.rekord_hash memory_blackbox.Anchor.Rekor.Entry.dict_or_empty
hashed = refl

abbrev log_anchor : Anchor (Unit {0})
log_anchor = rekor_anchor casts toy toy_json answers why opener (codes "log") (codes "t")

abbrev witness_of_log : Witness
witness_of_log = record {
  backend = codes "rekor";
  log_id = codes "log";
  locator = codes "uuid";
  fingerprint = codes "sha256:" ++ log_hash;
  statement = none;
  integrated_at = some (codes "t");
}

log_read : log_anchor.witnesses tt two_id two_rows.signer.public_key ≡ ok (witness_of_log ∷ [])
unfolding witnesses search_by_public_key send ◌==◌
    memory_blackbox.Anchor.Rekor.Transport.post_request
    memory_blackbox.Anchor.Rekor.Client.fetch_witnesses get_entry
    memory_blackbox.Anchor.Rekor.Transport.get_request
    memory_blackbox.Anchor.Rekor.Entry.single_entry payload_hash get_field payload_hash_from_entry
    memory_blackbox.Anchor.Rekor.Entry.rekord_hash memory_blackbox.Anchor.Rekor.Entry.dict_or_empty
    memory_blackbox.Anchor.Rekor.Entry.integrated_at
log_read = refl

log_kept : anchors toy_json casts two_rows.db (some (codes "rekor")) ≡ ok []
unfolding anchors memory_blackbox.Ledger.Store.maybe_checkpoint
    memory_blackbox.Ledger.Store.checkpoint_due memory_blackbox.Ledger.Store.insert_row
    memory_blackbox.Ledger.Store.checkpoint
log_kept = refl

checked : check_receipts toy toy_json casts log_anchor tt [] ≡ ok []
unfolding check_receipts
checked = refl

known :
    contains
      (local_fingerprints toy toy_json casts log_anchor two_id (checkpoints two_rows.db))
      (codes "sha256:" ++ log_hash)
    ≡ true
unfolding contains fingerprint checkpoints hex ◌==◌ memory_blackbox.Ledger.Store.maybe_checkpoint
    memory_blackbox.Ledger.Store.checkpoint_due memory_blackbox.Ledger.Store.insert_row
    memory_blackbox.Ledger.Store.checkpoint
known = refl

-- The passing report.
passing :
    (r : AnchorReport) × (verify_anchors toy toy_json casts log_anchor two_rows tt true ≡ ok r)
    × (r.is_ok ≡ true)
passing =
    let (r, run, exact) =
      verify_anchors_iff toy toy_json casts log_anchor two_rows tt two_id (witness_of_log ∷ []) []
        [] two_known log_read log_kept checked in
    (r, run, exact.1 (λ e. cc, record { produced = (known, tt); matched = (tt, tt) }, refl))

rekor_passes-produced_example :
    contains
      (local_fingerprints toy toy_json casts log_anchor two_id (checkpoints two_rows.db))
      (codes "sha256:" ++ log_hash)
    ≡ true
rekor_passes-produced_example =
    rekor_passes-produced toy toy_json answers casts opener (codes "log") (codes "t") why two_rows
      tt two_id (codes "uuid" ∷ []) passing.0 two_known listed passing.1 passing.2 (codes "uuid")
      served (codes "sha256:" ++ log_hash) uuid_listed got hashed
