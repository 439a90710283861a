-- ===== src/Anchor/FileWitness.antt =====
-- src/memory_blackbox/anchor/file_witness.py: a log in a file of JSON lines. The file is the list
-- of its lines; a file that does not exist has none.
use memory_blackbox.Prelude.{
  Bool, true, false, ◌&&◌, List, [], ◌∷◌, ◌++◌, Option, none, some, Text, Bytes, codes, ◌==◌,
  if◌then◌else◌, Result, ok, err, anchor_error, ◌>>=◌,
}
use memory_blackbox.Codec.Hex.{is_space}
use memory_blackbox.Codec.Utf8.{utf8}
use memory_blackbox.Crypto.{Primitives}
use memory_blackbox.Crypto.Hashing.{b3, b3_raw}
use memory_blackbox.Crypto.Keys.{KeyPair, sign_with}
use memory_blackbox.Crypto.Signing.{verify}
use memory_blackbox.Model.Json.{Json, Fields, Orjson, int, str, obj, get_field}
use memory_blackbox.Model.Values.{Casts, is_falsy}
use memory_blackbox.Model.Dump.{fields}
use memory_blackbox.Anchor.Statement.{
  CheckpointStatement, Witness, AnchorReceipt, Anchor, to_fields, canonical, digest, from_canonical,
}

abbrev pub backend_name : Text
backend_name = codes "file-witness"

-- `not raw.strip()`, for the white space of a line of ASCII.
unfoldable pub is_blank : Text → Bool
is_blank [] = true
is_blank (c ∷ s) = is_space c && is_blank s

-- The line of a statement.
unfoldable pub line_fields : CheckpointStatement → Text → Text → Text → Fields
line_fields st signature kid anchored_at = fields (
    (codes "version", int 1)
    ∷ (codes "statement", obj (to_fields st))
    ∷ (codes "witness_signature", str signature)
    ∷ (codes "signer_kid", str kid)
    ∷ (codes "anchored_at", str anchored_at)
    ∷ [])

abbrev pub Line : Type 0
Line = Fields × CheckpointStatement

-- `line.get("witness_signature")`, if it is a text.
abbrev pub text_of : Option Json → Option Text
text_of (some (str s)) = some s
text_of _ = none

abbrev pub statement_fields : Option Json → Option Fields
statement_fields (some (obj fs)) = some fs
statement_fields _ = none

module _ (c : Primitives) (json : Orjson) (casts : Casts) where
  -- `str(line.get("anchored_at") or "") or None`
  abbrev pub non_empty : Text → Option Text
  non_empty [] = none
  non_empty (x ∷ t) = some (x ∷ t)

  abbrev pub stamp_of : Option Json → Option Text
  stamp_of none = none
  stamp_of (some v) = if is_falsy (some v) then none else non_empty (casts.to_str v)

  abbrev pub keep_dict : Json → List Fields → List Fields
  keep_dict (obj fs) lines = fs ∷ lines
  keep_dict _ lines = lines

  abbrev pub parse_line : Option Json → Result (List Fields) → Result (List Fields)
  parse_line none rest = err anchor_error
  parse_line (some v) (ok lines) = ok (keep_dict v lines)
  parse_line (some v) (err why) = err why

  -- `_read_lines`
  unfoldable pub read_lines : List Text → Result (List Fields)
  read_lines [] = ok []
  read_lines (raw ∷ raws) =
      let rest = read_lines raws in if is_blank raw then rest else parse_line (json.loads raw) rest

  abbrev pub add_line :
      Fields → Result CheckpointStatement → Result (List Line) → Result (List Line)
  add_line line (ok st) (ok out) = ok ((line, st) ∷ out)
  add_line line (ok st) (err why) = err why
  add_line line (err why) out = err why

  abbrev pub statement_line : Fields → Option Fields → Result (List Line) → Result (List Line)
  statement_line line none out = out
  statement_line line (some fs) out =
      add_line line (from_canonical json casts (json.dumps (obj fs))) out

  abbrev pub parse_lines : List Fields → Result (List Line)
  parse_lines [] = ok []
  parse_lines (line ∷ lines) =
      statement_line line (statement_fields (get_field (codes "statement") line))
        (parse_lines lines)

  -- `_valid_lines_unchecked`
  unfoldable pub valid_lines_unchecked : List Text → Result (List Line)
  valid_lines_unchecked file = do lines ← read_lines file; parse_lines lines

  abbrev pub signature_verifies : CheckpointStatement → Bytes → Option Text → Bool
  signature_verifies st public_key none = false
  signature_verifies st public_key (some signature) =
      verify c (b3_raw c (canonical c json st)) signature public_key

  -- Whether the witness signature of a line verifies.
  unfoldable pub is_signed : Bytes → Line → Bool
  is_signed public_key (line, st) =
      signature_verifies st public_key (text_of (get_field (codes "witness_signature") line))

  unfoldable pub keep_signed : Bytes → List Line → List Line
  keep_signed public_key [] = []
  keep_signed public_key (l ∷ ls) =
      let rest = keep_signed public_key ls in if is_signed public_key l then l ∷ rest else rest

  -- `_valid_lines`
  unfoldable pub valid_lines : List Text → Bytes → Result (List Line)
  valid_lines file public_key = do
    lines ← valid_lines_unchecked file
    ok (keep_signed public_key lines)

  module _ (path : Text) where
    -- `log_id`; the path is the resolved one.
    unfoldable pub log_id : Text
    log_id = b3 c (utf8 path)

    unfoldable pub witness_of : Line → Witness
    witness_of (line, st) = record {
      backend = backend_name;
      log_id = log_id;
      locator = digest c json st;
      fingerprint = digest c json st;
      statement = some st;
      integrated_at = stamp_of (get_field (codes "anchored_at") line);
    }

    unfoldable pub witnesses_for : Text → List Line → List Witness
    witnesses_for identity [] = []
    witnesses_for identity ((line, st) ∷ ls) =
        let rest = witnesses_for identity ls in
        if st.ledger_id == identity then witness_of (line, st) ∷ rest else rest

    -- `witnesses`
    unfoldable pub witnesses : List Text → Text → Bytes → Result (List Witness)
    witnesses file identity public_key = do
      lines ← valid_lines file public_key
      ok (witnesses_for identity lines)

    -- The line that `publish` appends, without its newline.
    unfoldable pub line_of : CheckpointStatement → KeyPair → Text → Text
    line_of st signer now =
        json.dumps (
          obj (line_fields st (sign_with c signer (b3_raw c (canonical c json st))) signer.kid now))

    -- The receipt of a publication at the time `now`.
    abbrev pub receipt_for : Text → CheckpointStatement → KeyPair → AnchorReceipt
    receipt_for now st signer = record {
      backend = backend_name;
      log_id = log_id;
      locator = digest c json st;
      statement = st;
      anchored_at = now;
      proof = fields (
          (codes "witness_signature", str (sign_with c signer (b3_raw c (canonical c json st))))
          ∷ (codes "path", str path)
          ∷ []);
    }

    -- `publish`, at the time `now`, into a file that can be written.
    unfoldable pub publish :
        Text → List Text → CheckpointStatement → KeyPair → List Text × Result AnchorReceipt
    publish now file st signer =
        (file ++ line_of st signer now ∷ [], ok (receipt_for now st signer))

    unfoldable pub has_digest : Text → List Line → Bool
    has_digest wanted [] = false
    has_digest wanted ((line, st) ∷ ls) =
        let rest = has_digest wanted ls in if digest c json st == wanted then true else rest

    abbrev pub presence : Bool → Bool × Text
    presence true = (true, codes "statement present in the witness file")
    presence false = (false, codes "statement is absent from the witness file")

    abbrev pub verdict_for : AnchorReceipt → Option Text → List Text → Result (Bool × Text)
    verdict_for r none file = ok (false, codes "receipt carries no witness signature")
    verdict_for r (some signature) file = do
      lines ← valid_lines_unchecked file
      ok (presence (has_digest (digest c json r.statement) lines))

    -- `verify_receipt`
    unfoldable pub verify_receipt : List Text → AnchorReceipt → Result (Bool × Text)
    verify_receipt file r =
        verdict_for r (text_of (get_field (codes "witness_signature") r.proof)) file

    -- `FileWitnessAnchor(path)`, at the time `now`.
    abbrev pub file_witness : Text → Anchor (List Text)
    file_witness now = record {
      name = backend_name;
      publish = publish now;
      witnesses = witnesses;
      fingerprint = digest c json;
      verify_receipt = verify_receipt;
    }
