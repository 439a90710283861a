-- ===== src/Anchor/Published.antt =====
-- A published statement is a witness: `publish` followed by `witnesses` and `verify_receipt`.
use memory_blackbox.Prelude.{
  ◌≡◌, refl, ap, ◌∙◌, true, false, List, [], ◌∷◌, ◌++◌, some, Text, codes, ◌==◌, Result, ok,
}
use memory_blackbox.Crypto.{Primitives, IsSound}
use memory_blackbox.Crypto.Hashing.{b3_raw}
use memory_blackbox.Crypto.Keys.{KeyPair, sign_with}
use memory_blackbox.Crypto.Signing.{verify, verify-sign, sign}
use memory_blackbox.Model.Json.{
  Fields, Orjson, IsRoundTrip, obj, get_field, sort_keys, sort_fields, get_field-sort,
}
use memory_blackbox.Model.Values.{Casts, AreCasts}
use memory_blackbox.Anchor.Statement.{CheckpointStatement, Witness, to_fields, canonical, digest}
use memory_blackbox.Anchor.Roundtrip.{from_canonical-sort}
use memory_blackbox.Anchor.FileWitness.{
  Line, is_blank, line_fields, text_of, statement_fields, valid_lines_unchecked, is_signed,
  signature_verifies, keep_signed, valid_lines, witness_of, witnesses_for, witnesses, line_of,
  publish,
}
use memory_blackbox.Anchor.Publication.{
  WritesObjects, unchecked-append, keep_signed-append, witnesses_for-append,
}

module _ (c : Primitives) (json : Orjson) (casts : Casts) (sound : IsSound c)
    (trip : IsRoundTrip json) (laws : AreCasts casts) (objects : WritesObjects json) where
  module _ (path : Text) (signer : KeyPair) (now : Text) (st : CheckpointStatement) where
    abbrev signature : Text
    signature = sign_with c signer (b3_raw c (canonical c json st))

    -- The fields of the published line, as they are read back.
    abbrev pub read_fields : Fields
    read_fields = sort_fields (line_fields st signature signer.kid now)

    line_loads : json.loads (line_of c json casts path st signer now) ≡ some (obj read_fields)
    unfolding line_of sort_keys
    line_loads = trip.loads-dumps (obj (line_fields st signature signer.kid now))

    line_visible : is_blank (line_of c json casts path st signer now) ≡ false
    unfolding line_of
    line_visible = objects.visible (line_fields st signature signer.kid now)

    line_statement :
        statement_fields (get_field (codes "statement") read_fields)
        ≡ some (sort_fields (to_fields st))
    unfolding get_field line_fields sort_keys ◌==◌
    line_statement =
        ap statement_fields
          (get_field-sort (codes "statement") (line_fields st signature signer.kid now))

    line_signature : text_of (get_field (codes "witness_signature") read_fields) ≡ some signature
    unfolding get_field line_fields sort_keys ◌==◌
    line_signature =
        ap text_of
          (get_field-sort (codes "witness_signature") (line_fields st signature signer.kid now))

    line_signed :
        signer.public_key ≡ c.ed25519_public signer.private_key
        → is_signed c json casts signer.public_key (read_fields, st) ≡ true
    unfolding is_signed sign_with
    line_signed keyed =
        let message = b3_raw c (canonical c json st) in
        ap (signature_verifies c json casts st signer.public_key) line_signature
        ∙ ap (verify c message (sign c message signer.private_key)) keyed
        ∙ verify-sign c sound message signer.private_key

    -- The lines of the file after a publication.
    pub publish-lines :
        (file : List Text) (old : List Line)
        → valid_lines_unchecked c json casts file ≡ ok old
        → valid_lines_unchecked c json casts (publish c json casts path now file st signer).0
          ≡ ok (old ++ (read_fields, st) ∷ [])
    unfolding publish
    publish-lines file old h =
        unchecked-append c json casts file old (line_of c json casts path st signer now) read_fields
          (sort_fields (to_fields st)) st line_visible line_loads line_statement
          (from_canonical-sort st json casts laws trip) h

    -- Under sound primitives, if orjson reads back what it writes, the text of an object is not
    -- blank, `str` and `int` give back texts and numbers, and the signer holds its key pair:
    -- publishing to a file that can be read keeps every witness of the ledger that the statement
    -- names, in its place, and adds one behind them, with the statement and under its fingerprint.
    pub publish-witnesses :
        (file : List Text) (old : List Line)
        → signer.public_key ≡ c.ed25519_public signer.private_key
        → valid_lines_unchecked c json casts file ≡ ok old
        → (ws : List Witness) × (w : Witness) × (witnesses c json casts path file st.ledger_id
              signer.public_key
            ≡ ok ws)
          × (witnesses c json casts path
                (publish c json casts path now file st signer).0
                st.ledger_id
                signer.public_key
              ≡ ok (ws ++ w ∷ []))
          × (w.statement ≡ some st)
          × (w.fingerprint ≡ digest c json st)
    unfolding witnesses valid_lines
    publish-witnesses file old keyed h =
        let kept = keep_signed c json casts signer.public_key old in
        (
          witnesses_for c json casts path st.ledger_id kept,
          witness_of c json casts path (read_fields, st),
          rw h refl,
          rw (publish-lines file old h) (
              ap (λ l. ok (witnesses_for c json casts path st.ledger_id l))
                (keep_signed-append c json casts signer.public_key old (read_fields, st)
                  (line_signed keyed))
              ∙ ap {B = Result (List Witness)} ok (
                  witnesses_for-append c json casts path st.ledger_id kept (read_fields, st) refl)),
          unfold witness_of in refl,
          unfold witness_of in refl,
        )
