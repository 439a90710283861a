-- ===== src/Anchor/Rekor/Client.antt =====
-- Publication and the reading of witnesses in src/memory_blackbox/anchor/rekor.py. The requests of
-- one call see one state of the log.
use memory_blackbox.Prelude.{
  ℕ, List, [], ◌∷◌, ◌++◌, Option, none, some, Text, Bytes, codes, length, ltb, if◌then◌else◌,
  Result, ok, err, anchor_error, ◌>>=◌,
}
use memory_blackbox.Codec.Hex.{hex}
use memory_blackbox.Crypto.{Primitives}
use memory_blackbox.Crypto.Keys.{KeyPair}
use memory_blackbox.Model.Json.{Json, Fields, Orjson, null, str, obj, end, get_field}
use memory_blackbox.Model.Values.{Casts}
use memory_blackbox.Model.Dump.{fields}
use memory_blackbox.Anchor.Statement.{CheckpointStatement, Witness, AnchorReceipt, canonical}
use memory_blackbox.Anchor.Rekor.Transport.{
  Packages, Opener, Outcome, answered, failed, send, post_request, get_request,
  search_by_public_key,
}
use memory_blackbox.Anchor.Rekor.Entry.{single_entry, payload_hash, integrated_at}

abbrev pub backend_name : Text
backend_name = codes "rekor"

abbrev pub max_witnesses : ℕ
max_witnesses = 1000

-- `d.get(key)` and `d.get(key, default)` as values.
abbrev pub value_or : Json → Option Json → Json
value_or default none = default
value_or default (some v) = v

module _ (c : Primitives) (json : Orjson) (p : Packages) where
  -- The payload of `publish`.
  unfoldable pub rekord_entry : CheckpointStatement → KeyPair → Json
  rekord_entry st signer =
      let payload = canonical c json st in
      let signature = c.ed25519_sign signer.private_key payload in
      obj (
        fields (
          (codes "apiVersion", str (codes "0.0.1"))
          ∷ (codes "kind", str (codes "rekord"))
          ∷ (
            codes "spec",
            obj (
                fields (
                  (codes "data", obj (fields ((codes "content", str (p.b64encode payload)) ∷ [])))
                  ∷ (
                    codes "signature",
                    obj (
                        fields (
                          (codes "format", str (codes "x509"))
                          ∷ (codes "content", str (p.b64encode signature))
                          ∷ (
                            codes "publicKey",
                            obj (
                                fields (
                                  (
                                    codes "content",
                                    str (p.b64encode (p.public_pem signer.public_key)),
                                  )
                                  ∷ [])),
                          )
                          ∷ [])),
                  )
                  ∷ [])),
          )
          ∷ []))

  -- The `proof` of a receipt.
  unfoldable pub receipt_proof : Text → Fields → Fields
  receipt_proof uuid body = fields (
      (codes "uuid", str uuid)
      ∷ (codes "logIndex", value_or null (get_field (codes "logIndex") body))
      ∷ (codes "logID", value_or null (get_field (codes "logID") body))
      ∷ (codes "integratedTime", value_or null (get_field (codes "integratedTime") body))
      ∷ (codes "body", value_or null (get_field (codes "body") body))
      ∷ (codes "verification", value_or (obj end) (get_field (codes "verification") body))
      ∷ [])

  -- `fingerprint`
  unfoldable pub fingerprint : CheckpointStatement → Text
  fingerprint st = codes "sha256:" ++ hex (p.sha256 (canonical c json st))

  module _ {L : Type 0} (casts : Casts) (opener : Opener L) (base_url now : Text) where
    abbrev pub entry_answered : Outcome → Result (Text × Fields)
    entry_answered (failed message) = err anchor_error
    entry_answered (answered response) = single_entry response

    abbrev pub receipt_of : CheckpointStatement → Text × Fields → Result AnchorReceipt
    receipt_of st (uuid, body) = do
      at ← integrated_at p now body
      ok (record {
        backend = backend_name;
        log_id = base_url;
        locator = uuid;
        statement = st;
        anchored_at = at;
        proof = receipt_proof uuid body;
      })

    -- `publish`, at the time `now`, with the state of the log after its request.
    unfoldable pub publish : L → CheckpointStatement → KeyPair → L × Result AnchorReceipt
    publish log st signer =
        let request =
          post_request p casts opener base_url (codes "/api/v1/log/entries")
            (rekord_entry st signer) in
        (
          opener.after log request,
          entry_answered (send p casts opener base_url log request) >>= receipt_of st,
        )

    abbrev pub body_of : Result (Text × Fields) → Option Fields
    body_of (ok (uuid, body)) = some body
    body_of (err why) = none

    -- `_get_entry`: both `AnchorError`s give `None`.
    unfoldable pub get_entry : L → Text → Option Fields
    get_entry log uuid = body_of (
        entry_answered (
          send p casts opener base_url log
            (get_request p casts opener base_url (codes "/api/v1/log/entries/" ++ uuid))))

    abbrev pub witness_of : Text → Fields → Option Text → Result (List Witness)
    witness_of uuid body none = ok []
    witness_of uuid body (some payload_hash) = do
      at ← integrated_at p now body
      ok (
          record {
            backend = backend_name;
            log_id = base_url;
            locator = uuid;
            fingerprint = payload_hash;
            statement = none;
            integrated_at = some at;
          }
          ∷ [])

    abbrev pub witness_of_body : Text → Option Fields → Result (List Witness)
    witness_of_body uuid none = ok []
    witness_of_body uuid (some body) = do found ← payload_hash p body; witness_of uuid body found

    -- The loop of `witnesses`.
    unfoldable pub fetch_witnesses : L → List Text → Result (List Witness)
    fetch_witnesses log [] = ok []
    fetch_witnesses log (uuid ∷ uuids) = do
      found ← witness_of_body uuid (get_entry log uuid)
      rest ← fetch_witnesses log uuids
      ok (found ++ rest)

    -- `witnesses`
    unfoldable pub witnesses : L → Text → Bytes → Result (List Witness)
    witnesses log identity public_key = do
      uuids ← search_by_public_key p casts opener base_url log public_key
      if ltb max_witnesses (length uuids) then err anchor_error else fetch_witnesses log uuids
