-- ===== src/Anchor/Receipts.antt =====
-- A recorded receipt is read back as it was, with the keys of its proof in order.
use memory_blackbox.Prelude.{◌≡◌, refl, ap, ◌∙◌, [], ◌∷◌, some, codes, ok, ◌==◌, eq_refl}
use memory_blackbox.Crypto.{Primitives}
use memory_blackbox.Model.Json.{
  Fields, Orjson, IsRoundTrip, str, obj, get_field, sort_keys, sort_fields, get_field-sort,
}
use memory_blackbox.Model.Values.{Casts, AreCasts}
use memory_blackbox.Storage.{CheckpointRow, Db}
use memory_blackbox.Anchor.Statement.{AnchorReceipt, to_fields}
use memory_blackbox.Anchor.Roundtrip.{from_canonical-sort}
use memory_blackbox.Anchor.Store.{
  receipt_fields, to_json, receipt_of, receipt_with, receipt_parts, from_json, anchors, has_anchor,
  record_anchor,
}

-- A receipt as it is read back.
abbrev pub sorted : AnchorReceipt → AnchorReceipt
sorted r = record r { proof = sort_fields r.proof }

module _ (json : Orjson) (casts : Casts) (trip : IsRoundTrip json) (laws : AreCasts casts) where
  module _ (r : AnchorReceipt) where
    abbrev stored : Fields
    stored = sort_fields (receipt_fields r)

    stored_backend : get_field (codes "backend") stored ≡ some (str r.backend)
    unfolding get_field sort_keys ◌==◌
    stored_backend = get_field-sort (codes "backend") (receipt_fields r)

    stored_log_id : get_field (codes "log_id") stored ≡ some (str r.log_id)
    unfolding get_field sort_keys ◌==◌
    stored_log_id = get_field-sort (codes "log_id") (receipt_fields r)

    stored_locator : get_field (codes "locator") stored ≡ some (str r.locator)
    unfolding get_field sort_keys ◌==◌
    stored_locator = get_field-sort (codes "locator") (receipt_fields r)

    stored_statement :
        get_field (codes "statement") stored ≡ some (obj (sort_fields (to_fields r.statement)))
    unfolding get_field sort_keys ◌==◌
    stored_statement = get_field-sort (codes "statement") (receipt_fields r)

    stored_anchored_at : get_field (codes "anchored_at") stored ≡ some (str r.anchored_at)
    unfolding get_field sort_keys ◌==◌
    stored_anchored_at = get_field-sort (codes "anchored_at") (receipt_fields r)

    stored_proof : get_field (codes "proof") stored ≡ some (obj (sort_fields r.proof))
    unfolding get_field sort_keys ◌==◌
    stored_proof = get_field-sort (codes "proof") (receipt_fields r)

    receipt_with-stored : receipt_with json casts stored (ok r.statement) ≡ ok (sorted r)
    receipt_with-stored =
        rw (stored_backend, stored_log_id, stored_locator, stored_anchored_at, stored_proof)
          (rw
            (
              laws.str_str r.backend,
              laws.str_str r.log_id,
              laws.str_str r.locator,
              laws.str_str r.anchored_at,
            )
            refl)

    -- If orjson reads back what it writes and `str` and `int` give back texts and numbers, then a
    -- receipt that was written as JSON is read back as it was, with the keys of its proof sorted.
    pub from_json-to_json : from_json json casts (to_json json r) ≡ ok (sorted r)
    unfolding from_json to_json sort_keys
    from_json-to_json =
        ap (receipt_of json casts) (trip.loads-dumps (obj (receipt_fields r)))
        ∙ ap (receipt_parts json casts stored) stored_statement
        ∙ ap (receipt_with json casts stored) (from_canonical-sort r.statement json casts laws trip)
        ∙ receipt_with-stored

    -- The first receipt of a database is the only one that its backend has.
    pub anchors-record_anchor :
        (c : Primitives) (db : Db) (cp : CheckpointRow)
        → db.anchors ≡ []
        → anchors json casts (record_anchor c json db cp r) (some r.backend) ≡ ok (sorted r ∷ [])
    unfolding anchors record_anchor has_anchor
    anchors-record_anchor c db cp none_yet =
        rw none_yet (rw (eq_refl r.backend) (rw from_json-to_json refl))
