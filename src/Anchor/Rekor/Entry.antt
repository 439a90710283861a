-- ===== src/Anchor/Rekor/Entry.antt =====
-- What src/memory_blackbox/anchor/rekor.py reads out of the log's answers and entries.
use memory_blackbox.Prelude.{
  Bool, true, false, ◌++◌, Option, none, some, Text, Bytes, codes, if◌then◌else◌, Result, ok, err,
  Error, anchor_error, attribute_error, value_error, json_error, unicode_error, ◌>>=◌,
}
use memory_blackbox.Model.Json.{Json, Fields, bool, int, obj, end, field, get_field}
use memory_blackbox.Model.Values.{is_falsy}
use memory_blackbox.Query.BlastRadius.{is_text}
use memory_blackbox.Anchor.FileWitness.{text_of}
use memory_blackbox.Anchor.Rekor.Transport.{Packages}

-- `_single_entry`
unfoldable pub single_entry : Json → Result (Text × Fields)
single_entry (obj (field uuid (obj body) end)) = ok (uuid, body)
single_entry _ = err anchor_error

abbrev pub as_dict : Json → Result Fields
as_dict (obj fs) = ok fs
as_dict _ = err attribute_error

-- `d.get(key) or {}`, where a value without `get` follows an AttributeError at its use.
unfoldable pub dict_or_empty : Text → Fields → Result Fields
dict_or_empty key fs = elim (get_field key fs) [
  | none ↦ ok end
  | some v ↦ if is_falsy (some v) then ok end else as_dict v
]

abbrev pub prefixed_digest : Option Text → Option Text
prefixed_digest none = none
prefixed_digest (some value) = some (codes "sha256:" ++ value)

-- `_payload_hash_from_entry`, of a dict and of any value.
unfoldable pub rekord_hash : Fields → Result (Option Text)
rekord_hash fs = do
  spec ← dict_or_empty (codes "spec") fs
  data_part ← dict_or_empty (codes "data") spec
  digest ← dict_or_empty (codes "hash") data_part
  ok (
      if is_text (get_field (codes "algorithm") digest) (codes "sha256")
      then prefixed_digest (text_of (get_field (codes "value") digest))
      else none)

unfoldable pub payload_hash_from_entry : Json → Result (Option Text)
payload_hash_from_entry (obj fs) =
    if is_text (get_field (codes "kind") fs) (codes "rekord") then rekord_hash fs else ok none
payload_hash_from_entry _ = ok none

-- The errors that Python has below ValueError.
abbrev pub is_value_error : Error → Bool
is_value_error value_error = true
is_value_error json_error = true
is_value_error unicode_error = true
is_value_error _ = false

module _ (p : Packages) where
  abbrev pub hash_of_loaded : Result Json → Result (Option Text)
  hash_of_loaded (ok entry) = payload_hash_from_entry entry
  hash_of_loaded (err why) = if is_value_error why then ok none else err why

  abbrev pub hash_of_bytes : Option Bytes → Result (Option Text)
  hash_of_bytes none = ok none
  hash_of_bytes (some bytes) = hash_of_loaded (p.json_loads bytes)

  abbrev pub hash_of_body : Option Text → Result (Option Text)
  hash_of_body none = ok none
  hash_of_body (some b64) = hash_of_bytes (p.b64decode b64)

  -- `_payload_hash`
  unfoldable pub payload_hash : Fields → Result (Option Text)
  payload_hash body = hash_of_body (text_of (get_field (codes "body") body))

  -- `_integrated_at`, at the time `now`; a Boolean is an integer.
  unfoldable pub integrated_at : Text → Fields → Result Text
  integrated_at now body = elim (get_field (codes "integratedTime") body) [
    | none ↦ ok now
    | some v ↦ time_of v
  ]
    where
      time_of : Json → Result Text
      time_of (int n) = p.from_timestamp n
      time_of (bool true) = p.from_timestamp 1
      time_of (bool false) = p.from_timestamp 0
      time_of _ = ok now
