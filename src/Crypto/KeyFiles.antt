-- ===== src/Crypto/KeyFiles.antt =====
-- Key files of src/memory_blackbox/crypto/keys.py. The file system is a function from paths to
-- files, without directories; `json` and the reading of text files are parameters.
use memory_blackbox.Prelude.{
  ℕ, ◌*◌, [], ◌∷◌, Option, none, some, Text, Bytes, codes, ◌==◌, length, nat_eq, if◌then◌else◌,
  Result, ok, err, value_error, key_error, type_error, json_error, os_error, ◌>>=◌,
}
use memory_blackbox.Codec.Hex.{hex, fromhex}
use memory_blackbox.Codec.Utf8.{utf8}
use memory_blackbox.Crypto.{Primitives}
use memory_blackbox.Crypto.Keys.{KeyPair, from_private_bytes}
use memory_blackbox.Model.Json.{Json, Fields, int, str, obj, end, field, get_field}

-- A regular file: its permission bits and its content.
pub record File : Type 0 where
  pub mode : ℕ
  pub content : Bytes

abbrev pub FileSystem : Type 0
FileSystem = Text → Option File

-- The package json, and `Path.read_text(encoding="utf-8")` on the bytes of a file.
pub record FileFormat : Type 0 where
  pub dumps : Json → Text
  pub loads : Text → Option Json
  pub read_text : Bytes → Result Text

-- 0o600
abbrev pub owner_only : ℕ
owner_only = 6 * 64

abbrev pub put : Text → File → FileSystem → FileSystem
put path file fs other = if other == path then some file else fs other

-- `os.open` with O_WRONLY, O_CREAT and O_TRUNC: a file that exists keeps its mode.
abbrev pub truncated : Option File → File
truncated none = record { mode = owner_only; content = [] }
truncated (some file) = record file { content = [] }

unfoldable pub os_open : Text → FileSystem → FileSystem
os_open path fs = put path (truncated (fs path)) fs

abbrev pub map_file : (File → File) → Text → FileSystem → FileSystem
map_file change path fs = elim (fs path) [ none ↦ fs | some file ↦ put path (change file) fs ]

-- `os.write` of the whole payload into the empty file, and `os.chmod`.
unfoldable pub os_write : Bytes → Text → FileSystem → FileSystem
os_write payload = map_file (λ file. record file { content = payload })

unfoldable pub os_chmod : ℕ → Text → FileSystem → FileSystem
os_chmod mode = map_file (λ file. record file { mode = mode })

unfoldable pub key_fields : KeyPair → Fields
key_fields key = field (codes "version") (int 1) (
    field (codes "kid") (str key.kid) (field (codes "private_key") (str (hex key.private_key)) end))

module _ (c : Primitives) where
  -- `_from_private_bytes` with the check of the length that `cryptography` makes.
  unfoldable pub key_of_bytes : Option Bytes → Result KeyPair
  key_of_bytes none = err value_error
  key_of_bytes (some raw) =
      if nat_eq (length raw) 32 then ok (from_private_bytes c raw) else err value_error

  -- `load_from_env`, of the variable's value.
  unfoldable pub load_from_env : Option Text → Result KeyPair
  load_from_env none = err key_error
  load_from_env (some []) = err key_error
  load_from_env (some (x ∷ s)) = key_of_bytes (fromhex (x ∷ s))

module _ (format : FileFormat) where
  abbrev pub key_payload : KeyPair → Bytes
  key_payload key = utf8 (format.dumps (obj (key_fields key)))

  -- The file system after each step of `save`.
  unfoldable pub save_steps : KeyPair → Text → FileSystem → FileSystem × FileSystem × FileSystem
  save_steps key path fs =
      let opened = os_open path fs in
      let filled = os_write (key_payload key) path opened in
      (opened, filled, os_chmod owner_only path filled)

  unfoldable pub save : KeyPair → Text → FileSystem → FileSystem
  save key path fs = (save_steps key path fs).2

  module _ (c : Primitives) where
    abbrev pub key_of_value : Option Json → Result KeyPair
    key_of_value none = err key_error
    key_of_value (some (str s)) = key_of_bytes c (fromhex s)
    key_of_value (some _) = err type_error

    abbrev pub key_of_json : Option Json → Result KeyPair
    key_of_json none = err json_error
    key_of_json (some (obj fs)) = key_of_value (get_field (codes "private_key") fs)
    key_of_json (some _) = err type_error

    abbrev pub key_of_file : Option File → Result KeyPair
    key_of_file none = err os_error
    key_of_file (some file) = do
      text ← format.read_text file.content
      key_of_json (format.loads text)

    unfoldable pub load : Text → FileSystem → Result KeyPair
    load path fs = key_of_file (fs path)
