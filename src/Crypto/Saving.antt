-- ===== src/Crypto/Saving.antt =====
-- A saved key is loaded again, and the modes that its file has on the way.
use memory_blackbox.Prelude.{
  ◌≡◌, ◌≢◌, ℕ, none, Option, eq_iff, refl, ◌∙◌, [], ◌∷◌, some, arith, Text, Bytes, codes, ◌==◌,
  eq_refl, length, ok,
}
use memory_blackbox.Codec.Hex.{IsBytes, hex, fromhex, fromhex-hex}
use memory_blackbox.Codec.Utf8.{utf8}
use memory_blackbox.Crypto.{Primitives}
use memory_blackbox.Crypto.Keys.{KeyPair, from_private_bytes}
use memory_blackbox.Model.Json.{Json, obj, str, get_field}
use memory_blackbox.Crypto.KeyFiles.{
  File, FileSystem, FileFormat, owner_only, truncated, key_payload, key_fields, put, map_file,
  os_open, os_write, os_chmod, save_steps, save, load, key_of_bytes, load_from_env,
}

-- The documented behaviour of the packages on a value: a dumped value is read back, and the text
-- that was written, which has its control characters escaped, is the text that is read.
pub record IsFaithful (format : FileFormat) (v : Json) : Type 0 where
  pub loads_dumps : format.loads (format.dumps v) ≡ some v
  pub reads_dumps : format.read_text (utf8 (format.dumps v)) ≡ ok (format.dumps v)

put-same : (path : Text) (file : File) (fs : FileSystem) → put path file fs path ≡ some file
put-same path file fs = rw (eq_refl path) refl

map_file-at :
    (change : File → File) (path : Text) (fs : FileSystem) (file : File)
    → fs path ≡ some file
    → map_file change path fs path ≡ some (change file)
map_file-at change path fs file e = rw (map_file, e) (put-same path (change file) fs)

module _ (c : Primitives) (raw : Bytes) (bytes : IsBytes raw) (size : length raw ≡ 32) where
  key_of_bytes-hex : key_of_bytes c (fromhex (hex raw)) ≡ ok (from_private_bytes c raw)
  unfolding key_of_bytes
  key_of_bytes-hex = rw (fromhex-hex raw bytes) (ground arith)

load_from_env-hex :
    (c : Primitives) (raw : Bytes)
    → length raw ≡ 32
    → load_from_env c (some (hex raw)) ≡ key_of_bytes c (fromhex (hex raw))
unfolding load_from_env hex
load_from_env-hex c [] size = absurd (omega arith)
load_from_env-hex c (b ∷ raw) size = refl

put-other :
    (path other : Text) (file : File) (fs : FileSystem)
    → other ≢ path
    → put path file fs other ≡ fs other
put-other path other file fs h = ground (arith, eq_iff other path)

map_file-other :
    (change : File → File) (path other : Text) (fs : FileSystem)
    → other ≢ path
    → map_file change path fs other ≡ fs other
map_file-other change path other fs h = at (fs path) refl
  where
    at : (found : Option File) → fs path ≡ found → map_file change path fs other ≡ fs other
    at none e = rw (map_file, e) refl
    at (some file) e = rw (map_file, e) (put-other path other (change file) fs h)

module _ (format : FileFormat) (key : KeyPair) (path : Text) (fs : FileSystem) where
  -- The steps of `save` when the opened file has a mode.
  save_steps-opened :
      (mode : ℕ)
      → os_open path fs path ≡ some (record { mode = mode; content = [] })
      → ((save_steps format key path fs).1 path
          ≡ some (record { mode = mode; content = key_payload format key }))
        × (save format key path fs path
            ≡ some (record { mode = 384; content = key_payload format key }))
  unfolding save_steps save os_write os_chmod
  save_steps-opened mode opened =
      let payload = key_payload format key in
      let filled =
        map_file-at (λ file. record file { content = payload }) path (os_open path fs) _ opened in
      (
        filled,
        map_file-at (λ file. record file { mode = owner_only }) path
            (os_write payload path (os_open path fs)) _ filled,
      )

  created : fs path ≡ none → os_open path fs path ≡ some (record { mode = 384; content = [] })
  unfolding os_open
  created missing = rw (missing, eq_refl path) refl

  reopened :
      (file : File)
      → fs path ≡ some file
      → os_open path fs path ≡ some (record { mode = file.mode; content = [] })
  unfolding os_open
  reopened file found = rw (found, eq_refl path) refl

  saved :
      (found : Option File)
      → fs path ≡ found
      → save format key path fs path
        ≡ some (record { mode = 384; content = key_payload format key })
  saved none e = (save_steps-opened 384 (created e)).1
  saved (some file) e = (save_steps-opened file.mode (reopened file e)).1

  kept : (other : Text) → other ≢ path → save format key path fs other ≡ fs other
  unfolding save save_steps os_chmod os_write os_open
  kept other apart =
      let fill = λ (file : File). record file { content = key_payload format key } in
      let close = λ (file : File). record file { mode = owner_only } in
      let opened : FileSystem = put path (truncated (fs path)) fs in
      map_file-other close path other (map_file fill path opened) apart
      ∙ map_file-other fill path other opened apart
      ∙ put-other path other (truncated (fs path)) fs apart

  -- The mode of a key's file while `save` runs. A file that did not exist is created with the mode
  -- 384, which is 0600, and has this mode when the key is written into it. A file that existed is
  -- emptied and has its old mode, whatever that is, when the key is written into it. In the end the
  -- file has the mode 384 and holds the key, and every other path is as before.
  pub save_steps-modes :
      (fs path ≡ none
        → ((save_steps format key path fs).0 path ≡ some (record { mode = 384; content = [] }))
          × ((save_steps format key path fs).1 path
              ≡ some (record { mode = 384; content = key_payload format key })))
      × ((file : File)
          → fs path ≡ some file
          → ((save_steps format key path fs).0 path
              ≡ some (record { mode = file.mode; content = [] }))
            × ((save_steps format key path fs).1 path
                ≡ some (record { mode = file.mode; content = key_payload format key })))
      × (save format key path fs path
          ≡ some (record { mode = 384; content = key_payload format key }))
      × ((other : Text) → other ≢ path → save format key path fs other ≡ fs other)
  save_steps-modes = (
    λ missing. (unfold save_steps in created missing, (save_steps-opened 384 (created missing)).0),
    λ file found. (
      unfold save_steps in reopened file found,
      (save_steps-opened file.mode (reopened file found)).0,
    ),
    saved (fs path) refl,
    kept,
  )

module _ (format : FileFormat) where
  private_field :
      (c : Primitives) (raw : Bytes)
      → get_field (codes "private_key") (key_fields (from_private_bytes c raw))
        ≡ some (str (hex raw))
  unfolding get_field key_fields ◌==◌ from_private_bytes
  private_field c raw = refl

  -- A key of 32 bytes that is saved to a file is what `load` returns from it, and what
  -- `load_from_env` returns for its private key in hexadecimal digits.
  pub load-save :
      (c : Primitives)
      → (raw : Bytes) (path : Text) (fs : FileSystem)
      → IsFaithful format (obj (key_fields (from_private_bytes c raw)))
      → IsBytes raw
      → length raw ≡ 32
      → (load format c path (save format (from_private_bytes c raw) path fs)
          ≡ ok (from_private_bytes c raw))
        × (load_from_env c (some (hex raw)) ≡ ok (from_private_bytes c raw))
  load-save c raw path fs laws bytes size =
      let key = from_private_bytes c raw in
      let (_, _, stored, _) = save_steps-modes format key path fs in
      (
        (unfold load in
            rw stored (
              rw laws.reads_dumps (
                rw laws.loads_dumps
                  (rw (private_field c raw) (key_of_bytes-hex c raw bytes size))))),
        load_from_env-hex c raw size ∙ key_of_bytes-hex c raw bytes size,
      )
