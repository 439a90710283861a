-- ===== src/Tests/Keys.antt =====
-- Runs of the key files.
use memory_blackbox.Prelude.{
  ◌≡◌, ◌≢◌, none, Text, refl, [], ◌∷◌, some, Bytes, codes, length, ok, arith,
}
use memory_blackbox.Codec.Hex.{hex, IsBytes}
use memory_blackbox.Codec.Utf8.{utf8}
use memory_blackbox.Crypto.Toy.{toy}
use memory_blackbox.Crypto.Keys.{KeyPair, from_private_bytes}
use memory_blackbox.Model.Json.{obj}
use memory_blackbox.Crypto.KeyFiles.{
  File, FileSystem, FileFormat, key_payload, key_fields, save_steps, save, load, load_from_env,
}
use memory_blackbox.Crypto.Saving.{IsFaithful, save_steps-modes, load-save}
use memory_blackbox.Tests.Codec.{plain, decode, decode-plain}

abbrev format : FileFormat
format = record { dumps = plain; loads = decode; read_text = λ bytes. ok bytes }

-- Thirty-two bytes.
abbrev raw : Bytes
raw =
    1 ∷ 2 ∷ 3 ∷ 4 ∷ 5 ∷ 6 ∷ 7 ∷ 8 ∷ 9 ∷ 10 ∷ 11 ∷ 12 ∷ 13 ∷ 14 ∷ 15 ∷ 16 ∷ 17 ∷ 18 ∷ 19 ∷ 20 ∷ 21
    ∷ 22 ∷ 23 ∷ 24 ∷ 25 ∷ 26 ∷ 27 ∷ 28 ∷ 29 ∷ 30 ∷ 31 ∷ 32 ∷ []

abbrev key : KeyPair
key = from_private_bytes toy raw

-- A file that others can read.
abbrev open_file : File
open_file = record { mode = 420; content = [] }

abbrev disk : FileSystem
disk path = some open_file

raw-IsBytes : IsBytes raw
raw-IsBytes = ground arith

raw_size : length raw ≡ 32
raw_size = refl

format-IsFaithful : IsFaithful format (obj (key_fields key))
unfolding plain utf8 key_fields hex from_private_bytes memory_blackbox.Crypto.Keys.kid_for
    memory_blackbox.Crypto.Hashing.b3_raw memory_blackbox.Crypto.Toy.digest
format-IsFaithful = record { loads_dumps = decode-plain (obj (key_fields key)); reads_dumps = refl }

save_steps-modes_example :
    (disk (codes "k") ≡ none
      → ((save_steps format key (codes "k") disk).0 (codes "k")
          ≡ some (record { mode = 384; content = [] }))
        × ((save_steps format key (codes "k") disk).1 (codes "k")
            ≡ some (record { mode = 384; content = key_payload format key })))
    × ((file : File)
        → disk (codes "k") ≡ some file
        → ((save_steps format key (codes "k") disk).0 (codes "k")
            ≡ some (record { mode = file.mode; content = [] }))
          × ((save_steps format key (codes "k") disk).1 (codes "k")
              ≡ some (record { mode = file.mode; content = key_payload format key })))
    × (save format key (codes "k") disk (codes "k")
        ≡ some (record { mode = 384; content = key_payload format key }))
    × ((other : Text) → other ≢ codes "k" → save format key (codes "k") disk other ≡ disk other)
save_steps-modes_example = save_steps-modes format key (codes "k") disk

load-save_example :
    (load format toy (codes "k") (save format key (codes "k") disk) ≡ ok key)
    × (load_from_env toy (some (hex raw)) ≡ ok key)
load-save_example = load-save format toy raw (codes "k") disk format-IsFaithful raw-IsBytes raw_size
