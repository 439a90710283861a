-- ===== src/Crypto.antt =====
-- src/memory_blackbox/crypto: what the program takes from the packages `blake3` and
-- `cryptography`, and its own naming of digests, signatures and keys.
pub mod Hashing
pub mod Signing
pub mod Keys
pub mod KeyFiles
pub mod Saving
pub mod Toy
use memory_blackbox.Prelude.{ℕ, ◌≡◌, ◌≢◌, Bool, true, Bytes, length}
use memory_blackbox.Codec.Hex.{IsBytes}

-- The operations of the packages. A key is given by its raw bytes.
pub record Primitives : Type 0 where
  pub blake3 : Bytes → Bytes
  pub ed25519_public : Bytes → Bytes
  pub ed25519_sign : Bytes → Bytes → Bytes
  -- key, signature, message
  pub ed25519_verify : Bytes → Bytes → Bytes → Bool

-- Their documented behaviour: a digest has 32 bytes, and a signature made with a private key
-- verifies under its public key.
pub record IsSound (c : Primitives) : Type 0 where
  pub digest_bytes : (x : Bytes) → IsBytes (c.blake3 x)
  pub digest_size : (x : Bytes) → length (c.blake3 x) ≡ 32
  pub signature_bytes : (k m : Bytes) → IsBytes (c.ed25519_sign k m)
  pub sign_verifies :
      (k m : Bytes) → c.ed25519_verify (c.ed25519_public k) (c.ed25519_sign k m) m ≡ true

-- Two inputs of the hash function with one digest. Nothing is assumed about collisions: the
-- theorems say that a deceived check exhibits one.
pub record Collision (c : Primitives) : Type 0 where
  pub left : Bytes
  pub right : Bytes
  pub differ : left ≢ right
  pub same_digest : c.blake3 left ≡ c.blake3 right
