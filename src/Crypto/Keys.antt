-- ===== src/Crypto/Keys.antt =====
-- src/memory_blackbox/crypto/keys.py: the key pair and its derived key id. Files, the environment
-- and the random generator give the raw private key.
use memory_blackbox.Prelude.{Text, Bytes, take}
use memory_blackbox.Codec.Hex.{hex}
use memory_blackbox.Crypto.{Primitives}
use memory_blackbox.Crypto.Hashing.{b3_raw}
use memory_blackbox.Crypto.Signing.{sign}

pub record KeyPair : Type 0 where
  pub kid : Text
  pub private_key : Bytes
  pub public_key : Bytes

module _ (c : Primitives) where
  unfoldable pub kid_for : Bytes → Text
  kid_for public_key = take 16 (hex (b3_raw c public_key))

  unfoldable pub from_private_bytes : Bytes → KeyPair
  from_private_bytes raw =
      let public_key = c.ed25519_public raw in
      record { kid = kid_for public_key; private_key = raw; public_key = public_key }

  -- `KeyPair.sign`
  unfoldable pub sign_with : KeyPair → Bytes → Text
  sign_with key message = sign c message key.private_key
