-- ===== src/Crypto/Signing.antt =====
-- src/memory_blackbox/crypto/signing.py. `verify` is total: each malformed signature is `false`.
use memory_blackbox.Prelude.{◌≡◌, Bool, true, false, Option, none, some, ◌++◌, Text, Bytes, codes}
use memory_blackbox.Codec.Hex.{hex, fromhex, fromhex-hex}
use memory_blackbox.Codec.Prefix.{strip_prefix, strip_prefix-append}
use memory_blackbox.Crypto.{Primitives, IsSound}

abbrev pub sig_prefix : Text
sig_prefix = codes "ed25519:"

module _ (c : Primitives) where
  unfoldable pub sign : Bytes → Bytes → Text
  sign message private_key = sig_prefix ++ hex (c.ed25519_sign private_key message)

  verify_raw : Bytes → Option Bytes → Bytes → Bool
  verify_raw message none public_key = false
  verify_raw message (some raw) public_key = c.ed25519_verify public_key raw message

  verify_rest : Bytes → Option Text → Bytes → Bool
  unfolding verify_raw
  verify_rest message none public_key = false
  verify_rest message (some rest) public_key = verify_raw message (fromhex rest) public_key

  unfoldable pub verify : Bytes → Text → Bytes → Bool
  unfolding verify_rest
  verify message signature public_key =
      verify_rest message (strip_prefix sig_prefix signature) public_key

  -- A signature that `sign` makes is accepted under the public key of its private key.
  pub verify-sign :
      IsSound c
      → (message private_key : Bytes)
      → verify message (sign message private_key) (c.ed25519_public private_key) ≡ true
  unfolding verify sign
  verify-sign sound message private_key =
      let raw = c.ed25519_sign private_key message in
      rw (strip_prefix-append sig_prefix (hex raw)) (
        rw (fromhex-hex raw (sound.signature_bytes private_key message))
          (sound.sign_verifies private_key message))
