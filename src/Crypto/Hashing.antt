-- ===== src/Crypto/Hashing.antt =====
-- src/memory_blackbox/crypto/hashing.py
use memory_blackbox.Prelude.{
  ◌≡◌, ◌⊎◌, inl, inr, ◌++◌, arith, Text, Bytes, codes, eq_cases, length, All, All-append, ◌<◌,
}
use memory_blackbox.Codec.Hex.{hex, hex-injective, length-hex, hex-ascii}
use memory_blackbox.Crypto.{Primitives, IsSound, Collision}

abbrev pub hash_prefix : Text
hash_prefix = codes "blake3:"

module _ (c : Primitives) where
  unfoldable pub b3_raw : Bytes → Bytes
  b3_raw bytes = c.blake3 bytes

  unfoldable pub b3 : Bytes → Text
  b3 bytes = hash_prefix ++ hex (c.blake3 bytes)

  -- Equal digests come from equal inputs, or are a collision.
  pub digest_binds : (x y : Bytes) → b3_raw x ≡ b3_raw y → (x ≡ y) ⊎ Collision c
  unfolding b3_raw
  digest_binds x y e = elim (eq_cases x y) [
    | inl same ↦ inl same
    | inr other ↦ inr (record { left = x; right = y; differ = other; same_digest = e })
  ]

  module _ (sound : IsSound c) where
    pub b3-eq_raw : (x y : Bytes) → b3 x ≡ b3 y → b3_raw x ≡ b3_raw y
    unfolding b3 b3_raw
    b3-eq_raw x y e =
        hex-injective (c.blake3 x) (c.blake3 y) (sound.digest_bytes x) (sound.digest_bytes y) (cc)

    pub b3_binds : (x y : Bytes) → b3 x ≡ b3 y → (x ≡ y) ⊎ Collision c
    b3_binds x y e = digest_binds x y (b3-eq_raw x y e)

    pub length-b3 : (x : Bytes) → length (b3 x) ≡ 71
    unfolding b3
    length-b3 x = omega (arith, length-hex (c.blake3 x), sound.digest_size x)

    pub b3_ascii : (x : Bytes) → All (λ d. d < 128) (b3 x)
    unfolding b3
    b3_ascii x =
        All-append (λ d. d < 128) hash_prefix (hex (c.blake3 x)) (omega arith)
          (hex-ascii (c.blake3 x) (sound.digest_bytes x))
