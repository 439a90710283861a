-- ===== src/Crypto/Toy.antt =====
-- Concrete primitives for the tests and witnesses, with the behaviour that the packages document.
-- They are of no cryptographic worth.
use memory_blackbox.Prelude.{
  ℕ, zero, suc, ◌+◌, ◌*◌, ◌%◌, ◌≡◌, refl, [], ◌∷◌, ◌++◌, arith, Bytes, length, ◌==◌, eq_refl,
}
use memory_blackbox.Codec.Hex.{IsBytes}
use memory_blackbox.Crypto.{Primitives, IsSound}

-- Thirty-two bytes from a running sum.
fill : ℕ → ℕ → Bytes
fill zero n = []
fill (suc k) n = (n % 256) ∷ fill k (n * 3 + 1)

mix : ℕ → Bytes → ℕ
mix n [] = n
mix n (b ∷ bs) = mix ((n * 31 + b + 7) % 65521) bs

unfoldable pub digest : Bytes → Bytes
unfolding fill mix
digest x = fill 32 (mix 1 x)

unfoldable pub signature : Bytes → Bytes → Bytes
unfolding digest
signature k m = digest (k ++ m)

abbrev pub toy : Primitives
toy = record {
  blake3 = digest;
  ed25519_public = λ k. k;
  ed25519_sign = signature;
  ed25519_verify = λ k s m. signature k m == s;
}

fill-IsBytes : (k n : ℕ) → IsBytes (fill k n)
unfolding fill
fill-IsBytes zero n = tt
fill-IsBytes (suc k) n = (omega arith, fill-IsBytes k (n * 3 + 1))

length-fill : (k n : ℕ) → length (fill k n) ≡ k
unfolding fill
length-fill zero n = refl
length-fill (suc k) n = omega (arith, length-fill k (n * 3 + 1))

pub toy-IsSound : IsSound toy
unfolding digest signature
toy-IsSound = record {
  digest_bytes = λ x. fill-IsBytes 32 (mix 1 x);
  digest_size = λ x. length-fill 32 (mix 1 x);
  signature_bytes = λ k m. fill-IsBytes 32 (mix 1 (k ++ m));
  sign_verifies = λ k m. eq_refl (signature k m);
}
