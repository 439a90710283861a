-- ===== src/Codec/Utf8.antt =====
-- `str.encode("utf-8")`, a text without surrogates given as its code points.
use memory_blackbox.Prelude.{
  ℕ, ◌+◌, ◌/◌, ◌%◌, ◌<◌, ◌≡◌, ◌≢◌, refl, sym, [], ◌∷◌, ◌++◌, arith, append_assoc, Text, Bytes, ltb,
  if◌then◌else◌, All,
}

-- The bytes of one code point.
utf8_char : ℕ → Bytes
utf8_char c =
    if ltb c 128
    then c ∷ []
    else if ltb c 2048
    then (192 + c / 64) ∷ (128 + c % 64) ∷ []
    else if ltb c 65536
    then (224 + c / 4096) ∷ (128 + c / 64 % 64) ∷ (128 + c % 64) ∷ []
    else (240 + c / 262144) ∷ (128 + c / 4096 % 64) ∷ (128 + c / 64 % 64) ∷ (128 + c % 64) ∷ []

unfoldable pub utf8 : Text → Bytes
unfolding utf8_char
utf8 [] = []
utf8 (c ∷ s) = utf8_char c ++ utf8 s

char_cancel :
    (a b : ℕ) (xs ys : Bytes) → utf8_char a ++ xs ≡ utf8_char b ++ ys → (a ≡ b) × (xs ≡ ys)
unfolding utf8_char
char_cancel a b xs ys e = ground arith

char_nonempty : (a : ℕ) (xs : Bytes) → utf8_char a ++ xs ≢ []
unfolding utf8_char
char_nonempty a xs e = ground arith

pub utf8-append : (s t : Text) → utf8 (s ++ t) ≡ utf8 s ++ utf8 t
unfolding utf8
utf8-append [] t = refl
utf8-append (c ∷ s) t = simp (utf8-append s t, append_assoc)

-- Different texts have different encodings.
pub utf8-injective : (s t : Text) → utf8 s ≡ utf8 t → s ≡ t
unfolding utf8
utf8-injective [] [] e = refl
utf8-injective [] (d ∷ t) e = absurd (char_nonempty d (utf8 t) (sym e))
utf8-injective (c ∷ s) [] e = absurd (char_nonempty c (utf8 s) e)
utf8-injective (c ∷ s) (d ∷ t) e =
    let (p, q) = char_cancel c d (utf8 s) (utf8 t) e in cc (p, utf8-injective s t q)

-- ASCII text is its own encoding.
pub utf8-ascii : (s : Text) → All (λ c. c < 128) s → utf8 s ≡ s
unfolding utf8
utf8-ascii [] h = refl
utf8-ascii (c ∷ s) h = ground (arith, utf8-ascii s)
