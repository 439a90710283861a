-- ===== src/Codec/Hex.antt =====
-- `bytes.hex()` and `bytes.fromhex()`.
use memory_blackbox.Prelude.{
  ℕ, ◌+◌, ◌-◌, ◌*◌, ◌/◌, ◌%◌, ◌<◌, ◌≡◌, refl, ap, ◌∙◌, Bool, false, ◌&&◌, ◌||◌, Option, none, some,
  [], ◌∷◌, arith, Text, Bytes, All, leb, ltb, nat_eq, if◌then◌else◌, length,
}

-- A lower-case hexadecimal digit.
abbrev pub hex_digit : ℕ → ℕ
hex_digit n = if ltb n 10 then 48 + n else 87 + n

-- `raw.hex()`
unfoldable pub hex : Bytes → Text
hex [] = []
hex (b ∷ bs) = hex_digit (b / 16) ∷ hex_digit (b % 16) ∷ hex bs

-- The value of a hexadecimal digit of either case.
unfoldable pub nibble : ℕ → Option ℕ
nibble c =
    if leb 48 c && leb c 57
    then some (c - 48)
    else if leb 97 c && leb c 102
    then some (c - 87)
    else if leb 65 c && leb c 70
    then some (c - 55)
    else none

-- ASCII whitespace, which `fromhex` skips between two bytes.
unfoldable pub is_space : ℕ → Bool
is_space c = nat_eq c 32 || leb 9 c && leb c 13

abbrev byte_of : Option ℕ → Option ℕ → Option Bytes → Option Bytes
byte_of (some h) (some l) (some bs) = some ((16 * h + l) ∷ bs)
byte_of _ _ _ = none

-- `bytes.fromhex(s)`, with `none` for its `ValueError`.
unfoldable pub fromhex : Text → Option Bytes
unfolding nibble is_space
fromhex [] = some []
fromhex (c ∷ []) = if is_space c then some [] else none
fromhex (c ∷ d ∷ s) =
    let skip = fromhex (d ∷ s) in
    let pair = byte_of (nibble c) (nibble d) (fromhex s) in if is_space c then skip else pair

abbrev pub IsBytes : Bytes → Type 0
IsBytes = All (λ b. b < 256)

nibble-hex_digit : (n : ℕ) → n < 16 → nibble (hex_digit n) ≡ some n
unfolding nibble
nibble-hex_digit n h = ground arith

is_space-hex_digit : (n : ℕ) → n < 16 → is_space (hex_digit n) ≡ false
unfolding is_space
is_space-hex_digit n h = ground arith

pair-hex_digit :
    (b : ℕ) (s : Text)
    → b < 256
    → fromhex (hex_digit (b / 16) ∷ hex_digit (b % 16) ∷ s)
      ≡ byte_of (some (b / 16)) (some (b % 16)) (fromhex s)
unfolding fromhex
pair-hex_digit b s h =
    rw (is_space-hex_digit (b / 16) (omega arith))
      (rw (nibble-hex_digit (b / 16) (omega arith)) (rw (nibble-hex_digit (b % 16) (omega arith))))

-- Byte strings survive the round trip through hexadecimal text.
pub fromhex-hex : (bs : Bytes) → IsBytes bs → fromhex (hex bs) ≡ some bs
unfolding hex
fromhex-hex [] h = unfold fromhex in refl
fromhex-hex (b ∷ bs) h =
    pair-hex_digit b (hex bs) h.0 ∙ rw (fromhex-hex bs h.1) (ap (λ v. some (v ∷ bs)) (omega arith))

pub hex-injective : (xs ys : Bytes) → IsBytes xs → IsBytes ys → hex xs ≡ hex ys → xs ≡ ys
hex-injective xs ys hx hy e = ground (arith, fromhex-hex xs, fromhex-hex ys)

pub length-hex : (bs : Bytes) → length (hex bs) ≡ 2 * length bs
unfolding hex
length-hex [] = refl
length-hex (b ∷ bs) = omega (arith, length-hex bs)

digit_ascii : (n : ℕ) → n < 16 → hex_digit n < 128
digit_ascii n h = ground arith

pub hex-ascii : (bs : Bytes) → IsBytes bs → All (λ c. c < 128) (hex bs)
unfolding hex
hex-ascii [] h = tt
hex-ascii (b ∷ bs) h =
    (digit_ascii (b / 16) (omega arith), (digit_ascii (b % 16) (omega arith), hex-ascii bs h.1))
