-- ===== src/Model/Ids.antt =====
-- src/memory_blackbox/model/ids.py: UUIDv7 values as 128-bit numbers. The clock's milliseconds and
-- the 80 random bits of `os.urandom(10)` come in as numbers.
use memory_blackbox.Prelude.{
  ℕ, ◌+◌, ◌-◌, ◌*◌, ◌/◌, ◌%◌, ◌^◌, ◌≤◌, ◌<◌, ◌≡◌, List, [], ◌∷◌, Option, none, some, arith, leb,
  ltb, length, All, if◌then◌else◌,
}

abbrev pub rand_mask : ℕ
rand_mask = 2 ^ 74 - 1

-- `_compose`: fields that do not overlap, so that `|` adds them.
unfoldable pub compose : ℕ → ℕ → ℕ
compose ms rand =
    let rand_a = rand / 2 ^ 62 % 2 ^ 12 in
    let rand_b = rand % 2 ^ 62 in
    ms % 2 ^ 48 * 2 ^ 80 + 7 * 2 ^ 76 + rand_a * 2 ^ 64 + 2 * 2 ^ 62 + rand_b

-- `_last_ms` and `_last_rand`; `none` stands for the initial -1.
pub record IdState : Type 0 where
  pub last_ms : Option ℕ
  pub last_rand : ℕ

abbrev pub initial : IdState
initial = record { last_ms = none; last_rand = 0 }

-- `int.from_bytes(os.urandom(10), "big") >> (80 - _RAND_BITS)`
abbrev pub draw_rand : ℕ → ℕ
draw_rand noise = noise / 2 ^ 6

-- The millisecond and the random field of the next id.
unfoldable pub advance : IdState → ℕ → ℕ → ℕ × ℕ
advance s clock noise = elim s.last_ms [
  | none ↦ (clock, draw_rand noise)
  | some last ↦
      if leb clock last
      then (if ltb rand_mask (s.last_rand + 1)
          then (last + 1, draw_rand noise)
          else (last, s.last_rand + 1))
      else (clock, draw_rand noise)
]

-- `uuid7`
unfoldable pub uuid7 : IdState → ℕ → ℕ → ℕ × IdState
uuid7 s clock noise =
    let next = advance s clock noise in
    (compose next.0 next.1, record { last_ms = some next.0; last_rand = next.1 })

-- The ids of a run, each from a reading of the clock and of the random source.
unfoldable pub mint : IdState → List (ℕ × ℕ) → List ℕ
mint s [] = []
mint s ((clock, noise) ∷ draws) = let next = uuid7 s clock noise in next.0 ∷ mint next.1 draws

-- An id holds the version 7 and the variant 2 in their bits and the milliseconds modulo 2^48 above
-- them, and is below 2^128.
pub compose_fields :
    (ms rand : ℕ)
    → (compose ms rand / 2 ^ 76 % 16 ≡ 7)
      × (compose ms rand / 2 ^ 62 % 4 ≡ 2)
      × (compose ms rand / 2 ^ 80 ≡ ms % 2 ^ 48)
      × (compose ms rand < 2 ^ 128)
unfolding compose
compose_fields ms rand = omega arith

compose_mono_ms :
    (m n r s : ℕ) → m < n → n < 2 ^ 48 → r < 2 ^ 74 → s < 2 ^ 74 → compose m r < compose n s
unfolding compose
compose_mono_ms m n r s h k p q = omega arith

compose_mono_rand : (m r s : ℕ) → r < s → s < 2 ^ 74 → compose m r < compose m s
unfolding compose
compose_mono_rand m r s h q = omega arith

-- What is known of a state after its last id: its fields are in range.
abbrev pub InRange : IdState → ℕ → Type 0
InRange s limit = (s.last_rand < 2 ^ 74) × elim s.last_ms [ none ↦ Unit | some last ↦ last ≤ limit ]

abbrev pub IsIncreasing : List ℕ → Type 0
IsIncreasing [] = Unit
IsIncreasing (x ∷ []) = Unit
IsIncreasing (x ∷ y ∷ xs) = (x < y) × IsIncreasing (y ∷ xs)

advance-InRange :
    (s : IdState) (clock noise limit : ℕ)
    → InRange s limit
    → clock ≤ limit
    → noise < 2 ^ 80
    → ((advance s clock noise).0 ≤ limit + 1) × ((advance s clock noise).1 < 2 ^ 74)
unfolding advance
advance-InRange s clock noise limit h k n = ground arith

-- The next id is greater than the one that the state remembers.
advance_grows :
    (last rand clock noise limit : ℕ)
    → rand < 2 ^ 74
    → last ≤ limit
    → clock ≤ limit
    → noise < 2 ^ 80
    → limit + 1 < 2 ^ 48
    → compose last rand
      < compose
          (advance (record { last_ms = some last; last_rand = rand }) clock noise).0
          (advance (record { last_ms = some last; last_rand = rand }) clock noise).1
unfolding advance
advance_grows last rand clock noise limit r l k n h = ground (
  arith,
  compose_mono_ms last clock rand (draw_rand noise),
  compose_mono_ms last (last + 1) rand (draw_rand noise),
  compose_mono_rand last rand (rand + 1),
)

mint-IsIncreasing_from :
    (last rand limit : ℕ) (draws : List (ℕ × ℕ))
    → rand < 2 ^ 74
    → last ≤ limit
    → limit + length draws < 2 ^ 48
    → All (λ (d : ℕ × ℕ). (d.0 ≤ limit) × (d.1 < 2 ^ 80)) draws
    → IsIncreasing
        (compose last rand ∷ mint (record { last_ms = some last; last_rand = rand }) draws)
unfolding mint uuid7
mint-IsIncreasing_from last rand limit [] r l k a = tt
mint-IsIncreasing_from last rand limit ((clock, noise) ∷ draws) r l k a =
    let s : IdState = record { last_ms = some last; last_rand = rand } in
    let next = advance s clock noise in
    let fields = advance-InRange s clock noise limit (r, l) a.0.0 a.0.1 in
    (
      advance_grows last rand clock noise limit r l a.0.0 a.0.1 (omega arith),
      mint-IsIncreasing_from next.0 next.1 (limit + 1) draws fields.1 fields.0 (omega arith)
          (weaken draws a.1),
    )
  where
    weaken :
        (ds : List (ℕ × ℕ))
        → All (λ (d : ℕ × ℕ). (d.0 ≤ limit) × (d.1 < 2 ^ 80)) ds
        → All (λ (d : ℕ × ℕ). (d.0 ≤ limit + 1) × (d.1 < 2 ^ 80)) ds
    weaken [] h = tt
    weaken (d ∷ ds) h = ((omega arith, h.0.1), weaken ds h.1)

-- The ids of one process strictly increase, also under a clock that stands still or goes back, when
-- every draw has 80 bits and a bound on the readings of the clock plus the number of ids is below
-- 2^48 milliseconds.
pub mint-IsIncreasing :
    (limit : ℕ) (draws : List (ℕ × ℕ))
    → limit + length draws < 2 ^ 48
    → All (λ (d : ℕ × ℕ). (d.0 ≤ limit) × (d.1 < 2 ^ 80)) draws
    → IsIncreasing (mint initial draws)
unfolding mint uuid7 advance
mint-IsIncreasing limit [] k a = tt
mint-IsIncreasing limit ((clock, noise) ∷ draws) k a =
    mint-IsIncreasing_from clock (draw_rand noise) limit draws (omega arith) a.0.0 (omega arith) a.1
