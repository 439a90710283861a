-- ===== src/Codec/Prefix.antt =====
-- `s.startswith(p)` with the slice `s[len(p):]`, and `s.removeprefix(p)`.
use memory_blackbox.Prelude.{
  ◌≡◌, refl, Option, none, some, [], ◌∷◌, ◌++◌, arith, Text, nat_eq, if◌then◌else◌,
}

-- The rest after the prefix, `none` if the text does not start with it.
unfoldable pub strip_prefix : Text → Text → Option Text
strip_prefix [] s = some s
strip_prefix (p ∷ ps) [] = none
strip_prefix (p ∷ ps) (c ∷ s) = let rest = strip_prefix ps s in if nat_eq p c then rest else none

unfoldable pub removeprefix : Text → Text → Text
unfolding strip_prefix
removeprefix p s = elim (strip_prefix p s) [ none ↦ s | some rest ↦ rest ]

pub strip_prefix-append : (p s : Text) → strip_prefix p (p ++ s) ≡ some s
unfolding strip_prefix
strip_prefix-append [] s = refl
strip_prefix-append (c ∷ p) s = ground (arith, strip_prefix-append p s)

pub removeprefix-append : (p s : Text) → removeprefix p (p ++ s) ≡ s
unfolding removeprefix
removeprefix-append p s = ground (arith, strip_prefix-append p s)

pub strip_prefix_sound : (p s t : Text) → strip_prefix p s ≡ some t → s ≡ p ++ t
unfolding strip_prefix
strip_prefix_sound [] s t h = ground arith
strip_prefix_sound (c ∷ p) [] t h = ground arith
strip_prefix_sound (c ∷ p) (d ∷ s) t h = ground (arith, strip_prefix_sound p s t)
