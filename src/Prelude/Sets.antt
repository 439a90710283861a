-- ===== src/Prelude/Sets.antt =====
-- Sets of texts as lists whose order says nothing: the test `k in s`, `set(l)`, and how many of
-- some items a set lacks.
use Prim.Native.Nat.{ℕ, ◌+◌, ◌≤◌, ◌<◌}
use mathlib.Core.Path.{◌≡◌}
use mathlib.Core.Logic.{◌↔◌, ◌⊎◌, inr}
use mathlib.Core.Bool.{Bool, true, false, ◌||◌}
use mathlib.Core.List.{List, [], ◌∷◌, ◌++◌}
use native.Mathlib.Omega.{arith}
use memory_blackbox.Prelude.Tests.{Text, ◌==◌, eq_iff, if◌then◌else◌}
use memory_blackbox.Prelude.Lists.{length}

-- `k in xs`
unfoldable pub contains : List Text → Text → Bool
contains [] k = false
contains (x ∷ xs) k = x == k || contains xs k

abbrev pub In : Text → List Text → Type 0
In k xs = contains xs k ≡ true

pub In-append : (k : Text) (xs ys : List Text) → In k (xs ++ ys) ↔ (In k xs ⊎ In k ys)
unfolding contains
In-append k [] ys = (λ h. inr h, λ h. ground arith)
In-append k (x ∷ xs) ys = ground (arith, In-append k xs ys)

pub In-cons : (k x : Text) (xs : List Text) → In k (x ∷ xs) ↔ ((x ≡ k) ⊎ In k xs)
unfolding contains
In-cons k x xs = ground (arith, eq_iff x k)

pub not-In-nil : (k : Text) → ¬ In k []
unfolding contains
not-In-nil k h = cc

-- `set(xs)`: each item once, at its last place.
unfoldable pub to_set : List Text → List Text
to_set [] = []
to_set (x ∷ xs) = let rest = to_set xs in if contains rest x then rest else x ∷ rest

pub In-to_set : (k : Text) (xs : List Text) → In k (to_set xs) ↔ In k xs
unfolding to_set contains
In-to_set k [] = (λ h. h, λ h. h)
In-to_set k (x ∷ xs) = ground (arith, In-to_set k xs, In-to_set x xs, eq_iff x k)

pub length-to_set : (xs : List Text) → length (to_set xs) ≤ length xs
unfolding to_set
length-to_set [] = omega arith
length-to_set (x ∷ xs) = ground (arith, length-to_set xs)

-- No text stands twice.
abbrev pub Distinct : List Text → Type 0
Distinct [] = Unit
Distinct (x ∷ xs) = (contains xs x ≡ false) × Distinct xs

pub to_set-Distinct : (xs : List Text) → Distinct (to_set xs)
unfolding to_set
to_set-Distinct [] = tt
to_set-Distinct (x ∷ xs) = ground (arith, to_set-Distinct xs)

-- How many of `xs` are not in the set.
pub missing : List Text → List Text → ℕ
missing [] seen = 0
missing (x ∷ xs) seen = (if contains seen x then 0 else 1) + missing xs seen

pub missing-le : (xs seen : List Text) → missing xs seen ≤ length xs
unfolding missing
missing-le [] seen = omega arith
missing-le (x ∷ xs) seen = ground (arith, missing-le xs seen)

missing_mono : (xs seen : List Text) (v : Text) → missing xs (seen ++ v ∷ []) ≤ missing xs seen
unfolding missing
missing_mono [] seen v = omega arith
missing_mono (x ∷ xs) seen v = ground (arith, missing_mono xs seen v, In-append x seen (v ∷ []))

-- A missing item that enters the set is missing no more.
pub missing-insert :
    (xs seen : List Text) (v : Text)
    → In v xs
    → contains seen v ≡ false
    → missing xs (seen ++ v ∷ []) < missing xs seen
unfolding missing
missing-insert [] seen v h k = absurd (not-In-nil v h)
missing-insert (x ∷ xs) seen v h k = ground (
  arith,
  In-cons v x xs,
  In-append x seen (v ∷ []),
  In-cons x v [],
  missing_mono xs seen v,
  missing-insert xs seen v,
)
