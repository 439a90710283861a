-- ===== src/Prelude/Sorting.antt =====
-- `sorted` on texts: insertion by the order of code points.
use Prim.Native.Nat.{compare, Ordering}
use mathlib.Core.Logic.{◌↔◌}
use mathlib.Core.Bool.{Bool, true, false}
use mathlib.Core.List.{List, [], ◌∷◌}
use native.Mathlib.Omega.{arith}
use memory_blackbox.Prelude.Tests.{Text, if◌then◌else◌}
use memory_blackbox.Prelude.Sets.{In, In-cons}

unfoldable pub text_leb : Text → Text → Bool
text_leb [] t = true
text_leb (x ∷ s) [] = false
text_leb (x ∷ s) (y ∷ t) =
    let rest = text_leb s t in
    elim (compare x y) [ Ordering.lt ↦ true | Ordering.eq ↦ rest | Ordering.gt ↦ false ]

unfoldable pub insert_sorted : Text → List Text → List Text
insert_sorted x [] = x ∷ []
insert_sorted x (y ∷ ys) =
    let rest = insert_sorted x ys in if text_leb x y then x ∷ y ∷ ys else y ∷ rest

unfoldable pub sorted : List Text → List Text
sorted [] = []
sorted (x ∷ xs) = insert_sorted x (sorted xs)

In-insert_sorted : (k x : Text) (ys : List Text) → In k (insert_sorted x ys) ↔ In k (x ∷ ys)
unfolding insert_sorted
In-insert_sorted k x [] = (λ h. h, λ h. h)
In-insert_sorted k x (y ∷ ys) = ground (
  arith,
  In-insert_sorted k x ys,
  In-cons k x (y ∷ ys),
  In-cons k y ys,
  In-cons k x ys,
  In-cons k y (insert_sorted x ys),
)

pub In-sorted : (k : Text) (xs : List Text) → In k (sorted xs) ↔ In k xs
unfolding sorted
In-sorted k [] = (λ h. h, λ h. h)
In-sorted k (x ∷ xs) = ground (
  arith,
  In-insert_sorted k x (sorted xs),
  In-sorted k xs,
  In-cons k x xs,
  In-cons k x (sorted xs),
)
