-- ===== src/Merkle/Trees.antt =====
-- The tree that `compute_root` walks level by level, as a tree: its root hash, its leaves in order.
use memory_blackbox.Prelude.{
  ℕ, zero, suc, ◌+◌, ◌≤◌, ◌<◌, ◌≡◌, refl, sym, ap, ◌∙◌, inl, inr, Bool-cases, true, false, List, [],
  ◌∷◌, ◌++◌, map, arith, Bytes, length, ltb, length-map, append-nil, append_assoc,
}
use memory_blackbox.Crypto.{Primitives}
use memory_blackbox.Crypto.Hashing.{b3_raw}
use memory_blackbox.Merkle.{head_or, pair_up, merge_levels, hash_leaf, hash_node, compute_root}

pub data Tree : Type 0 where
  empty : Tree
  leaf : Bytes → Tree
  node : Tree → Tree → Tree

-- The payloads, from left to right.
unfoldable pub payloads : Tree → List Bytes
payloads empty = []
payloads (leaf x) = x ∷ []
payloads (node l r) = payloads l ++ payloads r

unfoldable pub all_payloads : List Tree → List Bytes
all_payloads [] = []
all_payloads (t ∷ ts) = payloads t ++ all_payloads ts

-- The tree that the rounds of `compute_root` build.
unfoldable pub build : List Bytes → Tree
build [] = empty
build (x ∷ xs) = head_or empty (merge_levels node (length (x ∷ xs)) (map leaf (x ∷ xs)))

module _ {ℓ} {A : Type ℓ} (join : A → A → A) where
  pub length-pair_up :
      (xs : List A) → length (pair_up join xs) + length (pair_up join xs) ≤ length xs + 1
  unfolding pair_up
  length-pair_up [] = omega arith
  length-pair_up (x ∷ []) = omega arith
  length-pair_up (x ∷ y ∷ xs) = omega (arith, length-pair_up xs)

  pub pair_up-nonempty : (xs : List A) → 0 < length xs → 0 < length (pair_up join xs)
  unfolding pair_up
  pair_up-nonempty [] h = h
  pair_up-nonempty (x ∷ []) h = omega arith
  pair_up-nonempty (x ∷ y ∷ xs) h = omega arith

  pub merge_levels_more :
      (fuel : ℕ) (xs : List A)
      → ltb 1 (length xs) ≡ true
      → merge_levels join (suc fuel) xs ≡ merge_levels join fuel (pair_up join xs)
  unfolding merge_levels
  merge_levels_more fuel xs h = rw (h, merge_levels)

  pub merge_levels_done :
      (fuel : ℕ) (xs : List A) → ltb 1 (length xs) ≡ false → merge_levels join (suc fuel) xs ≡ xs
  unfolding merge_levels
  merge_levels_done fuel xs h = rw (h, merge_levels)

  -- Enough fuel: the loop ends with exactly one node.
  pub length-merge_levels :
      (fuel : ℕ) (xs : List A)
      → 0 < length xs
      → length xs ≤ fuel
      → length (merge_levels join fuel xs) ≡ 1
  length-merge_levels zero xs h k = absurd (omega arith)
  length-merge_levels (suc fuel) xs h k = elim (Bool-cases (ltb 1 (length xs))) [
    | inl more ↦ rw (merge_levels_more fuel xs more) (
        length-merge_levels fuel (pair_up join xs) (pair_up-nonempty xs h)
          (ground (arith, length-pair_up xs)))
    | inr done ↦ rw (merge_levels_done fuel xs done) (ground arith)
  ]

-- A function that turns one way of joining into another commutes with the rounds.
module _ {ℓ κ} {A : Type ℓ} {B : Type κ} (h : A → B) (f : A → A → A) (g : B → B → B)
    (respects : (x y : A) → h (f x y) ≡ g (h x) (h y)) where
  pub map-pair_up : (xs : List A) → map h (pair_up f xs) ≡ pair_up g (map h xs)
  unfolding pair_up
  map-pair_up [] = refl
  map-pair_up (x ∷ []) = refl
  map-pair_up (x ∷ y ∷ xs) = cc (respects x y, map-pair_up xs)

  pub map-merge_levels :
      (fuel : ℕ) (xs : List A) → map h (merge_levels f fuel xs) ≡ merge_levels g fuel (map h xs)
  unfolding merge_levels
  map-merge_levels zero xs = refl
  map-merge_levels (suc fuel) xs =
      let same = ap (ltb 1) (length-map h xs) in
      elim (Bool-cases (ltb 1 (length xs))) [
        | inl more ↦ rw (merge_levels_more f fuel xs more) (
            rw (merge_levels_more g fuel (map h xs) (same ∙ more))
              (rw (← map-pair_up xs) (map-merge_levels fuel (pair_up f xs))))
        | inr done ↦
            rw (merge_levels_done f fuel xs done)
              (sym (merge_levels_done g fuel (map h xs) (same ∙ done)))
      ]

all_payloads-pair_up : (ts : List Tree) → all_payloads (pair_up node ts) ≡ all_payloads ts
unfolding pair_up all_payloads payloads
all_payloads-pair_up [] = refl
all_payloads-pair_up (t ∷ []) = refl
all_payloads-pair_up (t ∷ u ∷ ts) = simp (all_payloads-pair_up ts, append_assoc)

all_payloads-merge_levels :
    (fuel : ℕ) (ts : List Tree) → all_payloads (merge_levels node fuel ts) ≡ all_payloads ts
unfolding merge_levels
all_payloads-merge_levels zero ts = refl
all_payloads-merge_levels (suc fuel) ts = elim (Bool-cases (ltb 1 (length ts))) [
  | inl more ↦
      rw (merge_levels_more node fuel ts more)
        (all_payloads-merge_levels fuel (pair_up node ts) ∙ all_payloads-pair_up ts)
  | inr done ↦ rw (merge_levels_done node fuel ts done)
]

all_payloads-leaves : (xs : List Bytes) → all_payloads (map leaf xs) ≡ xs
unfolding all_payloads payloads
all_payloads-leaves [] = refl
all_payloads-leaves (x ∷ xs) = ap (◌∷◌ x) (all_payloads-leaves xs)

payloads-head : (ts : List Tree) → length ts ≡ 1 → payloads (head_or empty ts) ≡ all_payloads ts
unfolding all_payloads payloads
payloads-head [] h = absurd (omega arith)
payloads-head (t ∷ []) h = sym (append-nil _)
payloads-head (t ∷ u ∷ ts) h = absurd (omega arith)

-- The tree holds the given leaves in their order.
pub payloads-build : (xs : List Bytes) → payloads (build xs) ≡ xs
unfolding build
payloads-build [] = unfold payloads in refl
payloads-build (x ∷ xs) =
    let ts = map leaf (x ∷ xs) in
    payloads-head (merge_levels node (length (x ∷ xs)) ts) (
      length-merge_levels node (length (x ∷ xs)) ts (omega arith)
        (omega (arith, length-map leaf xs)))
    ∙ all_payloads-merge_levels (length (x ∷ xs)) ts
    ∙ all_payloads-leaves (x ∷ xs)

module _ (c : Primitives) where
  unfoldable pub root : Tree → Bytes
  root empty = b3_raw c []
  root (leaf x) = hash_leaf c x
  root (node l r) = hash_node c (root l) (root r)

  root-head : (ts : List Tree) → length ts ≡ 1 → root (head_or empty ts) ≡ head_or [] (map root ts)
  root-head [] h = absurd (omega arith)
  root-head (t ∷ ts) h = refl

  roots-leaves : (xs : List Bytes) → map root (map leaf xs) ≡ map (hash_leaf c) xs
  unfolding root
  roots-leaves [] = refl
  roots-leaves (x ∷ xs) = ap (◌∷◌ (hash_leaf c x)) (roots-leaves xs)

  -- `compute_root` is the root hash of that tree.
  pub compute_root-eq-root : (xs : List Bytes) → compute_root c xs ≡ root (build xs)
  unfolding compute_root build
  compute_root-eq-root [] = unfold root in refl
  compute_root-eq-root (x ∷ xs) =
      let ts = map leaf (x ∷ xs) in
      let n = length (x ∷ xs) in
      let one : length (merge_levels node n ts) ≡ 1 =
        length-merge_levels node n ts (omega arith) (omega (arith, length-map leaf xs)) in
      let same : map root (merge_levels node n ts) ≡ merge_levels (hash_node c) n (map root ts) =
        map-merge_levels root node (hash_node c) (λ l r. unfold root in refl) n ts in
      sym (
        root-head (merge_levels node n ts) one
        ∙ ap (head_or []) (same ∙ ap (merge_levels (hash_node c) n) (roots-leaves (x ∷ xs))))
