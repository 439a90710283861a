-- ===== src/Merkle/Rfc.antt =====
-- The tree head that RFC 6962 defines, beside the rounds of `compute_root`: the leaves are split
-- after the largest power of two below their number.
use memory_blackbox.Prelude.{
  ℕ, zero, suc, ◌^◌, ◌≤◌, ◌<◌, ◌≡◌, refl, sym, ap, ap₂, ◌∙◌, ◌⊎◌, ◌↔◌, inl, inr, List, [], ◌∷◌,
  ◌++◌, map, arith, Bytes, length, length-append, length-map, map-append, subst,
}
use memory_blackbox.Crypto.{Primitives}
use memory_blackbox.Crypto.Hashing.{b3_raw}
use memory_blackbox.Merkle.{head_or, merge_levels, hash_leaf, hash_node, compute_root}
use memory_blackbox.Merkle.Levels.{merged, merged-append, merged-one}

-- The tree head of a list of leaves, for the hash of `c`.
pub data IsTreeHead (c : Primitives) : List Bytes → Bytes → Type 0 where
  no_leaf : IsTreeHead c [] (b3_raw c [])
  one_leaf : (x : Bytes) → IsTreeHead c (x ∷ []) (hash_leaf c x)
  split :
      (k : ℕ) (left right : List Bytes) (a b : Bytes)
      → length left ≡ 2 ^ k
      → 0 < length right
      → length right ≤ 2 ^ k
      → IsTreeHead c left a
      → IsTreeHead c right b
      → IsTreeHead c (left ++ right) (hash_node c a b)

-- The largest power of two below a number of leaves.
split_power : (n : ℕ) → (k : ℕ) × (2 ^ k < suc (suc n)) × (suc (suc n) ≤ 2 ^ suc k)
split_power zero = (0, omega arith, omega arith)
split_power (suc n) = next (split_power n)
  where
    next :
        (k : ℕ) × (2 ^ k < suc (suc n)) × (suc (suc n) ≤ 2 ^ suc k)
        → (k : ℕ) × (2 ^ k < suc (suc (suc n))) × (suc (suc (suc n)) ≤ 2 ^ suc k)
    next (k, below, above) = elim (reach k above) [
      | inl more ↦ (k, omega arith, more)
      | inr full ↦ (suc k, omega arith, omega arith)
    ]
      where
        reach :
            (k : ℕ)
            → suc (suc n) ≤ 2 ^ suc k
            → (suc (suc (suc n)) ≤ 2 ^ suc k) ⊎ (suc (suc n) ≡ 2 ^ suc k)
        reach k h = omega arith

split_list :
    (n : ℕ) (xs : List Bytes)
    → n ≤ length xs
    → (l : List Bytes) × (r : List Bytes) × (xs ≡ l ++ r) × (length l ≡ n)
split_list zero xs h = ([], xs, refl, refl)
split_list (suc n) [] h = absurd (omega arith)
split_list (suc n) (x ∷ xs) h =
    let (l, r, e, k) = split_list n xs (omega arith) in (x ∷ l, r, ap (◌∷◌ x) e, ap suc k)

module _ (c : Primitives) where
  compute_root-merged :
      (xs : List Bytes) (a : Bytes)
      → 0 < length xs
      → merged (hash_node c) (map (hash_leaf c) xs) ≡ a ∷ []
      → compute_root c xs ≡ a
  unfolding compute_root
  compute_root-merged [] a h e = absurd (omega arith)
  compute_root-merged (x ∷ xs) a h e =
      ap (λ n. head_or [] (merge_levels (hash_node c) n (map (hash_leaf c) (x ∷ xs))))
        (sym (length-map (hash_leaf c) (x ∷ xs)))
      ∙ ap (head_or []) e

  -- Before at most as many leaves, 2 ^ k leaves are a tree of their own.
  compute_root-append :
      (k : ℕ) (xs ys : List Bytes)
      → length xs ≡ 2 ^ k
      → 0 < length ys
      → length ys ≤ 2 ^ k
      → compute_root c (xs ++ ys) ≡ hash_node c (compute_root c xs) (compute_root c ys)
  compute_root-append k xs ys n h m =
      let xs' = map (hash_leaf c) xs in
      let ys' = map (hash_leaf c) ys in
      let xs_size = length-map (hash_leaf c) xs in
      let ys_size = length-map (hash_leaf c) ys in
      let (a, ea) = merged-one (hash_node c) xs' (omega arith) in
      let (b, eb) = merged-one (hash_node c) ys' (omega arith) in
      let both =
        compute_root-merged (xs ++ ys) (hash_node c a b) (omega (arith, length-append xs ys)) (
          ap (merged (hash_node c)) (map-append (hash_leaf c) xs ys)
          ∙ merged-append (hash_node c) k xs' ys' a b (xs_size ∙ n) (omega arith) (omega arith) ea
              eb) in
      let left = compute_root-merged xs a (omega arith) ea in
      let right = compute_root-merged ys b h eb in cc

  IsTreeHead-compute_root :
      {xs : List Bytes} {r : Bytes} → IsTreeHead c xs r → compute_root c xs ≡ r
  IsTreeHead-compute_root no_leaf = unfold compute_root in refl
  IsTreeHead-compute_root (one_leaf x) = unfold compute_root merge_levels in refl
  IsTreeHead-compute_root (split k left right a b n h m p q) =
      compute_root-append k left right n h m
      ∙ ap₂ (hash_node c) (IsTreeHead-compute_root p) (IsTreeHead-compute_root q)

  compute_root-IsTreeHead_below :
      (bound : ℕ) (xs : List Bytes) → length xs ≤ bound → IsTreeHead c xs (compute_root c xs)
  compute_root-IsTreeHead_below bound [] h = unfold compute_root in no_leaf
  compute_root-IsTreeHead_below bound (x ∷ []) h = unfold compute_root merge_levels in one_leaf x
  compute_root-IsTreeHead_below zero (x ∷ y ∷ xs) h = absurd (omega arith)
  compute_root-IsTreeHead_below (suc bound) (x ∷ y ∷ xs) h =
      let (k, below, above) = split_power (length xs) in
      let (l, r, e, n) = split_list (2 ^ k) (x ∷ y ∷ xs) (omega arith) in
      let size = ap length e ∙ length-append l r in
      let joined =
        split k l r _ _ n (omega arith) (omega arith)
          (compute_root-IsTreeHead_below bound l (omega arith))
          (compute_root-IsTreeHead_below bound r (omega arith)) in
      subst (λ all. IsTreeHead c all (compute_root c all)) (sym e)
        (subst (IsTreeHead c (l ++ r))
          (sym (compute_root-append k l r n (omega arith) (omega arith))) joined)

  -- `compute_root` returns the tree head of RFC 6962 for its leaves, and nothing else is the tree
  -- head of them: the rounds that promote an odd last node build the tree that the RFC splits after
  -- the largest power of two below the number of leaves. The hash is any function.
  pub compute_root-IsTreeHead :
      (xs : List Bytes) (r : Bytes) → IsTreeHead c xs r ↔ (compute_root c xs ≡ r)
  compute_root-IsTreeHead xs r = (
    IsTreeHead-compute_root,
    λ e. subst (IsTreeHead c xs) e (compute_root-IsTreeHead_below (length xs) xs (omega arith)),
  )
