-- ===== src/Merkle/Levels.antt =====
-- The rounds over one level, node by node, and the levels of a concatenation: the tree of the
-- rounds is that of RFC 6962.
use memory_blackbox.Prelude.{
  ℕ, zero, suc, ◌+◌, ◌*◌, ◌/◌, ◌%◌, ◌^◌, ◌≤◌, ◌<◌, ◌≡◌, refl, sym, ap, ap₂, ◌∙◌, inl, inr, List, [],
  ◌∷◌, ◌++◌, some, arith, length, get_elem?, ltb, Bool-cases,
}
use memory_blackbox.Merkle.{pair_up, merge_levels}
use memory_blackbox.Merkle.Trees.{
  length-pair_up, length-merge_levels, merge_levels_more, merge_levels_done,
}

-- A position of a list holds an item.
pub get_elem?-some {ℓ} :
    {A : Type ℓ} (xs : List A) (i : ℕ) → i < length xs → (x : A) × (get_elem? xs i ≡ some x)
get_elem?-some [] i h = absurd (omega arith)
get_elem?-some (x ∷ xs) zero h = (x, refl)
get_elem?-some (x ∷ xs) (suc i) h = get_elem?-some xs i (omega arith)

module _ {ℓ} {A : Type ℓ} (join : A → A → A) where
  pub length-pair_up_exact : (xs : List A) → length (pair_up join xs) ≡ (length xs + 1) / 2
  unfolding pair_up
  length-pair_up_exact [] = omega arith
  length-pair_up_exact (x ∷ []) = omega arith
  length-pair_up_exact (x ∷ y ∷ xs) = omega (arith, length-pair_up_exact xs)

  pair_up-pair_double :
      (j : ℕ) (xs : List A) (a b : A)
      → get_elem? xs (2 * j) ≡ some a
      → get_elem? xs (suc (2 * j)) ≡ some b
      → get_elem? (pair_up join xs) j ≡ some (join a b)
  unfolding pair_up
  pair_up-pair_double zero (x ∷ y ∷ xs) a b p q = ground arith
  pair_up-pair_double (suc j) (x ∷ y ∷ xs) a b p q =
      let e : 2 * suc j ≡ suc (suc (2 * j)) = omega arith in
      pair_up-pair_double j xs a b (ap (get_elem? (x ∷ y ∷ xs)) (sym e) ∙ p)
        (ap (λ i. get_elem? (x ∷ y ∷ xs) (suc i)) (sym e) ∙ q)
  pair_up-pair_double j [] a b p q = cc
  pair_up-pair_double zero (x ∷ []) a b p q = cc
  pair_up-pair_double (suc j) (x ∷ []) a b p q = absurd (none-odd q)
    where
      none-odd : get_elem? (x ∷ []) (suc (2 * suc j)) ≡ some b → ⊥
      none-odd h = ground arith

  pair_up-last_double :
      (j : ℕ) (xs : List A) (a : A)
      → length xs ≡ suc (2 * j)
      → get_elem? xs (2 * j) ≡ some a
      → get_elem? (pair_up join xs) j ≡ some a
  unfolding pair_up
  pair_up-last_double j [] a n p = cc
  pair_up-last_double zero (x ∷ []) a n p = p
  pair_up-last_double zero (x ∷ y ∷ xs) a n p = absurd (omega arith)
  pair_up-last_double (suc j) (x ∷ []) a n p = absurd (omega arith)
  pair_up-last_double (suc j) (x ∷ y ∷ xs) a n p =
      let e : 2 * suc j ≡ suc (suc (2 * j)) = omega arith in
      pair_up-last_double j xs a (omega arith) (ap (get_elem? (x ∷ y ∷ xs)) (sym e) ∙ p)

  -- The parent of a left node that has a sibling, of a right node, and of a promoted one.
  pub pair_up-left :
      (i : ℕ) (xs : List A) (a b : A)
      → i % 2 ≡ 0
      → get_elem? xs i ≡ some a
      → get_elem? xs (suc i) ≡ some b
      → get_elem? (pair_up join xs) (i / 2) ≡ some (join a b)
  pair_up-left i xs a b even p q =
      let e : 2 * (i / 2) ≡ i = omega arith in
      pair_up-pair_double (i / 2) xs a b (ap (get_elem? xs) e ∙ p)
        (ap (λ k. get_elem? xs (suc k)) e ∙ q)

  pub pair_up-right :
      (i : ℕ) (xs : List A) (a b : A)
      → suc i % 2 ≡ 1
      → get_elem? xs i ≡ some a
      → get_elem? xs (suc i) ≡ some b
      → get_elem? (pair_up join xs) (suc i / 2) ≡ some (join a b)
  pair_up-right i xs a b odd p q =
      let e : suc i / 2 ≡ i / 2 = omega arith in
      ap (get_elem? (pair_up join xs)) e ∙ pair_up-left i xs a b (omega arith) p q

  pub pair_up-promoted :
      (i : ℕ) (xs : List A) (a : A)
      → i % 2 ≡ 0
      → length xs ≡ suc i
      → get_elem? xs i ≡ some a
      → get_elem? (pair_up join xs) (i / 2) ≡ some a
  pair_up-promoted i xs a even n p =
      let e : 2 * (i / 2) ≡ i = omega arith in
      pair_up-last_double (i / 2) xs a (omega arith) (ap (get_elem? xs) e ∙ p)

  -- More fuel than nodes changes nothing.
  pub merge_levels_fuel :
      (f g : ℕ) (xs : List A)
      → length xs ≤ f
      → length xs ≤ g
      → merge_levels join f xs ≡ merge_levels join g xs
  merge_levels_fuel zero zero xs p q = refl
  merge_levels_fuel zero (suc g) xs p q =
      unfold merge_levels in sym (merge_levels_done join g xs (ground arith))
  merge_levels_fuel (suc f) zero xs p q =
      unfold merge_levels in merge_levels_done join f xs (ground arith)
  merge_levels_fuel (suc f) (suc g) xs p q = elim (Bool-cases (ltb 1 (length xs))) [
    | inl more ↦
        merge_levels_more join f xs more
        ∙ merge_levels_fuel f g (pair_up join xs) (ground (arith, length-pair_up join xs))
            (ground (arith, length-pair_up join xs))
        ∙ sym (merge_levels_more join g xs more)
    | inr done ↦ merge_levels_done join f xs done ∙ sym (merge_levels_done join g xs done)
  ]

  -- A whole level with enough fuel.
  abbrev pub merged : List A → List A
  merged xs = merge_levels join (length xs) xs

  pub merged-pair_up : (xs : List A) → merged (pair_up join xs) ≡ merged xs
  merged-pair_up [] = unfold pair_up in refl
  merged-pair_up (x ∷ []) = unfold pair_up in refl
  merged-pair_up (x ∷ y ∷ xs) =
      let level = x ∷ y ∷ xs in
      merge_levels_fuel (length (pair_up join level)) (suc (length xs)) (pair_up join level)
        (omega arith) (omega (arith, length-pair_up join level))
      ∙ sym (merge_levels_more join (suc (length xs)) level (ground arith))

  pair_up-append :
      (j : ℕ) (xs ys : List A)
      → length xs ≡ 2 * j
      → pair_up join (xs ++ ys) ≡ pair_up join xs ++ pair_up join ys
  unfolding pair_up
  pair_up-append zero [] ys n = refl
  pair_up-append zero (x ∷ xs) ys n = absurd (omega arith)
  pair_up-append (suc j) [] ys n = absurd (omega arith)
  pair_up-append (suc j) (x ∷ []) ys n = absurd (omega arith)
  pair_up-append (suc j) (x ∷ y ∷ xs) ys n =
      ap (◌∷◌ (join x y)) (pair_up-append j xs ys (omega arith))

  -- A level of 2 ^ k nodes before at most as many: the root joins the roots of the two parts.
  pub merged-append :
      (k : ℕ) (xs ys : List A) (x y : A)
      → length xs ≡ 2 ^ k
      → 0 < length ys
      → length ys ≤ 2 ^ k
      → merged xs ≡ x ∷ []
      → merged ys ≡ y ∷ []
      → merged (xs ++ ys) ≡ join x y ∷ []
  merged-append zero (a ∷ []) (b ∷ []) x y n h m p q =
      unfold merge_levels pair_up in ap₂ (λ u v. join u v ∷ []) (ground arith) (ground arith)
  merged-append zero [] ys x y n h m p q = absurd (omega arith)
  merged-append zero (a ∷ b ∷ xs) ys x y n h m p q = absurd (omega arith)
  merged-append zero (a ∷ []) [] x y n h m p q = absurd (omega arith)
  merged-append zero (a ∷ []) (b ∷ c ∷ ys) x y n h m p q = absurd (omega arith)
  merged-append (suc k) xs ys x y n h m p q =
      let double : 2 ^ suc k ≡ 2 * 2 ^ k = omega arith in
      sym (merged-pair_up (xs ++ ys))
      ∙ ap merged (pair_up-append (2 ^ k) xs ys (omega arith))
      ∙ merged-append k (pair_up join xs) (pair_up join ys) x y
          (omega (arith, length-pair_up_exact xs)) (omega (arith, length-pair_up_exact ys))
          (omega (arith, length-pair_up_exact ys)) (merged-pair_up xs ∙ p) (merged-pair_up ys ∙ q)

  -- The rounds end with one node.
  pub merged-one : (xs : List A) → 0 < length xs → (x : A) × (merged xs ≡ x ∷ [])
  merged-one xs h = one (merged xs) (length-merge_levels join (length xs) xs h (omega arith))
    where
      one : (l : List A) → length l ≡ 1 → (x : A) × (l ≡ x ∷ [])
      one [] n = absurd (omega arith)
      one (x ∷ []) n = (x, refl)
      one (x ∷ y ∷ l) n = absurd (omega arith)
