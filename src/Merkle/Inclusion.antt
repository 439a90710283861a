-- ===== src/Merkle/Inclusion.antt =====
-- Inclusion proofs are complete: what `inclusion_proof` returns, `verify_proof` accepts.
use memory_blackbox.Prelude.{
  ℕ, zero, suc, ◌+◌, ◌/◌, ◌≤◌, ◌<◌, ◌≡◌, refl, sym, ap, ◌∙◌, ◌⊎◌, inl, inr, true, false, List, [],
  ◌∷◌, ◌++◌, map, arith, Bytes, length, ltb, get_elem?, some, length-map, Bool-cases, eq_of_eq, ok,
  err, index_error,
}
use memory_blackbox.Crypto.{Primitives}
use memory_blackbox.Merkle.{
  ProofStep, head_or, pair_up, merge_levels, hash_leaf, hash_node, compute_root, level_steps,
  proof_steps, inclusion_proof, climb, climb_all, verify_proof,
}
use memory_blackbox.Merkle.Trees.{length-pair_up, merge_levels_more, merge_levels_done}

get_elem?-map {ℓ κ} :
    {A : Type ℓ} {B : Type κ} (f : A → B) (xs : List A) (i : ℕ) (x : A)
    → get_elem? xs i ≡ some x
    → get_elem? (map f xs) i ≡ some (f x)
get_elem?-map f [] i x h = cc
get_elem?-map f (y ∷ xs) zero x h = cc
get_elem?-map f (y ∷ xs) (suc i) x h = get_elem?-map f xs i x h

get_elem?-lt {ℓ} :
    {A : Type ℓ} (xs : List A) (i : ℕ) (x : A) → get_elem? xs i ≡ some x → i < length xs
get_elem?-lt [] i x h = cc
get_elem?-lt (y ∷ xs) zero x h = omega arith
get_elem?-lt (y ∷ xs) (suc i) x h = omega (arith, get_elem?-lt xs i x h)

module _ (c : Primitives) where
  -- Behind the index, a level adds no step.
  level_steps_past : (i idx : ℕ) (nodes : List Bytes) → idx < i → level_steps c i idx nodes ≡ []
  unfolding level_steps
  level_steps_past i idx [] h = refl
  level_steps_past i idx (x ∷ []) h = refl
  level_steps_past i idx (x ∷ y ∷ nodes) h =
      ground (arith, level_steps_past (i + 2) idx nodes (omega arith))

  climb_all-append :
      (x : Bytes) (p q : List ProofStep) → climb_all c x (p ++ q) ≡ climb_all c (climb_all c x p) q
  unfolding climb_all
  climb_all-append x [] q = refl
  climb_all-append x (s ∷ p) q = climb_all-append (climb c x s) p q

  first_step :
      (i : ℕ) (x y : Bytes) (rest : List Bytes)
      → level_steps c i (i + 0) (x ∷ y ∷ rest) ≡ (y, false) ∷ []
  unfolding level_steps
  first_step i x y rest = ground (arith, level_steps_past (i + 2) (i + 0) rest (omega arith))

  second_step :
      (i : ℕ) (x y : Bytes) (rest : List Bytes)
      → level_steps c i (i + 1) (x ∷ y ∷ rest) ≡ (x, true) ∷ []
  unfolding level_steps
  second_step i x y rest = ground (arith, level_steps_past (i + 2) (i + 1) rest (omega arith))

  later_step :
      (i k : ℕ) (x y : Bytes) (rest : List Bytes)
      → level_steps c i (i + suc (suc k)) (x ∷ y ∷ rest) ≡ level_steps c (i + 2) (i + 2 + k) rest
  unfolding level_steps
  later_step i k x y rest = let e : i + suc (suc k) ≡ i + 2 + k = omega arith in ground arith

  -- One level: the steps lead from a node to its parent.
  level_climbs :
      (i k : ℕ) (nodes : List Bytes) (x : Bytes)
      → get_elem? nodes k ≡ some x
      → get_elem? (pair_up (hash_node c) nodes) (k / 2)
        ≡ some (climb_all c x (level_steps c i (i + k) nodes))
  unfolding pair_up climb_all climb
  level_climbs i k [] x h = cc
  level_climbs i zero (y ∷ []) x h = unfold level_steps in cc
  level_climbs i (suc k) (y ∷ []) x h = cc
  level_climbs i zero (y ∷ z ∷ nodes) x h = rw (first_step i y z nodes) (cc)
  level_climbs i (suc zero) (y ∷ z ∷ nodes) x h = rw (second_step i y z nodes) (cc)
  level_climbs i (suc (suc k)) (y ∷ z ∷ nodes) x h =
      let half : suc (suc k) / 2 ≡ suc (k / 2) = omega arith in
      rw (later_step i k y z nodes, half) (level_climbs (i + 2) k nodes x h)

  level_climbs_start :
      (k : ℕ) (nodes : List Bytes) (x : Bytes)
      → get_elem? nodes k ≡ some x
      → get_elem? (pair_up (hash_node c) nodes) (k / 2)
        ≡ some (climb_all c x (level_steps c 0 k nodes))
  level_climbs_start k nodes x h =
      let e : k ≡ 0 + k = omega arith in
      level_climbs 0 k nodes x h ∙ ap (λ j. some (climb_all c x (level_steps c 0 j nodes))) (sym e)

  proof_steps_more :
      (fuel idx : ℕ) (nodes : List Bytes)
      → ltb 1 (length nodes) ≡ true
      → proof_steps c (suc fuel) idx nodes
        ≡ level_steps c 0 idx nodes ++ proof_steps c fuel (idx / 2) (pair_up (hash_node c) nodes)
  unfolding proof_steps
  proof_steps_more fuel idx nodes h = rw (h, proof_steps)

  proof_steps_done :
      (fuel idx : ℕ) (nodes : List Bytes)
      → ltb 1 (length nodes) ≡ false
      → proof_steps c (suc fuel) idx nodes ≡ []
  unfolding proof_steps
  proof_steps_done fuel idx nodes h = rw (h, proof_steps)

  only_node :
      (nodes : List Bytes) (idx : ℕ) (x : Bytes)
      → ltb 1 (length nodes) ≡ false
      → get_elem? nodes idx ≡ some x
      → head_or [] nodes ≡ climb_all c x []
  unfolding climb_all
  only_node [] idx x d h = cc
  only_node (y ∷ []) zero x d h = cc
  only_node (y ∷ []) (suc idx) x d h = cc
  only_node (y ∷ z ∷ nodes) idx x d h = absurd (ground arith)

  proof_climbs :
      (fuel idx : ℕ) (nodes : List Bytes) (x : Bytes)
      → length nodes ≤ fuel
      → get_elem? nodes idx ≡ some x
      → head_or [] (merge_levels (hash_node c) fuel nodes)
        ≡ climb_all c x (proof_steps c fuel idx nodes)
  proof_climbs zero idx nodes x k h = absurd (omega (arith, get_elem?-lt nodes idx x h))
  proof_climbs (suc fuel) idx nodes x k h =
      let next =
        proof_climbs fuel (idx / 2) (pair_up (hash_node c) nodes)
          (climb_all c x (level_steps c 0 idx nodes)) in
      elim (Bool-cases (ltb 1 (length nodes))) [
        | inl more ↦
            rw
              (
                merge_levels_more (hash_node c) fuel nodes more,
                proof_steps_more fuel idx nodes more,
              )
              (next (ground (arith, length-pair_up (hash_node c) nodes))
                  (level_climbs_start idx nodes x h)
                ∙ sym (
                    climb_all-append x (level_steps c 0 idx nodes)
                      (proof_steps c fuel (idx / 2) (pair_up (hash_node c) nodes))))
        | inr done ↦
            rw
              (
                merge_levels_done (hash_node c) fuel nodes done,
                proof_steps_done fuel idx nodes done,
              )
              (only_node nodes idx x done h)
      ]

  -- A proof that `inclusion_proof` returns for the leaf at `index` leads `verify_proof` from that
  -- leaf to the root that `compute_root` returns.
  pub verify_proof-inclusion_proof :
      (leaves : List Bytes) (index : ℕ) (leaf : Bytes) (proof : List ProofStep)
      → get_elem? leaves index ≡ some leaf
      → inclusion_proof c leaves index ≡ ok proof
      → verify_proof c leaf proof (compute_root c leaves) ≡ true
  unfolding verify_proof compute_root inclusion_proof
  verify_proof-inclusion_proof [] index leaf proof h e = cc
  verify_proof-inclusion_proof (l ∷ leaves) index leaf proof h e =
      let nodes = map (hash_leaf c) (l ∷ leaves) in
      let top =
        proof_climbs (length (l ∷ leaves)) index nodes (hash_leaf c leaf)
          (omega (arith, length-map (hash_leaf c) leaves))
          (get_elem?-map (hash_leaf c) (l ∷ leaves) index leaf h) in
      let steps : proof_steps c (length (l ∷ leaves)) index nodes ≡ proof = ground arith in
      eq_of_eq _ _ (sym (top ∙ ap (climb_all c (hash_leaf c leaf)) steps))

  -- A proof is returned exactly for the indices in range; any other raises `IndexError`.
  pub inclusion_proof_range :
      (leaves : List Bytes) (index : ℕ)
      → ((index < length leaves)
          × ((proof : List ProofStep) × (inclusion_proof c leaves index ≡ ok proof)))
        ⊎ ((length leaves ≤ index) × (inclusion_proof c leaves index ≡ err index_error))
  unfolding inclusion_proof
  inclusion_proof_range leaves index = elim (Bool-cases (ltb index (length leaves))) [
    | inl h ↦
        inl (ground arith, (proof_steps c (length leaves) index (map (hash_leaf c) leaves), rw h))
    | inr h ↦ inr (ground arith, rw h)
  ]
