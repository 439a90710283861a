-- ===== src/Anchor/Rekor/Binds.antt =====
-- What the nodes of a level of a log bind, and how a node of the next level places its children.
use memory_blackbox.Prelude.{
  ℕ, zero, suc, ◌/◌, ◌%◌, ◌≤◌, ◌<◌, ◌≡◌, ◌≢◌, ◌⊎◌, inl, inr, sym, ap, ◌∙◌, List, [], ◌∷◌, some,
  arith, Bytes, length, All, get_elem?, append-cancel, append-cancel_right, eq_cases,
}
use memory_blackbox.Merkle.{head_or, pair_up}
use memory_blackbox.Merkle.Levels.{
  get_elem?-some, pair_up-left, pair_up-right, pair_up-promoted, merged,
}
use memory_blackbox.Anchor.Rekor.Inclusion.{log_leaf, log_node}

-- The three kinds of nodes of a level.
pub step_cases :
    (i last : ℕ)
    → i ≤ last
    → (i % 2 ≡ 1) ⊎ (((i % 2 ≡ 0) × (i < last)) ⊎ ((last % 2 ≡ 0) × (i ≡ last)))
step_cases i last h = omega arith

-- Two inputs of SHA-256 with one digest.
pub record Sha256Collision (sha256 : Bytes → Bytes) : Type 0 where
  pub left : Bytes
  pub right : Bytes
  pub differ : left ≢ right
  pub same_digest : sha256 left ≡ sha256 right

-- The root of the tree over hashed leaves, and 32 bytes throughout.
abbrev pub log_root : (Bytes → Bytes) → List Bytes → Bytes
log_root sha256 level = head_or [] (merged (log_node sha256) level)

abbrev pub AreDigests : List Bytes → Type 0
AreDigests = All (λ (h : Bytes). length h ≡ 32)

module _ (sha256 : Bytes → Bytes) (size : (x : Bytes) → length (sha256 x) ≡ 32) where
  pub pair_up-AreDigests :
      (level : List Bytes) → AreDigests level → AreDigests (pair_up (log_node sha256) level)
  unfolding pair_up log_node
  pair_up-AreDigests [] h = tt
  pair_up-AreDigests (x ∷ []) h = h
  pair_up-AreDigests (x ∷ y ∷ level) h = (size _, pair_up-AreDigests level h.1.1)

  get_elem?-digest :
      (level : List Bytes) (i : ℕ) (x : Bytes)
      → AreDigests level
      → get_elem? level i ≡ some x
      → length x ≡ 32
  get_elem?-digest [] i x h e = cc
  get_elem?-digest (y ∷ level) zero x h e = ground arith
  get_elem?-digest (y ∷ level) (suc i) x h e = get_elem?-digest level i x h.1 e

  sha256_binds : (x y : Bytes) → sha256 x ≡ sha256 y → (x ≡ y) ⊎ Sha256Collision sha256
  sha256_binds x y e = elim (eq_cases x y) [
    | inl same ↦ inl same
    | inr other ↦ inr (record { left = x; right = y; differ = other; same_digest = e })
  ]

  left_binds :
      (l r l' r' : Bytes)
      → length l ≡ length l'
      → log_node sha256 l r ≡ log_node sha256 l' r'
      → (l ≡ l') ⊎ Sha256Collision sha256
  unfolding log_node
  left_binds l r l' r' n e = elim (sha256_binds _ _ e) [
    | inl same ↦ inl ((append-cancel l r l' r' n (cc)).0)
    | inr bad ↦ inr bad
  ]

  right_binds :
      (l r l' r' : Bytes)
      → length r ≡ length r'
      → log_node sha256 l r ≡ log_node sha256 l' r'
      → (r ≡ r') ⊎ Sha256Collision sha256
  unfolding log_node
  right_binds l r l' r' n e = elim (sha256_binds _ _ e) [
    | inl same ↦ inl ((append-cancel_right l r l' r' n (cc)).1)
    | inr bad ↦ inr bad
  ]

  pub leaf_hash_binds :
      (x y : Bytes) → log_leaf sha256 x ≡ log_leaf sha256 y → (x ≡ y) ⊎ Sha256Collision sha256
  unfolding log_leaf
  leaf_hash_binds x y e = elim (sha256_binds _ _ e) [ inl same ↦ inl (cc) | inr bad ↦ inr bad ]

  -- What an accepted proof says of a level: the node at the index is the one that is claimed.
  abbrev pub Placed : List Bytes → ℕ → Bytes → Type 0
  Placed level i x = (get_elem? level i ≡ some x) ⊎ Sha256Collision sha256

  module _ (level : List Bytes) (last : ℕ) (n : length level ≡ suc last)
      (digests : AreDigests level) (x : Bytes) (x_size : length x ≡ 32) where
    pub Placed-right :
        (i : ℕ) (sibling : Bytes)
        → i % 2 ≡ 1
        → i ≤ last
        → Placed (pair_up (log_node sha256) level) (i / 2) (log_node sha256 sibling x)
        → Placed level i x
    Placed-right zero sibling odd h found = absurd (omega arith)
    Placed-right (suc i) sibling odd h (inr bad) = inr bad
    Placed-right (suc i) sibling odd h (inl found) =
        let (a, at_a) = get_elem?-some level i (omega arith) in
        let (b, at_b) = get_elem?-some level (suc i) (omega arith) in
        let joined = pair_up-right (log_node sha256) i level a b odd at_a at_b in
        let same : log_node sha256 a b ≡ log_node sha256 sibling x = ground arith in
        elim (right_binds a b sibling x (get_elem?-digest level (suc i) b digests at_b ∙ sym x_size)
          same) [ inl e ↦ inl (at_b ∙ ap some e) | inr bad ↦ inr bad ]

    pub Placed-left :
        (i : ℕ) (sibling : Bytes)
        → i % 2 ≡ 0
        → i < last
        → Placed (pair_up (log_node sha256) level) (i / 2) (log_node sha256 x sibling)
        → Placed level i x
    Placed-left i sibling even h (inr bad) = inr bad
    Placed-left i sibling even h (inl found) =
        let (a, at_a) = get_elem?-some level i (omega arith) in
        let (b, at_b) = get_elem?-some level (suc i) (omega arith) in
        let joined = pair_up-left (log_node sha256) i level a b even at_a at_b in
        let same : log_node sha256 a b ≡ log_node sha256 x sibling = ground arith in
        elim (left_binds a b x sibling (get_elem?-digest level i a digests at_a ∙ sym x_size)
          same) [ inl e ↦ inl (at_a ∙ ap some e) | inr bad ↦ inr bad ]

    pub Placed-promoted :
        last % 2 ≡ 0 → Placed (pair_up (log_node sha256) level) (last / 2) x → Placed level last x
    Placed-promoted even (inr bad) = inr bad
    Placed-promoted even (inl found) =
        let (a, at_a) = get_elem?-some level last (omega arith) in
        let kept = pair_up-promoted (log_node sha256) last level a even n at_a in
        inl (at_a ∙ ground arith)
