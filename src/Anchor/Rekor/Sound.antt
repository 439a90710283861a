-- ===== src/Anchor/Rekor/Sound.antt =====
-- An inclusion proof that `verify_inclusion` accepts places the leaf at its index.
use memory_blackbox.Prelude.{
  ℕ, zero, suc, ◌-◌, ◌/◌, ◌≤◌, ◌<◌, ◌≡◌, ◌⊎◌, inl, inr, sym, ap, ◌∙◌, true, List, [], ◌∷◌, map,
  some, arith, Bytes, eq_iff, length, get_elem?, length-map, subst,
}
use memory_blackbox.Merkle.{head_or, pair_up, merge_levels}
use memory_blackbox.Merkle.Levels.{length-pair_up_exact, merged-pair_up}
use memory_blackbox.Anchor.Rekor.Inclusion.{log_leaf, log_node, climb_proof, verify_inclusion}
use memory_blackbox.Anchor.Rekor.Walk.{
  climb-right, climb-left, climb-promoted, climb-short, climb-long,
}
use memory_blackbox.Anchor.Rekor.Binds.{
  step_cases, Sha256Collision, log_root, AreDigests, pair_up-AreDigests, leaf_hash_binds, Placed,
  Placed-right, Placed-left, Placed-promoted,
}

module _ (sha256 : Bytes → Bytes) (size : (x : Bytes) → length (sha256 x) ≡ 32) where
  log_root-pair_up :
      (level : List Bytes)
      → log_root sha256 (pair_up (log_node sha256) level) ≡ log_root sha256 level
  log_root-pair_up level = ap (head_or []) (merged-pair_up (log_node sha256) level)

  one_level :
      (level : List Bytes) (x : Bytes)
      → length level ≡ 1
      → x ≡ log_root sha256 level
      → get_elem? level 0 ≡ some x
  one_level [] x n e = absurd (omega arith)
  one_level (y ∷ []) x n e = ap some (unfold merge_levels in sym e)
  one_level (y ∷ z ∷ level) x n e = absurd (omega arith)

  climb_proof-Placed :
      (bound : ℕ) (level : List Bytes) (i last : ℕ) (x : Bytes) (proof : List Bytes)
      → last ≤ bound
      → length level ≡ suc last
      → i ≤ last
      → AreDigests level
      → length x ≡ 32
      → climb_proof sha256 i last x proof (log_root sha256 level) ≡ true
      → Placed sha256 size level i x
  climb_proof-Placed bound level zero zero x [] b n h d s accepted = inl (
      one_level level x n
        (unfold climb_proof in (eq_iff x (log_root sha256 level)).0 (ground arith)))
  climb_proof-Placed bound level (suc i) zero x proof b n h d s accepted = absurd (omega arith)
  climb_proof-Placed bound level zero zero x (sibling ∷ proof) b n h d s accepted =
      cc (climb-long sha256 (log_root sha256 level) 0 x sibling proof)
  climb_proof-Placed bound level i (suc last) x [] b n h d s accepted =
      cc (climb-short sha256 (log_root sha256 level) i (suc last) x (omega arith))
  climb_proof-Placed zero level i (suc last) x (sibling ∷ proof) b n h d s accepted =
      absurd (omega arith)
  climb_proof-Placed (suc bound) level i (suc last) x (sibling ∷ proof) b n h d s accepted =
      let up = pair_up (log_node sha256) level in
      let up_size : length up ≡ suc (suc last / 2) =
        omega (arith, length-pair_up_exact (log_node sha256) level) in
      let placed : (y : Bytes) (rest : List Bytes)
          → length y ≡ 32
          → climb_proof sha256 (i / 2) (suc last / 2) y rest (log_root sha256 level) ≡ true
          → Placed sha256 size up (i / 2) y =
        λ y rest y_size e.
          climb_proof-Placed bound up (i / 2) (suc last / 2) y rest (omega arith) up_size
            (omega arith) (pair_up-AreDigests sha256 size level d) y_size
            (ap (climb_proof sha256 (i / 2) (suc last / 2) y rest) (log_root-pair_up level) ∙ e) in
      elim (step_cases i (suc last) h) [
        | inl odd ↦ Placed-right sha256 size level (suc last) n d x s i sibling odd h (
            placed _ proof (unfold log_node in size _) (
              sym (climb-right sha256 _ i (suc last) x sibling proof odd (omega arith)) ∙ accepted))
        | inr (inl (even, less)) ↦
            Placed-left sha256 size level (suc last) n d x s i sibling even less (
              placed _ proof (unfold log_node in size _)
                (sym (climb-left sha256 _ i (suc last) x sibling proof even less) ∙ accepted))
        | inr (inr (even, same)) ↦
            let here = log_root sha256 level in
            let up_accepted =
              ap (λ k. climb_proof sha256 (k / 2) (suc last / 2) x (sibling ∷ proof) here) same
              ∙ sym (climb-promoted sha256 here (suc last) x (sibling ∷ proof) even (omega arith))
              ∙ ap (λ k. climb_proof sha256 k (suc last) x (sibling ∷ proof) here) (sym same)
              ∙ accepted in
            subst (λ k. Placed sha256 size level k x) (sym same)
              (Placed-promoted sha256 size level (suc last) n d x s even (
                subst (λ k. Placed sha256 size up (k / 2) x) same
                  (placed x (sibling ∷ proof) s up_accepted)))
      ]

  log_leaves-AreDigests : (entries : List Bytes) → AreDigests (map (log_leaf sha256) entries)
  unfolding log_leaf
  log_leaves-AreDigests [] = tt
  log_leaves-AreDigests (entry ∷ entries) = (size _, log_leaves-AreDigests entries)

  get_elem?-log_leaf :
      (entries : List Bytes) (i : ℕ) (entry : Bytes)
      → get_elem? (map (log_leaf sha256) entries) i ≡ some (log_leaf sha256 entry)
      → (get_elem? entries i ≡ some entry) ⊎ Sha256Collision sha256
  get_elem?-log_leaf [] i entry e = cc
  get_elem?-log_leaf (other ∷ entries) zero entry e =
      elim (leaf_hash_binds sha256 size other entry (cc)) [
        | inl same ↦ inl (ap some same)
        | inr bad ↦ inr bad
      ]
  get_elem?-log_leaf (other ∷ entries) (suc i) entry e = get_elem?-log_leaf entries i entry e

accepted_range :
    (sha256 : Bytes → Bytes) (index tree_size : ℕ) (x : Bytes) (proof : List Bytes) (root : Bytes)
    → verify_inclusion sha256 index tree_size x proof root ≡ true
    → (index < tree_size) × (climb_proof sha256 index (tree_size - 1) x proof root ≡ true)
unfolding verify_inclusion
accepted_range sha256 index tree_size x proof root accepted = ground arith

-- When `verify_inclusion` accepts a proof that the leaf hash of an entry stands at an index of a
-- log, against the size and the root of that log, then the log holds this entry at this index, or
-- two different inputs of SHA-256 with one digest are at hand. SHA-256 is any function whose values
-- have 32 bytes; the index, the proof and the entry are arbitrary.
pub verify_inclusion_sound :
    (sha256 : Bytes → Bytes)
    → ((x : Bytes) → length (sha256 x) ≡ 32)
    → (entries : List Bytes) (index : ℕ) (entry : Bytes) (proof : List Bytes)
    → verify_inclusion sha256 index
        (length entries)
        (log_leaf sha256 entry)
        proof
        (log_root sha256 (map (log_leaf sha256) entries))
      ≡ true
    → (get_elem? entries index ≡ some entry) ⊎ Sha256Collision sha256
verify_inclusion_sound sha256 size entries index entry proof accepted =
    let level = map (log_leaf sha256) entries in
    let (below, climbs) =
      accepted_range sha256 index (length entries) (log_leaf sha256 entry) proof
        (log_root sha256 level) accepted in
    elim (climb_proof-Placed sha256 size (length entries) level index (length entries - 1)
      (log_leaf sha256 entry) proof (omega arith)
      (length-map (log_leaf sha256) entries ∙ omega arith) (omega arith)
      (log_leaves-AreDigests sha256 size entries) (unfold log_leaf in size _) climbs) [
        | inl found ↦ get_elem?-log_leaf sha256 size entries index entry found
        | inr bad ↦ inr bad
      ]
