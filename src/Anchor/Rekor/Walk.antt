-- ===== src/Anchor/Rekor/Walk.antt =====
-- One step of `climb_proof`, for a right node, a left one, and a last one that is promoted.
use memory_blackbox.Prelude.{
  ℕ, zero, suc, ◌/◌, ◌%◌, ◌≤◌, ◌<◌, ◌≡◌, ◌≢◌, refl, sym, ap, ◌∙◌, ◌⊎◌, inl, inr, ◌↔◌, subst, false,
  List, [], ◌∷◌, arith, Bytes,
}
use memory_blackbox.Anchor.Rekor.Inclusion.{skip_levels, log_node, climb_proof}

skip_odd : (fuel node last : ℕ) → node % 2 ≡ 1 → skip_levels fuel node last ≡ (node, last)
unfolding skip_levels
skip_odd zero node last h = refl
skip_odd (suc fuel) node last h = ground arith

skip_even :
    (fuel node last : ℕ)
    → node % 2 ≡ 0
    → node ≢ 0
    → skip_levels (suc fuel) node last ≡ skip_levels fuel (node / 2) (last / 2)
unfolding skip_levels
skip_even fuel node last h k = ground arith

-- Enough fuel is as good as more.
skip_fuel :
    (f g node last : ℕ) → node ≤ f → node ≤ g → skip_levels f node last ≡ skip_levels g node last
unfolding skip_levels
skip_fuel zero zero node last p q = refl
skip_fuel zero (suc g) node last p q = ground arith
skip_fuel (suc f) zero node last p q = ground arith
skip_fuel (suc f) (suc g) node last p q = ground (arith, skip_fuel f g (node / 2) (last / 2))

-- The runs of the inner `while` loop, from a state of its two counters to the state it stops in.
pub data Runs : ℕ → ℕ → ℕ → ℕ → Type 0 where
  stops : {node last : ℕ} → (node ≡ 0) ⊎ (node % 2 ≡ 1) → Runs node last node last
  halves :
      {node last node' last' : ℕ}
      → node ≢ 0
      → node % 2 ≡ 0
      → Runs (node / 2) (last / 2) node' last'
      → Runs node last node' last'

skip_levels-stop :
    (fuel node last : ℕ) → (node ≡ 0) ⊎ (node % 2 ≡ 1) → skip_levels fuel node last ≡ (node, last)
unfolding skip_levels
skip_levels-stop zero node last h = refl
skip_levels-stop (suc fuel) node last h = ground arith

skip_levels-Runs_from :
    (fuel node last : ℕ)
    → node ≤ fuel
    → Runs node last (skip_levels fuel node last).0 (skip_levels fuel node last).1
skip_levels-Runs_from zero node last h =
    let stop : (node ≡ 0) ⊎ (node % 2 ≡ 1) = inl (omega arith) in
    rw (skip_levels-stop zero node last stop) (Runs.stops stop)
skip_levels-Runs_from (suc fuel) node last h = elim (stop_cases node) [
  | inl stop ↦ rw (skip_levels-stop (suc fuel) node last stop) (Runs.stops stop)
  | inr (some_left, even) ↦
      rw (skip_even fuel node last even some_left) (
        Runs.halves some_left even (skip_levels-Runs_from fuel (node / 2) (last / 2) (omega arith)))
]
  where
    stop_cases : (n : ℕ) → ((n ≡ 0) ⊎ (n % 2 ≡ 1)) ⊎ ((n ≢ 0) × (n % 2 ≡ 0))
    stop_cases n = omega arith

Runs-skip_levels :
    {node last node' last' : ℕ}
    → Runs node last node' last'
    → (fuel : ℕ) → node ≤ fuel
    → skip_levels fuel node last ≡ (node', last')
Runs-skip_levels {node} {last} (stops h) fuel p = skip_levels-stop fuel node last h
Runs-skip_levels {node} {last} (halves some_left even run) zero p = absurd (omega arith)
Runs-skip_levels {node} {last} (halves some_left even run) (suc fuel) p =
    skip_even fuel node last even some_left ∙ Runs-skip_levels run fuel (omega arith)

-- The inner `while` loop of `verify_inclusion` ends from every state of its counters, in exactly one
-- state, and that state is what `skip_levels` returns, on any fuel from the index up. A run halves
-- both counters as long as the index is even and not 0, and stops otherwise.
pub skip_levels-Runs :
    (fuel node last node' last' : ℕ)
    → node ≤ fuel
    → Runs node last node' last' ↔ (skip_levels fuel node last ≡ (node', last'))
skip_levels-Runs fuel node last node' last' enough = (
  λ run. Runs-skip_levels run fuel enough,
  λ e.
      subst (λ (p : ℕ × ℕ). Runs node last p.0 p.1) e (skip_levels-Runs_from fuel node last enough),
)

skip_half :
    (last : ℕ)
    → last % 2 ≡ 0
    → last ≢ 0
    → skip_levels last last last ≡ skip_levels (last / 2) (last / 2) (last / 2)
skip_half last even h =
    skip_fuel last (suc last) last last (omega arith) (omega arith)
    ∙ skip_even last last last even h
    ∙ skip_fuel last (last / 2) (last / 2) (last / 2) (omega arith) (omega arith)

module _ (sha256 : Bytes → Bytes) (root : Bytes) where
  pub climb-right :
      (node last : ℕ) (x sibling : Bytes) (proof : List Bytes)
      → node % 2 ≡ 1
      → last ≢ 0
      → climb_proof sha256 node last x (sibling ∷ proof) root
        ≡ climb_proof sha256 (node / 2) (last / 2) (log_node sha256 sibling x) proof root
  unfolding climb_proof
  climb-right node last x sibling proof odd h = rw (skip_odd node node last odd) (ground arith)

  pub climb-left :
      (node last : ℕ) (x sibling : Bytes) (proof : List Bytes)
      → node % 2 ≡ 0
      → node < last
      → climb_proof sha256 node last x (sibling ∷ proof) root
        ≡ climb_proof sha256 (node / 2) (last / 2) (log_node sha256 x sibling) proof root
  unfolding climb_proof
  climb-left node last x sibling proof even h = ground arith

  climb-last :
      (last : ℕ) (x sibling : Bytes) (proof : List Bytes)
      → last ≢ 0
      → climb_proof sha256 last last x (sibling ∷ proof) root
        ≡ climb_proof sha256
            ((skip_levels last last last).0 / 2)
            ((skip_levels last last last).1 / 2)
            (log_node sha256 sibling x)
            proof
            root
  unfolding climb_proof
  climb-last last x sibling proof h = ground arith

  pub climb-promoted :
      (last : ℕ) (x : Bytes) (proof : List Bytes)
      → last % 2 ≡ 0
      → last ≢ 0
      → climb_proof sha256 last last x proof root
        ≡ climb_proof sha256 (last / 2) (last / 2) x proof root
  climb-promoted last x [] even h = unfold climb_proof in ground arith
  climb-promoted last x (sibling ∷ proof) even h =
      climb-last last x sibling proof h
      ∙ ap
          (λ (p : ℕ × ℕ).
            climb_proof sha256 (p.0 / 2) (p.1 / 2) (log_node sha256 sibling x) proof root)
          (skip_half last even h)
      ∙ sym (climb-last (last / 2) x sibling proof (omega arith))

  -- More than one node, and no proof left.
  pub climb-short :
      (node last : ℕ) (x : Bytes) → last ≢ 0 → climb_proof sha256 node last x [] root ≡ false
  unfolding climb_proof
  climb-short node last x h = ground arith

  pub climb-long :
      (node : ℕ) (x sibling : Bytes) (proof : List Bytes)
      → climb_proof sha256 node 0 x (sibling ∷ proof) root ≡ false
  unfolding climb_proof
  climb-long node x sibling proof = refl
