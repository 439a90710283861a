-- ===== src/Detectors/WriteRate/Windows.antt =====
-- The windows of `WriteRateDetector`: looking them up, and dropping old times from them.
use memory_blackbox.Prelude.{
  ℕ, ◌+◌, ◌-◌, ◌≤◌, ◌≡◌, ◌↔◌, inl, inr, refl, ap, ap₂, ◌∙◌, true, false, List, [], ◌∷◌, ◌++◌, arith,
  eq_iff, ltb, length, All, All-append, Bool-cases, if◌then◌else◌,
}
use memory_blackbox.Detectors.WriteRate.{Key, History, same_key, window_of, set_window, expire}

pub same_key_iff : (a b : Key) → (same_key a b ≡ true) ↔ (a ≡ b)
same_key_iff (n, s) (n', s') = (
  λ h. ap₂ (λ x y. (x, y)) (ground (arith, eq_iff n n')) (ground (arith, eq_iff s s')),
  λ h.
      ground (
        arith,
        (eq_iff n n').1 (ap (λ (k : Key). k.0) h),
        (eq_iff s s').1 (ap (λ (k : Key). k.1) h),
      ),
)

pub window_of-set_window :
    (key : Key) (window : List ℕ) (h : History) → window_of key (set_window key window h) ≡ window
unfolding window_of set_window
window_of-set_window key window [] = rw ((same_key_iff key key).1 refl) refl
window_of-set_window key window ((k, old) ∷ h) = elim (Bool-cases (same_key k key)) [
  | inl same ↦ rw same (rw same refl)
  | inr other ↦ rw other (rw other (window_of-set_window key window h))
]

pub window_of-set_window_other :
    (key other : Key) (window : List ℕ) (h : History)
    → same_key other key ≡ false
    → window_of key (set_window other window h) ≡ window_of key h
unfolding window_of set_window
window_of-set_window_other key other window [] h = rw h refl
window_of-set_window_other key other window ((k, old) ∷ rest) h =
    elim (Bool-cases (same_key k other)) [
      | inl same ↦
          let apart : same_key k key ≡ false =
            ap (λ x. same_key x key) ((same_key_iff k other).0 same) ∙ h in
          rw same (rw apart refl)
      | inr apart ↦ rw apart (
          ap (λ w. if same_key k key then old else w)
            (window_of-set_window_other key other window rest h))
    ]

-- What an earlier write dropped, a later one drops too.
pub expire-expire :
    (now later seconds : ℕ) (ts xs : List ℕ)
    → now ≤ later
    → expire later seconds (expire now seconds ts ++ xs) ≡ expire later seconds (ts ++ xs)
unfolding expire
expire-expire now later seconds [] xs h = refl
expire-expire now later seconds (t ∷ ts) xs h =
    ground (arith, expire-expire now later seconds ts xs h)

-- The writes within the window.
unfoldable pub recent : ℕ → ℕ → List ℕ → ℕ
recent now seconds [] = 0
recent now seconds (t ∷ ts) = (if ltb seconds (now - t) then 0 else 1) + recent now seconds ts

-- Each time is at most every later one.
abbrev pub IsAscending : List ℕ → Type 0
IsAscending [] = Unit
IsAscending (t ∷ ts) = All (λ u. t ≤ u) ts × IsAscending ts

recent-length :
    (now seconds t : ℕ) (ts : List ℕ)
    → All (λ u. t ≤ u) ts
    → ltb seconds (now - t) ≡ false
    → recent now seconds ts ≡ length ts
unfolding recent
recent-length now seconds t [] h kept = refl
recent-length now seconds t (u ∷ ts) h kept =
    ground (arith, recent-length now seconds t ts h.1 kept, h.0)

pub length-expire :
    (now seconds : ℕ) (ts : List ℕ)
    → IsAscending ts
    → length (expire now seconds ts) ≡ recent now seconds ts
unfolding expire recent
length-expire now seconds [] h = refl
length-expire now seconds (t ∷ ts) h = elim (Bool-cases (ltb seconds (now - t))) [
  | inl old ↦ rw old (omega (arith, length-expire now seconds ts h.1))
  | inr kept ↦ rw kept (omega (arith, recent-length now seconds t ts h.0 kept))
]

pub IsAscending-concat :
    (ts : List ℕ) (now : ℕ) → IsAscending ts → All (λ t. t ≤ now) ts → IsAscending (ts ++ now ∷ [])
IsAscending-concat [] now h below = (tt, tt)
IsAscending-concat (t ∷ ts) now h below =
    (All-append (λ u. t ≤ u) ts (now ∷ []) h.0 (below.0, tt), IsAscending-concat ts now h.1 below.1)
