-- ===== src/Tests/Ids.antt =====
-- Runs of the id generator.
use memory_blackbox.Prelude.{ℕ, List, [], ◌∷◌, arith}
use memory_blackbox.Model.Ids.{initial, mint, IsIncreasing, mint-IsIncreasing}

-- A clock that goes back.
abbrev draws : List (ℕ × ℕ)
draws = (1000, 77) ∷ (1000, 5) ∷ (999, 6) ∷ (1001, 1) ∷ []

mint-IsIncreasing_example : IsIncreasing (mint initial draws)
mint-IsIncreasing_example = mint-IsIncreasing 1001 draws (omega arith) (omega arith)
