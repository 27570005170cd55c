-- ===== src/Linq/Tests.antt =====
-- The theorems on slices of numbers.
use devkit_go.Prelude.{ℕ, List, [], ◌∷◌}

abbrev numbers : List ℕ
numbers = 1 ∷ 2 ∷ 3 ∷ 4 ∷ 5 ∷ []
