-- ===== src/X/Math.antt =====
-- x/math.go: Max and Min, of a first argument and the others, for arguments that are not negative.
use chronus.Base.{ℕ, ◌≡◌, List, [], ◌∷◌, ltb, if◌then◌else◌, min, arith, Bool-cases, inl, inr}

unfoldable pub max_of : ℕ → List ℕ → ℕ
max_of result [] = result
max_of result (a ∷ args) = max_of (if ltb result a then a else result) args

unfoldable pub min_of : ℕ → List ℕ → ℕ
min_of result [] = result
min_of result (a ∷ args) = min_of (if ltb a result then a else result) args

pub min_of-pair : (a b : ℕ) → min_of a (b ∷ []) ≡ min a b
unfolding min_of
min_of-pair a b = elim (Bool-cases (ltb b a)) [
  | inl less ↦ ground (arith, less)
  | inr more ↦ ground (arith, more)
]
