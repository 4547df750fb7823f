-- ===== src/Coordinator/Planning/Retry/Skipped.antt =====
-- The nodes that a round skips, and how many are left.
use chronus.Base.{
  ℕ, ◌+◌, ◌≤◌, ◌<◌, ◌≡◌, refl, true, false, List, [], ◌∷◌, arith, length, contains, ◌==◌,
  if◌then◌else◌, Bool-cases, inl, inr,
}
use chronus.Coordinator.Planning.{Plan}
use chronus.Coordinator.Planning.Retry.{skip_nodes}

-- How many of the nodes are not skipped?
abbrev pub nodes_left : List ℕ → List ℕ → ℕ
nodes_left skip [] = 0
nodes_left skip (node ∷ nodes) = (if contains node skip then 0 else 1) + nodes_left skip nodes

abbrev pub Includes : List ℕ → List ℕ → Type 0
Includes skip' skip = (node : ℕ) → contains node skip ≡ true → contains node skip' ≡ true

nodes_left_mono :
    (skip skip' nodes : List ℕ)
    → Includes skip' skip
    → nodes_left skip' nodes ≤ nodes_left skip nodes
nodes_left_mono skip skip' [] more = omega arith
nodes_left_mono skip skip' (node ∷ nodes) more =
    let rest = nodes_left_mono skip skip' nodes more in
    let here = more node in ground (arith, rest, here)

pub nodes_left_lt :
    (skip skip' nodes : List ℕ) (node : ℕ)
    → Includes skip' skip
    → contains node nodes ≡ true
    → contains node skip ≡ false
    → contains node skip' ≡ true
    → nodes_left skip' nodes < nodes_left skip nodes
nodes_left_lt skip skip' [] node more known fresh skipped = ground (arith, known)
nodes_left_lt skip skip' (x ∷ nodes) node more known fresh skipped =
    let mono = nodes_left_mono skip skip' nodes more in
    let here = more x in
    elim (Bool-cases (x == node)) [
      | inl same ↦
          let equal : x ≡ node = ground (arith, same) in
          rw equal (ground (arith, mono, fresh, skipped))
      | inr apart ↦
          let later : contains node nodes ≡ true = ground (arith, known, apart) in
          let rest = nodes_left_lt skip skip' nodes node more later fresh skipped in
          ground (arith, rest, here)
    ]

pub Includes-skip_nodes : (plans : Plan) (skip : List ℕ) → Includes (skip_nodes plans skip) skip
unfolding skip_nodes
Includes-skip_nodes [] skip node h = h
Includes-skip_nodes (plan ∷ plans) skip node h =
    let rest = Includes-skip_nodes plans skip node h in ground (arith, rest)

pub nodes_left-nil : (nodes : List ℕ) → nodes_left [] nodes ≡ length nodes
nodes_left-nil [] = refl
nodes_left-nil (node ∷ nodes) = omega (arith, nodes_left-nil nodes)
