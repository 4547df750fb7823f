-- ===== src/Meta/Groups/RoundRobin.antt =====
-- The round robin of CreateShardGroup spreads a group's shards over distinct nodes.
use native.Mathlib.Nat.{mod-lt, div-add-mod, zero-add, add-zero, zero-mul}
use chronus.Base.{
  ℕ, zero, suc, ◌+◌, ◌*◌, ◌%◌, ◌≤◌, ◌<◌, ◌≡◌, ◌≢◌, refl, sym, ap, ◌∙◌, true, false, List, [], ◌∷◌,
  ◌++◌, arith, All, Distinct, contains, contains-get_or, length, get_or, ◌==◌,
}
use chronus.Meta.Types.{ShardInfo}
use chronus.Meta.Groups.{round_owners, round_robin}

-- The owners of all the shards, one list after the other.
abbrev pub all_owners : List ShardInfo → List ℕ
all_owners [] = []
all_owners (s ∷ ss) = s.owners ++ all_owners ss

-- The shards have no owners yet.
abbrev pub Fresh : ShardInfo → Type 0
Fresh s = s.owners ≡ []

suc_add : (a b : ℕ) → suc a + b ≡ suc (a + b)
suc_add a b = omega arith

suc_add_comm : (a b : ℕ) → suc a + b ≡ a + suc b
suc_add_comm a b = omega arith

one_more_round : (k r : ℕ) → r + k * r ≡ suc k * r
one_more_round k r = omega arith

mod-ne : (n i j : ℕ) → i < j → j < i + n → i % n ≢ j % n
mod-ne n i j lt near e = grind (arith, div-add-mod i n, div-add-mod j n)

get_or-Distinct :
    (l : List ℕ) (i j : ℕ)
    → Distinct l
    → i < length l
    → j < length l
    → i ≢ j
    → (get_or l j 0 == get_or l i 0) ≡ false
get_or-Distinct [] i j d hi hj ne = absurd (omega arith)
get_or-Distinct (x ∷ l) zero zero d hi hj ne = absurd (ne refl)
get_or-Distinct (x ∷ l) zero (suc j) d hi hj ne = ground (arith, contains-get_or l j (omega arith))
get_or-Distinct (x ∷ l) (suc i) zero d hi hj ne = ground (arith, contains-get_or l i (omega arith))
get_or-Distinct (x ∷ l) (suc i) (suc j) d hi hj ne =
    get_or-Distinct l i j d.1 (omega arith) (omega arith) (λ e. ne (ap suc e))

module _ (nodes : List ℕ) where
  round_owners-append :
      (i a b : ℕ)
      → round_owners nodes i (a + b) ≡ round_owners nodes i a ++ round_owners nodes (i + a) b
  unfolding round_owners
  round_owners-append i zero b = cc (zero-add b, add-zero i)
  round_owners-append i (suc a) b = rw suc_add (
      ap (◌∷◌ (get_or nodes (i % length nodes) 0))
        (round_owners-append (suc i) a b ∙ cc (suc_add_comm i a)))

  -- A node does not come again before the round is over.
  not_again :
      (i j k : ℕ)
      → Distinct nodes
      → i < j
      → j + k ≤ i + length nodes
      → contains (get_or nodes (i % length nodes) 0) (round_owners nodes j k) ≡ false
  unfolding round_owners
  not_again i j zero d lt fits = refl
  not_again i j (suc k) d lt fits =
      let some_node : 0 < length nodes = omega arith in
      ground (
        arith,
        get_or-Distinct nodes (i % length nodes) (j % length nodes) d (mod-lt i some_node)
            (mod-lt j some_node) (mod-ne (length nodes) i j lt (omega arith)),
        not_again i (suc j) k d (omega arith) (omega arith),
      )

  round_owners-Distinct :
      (i k : ℕ) → Distinct nodes → k ≤ length nodes → Distinct (round_owners nodes i k)
  unfolding round_owners
  round_owners-Distinct i zero d fits = tt
  round_owners-Distinct i (suc k) d fits = (
    not_again i (suc i) k d (omega arith) (omega arith),
    round_owners-Distinct (suc i) k d (omega arith),
  )

  length-round_owners : (i k : ℕ) → length (round_owners nodes i k) ≡ k
  unfolding round_owners
  length-round_owners i zero = refl
  length-round_owners i (suc k) = ap suc (length-round_owners (suc i) k)

  round_owners-contained :
      (i k : ℕ) → 0 < length nodes → All (λ o. contains o nodes ≡ true) (round_owners nodes i k)
  unfolding round_owners
  round_owners-contained i zero h = tt
  round_owners-contained i (suc k) h =
      (contains-get_or nodes (i % length nodes) (mod-lt i h), round_owners-contained (suc i) k h)

  all_owners-round_robin :
      (i r : ℕ) (ss : List ShardInfo)
      → All Fresh ss
      → all_owners (round_robin nodes i r ss) ≡ round_owners nodes i (length ss * r)
  unfolding round_robin
  all_owners-round_robin i r [] h = unfold round_owners in rw zero-mul
  all_owners-round_robin i r (s ∷ ss) h = rw (h.0) (
      ap (λ l. round_owners nodes i r ++ l) (all_owners-round_robin (i + r) r ss h.1)
      ∙ sym (round_owners-append i r (length ss * r))
      ∙ ap (round_owners nodes i) (one_more_round (length ss) r))

  -- One shard's owners: as many as asked for, and each of them an available node.
  abbrev pub OwnedBy : ℕ → ShardInfo → Type 0
  OwnedBy r s = (length s.owners ≡ r) × All (λ o. contains o nodes ≡ true) s.owners

  pub round_robin-OwnedBy :
      (i r : ℕ) (ss : List ShardInfo)
      → 0 < length nodes
      → All Fresh ss
      → All (OwnedBy r) (round_robin nodes i r ss)
  unfolding round_robin
  round_robin-OwnedBy i r [] some_node h = tt
  round_robin-OwnedBy i r (s ∷ ss) some_node h = (
    rw (h.0) (length-round_owners i r, round_owners-contained i r some_node),
    round_robin-OwnedBy (i + r) r ss some_node h.1,
  )

  -- No node owns two shards of the group, nor one shard twice, if there are nodes enough.
  pub round_robin-disjoint :
      (i r : ℕ) (ss : List ShardInfo)
      → Distinct nodes
      → length ss * r ≤ length nodes
      → All Fresh ss
      → Distinct (all_owners (round_robin nodes i r ss))
  round_robin-disjoint i r ss d fits h =
      rw all_owners-round_robin (round_owners-Distinct i (length ss * r) d fits)

  pub length-round_robin :
      (i r : ℕ) (ss : List ShardInfo) → length (round_robin nodes i r ss) ≡ length ss
  unfolding round_robin
  length-round_robin i r [] = refl
  length-round_robin i r (s ∷ ss) = ap suc (length-round_robin (i + r) r ss)
