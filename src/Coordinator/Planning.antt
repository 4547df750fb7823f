-- ===== src/Coordinator/Planning.antt =====
-- coordinator/cluster_planning.go: PlanNodes, which spreads the shards of a query over the nodes.
-- The map is an association list. `shuffle` is what rand.Shuffle makes of the shards, and `intn k n`
-- what rand.Intn(n) gives when k shards are left.
pub mod Placed
pub mod Counted
pub mod Entries
pub mod Retry
use chronus.Base.{
  ℕ, ◌+◌, ◌<◌, Bool, true, false, List, [], ◌∷◌, ◌++◌, Option, none, some, length, get_or, contains,
  ◌==◌, if◌then◌else◌,
}
use chronus.Meta.Types.{ShardInfo}

abbrev pub Plan : Type 0
Plan = List (ℕ × List ShardInfo)

-- The owners that are not on the blacklist.
unfoldable pub get_owners : List ℕ → List ℕ → List ℕ
get_owners blacklist [] = []
get_owners blacklist (owner ∷ owners) =
    let rest = get_owners blacklist owners in
    if contains owner blacklist then rest else owner ∷ rest

-- shardsMap[node] = append(shardsMap[node], shard)
unfoldable pub add_shard : ℕ → ShardInfo → Plan → Plan
add_shard node shard [] = (node, shard ∷ []) ∷ []
add_shard node shard (entry ∷ plan) =
    if entry.0 == node
    then (node, entry.1 ++ shard ∷ []) ∷ plan
    else entry ∷ add_shard node shard plan

unfoldable pub is_selected : ℕ → Plan → Bool
is_selected node [] = false
is_selected node (entry ∷ plan) = if entry.0 == node then true else is_selected node plan

-- The first of the owners that the plan has a place for already.
unfoldable pub selected_owner : List ℕ → Plan → Option ℕ
selected_owner [] plan = none
selected_owner (owner ∷ owners) plan =
    let rest = selected_owner owners plan in if is_selected owner plan then some owner else rest

module _ (current : ℕ) (blacklist : List ℕ) (intn : ℕ → ℕ → ℕ) where
  -- The choice between the owners, with k shards left.
  unfoldable pub choose : ℕ → List ℕ → Option ℕ → ℕ
  choose k owners (some owner) = owner
  choose k owners none = get_or owners (intn k (length owners)) 0

  unfoldable pub plan_remote : ℕ → List ℕ → ShardInfo → Plan → Plan
  plan_remote k [] shard plan = plan
  plan_remote k (owner ∷ owners) shard plan =
      add_shard (choose k (owner ∷ owners) (selected_owner (owner ∷ owners) plan)) shard plan

  -- One round of the loop.
  unfoldable pub plan_shard : ℕ → ShardInfo → Plan → Plan
  plan_shard k shard plan =
      if contains current shard.owners
      then add_shard current shard plan
      else plan_remote k (get_owners blacklist shard.owners) shard plan

  unfoldable pub plan_shards : List ShardInfo → Plan → Plan
  plan_shards [] plan = plan
  plan_shards (shard ∷ shards) plan = plan_shards shards (plan_shard (length shards) shard plan)

  unfoldable pub plan_nodes : (List ShardInfo → List ShardInfo) → List ShardInfo → Plan
  plan_nodes shuffle shards = plan_shards (shuffle shards) []
