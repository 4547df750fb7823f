-- ===== src/Coordinator/Planning/Placed.antt =====
-- To which nodes the shards go.
use chronus.Base.{ℕ, ◌≡◌, true, List, [], ◌∷◌, All, All-append}
use chronus.Meta.Types.{ShardInfo}
use chronus.Coordinator.Planning.{Plan, plan_nodes}
use chronus.Coordinator.Planning.Entries.{may_serve, IsIntn, Entries, IsGrown, Entries-plan_nodes}

-- The node may serve every one of the shards.
abbrev pub Serves : ℕ → List ℕ → ℕ → List ShardInfo → Type 0
Serves current blacklist node shards =
    All (λ shard. may_serve current blacklist node shard ≡ true) shards

-- Every shard of the plan is at a node that may serve it.
abbrev pub Placed : ℕ → List ℕ → Plan → Type 0
Placed current blacklist plan = Entries (Serves current blacklist) plan

Serves-IsGrown :
    (current : ℕ) (blacklist : List ℕ)
    → IsGrown current blacklist (λ shard. Unit) (Serves current blacklist)
Serves-IsGrown current blacklist = record {
  starts = λ node shard q serves. (serves, tt);
  grows = λ node shards shard holds q serves. All-append _ shards (shard ∷ []) holds (serves, tt);
}

All-Unit : (shards : List ShardInfo) → All (λ shard. Unit {0}) shards
All-Unit [] = tt
All-Unit (shard ∷ shards) = (tt, All-Unit shards)

-- Every shard of the plan is at one of its owners, and that is this node or a node that is not on
-- the blacklist, however the shards are shuffled and whatever numbers below its argument Intn gives.
pub plan_nodes-Placed :
    (current : ℕ) (blacklist : List ℕ) (intn : ℕ → ℕ → ℕ) (random : IsIntn intn)
    (shuffle : List ShardInfo → List ShardInfo) (shards : List ShardInfo)
    → Placed current blacklist (plan_nodes current blacklist intn shuffle shards)
plan_nodes-Placed current blacklist intn random shuffle shards =
    Entries-plan_nodes current blacklist (λ shard. Unit) (Serves current blacklist)
      (Serves-IsGrown current blacklist) intn random shuffle shards (All-Unit (shuffle shards))
