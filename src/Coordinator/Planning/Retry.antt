-- ===== src/Coordinator/Planning/Retry.antt =====
-- coordinator/cluster_planning.go: ExecuteWithRetry and what it calls. A query function is called for
-- a node and its shards; a round is one pass of the loop of executePlanWithRetry. What a call gives in
-- a round, the random numbers of a round and the order in which a map is walked are parameters. The
-- goroutines of ExecuteWithRetry are taken in the order in which they finish.
mod Skipped
pub mod Ends
pub mod Complete
use chronus.Base.{ℕ, zero, suc, List, [], ◌∷◌, ◌++◌, Option, none, some, Outcome, ok, err, panic}
use chronus.Meta.Types.{ShardInfo}
use chronus.Coordinator.Planning.{Plan, plan_nodes}

-- ErrRetry, or another error.
pub data QueryError (E : Type 0) : Type 0 where
  retry : QueryError E
  other : E → QueryError E

-- The `nil` object is `none`.
pub record Env (R E : Type 0) : Type 0 where
  pub query : ℕ → ℕ → List ShardInfo → Outcome (QueryError E) (Option R)
  pub shuffle : ℕ → List ShardInfo → List ShardInfo
  pub intn : ℕ → ℕ → ℕ → ℕ
  pub walk : ℕ → Plan → Plan

pub record Executed (R E : Type 0) : Type 0 where
  pub result : List R
  pub need_retry : Plan
  pub err_last : Option E

-- A later error replaces an earlier one.
abbrev pub last_error : {E : Type 0} → Option E → Option E → Option E
last_error e none = e
last_error e (some e') = some e'

-- A panic of the query function is recovered, and both results are then nil.
unfoldable pub execute_plan_single : {A E : Type 0} → Outcome E (Option A) → Outcome E (Option A)
execute_plan_single panic = ok none
execute_plan_single outcome = outcome

-- One pass of the loop of executePlans, before the passes that follow.
unfoldable pub note_plan :
    {R E : Type 0}
    → ℕ × List ShardInfo
    → Outcome (QueryError E) (Option R)
    → Executed R E
    → Executed R E
note_plan plan (ok none) rest = rest
note_plan plan (ok (some obj)) rest = record rest { result = obj ∷ rest.result }
note_plan plan (err retry) rest = record rest { need_retry = plan ∷ rest.need_retry }
note_plan plan (err (other e)) rest = record rest { err_last = last_error (some e) rest.err_last }
note_plan plan panic rest = rest

-- The nodes that need a retry are skipped from then on.
unfoldable pub skip_nodes : Plan → List ℕ → List ℕ
skip_nodes [] skip = skip
skip_nodes (plan ∷ plans) skip = plan.0 ∷ skip_nodes plans skip

unfoldable pub shards_remained : Plan → List ShardInfo
shards_remained [] = []
shards_remained (plan ∷ plans) = plan.1 ++ shards_remained plans

module _ {R E : Type 0} (env : Env R E) where
  unfoldable pub execute_plans : ℕ → Plan → Executed R E
  execute_plans round [] = record { result = []; need_retry = []; err_last = none }
  execute_plans round (plan ∷ plans) =
      note_plan plan (execute_plan_single (env.query round plan.0 plan.1))
        (execute_plans round plans)

  -- The plans of the next round.
  unfoldable pub replan : ℕ → List ℕ → Plan → Plan
  replan round skip [] = []
  replan round skip (plan ∷ plans) =
      env.walk round
        (plan_nodes 0 skip (env.intn round) (env.shuffle round) (shards_remained (plan ∷ plans)))

  -- The loop, with fuel for the rounds.
  unfoldable pub execute_rounds :
      ℕ → ℕ → List ℕ → Plan → List R → Option E → Option (List R × Option E)
  execute_rounds zero round skip plans result errors = none
  execute_rounds (suc fuel) round skip [] result errors = some (result, errors)
  execute_rounds (suc fuel) round skip (plan ∷ plans) result errors =
      let done = execute_plans round (plan ∷ plans) in
      let skip' = skip_nodes done.need_retry skip in
      execute_rounds fuel (suc round) skip' (replan round skip' done.need_retry)
        (result ++ done.result) (last_error errors done.err_last)

  unfoldable pub execute_plan_with_retry : ℕ → ℕ → List ShardInfo → Option (List R × Option E)
  execute_plan_with_retry fuel node shards = execute_rounds fuel 0 [] ((node, shards) ∷ []) [] none

-- What one goroutine adds to the results of those that finish after it.
unfoldable pub add_results :
    {R E : Type 0}
    → Option (List R × Option E)
    → Option (List R × Option E)
    → Option (List R × Option E)
add_results (some (arr, e)) (some (rest, e')) = some (arr ++ rest, last_error e e')
add_results none rest = none
add_results (some done) none = none

unfoldable pub execute_with_retry :
    {R E : Type 0} → (ℕ → Env R E) → ℕ → Plan → Option (List R × Option E)
execute_with_retry env fuel [] = some ([], none)
execute_with_retry env fuel (plan ∷ plans) =
    add_results (execute_plan_with_retry (env plan.0) fuel plan.0 plan.1)
      (execute_with_retry env fuel plans)
