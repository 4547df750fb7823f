-- ===== src/Coordinator/Planning/Retry/Ends.antt =====
-- The rounds come to an end: each one that is not the last skips a further node.
use mathlib.Core.List.{Permᴰ}
use chronus.Base.{
  ℕ, zero, suc, ◌+◌, ◌<◌, ◌≡◌, refl, ap, true, false, List, [], ◌∷◌, Option, none, some, Outcome,
  ok, err, panic, arith, length, contains, ◌==◌, contains-append, All-of_contains, ◌∙◌, All,
  All-append, All-impl, All-Perm, All-contains, Bool-cases, inl, inr,
}
use chronus.Meta.Types.{ShardInfo}
use chronus.Meta.Groups.RoundRobin.{all_owners}
use chronus.Coordinator.Planning.{Plan}
use chronus.Coordinator.Planning.Entries.{may_serve, IsIntn, Entries, IsGrown, Entries-plan_nodes}
use chronus.Coordinator.Planning.Retry.Skipped.{
  nodes_left, nodes_left_lt, nodes_left-nil, Includes-skip_nodes,
}
use chronus.Coordinator.Planning.Retry.{
  QueryError, retry, other, Env, Executed, note_plan, skip_nodes, shards_remained, execute_plans,
  replan, execute_rounds, execute_plan_with_retry,
}

-- What Go's packages promise: a shuffle and a walk of a map change the order alone.
pub record IsEnv {R E : Type 0} (env : Env R E) : Type 0 where
  pub random : (round : ℕ) → IsIntn (env.intn round)
  pub shuffled : (round : ℕ) (shards : List ShardInfo) → Permᴰ shards (env.shuffle round shards)
  pub walked : (round : ℕ) (plan : Plan) → Permᴰ plan (env.walk round plan)

-- The owners of a shard are known nodes, and 0 is none of them.
abbrev pub Known : List ℕ → ShardInfo → Type 0
Known nodes shard =
    All (λ owner. contains owner nodes ≡ true) shard.owners × (contains 0 shard.owners ≡ false)

-- An entry of a round: a known node that is not skipped, with known shards.
abbrev Open : List ℕ → List ℕ → ℕ → List ShardInfo → Type 0
Open nodes skip node shards =
    (contains node nodes ≡ true) × (contains node skip ≡ false) × All (Known nodes) shards

module _ {R E : Type 0} (env : Env R E) where
  Entries-note_plan :
      (P : ℕ → List ShardInfo → Type 0) (plan : ℕ × List ShardInfo)
      (outcome : Outcome (QueryError E) (Option R)) (rest : Executed R E)
      → P plan.0 plan.1
      → Entries P rest.need_retry
      → Entries P (note_plan plan outcome rest).need_retry
  unfolding note_plan
  Entries-note_plan P plan (ok none) rest here holds = holds
  Entries-note_plan P plan (ok (some obj)) rest here holds = holds
  Entries-note_plan P plan (err retry) rest here holds = (here, holds)
  Entries-note_plan P plan (err (other e)) rest here holds = holds
  Entries-note_plan P plan panic rest here holds = holds

  -- A retry is one of the plans.
  pub Entries-execute_plans :
      (P : ℕ → List ShardInfo → Type 0) (round : ℕ) (plans : Plan)
      → Entries P plans
      → Entries P (execute_plans env round plans).need_retry
  unfolding execute_plans
  Entries-execute_plans P round [] holds = tt
  Entries-execute_plans P round (plan ∷ plans) holds =
      Entries-note_plan P plan _ (execute_plans env round plans) holds.0
        (Entries-execute_plans P round plans holds.1)

-- What holds of the shards of the entries holds of the shards that remain.
pub All-shards_remained :
    (Q : ShardInfo → Type 0) (plans : Plan)
    → Entries (λ node shards. All Q shards) plans
    → All Q (shards_remained plans)
unfolding shards_remained
All-shards_remained Q [] holds = tt
All-shards_remained Q (plan ∷ plans) holds =
    All-append Q plan.1 (shards_remained plans) holds.0 (All-shards_remained Q plans holds.1)

-- A node that serves a shard, with 0 as the current node, is an owner that is not skipped.
serves-fresh :
    (nodes skip : List ℕ) (node : ℕ) (shard : ShardInfo)
    → Known nodes shard
    → may_serve 0 skip node shard ≡ true
    → (contains node nodes ≡ true) × (contains node skip ≡ false)
serves-fresh nodes skip node shard known serves =
    let owned : contains node shard.owners ≡ true = ground (arith, serves) in
    let nonzero : (node == 0) ≡ false = elim (Bool-cases (node == 0)) [
      | inl same ↦
          let equal : node ≡ 0 = ground (arith, same) in
          cc (ap (λ n. contains n shard.owners) equal, owned, known.1)
      | inr apart ↦ apart
    ] in
    (All-contains _ shard.owners node known.0 owned, ground (arith, serves, nonzero))

Open-IsGrown : (nodes skip : List ℕ) → IsGrown 0 skip (Known nodes) (Open nodes skip)
Open-IsGrown nodes skip = record {
  starts = λ node shard known serves.
      let fresh = serves-fresh nodes skip node shard known serves in
      (fresh.0, fresh.1, (known, tt));
  grows = λ node shards shard holds known serves.
      (holds.0, holds.1, All-append (Known nodes) shards (shard ∷ []) holds.2 (known, tt));
}

-- Is there fuel for the rounds that may follow?
abbrev Enough : ℕ → List ℕ → List ℕ → Plan → Type 0
Enough fuel nodes skip [] = 0 < fuel
Enough fuel nodes skip (plan ∷ plans) = nodes_left skip nodes < fuel

enough :
    (fuel : ℕ) (nodes skip : List ℕ) (plans : Plan)
    → nodes_left skip nodes < fuel
    → Enough fuel nodes skip plans
enough fuel nodes skip [] h = omega arith
enough fuel nodes skip (plan ∷ plans) h = h

module _ {R E : Type 0} (env : Env R E) (go : IsEnv env) (nodes : List ℕ) where
  Entries-replan :
      (round : ℕ) (skip : List ℕ) (plans : Plan)
      → Entries (λ node shards. All (Known nodes) shards) plans
      → Entries (Open nodes skip) (replan env round skip plans)
  unfolding replan
  Entries-replan round skip [] holds = tt
  Entries-replan round skip (plan ∷ plans) holds =
      All-Perm (λ entry. Open nodes skip entry.0 entry.1) (go.walked round _)
        (Entries-plan_nodes 0 skip (Known nodes) (Open nodes skip) (Open-IsGrown nodes skip)
          (env.intn round) (go.random round) (env.shuffle round) (shards_remained (plan ∷ plans))
          (All-Perm (Known nodes) (go.shuffled round _)
            (All-shards_remained (Known nodes) (plan ∷ plans) holds)))

  -- The fuel for a round leaves enough for the next.
  Enough-replan :
      (fuel round : ℕ) (skip : List ℕ) (plans : Plan)
      → Entries (Open nodes skip) plans
      → 0 < nodes_left skip nodes
      → nodes_left skip nodes < suc fuel
      → Enough fuel nodes (skip_nodes plans skip) (replan env round (skip_nodes plans skip) plans)
  unfolding skip_nodes replan
  Enough-replan fuel round skip [] holds some_left fits = omega arith
  Enough-replan fuel round skip (plan ∷ plans) holds some_left fits =
      let skip' = skip_nodes (plan ∷ plans) skip in
      let fewer =
        nodes_left_lt skip skip' nodes plan.0 (Includes-skip_nodes (plan ∷ plans) skip) holds.0.0
          holds.0.1 (ground arith) in
      enough fuel nodes skip' (replan env round skip' (plan ∷ plans)) (omega (arith, fewer, fits))

  some_left :
      (skip : List ℕ) (plan : ℕ × List ShardInfo)
      → Open nodes skip plan.0 plan.1
      → 0 < nodes_left skip nodes
  some_left skip plan holds =
      let fewer =
        nodes_left_lt skip (plan.0 ∷ skip) nodes plan.0 (λ node h. ground (arith, h)) holds.0
          holds.1 (ground arith) in
      omega (arith, fewer)

  Known-of_Open :
      (skip : List ℕ) (plans : Plan)
      → Entries (Open nodes skip) plans
      → Entries (λ node shards. All (Known nodes) shards) plans
  Known-of_Open skip plans holds = All-impl plans (λ entry h. h.2) holds

  execute_rounds_end :
      (fuel round : ℕ) (skip : List ℕ) (plans : Plan) (result : List R) (errors : Option E)
      → Entries (Open nodes skip) plans
      → Enough fuel nodes skip plans
      → (r : List R × Option E) × (execute_rounds env fuel round skip plans result errors ≡ some r)
  unfolding execute_rounds
  execute_rounds_end zero round skip [] result errors holds fits = absurd (omega (arith, fits))
  execute_rounds_end zero round skip (plan ∷ plans) result errors holds fits =
      absurd (omega (arith, fits))
  execute_rounds_end (suc fuel) round skip [] result errors holds fits = ((result, errors), refl)
  execute_rounds_end (suc fuel) round skip (plan ∷ plans) result errors holds fits =
      let done = execute_plans env round (plan ∷ plans) in
      let left = Entries-execute_plans env (Open nodes skip) round (plan ∷ plans) holds in
      execute_rounds_end fuel (suc round) (skip_nodes done.need_retry skip) _ _ _
        (Entries-replan round (skip_nodes done.need_retry skip) done.need_retry
          (Known-of_Open skip done.need_retry left))
        (Enough-replan fuel round skip done.need_retry left (some_left skip plan holds.0) fits)

-- Every owner of one of the shards is known.
All-Known :
    (nodes : List ℕ) (shards : List ShardInfo)
    → ((node : ℕ) → contains node (all_owners shards) ≡ true → contains node nodes ≡ true)
    → All (λ shard. contains 0 shard.owners ≡ false) shards
    → All (Known nodes) shards
All-Known nodes [] known nonzero = tt
All-Known nodes (shard ∷ shards) known nonzero =
    let split = λ (node : ℕ). contains-append node shard.owners (all_owners shards) in
    (
      (
        All-of_contains _ shard.owners (λ node h. known node (split node ∙ ground (arith, h))),
        nonzero.0,
      ),
      All-Known nodes shards (λ node h. known node (split node ∙ ground (arith, h))) nonzero.1,
    )

-- The retries end, whatever the query function answers, if no owner of the shards is 0: with fuel for
-- two rounds more than the shards have owners, all of them counted, there is a result. The shuffles
-- and the walks of maps change the order alone, and Intn gives numbers below its argument.
pub execute_plan_with_retry_ends :
    {R E : Type 0} (env : Env R E) (fuel node : ℕ) (shards : List ShardInfo)
    → IsEnv env
    → All (λ shard. contains 0 shard.owners ≡ false) shards
    → length (all_owners shards) + 1 < fuel
    → (r : List R × Option E) × (execute_plan_with_retry env fuel node shards ≡ some r)
unfolding execute_plan_with_retry
execute_plan_with_retry_ends env fuel node shards go nonzero fits =
    let nodes = node ∷ all_owners shards in
    let known = All-Known nodes shards (λ n h. ground (arith, h)) nonzero in
    execute_rounds_end env go nodes fuel 0 [] ((node, shards) ∷ []) [] none
      ((ground arith, refl, known), tt) (omega (arith, nodes_left-nil nodes, fits))
