-- ===== src/Coordinator/Planning/Retry/Complete.antt =====
-- Where every shard has an owner that answers, the retries read each shard exactly once.
use mathlib.Core.List.{Permᴰ}
use mathlib.Core.List.Permᴰ
use mathlib.Core.Path.{subst}
use chronus.Base.{
  ℕ, zero, suc, ◌+◌, ◌<◌, ◌≡◌, refl, sym, ap, ap₂, ◌∙◌, Bool, true, false, not, ◌||◌, List, [], ◌∷◌,
  ◌++◌, Option, none, some, Outcome, ok, err, arith, length, contains, ◌==◌, All, All-append,
  All-Perm, Bool-cases, inl, inr,
}
use chronus.Meta.Types.{ShardInfo}
use chronus.Meta.Groups.RoundRobin.{all_owners}
use chronus.Coordinator.Planning.{Plan}
use chronus.Coordinator.Planning.Counted.{
  count, count_planned, can_serve, count-append, count-plan_nodes, planned,
}
use chronus.Coordinator.Planning.Entries.{Entries, IsGrown, Entries-plan_nodes}
use chronus.Coordinator.Planning.Retry.{
  QueryError, retry, Env, Executed, execute_plan_single, note_plan, skip_nodes, shards_remained,
  execute_plans, replan, execute_rounds, execute_plan_with_retry, last_error, add_results,
  execute_with_retry,
}
use chronus.Coordinator.Planning.Retry.Ends.{
  IsEnv, Entries-execute_plans, All-shards_remained, execute_plan_with_retry_ends,
}

-- Does one of the owners answer?
abbrev pub has_good : (ℕ → Bool) → List ℕ → Bool
has_good bad [] = false
has_good bad (owner ∷ owners) = not (bad owner) || has_good bad owners

abbrev pub Good : (ℕ → Bool) → ShardInfo → Type 0
Good bad shard = has_good bad shard.owners ≡ true

-- The bad nodes ask for another chance, each time; any other node answers with what it reads of the
-- shards that it is asked for.
pub record Answers {R E : Type 0} (env : Env R E) (bad : ℕ → Bool) (read : R → List ShardInfo)
    : Type 0 where
  pub asks :
      (round node : ℕ) (shards : List ShardInfo)
      → bad node ≡ true
      → env.query round node shards ≡ err retry
  pub reads :
      (round node : ℕ) (shards : List ShardInfo)
      → bad node ≡ false
      → (r : R) × (env.query round node shards ≡ ok (some r)) × (read r ≡ shards)

-- Of how many of the shards that were read does the test hold?
abbrev pub count_read : {R : Type 0} → (R → List ShardInfo) → (ShardInfo → Bool) → List R → ℕ
count_read read p [] = 0
count_read read p (r ∷ rs) = count p (read r) + count_read read p rs

count_read-append :
    {R : Type 0} (read : R → List ShardInfo) (p : ShardInfo → Bool) (xs ys : List R)
    → count_read read p (xs ++ ys) ≡ count_read read p xs + count_read read p ys
count_read-append read p [] ys = omega arith
count_read-append read p (x ∷ xs) ys = omega (arith, count_read-append read p xs ys)

count_planned-Perm :
    (p : ShardInfo → Bool) {xs ys : Plan} → Permᴰ xs ys → count_planned p xs ≡ count_planned p ys
count_planned-Perm p Permᴰ.nil = refl
count_planned-Perm p (Permᴰ.cons e h) = cc (e, count_planned-Perm p h)
count_planned-Perm p (Permᴰ.swap e f) = rw (← e, ← f) (omega arith)
count_planned-Perm p (Permᴰ.trans h k) = count_planned-Perm p h ∙ count_planned-Perm p k

count-shards_remained :
    (p : ShardInfo → Bool) (plans : Plan) → count p (shards_remained plans) ≡ count_planned p plans
unfolding shards_remained
count-shards_remained p [] = refl
count-shards_remained p (plan ∷ plans) =
    omega (arith, count-append p plan.1 (shards_remained plans), count-shards_remained p plans)

-- All the nodes that are skipped are bad.
abbrev AllBad : (ℕ → Bool) → List ℕ → Type 0
AllBad bad skip = (node : ℕ) → contains node skip ≡ true → bad node ≡ true

-- A good shard can be served as long as only bad nodes are skipped.
good-can_serve :
    (bad : ℕ → Bool) (skip owners : List ℕ)
    → AllBad bad skip
    → has_good bad owners ≡ true
    → can_serve 0 skip owners ≡ true
good-can_serve bad skip [] only good = cc
good-can_serve bad skip (owner ∷ owners) only good =
    let here = only owner in
    let rest = good-can_serve bad skip owners only in ground (arith, here, rest, good)

count-planned-Good :
    (bad : ℕ → Bool) (skip : List ℕ) (intn : ℕ → ℕ → ℕ) (p : ShardInfo → Bool)
    (shards : List ShardInfo)
    → AllBad bad skip
    → All (Good bad) shards
    → count (planned 0 skip intn p) shards ≡ count p shards
count-planned-Good bad skip intn p [] only good = refl
count-planned-Good bad skip intn p (shard ∷ shards) only good =
    let rest = count-planned-Good bad skip intn p shards only good.1 in
    rw (good-can_serve bad skip shard.owners only good.0, rest) refl

AllBad-skip_nodes :
    (bad : ℕ → Bool) (skip : List ℕ) (plans : Plan)
    → AllBad bad skip
    → Entries (λ node shards. bad node ≡ true) plans
    → AllBad bad (skip_nodes plans skip)
unfolding skip_nodes
AllBad-skip_nodes bad skip [] only holds = only
AllBad-skip_nodes bad skip (plan ∷ plans) only holds = λ node h.
    let rest = AllBad-skip_nodes bad skip plans only holds.1 node in
    elim (Bool-cases (plan.0 == node)) [
      | inl same ↦
          let equal : plan.0 ≡ node = ground (arith, same) in
          subst (λ n. bad n ≡ true) equal holds.0
      | inr apart ↦ rest (ground (arith, h, apart))
    ]

module _ {R E : Type 0} (env : Env R E) (bad : ℕ → Bool) (read : R → List ShardInfo)
    (answers : Answers env bad read) where
  -- What is read and what is still to be read make up the plans; only bad nodes are to be skipped.
  abbrev Exact : (ShardInfo → Bool) → Plan → Executed R E → Type 0
  Exact p plans done =
      (count_read read p done.result + count_planned p done.need_retry ≡ count_planned p plans)
      × Entries (λ node shards. bad node ≡ true) done.need_retry
      × (done.err_last ≡ none)

  execute_plans-Exact :
      (p : ShardInfo → Bool) (round : ℕ) (plans : Plan)
      → Exact p plans (execute_plans env round plans)
  unfolding execute_plans note_plan execute_plan_single
  execute_plans-Exact p round [] = (omega arith, tt, refl)
  execute_plans-Exact p round (plan ∷ plans) =
      let rest = execute_plans env round plans in
      let exact = execute_plans-Exact p round plans in
      let noted =
        λ (o : Outcome (QueryError E) (Option R)). note_plan plan (execute_plan_single o) rest in
      elim (Bool-cases (bad plan.0)) [
        | inl is_bad ↦
            subst (λ o. Exact p (plan ∷ plans) (noted o))
              (sym (answers.asks round plan.0 plan.1 is_bad))
              (omega (arith, exact.0), (is_bad, exact.1), exact.2)
        | inr is_good ↦
            let (r, says, same) = answers.reads round plan.0 plan.1 is_good in
            subst (λ o. Exact p (plan ∷ plans) (noted o)) (sym says)
              (omega (arith, exact.0, ap (count p) same), exact.1, exact.2)
      ]

  Good-IsGrown : (skip : List ℕ) → IsGrown 0 skip (Good bad) (λ node shards. All (Good bad) shards)
  Good-IsGrown skip = record {
    starts = λ node shard good serves. (good, tt);
    grows = λ node shards shard holds good serves.
        All-append (Good bad) shards (shard ∷ []) holds (good, tt);
  }

  module _ (go : IsEnv env) where
    Good-replan :
        (round : ℕ) (skip : List ℕ) (plans : Plan)
        → Entries (λ node shards. All (Good bad) shards) plans
        → Entries (λ node shards. All (Good bad) shards) (replan env round skip plans)
    unfolding replan
    Good-replan round skip [] holds = tt
    Good-replan round skip (plan ∷ plans) holds =
        All-Perm (λ entry. All (Good bad) entry.1) (go.walked round _)
          (Entries-plan_nodes 0 skip (Good bad) (λ node shards. All (Good bad) shards)
            (Good-IsGrown skip) (env.intn round) (go.random round) (env.shuffle round)
            (shards_remained (plan ∷ plans))
            (All-Perm (Good bad) (go.shuffled round _)
              (All-shards_remained (Good bad) (plan ∷ plans) holds)))

    count-replan :
        (p : ShardInfo → Bool) (round : ℕ) (skip : List ℕ) (plans : Plan)
        → AllBad bad skip
        → Entries (λ node shards. All (Good bad) shards) plans
        → count_planned p (replan env round skip plans) ≡ count_planned p plans
    unfolding replan
    count-replan p round skip [] only holds = refl
    count-replan p round skip (plan ∷ plans) only holds =
        let shards = shards_remained (plan ∷ plans) in
        sym (count_planned-Perm p (go.walked round _))
        ∙ count-plan_nodes 0 skip (env.intn round) p (env.shuffle round) shards
            (Permᴰ.symm (go.shuffled round shards))
        ∙ count-planned-Good bad skip (env.intn round) p shards only
            (All-shards_remained (Good bad) (plan ∷ plans) holds)
        ∙ count-shards_remained p (plan ∷ plans)

    -- The loop reads what is left in the plans, and notes no error.
    execute_rounds-Exact :
        (p : ShardInfo → Bool) (fuel round : ℕ) (skip : List ℕ) (plans : Plan) (result : List R)
        (r : List R × Option E)
        → AllBad bad skip
        → Entries (λ node shards. All (Good bad) shards) plans
        → execute_rounds env fuel round skip plans result none ≡ some r
        → (count_read read p r.0 ≡ count_read read p result + count_planned p plans) × (r.1 ≡ none)
    unfolding execute_rounds
    execute_rounds-Exact p zero round skip plans result r only holds ends = cc
    execute_rounds-Exact p (suc fuel) round skip [] result r only holds ends =
        let same : (result, none) ≡ r = cc (ends) in
        subst (λ r. (count_read read p r.0 ≡ count_read read p result + 0) × (r.1 ≡ none)) same
          (omega arith, refl)
    execute_rounds-Exact p (suc fuel) round skip (plan ∷ plans) result r only holds ends =
        let done = execute_plans env round (plan ∷ plans) in
        let exact = execute_plans-Exact p round (plan ∷ plans) in
        let skip' = skip_nodes done.need_retry skip in
        let only' = AllBad-skip_nodes bad skip done.need_retry only exact.1 in
        let left =
          Entries-execute_plans env (λ node shards. All (Good bad) shards) round (plan ∷ plans)
            holds in
        let next = replan env round skip' done.need_retry in
        let ends' =
          subst
            (λ e. execute_rounds env fuel (suc round) skip' next (result ++ done.result) e ≡ some r)
            (ap (last_error none) exact.2) ends in
        let rest =
          execute_rounds-Exact p fuel (suc round) skip' next (result ++ done.result) r only'
            (Good-replan round skip' done.need_retry left) ends' in
        (
          omega (
            arith,
            rest.0,
            exact.0,
            count_read-append read p result done.result,
            count-replan p round skip' done.need_retry only' left,
          ),
          rest.1,
        )

    -- One node's shards, with the retries at other nodes.
    execute_plan_with_retry-Exact :
        (fuel node : ℕ) (shards : List ShardInfo)
        → All (λ shard. contains 0 shard.owners ≡ false) shards
        → All (Good bad) shards
        → length (all_owners shards) + 1 < fuel
        → (r : List R × Option E) × (execute_plan_with_retry env fuel node shards ≡ some r)
          × ((p : ShardInfo → Bool) → count_read read p r.0 ≡ count p shards)
          × (r.1 ≡ none)
    unfolding execute_plan_with_retry
    execute_plan_with_retry-Exact fuel node shards nonzero good fits =
        let (r, ends) = execute_plan_with_retry_ends env fuel node shards go nonzero fits in
        let exact = λ (p : ShardInfo → Bool).
          execute_rounds-Exact p fuel 0 [] ((node, shards) ∷ []) [] r (λ n h. cc) (good, tt) ends in
        (r, ends, (λ p. omega (arith, (exact p).0)), (exact (λ shard. true)).1)

-- The plans of a query that is to be executed: each has fuel, and its shards have an owner that answers
-- and none that is 0.
abbrev pub Feasible : (ℕ → Bool) → ℕ → Plan → Type 0
Feasible bad fuel plan =
    Entries
      (λ node shards.
        All (λ shard. contains 0 shard.owners ≡ false) shards
        × All (Good bad) shards
        × (length (all_owners shards) + 1 < fuel))
      plan

-- A query on a plan ends without an error, and reads every shard of the plan exactly once: of every
-- test on shards, as many of the shards that were read satisfy it as of the plan's. That is so if each
-- shard has an owner that answers, and none that is 0, where the other nodes ask for another chance,
-- with fuel for two rounds more than the shards of one node have owners.
pub execute_with_retry_complete :
    {R E : Type 0} (env : ℕ → Env R E) (bad : ℕ → Bool) (read : R → List ShardInfo) (fuel : ℕ)
    (plan : Plan)
    → ((node : ℕ) → Answers (env node) bad read)
    → ((node : ℕ) → IsEnv (env node))
    → Feasible bad fuel plan
    → (results : List R) × (execute_with_retry env fuel plan ≡ some (results, none))
      × ((p : ShardInfo → Bool) → count_read read p results ≡ count_planned p plan)
unfolding execute_with_retry add_results
execute_with_retry_complete env bad read fuel [] answers go feasible = ([], refl, λ p. refl)
execute_with_retry_complete env bad read fuel (plan ∷ plans) answers go feasible =
    let (rest, rest_ends, rest_exact) =
      execute_with_retry_complete env bad read fuel plans answers go feasible.1 in
    let (r, ends, exact, calm) =
      execute_plan_with_retry-Exact (env plan.0) bad read (answers plan.0) (go plan.0) fuel plan.0
        plan.1 feasible.0.0 feasible.0.1 feasible.0.2 in
    (
      r.0 ++ rest,
      ap₂ add_results ends rest_ends ∙ ap (λ e. some (r.0 ++ rest, e)) calm,
      λ p. omega (arith, count_read-append read p r.0 rest, exact p, rest_exact p),
    )
