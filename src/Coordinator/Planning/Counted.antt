-- ===== src/Coordinator/Planning/Counted.antt =====
-- Which shards are planned, and how often.
use mathlib.Core.List.{Permᴰ}
use chronus.Base.{
  ℕ, ◌+◌, ◌≡◌, refl, ◌∙◌, Bool, true, false, not, ◌&&◌, ◌||◌, List, [], ◌∷◌, ◌++◌, arith, length,
  contains, ◌==◌, if◌then◌else◌, Bool-cases, inl, inr,
}
use chronus.Meta.Types.{ShardInfo}
use chronus.Coordinator.Planning.{
  Plan, get_owners, add_shard, choose, selected_owner, plan_remote, plan_shard, plan_shards,
  plan_nodes,
}

-- Of how many shards does the test hold?
abbrev pub count : (ShardInfo → Bool) → List ShardInfo → ℕ
count p [] = 0
count p (s ∷ ss) = (if p s then 1 else 0) + count p ss

-- The same, of the shards of a plan.
abbrev pub count_planned : (ShardInfo → Bool) → Plan → ℕ
count_planned p [] = 0
count_planned p (entry ∷ plan) = count p entry.1 + count_planned p plan

-- Can one of the owners serve?
abbrev pub can_serve : ℕ → List ℕ → List ℕ → Bool
can_serve current blacklist [] = false
can_serve current blacklist (owner ∷ owners) =
    owner == current || not (contains owner blacklist) || can_serve current blacklist owners

pub count-append :
    (p : ShardInfo → Bool) (xs ys : List ShardInfo) → count p (xs ++ ys) ≡ count p xs + count p ys
count-append p [] ys = omega arith
count-append p (x ∷ xs) ys = omega (arith, count-append p xs ys)

pub count-Perm :
    (p : ShardInfo → Bool) {xs ys : List ShardInfo} → Permᴰ xs ys → count p xs ≡ count p ys
count-Perm p Permᴰ.nil = refl
count-Perm p (Permᴰ.cons e h) = cc (e, count-Perm p h)
count-Perm p (Permᴰ.swap e f) = rw (← e, ← f) (omega arith)
count-Perm p (Permᴰ.trans h k) = count-Perm p h ∙ count-Perm p k

count-add_shard :
    (p : ShardInfo → Bool) (node : ℕ) (shard : ShardInfo) (plan : Plan)
    → count_planned p (add_shard node shard plan)
      ≡ (if p shard then 1 else 0) + count_planned p plan
unfolding add_shard
count-add_shard p node shard [] = omega arith
count-add_shard p node shard (entry ∷ plan) =
    let rest = count-add_shard p node shard plan in
    let grown = count-append p entry.1 (shard ∷ []) in
    elim (Bool-cases (entry.0 == node)) [
      | inl same ↦ rw same (omega (arith, grown))
      | inr apart ↦ rw apart (omega (arith, rest))
    ]

-- An owner is left, if the shard is not here, exactly if one of the owners can serve.
none_left :
    (current : ℕ) (blacklist owners : List ℕ)
    → contains current owners ≡ false
    → (length (get_owners blacklist owners) == 0) ≡ not (can_serve current blacklist owners)
unfolding get_owners
none_left current blacklist [] away = refl
none_left current blacklist (owner ∷ owners) away =
    let rest = none_left current blacklist owners (ground (arith, away)) in
    ground (arith, rest, away)

here_serves :
    (current : ℕ) (blacklist owners : List ℕ)
    → contains current owners ≡ true
    → can_serve current blacklist owners ≡ true
here_serves current blacklist [] here = ground (arith, here)
here_serves current blacklist (owner ∷ owners) here =
    let rest = here_serves current blacklist owners in grind (arith, rest, here)

module _ (current : ℕ) (blacklist : List ℕ) (intn : ℕ → ℕ → ℕ) (p : ShardInfo → Bool) where
  -- Is the shard planned, and does the test hold of it?
  abbrev pub planned : ShardInfo → Bool
  planned shard = can_serve current blacklist shard.owners && p shard

  count-plan_remote :
      (k : ℕ) (owners : List ℕ) (shard : ShardInfo) (plan : Plan)
      → count_planned p (plan_remote current blacklist intn k owners shard plan)
        ≡ (if length owners == 0 then 0 else if p shard then 1 else 0) + count_planned p plan
  unfolding plan_remote
  count-plan_remote k [] shard plan = omega arith
  count-plan_remote k (owner ∷ owners) shard plan =
      let added =
        count-add_shard p
          (choose current blacklist intn k (owner ∷ owners) (selected_owner (owner ∷ owners) plan))
          shard plan in
      ground (arith, added)

  count-plan_shard :
      (k : ℕ) (shard : ShardInfo) (plan : Plan)
      → count_planned p (plan_shard current blacklist intn k shard plan)
        ≡ (if planned shard then 1 else 0) + count_planned p plan
  unfolding plan_shard
  count-plan_shard k shard plan = elim (Bool-cases (contains current shard.owners)) [
    | inl here ↦
        let serves = here_serves current blacklist shard.owners here in
        rw (here, serves) (count-add_shard p current shard plan)
    | inr away ↦
        let left = none_left current blacklist shard.owners away in
        let remote = count-plan_remote k (get_owners blacklist shard.owners) shard plan in
        rw away (remote ∙ ground (arith, left))
  ]

  count-plan_shards :
      (shards : List ShardInfo) (plan : Plan)
      → count_planned p (plan_shards current blacklist intn shards plan)
        ≡ count planned shards + count_planned p plan
  unfolding plan_shards
  count-plan_shards [] plan = omega arith
  count-plan_shards (shard ∷ shards) plan = omega (
    arith,
    count-plan_shards shards (plan_shard current blacklist intn (length shards) shard plan),
    count-plan_shard (length shards) shard plan,
  )

  -- The plan has every shard once that one of its owners can serve, this node or a node that is not
  -- on the blacklist, and it has no other: of every test on shards, as many shards of the plan
  -- satisfy it as there are such shards in the query. The shards may be shuffled in any way.
  pub count-plan_nodes :
      (shuffle : List ShardInfo → List ShardInfo) (shards : List ShardInfo)
      → Permᴰ (shuffle shards) shards
      → count_planned p (plan_nodes current blacklist intn shuffle shards) ≡ count planned shards
  unfolding plan_nodes
  count-plan_nodes shuffle shards shuffled =
      omega (arith, count-plan_shards (shuffle shards) [], count-Perm planned shuffled)
