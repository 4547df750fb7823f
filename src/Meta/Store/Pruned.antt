-- ===== src/Meta/Store/Pruned.antt =====
-- What PruneShardGroups leaves.
use chronus.Base.{
  ℕ, zero, suc, ◌≡◌, refl, sym, ap, ap₂, ◌∙◌, arith, Bool, true, false, ◌||◌, ◌==◌, leb, List, [],
  ◌∷◌, Option, none, some, get_elem?, if◌then◌else◌, Bool-cases, inl, inr,
}
use chronus.Meta.Types.{ShardGroupInfo, RetentionPolicyInfo, DatabaseInfo}
use chronus.Meta.Groups.{Place, policy_at}
use chronus.Meta.Store.{Client, commit}
use chronus.Meta.Store.Groups.{
  keeps_group, remaining_groups, prunes_groups, prune_policies, prune_databases, commit_pruned,
  prune_shard_groups,
}

||-false : {a b : Bool} → (a || b) ≡ false → (a ≡ false) × (b ≡ false)
||-false {a = true} h = cc
||-false {a = false} h = (refl, h)

module _ (t : ℕ) where
  remaining_groups-idle :
      (gs : List ShardGroupInfo) → prunes_groups t gs ≡ false → remaining_groups t gs ≡ gs
  unfolding remaining_groups prunes_groups
  remaining_groups-idle [] h = refl
  remaining_groups-idle (g ∷ gs) h = ground (arith, remaining_groups-idle gs)

  prunes_groups-remaining :
      (gs : List ShardGroupInfo) → prunes_groups t (remaining_groups t gs) ≡ false
  unfolding remaining_groups prunes_groups
  prunes_groups-remaining [] = refl
  prunes_groups-remaining (g ∷ gs) = elim (Bool-cases (keeps_group t g)) [
    | inl keep ↦ rw (keep, prunes_groups, keep) (prunes_groups-remaining gs)
    | inr drop ↦ rw drop (prunes_groups-remaining gs)
  ]

  -- The groups that are not deleted, or were not before the time.
  unfoldable pub not_expired : List ShardGroupInfo → List ShardGroupInfo
  not_expired [] = []
  not_expired (g ∷ gs) =
      let rest = not_expired gs in
      if g.deleted_at == 0 then g ∷ rest else if leb t g.deleted_at then g ∷ rest else rest

  remaining_groups-not_expired : (gs : List ShardGroupInfo) → remaining_groups t gs ≡ not_expired gs
  unfolding remaining_groups not_expired keeps_group
  remaining_groups-not_expired [] = refl
  remaining_groups-not_expired (g ∷ gs) = ground (arith, remaining_groups-not_expired gs)

  -- The policy with these groups.
  unfoldable pub pruned_policy : RetentionPolicyInfo → RetentionPolicyInfo
  pruned_policy rp = record rp { shard_groups = not_expired rp.shard_groups }

  unfoldable pub pruned_at : Option RetentionPolicyInfo → Option RetentionPolicyInfo
  pruned_at none = none
  pruned_at (some rp) = some (pruned_policy rp)

  prune_policies-idle :
      (rps : List RetentionPolicyInfo)
      → (prune_policies t rps).1 ≡ false
      → (prune_policies t rps).0 ≡ rps
  unfolding prune_policies
  prune_policies-idle [] h = refl
  prune_policies-idle (rp ∷ rps) h =
      let (kept, rest) = ||-false h in
      ap₂ (λ (gs : List ShardGroupInfo) l. record rp { shard_groups = gs } ∷ l)
        (remaining_groups-idle rp.shard_groups kept) (prune_policies-idle rps rest)

  prune_policies-again :
      (rps : List RetentionPolicyInfo) → (prune_policies t (prune_policies t rps).0).1 ≡ false
  unfolding prune_policies
  prune_policies-again [] = refl
  prune_policies-again (rp ∷ rps) =
      ground (arith, prunes_groups-remaining rp.shard_groups, prune_policies-again rps)

  get_elem?-prune_policies :
      (j : ℕ) (rps : List RetentionPolicyInfo)
      → get_elem? (prune_policies t rps).0 j ≡ pruned_at (get_elem? rps j)
  unfolding prune_policies pruned_at pruned_policy
  get_elem?-prune_policies j [] = refl
  get_elem?-prune_policies zero (rp ∷ rps) =
      ap (λ (gs : List ShardGroupInfo). some (record rp { shard_groups = gs }))
        (remaining_groups-not_expired rp.shard_groups)
  get_elem?-prune_policies (suc j) (rp ∷ rps) = get_elem?-prune_policies j rps

  policy_at-prune_databases :
      (i j : ℕ) (dbs : List DatabaseInfo)
      → policy_at (i, j) (prune_databases t dbs).0 ≡ pruned_at (policy_at (i, j) dbs)
  unfolding prune_databases policy_at pruned_at
  policy_at-prune_databases i j [] = refl
  policy_at-prune_databases zero j (db ∷ dbs) = get_elem?-prune_policies j db.retention_policies
  policy_at-prune_databases (suc i) j (db ∷ dbs) = policy_at-prune_databases i j dbs

  prune_databases-idle :
      (dbs : List DatabaseInfo)
      → (prune_databases t dbs).1 ≡ false
      → (prune_databases t dbs).0 ≡ dbs
  unfolding prune_databases
  prune_databases-idle [] h = refl
  prune_databases-idle (db ∷ dbs) h =
      let (kept, rest) = ||-false h in
      ap₂ (λ (rps : List RetentionPolicyInfo) l. record db { retention_policies = rps } ∷ l)
        (prune_policies-idle db.retention_policies kept) (prune_databases-idle dbs rest)

  prune_databases-again :
      (dbs : List DatabaseInfo) → (prune_databases t (prune_databases t dbs).0).1 ≡ false
  unfolding prune_databases
  prune_databases-again [] = refl
  prune_databases-again (db ∷ dbs) =
      ground (arith, prune_policies-again db.retention_policies, prune_databases-again dbs)

  -- PruneShardGroups leaves to each policy exactly its groups that are not deleted, or were not
  -- before the time. A second call with the time changes nothing and signals nobody.
  pub prune_exact :
      {X : Type 0} (c : Client X) (place : Place)
      → (policy_at place (prune_shard_groups t c).cache_data.own.databases
          ≡ pruned_at (policy_at place c.cache_data.own.databases))
        × (prune_shard_groups t (prune_shard_groups t c) ≡ prune_shard_groups t c)
  unfolding prune_shard_groups commit_pruned commit
  prune_exact c (i, j) = elim (Bool-cases (prune_databases t c.cache_data.own.databases).1) [
    | inl changed ↦
        rw (changed, prune_databases-again c.cache_data.own.databases)
          (policy_at-prune_databases i j c.cache_data.own.databases, refl)
    | inr idle ↦
        rw (idle, idle)
          (
            ap (policy_at (i, j)) (sym (prune_databases-idle c.cache_data.own.databases idle))
                ∙ policy_at-prune_databases i j c.cache_data.own.databases,
            refl,
          )
  ]
