-- ===== src/Meta/Store/Groups.antt =====
-- services/meta/store.go: the operations of Client on shard groups, CreateShardGroup,
-- PrecreateShardGroups, PruneShardGroups, DropShard and TruncateShardGroups. The time 0 is the zero
-- time.
use chronus.Base.{
  ℕ, zero, suc, ◌+◌, Bool, true, false, ◌&&◌, ◌||◌, not, List, [], ◌∷◌, ◌++◌, Option, none, some,
  String, Outcome, ok, err, panic, get_elem?, length, ◌==◌, ltb, if◌then◌else◌,
}
use chronus.Meta.Types.{DatabaseInfo, RetentionPolicyInfo, ShardGroupInfo}
use chronus.Meta.Groups.{Place, policy_at}
use chronus.Meta.Groups as DataGroups
use chronus.Meta.Store.{
  MetaData, Error, Influxdb, influx_error, shard_group_exists, policy_deleted, Client, commit,
  commit_result, on_data,
}

-- The groups that are kept: not deleted, or not long enough ago.
unfoldable pub keeps_group : ℕ → ShardGroupInfo → Bool
keeps_group expiration g = g.deleted_at == 0 || not (ltb g.deleted_at expiration)

unfoldable pub remaining_groups : ℕ → List ShardGroupInfo → List ShardGroupInfo
remaining_groups expiration [] = []
remaining_groups expiration (g ∷ gs) =
    let rest = remaining_groups expiration gs in if keeps_group expiration g then g ∷ rest else rest

unfoldable pub prunes_groups : ℕ → List ShardGroupInfo → Bool
prunes_groups expiration [] = false
prunes_groups expiration (g ∷ gs) = not (keeps_group expiration g) || prunes_groups expiration gs

unfoldable pub prune_policies : ℕ → List RetentionPolicyInfo → List RetentionPolicyInfo × Bool
prune_policies expiration [] = ([], false)
prune_policies expiration (rp ∷ rps) =
    let (rest, changed) = prune_policies expiration rps in
    (
      record rp { shard_groups = remaining_groups expiration rp.shard_groups } ∷ rest,
      prunes_groups expiration rp.shard_groups || changed,
    )

unfoldable pub prune_databases : ℕ → List DatabaseInfo → List DatabaseInfo × Bool
prune_databases expiration [] = ([], false)
prune_databases expiration (db ∷ dbs) =
    let (policies, changed) = prune_policies expiration db.retention_policies in
    let (rest, changed') = prune_databases expiration dbs in
    (record db { retention_policies = policies } ∷ rest, changed || changed')

unfoldable pub commit_pruned : {X : Type 0} → List DatabaseInfo × Bool → Client X → Client X
commit_pruned (dbs, true) c =
    commit (record c.cache_data { own = record c.cache_data.own { databases = dbs } }) c
commit_pruned (dbs, false) c = c

unfoldable pub prune_shard_groups : {X : Type 0} → ℕ → Client X → Client X
prune_shard_groups expiration c =
    commit_pruned (prune_databases expiration c.cache_data.own.databases) c

-- The policies' places, in the order in which PrecreateShardGroups walks them.
unfoldable pub places_from : ℕ → ℕ → ℕ → List Place
places_from i j zero = []
places_from i j (suc n) = (i, j) ∷ places_from i (suc j) n

unfoldable pub places : ℕ → List DatabaseInfo → List Place
places i [] = []
places i (db ∷ dbs) = places_from i 0 (length db.retention_policies) ++ places (suc i) dbs

unfoldable pub last_group : List ShardGroupInfo → Option ShardGroupInfo
last_group [] = none
last_group (g ∷ gs) = elim gs [ [] ↦ some g | _ ∷ _ ↦ last_group gs ]

-- The group is not deleted and ends between the times.
unfoldable pub is_due : ℕ → ℕ → ShardGroupInfo → Bool
is_due from to g = g.deleted_at == 0 && (ltb g.end_time to && ltb from g.end_time)

module _ {X E DB P : Type 0} (influx : Influxdb X E DB P) where
  -- The new group, read from the data after it is made: the policy may be gone, or the group not be
  -- found.
  unfoldable pub read_group :
      String
      → String
      → ℕ
      → Outcome (Error E) (Unit {0}) × MetaData X
      → Outcome (Error E) (Option ShardGroupInfo) × MetaData X
  read_group database policy t (err e, d) = (err e, d)
  read_group database policy t (panic, d) = (panic, d)
  read_group database policy t (ok _, d) =
      elim (influx.policy_group_by_timestamp database policy t d) [
        | err e ↦ (err (influx_error e), d)
        | panic ↦ (panic, d)
        | ok none ↦ (err policy_deleted, d)
        | ok (some sg) ↦ (ok sg, d)
      ]

  -- createShardGroup, on a clone.
  unfoldable pub create_group_in :
      String → String → ℕ → MetaData X → Outcome (Error E) (Option ShardGroupInfo) × MetaData X
  create_group_in database policy t d = elim (influx.shard_group_by_timestamp database policy t d) [
    | some sg ↦ (err shard_group_exists, d)
    | none ↦
        read_group database policy t
          (on_data (DataGroups.create_shard_group influx.groups database policy t d.own) d.rest)
  ]

  unfoldable pub create_shard_group :
      String → String → ℕ → Client X → Outcome (Error E) (Option ShardGroupInfo) × Client X
  create_shard_group database policy t c =
      elim (influx.shard_group_by_timestamp database policy t c.cache_data) [
        | some sg ↦ (ok (some sg), c)
        | none ↦ commit_result (create_group_in database policy t c.cache_data) c
      ]

  -- What PrecreateShardGroups has of the clone, whether it has changed, and a nil pointer's panic.
  abbrev pub Clone : Type 0
  Clone = MetaData X × Bool × Bool

  unfoldable pub created :
      MetaData X → Clone → Outcome (Error E) (Option ShardGroupInfo) × MetaData X → Clone
  created d (_, changed, panicked) (ok (some sg), d') = (d', true, panicked)
  created d (_, changed, panicked) (ok none, d') = (d', true, true)
  created d (_, changed, panicked) (err e, d') = (d', changed, panicked)
  created d (_, changed, panicked) (panic, d') = (d', changed, true)

  unfoldable pub precreate_policy : ℕ → ℕ → String → RetentionPolicyInfo → Clone → Clone
  precreate_policy from to database rp (d, changed, panicked) = elim (last_group rp.shard_groups) [
    | none ↦ (d, changed, panicked)
    | some g ↦
        if is_due from to g
        then elim (influx.shard_group_by_timestamp database rp.name (g.end_time + 1) d) [
          | some sg ↦ (d, changed, panicked)
          | none ↦
              created d (d, changed, panicked) (create_group_in database rp.name (g.end_time + 1) d)
        ]
        else (d, changed, panicked)
  ]

  -- A policy at its turn.
  unfoldable pub precreate_at : ℕ → ℕ → Place → Clone → Clone
  precreate_at from to (i, j) (d, changed, panicked) = elim (get_elem? d.own.databases i) [
    | none ↦ (d, changed, panicked)
    | some db ↦ elim (policy_at (i, j) d.own.databases) [
      | none ↦ (d, changed, panicked)
      | some rp ↦ precreate_policy from to db.name rp (d, changed, panicked)
    ]
  ]

  unfoldable pub precreate_all : ℕ → ℕ → List Place → Clone → Clone
  precreate_all from to [] clone = clone
  precreate_all from to (p ∷ ps) (d, changed, panicked) =
      if panicked
      then (d, changed, panicked)
      else precreate_all from to ps (precreate_at from to p (d, changed, panicked))

  -- What is done with the clone.
  unfoldable pub finish_precreate : Clone → Client X → Outcome (Error E) (Unit {0}) × Client X
  finish_precreate (d, changed, true) c = (panic, c)
  finish_precreate (d, true, false) c = (ok tt, commit d c)
  finish_precreate (d, false, false) c = (ok tt, c)

  unfoldable pub precreate_shard_groups : ℕ → ℕ → Client X → Outcome (Error E) (Unit {0}) × Client X
  precreate_shard_groups from to c =
      finish_precreate
        (precreate_all from to (places 0 c.cache_data.own.databases) (c.cache_data, false, false)) c

  unfoldable pub drop_shard : ℕ → Client X → Client X
  drop_shard id c = commit (influx.drop_shard id c.cache_data) c

  unfoldable pub truncate_shard_groups : ℕ → Client X → Client X
  truncate_shard_groups t c = commit (influx.truncate_shard_groups t c.cache_data) c
