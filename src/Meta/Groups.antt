-- ===== src/Meta/Groups.antt =====
-- services/meta/data.go: CreateShardGroup. Influxdb's `RetentionPolicy`, `ShardGroupByTimestamp`,
-- the order of its `ShardGroupInfos` and the time of its `MaxNanoTime` are parameters. The pointer
-- to a policy is its place, the index of the database and that of the policy.
pub mod RoundRobin
pub mod Ids
pub mod Create
use chronus.Base.{
  ℕ, zero, suc, ◌+◌, ◌-◌, ◌/◌, ◌%◌, Bool, true, false, ◌≡◌, List, [], ◌∷◌, ◌++◌, Option, none, some,
  String, Outcome, ok, err, panic, length, get_or, get_elem?, set, contains, ◌==◌, ltb,
  if◌then◌else◌, incr64, map,
}
use chronus.Meta.Types.{
  NodeInfo, ShardInfo, ShardGroupInfo, RetentionPolicyInfo, DatabaseInfo, Data, Method, Error,
  node_not_found, no_replica_can_be_assigned, retention_policy_not_found,
}

-- The ids of the data nodes that are not frozen.
unfoldable pub available_nodes : List ℕ → List NodeInfo → List ℕ
available_nodes freezed [] = []
available_nodes freezed (n ∷ ns) =
    let rest = available_nodes freezed ns in if contains n.id freezed then rest else n.id ∷ rest

-- At least one replica, and no more replicas than nodes.
unfoldable pub replicas : ℕ → ℕ → ℕ
replicas replica_n nodes =
    if replica_n == 0 then 1 else if ltb nodes replica_n then nodes else replica_n

-- t.Truncate(d)
unfoldable pub truncate : ℕ → ℕ → ℕ
truncate t d = if d == 0 then t else t - t % d

-- The shards of a new group, and the largest shard id after them.
unfoldable pub new_shards : ℕ → ℕ → List ShardInfo × ℕ
new_shards zero max = ([], max)
new_shards (suc k) max =
    let (rest, max') = new_shards k (incr64 max) in
    (record { id = incr64 max; owners = [] } ∷ rest, max')

-- The owners of one shard: `count` nodes from the index on, round the list of nodes.
unfoldable pub round_owners : List ℕ → ℕ → ℕ → List ℕ
round_owners nodes index zero = []
round_owners nodes index (suc count) =
    get_or nodes (index % length nodes) 0 ∷ round_owners nodes (suc index) count

unfoldable pub round_robin : List ℕ → ℕ → ℕ → List ShardInfo → List ShardInfo
round_robin nodes index replica_n [] = []
round_robin nodes index replica_n (s ∷ ss) =
    record s { owners = s.owners ++ round_owners nodes index replica_n }
    ∷ round_robin nodes (index + replica_n) replica_n ss

abbrev pub Place : Type 0
Place = ℕ × ℕ

-- What a pointer to a policy reads, and what a write through it changes.
unfoldable pub policy_at : Place → List DatabaseInfo → Option RetentionPolicyInfo
policy_at (i, j) dbs = elim (get_elem? dbs i) [
  | none ↦ none
  | some db ↦ get_elem? db.retention_policies j
]

unfoldable pub set_policy : Place → RetentionPolicyInfo → List DatabaseInfo → List DatabaseInfo
set_policy (i, j) rp dbs = elim (get_elem? dbs i) [
  | none ↦ dbs
  | some db ↦ set dbs i (record db { retention_policies = set db.retention_policies j rp })
]

-- What influxdb's packages give.
pub record Influx : Type 0 where
  pub retention_policy : List DatabaseInfo → String → String → Outcome Error (Option Place)
  pub shard_group_by_timestamp : RetentionPolicyInfo → ℕ → Option ShardGroupInfo
  pub sort_groups : List ShardGroupInfo → List ShardGroupInfo
  pub max_nano_time : ℕ

module _ (influx : Influx) where
  -- The group without its shards.
  unfoldable pub new_group : ℕ → ℕ → ℕ → List ShardInfo → ShardGroupInfo
  new_group id timestamp duration shards =
      let start = truncate timestamp duration in
      let end = start + duration in
      record {
        id = id;
        start_time = start;
        end_time = if ltb influx.max_nano_time end then influx.max_nano_time + 1 else end;
        deleted_at = 0;
        shards = shards;
      }

  -- The rest of CreateShardGroup, once the policy is found and no group has the timestamp. Where
  -- there is no node, `data.Index % uint64(len(availableNodes))` divides by zero.
  unfoldable pub create_in_policy : Place → RetentionPolicyInfo → ℕ → Method (Unit {0})
  create_in_policy place rp timestamp d =
      let nodes = available_nodes d.freezed_data_nodes d.data_nodes in
      let replica_n = replicas rp.replica_n (length nodes) in
      let group_id = incr64 d.max_shard_group_id in
      let (shards, max_id) = new_shards (length nodes / replica_n) d.max_shard_id in
      if replica_n == 0
      then (err no_replica_can_be_assigned, d)
      else if length nodes == 0
      then (panic, record d { max_shard_group_id = group_id; max_shard_id = max_id })
      else let owned = round_robin nodes (d.index % length nodes) replica_n shards in
        let sg = new_group group_id timestamp rp.shard_group_duration owned in
        let groups = influx.sort_groups (rp.shard_groups ++ sg ∷ []) in
        (
          ok tt,
          record d {
            max_shard_group_id = group_id;
            max_shard_id = max_id;
            databases = set_policy place (record rp { shard_groups = groups }) d.databases;
          },
        )

  -- A place where no policy stands is a nil pointer, which influxdb does not return.
  unfoldable pub create_shard_group : String → String → ℕ → Method (Unit {0})
  create_shard_group database policy timestamp d =
      if length d.data_nodes == 0
      then (err node_not_found, d)
      else elim (influx.retention_policy d.databases database policy) [
        | err e ↦ (err e, d)
        | panic ↦ (panic, d)
        | ok none ↦ (err retention_policy_not_found, d)
        | ok (some place) ↦ elim (policy_at place d.databases) [
          | none ↦ (panic, d)
          | some rp ↦ elim (influx.shard_group_by_timestamp rp timestamp) [
            | some sg ↦ (ok tt, d)
            | none ↦ create_in_policy place rp timestamp d
          ]
        ]
      ]
