-- ===== src/Meta/Groups/Create.antt =====
-- CreateShardGroup: the group that it adds, and where it panics.
use native.Mathlib.Nat.{div-add-mod, div-add-mod', mod-lt, mod-le, mul-mod_right}
use chronus.Base.{
  ℕ, ◌+◌, ◌-◌, ◌*◌, ◌/◌, ◌%◌, ◌^◌, ◌≤◌, ◌<◌, ◌≡◌, ◌≢◌, ap, sym, ◌∙◌, true, false, List, [], ◌∷◌,
  ◌++◌, arith, All, All-impl, Distinct, contains, length, String, none, some, ok, err, panic, ◌==◌,
  incr64,
}
use chronus.Meta.Types.{
  ShardInfo, ShardGroupInfo, RetentionPolicyInfo, Data, no_replica_can_be_assigned,
}
use chronus.Meta.Delete.Orphans.{shard_ids}
use chronus.Meta.Groups.{
  available_nodes, replicas, truncate, new_shards, round_robin, Place, policy_at, set_policy,
  Influx, new_group, create_in_policy, create_shard_group,
}
use chronus.Meta.Groups.RoundRobin.{
  all_owners, length-round_robin, round_robin-OwnedBy, round_robin-disjoint,
}
use chronus.Meta.Groups.Ids.{
  node_ids, ids_from, length-new_shards, new_shards-Fresh, new_shards-ids, round_robin-ids,
  available_nodes-Distinct, contains-available_nodes,
}

-- A node that may own new shards: a data node that is not frozen.
abbrev pub IsFree : Data → ℕ → Type 0
IsFree d o = (contains o (node_ids d.data_nodes) ≡ true) × (contains o d.freezed_data_nodes ≡ false)

-- The number of free nodes.
abbrev pub free_nodes : Data → ℕ
free_nodes d = length (available_nodes d.freezed_data_nodes d.data_nodes)

replicas_bounds :
    (replica_n n : ℕ) → 0 < n → (0 < replicas replica_n n) × (replicas replica_n n ≤ n)
unfolding replicas
replicas_bounds replica_n n h = ground arith

shards_fit : (n r : ℕ) → n / r * r ≤ n
shards_fit n r = grind (arith, div-add-mod' n r)

div-le : (n r : ℕ) → n / r ≤ n
div-le n r = grind (arith, div-add-mod' n r)

available-IsFree :
    (d : Data) (o : ℕ)
    → contains o (available_nodes d.freezed_data_nodes d.data_nodes) ≡ true
    → IsFree d o
available-IsFree d o h =
    ground (arith, contains-available_nodes o d.freezed_data_nodes d.data_nodes)

-- What a new group of the policy is, given the metadata before.
pub record GroupFits (d : Data) (rp : RetentionPolicyInfo) (sg : ShardGroupInfo) : Type 0 where
  pub id : sg.id ≡ d.max_shard_group_id + 1
  pub count : length sg.shards ≡ free_nodes d / replicas rp.replica_n (free_nodes d)
  pub ids : shard_ids sg.shards ≡ ids_from d.max_shard_id (length sg.shards)
  pub owned :
      All
        (λ s. (length s.owners ≡ replicas rp.replica_n (free_nodes d)) × All (IsFree d) s.owners)
        sg.shards
  pub disjoint : Distinct (all_owners sg.shards)

module _ (influx : Influx) (place : Place) (rp : RetentionPolicyInfo) (timestamp : ℕ)
    (d : Data) where
  -- The group that is added.
  abbrev pub added_group : ShardGroupInfo
  added_group =
      let nodes = available_nodes d.freezed_data_nodes d.data_nodes in
      let r = replicas rp.replica_n (length nodes) in
      new_group influx (incr64 d.max_shard_group_id) timestamp rp.shard_group_duration (
        round_robin nodes (d.index % length nodes) r
          (new_shards (length nodes / r) d.max_shard_id).0)

  added_group-GroupFits :
      0 < free_nodes d
      → Distinct (node_ids d.data_nodes)
      → d.max_shard_group_id + 1 < 2 ^ 64
      → d.max_shard_id + free_nodes d < 2 ^ 64
      → GroupFits d rp added_group
  unfolding new_group
  added_group-GroupFits some_node distinct room shard_room =
      let nodes = available_nodes d.freezed_data_nodes d.data_nodes in
      let r = replicas rp.replica_n (length nodes) in
      let start = d.index % length nodes in
      let k = length nodes / r in
      let shards = (new_shards k d.max_shard_id).0 in
      let fresh = new_shards-Fresh k d.max_shard_id in
      let size : length (round_robin nodes start r shards) ≡ k =
        length-round_robin nodes start r shards ∙ length-new_shards k d.max_shard_id in
      record {
        id = omega arith;
        count = size;
        ids =
            round_robin-ids nodes start r shards
            ∙ (new_shards-ids k d.max_shard_id (omega (arith, div-le (length nodes) r))).0
            ∙ ap (ids_from d.max_shard_id) (sym size);
        owned =
            All-impl (round_robin nodes start r shards)
              (λ s h. (h.0, All-impl s.owners (available-IsFree d) h.1))
              (round_robin-OwnedBy nodes start r shards some_node fresh);
        disjoint =
            round_robin-disjoint nodes start r shards
              (available_nodes-Distinct d.freezed_data_nodes d.data_nodes distinct)
              (rw length-new_shards (shards_fit (length nodes) r)) fresh;
      }

  -- Where no group has the timestamp yet and a node is free, CreateShardGroup succeeds and adds to
  -- the policy one group, whose id is the next one: with as many shards as the free nodes allow,
  -- with the next shard ids, each shard owned by as many nodes as the policy has replicas (at
  -- least one, and no more than free nodes), all of them data nodes that are not frozen, and no
  -- node owner of two shards of the group. The node ids must be distinct, and the ids of groups
  -- and shards must not run out.
  pub create_in_policy_adds :
      0 < free_nodes d
      → Distinct (node_ids d.data_nodes)
      → d.max_shard_group_id + 1 < 2 ^ 64
      → d.max_shard_id + free_nodes d < 2 ^ 64
      → (sg : ShardGroupInfo) × GroupFits d rp sg
        × (create_in_policy influx place rp timestamp d ≡ (
          ok tt,
          record d {
            max_shard_group_id = sg.id;
            max_shard_id = d.max_shard_id + length sg.shards;
            databases =
                set_policy place
                  (record rp { shard_groups = influx.sort_groups (rp.shard_groups ++ sg ∷ []) })
                  d.databases;
          },
        ))
  unfolding create_in_policy new_group
  create_in_policy_adds some_node distinct room shard_room =
      let n = free_nodes d in
      let r = replicas rp.replica_n n in
      let some_replica : (r == 0) ≡ false =
        ground (arith, replicas_bounds rp.replica_n n some_node) in
      let some_free : (n == 0) ≡ false = ground arith in
      let fits = added_group-GroupFits some_node distinct room shard_room in
      let last : (new_shards (n / r) d.max_shard_id).1
          ≡ d.max_shard_id + length added_group.shards =
        (new_shards-ids (n / r) d.max_shard_id (omega (arith, div-le n r))).1
        ∙ ap (λ k. d.max_shard_id + k) (sym fits.count) in
      (added_group, fits, rw (some_replica, some_free, last))

-- All data nodes are frozen, and the policy asks for no replica: then the division by the number
-- of available nodes panics, once the policy is found and no group has the timestamp.
pub create_shard_group_panics :
    (influx : Influx) (database policy : String) (timestamp : ℕ) (d : Data) (place : Place)
    (rp : RetentionPolicyInfo)
    → d.data_nodes ≢ []
    → free_nodes d ≡ 0
    → influx.retention_policy d.databases database policy ≡ ok (some place)
    → policy_at place d.databases ≡ some rp
    → influx.shard_group_by_timestamp rp timestamp ≡ none
    → rp.replica_n ≡ 0
    → (create_shard_group influx database policy timestamp d).0 ≡ panic
unfolding create_shard_group create_in_policy replicas
create_shard_group_panics influx database policy timestamp d place rp nodes frozen found there new
      none_asked =
    ground arith

-- With a replica asked for, the same metadata give the error that no replica can be assigned, and
-- nothing changes.
pub create_shard_group_no_replica :
    (influx : Influx) (database policy : String) (timestamp : ℕ) (d : Data) (place : Place)
    (rp : RetentionPolicyInfo)
    → d.data_nodes ≢ []
    → free_nodes d ≡ 0
    → influx.retention_policy d.databases database policy ≡ ok (some place)
    → policy_at place d.databases ≡ some rp
    → influx.shard_group_by_timestamp rp timestamp ≡ none
    → 0 < rp.replica_n
    → create_shard_group influx database policy timestamp d ≡ (err no_replica_can_be_assigned, d)
unfolding create_shard_group create_in_policy replicas
create_shard_group_no_replica influx database policy timestamp d place rp nodes frozen found there
      new asked =
    ground arith

truncate-mod : (t d : ℕ) → 0 < d → truncate t d % d ≡ 0
unfolding truncate
truncate-mod t d h =
    let long : (d == 0) ≡ false = ground arith in
    let even : t - t % d ≡ d * (t / d) = omega (arith, div-add-mod t d) in
    rw (long, even) (mul-mod_right d (t / d))

-- A new group has the timestamp for which it was made, if the policy's groups last some time and
-- the timestamp is no later than the greatest time; its start is a multiple of that duration.
pub new_group_covers :
    (influx : Influx) (id timestamp duration : ℕ) (shards : List ShardInfo)
    → 0 < duration
    → timestamp ≤ influx.max_nano_time
    → ((new_group influx id timestamp duration shards).start_time ≤ timestamp)
      × (timestamp < (new_group influx id timestamp duration shards).end_time)
      × ((new_group influx id timestamp duration shards).start_time % duration ≡ 0)
      × ((new_group influx id timestamp duration shards).end_time ≤ influx.max_nano_time + 1)
unfolding new_group truncate
new_group_covers influx id timestamp duration shards some_time fits =
    let below = mod-lt timestamp some_time in
    let small = mod-le timestamp duration in
    (ground arith, ground arith, truncate-mod timestamp duration some_time, ground arith)
