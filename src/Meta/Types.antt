-- ===== src/Meta/Types.antt =====
-- services/meta/data.go: the state. Of the structs that influxdb's `meta` package declares only the
-- fields that data.go reads or writes stand here. A time is a number of nanoseconds, and 0 is the
-- zero `time.Time`: a shard group with `deleted_at` 0 is not deleted.
use chronus.Base.{ℕ, List, String, Outcome}

pub record NodeInfo : Type 0 where
  pub id : ℕ
  pub host : String
  pub tcp_host : String

pub record ShardInfo : Type 0 where
  pub id : ℕ
  pub owners : List ℕ

pub record ShardGroupInfo : Type 0 where
  pub id : ℕ
  pub start_time : ℕ
  pub end_time : ℕ
  pub deleted_at : ℕ
  pub shards : List ShardInfo

pub record RetentionPolicyInfo : Type 0 where
  pub name : String
  pub replica_n : ℕ
  pub shard_group_duration : ℕ
  pub shard_groups : List ShardGroupInfo

pub record DatabaseInfo : Type 0 where
  pub name : String
  pub retention_policies : List RetentionPolicyInfo

pub record Data : Type 0 where
  pub index : ℕ
  pub databases : List DatabaseInfo
  pub max_shard_group_id : ℕ
  pub max_shard_id : ℕ
  pub meta_nodes : List NodeInfo
  pub data_nodes : List NodeInfo
  pub freezed_data_nodes : List ℕ
  pub max_node_id : ℕ

-- services/meta/errors.go, and the errors that data.go makes on the spot.
pub data Error : Type 0 where
  node_exists node_not_found node_already_freezed node_not_freezed node_id_required : Error
  no_node_can_be_reassigned no_replica_can_be_assigned : Error
  retention_policy_not_found shard_group_not_found : Error

-- A method on `*Data`: what it returns, and the state that it leaves, also where it fails.
abbrev pub Method : Type 0 → Type 0
Method A = Data → Outcome Error A × Data
