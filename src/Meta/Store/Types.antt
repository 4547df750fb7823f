-- ===== src/Meta/Store/Types.antt =====
-- services/meta/store.go: the types that Client works on, and what it takes from influxdb's packages.
use chronus.Base.{ℕ, Bool, List, Option, String, Outcome}
use chronus.Meta.Types.{NodeInfo, Data, ShardGroupInfo, Error as DataError}
use chronus.Meta.Groups.{Influx}

-- Data: the fields of influxdb's `meta.Data` that data.go uses, and the others.
pub record MetaData (X : Type 0) : Type 0 where
  pub own : Data
  pub rest : X

pub record UserInfo : Type 0 where
  pub name : String
  pub hash : String
  pub admin : Bool

pub data Error (E : Type 0) : Type 0 where
  data_error : DataError → Error E
  influx_error : E → Error E
  node_not_found nil_spec retention_policy_duration_too_low retention_policy_conflict : Error E
  user_not_found user_exists authenticate_failed shard_group_exists policy_deleted no_data_nodes :
      Error E

-- meta.RetentionPolicySpec
pub record RetentionPolicySpec : Type 0 where
  pub name : String
  pub replica_n : Option ℕ
  pub duration : Option ℕ
  pub shard_group_duration : ℕ

-- meta.RetentionPolicyUpdate
pub record RetentionPolicyUpdate : Type 0 where
  pub name : Option String
  pub replica_n : Option ℕ
  pub duration : Option ℕ
  pub shard_group_duration : Option ℕ

-- What influxdb's packages give: the methods of `meta.Data`, the structs DB of a database and P of
-- a policy, and the hashes of passwords.
pub record Influxdb (X E DB P : Type 0) : Type 0 where
  pub groups : Influx
  pub sort_nodes : List NodeInfo → List NodeInfo
  pub users : X → List UserInfo
  pub database : String → MetaData X → Option DB
  pub no_retention_policies : DB → Bool
  pub default_retention_policy : DB → String
  pub policy_of : String → DB → Option P
  pub policy_name : P → String
  pub default_policy : P
  pub new_policy : RetentionPolicySpec → P
  pub matches : RetentionPolicySpec → Option P → Bool
  pub min_retention_policy_duration : ℕ
  pub shard_group_by_timestamp : String → String → ℕ → MetaData X → Option ShardGroupInfo
  pub policy_group_by_timestamp :
      String → String → ℕ → MetaData X → Outcome E (Option (Option ShardGroupInfo))
  pub create_database : String → MetaData X → Option E × MetaData X
  pub drop_database : String → MetaData X → Option E × MetaData X
  pub drop_user : String → MetaData X → Option E × MetaData X
  pub create_retention_policy : String → P → Bool → MetaData X → Option E × MetaData X
  pub drop_retention_policy : String → String → MetaData X → Option E × MetaData X
  pub update_user : String → String → MetaData X → Option E × MetaData X
  pub drop_continuous_query : String → String → MetaData X → Option E × MetaData X
  pub update_retention_policy :
      String → String → RetentionPolicyUpdate → Bool → MetaData X → Option E × MetaData X
  pub create_user : String → String → Bool → MetaData X → Option E × MetaData X
  pub set_privilege : String → String → ℕ → MetaData X → Option E × MetaData X
  pub set_admin_privilege : String → Bool → MetaData X → Option E × MetaData X
  pub drop_shard : ℕ → MetaData X → MetaData X
  pub truncate_shard_groups : ℕ → MetaData X → MetaData X
  pub create_continuous_query : String → String → String → MetaData X → Option E × MetaData X
  pub drop_subscription : String → String → String → MetaData X → Option E × MetaData X
  pub create_subscription :
      String → String → String → String → List String → MetaData X → Option E × MetaData X
  pub hash_with_salt : String → String → String
  pub same_password : String → String → Bool
