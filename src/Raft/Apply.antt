-- ===== src/Raft/Apply.antt =====
-- raftmeta/apply.go: applyCommitted on the metadata, a command of the log to the method of Client
-- that it calls, and raftmeta/internal/message.go: the types of messages. A command holds its
-- decoded request. A time of the request that is 0 is missing, and the node's own clock then stands
-- in, as it does in DeleteDataNode.
pub mod Atomic
pub mod Timed
pub mod Machine
use chronus.Base.{
  ℕ, ◌+◌, ◌-◌, ◌*◌, Bool, true, false, List, Option, none, some, String, Outcome, ok, err, panic,
  ◌==◌, ◌==ₛ◌, if◌then◌else◌,
}
use chronus.Hh.Bytes.{int_ltb}
use chronus.Meta.Types.{NodeInfo, ShardGroupInfo}
use chronus.Meta.Store.{
  Client, Error, Influxdb, UserInfo, RetentionPolicySpec, RetentionPolicyUpdate,
}
use chronus.Meta.Store
use chronus.Meta.Store.Users
use chronus.Meta.Store.Updates
use chronus.Meta.Store.Groups

-- The policy of a request.
pub record Rps : Type 0 where
  pub name : String
  pub replica_n : ℕ
  pub duration : ℕ
  pub shard_group_duration : ℕ

pub data Command : Type 0 where
  create_database : String → Command
  drop_database : String → Command
  drop_retention_policy : String → String → Command
  create_shard_group : String → String → ℕ → Command
  create_data_node : String → String → Command
  delete_data_node : ℕ → Command
  create_retention_policy : String → Rps → Bool → Command
  update_retention_policy : String → String → Rps → Bool → Command
  create_database_with_retention_policy : String → Rps → Command
  create_user : String → String → Bool → Command
  drop_user : String → Command
  update_user : String → String → Command
  set_privilege : String → String → ℕ → Command
  set_admin_privilege : String → Bool → Command
  authenticate : String → String → Command
  add_shard_owner : ℕ → ℕ → Command
  remove_shard_owner : ℕ → ℕ → Command
  drop_shard : ℕ → Command
  truncate_shard_groups : ℕ → Command
  prune_shard_groups : ℕ → Command
  delete_shard_group : String → String → ℕ → ℕ → Command
  precreate_shard_groups : ℕ → ℕ → Command
  create_continuous_query : String → String → String → Command
  drop_continuous_query : String → String → Command
  create_subscription : String → String → String → String → List String → Command
  drop_subscription : String → String → String → Command
  freeze_data_node : ℕ → Bool → Command

-- What a method returns beside its error; `none` is a nil pointer.
pub data Result (DB P : Type 0) : Type 0 where
  done : Result DB P
  database : Option DB → Result DB P
  group : Option ShardGroupInfo → Result DB P
  node : NodeInfo → Result DB P
  policy : P → Result DB P
  user : UserInfo → Result DB P

-- A duration or a name that the request leaves out is a nil pointer.
unfoldable pub given_duration : ℕ → Option ℕ
given_duration d = if int_ltb 0 d then some d else none

unfoldable pub given_name : String → Option String
given_name s = if s ==ₛ "" then none else some s

unfoldable pub policy_spec : Rps → RetentionPolicySpec
policy_spec rps = record {
  name = rps.name;
  replica_n = some rps.replica_n;
  duration = given_duration rps.duration;
  shard_group_duration = rps.shard_group_duration;
}

unfoldable pub policy_update : Rps → RetentionPolicyUpdate
policy_update rps = record {
  name = given_name rps.name;
  replica_n = some rps.replica_n;
  duration = given_duration rps.duration;
  shard_group_duration = given_duration rps.shard_group_duration;
}

-- `time.Unix(s, 0)`, in nanoseconds after the zero time.
unfoldable pub unix_time : ℕ → ℕ
unix_time s = (62135596800 + s) * 1000000000

unfoldable pub time_or : ℕ → ℕ → ℕ
time_or t fallback = if t == 0 then fallback else t

-- `SHARDGROUP_INFO_EVICTION` before now.
unfoldable pub eviction : ℕ → ℕ
eviction now = now - 1209600000000000

module _ {X E DB P : Type 0} where
  unfoldable pub returns :
      {A : Type 0}
      → (A → Result DB P)
      → Outcome (Error E) A × Client X
      → Outcome (Error E) (Result DB P) × Client X
  returns f (ok a, c) = (ok (f a), c)
  returns f (err e, c) = (err e, c)
  returns f (panic, c) = (panic, c)

  unfoldable pub returns_done : Client X → Outcome (Error E) (Result DB P) × Client X
  returns_done c = (ok done, c)

module _ {X E DB P : Type 0} (influx : Influxdb X E DB P) (clock : ℕ → ℕ) (salt : String) where
  unfoldable pub execute : Command → Client X → Outcome (Error E) (Result DB P) × Client X
  execute (create_database name) c = returns database (Store.create_database influx name c)
  execute (drop_database name) c = returns (λ _. done) (Updates.drop_database influx name c)
  execute (drop_retention_policy db name) c =
      returns (λ _. done) (Updates.drop_retention_policy influx db name c)
  execute (create_shard_group db name t) c =
      returns group (Groups.create_shard_group influx db name (unix_time t) c)
  execute (create_data_node http tcp) c = returns node (Store.create_data_node influx http tcp c)
  execute (delete_data_node id) c = returns (λ _. done) (Store.delete_data_node influx id clock c)
  execute (create_retention_policy db rps make_default) c =
      returns policy (Store.create_retention_policy influx db (policy_spec rps) make_default c)
  execute (update_retention_policy db name rps make_default) c =
      returns (λ _. done)
        (Updates.update_retention_policy influx db name (policy_update rps) make_default c)
  execute (create_database_with_retention_policy name rps) c =
      returns database
        (Store.create_database_with_retention_policy influx name (some (policy_spec rps)) c)
  execute (create_user name password admin) c =
      returns user (Users.create_user influx name password admin c)
  execute (drop_user name) c = returns (λ _. done) (Users.drop_user influx name c)
  execute (update_user name password) c =
      returns (λ _. done) (Users.update_user influx name password c)
  execute (set_privilege name db p) c =
      returns (λ _. done) (Updates.set_privilege influx name db p c)
  execute (set_admin_privilege name admin) c =
      returns (λ _. done) (Updates.set_admin_privilege influx name admin c)
  execute (authenticate name password) c =
      returns user (Users.authenticate influx name password salt c)
  execute (add_shard_owner shard id) c = returns_done (Store.add_shard_owner influx shard id c)
  execute (remove_shard_owner shard id) c =
      returns_done (Store.remove_shard_owner influx shard id c)
  execute (drop_shard id) c = returns_done (Groups.drop_shard influx id c)
  execute (truncate_shard_groups t) c = returns_done (Groups.truncate_shard_groups influx t c)
  execute (prune_shard_groups expiration) c =
      returns_done (Groups.prune_shard_groups (time_or expiration (eviction (clock 0))) c)
  execute (delete_shard_group db name id now) c =
      returns (λ _. done) (Store.delete_shard_group influx db name id (time_or now (clock 0)) c)
  execute (precreate_shard_groups from to) c =
      returns (λ _. done) (Groups.precreate_shard_groups influx from to c)
  execute (create_continuous_query db name query) c =
      returns (λ _. done) (Updates.create_continuous_query influx db name query c)
  execute (drop_continuous_query db name) c =
      returns (λ _. done) (Updates.drop_continuous_query influx db name c)
  execute (create_subscription db rp name mode destinations) c =
      returns (λ _. done) (Updates.create_subscription influx db rp name mode destinations c)
  execute (drop_subscription db rp name) c =
      returns (λ _. done) (Updates.drop_subscription influx db rp name c)
  execute (freeze_data_node id true) c = returns (λ _. done) (Store.freeze_data_node influx id c)
  execute (freeze_data_node id false) c = returns (λ _. done) (Store.unfreeze_data_node influx id c)
