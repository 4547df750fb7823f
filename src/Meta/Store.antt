-- ===== src/Meta/Store.antt =====
-- services/meta/store.go: Client, one node's copy of the metadata. What influxdb's `meta.Data`
-- keeps beside the fields that data.go uses is of a type `X` of influxdb's, and its methods are
-- parameters. A clone is the same value. `snapshot` writes nothing, so that a commit cannot fail.
-- The channel that a change closes is numbered by the changes before it. Locks, the path and the
-- logger are left out: a method holds its lock throughout, but for Authenticate, whose steps are told
-- apart.

mod Types
pub mod Encoding
pub mod Groups
pub mod Users
pub mod Updates
pub mod Pruned
pub mod Cache
pub mod Tests
pub use Types.*
use chronus.Base.{
  ℕ, suc, ◌≡◌, refl, Bool, true, false, ◌&&◌, not, List, [], ◌∷◌, Option, none, some, String,
  Outcome, ok, err, panic, ◌==◌, ◌==ₛ◌, if◌then◌else◌, incr64,
}
use chronus.Hh.Bytes.{int_ltb}
use chronus.Meta.Types.{NodeInfo, Data, Error as DataError}
use chronus.Meta.Nodes
use chronus.Meta.Nodes.Freeze
use chronus.Meta.Delete
use chronus.Meta.ShardOwners
use chronus.Meta.GroupDeletion

pub record AuthUser : Type 0 where
  pub bhash : String
  pub salt : String
  pub hash : String

pub record Client (X : Type 0) : Type 0 where
  pub cache_data : MetaData X
  pub auth_cache : List (String × AuthUser)
  pub changes : ℕ
  pub retention_auto_create : Bool

unfoldable pub node_by_tcp_host : String → List NodeInfo → Option NodeInfo
node_by_tcp_host tcp [] = none
node_by_tcp_host tcp (n ∷ ns) =
    let rest = node_by_tcp_host tcp ns in if n.tcp_host ==ₛ tcp then some n else rest

-- A duration that is given, is too short and is not 0.
unfoldable pub too_low : ℕ → Option ℕ → Bool
too_low least none = false
too_low least (some d) = int_ltb d least && not (d == 0)

module _ {X : Type 0} where
  unfoldable pub with_own : Data → Client X → Client X
  with_own d c = record c { cache_data = record c.cache_data { own = d } }

  unfoldable pub commit : MetaData X → Client X → Client X
  commit d c = record c {
    cache_data = record d { own = record d.own { index = incr64 d.own.index } };
    changes = suc c.changes;
  }

  -- ReplaceData, with the data of a snapshot.
  unfoldable pub replace_data : MetaData X → Client X → Client X
  replace_data d c = record c { cache_data = d; changes = suc c.changes }

  unfoldable pub set_data : MetaData X → Client X → Client X
  set_data d c = commit d c

module _ {X E : Type 0} where
  -- Where the operation on the clone succeeds, the clone is committed.
  unfoldable pub commit_result :
      {A : Type 0} → Outcome (Error E) A × MetaData X → Client X → Outcome (Error E) A × Client X
  commit_result (ok a, d) c = (ok a, commit d c)
  commit_result (err e, d) c = (err e, c)
  commit_result (panic, d) c = (panic, c)

  unfoldable pub influx_result : Option E × MetaData X → Outcome (Error E) (Unit {0}) × MetaData X
  influx_result (none, d) = (ok tt, d)
  influx_result (some e, d) = (err (influx_error e), d)

  -- The rest of CreateDataNode, which looks the node up by its address.
  unfoldable pub node_created :
      String → Outcome DataError ℕ × Data → Client X → Outcome (Error E) NodeInfo × Client X
  node_created tcp (err e, d) c = (err (data_error e), with_own d c)
  node_created tcp (panic, d) c = (panic, with_own d c)
  node_created tcp (ok id, d) c = elim (node_by_tcp_host tcp d.data_nodes) [
    | none ↦ (err node_not_found, with_own d c)
    | some n ↦ (ok n, commit (record c.cache_data { own = d }) (with_own d c))
  ]

  -- A method of data.go on the whole of the metadata.
  unfoldable pub on_data :
      {A : Type 0} → Outcome DataError A × Data → X → Outcome (Error E) A × MetaData X
  on_data (ok a, d) x = (ok a, record { own = d; rest = x })
  on_data (err e, d) x = (err (data_error e), record { own = d; rest = x })
  on_data (panic, d) x = (panic, record { own = d; rest = x })

  -- What a method returns once the data has changed.
  unfoldable pub value_of :
      {A : Type 0}
      → (MetaData X → A)
      → Outcome (Error E) (Unit {0}) × MetaData X
      → Outcome (Error E) A × MetaData X
  value_of f (ok _, d) = (ok (f d), d)
  value_of f (err e, d) = (err e, d)
  value_of f (panic, d) = (panic, d)

  -- An operation of influxdb's on a clone.
  unfoldable pub update :
      (MetaData X → Option E × MetaData X) → Client X → Outcome (Error E) (Unit {0}) × Client X
  update f c = commit_result (influx_result (f c.cache_data)) c

module _ {X E DB P : Type 0} (influx : Influxdb X E DB P) where
  -- CreateDataNode: the one method that works on the data in place.
  unfoldable pub create_data_node :
      String → String → Client X → Outcome (Error E) NodeInfo × Client X
  create_data_node http tcp c =
      node_created tcp (Nodes.create_data_node influx.sort_nodes http tcp c.cache_data.own) c

  unfoldable pub delete_data_node : ℕ → (ℕ → ℕ) → Client X → Outcome (Error E) (Unit {0}) × Client X
  delete_data_node id now c =
      commit_result (on_data (Delete.delete_data_node id now c.cache_data.own) c.cache_data.rest) c

  unfoldable pub freeze_data_node : ℕ → Client X → Outcome (Error E) (Unit {0}) × Client X
  freeze_data_node id c =
      commit_result (on_data (Freeze.freeze_data_node id c.cache_data.own) c.cache_data.rest) c

  unfoldable pub unfreeze_data_node : ℕ → Client X → Outcome (Error E) (Unit {0}) × Client X
  unfreeze_data_node id c =
      commit_result (on_data (Freeze.unfreeze_data_node id c.cache_data.own) c.cache_data.rest) c

  unfoldable pub add_shard_owner : ℕ → ℕ → Client X → Client X
  add_shard_owner shard node c =
      commit
        (record {
          own = ShardOwners.add_shard_owner shard node c.cache_data.own;
          rest = c.cache_data.rest;
        })
        c

  unfoldable pub remove_shard_owner : ℕ → ℕ → Client X → Client X
  remove_shard_owner shard node c =
      commit
        (record {
          own = ShardOwners.remove_shard_owner shard node c.cache_data.own;
          rest = c.cache_data.rest;
        })
        c

  unfoldable pub delete_shard_group :
      String → String → ℕ → ℕ → Client X → Outcome (Error E) (Unit {0}) × Client X
  delete_shard_group database policy id t c =
      commit_result
        (on_data
          (GroupDeletion.delete_shard_group influx.groups database policy id t c.cache_data.own)
          c.cache_data.rest)
        c

  -- The default policy of a new database, if the node is so configured.
  unfoldable pub auto_create : Bool → String → Option E × MetaData X → Option E × MetaData X
  auto_create auto name (some e, d) = (some e, d)
  auto_create false name (none, d) = (none, d)
  auto_create true name (none, d) = influx.create_retention_policy name influx.default_policy true d

  -- What CreateDatabase returns, a nil pointer for `none`.
  unfoldable pub create_database : String → Client X → Outcome (Error E) (Option DB) × Client X
  create_database name c = elim (influx.database name c.cache_data) [
    | some db ↦ (ok (some db), c)
    | none ↦
        commit_result
          (value_of (influx.database name) (
            influx_result (
              auto_create c.retention_auto_create name (influx.create_database name c.cache_data))))
          c
  ]

  -- The policy of the spec, on a database that is there. The database is read anew through its pointer.
  unfoldable pub with_policy :
      String
      → RetentionPolicySpec
      → Option DB
      → MetaData X
      → Outcome (Error E) (Unit {0}) × MetaData X
  with_policy name spec none d = (panic, d)
  with_policy name spec (some db) d =
      let policy = influx.new_policy spec in
      if influx.no_retention_policies db
      then influx_result (influx.create_retention_policy name policy true d)
      else if influx.matches spec (influx.policy_of (influx.policy_name policy) db)
      then (ok tt, d)
      else (err retention_policy_conflict, d)

  unfoldable pub ensure_database : String → MetaData X → Outcome (Error E) (Unit {0}) × MetaData X
  ensure_database name d = elim (influx.database name d) [
    | some db ↦ (ok tt, d)
    | none ↦ influx_result (influx.create_database name d)
  ]

  unfoldable pub policy_on :
      String
      → RetentionPolicySpec
      → Outcome (Error E) (Unit {0}) × MetaData X
      → Outcome (Error E) (Unit {0}) × MetaData X
  policy_on name spec (ok _, d) = with_policy name spec (influx.database name d) d
  policy_on name spec (err e, d) = (err e, d)
  policy_on name spec (panic, d) = (panic, d)

  unfoldable pub check_default :
      String
      → RetentionPolicySpec
      → Outcome (Error E) (Unit {0}) × MetaData X
      → Outcome (Error E) (Option DB) × MetaData X
  check_default name spec (err e, d) = (err e, d)
  check_default name spec (panic, d) = (panic, d)
  check_default name spec (ok _, d) = elim (influx.database name d) [
    | none ↦ (panic, d)
    | some db ↦
        if influx.default_retention_policy db ==ₛ influx.policy_name (influx.new_policy spec)
        then (ok (some db), d)
        else (err retention_policy_conflict, d)
  ]

  unfoldable pub create_database_with_retention_policy :
      String → Option RetentionPolicySpec → Client X → Outcome (Error E) (Option DB) × Client X
  create_database_with_retention_policy name none c = (err nil_spec, c)
  create_database_with_retention_policy name (some spec) c =
      if too_low influx.min_retention_policy_duration spec.duration
      then (err retention_policy_duration_too_low, c)
      else commit_result
          (check_default name spec (policy_on name spec (ensure_database name c.cache_data))) c

  unfoldable pub create_retention_policy :
      String → RetentionPolicySpec → Bool → Client X → Outcome (Error E) P × Client X
  create_retention_policy name spec make_default c =
      if too_low influx.min_retention_policy_duration spec.duration
      then (err retention_policy_duration_too_low, c)
      else commit_result
          (value_of (λ _. influx.new_policy spec)
            (influx_result (
              influx.create_retention_policy name (influx.new_policy spec) make_default
                c.cache_data)))
          c
