-- ===== src/Meta/Store/Tests.antt =====
-- A client of a small cluster, with packages of influxdb that keep databases and users, and
-- instances of the theorems.
use chronus.Base.{
  ℕ, ◌≡◌, refl, sym, ap, Bool, true, false, List, [], ◌∷◌, ◌++◌, Option, none, some, String, ok,
  ◌==ₛ◌, if◌then◌else◌,
}
use chronus.Meta.Types.{NodeInfo, DatabaseInfo, RetentionPolicyInfo, ShardGroupInfo}
use chronus.Meta.Groups.{Influx, policy_at}
use chronus.Meta.Store.{
  Client, MetaData, Influxdb, UserInfo, replace_data, commit_result, influx_result, update, commit,
}
use chronus.Meta.Store.Users.{find_user, forget, forget_result, authenticate, remember, update_user}
use chronus.Meta.Store.Groups.{prune_shard_groups}
use chronus.Meta.Store.Pruned.{pruned_at, pruned_policy, not_expired, prune_exact}
use chronus.Meta.Store.Cache.{authenticate-replace_data, authenticate-remember}
use chronus.Meta.Store.Encoding.{
  InfluxData, DataJson, Encodings, GivesBack, embedded, marshal, marshal_binary, unmarshal_binary,
  unmarshal_binary-marshal_binary,
}
use chronus.Raft.Node.{SnapshotData}

abbrev Packages : Type 0
Packages = Influxdb (List UserInfo) String String String

abbrev kept : MetaData (List UserInfo) → Option String × MetaData (List UserInfo)
kept d = (none, d)

abbrev find_database : String → List DatabaseInfo → Option String
find_database name [] = none
find_database name (db ∷ dbs) =
    let rest = find_database name dbs in if db.name ==ₛ name then some name else rest

abbrev add_database : String → MetaData (List UserInfo) → Option String × MetaData (List UserInfo)
add_database name d = (
  none,
  record d {
    own = record d.own {
      databases = d.own.databases ++ record { name = name; retention_policies = [] } ∷ [];
    };
  },
)

abbrev with_user :
    String → String → Bool → MetaData (List UserInfo) → Option String × MetaData (List UserInfo)
with_user name hashed admin d =
    (none, record d { rest = record { name = name; hash = hashed; admin = admin } ∷ d.rest })

abbrev groups : Influx
groups = record {
  retention_policy = λ dbs db policy. ok none;
  shard_group_by_timestamp = λ rp t. none;
  sort_groups = λ gs. gs;
  max_nano_time = 1000000;
}

-- A password is its own hash.
abbrev pub packages : Packages
packages = record {
  groups = groups;
  sort_nodes = λ ns. ns;
  users = λ us. us;
  database = λ name d. find_database name d.own.databases;
  no_retention_policies = λ db. true;
  default_retention_policy = λ db. "autogen";
  policy_of = λ name db. none;
  policy_name = λ p. p;
  default_policy = "autogen";
  new_policy = λ spec. spec.name;
  matches = λ spec p. false;
  min_retention_policy_duration = 3600;
  shard_group_by_timestamp = λ db policy t d. none;
  policy_group_by_timestamp = λ db policy t d. ok none;
  create_database = add_database;
  drop_database = λ name. kept;
  drop_user = λ name. kept;
  create_retention_policy = λ name policy default. kept;
  drop_retention_policy = λ db name. kept;
  update_user = λ name hashed. with_user name hashed false;
  drop_continuous_query = λ db name. kept;
  update_retention_policy = λ db name update default. kept;
  create_user = with_user;
  set_privilege = λ name db p. kept;
  set_admin_privilege = λ name admin. kept;
  drop_shard = λ id d. d;
  truncate_shard_groups = λ t d. d;
  create_continuous_query = λ db name query. kept;
  drop_subscription = λ db rp name. kept;
  create_subscription = λ db rp name mode destinations. kept;
  hash_with_salt = λ salt password. password;
  same_password = λ hash password. hash ==ₛ password;
}

abbrev group : ℕ → ℕ → ShardGroupInfo
group id deleted_at = record {
  id = id;
  start_time = 0;
  end_time = 100;
  deleted_at = deleted_at;
  shards = [];
}

abbrev policies : List ShardGroupInfo → List RetentionPolicyInfo
policies gs =
    record { name = "autogen"; replica_n = 1; shard_group_duration = 100; shard_groups = gs } ∷ []

abbrev pub meta_data : List DatabaseInfo → List UserInfo → MetaData (List UserInfo)
meta_data dbs users = record {
  own = record {
    index = 1;
    databases = dbs;
    max_shard_group_id = 0;
    max_shard_id = 0;
    meta_nodes = [];
    data_nodes = record { id = 1; host = "h1"; tcp_host = "t1" } ∷ [];
    freezed_data_nodes = [];
    max_node_id = 1;
  };
  rest = users;
}

abbrev pub client : MetaData (List UserInfo) → Client (List UserInfo)
client d = record { cache_data = d; auth_cache = []; changes = 0; retention_auto_create = true }

abbrev ann : String → UserInfo
ann hashed = record { name = "ann"; hash = hashed; admin = false }

abbrev two_groups : Client (List UserInfo)
two_groups = client (
    meta_data
      (record { name = "db0"; retention_policies = policies (group 1 0 ∷ group 2 50 ∷ []) } ∷ [])
      [])

prune_exact_example :
    (policy_at (0, 0) (prune_shard_groups 60 two_groups).cache_data.own.databases
      ≡ some (record {
        name = "autogen";
        replica_n = 1;
        shard_group_duration = 100;
        shard_groups = group 1 0 ∷ [];
      }))
    × (prune_shard_groups 60 (prune_shard_groups 60 two_groups) ≡ prune_shard_groups 60 two_groups)
unfolding pruned_at pruned_policy not_expired policy_at
prune_exact_example = prune_exact 60 two_groups (0, 0)

authenticate-replace_data_example :
    (authenticate packages "ann" "old" "s2" (
      replace_data
        (meta_data [] (ann "new" ∷ []))
        (authenticate packages "ann" "old" "s1" (client (meta_data [] (ann "old" ∷ [])))).1)).0
    ≡ ok (ann "new")
unfolding find_user
authenticate-replace_data_example =
    authenticate-replace_data packages "ann" "old" "s1" "s2" (ann "old") (ann "new")
      (client (meta_data [] (ann "old" ∷ []))) (meta_data [] (ann "new" ∷ [])) refl refl refl

-- While the password of "ann" is changed, an Authenticate with the old one is under way.
authenticate_race_test :
    (authenticate packages "ann" "old" "s2" (
      remember packages "ann" "old" "s1"
        (ann "old")
        (update_user packages "ann" "new" (client (meta_data [] (ann "old" ∷ [])))).1)).0
    ≡ ok (ann "new")
unfolding find_user update_user forget_result update commit_result influx_result commit forget
authenticate_race_test =
    authenticate-remember packages "ann" "old" "s1" "s2" (ann "old") (ann "new")
      (update_user packages "ann" "new" (client (meta_data [] (ann "old" ∷ [])))).1 refl

-- Bytes that keep what was encoded as it is.
pub data Bytes : Type 0 where
  influx_bytes : String → InfluxData (List UserInfo) → Bytes
  json_bytes : Bytes → List NodeInfo → List NodeInfo → ℕ → List ℕ → Bytes
  peers_bytes : Bytes → List (ℕ × String) → Bytes

abbrev of_influx : Bytes → InfluxData (List UserInfo) → Bool × InfluxData (List UserInfo)
of_influx (influx_bytes order d) d0 = (true, d)
of_influx (json_bytes b metas datas id frozen) d0 = (false, d0)
of_influx (peers_bytes b peers) d0 = (false, d0)

abbrev of_json : Bytes → Option (DataJson Bytes)
of_json (influx_bytes order d) = none
of_json (json_bytes b metas datas id frozen) = some (record {
  data_ = b;
  meta_nodes = metas;
  data_nodes = datas;
  max_node_id = id;
  freezed_data_nodes = frozen;
})
of_json (peers_bytes b peers) = none

abbrev pub of_peers : Bytes → Option (SnapshotData Bytes)
of_peers (influx_bytes order d) = none
of_peers (json_bytes b metas datas id frozen) = none
of_peers (peers_bytes b peers) = some (record { data_ = b; peers_addr = peers })

abbrev to_json : DataJson Bytes → Bytes
to_json js = json_bytes js.data_ js.meta_nodes js.data_nodes js.max_node_id js.freezed_data_nodes

abbrev pub to_peers : SnapshotData Bytes → Bytes
to_peers sp = peers_bytes sp.data_ sp.peers_addr

abbrev pub encodings : Encodings (List UserInfo) Bytes
encodings = record {
  marshal_influx = λ order d. some (influx_bytes order d);
  unmarshal_influx = of_influx;
  marshal_json = λ js. some (to_json js);
  unmarshal_json = of_json;
}

abbrev some_or : {A : Type 0} → A → Option A → A
some_or a none = a
some_or a (some b) = b

pub encodings-GivesBack : GivesBack encodings
encodings-GivesBack = record {
  influx = λ order d d0 b encodes. ap (λ o. of_influx (some_or b o) d0) (sym encodes);
  json = λ js b encodes. ap (λ o. of_json (some_or b o)) (sym encodes);
}

unmarshal_binary-marshal_binary_example :
    unmarshal_binary encodings
      (to_json (record {
        data_ = influx_bytes "order" (embedded (meta_data [] (ann "old" ∷ [])));
        meta_nodes = (meta_data [] []).own.meta_nodes;
        data_nodes = (meta_data [] []).own.data_nodes;
        max_node_id = (meta_data [] []).own.max_node_id;
        freezed_data_nodes = (meta_data [] []).own.freezed_data_nodes;
      }))
      (meta_data [] [])
    ≡ meta_data [] (ann "old" ∷ [])
unfolding marshal_binary marshal
unmarshal_binary-marshal_binary_example =
    unmarshal_binary-marshal_binary encodings "order" (meta_data [] (ann "old" ∷ []))
      (meta_data [] []) _ encodings-GivesBack refl
