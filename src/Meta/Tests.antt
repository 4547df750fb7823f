-- ===== src/Meta/Tests.antt =====
-- A concrete cluster, tests of the operations on it and instances of the theorems on the metadata.
use mathlib.Core.List.{Permᴰ}
use mathlib.Core.List.Permᴰ
use mathlib.Core.Bool.{false≢true}
use chronus.Base.{
  ℕ, ◌%◌, ◌≤◌, map, ◌≡◌, ◌≢◌, refl, sym, ◌∙◌, false, List, [], ◌∷◌, none, some, String, ok, err,
  panic, arith, eq_iff, Distinct, contains, length, inr, ◌==ₛ◌, ◌<◌, ◌+◌, not, ◌||◌, ◌&&◌, ◌==◌,
}
use chronus.Meta.Types.{
  NodeInfo, ShardInfo, ShardGroupInfo, RetentionPolicyInfo, DatabaseInfo, Data, node_exists,
  no_replica_can_be_assigned,
}
use chronus.Meta.Nodes.{
  any_node, existing_id, exist_in_nodes, create_data_node, create_meta_node, without_node,
}
use chronus.Meta.Nodes.Freeze.{
  get_freezed, freeze_data_node, unfreeze_data_node, is_freeze_data_node, unfreeze-freeze,
  freeze_exact,
}
use chronus.Meta.Nodes.Ids.{
  IsValid, create_data_node-IsValid, create_meta_node-IsValid, create_data_node_again,
  create_data_node_shared_id,
}
use chronus.Meta.Owners.{Item, new_shard_owner, bump, delete}
use chronus.Meta.Owners.Choice.{new_shard_owner_stable}
use chronus.Meta.Delete.{
  delete_data_node, delete_from_database, delete_from_policy, delete_from_group, for_each,
  scan_owners, relinquish, add_owner, has_shard, unfreeze_deleted,
}
use chronus.Meta.Delete.Settled.{AllGroups, GroupValid, GroupSettled, delete_data_node_settles}
use chronus.Meta.Groups.{
  Influx, available_nodes, create_shard_group, new_group, policy_at, set_policy, create_in_policy,
}
use chronus.Meta.Groups.Create.{
  GroupFits, create_in_policy_adds, create_shard_group_panics, create_shard_group_no_replica,
  new_group_covers,
}
use chronus.Meta.ShardOwners.{owners_of, add_shard_owner, remove_shard_owner}
use chronus.Meta.ShardOwners.Exact.{
  add_shard_owner_exact, remove_shard_owner_exact, remove-add_shard_owner,
}
use chronus.Meta.GroupDeletion.{delete_shard_group, group_of, delete_shard_group_marks}

abbrev node : ℕ → String → String → NodeInfo
node id host tcp_host = record { id = id; host = host; tcp_host = tcp_host }

abbrev shard : ℕ → List ℕ → ShardInfo
shard id owners = record { id = id; owners = owners }

abbrev group_one : ShardGroupInfo
group_one = record {
  id = 1;
  start_time = 0;
  end_time = 100;
  deleted_at = 0;
  shards = shard 1 (2 ∷ 3 ∷ []) ∷ shard 2 (2 ∷ []) ∷ [];
}

abbrev policy : ℕ → RetentionPolicyInfo
policy replica_n = record {
  name = "rp";
  replica_n = replica_n;
  shard_group_duration = 100;
  shard_groups = group_one ∷ [];
}

abbrev cluster : ℕ → List ℕ → Data
cluster replica_n freezed = record {
  index = 5;
  databases = record { name = "db"; retention_policies = policy replica_n ∷ [] } ∷ [];
  max_shard_group_id = 1;
  max_shard_id = 2;
  meta_nodes = node 1 "h1" "t1" ∷ [];
  data_nodes = node 2 "h2" "t2" ∷ node 3 "h3" "t3" ∷ [];
  freezed_data_nodes = freezed;
  max_node_id = 3;
}

abbrev keep_order : List NodeInfo → List NodeInfo
keep_order ns = ns

cluster-IsValid : IsValid (cluster 1 [])
unfolding any_node
cluster-IsValid = record {
  data_ids = omega arith;
  meta_ids = omega arith;
  addresses = (refl, (refl, tt));
}

abbrev influx : Influx
influx = record {
  retention_policy = λ dbs db rp. ok (some (0, 0));
  shard_group_by_timestamp = λ rp t. none;
  sort_groups = λ gs. gs;
  max_nano_time = 1000;
}

freeze_two : freeze_data_node 2 (cluster 1 []) ≡ (ok tt, cluster 1 (2 ∷ []))
unfolding freeze_data_node exist_in_nodes get_freezed
freeze_two = refl

unfreeze-freeze_test : unfreeze_data_node 2 (cluster 1 (2 ∷ [])) ≡ (ok tt, cluster 1 [])
unfreeze-freeze_test = unfreeze-freeze 2 (cluster 1 []) (cluster 1 (2 ∷ [])) freeze_two

freeze_exact_test :
    is_freeze_data_node 3 (cluster 1 (2 ∷ [])) ≡ is_freeze_data_node 3 (cluster 1 [])
freeze_exact_test = freeze_exact 2 (cluster 1 []) (cluster 1 (2 ∷ [])) 3 freeze_two

create_data_node-IsValid_example : IsValid (create_data_node keep_order "h1" "t9" (cluster 1 [])).1
create_data_node-IsValid_example =
    create_data_node-IsValid keep_order Permᴰ.refl "h1" "t9" (cluster 1 []) (omega arith)
      cluster-IsValid

create_meta_node-IsValid_test : IsValid (create_meta_node keep_order "h7" "t2" (cluster 1 [])).1
create_meta_node-IsValid_test =
    create_meta_node-IsValid keep_order Permᴰ.refl "h7" "t2" (cluster 1 []) (omega arith)
      cluster-IsValid

abbrev grown : Data
grown = record (cluster 1 []) {
  data_nodes = node 2 "h2" "t2" ∷ node 3 "h3" "t3" ∷ node 4 "h4" "t4" ∷ [];
  max_node_id = 4;
}

grow : create_data_node keep_order "h4" "t4" (cluster 1 []) ≡ (ok 4, grown)
unfolding create_data_node any_node existing_id
grow = refl

create_data_node_again_test : create_data_node keep_order "h9" "t4" grown ≡ (err node_exists, grown)
create_data_node_again_test =
    create_data_node_again keep_order Permᴰ.refl "h4" "t4" "h9" "t4" 4 (cluster 1 []) grown grow
      (inr refl)

texts-ne : (s t : String) → (s ==ₛ t) ≡ false → s ≢ t
texts-ne s t h e = false≢true (sym h ∙ (eq_iff s t).1 e)

create_data_node_shared_id_example :
    ((create_data_node keep_order "h1" "t8" (cluster 1 [])).0 ≡ ok 1)
    × ((create_data_node keep_order "h8" "t1"
          (create_data_node keep_order "h1" "t8" (cluster 1 [])).1).0
        ≡ ok 1)
unfolding any_node
create_data_node_shared_id_example =
    create_data_node_shared_id keep_order Permᴰ.refl "h8" "t8" (cluster 1 []) (node 1 "h1" "t1") []
      refl (omega arith) (texts-ne "h8" "h1" refl) (texts-ne "t8" "t1" refl) refl refl

abbrev item : ℕ → ℕ → Item
item id freq = record { id = id; freq = freq }

new_shard_owner_stable_example :
    new_shard_owner (item 3 1 ∷ item 2 1 ∷ []) ≡ new_shard_owner (item 2 1 ∷ item 3 1 ∷ [])
new_shard_owner_stable_example = new_shard_owner_stable (Permᴰ.swap refl refl)

new_shard_owner_two : new_shard_owner (item 3 1 ∷ item 2 1 ∷ item 1 4 ∷ []) ≡ 2
unfolding new_shard_owner
new_shard_owner_two = refl

clock : ℕ → ℕ
clock n = 77

clock_started : (n : ℕ) → 0 < clock n
unfolding clock
clock_started n = omega arith

group_one-GroupValid : GroupValid group_one
group_one-GroupValid =
    ((refl, (refl, tt)), (((refl, (refl, tt)), omega arith), (((refl, tt), omega arith), tt)))

delete_data_node_settles_example :
    ((delete_data_node 2 clock (cluster 1 (2 ∷ []))).0 ≡ ok tt)
    × (exist_in_nodes (delete_data_node 2 clock (cluster 1 (2 ∷ []))).1.data_nodes 2 ≡ none)
    × AllGroups (GroupSettled 2) (delete_data_node 2 clock (cluster 1 (2 ∷ []))).1.databases
    × (contains 2 (delete_data_node 2 clock (cluster 1 (2 ∷ []))).1.freezed_data_nodes ≡ false)
unfolding exist_in_nodes
delete_data_node_settles_example =
    delete_data_node_settles 2 clock clock_started (cluster 1 (2 ∷ [])) (node 2 "h2" "t2")
      (omega arith) refl (((group_one-GroupValid, tt), tt), tt) (refl, tt)

-- The orphan goes to the node that is left.
delete_data_node_reassigns :
    map
      (λ (db : DatabaseInfo).
        map
          (λ (rp : RetentionPolicyInfo). map (λ (g : ShardGroupInfo). g.shards) rp.shard_groups)
          db.retention_policies)
      (delete_data_node 2 clock (cluster 1 [])).1.databases
    ≡ (((shard 1 (3 ∷ []) ∷ shard 2 (3 ∷ []) ∷ []) ∷ []) ∷ []) ∷ []
unfolding delete_data_node delete_from_database delete_from_policy delete_from_group for_each
    without_node scan_owners relinquish add_owner has_shard new_shard_owner bump delete
    unfreeze_deleted get_freezed
delete_data_node_reassigns = refl

create_in_policy_adds_example :
    (sg : ShardGroupInfo) × GroupFits (cluster 1 []) (policy 1) sg
    × (create_in_policy influx (0, 0) (policy 1) 250 (cluster 1 []) ≡ (
      ok tt,
      record (cluster 1 []) {
        max_shard_group_id = sg.id;
        max_shard_id = 2 + length sg.shards;
        databases =
            set_policy
              (0, 0)
              (record (policy 1) { shard_groups = group_one ∷ sg ∷ [] })
              (cluster 1 []).databases;
      },
    ))
unfolding available_nodes
create_in_policy_adds_example =
    create_in_policy_adds influx (0, 0) (policy 1) 250 (cluster 1 []) (omega arith)
      (refl, (refl, tt)) (omega arith) (omega arith)

create_shard_group_panics_example :
    (create_shard_group influx "db" "rp" 250 (cluster 0 (2 ∷ 3 ∷ []))).0 ≡ panic
unfolding available_nodes policy_at
create_shard_group_panics_example =
    create_shard_group_panics influx "db" "rp" 250 (cluster 0 (2 ∷ 3 ∷ [])) (0, 0) (policy 0)
      (λ e. cc e) refl refl refl refl refl

create_shard_group_no_replica_test :
    create_shard_group influx "db" "rp" 250 (cluster 1 (2 ∷ 3 ∷ []))
    ≡ (err no_replica_can_be_assigned, cluster 1 (2 ∷ 3 ∷ []))
unfolding available_nodes policy_at
create_shard_group_no_replica_test =
    create_shard_group_no_replica influx "db" "rp" 250 (cluster 1 (2 ∷ 3 ∷ [])) (0, 0) (policy 1)
      (λ e. cc e) refl refl refl refl (omega arith)

new_group_covers_example :
    ((new_group influx 2 250 100 []).start_time ≤ 250)
    × (250 < (new_group influx 2 250 100 []).end_time)
    × ((new_group influx 2 250 100 []).start_time % 100 ≡ 0)
    × ((new_group influx 2 250 100 []).end_time ≤ 1001)
new_group_covers_example = new_group_covers influx 2 250 100 [] (omega arith) (omega arith)

add_shard_owner_exact_example :
    (os' : List ℕ) × (owners_of 2 (add_shard_owner 2 3 (cluster 1 [])) ≡ some os')
    × ((x : ℕ) → contains x os' ≡ (3 == x || contains x (2 ∷ [])))
    × (Distinct (2 ∷ []) → Distinct os')
    × ((j : ℕ)
        → 2 ≢ j
        → owners_of j (add_shard_owner 2 3 (cluster 1 [])) ≡ owners_of j (cluster 1 []))
unfolding owners_of
add_shard_owner_exact_example = add_shard_owner_exact 2 3 (cluster 1 []) (2 ∷ []) refl

remove_shard_owner_exact_example :
    (os' : List ℕ) × (owners_of 1 (remove_shard_owner 1 3 (cluster 1 [])) ≡ some os')
    × ((x : ℕ) → contains x os' ≡ (not (3 == x) && contains x (2 ∷ 3 ∷ [])))
    × ((j : ℕ)
        → 1 ≢ j
        → owners_of j (remove_shard_owner 1 3 (cluster 1 [])) ≡ owners_of j (cluster 1 []))
unfolding owners_of
remove_shard_owner_exact_example = remove_shard_owner_exact 1 3 (cluster 1 []) (2 ∷ 3 ∷ []) refl

remove-add_shard_owner_test :
    owners_of 2 (remove_shard_owner 2 3 (add_shard_owner 2 3 (cluster 1 [])))
    ≡ owners_of 2 (cluster 1 [])
unfolding owners_of
remove-add_shard_owner_test = remove-add_shard_owner 2 3 (cluster 1 []) (2 ∷ []) refl refl 2

delete_shard_group_marks_test :
    (rp' : RetentionPolicyInfo) × ((delete_shard_group influx "db" "rp" 1 9 (cluster 1 [])).0
      ≡ ok tt)
    × (policy_at (0, 0) (delete_shard_group influx "db" "rp" 1 9 (cluster 1 [])).1.databases
        ≡ some rp')
    × (group_of 1 rp'.shard_groups ≡ some (record group_one { deleted_at = 9 }))
    × ((j : ℕ) → 1 ≢ j → group_of j rp'.shard_groups ≡ group_of j (group_one ∷ []))
unfolding policy_at
delete_shard_group_marks_test =
    delete_shard_group_marks influx "db" "rp" 1 9 (cluster 1 []) (0, 0) (policy 1) group_one refl
      refl refl
