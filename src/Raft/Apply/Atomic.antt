-- ===== src/Raft/Apply/Atomic.antt =====
-- A command of the log is all or nothing: it changes the metadata and signals that once, or it does
-- neither.
use mathlib.Core.List.{Permᴰ}
use chronus.Base.{
  ℕ, suc, arith, eq_iff, incr64, ◌≡◌, refl, ◌∙◌, Bool, true, false, List, [], ◌∷◌, Option, none,
  some, String, Outcome, ok, err, panic, ◌==ₛ◌, ◌==◌, if◌then◌else◌, Bool-cases, Option-cases, ◌⊎◌,
  inl, inr,
}
use chronus.Meta.Types.{NodeInfo, DatabaseInfo, Data, Error as DataError, node_exists}
use chronus.Meta.Nodes.{any_node, same_node, existing_id}
use chronus.Meta.Nodes
use chronus.Meta.Nodes.Ids.{any_node-joined}
use chronus.Meta.Store.{
  Client, MetaData, Error, Influxdb, UserInfo, commit, commit_result, value_of, update,
  node_by_tcp_host,
}
use chronus.Meta.Store.Users.{find_user, forget_result, created_user, known_user-none}
use chronus.Meta.Store
use chronus.Meta.Store.Users
use chronus.Meta.Store.Updates
use chronus.Meta.Store.Groups
use chronus.Raft.Apply.{
  Command, Result, returns, returns_done, execute, create_database, drop_database,
  drop_retention_policy, create_shard_group, create_data_node, delete_data_node,
  create_retention_policy, update_retention_policy, create_database_with_retention_policy,
  create_user, drop_user, update_user, set_privilege, set_admin_privilege, authenticate,
  add_shard_owner, remove_shard_owner, drop_shard, truncate_shard_groups, prune_shard_groups,
  delete_shard_group, precreate_shard_groups, create_continuous_query, drop_continuous_query,
  create_subscription, drop_subscription, freeze_data_node,
}

-- The data are as before and nobody is signalled; or it succeeds, with one signal.
abbrev pub IsAtomic : {X E A : Type 0} → Client X → Outcome (Error E) A × Client X → Type 0
IsAtomic c (o, c') =
    ((c'.cache_data ≡ c.cache_data) × (c'.changes ≡ c.changes))
    ⊎ ((a : _) × (o ≡ ok a)) × (c'.changes ≡ suc c.changes)

module _ {X E : Type 0} (c : Client X) where
  commit_result-IsAtomic :
      {A : Type 0} (r : Outcome (Error E) A × MetaData X) → IsAtomic c (commit_result r c)
  unfolding commit_result commit
  commit_result-IsAtomic (ok a, d) = inr ((a, refl), refl)
  commit_result-IsAtomic (err e, d) = inl (refl, refl)
  commit_result-IsAtomic (panic, d) = inl (refl, refl)

  pruned-IsAtomic :
      {DB P : Type 0} (r : List DatabaseInfo × Bool)
      → IsAtomic {E = E} {A = Result DB P} c (returns_done (Groups.commit_pruned r c))
  unfolding Groups.commit_pruned commit returns_done
  pruned-IsAtomic (dbs, true) = inr ((_, refl), refl)
  pruned-IsAtomic (dbs, false) = inl (refl, refl)

  forget_result-IsAtomic :
      (name : String) (r : Outcome (Error E) (Unit {0}) × Client X)
      → IsAtomic c r
      → IsAtomic c (forget_result name r)
  unfolding forget_result
  forget_result-IsAtomic name (ok a, c') h = h
  forget_result-IsAtomic name (err e, c') h = h
  forget_result-IsAtomic name (panic, c') h = h

  returns-IsAtomic :
      {A DB P : Type 0} (f : A → Result DB P) (r : Outcome (Error E) A × Client X)
      → IsAtomic c r
      → IsAtomic c (returns f r)
  unfolding returns
  returns-IsAtomic f (ok a, c') (inl kept) = inl kept
  returns-IsAtomic f (ok a, c') (inr (has, once)) = inr ((f a, refl), once)
  returns-IsAtomic f (err e, c') (inl kept) = inl kept
  returns-IsAtomic f (err e, c') (inr ((a, h), once)) = cc (h)
  returns-IsAtomic f (panic, c') (inl kept) = inl kept
  returns-IsAtomic f (panic, c') (inr ((a, h), once)) = cc (h)

-- A node with the address is found, if there is one.
node_by_tcp_host-any_node :
    (tcp : String) (ns : List NodeInfo)
    → any_node (λ n. n.tcp_host ==ₛ tcp) ns ≡ true
    → (n : NodeInfo) × (node_by_tcp_host tcp ns ≡ some n)
unfolding node_by_tcp_host any_node
node_by_tcp_host-any_node tcp [] h = cc
node_by_tcp_host-any_node tcp (n ∷ ns) h = elim (Bool-cases (n.tcp_host ==ₛ tcp)) [
  | inl same ↦ (n, rw same refl)
  | inr other ↦ rw other (node_by_tcp_host-any_node tcp ns (rw other at h))
]

-- What influxdb's packages do, as far as a command relies on it: a user that was created is found,
-- and sorting keeps the nodes.
pub record Keeps {X E DB P : Type 0} (influx : Influxdb X E DB P) : Type 0 where
  pub user_added :
      (name hashed : String) (admin : Bool) (d d' : MetaData X)
      → influx.create_user name hashed admin d ≡ (none, d')
      → (u : UserInfo) × (find_user name (influx.users d'.rest) ≡ some u)
  pub nodes_kept : (ns : List NodeInfo) → Permᴰ (influx.sort_nodes ns) ns

module _ {X E DB P : Type 0} (influx : Influxdb X E DB P) (keeps : Keeps influx)
    (c : Client X) where
  update-IsAtomic : (f : MetaData X → Option E × MetaData X) → IsAtomic c (update f c)
  unfolding update
  update-IsAtomic f = commit_result-IsAtomic c _

  added :
      (http tcp : String) (d : Data)
      → ((e : DataError) × (Nodes.create_data_node influx.sort_nodes http tcp d ≡ (err e, d)))
        ⊎ (id : ℕ) × (d' : Data) × (Nodes.create_data_node influx.sort_nodes http tcp d
            ≡ (ok id, d'))
          × (any_node (λ n. n.tcp_host ==ₛ tcp) d'.data_nodes ≡ true)
  unfolding Nodes.create_data_node
  added http tcp d = elim (Bool-cases (any_node (same_node http tcp) d.data_nodes)) [
    | inl there ↦ inl (node_exists, rw there refl)
    | inr free ↦
        let existing = existing_id (same_node http tcp) d.meta_nodes in
        let id = if existing == 0 then incr64 d.max_node_id else existing in
        let n : NodeInfo = record { id = id; host = http; tcp_host = tcp } in
        let there =
          any_node-joined influx.sort_nodes keeps.nodes_kept (λ n. n.tcp_host ==ₛ tcp) d.data_nodes
            n
          ∙ ground (arith, eq_iff tcp tcp) in
        inr
          (id, (Nodes.create_data_node influx.sort_nodes http tcp d).1, rw free refl, rw free there)
  ]

  -- The lookup of a node that has been added does not fail.
  create_data_node-IsAtomic :
      (http tcp : String) → IsAtomic c (Store.create_data_node influx http tcp c)
  unfolding Store.create_data_node Store.node_created Store.with_own Store.commit
  create_data_node-IsAtomic http tcp = elim (added http tcp c.cache_data.own) [
    | inl (e, refused) ↦ rw refused (inl (refl, refl))
    | inr (id, d, made, there) ↦
        let (n, found) = node_by_tcp_host-any_node tcp d.data_nodes there in
        rw (made, Store.node_created, found) (inr ((n, refl), refl))
  ]

  create_database-IsAtomic : (name : String) → IsAtomic c (Store.create_database influx name c)
  unfolding Store.create_database
  create_database-IsAtomic name = elim (Option-cases (influx.database name c.cache_data)) [
    | inl new ↦ rw (Store.create_database, new) (commit_result-IsAtomic c _)
    | inr (db, there) ↦ rw (Store.create_database, there) (inl (refl, refl))
  ]

  create_with_policy-IsAtomic :
      (name : String) (spec : Store.RetentionPolicySpec)
      → IsAtomic c (Store.create_database_with_retention_policy influx name (some spec) c)
  unfolding Store.create_database_with_retention_policy
  create_with_policy-IsAtomic name spec =
      elim (Bool-cases (Store.too_low influx.min_retention_policy_duration spec.duration)) [
        | inl low ↦ rw low (inl (refl, refl))
        | inr fits ↦ rw fits (commit_result-IsAtomic c _)
      ]

  create_retention_policy-IsAtomic :
      (name : String) (spec : Store.RetentionPolicySpec) (make_default : Bool)
      → IsAtomic c (Store.create_retention_policy influx name spec make_default c)
  unfolding Store.create_retention_policy
  create_retention_policy-IsAtomic name spec make_default =
      elim (Bool-cases (Store.too_low influx.min_retention_policy_duration spec.duration)) [
        | inl low ↦ rw low (inl (refl, refl))
        | inr fits ↦ rw fits (commit_result-IsAtomic c _)
      ]

  create_user-IsAtomic :
      (name password : String) (admin : Bool)
      → IsAtomic c (Users.create_user influx name password admin c)
  unfolding Users.create_user Users.created_user commit_result Store.influx_result commit Users.user
      Store.update
  create_user-IsAtomic name password admin =
      rw (Users.create_user, known_user-none (Users.user influx name c)) (created _ refl)
    where
      created :
          (r : Option E × MetaData X)
          → influx.create_user name password admin c.cache_data ≡ r
          → IsAtomic c (Users.created_user influx name (commit_result (Store.influx_result r) c))
      created (none, d) made =
          let (u, found) = keeps.user_added name password admin _ d made in
          rw (Users.created_user, commit_result, Store.influx_result, Users.user, commit, found)
            (inr ((u, refl), refl))
      created (some e, d) made = inl (refl, refl)

  create_shard_group-IsAtomic :
      (db name : String) (t : ℕ) → IsAtomic c (Groups.create_shard_group influx db name t c)
  unfolding Groups.create_shard_group
  create_shard_group-IsAtomic db name t =
      elim (Option-cases (influx.shard_group_by_timestamp db name t c.cache_data)) [
        | inl new ↦ rw (Groups.create_shard_group, new) (commit_result-IsAtomic c _)
        | inr (g, there) ↦ rw (Groups.create_shard_group, there) (inl (refl, refl))
      ]

  authenticate-IsAtomic :
      (name password salt : String) → IsAtomic c (Users.authenticate influx name password salt c)
  unfolding Users.authenticate Users.user Users.remember
  authenticate-IsAtomic name password salt =
      elim (Option-cases (find_user name (influx.users c.cache_data.rest))) [
        | inl nobody ↦ rw (Users.authenticate, Users.user, nobody) (inl (refl, refl))
        | inr (u, known) ↦
            rw (Users.authenticate, Users.user, known)
              (elim (Bool-cases
                (Users.hits_cache influx password (Users.cached name c.auth_cache))) [
                  | inl hit ↦ rw hit (inl (refl, refl))
                  | inr miss ↦ rw miss (elim (Bool-cases (influx.same_password u.hash password)) [
                    | inl right ↦ rw right (inl (refl, refl))
                    | inr wrong ↦ rw wrong (inl (refl, refl))
                  ])
                ])
      ]

  precreate-IsAtomic : (from to : ℕ) → IsAtomic c (Groups.precreate_shard_groups influx from to c)
  unfolding Groups.precreate_shard_groups Groups.finish_precreate commit
  precreate-IsAtomic from to = finished _
    where
      finished :
          (clone : MetaData X × Bool × Bool) → IsAtomic c (Groups.finish_precreate influx clone c)
      finished (d, changed, true) = inl (refl, refl)
      finished (d, true, false) = inr ((tt, refl), refl)
      finished (d, false, false) = inl (refl, refl)

module _ {X E DB P : Type 0} (influx : Influxdb X E DB P) (keeps : Keeps influx) (clock : ℕ → ℕ)
    (salt : String) where
  -- A command that fails or panics leaves the metadata as they were and signals nothing; one that
  -- succeeds has either changed nothing, or signals its change once. Influxdb's packages are taken
  -- to find a user that was created, and to keep the nodes that they sort.
  pub execute-IsAtomic :
      (cmd : Command) (c : Client X) → IsAtomic c (execute influx clock salt cmd c)
  unfolding execute Updates.drop_database Updates.drop_retention_policy
      Updates.update_retention_policy Updates.set_privilege Updates.set_admin_privilege
      Updates.create_continuous_query Updates.drop_continuous_query Updates.create_subscription
      Updates.drop_subscription returns_done Groups.drop_shard Groups.truncate_shard_groups
      Store.add_shard_owner Store.remove_shard_owner Users.update_user Users.drop_user
      Store.delete_data_node Store.delete_shard_group Store.freeze_data_node
      Store.unfreeze_data_node Groups.prune_shard_groups commit
  execute-IsAtomic (create_database name) c =
      returns-IsAtomic c _ _ (create_database-IsAtomic influx keeps c name)
  execute-IsAtomic (drop_database a) c = returns-IsAtomic c _ _ (update-IsAtomic influx keeps c _)
  execute-IsAtomic (drop_retention_policy a b) c =
      returns-IsAtomic c _ _ (update-IsAtomic influx keeps c _)
  execute-IsAtomic (create_shard_group a b t) c =
      returns-IsAtomic c _ _ (create_shard_group-IsAtomic influx keeps c a b _)
  execute-IsAtomic (create_data_node a b) c =
      returns-IsAtomic c _ _ (create_data_node-IsAtomic influx keeps c a b)
  execute-IsAtomic (delete_data_node a) c = returns-IsAtomic c _ _ (commit_result-IsAtomic c _)
  execute-IsAtomic (create_retention_policy a rps b) c =
      returns-IsAtomic c _ _ (create_retention_policy-IsAtomic influx keeps c a _ b)
  execute-IsAtomic (update_retention_policy a b rps m) c =
      returns-IsAtomic c _ _ (update-IsAtomic influx keeps c _)
  execute-IsAtomic (create_database_with_retention_policy a rps) c =
      returns-IsAtomic c _ _ (create_with_policy-IsAtomic influx keeps c a _)
  execute-IsAtomic (create_user a b m) c =
      returns-IsAtomic c _ _ (create_user-IsAtomic influx keeps c a b m)
  execute-IsAtomic (drop_user a) c =
      returns-IsAtomic c _ _ (forget_result-IsAtomic c a _ (update-IsAtomic influx keeps c _))
  execute-IsAtomic (update_user a b) c =
      returns-IsAtomic c _ _ (forget_result-IsAtomic c a _ (update-IsAtomic influx keeps c _))
  execute-IsAtomic (set_privilege a b p) c =
      returns-IsAtomic c _ _ (update-IsAtomic influx keeps c _)
  execute-IsAtomic (set_admin_privilege a b) c =
      returns-IsAtomic c _ _ (update-IsAtomic influx keeps c _)
  execute-IsAtomic (authenticate a b) c =
      returns-IsAtomic c _ _ (authenticate-IsAtomic influx keeps c a b salt)
  execute-IsAtomic (add_shard_owner a b) c = inr ((_, refl), refl)
  execute-IsAtomic (remove_shard_owner a b) c = inr ((_, refl), refl)
  execute-IsAtomic (drop_shard a) c = inr ((_, refl), refl)
  execute-IsAtomic (truncate_shard_groups a) c = inr ((_, refl), refl)
  execute-IsAtomic (prune_shard_groups t) c = pruned-IsAtomic c _
  execute-IsAtomic (delete_shard_group a b id t) c =
      returns-IsAtomic c _ _ (commit_result-IsAtomic c _)
  execute-IsAtomic (precreate_shard_groups a b) c =
      returns-IsAtomic c _ _ (precreate-IsAtomic influx keeps c a b)
  execute-IsAtomic (create_continuous_query a b q) c =
      returns-IsAtomic c _ _ (update-IsAtomic influx keeps c _)
  execute-IsAtomic (drop_continuous_query a b) c =
      returns-IsAtomic c _ _ (update-IsAtomic influx keeps c _)
  execute-IsAtomic (create_subscription a b n m ds) c =
      returns-IsAtomic c _ _ (update-IsAtomic influx keeps c _)
  execute-IsAtomic (drop_subscription a b n) c =
      returns-IsAtomic c _ _ (update-IsAtomic influx keeps c _)
  execute-IsAtomic (freeze_data_node id true) c =
      returns-IsAtomic c _ _ (commit_result-IsAtomic c _)
  execute-IsAtomic (freeze_data_node id false) c =
      returns-IsAtomic c _ _ (commit_result-IsAtomic c _)
