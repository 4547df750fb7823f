-- ===== src/Raft/Apply/Timed.antt =====
-- What a command does to the metadata depends on nothing but the metadata, where the request has
-- the times.
use chronus.Base.{
  ℕ, arith, incr64, ◌≡◌, ◌≢◌, refl, ap, sym, ◌∙◌, Bool, true, false, List, [], some, String,
  Outcome, ok, err, panic, ◌==◌, Bool-cases, Option-cases, inl, inr,
}
use chronus.Meta.Types.{Data, DatabaseInfo, Error as DataError}
use chronus.Meta.Nodes
use chronus.Meta.Store.{
  Client, MetaData, Error, Influxdb, UserInfo, commit, commit_result, update, node_by_tcp_host,
}
use chronus.Meta.Store.Users.{find_user, forget_result, created_user, known_user-none}
use chronus.Meta.Store
use chronus.Meta.Store.Users
use chronus.Meta.Store.Updates
use chronus.Meta.Store.Groups
use chronus.Raft.Apply.{
  Command, Result, returns, returns_done, execute, time_or, eviction, create_database,
  drop_database, drop_retention_policy, create_shard_group, create_data_node, delete_data_node,
  create_retention_policy, update_retention_policy, create_database_with_retention_policy,
  create_user, drop_user, update_user, set_privilege, set_admin_privilege, authenticate,
  add_shard_owner, remove_shard_owner, drop_shard, truncate_shard_groups, prune_shard_groups,
  delete_shard_group, precreate_shard_groups, create_continuous_query, drop_continuous_query,
  create_subscription, drop_subscription, freeze_data_node,
}

-- The command carries the times that it needs, so that no node takes its own clock.
abbrev pub IsTimed : Command → Type 0
IsTimed (delete_data_node id) = ⊥
IsTimed (prune_shard_groups t) = t ≢ 0
IsTimed (delete_shard_group db name id t) = t ≢ 0
IsTimed (create_database a) = Unit
IsTimed (drop_database a) = Unit
IsTimed (drop_retention_policy a b) = Unit
IsTimed (create_shard_group a b t) = Unit
IsTimed (create_data_node a b) = Unit
IsTimed (create_retention_policy a rps b) = Unit
IsTimed (update_retention_policy a b rps m) = Unit
IsTimed (create_database_with_retention_policy a rps) = Unit
IsTimed (create_user a b m) = Unit
IsTimed (drop_user a) = Unit
IsTimed (update_user a b) = Unit
IsTimed (set_privilege a b p) = Unit
IsTimed (set_admin_privilege a b) = Unit
IsTimed (authenticate a b) = Unit
IsTimed (add_shard_owner a b) = Unit
IsTimed (remove_shard_owner a b) = Unit
IsTimed (drop_shard a) = Unit
IsTimed (truncate_shard_groups a) = Unit
IsTimed (precreate_shard_groups a b) = Unit
IsTimed (create_continuous_query a b q) = Unit
IsTimed (drop_continuous_query a b) = Unit
IsTimed (create_subscription a b n m ds) = Unit
IsTimed (drop_subscription a b n) = Unit
IsTimed (freeze_data_node id b) = Unit

-- A client with the metadata and the setting, and else as new.
unfoldable pub blank : {X : Type 0} → MetaData X → Bool → Client X
blank d auto = record { cache_data = d; auth_cache = []; changes = 0; retention_auto_create = auto }

-- What the command makes of the metadata of a client that has nothing else.
unfoldable pub effect :
    {X E DB P : Type 0} → Influxdb X E DB P → Bool → Command → MetaData X → MetaData X
effect influx auto cmd d = (execute influx (λ _. 0) "" cmd (blank d auto)).1.cache_data

-- One metadata, and the setting of the client.
abbrev pub Agrees : {X A B : Type 0} → Client X → A × Client X → B × Client X → Type 0
Agrees c x y =
    (x.1.cache_data ≡ y.1.cache_data) × (x.1.retention_auto_create ≡ c.retention_auto_create)

module _ {X : Type 0} where
  commit_pruned-Agrees :
      (c b : Client X) (r : List DatabaseInfo × Bool)
      → c.cache_data ≡ b.cache_data
      → Agrees {A = Unit {0}} {B = Unit {0}} c
          (tt, Groups.commit_pruned r c)
          (tt, Groups.commit_pruned r b)
  unfolding Groups.commit_pruned commit
  commit_pruned-Agrees c b (dbs, true) same = (
    ap
        (λ (d : MetaData X). record d {
          own = record d.own { databases = dbs; index = incr64 d.own.index };
        })
        same,
    refl,
  )
  commit_pruned-Agrees c b (dbs, false) same = (same, refl)

module _ {X E : Type 0} where
  commit_result-Agrees :
      {A : Type 0} (c b : Client X) (r : Outcome (Error E) A × MetaData X)
      → c.cache_data ≡ b.cache_data
      → Agrees c (commit_result r c) (commit_result r b)
  unfolding commit_result commit
  commit_result-Agrees c b (ok a, d) same = (refl, refl)
  commit_result-Agrees c b (err e, d) same = (same, refl)
  commit_result-Agrees c b (panic, d) same = (same, refl)

  returns-client :
      {A DB P : Type 0} (f : A → Result DB P) (r : Outcome (Error E) A × Client X)
      → (returns f r).1 ≡ r.1
  unfolding returns
  returns-client f (ok a, c) = refl
  returns-client f (err e, c) = refl
  returns-client f (panic, c) = refl

  returns-Agrees :
      {A DB P : Type 0} (c : Client X) (f : A → Result DB P) (r q : Outcome (Error E) A × Client X)
      → Agrees c r q
      → Agrees c (returns f r) (returns f q)
  returns-Agrees c f r q h = rw (returns-client f r, returns-client f q) h

  forget_result-Agrees :
      (c : Client X) (name : String) (r q : Outcome (Error E) (Unit {0}) × Client X)
      → Agrees c r q
      → Agrees c (forget_result name r) (forget_result name q)
  unfolding forget_result
  forget_result-Agrees c name r q h = (kept r ∙ h.0 ∙ sym (kept q), same_setting r ∙ h.1)
    where
      kept :
          (r : Outcome (Error E) (Unit {0}) × Client X)
          → (forget_result name r).1.cache_data ≡ r.1.cache_data
      kept (ok a, c') = refl
      kept (err e, c') = refl
      kept (panic, c') = refl

      same_setting :
          (r : Outcome (Error E) (Unit {0}) × Client X)
          → (forget_result name r).1.retention_auto_create ≡ r.1.retention_auto_create
      same_setting (ok a, c') = refl
      same_setting (err e, c') = refl
      same_setting (panic, c') = refl

module _ {X E DB P : Type 0} (influx : Influxdb X E DB P) (c : Client X) where
  abbrev copy : Client X
  copy = blank c.cache_data c.retention_auto_create

  create_database-Agrees :
      (name : String)
      → Agrees c (Store.create_database influx name c) (Store.create_database influx name copy)
  unfolding Store.create_database blank
  create_database-Agrees name = elim (Option-cases (influx.database name c.cache_data)) [
    | inl new ↦ rw (Store.create_database, new) (commit_result-Agrees c copy _ refl)
    | inr (db, there) ↦ rw (Store.create_database, there) (refl, refl)
  ]

  create_with_policy-Agrees :
      (name : String) (spec : Store.RetentionPolicySpec)
      → Agrees c
          (Store.create_database_with_retention_policy influx name (some spec) c)
          (Store.create_database_with_retention_policy influx name (some spec) copy)
  unfolding Store.create_database_with_retention_policy blank
  create_with_policy-Agrees name spec =
      elim (Bool-cases (Store.too_low influx.min_retention_policy_duration spec.duration)) [
        | inl low ↦ rw low (refl, refl)
        | inr fits ↦ rw fits (commit_result-Agrees c copy _ refl)
      ]

  create_retention_policy-Agrees :
      (name : String) (spec : Store.RetentionPolicySpec) (make_default : Bool)
      → Agrees c
          (Store.create_retention_policy influx name spec make_default c)
          (Store.create_retention_policy influx name spec make_default copy)
  unfolding Store.create_retention_policy blank
  create_retention_policy-Agrees name spec make_default =
      elim (Bool-cases (Store.too_low influx.min_retention_policy_duration spec.duration)) [
        | inl low ↦ rw low (refl, refl)
        | inr fits ↦ rw fits (commit_result-Agrees c copy _ refl)
      ]

  create_shard_group-Agrees :
      (db name : String) (t : ℕ)
      → Agrees c
          (Groups.create_shard_group influx db name t c)
          (Groups.create_shard_group influx db name t copy)
  unfolding Groups.create_shard_group blank
  create_shard_group-Agrees db name t =
      elim (Option-cases (influx.shard_group_by_timestamp db name t c.cache_data)) [
        | inl new ↦ rw (Groups.create_shard_group, new) (commit_result-Agrees c copy _ refl)
        | inr (g, there) ↦ rw (Groups.create_shard_group, there) (refl, refl)
      ]

  create_data_node-Agrees :
      (http tcp : String)
      → Agrees c
          (Store.create_data_node influx http tcp c)
          (Store.create_data_node influx http tcp copy)
  unfolding Store.create_data_node Store.node_created Store.with_own commit blank
  create_data_node-Agrees http tcp =
      node_created-Agrees (Nodes.create_data_node influx.sort_nodes http tcp c.cache_data.own)
    where
      node_created-Agrees :
          (r : Outcome DataError ℕ × Data)
          → Agrees c (Store.node_created {E = E} tcp r c) (Store.node_created {E = E} tcp r copy)
      node_created-Agrees (err e, d) = (refl, refl)
      node_created-Agrees (panic, d) = (refl, refl)
      node_created-Agrees (ok id, d) = elim (Option-cases (node_by_tcp_host tcp d.data_nodes)) [
        | inl new ↦ rw (Store.node_created, new) (refl, refl)
        | inr (n, there) ↦ rw (Store.node_created, there) (refl, refl)
      ]

  create_user-Agrees :
      (name password : String) (admin : Bool)
      → Agrees c
          (Users.create_user influx name password admin c)
          (Users.create_user influx name password admin copy)
  unfolding Users.create_user created_user blank update Users.user
  create_user-Agrees name password admin =
      rw (Users.create_user, known_user-none (Users.user influx name c))
        (created-Agrees _ _ (commit_result-Agrees c copy _ refl))
    where
      kept : (r : Outcome (Error E) (Unit {0}) × Client X) → (created_user influx name r).1 ≡ r.1
      kept (ok a, c') = refl
      kept (err e, c') = refl
      kept (panic, c') = refl

      created-Agrees :
          (r q : Outcome (Error E) (Unit {0}) × Client X)
          → Agrees c r q
          → Agrees c (created_user influx name r) (created_user influx name q)
      created-Agrees r q h = rw (kept r, kept q) h

  authenticate-Agrees :
      (name password salt : String)
      → Agrees c
          (Users.authenticate influx name password salt c)
          (Users.authenticate influx name password "" copy)
  unfolding Users.authenticate Users.user Users.cached Users.hits_cache blank Users.remember
  authenticate-Agrees name password salt =
      elim (Option-cases (find_user name (influx.users c.cache_data.rest))) [
        | inl nobody ↦ rw (Users.authenticate, Users.user, nobody) (refl, refl)
        | inr (u, known) ↦
            rw (Users.authenticate, Users.user, known)
              (elim (Bool-cases
                (Users.hits_cache influx password (Users.cached name c.auth_cache))) [
                  | inl hit ↦ rw hit (elim (Bool-cases (influx.same_password u.hash password)) [
                    | inl right ↦ rw right (refl, refl)
                    | inr wrong ↦ rw wrong (refl, refl)
                  ])
                  | inr miss ↦ rw miss (elim (Bool-cases (influx.same_password u.hash password)) [
                    | inl right ↦ rw right (refl, refl)
                    | inr wrong ↦ rw wrong (refl, refl)
                  ])
                ])
      ]

  finish_precreate-Agrees :
      (r : MetaData X × Bool × Bool)
      → Agrees c (Groups.finish_precreate influx r c) (Groups.finish_precreate influx r copy)
  unfolding Groups.finish_precreate commit blank
  finish_precreate-Agrees (d, changed, true) = (refl, refl)
  finish_precreate-Agrees (d, true, false) = (refl, refl)
  finish_precreate-Agrees (d, false, false) = (refl, refl)

time_or_given : (t fallback : ℕ) → t ≢ 0 → time_or t fallback ≡ t
unfolding time_or
time_or_given t fallback given = elim (Bool-cases (t == 0)) [
  | inl zero ↦ absurd (given (ground (arith, zero)))
  | inr there ↦ rw there refl
]

module _ {X E DB P : Type 0} (influx : Influxdb X E DB P) (clock : ℕ → ℕ) (salt : String) where
  -- Where a request carries its times, what a command makes of the metadata is a function of the
  -- metadata and of the setting retention_auto_create: neither the clock, the salt nor the cache of
  -- passwords matter.
  pub execute-Agrees :
      (cmd : Command) (c : Client X)
      → IsTimed cmd
      → Agrees c
          (execute influx clock salt cmd c)
          (execute influx (λ _. 0) "" cmd (blank c.cache_data c.retention_auto_create))
  unfolding execute Updates.drop_database Updates.drop_retention_policy
      Updates.update_retention_policy Updates.set_privilege Updates.set_admin_privilege
      Updates.create_continuous_query Updates.drop_continuous_query Updates.create_subscription
      Updates.drop_subscription returns_done Groups.drop_shard Groups.truncate_shard_groups
      Groups.prune_shard_groups Groups.precreate_shard_groups Store.add_shard_owner
      Store.remove_shard_owner Users.update_user Users.drop_user Store.delete_data_node
      Store.delete_shard_group Store.freeze_data_node Store.unfreeze_data_node update commit blank
  execute-Agrees (create_database a) c timed =
      returns-Agrees c _ _ _ (create_database-Agrees influx c a)
  execute-Agrees (drop_database a) c timed =
      returns-Agrees c _ _ _ (commit_result-Agrees c _ _ refl)
  execute-Agrees (drop_retention_policy a b) c timed =
      returns-Agrees c _ _ _ (commit_result-Agrees c _ _ refl)
  execute-Agrees (create_shard_group a b t) c timed =
      returns-Agrees c _ _ _ (create_shard_group-Agrees influx c a b _)
  execute-Agrees (create_data_node a b) c timed =
      returns-Agrees c _ _ _ (create_data_node-Agrees influx c a b)
  execute-Agrees (delete_data_node a) c timed = absurd timed
  execute-Agrees (create_retention_policy a rps b) c timed =
      returns-Agrees c _ _ _ (create_retention_policy-Agrees influx c a _ b)
  execute-Agrees (update_retention_policy a b rps m) c timed =
      returns-Agrees c _ _ _ (commit_result-Agrees c _ _ refl)
  execute-Agrees (create_database_with_retention_policy a rps) c timed =
      returns-Agrees c _ _ _ (create_with_policy-Agrees influx c a _)
  execute-Agrees (create_user a b m) c timed =
      returns-Agrees c _ _ _ (create_user-Agrees influx c a b m)
  execute-Agrees (drop_user a) c timed =
      returns-Agrees c _ _ _ (forget_result-Agrees c a _ _ (commit_result-Agrees c _ _ refl))
  execute-Agrees (update_user a b) c timed =
      returns-Agrees c _ _ _ (forget_result-Agrees c a _ _ (commit_result-Agrees c _ _ refl))
  execute-Agrees (set_privilege a b p) c timed =
      returns-Agrees c _ _ _ (commit_result-Agrees c _ _ refl)
  execute-Agrees (set_admin_privilege a b) c timed =
      returns-Agrees c _ _ _ (commit_result-Agrees c _ _ refl)
  execute-Agrees (authenticate a b) c timed =
      returns-Agrees c _ _ _ (authenticate-Agrees influx c a b salt)
  execute-Agrees (add_shard_owner a b) c timed = (refl, refl)
  execute-Agrees (remove_shard_owner a b) c timed = (refl, refl)
  execute-Agrees (drop_shard a) c timed = (refl, refl)
  execute-Agrees (truncate_shard_groups a) c timed = (refl, refl)
  execute-Agrees (prune_shard_groups t) c timed =
      rw (time_or_given t (eviction (clock 0)) timed, time_or_given t (eviction 0) timed)
        (commit_pruned-Agrees c _ _ refl)
  execute-Agrees (delete_shard_group a b id t) c timed =
      rw (time_or_given t (clock 0) timed, time_or_given t 0 timed)
        (returns-Agrees c _ _ _ (commit_result-Agrees c _ _ refl))
  execute-Agrees (precreate_shard_groups a b) c timed =
      returns-Agrees c _ _ _ (finish_precreate-Agrees influx c _)
  execute-Agrees (create_continuous_query a b q) c timed =
      returns-Agrees c _ _ _ (commit_result-Agrees c _ _ refl)
  execute-Agrees (drop_continuous_query a b) c timed =
      returns-Agrees c _ _ _ (commit_result-Agrees c _ _ refl)
  execute-Agrees (create_subscription a b n m ds) c timed =
      returns-Agrees c _ _ _ (commit_result-Agrees c _ _ refl)
  execute-Agrees (drop_subscription a b n) c timed =
      returns-Agrees c _ _ _ (commit_result-Agrees c _ _ refl)
  execute-Agrees (freeze_data_node id true) c timed =
      returns-Agrees c _ _ _ (commit_result-Agrees c _ _ refl)
  execute-Agrees (freeze_data_node id false) c timed =
      returns-Agrees c _ _ _ (commit_result-Agrees c _ _ refl)
