-- ===== src/Meta/Store/Updates.antt =====
-- services/meta/store.go: the methods of Client that run a method of influxdb's on a clone and
-- commit it.
use chronus.Base.{ℕ, Bool, List, String, Outcome}
use chronus.Meta.Store.{Client, Error, Influxdb, RetentionPolicyUpdate, update}

module _ {X E DB P : Type 0} (influx : Influxdb X E DB P) where
  unfoldable pub drop_database : String → Client X → Outcome (Error E) (Unit {0}) × Client X
  drop_database name c = update (influx.drop_database name) c

  unfoldable pub drop_retention_policy :
      String → String → Client X → Outcome (Error E) (Unit {0}) × Client X
  drop_retention_policy database name c = update (influx.drop_retention_policy database name) c

  unfoldable pub update_retention_policy :
      String
      → String
      → RetentionPolicyUpdate
      → Bool
      → Client X
      → Outcome (Error E) (Unit {0}) × Client X
  update_retention_policy database name rpu make_default c =
      update (influx.update_retention_policy database name rpu make_default) c

  unfoldable pub set_privilege :
      String → String → ℕ → Client X → Outcome (Error E) (Unit {0}) × Client X
  set_privilege username database p c = update (influx.set_privilege username database p) c

  unfoldable pub set_admin_privilege :
      String → Bool → Client X → Outcome (Error E) (Unit {0}) × Client X
  set_admin_privilege username admin c = update (influx.set_admin_privilege username admin) c

  unfoldable pub create_continuous_query :
      String → String → String → Client X → Outcome (Error E) (Unit {0}) × Client X
  create_continuous_query database name query c =
      update (influx.create_continuous_query database name query) c

  unfoldable pub drop_continuous_query :
      String → String → Client X → Outcome (Error E) (Unit {0}) × Client X
  drop_continuous_query database name c = update (influx.drop_continuous_query database name) c

  unfoldable pub create_subscription :
      String
      → String
      → String
      → String
      → List String
      → Client X
      → Outcome (Error E) (Unit {0}) × Client X
  create_subscription database rp name mode destinations c =
      update (influx.create_subscription database rp name mode destinations) c

  unfoldable pub drop_subscription :
      String → String → String → Client X → Outcome (Error E) (Unit {0}) × Client X
  drop_subscription database rp name c = update (influx.drop_subscription database rp name) c
