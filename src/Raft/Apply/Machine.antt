-- ===== src/Raft/Apply/Machine.antt =====
-- The store of a node is a Client of services/meta/store.go, with applyCommitted's commands.
use chronus.Base.{ℕ, ◌≡◌, refl, ap, ◌∙◌, Bool, Option, none, some, String, Outcome, ok, err, panic}
use chronus.Meta.Store.{Client, MetaData, Error, Influxdb, no_data_nodes, replace_data}
use chronus.Meta.Store.Encoding.{
  Encodings, GivesBack, marshal_binary, unmarshal_binary, unmarshal_binary-marshal_binary,
}
use chronus.Raft.Apply.{Command, Result, done, database, group, node, policy, user, execute}
use chronus.Raft.Apply.Timed.{IsTimed, effect, execute-Agrees}
use chronus.Raft.Node.{MetaStore}

-- What applyCommitted copies for the proposer: a nil database fails an assertion, a nil group is an
-- error.
unfoldable pub handed : {E DB P : Type 0} → Result DB P → Outcome (Error E) (Option (Result DB P))
handed done = ok none
handed (database none) = panic
handed (database (some db)) = ok (some (database (some db)))
handed (group none) = err no_data_nodes
handed (group (some g)) = ok (some (group (some g)))
handed (node n) = ok (some (node n))
handed (policy p) = ok (some (policy p))
handed (user u) = ok (some (user u))

module _ {X E DB P : Type 0} (influx : Influxdb X E DB P) (auto : Bool) where
  pub execute-effect :
      (clock : ℕ → ℕ) (salt : String) (c : Command) (s : Client X)
      → IsTimed c
      → s.retention_auto_create ≡ auto
      → (execute influx clock salt c s).1.cache_data ≡ effect influx auto c s.cache_data
  unfolding effect
  execute-effect clock salt c s timed set =
      (execute-Agrees influx clock salt c s timed).0 ∙ ap (λ b. effect influx b c s.cache_data) set

  -- A MetaStore whose nodes are configured alike; the encodings of the metadata give back what they
  -- encode, and `new_data` is `&Data{}`.
  unfoldable pub client_store :
      {B : Type 0} (encodings : Encodings X B)
      → GivesBack encodings
      → MetaData X
      → MetaStore Command (MetaData X) B (Client X) (Error E) (Result DB P)
  unfolding replace_data
  client_store encodings laws new_data = record {
    execute = execute influx;
    get_data = λ c. c.cache_data;
    replace_data = replace_data;
    marshal_binary = λ order c. marshal_binary encodings order c.cache_data;
    unmarshal_binary = λ b. unmarshal_binary encodings b new_data;
    handed = handed;
    effect = effect influx auto;
    Timed = IsTimed;
    IsConfigured = λ c. c.retention_auto_create ≡ auto;
    execute-effect = execute-effect;
    execute-IsConfigured =
        λ clock salt c s timed set. (execute-Agrees influx clock salt c s timed).1 ∙ set;
    get_data-replace_data = λ d s. refl;
    unmarshal-marshal = λ order s b encodes.
        unmarshal_binary-marshal_binary encodings order s.cache_data new_data b laws encodes;
    replace_data-IsConfigured = λ d s set. set;
  }
