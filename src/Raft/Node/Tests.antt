-- ===== src/Raft/Node/Tests.antt =====
-- A short log, two nodes that apply it, and instances of the theorems on nodes.
use mathlib.Core.List.Permᴰ
use mathlib.Core.Path.{subst}
use chronus.Base.{
  ℕ, ◌≡◌, refl, sym, ap, arith, eq_iff, true, false, List, [], ◌∷◌, Option, none, some, String, ok,
  ◌==◌, if◌then◌else◌, length, All,
}
use chronus.Meta.Store.{
  Client, MetaData, Error, UserInfo, replace_data, commit, commit_result, influx_result, value_of,
  auto_create,
}
use chronus.Meta.Store
use chronus.Meta.Store.Users.{find_user}
use chronus.Meta.Store.Tests.{
  packages, meta_data, client, Bytes, to_peers, of_peers, encodings, encodings-GivesBack,
}
use chronus.Meta.Store.Encoding.{
  marshal_binary, marshal, unmarshal_binary, unmarshal, embedded, with_embedded,
}
use chronus.Raft.Apply.{
  Command, Result, create_database, create_data_node, database, returns, execute,
}
use chronus.Raft.Apply.Atomic.{IsAtomic, Keeps, execute-IsAtomic}
use chronus.Raft.Apply.Timed.{effect, blank}
use chronus.Raft.Apply.Machine.{client_store, handed}
use chronus.Raft.Node.{
  MetaStore, Codec, Entry, Message, command, snapshot, create_checksum, verify_checksum, proposal,
  RaftNode, result, pctx, set_index, delete_key, wants, done, done_at, set_applied_index,
  store_proposal, crash,
}
use chronus.Raft.Node.Entries.{
  Event, deliver, propose, reboot, restart, start_from, restore, past_life, run, handle_or_not,
  handle, process_entry, apply_payload, apply_committed, apply_message, hand_over, finish, verify,
  take_snapshot, restore_decoded,
}
use chronus.Raft.Node.Log.{replay, payload_effect, IsReplica, Happens, runs}
use chronus.Raft.Node.Replicated.{run-IsReplica, replicas_agree}
use chronus.Raft.Node.Answered.{process_entry-answers}

packages-Keeps : Keeps packages
unfolding find_user
packages-Keeps = record {
  user_added = λ name hashed admin d d' made.
      let u : UserInfo = record { name = name; hash = hashed; admin = admin } in
      (
        u,
        subst (λ (x : MetaData (List UserInfo)). find_user name x.rest ≡ some u)
            (ap (λ r. r.1) made) (ground (arith, eq_iff name name)),
      );
  nodes_kept = Permᴰ.refl;
}

execute-IsAtomic_example :
    IsAtomic
      (client (meta_data [] []))
      (execute packages (λ _. 5) "salt" (create_data_node "h1" "t9") (client (meta_data [] [])))
execute-IsAtomic_example =
    execute-IsAtomic packages packages-Keeps (λ _. 5) "salt" (create_data_node "h1" "t9")
      (client (meta_data [] []))

abbrev Node : Type 0
Node = RaftNode Bytes (Client (List UserInfo)) (Error String) (Result String String)

abbrev start : MetaData (List UserInfo)
start = meta_data [] []

abbrev nodes_store :
    MetaStore Command
      (MetaData (List UserInfo))
      Bytes
      (Client (List UserInfo))
      (Error String)
      (Result String String)
nodes_store = client_store packages true encodings encodings-GivesBack start

abbrev bytes_or : Bytes → Option Bytes → Bytes
bytes_or b none = b
bytes_or b (some b') = b'

-- The digests of two orders of maps differ.
abbrev codec : Codec (MetaData (List UserInfo)) Bytes
codec = record {
  encode = λ sp. some (to_peers sp);
  decode = of_peers;
  decode-encode = λ sp b encodes. ap (λ o. of_peers (bytes_or b o)) (sym encodes);
  digest = λ order d. if length d.own.databases == 1 then order else "other";
}

abbrev log : List (Entry Command)
log =
    record { index = 1; payload = proposal "k1" (command (create_database "db0")) }
    ∷ record { index = 2; payload = proposal "k2" create_checksum }
    ∷ record { index = 3; payload = proposal "k3" (verify_checksum 2 "s" 9) }
    ∷ record { index = 4; payload = proposal "k4" snapshot }
    ∷ []

abbrev entry : ℕ → Message Command → Entry Command
entry i m = record {
  index = i;
  payload =
      proposal (if i == 1 then "k1" else if i == 2 then "k2" else if i == 3 then "k3" else "k4") m;
}

abbrev fresh : ℕ → Node
fresh id = record {
  id = id;
  applied_index = 0;
  store = client start;
  leases = record { m = []; d = 1000000000 };
  last_checksum = record { need_verify = false; index = 0; checksum = "" };
  props = [];
  answers = [];
  peers = [];
  saved = none;
  crashed = none;
}

abbrev proposed : Node
proposed = record (fresh 1) { props = ("k1", record { ret_data = true; index = 0 }) ∷ [] }

process_entry-answers_example :
    (process_entry nodes_store codec
      (λ _. 5)
      "salt"
      (entry 1 (command (create_database "db0")))
      proposed).answers
    ≡ ("k1", ok (result (database (some "db0")))) ∷ []
unfolding client_store pctx hand_over execute returns Store.create_database commit_result
    influx_result value_of auto_create handed commit
process_entry-answers_example =
    (process_entry-answers nodes_store codec (λ _. 5) "salt" "k1" (create_database "db0")
      (record { ret_data = true; index = 0 }) proposed refl refl (λ h. cc (h))).0

fresh-IsReplica : (id : ℕ) → IsReplica nodes_store codec log start (fresh id)
unfolding client_store replay
fresh-IsReplica id = runs (record { set = refl; replayed = refl; saved = tt; running = refl })

-- Node 1 has proposed the first entry, which it is given twice. Node 2 makes a snapshot, and is started
-- again from it; it would verify the checksum of another order of maps, and is past that entry.
abbrev events : List (Event Command Bytes (Client (List UserInfo)))
events =
    propose "k1" true
    ∷ deliver (entry 1 (command (create_database "db0"))) (λ _. 5) "s"
    ∷ deliver (entry 2 create_checksum) (λ _. 5) "s"
    ∷ deliver (entry 1 (command (create_database "db0"))) (λ _. 5) "s"
    ∷ deliver (entry 3 (verify_checksum 2 "s" 9)) (λ _. 5) "s"
    ∷ deliver (entry 4 snapshot) (λ _. 5) "s"
    ∷ []

abbrev other_events : List (Event Command Bytes (Client (List UserInfo)))
other_events =
    deliver (entry 1 (command (create_database "db0"))) (λ _. 7) "s"
    ∷ deliver (entry 2 create_checksum) (λ _. 9) "s"
    ∷ deliver (entry 3 (verify_checksum 2 "s" 9)) (λ _. 9) "s"
    ∷ deliver (entry 4 snapshot) (λ _. 9) "t"
    ∷ reboot (client start) (record { m = []; d = 1 }) []
    ∷ deliver (entry 3 (verify_checksum 2 "s" 9)) (λ _. 9) "t"
    ∷ []

events_happen : All (Happens nodes_store codec log start) events
unfolding client_store replay payload_effect effect execute returns Store.create_database
    commit_result influx_result value_of auto_create commit blank
events_happen = (
  tt,
  (
    (0, refl, refl, tt),
    ((1, refl, refl, tt), ((0, refl, refl, tt), ((2, refl, refl, tt), ((3, refl, refl, tt), tt)))),
  ),
)

other_events_happen : All (Happens nodes_store codec log start) other_events
unfolding client_store replay payload_effect effect execute returns Store.create_database
    commit_result influx_result value_of auto_create commit blank
other_events_happen = (
  (0, refl, refl, tt),
  (
    (1, refl, refl, tt),
    ((2, refl, refl, tt), ((3, refl, refl, tt), ((refl, refl), ((2, refl, refl, tt), tt)))),
  ),
)

run-IsReplica_example :
    IsReplica nodes_store codec log start (run nodes_store codec events (fresh 1))
run-IsReplica_example =
    run-IsReplica nodes_store codec log start events (fresh 1) events_happen (fresh-IsReplica 1)

replicas_agree_example :
    (run nodes_store codec events (fresh 1)).store.cache_data
    ≡ (run nodes_store codec other_events (fresh 2)).store.cache_data
unfolding client_store replay payload_effect effect execute returns Store.create_database
    commit_result influx_result value_of auto_create commit blank run handle_or_not handle
    process_entry apply_payload apply_committed apply_message hand_over finish verify take_snapshot
    start_from restart restore restore_decoded past_life pctx set_index delete_key wants done
    done_at set_applied_index store_proposal crash handed marshal_binary marshal unmarshal_binary
    unmarshal embedded with_embedded
replicas_agree_example =
    replicas_agree nodes_store codec log start events other_events (fresh 1) (fresh 2) events_happen
      other_events_happen (fresh-IsReplica 1) (fresh-IsReplica 2) refl refl refl
