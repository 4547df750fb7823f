-- ===== src/Coordinator/Tests.antt =====
-- A query's shards and instances of the theorems on their plan.
mod Insertion
use mathlib.Core.Path.{subst}
use mathlib.Core.List.{append-nil}
use mathlib.Core.List.Permᴰ
use chronus.Base.{
  ℕ, ◌+◌, ◌≡◌, ◌≤◌, ◌<◌, refl, sym, ap, ◌∙◌, ◌/◌, ◌*◌, inl, inr, ◌⊎◌, not, Bool-cases, ltb, Bool,
  true, false, List, [], ◌∷◌, ◌++◌, Option, none, some, String, Outcome, ok, panic, err, arith, All,
  ◌==◌, if◌then◌else◌,
}
use chronus.X.Math.{min_of}
use chronus.X.CyclicBuffer.{
  Run, new_cyclic_buffer, write, write_bytes, forward, dump, dump_loop, dump_round, compare,
  compare_from, read_next,
}
use chronus.Hh.Bytes.{int_ltb}
use chronus.Coordinator.IteratorReader.{
  Reader, new_iterator_reader, read, read_some, answer, shift_buffer, shift_from, put_header,
}
use chronus.Coordinator.IteratorReader.Delivered.{Call, reads, Delivered, reads-Delivered}
use chronus.Meta.Types.{ShardInfo, ShardGroupInfo}
use chronus.Coordinator.Tests.Insertion.{sort, sort-EndsSorted, sort-Permᴰ}
use chronus.Coordinator.Points.{
  Point, Client, PointsError, ShardMapping, oldest, policy_name, map_shards, write_points,
  shard_group_at, outcome_error, await_mapping, await_shards, shard_result, map_with, add_groups,
  add_group, append_group, covers, is_group, starts_by, ends_after, search, search_from, map_points,
  map_to, map_point, add_point, put_shard,
}
use chronus.Coordinator.Points.Search.{find_group, shard_group_at-find_group}
use chronus.Coordinator.Points.Covered.{IsClient, Created, Contains}
use chronus.Coordinator.Points.Mapped.{IsMapping, count, count_all, map_shards-IsMapping}
use chronus.Coordinator.Points.Written.{
  owners_of, shard_ids, length-shard_ids, Stored, write_points-Stored,
}
use chronus.Coordinator.Writes.{
  Answers, quorum, all, required, write_to_shard, write_owner, write_local, write_remote, enqueue,
  can_retry, collect,
}
use chronus.Coordinator.Writes.Levels.{count_stored, write_to_shard_stored}
use chronus.Coordinator.Writes.Outcomes.{verdict, first_failure, write_to_shard_exact}
use chronus.Coordinator.Planning.{
  Plan, get_owners, add_shard, is_selected, selected_owner, choose, plan_remote, plan_shard,
  plan_shards, plan_nodes,
}
use chronus.Coordinator.Planning.Retry.{
  QueryError, retry, Env, execute_plan_with_retry, execute_with_retry,
}
use chronus.Coordinator.Planning.Retry.Ends.{IsEnv, execute_plan_with_retry_ends}
use chronus.Coordinator.Planning.Retry.Complete.{
  Answers as QueryAnswers, Feasible, count_read, execute_with_retry_complete,
}
use chronus.Coordinator.Planning.Placed.{Placed, plan_nodes-Placed}
use chronus.Coordinator.Planning.Counted.{count_planned, count-plan_nodes}

-- Shard 1 is on node 1, shard 2 on nodes 2 and 3, shard 3 on node 2.
abbrev shards : List ShardInfo
shards =
    record { id = 1; owners = 1 ∷ [] }
    ∷ record { id = 2; owners = 2 ∷ 3 ∷ [] }
    ∷ record { id = 3; owners = 2 ∷ [] }
    ∷ []

abbrev keep_order : List ShardInfo → List ShardInfo
keep_order shards = shards

abbrev first : ℕ → ℕ → ℕ
first k n = 0

-- Node 2 is on the blacklist: shard 3 is left out.
abbrev plan : Plan
plan = plan_nodes 1 (2 ∷ []) first keep_order shards

plan_test :
    plan
    ≡ (1, record { id = 1; owners = 1 ∷ [] } ∷ [])
      ∷ (3, record { id = 2; owners = 2 ∷ 3 ∷ [] } ∷ [])
      ∷ []
unfolding plan_nodes plan_shards plan_shard plan_remote choose selected_owner is_selected add_shard
    get_owners
plan_test = refl

plan_nodes-Placed_example : Placed 1 (2 ∷ []) plan
plan_nodes-Placed_example = plan_nodes-Placed 1 (2 ∷ []) first (λ k n h. h) keep_order shards

count-plan_nodes_example : count_planned (λ shard. true) plan ≡ 2
count-plan_nodes_example =
    count-plan_nodes 1 (2 ∷ []) first (λ shard. true) keep_order shards (Permᴰ.refl shards)

-- Node 2 asks for another chance, and any other node answers with the shards.
abbrev is_bad : ℕ → Bool
is_bad node = node == 2

abbrev ask : ℕ → ℕ → List ShardInfo → Outcome (QueryError String) (Option (List ShardInfo))
ask round node shards = if is_bad node then err retry else ok (some shards)

abbrev env : Env (List ShardInfo) String
env = record {
  query = ask;
  shuffle = λ round shards. shards;
  intn = λ round k n. 0;
  walk = λ round plan. plan;
}

env-IsEnv : IsEnv env
env-IsEnv = record {
  random = λ round k n h. h;
  shuffled = λ round shards. Permᴰ.refl shards;
  walked = λ round plan. Permᴰ.refl plan;
}

env-Answers : QueryAnswers env is_bad (λ shards. shards)
env-Answers = record {
  asks = λ round node shards h. rw h refl;
  reads = λ round node shards h. (shards, rw h refl, refl);
}

abbrev at_two : List ShardInfo
at_two = record { id = 2; owners = 2 ∷ 3 ∷ [] } ∷ record { id = 4; owners = 3 ∷ 2 ∷ [] } ∷ []

execute_plan_with_retry_ends_example :
    (r : List (List ShardInfo) × Option String) × (execute_plan_with_retry env 6 2 at_two ≡ some r)
execute_plan_with_retry_ends_example =
    execute_plan_with_retry_ends env 6 2 at_two env-IsEnv (refl, (refl, tt)) (omega arith)

abbrev two_plans : Plan
two_plans = (2, at_two) ∷ (1, record { id = 1; owners = 1 ∷ [] } ∷ []) ∷ []

execute_with_retry_complete_example :
    (results : List (List ShardInfo)) × (execute_with_retry (λ node. env) 6 two_plans
      ≡ some (results, none))
    × ((p : ShardInfo → Bool) → count_read (λ shards. shards) p results ≡ count_planned p two_plans)
execute_with_retry_complete_example =
    execute_with_retry_complete (λ node. env) is_bad (λ shards. shards) 6 two_plans
      (λ node. env-Answers) (λ node. env-IsEnv)
      (
        ((refl, (refl, tt)), (refl, (refl, tt)), omega arith),
        (((refl, tt), (refl, tt), omega arith), tt),
      )

-- Node 1 is here; node 2 answers with an error and takes a hint, and node 3 stores the points.
abbrev answers : ℕ → Answers String
answers owner = record {
  write = none;
  create = none;
  write_again = none;
  remote = if owner == 2 then some "timeout" else none;
  handoff = none;
  is_shard_not_found = λ e. false;
  is_type_conflict = λ e. false;
}

write_quorum : write_to_shard answers 1 quorum (1 ∷ 2 ∷ 3 ∷ []) (2 ∷ 3 ∷ 1 ∷ []) [] ≡ none
unfolding write_to_shard required collect write_owner write_local write_remote enqueue can_retry
write_quorum = refl

write_to_shard_stored_example : required quorum 3 ≤ count_stored answers 1 quorum (1 ∷ 2 ∷ 3 ∷ [])
write_to_shard_stored_example =
    write_to_shard_stored answers 1 quorum (1 ∷ 2 ∷ 3 ∷ []) (2 ∷ 3 ∷ 1 ∷ []) [] []
      (Permᴰ.trans (Permᴰ.cons refl (Permᴰ.swap refl refl)) (Permᴰ.swap refl refl)) write_quorum

write_to_shard_exact_example :
    write_to_shard answers 1 all (1 ∷ 2 ∷ []) (2 ∷ 1 ∷ []) []
    ≡ verdict
        (required all 2)
        (count_stored answers 1 all (1 ∷ 2 ∷ []))
        (first_failure (some "timeout" ∷ none ∷ []))
unfolding write_owner write_local write_remote enqueue can_retry
write_to_shard_exact_example =
    write_to_shard_exact answers 1 all (1 ∷ 2 ∷ []) (2 ∷ 1 ∷ []) [] (omega arith)
      (Permᴰ.swap refl refl)

-- Groups of ten, with one shard on nodes 1, 2 and 3.
abbrev group : ℕ → ShardGroupInfo
group tens = record {
  id = tens + 1;
  start_time = tens * 10;
  end_time = tens * 10 + 10;
  deleted_at = 0;
  shards = record { id = tens + 1; owners = 1 ∷ 2 ∷ 3 ∷ [] } ∷ [];
}

abbrev first_shard : List ShardInfo → ShardInfo
first_shard [] = record { id = 0; owners = [] }
first_shard (s ∷ ss) = s

abbrev meta_client : Client String
meta_client = record {
  default_policy = some "autogen";
  retention_policy = λ name. ok (some 15);
  create_shard_group = λ k t. ok (some (group (t / 10)));
  sort = sort;
  shard_for = λ g hash. first_shard g.shards;
}

abbrev of_ok : {A : Type 0} → A → Outcome String (Option A) → A
of_ok d (ok (some a)) = a
of_ok d other = d

meta_client-IsClient : IsClient meta_client
meta_client-IsClient = record {
  contains_time =
      λ k t g gives. subst (λ g. Contains g t) (ap (of_ok g) gives) (omega arith, omega arith);
  sorts = sort-EndsSorted;
  keeps = sort-Permᴰ;
}

shard_group_at-find_group_example :
    shard_group_at (group 1 ∷ group 3 ∷ []) 32 ≡ find_group (group 1 ∷ group 3 ∷ []) 32
shard_group_at-find_group_example =
    shard_group_at-find_group (group 1 ∷ group 3 ∷ []) 32 ((omega arith, tt), (tt, tt))

abbrev point : ℕ → Point
point time = record { time = time; hash = time * 7 }

abbrev points : List Point
points = point 17 ∷ point 4 ∷ point 25 ∷ point 19 ∷ []

-- The point at 4 is too old.
abbrev mapping : ShardMapping
mapping = record {
  points = (2, point 17 ∷ point 19 ∷ []) ∷ (3, point 25 ∷ []) ∷ [];
  shards =
      (2, record { id = 2; owners = 1 ∷ 2 ∷ 3 ∷ [] })
      ∷ (3, record { id = 3; owners = 1 ∷ 2 ∷ 3 ∷ [] })
      ∷ [];
  dropped = point 4 ∷ [];
}

map_shards_test : map_shards meta_client 0 30 "autogen" points ≡ ok mapping
unfolding map_shards map_with add_groups add_group append_group covers is_group shard_group_at
    starts_by ends_after search search_from oldest map_points map_to map_point add_point put_shard
map_shards_test = refl

map_shards-IsMapping_example :
    IsMapping meta_client (oldest 0 30 15) mapping
    × ((test : Point → Bool) → count_all meta_client test mapping ≡ count test points)
map_shards-IsMapping_example =
    map_shards-IsMapping meta_client 0 30 15 "autogen" points mapping meta_client-IsClient refl
      map_shards_test

-- The duration of groups was ten when the first one was made, and is a hundred now: the second group
-- contains the first, which ends earlier, and the point at 20 is dropped.
abbrev overlapping : Client String
overlapping = record meta_client {
  create_shard_group =
      λ k t. ok (some (if k == 0 then group 5 else record (group 0) { id = 7; end_time = 100 }));
}

map_shards_drops_test :
    map_shards overlapping 0 30 "autogen" (point 55 ∷ point 70 ∷ point 20 ∷ [])
    ≡ ok (record {
      points = (6, point 55 ∷ []) ∷ (1, point 70 ∷ []) ∷ [];
      shards =
          (6, record { id = 6; owners = 1 ∷ 2 ∷ 3 ∷ [] })
          ∷ (1, record { id = 1; owners = 1 ∷ 2 ∷ 3 ∷ [] })
          ∷ [];
      dropped = point 20 ∷ [];
    })
unfolding map_shards map_with add_groups add_group append_group covers is_group shard_group_at
    starts_by ends_after search search_from oldest map_points map_to map_point add_point put_shard
map_shards_drops_test = refl

abbrev young : List Point
young = point 17 ∷ point 25 ∷ point 19 ∷ []

write_points_test :
    write_points meta_client 0 30 "" young
      (λ m id. write_to_shard answers 1 quorum (owners_of id m.shards) (owners_of id m.shards) [])
      (λ m. shard_ids m.points)
      []
    ≡ ok tt
unfolding write_points outcome_error policy_name await_mapping await_shards shard_result map_shards
    map_with add_groups add_group append_group covers is_group shard_group_at starts_by ends_after
    search search_from oldest map_points map_to map_point add_point put_shard write_to_shard
    required collect write_owner write_local write_remote enqueue can_retry
write_points_test = refl

write_points-Stored_example :
    (name : String) × (m : ShardMapping) × (policy_name meta_client "" (some "autogen") ≡ ok name)
    × (map_shards meta_client 0 30 name young ≡ ok m)
    × (m.dropped ≡ [])
    × All (λ entry. Stored meta_client (λ id. answers) 1 quorum m entry.0) m.points
write_points-Stored_example =
    write_points-Stored meta_client (λ id. answers) 1 quorum 0 30 "" young (λ m. shard_ids m.points)
      (λ m. []) [] (λ m id. owners_of id m.shards) (λ m id. []) (λ m id. [])
      (λ m. rw append-nil (Permᴰ.refl (shard_ids m.points)))
      (λ m. omega (arith, length-shard_ids m.points))
      (λ m id. rw append-nil (Permᴰ.refl (owners_of id m.shards))) write_points_test

-- The terminator is 7 8; the third Read ends with it.
abbrev calls : List (Call String)
calls =
    (0 ∷ 0 ∷ 0 ∷ 0 ∷ [], (1 ∷ 2 ∷ 3 ∷ [], none))
    ∷ (0 ∷ 0 ∷ [], (4 ∷ [], none))
    ∷ (0 ∷ 0 ∷ 0 ∷ [], (7 ∷ 8 ∷ [], none))
    ∷ (0 ∷ 0 ∷ 0 ∷ [], (9 ∷ [], none))
    ∷ []

reads-Delivered_example :
    (out : List ℕ) × (r : Reader) × (reads (new_iterator_reader (7 ∷ 8 ∷ [])) calls ≡ ok (out, r))
    × Delivered (7 ∷ 8 ∷ []) (1 ∷ 2 ∷ 3 ∷ 4 ∷ 7 ∷ 8 ∷ [], true) out r
reads-Delivered_example =
    reads-Delivered (7 ∷ 8 ∷ []) calls (omega arith) (omega arith) (omega arith)
      (omega arith, (omega arith, (omega arith, (omega arith, tt))))

abbrev given : Run (List ℕ × Reader) → Run (List ℕ × Bool)
given (ok a) = ok (a.0, a.1.terminated)
given (err e) = err e
given panic = panic

reads_test : given (reads (new_iterator_reader (7 ∷ 8 ∷ [])) calls) ≡ ok (1 ∷ 2 ∷ 3 ∷ 4 ∷ [], true)
unfolding new_iterator_reader read read_some answer shift_buffer shift_from put_header
    new_cyclic_buffer write write_bytes forward dump dump_loop dump_round compare compare_from
    read_next int_ltb min_of
reads_test = refl
