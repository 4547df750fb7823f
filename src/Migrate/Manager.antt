-- ===== src/Migrate/Manager.antt =====
-- services/migrate/manager.go: Manager, the tasks that copy shards. A pointer to a task is a
-- number, by which two tasks are told apart; of a task only the shard and the source host are kept.
-- The map of tasks is a list of entries by shard. Rates, channels, logging and the wake-up of idle
-- workers are left out.
pub mod Registered
use chronus.Base.{
  ℕ, zero, suc, Bool, true, false, List, [], ◌∷◌, ◌++◌, Option, none, some, String, ◌==ₛ◌, ◌==◌,
  ltb, if◌then◌else◌,
}

pub record Task : Type 0 where
  pub pointer : ℕ
  pub shard_id : ℕ
  pub src_host : String

-- taskMap and taskQueue; `running` are the tasks that workers execute, the value of `t` in each `loop`.
pub record Manager : Type 0 where
  pub parallel : ℕ
  pub task_map : List Task
  pub task_queue : List Task
  pub running : List Task

abbrev pub task_parallel_max : ℕ
task_parallel_max = 24

-- The argument is not negative.
unfoldable pub new_manager : ℕ → Manager
new_manager parallel =
    let positive = if ltb parallel 1 then 1 else parallel in
    record {
      parallel = if ltb task_parallel_max positive then task_parallel_max else positive;
      task_map = [];
      task_queue = [];
      running = [];
    }

-- m.taskMap[id]
unfoldable pub find_task : ℕ → List Task → Option Task
find_task id [] = none
find_task id (t ∷ ts) = let rest = find_task id ts in if t.shard_id == id then some t else rest

-- delete(m.taskMap, id)
unfoldable pub delete_task : ℕ → List Task → List Task
delete_task id [] = []
delete_task id (t ∷ ts) =
    let rest = delete_task id ts in if t.shard_id == id then rest else t ∷ rest

-- The first occurrence of the pointer leaves the queue.
unfoldable pub remove_from_queue : Task → List Task → List Task
remove_from_queue t [] = []
remove_from_queue t (u ∷ us) =
    let rest = remove_from_queue t us in if u.pointer == t.pointer then us else u ∷ rest

-- The last task of the queue, and the others.
unfoldable pub last_task : Task → List Task → List Task × Task
last_task t [] = ([], t)
last_task t (u ∷ us) = let rest = last_task u us in (t ∷ rest.0, rest.1)

-- `pop`, by a worker that then executes the task.
unfoldable pub pop_from : List Task → Manager → Option Task × Manager
pop_from [] m = (none, m)
pop_from (t ∷ ts) m =
    let (rest, last) = last_task t ts in
    (some last, record m { task_queue = rest; running = last ∷ m.running })

unfoldable pub pop : Manager → Option Task × Manager
pop m = pop_from m.task_queue m

-- Behind the test for a task of the same shard; `true` is ErrTaskDuplicated.
unfoldable pub add_unless : Option Task → Task → Manager → Bool × Manager
add_unless (some other) t m = (true, m)
add_unless none t m =
    (false, record m { task_map = t ∷ m.task_map; task_queue = m.task_queue ++ t ∷ [] })

unfoldable pub add : Task → Manager → Bool × Manager
add t m = add_unless (find_task t.shard_id m.task_map) t m

-- What Remove and Kill do with the task that they find.
unfoldable pub take_out : Option Task → ℕ → Manager → Manager
take_out none id m = m
take_out (some t) id m = record m {
  task_map = delete_task id m.task_map;
  task_queue = remove_from_queue t m.task_queue;
}

unfoldable pub remove : ℕ → Manager → Manager
remove id m = take_out (find_task id m.task_map) id m

-- Kill, behind the look at the map.
unfoldable pub kill_found : Option Task → ℕ → String → Manager → Manager
kill_found none id host m = m
kill_found (some t) id host m = if host ==ₛ t.src_host then take_out (some t) id m else m

unfoldable pub kill : ℕ → String → Manager → Manager
kill id host m = kill_found (find_task id m.task_map) id host m

-- The end of a pass of `loop`: the worker that has executed the task removes what its shard has.
unfoldable pub finish : Task → Manager → Manager
finish t m = remove t.shard_id (record m { running = remove_from_queue t m.running })
