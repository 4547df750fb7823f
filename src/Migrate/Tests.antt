-- ===== src/Migrate/Tests.antt =====
-- Two tasks, and instances of the theorems on them.
use chronus.Base.{◌≡◌, refl, [], ◌∷◌}
use chronus.Migrate.Manager.{
  Task, new_manager, add, add_unless, find_task, pop, pop_from, last_task, finish, remove, take_out,
  kill, kill_found, delete_task, remove_from_queue,
}
use chronus.Migrate.Manager.Registered.{IsExact, Runs, done, adds, pops, finishes, Runs-IsExact}

abbrev one : Task
one = record { pointer = 1; shard_id = 7; src_host = "a" }

abbrev two : Task
two = record { pointer = 2; shard_id = 8; src_host = "a" }

-- The worker takes the task that was added last.
run :
    Runs
      (new_manager 2)
      (record { parallel = 2; task_map = one ∷ []; task_queue = one ∷ []; running = [] })
unfolding new_manager add add_unless find_task pop pop_from last_task finish remove take_out
    delete_task remove_from_queue
run = adds one refl (adds two refl (pops (finishes two [] [] refl done)))

Runs-IsExact_example :
    IsExact (record { parallel = 2; task_map = one ∷ []; task_queue = one ∷ []; running = [] })
Runs-IsExact_example =
    Runs-IsExact 2
      (record { parallel = 2; task_map = one ∷ []; task_queue = one ∷ []; running = [] }) run

-- After a Kill of a task that runs, its worker removes the task that was added for the shard since.
abbrev again : Task
again = record { pointer = 3; shard_id = 7; src_host = "b" }

lost_test :
    finish one (add again (kill 7 "a" (pop (add one (new_manager 2)).1).1)).1 ≡ new_manager 2
unfolding new_manager add add_unless find_task pop pop_from last_task finish remove take_out kill
    kill_found delete_task remove_from_queue
lost_test = refl
