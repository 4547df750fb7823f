-- ===== src/Migrate/Manager/Registered.antt =====
-- Which tasks a manager knows, where no task is killed.
use chronus.Base.{
  ℕ, ◌+◌, ◌≤◌, ◌≡◌, refl, ap, ◌∙◌, Bool, true, ◌&&◌, List, [], ◌∷◌, ◌++◌, none, some, ◌==◌,
  if◌then◌else◌, arith, Bool-cases, Option-cases, inl, inr,
}
use chronus.Migrate.Manager.{
  Task, Manager, new_manager, find_task, delete_task, remove_from_queue, last_task, pop_from, pop,
  add_unless, add, take_out, remove, finish,
}

-- How many tasks of the list pass the test?
abbrev pub count : (Task → Bool) → List Task → ℕ
count test [] = 0
count test (t ∷ ts) = (if test t then 1 else 0) + count test ts

abbrev pub of_shard : ℕ → Task → Bool
of_shard id t = t.shard_id == id

abbrev pub at_pointer : ℕ → Task → Bool
at_pointer p t = t.pointer == p

-- The registered tasks are those that are queued or run, each once, no two of one shard.
pub record IsExact (m : Manager) : Type 0 where
  pub parts :
      (test : Task → Bool) → count test m.task_map ≡ count test m.task_queue + count test m.running
  pub shards : (id : ℕ) → count (of_shard id) m.task_map ≤ 1
  pub pointers : (p : ℕ) → count (at_pointer p) m.task_map ≤ 1

count-append :
    (test : Task → Bool) (xs ys : List Task) → count test (xs ++ ys) ≡ count test xs + count test ys
count-append test [] ys = omega arith
count-append test (x ∷ xs) ys = omega (arith, count-append test xs ys)

count-last_task :
    (test : Task → Bool) (t : Task) (ts : List Task)
    → count test (last_task t ts).0 + (if test (last_task t ts).1 then 1 else 0)
      ≡ count test (t ∷ ts)
unfolding last_task
count-last_task test t [] = omega arith
count-last_task test t (u ∷ us) = omega (arith, count-last_task test u us)

pop-IsExact : (m : Manager) → IsExact m → IsExact (pop m).1
unfolding pop pop_from
pop-IsExact m exact = split m.task_queue exact.parts
  where
    split :
        (queue : List Task)
        → ((test : Task → Bool) → count test m.task_map ≡ count test queue + count test m.running)
        → IsExact (pop_from queue (record m { task_queue = queue })).1
    split [] parts = record { parts = parts; shards = exact.shards; pointers = exact.pointers }
    split (t ∷ ts) parts = record {
      parts = λ test. omega (arith, parts test, count-last_task test t ts);
      shards = exact.shards;
      pointers = exact.pointers;
    }

count-find_task : (id : ℕ) (ts : List Task) → find_task id ts ≡ none → count (of_shard id) ts ≡ 0
unfolding find_task
count-find_task id [] h = refl
count-find_task id (t ∷ ts) h = elim (Bool-cases (t.shard_id == id)) [
  | inl same ↦ cc (rw same at h)
  | inr apart ↦ rw apart (omega (arith, count-find_task id ts (rw apart at h)))
]

add-IsExact :
    (t : Task) (m : Manager)
    → count (at_pointer t.pointer) m.task_map ≡ 0
    → IsExact m
    → IsExact (add t m).1
unfolding add add_unless
add-IsExact t m fresh exact = elim (Option-cases (find_task t.shard_id m.task_map)) [
  | inr (u, found) ↦ rw found exact
  | inl missing ↦
      let free = count-find_task t.shard_id m.task_map missing in
      rw missing (record {
        parts = λ test. omega (arith, exact.parts test, count-append test m.task_queue (t ∷ []));
        shards = λ id. elim (Bool-cases (t.shard_id == id)) [
          | inl same ↦
              let e : t.shard_id ≡ id = ground (arith, same) in
              rw same (omega (arith, ap (λ i. count (of_shard i) m.task_map) e, free))
          | inr apart ↦ rw apart (omega (arith, exact.shards id))
        ];
        pointers = λ p. elim (Bool-cases (t.pointer == p)) [
          | inl same ↦
              let e : t.pointer ≡ p = ground (arith, same) in
              rw same (omega (arith, ap (λ i. count (at_pointer i) m.task_map) e, fresh))
          | inr apart ↦ rw apart (omega (arith, exact.pointers p))
        ];
      })
]

-- Deleting a shard leaves out exactly the tasks of that shard.
count-delete_task :
    (test : Task → Bool) (id : ℕ) (ts : List Task)
    → count test (delete_task id ts) + count (λ t. test t && of_shard id t) ts ≡ count test ts
unfolding delete_task
count-delete_task test id [] = omega arith
count-delete_task test id (t ∷ ts) = let rest = count-delete_task test id ts in ground (arith, rest)

remove_from_queue-none :
    (t : Task) (ts : List Task) → count (at_pointer t.pointer) ts ≡ 0 → remove_from_queue t ts ≡ ts
unfolding remove_from_queue
remove_from_queue-none t [] h = refl
remove_from_queue-none t (u ∷ us) h = elim (Bool-cases (u.pointer == t.pointer)) [
  | inl same ↦ absurd (omega (arith, rw same at h))
  | inr apart ↦
      let none_left : count (at_pointer t.pointer) us ≡ 0 = ground (arith, h, apart) in
      rw apart (ap (λ l. u ∷ l) (remove_from_queue-none t us none_left))
]

remove_from_queue-first :
    (t : Task) (xs ys : List Task)
    → count (at_pointer t.pointer) xs ≡ 0
    → remove_from_queue t (xs ++ t ∷ ys) ≡ xs ++ ys
unfolding remove_from_queue
remove_from_queue-first t [] ys h =
    let same : (t.pointer == t.pointer) ≡ true = ground arith in rw same refl
remove_from_queue-first t (x ∷ xs) ys h = elim (Bool-cases (x.pointer == t.pointer)) [
  | inl same ↦ absurd (omega (arith, rw same at h))
  | inr apart ↦
      let none_left : count (at_pointer t.pointer) xs ≡ 0 = ground (arith, h, apart) in
      rw apart (ap (λ l. x ∷ l) (remove_from_queue-first t xs ys none_left))
]

count-both_left : (a b : Task → Bool) (ts : List Task) → count (λ t. a t && b t) ts ≤ count a ts
count-both_left a b [] = omega arith
count-both_left a b (t ∷ ts) = let rest = count-both_left a b ts in ground (arith, rest)

count-both_right : (a b : Task → Bool) (ts : List Task) → count (λ t. a t && b t) ts ≤ count b ts
count-both_right a b [] = omega arith
count-both_right a b (t ∷ ts) = let rest = count-both_right a b ts in ground (arith, rest)

-- The task that is found is one of the shard, in the map.
find_task-counted :
    (id : ℕ) (ts : List Task) (u : Task)
    → find_task id ts ≡ some u
    → 1 ≤ count (λ t. at_pointer u.pointer t && of_shard id t) ts
unfolding find_task
find_task-counted id [] u h = cc
find_task-counted id (t ∷ ts) u h = elim (Bool-cases (t.shard_id == id)) [
  | inl same ↦
      let found : t ≡ u = cc (rw same at h) in
      let pointer : (t.pointer == u.pointer) ≡ true = rw found (ground arith) in
      rw (pointer, same) (omega arith)
  | inr apart ↦
      let rest = find_task-counted id ts u (rw apart at h) in rw apart (ground (arith, rest))
]

module _ (t : Task) (xs ys : List Task) (m : Manager) (exact : IsExact m)
    (here : m.running ≡ xs ++ t ∷ ys) where
  count-running :
      (test : Task → Bool)
      → count test m.running ≡ count test xs + ((if test t then 1 else 0) + count test ys)
  count-running test = ap (count test) here ∙ count-append test xs (t ∷ ys)

  -- The task that runs is the only one of its shard.
  alone :
      (count (of_shard t.shard_id) m.task_queue ≡ 0)
      × (count (of_shard t.shard_id) xs ≡ 0)
      × (count (of_shard t.shard_id) ys ≡ 0)
  alone =
      let self : (t.shard_id == t.shard_id) ≡ true = ground arith in
      let sum = exact.parts (of_shard t.shard_id) in
      let running = count-running (of_shard t.shard_id) in
      let few = exact.shards t.shard_id in
      (
        ground (arith, self, sum, running, few),
        ground (arith, self, sum, running, few),
        ground (arith, self, sum, running, few),
      )

  first_one : count (at_pointer t.pointer) xs ≡ 0
  first_one =
      let self : (t.pointer == t.pointer) ≡ true = ground arith in
      let sum = exact.parts (at_pointer t.pointer) in
      let running = count-running (at_pointer t.pointer) in
      let few = exact.pointers t.pointer in ground (arith, self, sum, running, few)

  found_one :
      (u : Task)
      → find_task t.shard_id m.task_map ≡ some u
      → count (at_pointer u.pointer) m.task_queue ≡ 0
  found_one u found =
      let both : Task → Bool = λ v. at_pointer u.pointer v && of_shard t.shard_id v in
      let (queue, first, last) = alone in
      omega (
        arith,
        find_task-counted t.shard_id m.task_map u found,
        exact.parts both,
        exact.parts (at_pointer u.pointer),
        exact.pointers u.pointer,
        count-both_right (at_pointer u.pointer) (of_shard t.shard_id) m.task_queue,
        count-both_left (at_pointer u.pointer) (of_shard t.shard_id) m.running,
        queue,
      )

  alone_in :
      (test : Task → Bool)
      → count (λ v. test v && of_shard t.shard_id v) m.task_map ≡ (if test t then 1 else 0)
  alone_in test =
      let both : Task → Bool = λ v. test v && of_shard t.shard_id v in
      let self : (t.shard_id == t.shard_id) ≡ true = ground arith in
      let (queue, first, last) = alone in
      let sum = exact.parts both in
      let running = count-running both in
      let a = count-both_right test (of_shard t.shard_id) m.task_queue in
      let b = count-both_right test (of_shard t.shard_id) xs in
      let c = count-both_right test (of_shard t.shard_id) ys in
      ground (arith, self, queue, first, last, sum, running, a, b, c)

  finish-IsExact : IsExact (finish t m)
  unfolding finish remove take_out
  finish-IsExact = elim (Option-cases (find_task t.shard_id m.task_map)) [
    | inl missing ↦
        let none_there = count-find_task t.shard_id m.task_map missing in
        let self : (t.shard_id == t.shard_id) ≡ true = ground arith in
        let sum = exact.parts (of_shard t.shard_id) in
        let running = count-running (of_shard t.shard_id) in
        absurd (ground (arith, none_there, self, sum, running))
    | inr (u, found) ↦
        let queue = remove_from_queue-none u m.task_queue (found_one u found) in
        let running = ap (remove_from_queue t) here ∙ remove_from_queue-first t xs ys first_one in
        rw (found, queue, running)
          (record {
            parts = λ test. omega (
              arith,
              count-delete_task test t.shard_id m.task_map,
              alone_in test,
              exact.parts test,
              count-running test,
              count-append test xs ys,
            );
            shards = λ id.
                omega
                  (arith, count-delete_task (of_shard id) t.shard_id m.task_map, exact.shards id);
            pointers = λ p.
                omega
                  (arith, count-delete_task (at_pointer p) t.shard_id m.task_map, exact.pointers p);
          })
  ]

-- Any sequence of calls of Add, with tasks that are not registered yet, of tasks that workers take, and
-- of tasks that they end.
pub data Runs : Manager → Manager → Type 0 where
  done : {m : Manager} → Runs m m
  adds :
      {m m' : Manager} (t : Task)
      → count (at_pointer t.pointer) m.task_map ≡ 0
      → Runs (add t m).1 m'
      → Runs m m'
  pops : {m m' : Manager} → Runs (pop m).1 m' → Runs m m'
  finishes :
      {m m' : Manager} (t : Task) (xs ys : List Task)
      → m.running ≡ xs ++ t ∷ ys
      → Runs (finish t m) m'
      → Runs m m'

keeps : {m m' : Manager} → Runs m m' → IsExact m → IsExact m'
keeps done exact = exact
keeps {m} (adds t fresh rest) exact = keeps rest (add-IsExact t m fresh exact)
keeps {m} (pops rest) exact = keeps rest (pop-IsExact m exact)
keeps {m} (finishes t xs ys here rest) exact = keeps rest (finish-IsExact t xs ys m exact here)

-- After any sequence of Add, of tasks that workers take and of tasks that they end, but without
-- Kill and without other calls of Remove, the registered tasks are those that are queued and those
-- that run, each once, and no two tasks are of one shard.
pub Runs-IsExact : (parallel : ℕ) (m : Manager) → Runs (new_manager parallel) m → IsExact m
unfolding new_manager
Runs-IsExact parallel m runs = keeps runs (record {
  parts = λ test. omega arith;
  shards = λ id. omega arith;
  pointers = λ p. omega arith;
})
