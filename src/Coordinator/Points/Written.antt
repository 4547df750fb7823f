-- ===== src/Coordinator/Points/Written.antt =====
-- What a successful WritePoints has written.
use mathlib.Core.List.{Permᴰ}
use mathlib.Core.Path.{subst}
use mathlib.Core.List.{append-nil}
use chronus.Base.{
  length-append, length-zero, take, ◌+◌, zero, suc, ℕ, ◌≤◌, ◌≡◌, refl, ap, ◌∙◌, List, [], ◌∷◌, ◌++◌,
  Option, none, some, String, Outcome, ok, err, panic, ◌>>=◌, >>=-eq-ok, map, length, length-map,
  length-Perm, ◌==◌, if◌then◌else◌, arith, All, All-impl, All-Perm,
}
use chronus.Meta.Types.{ShardInfo}
use chronus.Coordinator.Writes.{
  Answers, ConsistencyLevel, Interrupt, closing, timeout, interrupt, result, WriteError,
  write_failed, timed_out, partial_write, failed, required, write_to_shard,
}
use chronus.Coordinator.Writes.Levels.{count_stored, write_to_shard_stored}
use chronus.Coordinator.Points.{
  Point, Client, PointsError, ShardMapping, map_shards, policy_name, is_shard_deletion,
  shard_result, await_shards, points_of, dropped_error, await_mapping, outcome_error, write_points,
}

abbrev pub shard_ids : {A : Type 0} → List (ℕ × A) → List ℕ
shard_ids [] = []
shard_ids (x ∷ xs) = x.0 ∷ shard_ids xs

-- The owners of the shard of an id.
abbrev pub owners_of : ℕ → List (ℕ × ShardInfo) → List ℕ
owners_of id [] = []
owners_of id (x ∷ xs) = if x.0 == id then x.1.owners else owners_of id xs

pub length-shard_ids : {A : Type 0} (xs : List (ℕ × A)) → length (shard_ids xs) ≡ length xs
length-shard_ids [] = refl
length-shard_ids (x ∷ xs) = omega (arith, length-shard_ids xs)

All-shard_ids :
    (P : ℕ → Type 0) (xs : List (ℕ × List Point))
    → All P (shard_ids xs)
    → All (λ entry. P entry.0) xs
All-shard_ids P [] all = tt
All-shard_ids P (x ∷ xs) all = (all.0, All-shard_ids P xs all.1)

module _ {E : Type 0} where
  -- The loop succeeds only if every shard does before it is cut short, and no point was dropped.
  await_shards-none :
      (n : ℕ) (rs : List (Option (PointsError E))) (cut : List Interrupt)
      (dropped : Option (PointsError E))
      → length rs ≤ n
      → n ≤ length rs + length cut
      → await_shards (take n (map result rs ++ map interrupt cut)) dropped ≡ none
      → (n ≡ length rs) × All (λ (r : Option (PointsError E)). r ≡ none) rs × (dropped ≡ none)
  unfolding await_shards
  await_shards-none zero [] cut dropped within enough success = (refl, tt, success)
  await_shards-none zero (r ∷ rs) cut dropped within enough success = absurd (omega arith)
  await_shards-none (suc n) [] [] dropped within enough success = absurd (omega arith)
  await_shards-none (suc n) [] (closing ∷ cut) dropped within enough success = cc
  await_shards-none (suc n) [] (timeout ∷ cut) dropped within enough success = cc
  await_shards-none (suc n) (some e ∷ rs) cut dropped within enough success = cc
  await_shards-none (suc n) (none ∷ rs) cut dropped within enough success =
      let (whole, all, kept) =
        await_shards-none n rs cut dropped (omega arith) (omega arith) success in
      (omega (arith, whole), (refl, all), kept)

  shard_result-none :
      (points : List Point) (w : Option (WriteError E)) → shard_result points w ≡ none → w ≡ none
  unfolding shard_result is_shard_deletion
  shard_result-none points none h = refl
  shard_result-none points (some write_failed) h = cc
  shard_result-none points (some timed_out) h = cc
  shard_result-none points (some partial_write) h = cc
  shard_result-none points (some (failed e)) h = cc

  All-map :
      (write : ℕ → Option (WriteError E)) (m : ShardMapping) (ids : List ℕ)
      → All
          (λ (r : Option (PointsError E)). r ≡ none)
          (map (λ id. shard_result (points_of id m.points) (write id)) ids)
      → All (λ id. write id ≡ none) ids
  All-map write m [] all = tt
  All-map write m (id ∷ ids) all =
      (shard_result-none (points_of id m.points) (write id) all.0, All-map write m ids all.1)

  dropped_error-none : (ps : List Point) → dropped_error {E = E} ps ≡ none → ps ≡ []
  dropped_error-none [] h = refl
  dropped_error-none (p ∷ ps) h = cc

  outcome_error-ok :
      (o : Outcome (PointsError E) (Option (PointsError E))) → outcome_error o ≡ ok tt → o ≡ ok none
  unfolding outcome_error
  outcome_error-ok (ok none) h = refl
  outcome_error-ok (ok (some e)) h = cc
  outcome_error-ok (err e) h = cc
  outcome_error-ok panic h = cc

  await_mapping-none :
      (write : ℕ → Option (WriteError E)) (arrived late : List ℕ) (cut : List Interrupt)
      (m : ShardMapping)
      → Permᴰ (arrived ++ late) (shard_ids m.points)
      → length m.points ≤ length arrived + length cut
      → await_mapping write arrived cut m ≡ none
      → All (λ entry. write entry.0 ≡ none) m.points × (m.dropped ≡ [])
  unfolding await_mapping
  await_mapping-none write arrived late cut m order enough success =
      let results : List (Option (PointsError E)) =
        map (λ id. shard_result (points_of id m.points) (write id)) arrived in
      let same =
        length-map arrived (λ id. shard_result {E = E} (points_of id m.points) (write id)) in
      let total = length-Perm order ∙ length-shard_ids m.points in
      let parts = length-append arrived late in
      let (whole, all, kept) =
        await_shards-none (length m.points) results cut (dropped_error m.dropped)
          (omega (arith, same, total, parts)) (omega (arith, same, enough)) success in
      let in_time : late ≡ [] = length-zero late (omega (arith, whole, same, total, parts)) in
      let order' : Permᴰ arrived (shard_ids m.points) =
        subst (λ xs. Permᴰ xs (shard_ids m.points))
          (ap (λ l. arrived ++ l) in_time ∙ append-nil arrived) order in
      (
        All-shard_ids (λ id. write id ≡ none) m.points
            (All-Perm (λ id. write id ≡ none) order' (All-map write m arrived all)),
        dropped_error-none m.dropped kept,
      )

module _ {E : Type 0} (c : Client E) (answers : ℕ → ℕ → Answers E) (node : ℕ)
    (level : ConsistencyLevel) where
  -- The owners of the shard have stored its points, as many of them as the level requires.
  abbrev pub Stored : ShardMapping → ℕ → Type 0
  Stored m id =
      required level (length (owners_of id m.shards))
      ≤ count_stored (answers id) node level (owners_of id m.shards)

  -- Where WritePoints succeeds, MapShards has succeeded for the policy that is asked for, or for the
  -- default one, has dropped no point, and each shard that it maps points to has been stored by as
  -- many of its owners as the level requires. The goroutines of the shards answer in any order, some of
  -- them too late, and so do those of a shard's owners; the loop receives an event for each shard, an
  -- answer or an interrupt.
  pub write_points-Stored :
      (min_nano_time now : ℕ) (policy : String) (ps : List Point)
      (arrived late : ShardMapping → List ℕ) (cut : List Interrupt)
      (shard_arrived shard_late : ShardMapping → ℕ → List ℕ)
      (shard_cut : ShardMapping → ℕ → List Interrupt)
      → ((m : ShardMapping) → Permᴰ (arrived m ++ late m) (shard_ids m.points))
      → ((m : ShardMapping) → length m.points ≤ length (arrived m) + length cut)
      → ((m : ShardMapping) (id : ℕ)
          → Permᴰ (shard_arrived m id ++ shard_late m id) (owners_of id m.shards))
      → write_points c min_nano_time now policy ps
          (λ m id.
            write_to_shard
              (answers id)
              node
              level
              (owners_of id m.shards)
              (shard_arrived m id)
              (shard_cut m id))
          arrived
          cut
        ≡ ok tt
      → (name : String) × (m : ShardMapping) × (policy_name c policy c.default_policy ≡ ok name)
        × (map_shards c min_nano_time now name ps ≡ ok m)
        × (m.dropped ≡ [])
        × All (λ entry. Stored m entry.0) m.points
  unfolding write_points
  write_points-Stored min_nano_time now policy ps arrived late cut shard_arrived shard_late
        shard_cut order enough split success =
      let write : ShardMapping → ℕ → Option (WriteError E) = λ m id.
        write_to_shard (answers id) node level (owners_of id m.shards) (shard_arrived m id)
          (shard_cut m id) in
      let chain = outcome_error-ok _ success in
      let (name, named, rest) =
        >>=-eq-ok
          (λ name. map_shards c min_nano_time now name ps >>= λ m.
            ok (await_mapping (write m) (arrived m) cut m))
          (policy_name c policy c.default_policy) chain in
      let (m, mapped, rest) =
        >>=-eq-ok (λ m. ok (await_mapping (write m) (arrived m) cut m))
          (map_shards c min_nano_time now name ps) rest in
      let awaited : await_mapping (write m) (arrived m) cut m ≡ none = cc (rest) in
      let (wrote, kept) =
        await_mapping-none (write m) (arrived m) (late m) cut m (order m) (enough m) awaited in
      (
        name,
        m,
        named,
        mapped,
        kept,
        All-impl m.points
            (λ entry.
              write_to_shard_stored (answers entry.0) node level (owners_of entry.0 m.shards)
                (shard_arrived m entry.0) (shard_late m entry.0) (shard_cut m entry.0)
                (split m entry.0))
            wrote,
      )
