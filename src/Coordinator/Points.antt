-- ===== src/Coordinator/Points.antt =====
-- coordinator/points_writer.go: MapShards, the list of shard groups and WritePointsPrivileged. The meta
-- client's answers, the order of influxdb's ShardGroupInfos and its ShardFor are parameters. Of a point
-- only the time and the hash are kept. Statistics and subscriptions are left out.
pub mod Search
pub mod Covered
pub mod Mapped
pub mod Written
use chronus.Base.{
  ℕ, zero, suc, ◌+◌, ◌-◌, ◌/◌, Bool, true, false, ◌||◌, List, [], ◌∷◌, ◌++◌, Option, none, some,
  String, ◌==ₛ◌, map, take, Outcome, ok, err, panic, ◌>>=◌, length, get_elem?, ◌==◌, ltb,
  if◌then◌else◌,
}
use chronus.Meta.Types.{ShardInfo, ShardGroupInfo}
use chronus.Coordinator.Writes.{
  Event, Interrupt, interrupt, result, closing, timeout, WriteError, write_failed, timed_out,
  partial_write, failed,
}

pub record Point : Type 0 where
  pub time : ℕ
  pub hash : ℕ

-- sort.Search over i .. j, with fuel for its rounds.
unfoldable pub search_from : ℕ → (ℕ → Bool) → ℕ → ℕ → ℕ
search_from zero f i j = i
search_from (suc fuel) f i j =
    let h = (i + j) / 2 in
    let upper = search_from fuel f (h + 1) j in
    let lower = search_from fuel f i h in if ltb i j then (if f h then lower else upper) else i

unfoldable pub search : ℕ → (ℕ → Bool) → ℕ
search n f = search_from n f 0 n

-- l[i].EndTime.After(t)
unfoldable pub ends_after : ℕ → Option ShardGroupInfo → Bool
ends_after t none = false
ends_after t (some g) = ltb t g.end_time

unfoldable pub starts_by : ℕ → Option ShardGroupInfo → Option ShardGroupInfo
starts_by t none = none
starts_by t (some g) = if ltb t g.start_time then none else some g

unfoldable pub shard_group_at : List ShardGroupInfo → ℕ → Option ShardGroupInfo
shard_group_at l t =
    starts_by t (get_elem? l (search (length l) (λ i. ends_after t (get_elem? l i))))

unfoldable pub is_group : Option ShardGroupInfo → Bool
is_group none = false
is_group (some g) = true

unfoldable pub covers : List ShardGroupInfo → ℕ → Bool
covers l t = if length l == 0 then false else is_group (shard_group_at l t)

-- What the meta client answers; the groups are counted, since it may answer differently in time.
pub record Client (E : Type 0) : Type 0 where
  pub default_policy : Option String
  pub retention_policy : String → Outcome E (Option ℕ)
  pub create_shard_group : ℕ → ℕ → Outcome E (Option ShardGroupInfo)
  pub sort : List ShardGroupInfo → List ShardGroupInfo
  pub shard_for : ShardGroupInfo → ℕ → ShardInfo

pub data PointsError (E : Type 0) : Type 0 where
  client : E → PointsError E
  retention_policy_not_found nil_shard_group database_not_found : PointsError E
  shard : WriteError E → PointsError E
  points_dropped : ℕ → PointsError E

-- Points by the id of their shard, and the shards by their id.
pub record ShardMapping : Type 0 where
  pub points : List (ℕ × List Point)
  pub shards : List (ℕ × ShardInfo)
  pub dropped : List Point

unfoldable pub add_point : ℕ → Point → List (ℕ × List Point) → List (ℕ × List Point)
add_point id p [] = (id, p ∷ []) ∷ []
add_point id p (x ∷ xs) = if x.0 == id then (id, x.1 ++ p ∷ []) ∷ xs else x ∷ add_point id p xs

unfoldable pub put_shard : ℕ → ShardInfo → List (ℕ × ShardInfo) → List (ℕ × ShardInfo)
put_shard id s [] = (id, s) ∷ []
put_shard id s (x ∷ xs) = if x.0 == id then (id, s) ∷ xs else x ∷ put_shard id s xs

unfoldable pub map_point : ShardInfo → Point → ShardMapping → ShardMapping
map_point s p m = record m {
  points = add_point s.id p m.points;
  shards = put_shard s.id s m.shards;
}

abbrev pub no_points : ShardMapping
no_points = record { points = []; shards = []; dropped = [] }

-- The oldest time that a policy of the duration keeps; 0 keeps all times that there are.
unfoldable pub oldest : ℕ → ℕ → ℕ → ℕ
oldest min_nano_time now duration = if ltb 0 duration then now - duration else min_nano_time

module _ {E : Type 0} (c : Client E) where
  -- A group for a point that no group of the list covers.
  unfoldable pub append_group :
      List ShardGroupInfo
      → Outcome E (Option ShardGroupInfo)
      → Outcome (PointsError E) (List ShardGroupInfo)
  append_group l (ok (some g)) = ok (c.sort (l ++ g ∷ []))
  append_group l (ok none) = err nil_shard_group
  append_group l (err e) = err (client e)
  append_group l panic = panic

  unfoldable pub add_group :
      ℕ → Point → List ShardGroupInfo → Outcome (PointsError E) (List ShardGroupInfo)
  add_group min p l =
      if ltb p.time min || covers l p.time
      then ok l
      else append_group l (c.create_shard_group (length l) p.time)

  unfoldable pub add_groups :
      ℕ → List Point → List ShardGroupInfo → Outcome (PointsError E) (List ShardGroupInfo)
  add_groups min [] l = ok l
  add_groups min (p ∷ ps) l = add_group min p l >>= λ l'. add_groups min ps l'

  -- A point without a group is dropped.
  unfoldable pub map_to : Option ShardGroupInfo → Point → ShardMapping → ShardMapping
  map_to none p m = record m { dropped = m.dropped ++ p ∷ [] }
  map_to (some g) p m = map_point (c.shard_for g p.hash) p m

  unfoldable pub map_points : List ShardGroupInfo → List Point → ShardMapping → ShardMapping
  map_points l [] m = m
  map_points l (p ∷ ps) m = map_points l ps (map_to (shard_group_at l p.time) p m)

  unfoldable pub map_with : ℕ → ℕ → List Point → Option ℕ → Outcome (PointsError E) ShardMapping
  map_with min_nano_time now ps none = err retention_policy_not_found
  map_with min_nano_time now ps (some duration) =
      add_groups (oldest min_nano_time now duration) ps [] >>= λ l. ok (map_points l ps no_points)

  abbrev pub lift : {A : Type 0} → Outcome E A → Outcome (PointsError E) A
  lift (ok a) = ok a
  lift (err e) = err (client e)
  lift panic = panic

  unfoldable pub map_shards : ℕ → ℕ → String → List Point → Outcome (PointsError E) ShardMapping
  map_shards min_nano_time now policy ps =
      lift (c.retention_policy policy) >>= λ rp. map_with min_nano_time now ps rp

  -- The empty name stands for the default policy of the database.
  unfoldable pub policy_name : String → Option String → Outcome (PointsError E) String
  policy_name policy none = if policy ==ₛ "" then err database_not_found else ok policy
  policy_name policy (some name) = if policy ==ₛ "" then ok name else ok policy

-- writeToShard wraps or replaces every error, so none of its errors is tsdb.ErrShardDeletion.
unfoldable pub is_shard_deletion : {E : Type 0} → WriteError E → Bool
is_shard_deletion write_failed = false
is_shard_deletion timed_out = false
is_shard_deletion partial_write = false
is_shard_deletion (failed e) = false

-- The goroutine of one shard; a shard that is pending deletion drops its points.
unfoldable pub shard_result :
    {E : Type 0} → List Point → Option (WriteError E) → Option (PointsError E)
shard_result points none = none
shard_result points (some e) =
    if is_shard_deletion e then some (points_dropped (length points)) else some (shard e)

-- The loop over the shards: `dropped` is the error that stands before it.
unfoldable pub await_shards :
    {E : Type 0} → List (Event (PointsError E)) → Option (PointsError E) → Option (PointsError E)
await_shards [] dropped = dropped
await_shards (interrupt closing ∷ events) dropped = some (shard write_failed)
await_shards (interrupt timeout ∷ events) dropped = some (shard timed_out)
await_shards (result (some e) ∷ events) dropped = some e
await_shards (result none ∷ events) dropped = await_shards events dropped

abbrev pub points_of : ℕ → List (ℕ × List Point) → List Point
points_of id [] = []
points_of id (x ∷ xs) = if x.0 == id then x.1 else points_of id xs

abbrev pub dropped_error : {E : Type 0} → List Point → Option (PointsError E)
dropped_error [] = none
dropped_error (p ∷ ps) = some (points_dropped (length (p ∷ ps)))

-- `write` is writeToShard for the shard of an id, `arrived` are the ids of the shards in the order
-- in which their goroutines answer, and `cut` is what the loop receives then; it receives one event
-- for each shard at most.
unfoldable pub await_mapping :
    {E : Type 0}
    → (ℕ → Option (WriteError E))
    → List ℕ
    → List Interrupt
    → ShardMapping
    → Option (PointsError E)
await_mapping write arrived cut m =
    await_shards
      (take (length m.points) (
        map result (map (λ id. shard_result (points_of id m.points) (write id)) arrived)
        ++ map interrupt cut))
      (dropped_error m.dropped)

-- An error of the chain is that of the write.
unfoldable pub outcome_error :
    {E : Type 0}
    → Outcome (PointsError E) (Option (PointsError E))
    → Outcome (PointsError E) (Unit {0})
outcome_error (ok none) = ok tt
outcome_error (ok (some e)) = err e
outcome_error (err e) = err e
outcome_error panic = panic

unfoldable pub write_points :
    {E : Type 0}
    → Client E
    → ℕ
    → ℕ
    → String
    → List Point
    → (ShardMapping → ℕ → Option (WriteError E))
    → (ShardMapping → List ℕ)
    → List Interrupt
    → Outcome (PointsError E) (Unit {0})
write_points c min_nano_time now policy ps write arrived cut = outcome_error (
    policy_name c policy c.default_policy >>= λ name.
    map_shards c min_nano_time now name ps >>= λ m. ok (await_mapping (write m) (arrived m) cut m))
