-- ===== src/Coordinator/Points/Mapped.antt =====
-- Where MapShards puts the points.
use mathlib.Core.Path.{subst}
use chronus.Base.{
  ℕ, ◌+◌, ◌≤◌, ◌<◌, ◌≡◌, refl, sym, ap, ◌∙◌, ◌⊎◌, Bool, List, [], ◌∷◌, ◌++◌, Option, none, some,
  String, ok, ◌>>=◌, >>=-eq-ok, ltb, ◌==◌, if◌then◌else◌, arith, All, All-append, Any, Bool-cases,
  inl, inr,
}
use chronus.Meta.Types.{ShardGroupInfo}
use chronus.Coordinator.Points.{
  Point, Client, ShardMapping, add_point, map_point, map_to, map_points, no_points, oldest,
  map_with, lift, map_shards, shard_group_at, add_groups,
}
use chronus.Coordinator.Points.Search.{shard_group_at-find_group}
use chronus.Coordinator.Points.Covered.{
  IsClient, IsGroups, Covering, Overlapped, find_group-Covering, find_group_sound,
  add_groups-Covering,
}

-- Of how many points does the test hold?
abbrev pub count : (Point → Bool) → List Point → ℕ
count test [] = 0
count test (p ∷ ps) = (if test p then 1 else 0) + count test ps

-- The same, of the points that are mapped to a shard.
abbrev pub count_mapped : (Point → Bool) → List (ℕ × List Point) → ℕ
count_mapped test [] = 0
count_mapped test (x ∷ xs) = count test x.1 + count_mapped test xs

count-append :
    (test : Point → Bool) (xs ys : List Point)
    → count test (xs ++ ys) ≡ count test xs + count test ys
count-append test [] ys = omega arith
count-append test (x ∷ xs) ys = omega (arith, count-append test xs ys)

count_mapped-add_point :
    (test : Point → Bool) (id : ℕ) (p : Point) (xs : List (ℕ × List Point))
    → count_mapped test (add_point id p xs) ≡ (if test p then 1 else 0) + count_mapped test xs
unfolding add_point
count_mapped-add_point test id p [] = omega arith
count_mapped-add_point test id p (x ∷ xs) = elim (Bool-cases (x.0 == id)) [
  | inl same ↦ rw same (omega (arith, count-append test x.1 (p ∷ [])))
  | inr apart ↦ rw apart (omega (arith, count_mapped-add_point test id p xs))
]

module _ {E : Type 0} (c : Client E) where
  -- The points of an entry lie in a group of the client that gives this shard for them.
  abbrev pub Belongs : ℕ → Point → Type 0
  Belongs id p = (g : ShardGroupInfo) × Covering c p.time g × ((c.shard_for g p.hash).id ≡ id)

  abbrev pub AllBelong : List (ℕ × List Point) → Type 0
  AllBelong points = All (λ entry. All (Belongs entry.0) entry.1) points

  AllBelong-add_point :
      (id : ℕ) (p : Point) (xs : List (ℕ × List Point))
      → Belongs id p
      → AllBelong xs
      → AllBelong (add_point id p xs)
  unfolding add_point
  AllBelong-add_point id p [] here holds = ((here, tt), tt)
  AllBelong-add_point id p (x ∷ xs) here holds = elim (Bool-cases (x.0 == id)) [
    | inl same ↦
        let equal : x.0 ≡ id = ground (arith, same) in
        rw same (
          All-append (Belongs id) x.1 (p ∷ []) (subst (λ n. All (Belongs n) x.1) equal holds.0)
              (here, tt),
          holds.1,
        )
    | inr apart ↦ rw apart (holds.0, AllBelong-add_point id p xs here holds.1)
  ]

  -- A mapping of points, with the points that are still to be mapped counted apart.
  pub record IsMapping (min : ℕ) (m : ShardMapping) : Type 0 where
    pub belong : AllBelong m.points
    pub old : All (λ (p : Point). (p.time < min) ⊎ Overlapped c p.time) m.dropped

  module _ (min : ℕ) (l : List ShardGroupInfo) (groups : IsGroups c l) where
    abbrev Young : Point → Type 0
    Young p = min ≤ p.time → Any (Covering c p.time) l

    map_to-IsMapping :
        (o : Option ShardGroupInfo) (p : Point) (m : ShardMapping)
        → shard_group_at l p.time ≡ o
        → Young p
        → IsMapping min m
        → IsMapping min (map_to c o p m)
    unfolding map_to map_point
    map_to-IsMapping (some g) p m found young holds =
        let covering =
          find_group_sound c l p.time g groups.1
            (sym (shard_group_at-find_group l p.time groups.0) ∙ found) in
        record {
          belong =
              AllBelong-add_point (c.shard_for g p.hash).id p m.points (g, covering, refl)
                holds.belong;
          old = holds.old;
        }
    map_to-IsMapping none p m found young holds =
        let reason : (p.time < min) ⊎ Overlapped c p.time = elim (Bool-cases (ltb p.time min)) [
          | inl early ↦ inl (ground (arith, early))
          | inr late ↦ elim (find_group-Covering c l p.time groups (young (ground (arith, late)))) [
            | inr overlapped ↦ inr overlapped
            | inl (g, finds, covering) ↦
                cc (found, finds, shard_group_at-find_group l p.time groups.0)
          ]
        ] in
        record {
          belong = holds.belong;
          old = All-append _ m.dropped (p ∷ []) holds.old (reason, tt);
        }

    map_points-IsMapping :
        (ps : List Point) (m : ShardMapping)
        → All Young ps
        → IsMapping min m
        → IsMapping min (map_points c l ps m)
    unfolding map_points
    map_points-IsMapping [] m young holds = holds
    map_points-IsMapping (p ∷ ps) m young holds =
        map_points-IsMapping ps _ young.1
          (map_to-IsMapping (shard_group_at l p.time) p m refl young.0 holds)

  -- How many points of a mapping, those that were dropped included, satisfy the test?
  abbrev pub count_all : (Point → Bool) → ShardMapping → ℕ
  count_all test m = count_mapped test m.points + count test m.dropped

  count_all-map_to :
      (test : Point → Bool) (o : Option ShardGroupInfo) (p : Point) (m : ShardMapping)
      → count_all test (map_to c o p m) ≡ (if test p then 1 else 0) + count_all test m
  unfolding map_to map_point
  count_all-map_to test none p m = omega (arith, count-append test m.dropped (p ∷ []))
  count_all-map_to test (some g) p m =
      omega (arith, count_mapped-add_point test (c.shard_for g p.hash).id p m.points)

  count_all-map_points :
      (test : Point → Bool) (l : List ShardGroupInfo) (ps : List Point) (m : ShardMapping)
      → count_all test (map_points c l ps m) ≡ count test ps + count_all test m
  unfolding map_points
  count_all-map_points test l [] m = omega arith
  count_all-map_points test l (p ∷ ps) m = omega (
    arith,
    count_all-map_points test l ps (map_to c (shard_group_at l p.time) p m),
    count_all-map_to test (shard_group_at l p.time) p m,
  )

  -- Where MapShards succeeds, every point is mapped to one shard or dropped, once: of every test on
  -- points, as many of these points satisfy it as of the given ones. A point that is mapped lies in a
  -- group of the client that gives this shard for it. A point that is dropped is older than the policy
  -- keeps, or two groups of the client overlap there: one contains the point, the other starts after
  -- it and ends no later. The client's group for a time contains it, and its order of groups is that
  -- of their ends.
  pub map_shards-IsMapping :
      (min_nano_time now duration : ℕ) (policy : String) (ps : List Point) (m : ShardMapping)
      → IsClient c
      → c.retention_policy policy ≡ ok (some duration)
      → map_shards c min_nano_time now policy ps ≡ ok m
      → IsMapping (oldest min_nano_time now duration) m
        × ((test : Point → Bool) → count_all test m ≡ count test ps)
  unfolding map_shards map_with
  map_shards-IsMapping min_nano_time now duration policy ps m valid found success =
      let min = oldest min_nano_time now duration in
      let mapped =
        sym (ap (λ rp. lift c rp >>= λ rp. map_with c min_nano_time now ps rp) found) ∙ success in
      let (l, made, gives) =
        >>=-eq-ok (λ l. ok (map_points c l ps no_points)) (add_groups c min ps []) mapped in
      let (grows, young) = add_groups-Covering c valid min ps [] l (tt, tt) made in
      let same : map_points c l ps no_points ≡ m = cc (gives) in
      subst (λ m. IsMapping min m × ((test : Point → Bool) → count_all test m ≡ count test ps)) same
        (
          map_points-IsMapping min l grows.groups ps no_points young
              (record { belong = tt; old = tt }),
          λ test. omega (arith, count_all-map_points test l ps no_points),
        )
