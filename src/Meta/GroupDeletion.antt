-- ===== src/Meta/GroupDeletion.antt =====
-- services/meta/data.go: DeleteShardGroup.
use chronus.Base.{
  ℕ, zero, suc, ◌≡◌, ◌≢◌, refl, ap, ◌∙◌, List, [], ◌∷◌, Option, none, some, String, ok, err, panic,
  arith, get_elem?, set, ◌==◌, if◌then◌else◌, Bool-cases, Option-cases, inl, inr,
}
use chronus.Meta.Types.{
  ShardGroupInfo, RetentionPolicyInfo, DatabaseInfo, Data, Method, retention_policy_not_found,
  shard_group_not_found,
}
use chronus.Meta.Groups.{Influx, Place, policy_at, set_policy}

-- The loop over `rpi.ShardGroups`; `none` if it ends without a group of that id.
unfoldable pub mark_deleted : ℕ → ℕ → List ShardGroupInfo → Option (List ShardGroupInfo)
mark_deleted id t [] = none
mark_deleted id t (g ∷ gs) =
    if g.id == id
    then some (record g { deleted_at = t } ∷ gs)
    else elim (mark_deleted id t gs) [ none ↦ none | some gs' ↦ some (g ∷ gs') ]

unfoldable pub delete_shard_group : Influx → String → String → ℕ → ℕ → Method (Unit {0})
delete_shard_group influx database policy id t d =
    elim (influx.retention_policy d.databases database policy) [
      | err e ↦ (err e, d)
      | panic ↦ (panic, d)
      | ok none ↦ (err retention_policy_not_found, d)
      | ok (some place) ↦ elim (policy_at place d.databases) [
        | none ↦ (panic, d)
        | some rp ↦ elim (mark_deleted id t rp.shard_groups) [
          | none ↦ (err shard_group_not_found, d)
          | some gs ↦ (
            ok tt,
            record d { databases = set_policy place (record rp { shard_groups = gs }) d.databases },
          )
        ]
      ]
    ]

-- The first group with an id.
abbrev pub group_of : ℕ → List ShardGroupInfo → Option ShardGroupInfo
group_of id [] = none
group_of id (g ∷ gs) = if g.id == id then some g else group_of id gs

-- What is found for `j` once the group `id` is marked.
abbrev marked : ℕ → ℕ → ℕ → Option ShardGroupInfo → Option ShardGroupInfo
marked id t j none = none
marked id t j (some g) = some (if id == j then record g { deleted_at = t } else g)

group_of-mark_deleted :
    (id t j : ℕ) (gs gs' : List ShardGroupInfo)
    → mark_deleted id t gs ≡ some gs'
    → group_of j gs' ≡ marked id t j (group_of j gs)
unfolding mark_deleted
group_of-mark_deleted id t j [] gs' h = cc
group_of-mark_deleted id t j (g ∷ gs) gs' h = elim (Option-cases (mark_deleted id t gs)) [
  | inl stuck ↦ ground arith
  | inr (rest, e) ↦ ground (arith, group_of-mark_deleted id t j gs rest e)
]

mark_deleted-some :
    (id t : ℕ) (gs : List ShardGroupInfo) (g : ShardGroupInfo)
    → group_of id gs ≡ some g
    → (gs' : List ShardGroupInfo) × (mark_deleted id t gs ≡ some gs')
unfolding mark_deleted
mark_deleted-some id t [] g h = cc
mark_deleted-some id t (x ∷ gs) g h = elim (Bool-cases (x.id == id)) [
  | inl this ↦ (record x { deleted_at = t } ∷ gs, rw this)
  | inr other ↦
      let (gs', e) = mark_deleted-some id t gs g (rw other at h) in (x ∷ gs', rw (other, e))
]

marked_other : (id t j : ℕ) (o : Option ShardGroupInfo) → id ≢ j → marked id t j o ≡ o
marked_other id t j none ne = refl
marked_other id t j (some g) ne = ground arith

get_elem?-set :
    {A : Type 0} (xs : List A) (i : ℕ) (x y : A)
    → get_elem? xs i ≡ some x
    → get_elem? (set xs i y) i ≡ some y
get_elem?-set [] i x y h = cc
get_elem?-set (z ∷ xs) zero x y h = refl
get_elem?-set (z ∷ xs) (suc i) x y h = get_elem?-set xs i x y h

-- What is written through the pointer is read through it.
policy_at-set_policy :
    (place : Place) (dbs : List DatabaseInfo) (rp rp' : RetentionPolicyInfo)
    → policy_at place dbs ≡ some rp
    → policy_at place (set_policy place rp' dbs) ≡ some rp'
unfolding policy_at set_policy
policy_at-set_policy (i, j) dbs rp rp' h = elim (Option-cases (get_elem? dbs i)) [
  | inl absent ↦ ground arith
  | inr (db, there) ↦
      let db' = record db { retention_policies = set db.retention_policies j rp' } in
      ground (arith, get_elem?-set dbs i db db' there, get_elem?-set db.retention_policies j rp rp')
]

-- Where the policy is found and has a group with the id, DeleteShardGroup succeeds. Looked up in
-- the policy, that group then has the time of deletion and is otherwise as before, and so are the
-- groups with other ids.
pub delete_shard_group_marks :
    (influx : Influx) (database policy : String) (id t : ℕ) (d : Data) (place : Place)
    (rp : RetentionPolicyInfo) (g : ShardGroupInfo)
    → influx.retention_policy d.databases database policy ≡ ok (some place)
    → policy_at place d.databases ≡ some rp
    → group_of id rp.shard_groups ≡ some g
    → (rp' : RetentionPolicyInfo) × ((delete_shard_group influx database policy id t d).0 ≡ ok tt)
      × (policy_at place (delete_shard_group influx database policy id t d).1.databases ≡ some rp')
      × (group_of id rp'.shard_groups ≡ some (record g { deleted_at = t }))
      × ((j : ℕ) → id ≢ j → group_of j rp'.shard_groups ≡ group_of j rp.shard_groups)
unfolding delete_shard_group
delete_shard_group_marks influx database policy id t d place rp g found there has =
    let (gs, e) = mark_deleted-some id t rp.shard_groups g has in
    let rp' = record rp { shard_groups = gs } in
    let done : delete_shard_group influx database policy id t d
        ≡ (ok tt, record d { databases = set_policy place rp' d.databases }) =
      ground (arith, found, there, e) in
    let found_in = λ (j : ℕ). group_of-mark_deleted id t j rp.shard_groups gs e in
    (
      rp',
      ap (λ r. r.0) done,
      rw done (policy_at-set_policy place d.databases rp rp' there),
      found_in id ∙ ap (marked id t id) has ∙ ground arith,
      λ j ne. found_in j ∙ marked_other id t j (group_of j rp.shard_groups) ne,
    )
